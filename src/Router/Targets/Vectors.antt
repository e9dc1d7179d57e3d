-- ===== src/Router/Targets/Vectors.antt =====
-- The vectors that routes point to, and the keys of routes.
use eiptnd.Prelude.{
  both, ℕ, zero, suc, ◌≡◌, ◌≢◌, ◌<◌, ◌↔◌, refl, ap, true, false, some, List, [], ◌∷◌, ◌++◌, length,
  get_elem?, arith, ==_iff, equal_refl, Bytes, equal_iff, equal, ◌==◌,
}
use eiptnd.Router.Routes.{push_back, Dispatcher, same_key, RouteKey, or_nil}

pub same_key_iff : (k j : RouteKey) → (same_key k j ≡ true) ↔ (k ≡ j)
same_key_iff (p, u) (q, v) = (
  (λ h. let (a, b) = both (p == q) (equal u v) h in pair ((==_iff p q).0 a) ((equal_iff u v).0 b)),
  λ e. rw (ap (λ k. k.0) e) (rw (ap (λ k. k.1) e) (rw ((==_iff q q).1 refl) (equal_refl v))),
)
  where
    pair : {p q : ℕ} {u v : Bytes} → p ≡ q → u ≡ v → ◌≡◌ {A = RouteKey} (p, u) (q, v)
    pair {p} {q} {u} {v} e f = rw (e, f)

pub differs : (k j : RouteKey) → same_key k j ≡ false → k ≢ j
differs k j e same = let yes = (same_key_iff k j).1 same in absurd cc

pub length-push_back :
    (a : ℕ) (d : Dispatcher) (vs : List (List Dispatcher)) → length (push_back a d vs) ≡ length vs
unfolding push_back
length-push_back a d [] = refl
length-push_back zero d (v ∷ vs) = refl
length-push_back (suc a) d (v ∷ vs) = ap suc (length-push_back a d vs)

pub push_back_self :
    (a : ℕ) (d : Dispatcher) (vs : List (List Dispatcher))
    → a < length vs
    → or_nil (get_elem? (push_back a d vs) a) ≡ or_nil (get_elem? vs a) ++ (d ∷ [])
unfolding push_back
push_back_self a d [] h = absurd (omega (arith, h))
push_back_self zero d (v ∷ vs) h = refl
push_back_self (suc a) d (v ∷ vs) h = push_back_self a d vs (omega (arith, h))

pub push_back_ne :
    (a b : ℕ) (d : Dispatcher) (vs : List (List Dispatcher))
    → a ≢ b
    → get_elem? (push_back a d vs) b ≡ get_elem? vs b
unfolding push_back
push_back_ne a b d [] n = refl
push_back_ne zero zero d (v ∷ vs) n = absurd (n refl)
push_back_ne zero (suc b) d (v ∷ vs) n = refl
push_back_ne (suc a) zero d (v ∷ vs) n = refl
push_back_ne (suc a) (suc b) d (v ∷ vs) n = push_back_ne a b d vs (λ e. n (ap suc e))

pub get_elem?-append {ℓ} :
    {A : Type ℓ} (b : ℕ) (vs ys : List A) → b < length vs → get_elem? (vs ++ ys) b ≡ get_elem? vs b
get_elem?-append b [] ys h = absurd (omega (arith, h))
get_elem?-append zero (v ∷ vs) ys h = refl
get_elem?-append (suc b) (v ∷ vs) ys h = get_elem?-append b vs ys (omega (arith, h))

pub get_elem?-length {ℓ} :
    {A : Type ℓ} (vs : List A) (y : A) → get_elem? (vs ++ (y ∷ [])) (length vs) ≡ some y
get_elem?-length [] y = refl
get_elem?-length (v ∷ vs) y = get_elem?-length vs y

-- ===== src/Router/Combiner.antt =====
-- `combiner` and `process_data` of src/request_router.cpp: one callback for several dispatchers.
use eiptnd.Prelude.{
  ℕ, zero, suc, ◌+◌, ◌≡◌, ◌<◌, refl, ap, ◌∙◌, Bool, true, false, ◌&&◌, List, [], ◌∷◌, length, arith,
  if◌then◌else◌,
}

-- The equality of two results.
abbrev same : Bool → Bool → Bool
same true b = b
same false true = false
same false false = true

-- `holders` counts the references to the shared object, `fired` the calls of the callback.
pub record Combiner : Type 0 where
  pub result : Bool
  pub holders : ℕ
  pub fired : List Bool

-- `combiner<..., bool, true>`: InitialResult and CompareResult are both true.
unfoldable pub create : ℕ → Combiner
create n = record { result = true; holders = n; fired = [] }

-- compare_exchange_strong(old, result) with old = CompareResult
unfoldable pub combine : Bool → Combiner → Combiner
combine result c = record c { result = if same c.result true then result else c.result }

-- A reference goes; with the last one the destructor calls the callback.
unfoldable dropped : ℕ → Combiner → Combiner
dropped zero c = c
dropped (suc zero) c = record c { holders = 0; fired = c.result ∷ c.fired }
dropped (suc (suc n)) c = record c { holders = suc n }

unfoldable pub release : Combiner → Combiner
unfolding dropped
release c = dropped c.holders c

-- What a dispatcher does with its callback: it calls it and lets it go, or it only lets it go.
pub data Reply : Type 0 where
  answers : Bool → Reply
  drops : Reply

unfoldable pub reply : Reply → Combiner → Combiner
unfolding combine release
reply (answers b) c = release (combine b c)
reply drops c = release c

unfoldable pub replies : List Reply → Combiner → Combiner
replies [] c = c
replies (r ∷ rs) c = replies rs (reply r c)

-- Every answer that was given is a success.
abbrev pub all_ok : List Reply → Bool
all_ok [] = true
all_ok (answers b ∷ rs) = b && all_ok rs
all_ok (drops ∷ rs) = all_ok rs

abbrev answer_of : Reply → Bool
answer_of (answers b) = b
answer_of drops = true

dropped-more :
    (n : ℕ) (c : Combiner)
    → 1 < n
    → ((dropped n c).fired ≡ c.fired)
      × ((dropped n c).holders + 1 ≡ n)
      × ((dropped n c).result ≡ c.result)
unfolding dropped
dropped-more zero c h = absurd (omega (arith, h))
dropped-more (suc zero) c h = absurd (omega (arith, h))
dropped-more (suc (suc n)) c h = (refl, omega arith, refl)

dropped-last : (n : ℕ) (c : Combiner) → n ≡ 1 → (dropped n c).fired ≡ c.result ∷ c.fired
unfolding dropped
dropped-last zero c e = absurd (omega (arith, e))
dropped-last (suc zero) c e = refl
dropped-last (suc (suc n)) c e = absurd (omega (arith, e))

combine_result : (x b : Bool) → (if same x true then b else x) ≡ (x && b)
combine_result true true = refl
combine_result true false = refl
combine_result false b = refl

and_true : (x : Bool) → x ≡ (x && true)
and_true true = refl
and_true false = refl

reply-more :
    (r : Reply) (c : Combiner)
    → 1 < c.holders
    → ((reply r c).fired ≡ c.fired)
      × ((reply r c).holders + 1 ≡ c.holders)
      × ((reply r c).result ≡ (c.result && answer_of r))
unfolding reply release combine
reply-more (answers b) c h =
    let (f, n, e) = dropped-more c.holders (combine b c) h in (f, n, e ∙ combine_result c.result b)
reply-more drops c h = let (f, n, e) = dropped-more c.holders c h in (f, n, e ∙ and_true c.result)

reply-last :
    (r : Reply) (c : Combiner)
    → c.holders ≡ 1
    → (reply r c).fired ≡ (c.result && answer_of r) ∷ c.fired
unfolding reply release combine
reply-last (answers b) c h =
    dropped-last c.holders (combine b c) h ∙ ap (λ x. x ∷ c.fired) (combine_result c.result b)
reply-last drops c h = dropped-last c.holders c h ∙ ap (λ x. x ∷ c.fired) (and_true c.result)

-- While dispatchers are missing the callback is not called: so many replies as are fewer than the
-- references that are held leave the calls as they were.
pub replies_pending :
    (rs : List Reply) (c : Combiner) → length rs < c.holders → (replies rs c).fired ≡ c.fired
unfolding replies
replies_pending [] c h = refl
replies_pending (r ∷ rs) c h =
    let (f, n, _) = reply-more r c (omega (arith, h)) in
    replies_pending rs (reply r c) (omega (arith, n, h)) ∙ f

all_ok_cons :
    (x : Bool) (r : Reply) (rs : List Reply)
    → ((x && answer_of r) && all_ok rs) ≡ (x && all_ok (r ∷ rs))
all_ok_cons true (answers b) rs = refl
all_ok_cons true drops rs = refl
all_ok_cons false r rs = refl

replies_from :
    (rs : List Reply) (c : Combiner)
    → 0 < c.holders
    → length rs ≡ c.holders
    → (replies rs c).fired ≡ (c.result && all_ok rs) ∷ c.fired
unfolding replies
replies_from [] c p h = absurd (omega (arith, p, h))
replies_from (r ∷ []) c p h =
    reply-last r c (omega (arith, h))
    ∙ ap (λ x. x ∷ c.fired) (and_true _ ∙ all_ok_cons c.result r [])
replies_from (r ∷ q ∷ rs) c p h =
    let (f, n, e) = reply-more r c (omega (arith, h)) in
    let now : ((reply r c).result && all_ok (q ∷ rs)) ∷ (reply r c).fired
        ≡ (c.result && all_ok (r ∷ q ∷ rs)) ∷ c.fired =
      ap (λ x. (x && all_ok (q ∷ rs)) ∷ (reply r c).fired) e
      ∙ (ap (λ x. x ∷ (reply r c).fired) (all_ok_cons c.result r (q ∷ rs))
          ∙ ap (λ x. (c.result && all_ok (r ∷ q ∷ rs)) ∷ x) f) in
    replies_from (q ∷ rs) (reply r c) (omega (arith, n, h)) (omega (arith, n, h)) ∙ now

-- Of the dispatchers of a tree, in whatever order they are done, the last one lets the callback be
-- called, once, with the conjunction of the answers; one that never answers counts as a success.
pub replies_lem :
    (rs : List Reply) → 0 < length rs → (replies rs (create (length rs))).fired ≡ all_ok rs ∷ []
unfolding create
replies_lem rs p = replies_from rs (create (length rs)) p refl

-- ===== src/Wialon/Grants.antt =====
-- The authentications that the request router grants before `api_->authenticate` returns.
use eiptnd.Prelude.{ℕ, zero, suc, ◌+◌, ◌≡◌, refl, Bool, true, Option, some, List, [], ◌∷◌, arith}
use eiptnd.Wialon.Machine.{
  Library, Parser, Call, process_data, do_read_until, do_write, authenticate,
}

abbrev pub grants : Option Bool → ℕ
grants (some true) = 1
grants _ = 0

-- How many of the calls were granted before they returned.
abbrev pub granted : (L : Library) → List (Call L.tree.Ptree) → ℕ
granted L [] = 0
granted L (process_data a t ∷ cs) = granted L cs
granted L (do_read_until d ∷ cs) = granted L cs
granted L (do_write r ∷ cs) = granted L cs
granted L (authenticate i p ∷ cs) = grants (L.authenticates i p) + granted L cs

-- Whether somebody is logged in when so many authentications were granted.
abbrev pub logged_in_after : ℕ → Bool → Bool
logged_in_after zero a = a
logged_in_after (suc n) a = true

logged_in_after-add :
    (m n k : ℕ) (a : Bool)
    → k ≡ n + m
    → logged_in_after k a ≡ logged_in_after n (logged_in_after m a)
logged_in_after-add zero zero zero a e = refl
logged_in_after-add (suc m) zero zero a e = absurd (omega arith)
logged_in_after-add m (suc n) zero a e = absurd (omega arith)
logged_in_after-add zero zero (suc k) a e = absurd (omega arith)
logged_in_after-add (suc m) zero (suc k) a e = refl
logged_in_after-add m (suc n) (suc k) a e = refl

module _ {L : Library} where
  -- Some authentications were granted, and they alone log anybody in; nobody is logged out.
  abbrev pub LogsIn : Parser L → Parser L → Type 0
  LogsIn s t =
      (n : ℕ) × (granted L t.calls ≡ n + granted L s.calls)
      × (t.authenticated ≡ logged_in_after n s.authenticated)

  pub LogsIn-trans : (s t u : Parser L) → LogsIn s t → LogsIn t u → LogsIn s u
  LogsIn-trans s t u (m, g, a) (n, h, b) = (
    n + m,
    omega (arith, g, h),
    rw (b, a, logged_in_after-add m n (n + m) s.authenticated refl) refl,
  )

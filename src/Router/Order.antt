-- ===== src/Router/Order.antt =====
-- The answers for a tree as a bag, which forgets the order in which the dispatchers gave them.
use eiptnd.Prelude.{
  ℕ, ◌+◌, ◌≡◌, refl, ap, ◌∙◌, Bool, true, false, ◌&&◌, List, [], ◌∷◌, length, map, arith, ◌==◌, ltb,
}
use mathlib.Core.Quot
use mathlib.Core.Quot.{Quot, Quot-set}
use native.Mathlib.Nat.{ℕ_set}
use eiptnd.Router.Combiner.{answers}
use eiptnd.Router.Process.{process_data, outcome, verdict, process_data_lem}
use eiptnd.Router.Routes.{Dispatcher}

-- How many of the answers are this one.
abbrev count : Bool → List Bool → ℕ
count a [] = 0
count true (true ∷ bs) = count true bs + 1
count true (false ∷ bs) = count true bs
count false (true ∷ bs) = count false bs
count false (false ∷ bs) = count false bs + 1

-- The same answers, as often.
abbrev pub SameAnswers : List Bool → List Bool → Type 0
SameAnswers bs cs = (a : Bool) → count a bs ≡ count a cs

abbrev pub Bag : Type 0
Bag = Quot SameAnswers

unfoldable pub occurrences : Bool → Bag → ℕ
occurrences a = Quot.lift ℕ_set (count a) (λ bs cs h. h a)

-- What a client is to be told: that its tree was taken, if one dispatcher took it and none refused.
unfoldable pub is_taken : Bag → Bool
unfolding occurrences
is_taken b = ltb 0 (occurrences true b) && (occurrences false b == 0)

count_total : (bs : List Bool) → count true bs + count false bs ≡ length bs
count_total [] = refl
count_total (true ∷ bs) = omega (arith, count_total bs)
count_total (false ∷ bs) = omega (arith, count_total bs)

verdict-count : (bs : List Bool) → verdict bs ≡ (ltb 0 (count true bs) && (count false bs == 0))
verdict-count [] = refl
verdict-count (true ∷ []) = refl
verdict-count (false ∷ []) = refl
verdict-count (true ∷ c ∷ bs) = verdict-count (c ∷ bs) ∙ ground (arith, count_total (c ∷ bs))
verdict-count (false ∷ c ∷ bs) = ground arith

-- When each dispatcher of a route answers, in any order, the callback of the connection is called
-- exactly once, and what it is told is what the bag of the answers says: whether one dispatcher at
-- least took the tree and none refused it.
pub process_data-is_taken :
    (targets : List Dispatcher) (bs : List Bool)
    → length bs ≡ length targets
    → outcome (process_data targets) (map answers bs) ≡ is_taken (Quot.mk bs) ∷ []
unfolding is_taken
process_data-is_taken targets bs h =
    process_data_lem targets bs h ∙ ap (λ b. b ∷ []) (verdict-count bs)

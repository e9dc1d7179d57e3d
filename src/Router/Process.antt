-- ===== src/Router/Process.antt =====
-- `process_data` of src/request_router.cpp: what is posted for a tree, and what the callback is told.
use eiptnd.Prelude.{
  ℕ, suc, ◌≡◌, refl, ap, sym, ◌∙◌, Bool, true, false, ◌&&◌, Option, none, some, List, [], ◌∷◌, map,
  length, arith, if◌then◌else◌, ltb,
}
use eiptnd.Router.Combiner.{Combiner, create, replies, Reply, answers, drops, all_ok, replies_lem}
use eiptnd.Router.Routes.{Dispatcher}

-- A job of the io_service: a dispatcher handles the tree, or the callback is called with false.
pub data Job : Type 0 where
  handle_process_data : Dispatcher → Job
  refuse : Job

-- The posted jobs, in order, and the combiner that their callbacks share, if there is one. Each job
-- holds one reference to it; those of `process_data` itself are gone when it returns.
pub record Posted : Type 0 where
  pub jobs : List Job
  pub comb : Option Combiner

unfoldable pub process_data : List Dispatcher → Posted
process_data targets =
    if ltb 1 (length targets)
    then (record { jobs = map handle_process_data targets; comb = some (create (length targets)) })
    else front targets
  where
    front : List Dispatcher → Posted
    front [] = record { jobs = refuse ∷ []; comb = none }
    front (target ∷ rest) = record { jobs = handle_process_data target ∷ []; comb = none }

-- The calls of a callback that one job has for itself.
abbrev called : Reply → List Bool
called (answers b) = b ∷ []
called drops = []

-- A job is done: a dispatcher replies, a refusal calls the callback itself.
abbrev done : List Job → List Reply → List Bool
done (handle_process_data target ∷ jobs) (r ∷ rs) = called r
done (refuse ∷ jobs) rs = false ∷ []
done _ _ = []

-- The calls of the callback when the jobs are done and the dispatchers reply as given.
unfoldable pub outcome : Posted → List Reply → List Bool
outcome posted rs = elim posted.comb [ none ↦ done posted.jobs rs | some c ↦ (replies rs c).fired ]

-- The answer for a tree: none of no dispatcher, else all of them.
abbrev pub verdict : List Bool → Bool
verdict [] = false
verdict (b ∷ []) = b
verdict (b ∷ c ∷ bs) = b && verdict (c ∷ bs)

and_true : (x : Bool) → (x && true) ≡ x
and_true true = refl
and_true false = refl

all_ok_answers : (b : Bool) (bs : List Bool) → all_ok (map answers (b ∷ bs)) ≡ verdict (b ∷ bs)
all_ok_answers b [] = and_true b
all_ok_answers b (c ∷ bs) = ap (λ x. b && x) (all_ok_answers c bs)

more_than_one : (n : ℕ) → ltb 1 (suc (suc n)) ≡ true
more_than_one n = ground arith

length-map : (bs : List Bool) → length (map answers bs) ≡ length bs
length-map [] = refl
length-map (b ∷ bs) = ap suc (length-map bs)

-- When each dispatcher of a route answers, whatever the order, the callback of the connection is
-- called exactly once, with true if there is a dispatcher and all answers are true, else with
-- false.
pub process_data_lem :
    (targets : List Dispatcher) (bs : List Bool)
    → length bs ≡ length targets
    → outcome (process_data targets) (map answers bs) ≡ verdict bs ∷ []
unfolding outcome process_data
process_data_lem [] [] h = refl
process_data_lem (t ∷ []) (b ∷ []) h = refl
process_data_lem [] (b ∷ bs) h = absurd (omega (arith, h))
process_data_lem (t ∷ ts) [] h = absurd (omega (arith, h))
process_data_lem (t ∷ []) (b ∷ c ∷ bs) h = absurd (omega (arith, h))
process_data_lem (t ∷ u ∷ ts) (b ∷ []) h = absurd (omega (arith, h))
process_data_lem (t ∷ u ∷ ts) (b ∷ c ∷ bs) h = rw (more_than_one (length ts)) (
    ap (λ n. (replies (map answers (b ∷ c ∷ bs)) (create n)).fired)
      (sym (length-map (b ∷ c ∷ bs) ∙ h))
    ∙ (replies_lem (map answers (b ∷ c ∷ bs)) (omega arith)
        ∙ ap (λ x. x ∷ []) (all_ok_answers b (c ∷ bs))))

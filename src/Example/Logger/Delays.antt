-- ===== src/Example/Logger/Delays.antt =====
-- Which callbacks the dispatcher calls, and how often.
use Prim.{Unit, tt}
use eiptnd.Prelude.{
  ℤ, ℕ, ◌+◌, ◌≡◌, refl, ap, sym, ◌∙◌, Bool, true, false, Option, none, some, List, [], ◌∷◌, ◌++◌,
  arith, if◌then◌else◌, ◌==◌, Bool-cases, inl, inr, Option-cases,
}
use mathlib.Core.Path.{subst}
use eiptnd.Json.Values.{Cast, Dptree}
use eiptnd.Redis.Dispatcher.{WriteJson}
use eiptnd.Timer.{from_chrono, add, less_than}
use eiptnd.Example.Logger.{
  Result, ok, err, DelayedCallback, Logger, create, call, delay_call, to_signed, run, load_settings,
  handle_process_data,
}

abbrev pub calls_of : ℕ → List (ℕ × Bool) → ℕ
calls_of k [] = 0
calls_of k ((j, b) ∷ cs) = (if j == k then 1 else 0) + calls_of k cs

abbrev pub timers_of : ℕ → List DelayedCallback → ℕ
timers_of k [] = 0
timers_of k (c ∷ cs) = (if c.callback == k then 1 else 0) + timers_of k cs

-- Calls made, and callbacks that wait for their timers.
abbrev pub tally : ℕ → Logger → ℕ
tally k s = calls_of k s.calls + timers_of k s.timers

abbrev pub AllTrue : List (ℕ × Bool) → Type 0
AllTrue [] = Unit {0}
AllTrue ((k, b) ∷ cs) = (b ≡ true) × AllTrue cs

abbrev pub Expired : ℤ → List DelayedCallback → Type 0
Expired now [] = Unit {0}
Expired now (c ∷ cs) = (less_than now c.expiry ≡ false) × Expired now cs

timers_of-append :
    (k : ℕ) (xs ys : List DelayedCallback)
    → timers_of k (xs ++ ys) ≡ timers_of k xs + timers_of k ys
timers_of-append k [] ys = omega arith
timers_of-append k (c ∷ xs) ys = omega (arith, timers_of-append k xs ys)

module _ {C : Cast} (json : WriteJson C) where
  -- The settings are loaded, a tree is handed over, or a timer that has expired completes its wait.
  pub data Step : Logger → Logger → Type 0 where
    loads : (delay : Option ℕ) (s : Logger) → Step s (load_settings delay s)
    processes :
        (tree : Dptree C) (k : ℕ) (now : ℤ) {s t : Logger}
        → handle_process_data json tree k now s ≡ ok t
        → Step s t
    expires :
        (before after : List DelayedCallback) (c : DelayedCallback) (now : ℤ) (s : Logger)
        → s.timers ≡ before ++ (c ∷ after)
        → less_than now c.expiry ≡ false
        → Step s (run before c after s)

  pub data Reach (s : Logger) : Logger → Type 0 where
    here : Reach s s
    next : {t u : Logger} → Reach s t → Step t u → Reach s u

  -- How often the callback was handed over on the way.
  abbrev pub submitted : ℕ → {s t : Logger} → Step s t → ℕ
  submitted k (processes tree j now e) = if j == k then 1 else 0
  submitted k _ = 0

  abbrev pub handed_over : ℕ → {s t : Logger} → Reach s t → ℕ
  handed_over k here = 0
  handed_over k (next r st) = handed_over k r + submitted k st

  -- What a result keeps: the number of calls and timers of the callback, with `n` more.
  abbrev Tallies : ℕ → ℕ → Logger → Result Logger → Type 0
  Tallies k n s (ok t) = (tally k t ≡ tally k s + n) × (AllTrue s.calls → AllTrue t.calls)
  Tallies k n s (err f) = Unit {0}

  delay_call-Tallies :
      (k j ms : ℕ) (now : ℤ) (s : Logger)
      → Tallies k (if j == k then 1 else 0) s (delay_call now ms j s)
  unfolding delay_call
  delay_call-Tallies k j ms now s = elim (Option-cases (from_chrono 1000000 (to_signed ms))) [
    | inl e ↦ rw e tt
    | inr (d, e) ↦ rw e (elim (Option-cases (add now d)) [
      | inl f ↦ rw f tt
      | inr (expiry, f) ↦ rw f (
          (
            omega (
              arith,
              timers_of-append k s.timers (record { callback = j; expiry = expiry } ∷ []),
            ),
            λ v. v,
          ))
    ])
  ]

  handle_process_data-Tallies :
      (tree : Dptree C) (k j : ℕ) (now : ℤ) (s : Logger)
      → Tallies k (if j == k then 1 else 0) s (handle_process_data json tree j now s)
  unfolding handle_process_data call
  handle_process_data-Tallies tree k j now s = elim (Option-cases (json.write_json tree true)) [
    | inl e ↦ rw e tt
    | inr (b, e) ↦ rw e (elim (Option-cases s.delay) [
      | inl f ↦ rw f tt
      | inr (ms, f) ↦ simp f (elim (Bool-cases (ms == 0)) [
        | inl z ↦ rw z ((omega arith, λ v. (refl, v)))
        | inr z ↦ rw z (delay_call-Tallies k j ms now s)
      ])
    ])
  ]

  run-tally :
      (k : ℕ) (before after : List DelayedCallback) (c : DelayedCallback) (s : Logger)
      → s.timers ≡ before ++ (c ∷ after)
      → tally k (run before c after s) ≡ tally k s
  unfolding run call
  run-tally k before after c s e = omega (
    arith,
    ap (timers_of k) e,
    timers_of-append k before (c ∷ after),
    timers_of-append k before after,
  )

  load_settings-tally :
      (k : ℕ) (delay : Option ℕ) (s : Logger)
      → (tally k (load_settings delay s) ≡ tally k s) × ((load_settings delay s).calls ≡ s.calls)
  unfolding load_settings
  load_settings-tally k none s = (refl, refl)
  load_settings-tally k (some ms) s = (refl, refl)

  found :
      (k n : ℕ) (s : Logger) (r : Result Logger) {t : Logger}
      → Tallies k n s r
      → r ≡ ok t
      → Tallies k n s (ok t)
  found k n s r v e = subst (Tallies k n s) e v

  Step-Tallies : (k : ℕ) {s t : Logger} (st : Step s t) → Tallies k (submitted k st) s (ok t)
  unfolding run call
  Step-Tallies k (loads delay s) =
      let (e, f) = load_settings-tally k delay s in (omega (arith, e), λ v. subst AllTrue (sym f) v)
  Step-Tallies k {s} (processes tree j now e) =
      found k _ s _ (handle_process_data-Tallies tree k j now s) e
  Step-Tallies k (expires before after c now s e h) =
      (omega (arith, run-tally k before after c s e), λ v. (refl, v))

  Reach-Tallies :
      (k : ℕ) {s : Logger} (r : Reach create s) → Tallies k (handed_over k r) create (ok s)
  Reach-Tallies k here = (omega arith, λ v. v)
  Reach-Tallies k (next r st) =
      let (e, f) = Reach-Tallies k r in
      let (g, h) = Step-Tallies k st in (omega (arith, e, g), λ v. h (f v))

  join : {s t u : Logger} → Reach s t → Reach t u → Reach s u
  join r here = r
  join r (next q st) = next (join r q) st

  drained :
      (now : ℤ) (cs : List DelayedCallback) (s : Logger)
      → s.timers ≡ cs
      → Expired now cs
      → (t : Logger) × Reach s t
        × (t.timers ≡ [])
        × ((k : ℕ) → tally k t ≡ tally k s)
        × (AllTrue s.calls → AllTrue t.calls)
  unfolding run call
  drained now [] s e h = (s, here, e, λ k. refl, λ v. v)
  drained now (c ∷ cs) s e (h, hs) =
      let (t, r, f, g, v) = drained now cs (run [] c cs s) refl hs in
      (
        t,
        join (next here (expires [] cs c now s e h)) r,
        f,
        λ k. g k ∙ run-tally k [] cs c s e,
        λ a. v (refl, a),
      )

  -- After any loading of settings, any trees and any timers, in any order and with no handler
  -- stopped by a fault, the timers that are waited for can all complete at a time at which they
  -- have expired; then none is waited for, and each callback was called as often in all as it was
  -- handed over, each time with `true`.
  pub Reach-drained :
      (k : ℕ) (now : ℤ) (s : Logger) (r : Reach create s)
      → Expired now s.timers
      → (t : Logger) × Reach s t
        × (t.timers ≡ [])
        × (calls_of k t.calls ≡ handed_over k r)
        × AllTrue t.calls
  Reach-drained k now s r h =
      let (e, f) = Reach-Tallies k r in
      let (t, q, n, g, v) = drained now s.timers s refl h in
      (t, q, n, omega (arith, e, g k, ap (timers_of k) n), v (f tt))

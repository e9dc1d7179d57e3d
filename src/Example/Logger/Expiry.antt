-- ===== src/Example/Logger/Expiry.antt =====
-- When the dispatcher calls a callback.
use eiptnd.Prelude.{
  ℤ, pos, ◌+ℤ◌, ℕ, ◌*◌, ◌≡◌, refl, sym, Bool, true, some, List, [], ◌∷◌, ◌++◌, Bytes, map,
  append-nil, arith, if◌then◌else◌, ◌==◌, ltb, Bool-cases, inl, inr,
}
use eiptnd.Json.Values.{Cast, Dptree}
use eiptnd.Redis.Dispatcher.{WriteJson}
use eiptnd.Timer.{fits, from_chrono, add, less_than, less_sum}
use eiptnd.Example.Logger.{
  ok, DelayedCallback, Logger, call, delay_call, to_signed, handle_process_data,
}

module _ {C : Cast} (json : WriteJson C) where
  to_signed-pos : (n : ℕ) → fits (pos (n * 1000000)) ≡ true → to_signed n ≡ pos n
  unfolding to_signed
  to_signed-pos n h = ground arith

  -- A tree that `write_json` does not refuse, given with a callback at the time `now` after the
  -- settings asked for a delay of `ms` milliseconds, where the clock can hold the delay and the
  -- time at which it ends: without a delay the callback is called at once, with `true`, and no
  -- timer is started; else nothing is called, and one timer is started, which `n` nanoseconds later
  -- has expired exactly if the delay is over.
  pub handle_process_data-less_than :
      (tree : Dptree C) (k ms n : ℕ) (now : ℤ) (s : Logger) (b : Bytes)
      → json.write_json tree true ≡ some b
      → s.delay ≡ some ms
      → fits (pos (ms * 1000000)) ≡ true
      → fits (now +ℤ pos (ms * 1000000)) ≡ true
      → (t : Logger) × (started : List DelayedCallback) × (handle_process_data json tree k now s
          ≡ ok t)
        × (t.calls ≡ (if ms == 0 then (k, true) ∷ s.calls else s.calls))
        × (t.timers ≡ s.timers ++ started)
        × (map {B = ℕ × Bool} (λ c. (c.callback, less_than (now +ℤ pos n) c.expiry)) started
            ≡ (if ms == 0 then [] else (k, ltb n (ms * 1000000)) ∷ []))
  unfolding handle_process_data call delay_call from_chrono add less_than
  handle_process_data-less_than tree k ms n now s b w e f g = elim (Bool-cases (ms == 0)) [
    | inl z ↦ (
      record s { calls = (k, true) ∷ s.calls },
      [],
      rw (w, e, z) refl,
      rw z refl,
      sym (append-nil s.timers),
      rw z refl,
    )
    | inr z ↦ (
      record s {
        timers = s.timers ++ (record { callback = k; expiry = now +ℤ pos (ms * 1000000) } ∷ []);
      },
      record { callback = k; expiry = now +ℤ pos (ms * 1000000) } ∷ [],
      rw (w, e, z, to_signed-pos ms f, f, g) refl,
      rw z refl,
      refl,
      rw (z, less_sum now n (ms * 1000000)) refl,
    )
  ]

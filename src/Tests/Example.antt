-- ===== src/Tests/Example.antt =====
-- The example plugins: a client of the echo translator, and a delayed callback.
use Prim.{tt}
use eiptnd.Prelude.{
  pos, ◌+ℤ◌, ℕ, zero, suc, ◌≡◌, refl, ap, Bool, true, some, List, [], ◌∷◌, ◌++◌, Bytes, codes,
  length, arith, map,
}
use eiptnd.Net.Session.{Session, ok, create, on_connection, release_connection}
use eiptnd.Timer.{less_than}
use eiptnd.Timer
use eiptnd.Json.Writer.{write_json_helper}
use eiptnd.Example.Echo.{translator}
use eiptnd.Example.Echo.Exchange.{waiting, exchange, on_connection-exchange}
use eiptnd.Example.Logger.{Logger, DelayedCallback, handle_process_data, delay_call, load_settings}
use eiptnd.Example.Logger
use eiptnd.Example.Logger.Delays.{
  Reach, here, next, loads, processes, calls_of, AllTrue, Reach-drained,
}
use eiptnd.Example.Logger.Expiry.{handle_process_data-less_than}
use eiptnd.Tests.Json.{cast, escape, tree}
use eiptnd.Tests.Dispatcher.{json}

-- So many zero bytes.
abbrev zeros : ℕ → Bytes
zeros zero = []
zeros (suc n) = 0 ∷ zeros n

length-zeros : (n : ℕ) → length (zeros n) ≡ n
length-zeros zero = refl
length-zeros (suc n) = ap suc (length-zeros n)

on_connection-exchange_example :
    (s : Session translator) × (front : Bytes) × (on_connection (create (zeros 8191 ++ (0 ∷ [])))
      ≡ ok s)
    × (exchange (codes "abc" ∷ codes "de" ∷ []) (release_connection s)
        ≡ ok (codes "abc" ∷ codes "de" ∷ [], waiting (front ++ (0 ∷ []))))
on_connection-exchange_example =
    on_connection-exchange (codes "abc" ∷ codes "de" ∷ []) (zeros 8191) (length-zeros 8191)
      (omega arith, omega arith, (omega arith, omega arith, tt))

abbrev loaded : Logger
loaded = record { delay = some 2; timers = []; calls = [] }

abbrev delayed : Logger
delayed = record loaded { timers = record { callback = 7; expiry = pos 2000100 } ∷ [] }

processed : handle_process_data json tree 7 (pos 100) loaded ≡ Logger.ok delayed
unfolding handle_process_data delay_call Logger.to_signed Timer.from_chrono Timer.add
processed = refl

reached : Reach json Logger.create delayed
unfolding load_settings
reached = next (next here (loads (some 2) Logger.create)) (processes tree 7 (pos 100) processed)

Reach-drained_example :
    (t : Logger) × Reach json delayed t
    × (t.timers ≡ [])
    × (calls_of 7 t.calls ≡ 1)
    × AllTrue t.calls
unfolding less_than reached
Reach-drained_example = Reach-drained json 7 (pos 2000100) delayed reached (refl, tt)

handle_process_data-less_than_example :
    (t : Logger) × (started : List DelayedCallback) × (handle_process_data json tree 7
        (pos 100)
        loaded
      ≡ Logger.ok t)
    × (t.calls ≡ [])
    × (t.timers ≡ started)
    × (map {B = ℕ × Bool} (λ c. (c.callback, less_than (pos 100 +ℤ pos 5) c.expiry)) started
        ≡ (7, true) ∷ [])
handle_process_data-less_than_example =
    handle_process_data-less_than json tree 7 2 5 (pos 100) loaded
      (write_json_helper {C = cast} escape tree 0 true ++ (b'\n' ∷ [])) refl refl refl refl

-- ===== src/Example/Logger.antt =====
-- The dispatcher of example/dispatcher_logger/dispatcher_logger.{hpp,cpp}, which reports every tree
-- as processed, at once or after a delay. Log records are left out, but not the printing of the tree
-- for one, which may fail.
pub mod Delays
pub mod Expiry
use eiptnd.Prelude.{
  neg_of, ◌-◌, ◌^◌, ltb, ℤ, pos, ℕ, Bool, true, Option, none, some, List, [], ◌∷◌, ◌++◌, Bytes,
  codes, if◌then◌else◌, ◌==◌,
}
use eiptnd.Json.Values.{Cast, Dptree}
use eiptnd.Redis.Dispatcher.{WriteJson}
use eiptnd.Timer.{from_chrono, add}

-- A tree that JSON cannot show; `delay_` before it was assigned; a delay that the clock cannot hold.
pub data Fault : Type 0 where
  bad_json unassigned overflow : Fault

pub data Result (A : Type 0) : Type 0 where
  ok : A → Result A
  err : Fault → Result A

infixl 5 ◌>>=◌
abbrev pub ◌>>=◌ : {A B : Type 0} → Result A → (A → Result B) → Result B
ok a >>= f = f a
err e >>= f = err e

abbrev or_fail : {A : Type 0} → Fault → Option A → Result A
or_fail f none = err f
or_fail f (some a) = ok a

-- `delayed_callback`: a callback of a caller, by its number, and the time at which the timer of the
-- object expires. The handler of the timer keeps the object.
pub record DelayedCallback : Type 0 where
  pub callback : ℕ
  pub expiry : ℤ

-- `timers` are the timers that are waited for; `calls` holds the calls of callbacks, the latest
-- first.
pub record Logger : Type 0 where
  pub delay : Option ℕ
  pub timers : List DelayedCallback
  pub calls : List (ℕ × Bool)

abbrev pub create : Logger
create = record { delay = none; timers = []; calls = [] }

unfoldable pub call : ℕ → Bool → Logger → Logger
call k is_ok s = record s { calls = (k, is_ok) ∷ s.calls }

-- A std::size_t as a signed number of 64 bits, which boost::chrono::milliseconds holds.
unfoldable pub to_signed : ℕ → ℤ
to_signed n = if ltb n (2 ^ 63) then pos n else neg_of (2 ^ 64 - n)

-- delayed_callback::delay at the time `now`
unfoldable pub delay_call : ℤ → ℕ → ℕ → Logger → Result Logger
delay_call now delay_ms k s = or_fail overflow (from_chrono 1000000 (to_signed delay_ms)) >>= λ d.
    or_fail overflow (add now d) >>= λ expiry.
    ok (record s { timers = s.timers ++ (record { callback = k; expiry = expiry } ∷ []) })

-- delayed_callback::run, for the timer that stood behind `before`
unfoldable pub run : List DelayedCallback → DelayedCallback → List DelayedCallback → Logger → Logger
run before c after s = call c.callback true (record s { timers = before ++ after })

-- What `get` finds under "delay".
unfoldable pub load_settings : Option ℕ → Logger → Logger
load_settings none s = record s { delay = some 0 }
load_settings (some delay) s = record s { delay = some delay }

module _ {C : Cast} (json : WriteJson C) where
  unfoldable pub handle_process_data : Dptree C → ℕ → ℤ → Logger → Result Logger
  handle_process_data tree callback now s = or_fail bad_json (json.write_json tree true) >>= λ text.
      or_fail unassigned s.delay >>= λ delay.
      if delay == 0 then ok (call callback true s) else delay_call now delay callback s

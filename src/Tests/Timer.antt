-- ===== src/Tests/Timer.antt =====
-- The clock of relative_timer.hpp at small times.
use eiptnd.Prelude.{ℤ, pos, negsuc, ◌≡◌, refl, false, some}
use eiptnd.Timer.{from_chrono, add, subtract, less_than, to_posix_duration, less_than-add}

-- A timer of 2 milliseconds, started before the epoch of the clock, half a microsecond too late.
less_than-add_example :
    (d expiry now left : ℤ) × (from_chrono 1000000 (pos 2) ≡ some d)
    × (add (negsuc 99) d ≡ some expiry)
    × (add (negsuc 99) (pos 2000500) ≡ some now)
    × (less_than now expiry ≡ false)
    × (subtract expiry now ≡ some left)
    × (to_posix_duration left ≡ pos 0)
less_than-add_example = less_than-add 1000000 2 2000500 (negsuc 99) refl refl refl refl

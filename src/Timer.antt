-- ===== src/Timer.antt =====
-- The clock of include/relative_timer.hpp: durations in nanoseconds, as boost::chrono counts them,
-- and in microseconds, as boost::posix_time does. Both counts are signed numbers of 64 bits, and an
-- operation whose result does not fit gives `none`: C++ does not define it.
use eiptnd.Prelude.{
  ℤ, pos, negsuc, neg_of, -ℤ, difference, ◌+ℤ◌, less, ℕ, suc, ◌+◌, ◌*◌, ◌^◌, ◌≡◌, refl, ap, Bool,
  true, Option, none, some, arith, if◌then◌else◌, ltb,
}
use Prim.Native.Nat.{◌/◌}

-- An integer times a positive number.
abbrev pub scale : ℕ → ℤ → ℤ
scale k (pos n) = pos (n * k)
scale k (negsuc n) = neg_of (suc n * k)

-- The quotient of an integer and 1000, rounded to zero.
abbrev pub thousandth : ℤ → ℤ
thousandth (pos n) = pos (n / 1000)
thousandth (negsuc n) = neg_of (suc n / 1000)

abbrev pub fits : ℤ → Bool
fits (pos n) = ltb n (2 ^ 63)
fits (negsuc n) = ltb n (2 ^ 63)

abbrev pub checked : ℤ → Option ℤ
checked z = if fits z then some z else none

-- castable_duration of a duration of another period, so many nanoseconds long.
unfoldable pub from_chrono : ℕ → ℤ → Option ℤ
from_chrono period count = checked (scale period count)

-- castable_duration of a boost::posix_time::time_duration
unfoldable pub from_posix : ℤ → Option ℤ
from_posix total_microseconds = checked (scale 1000 total_microseconds)

-- castable_duration of any object that can be cast to a boost::posix_time::time_duration
unfoldable pub from_castable : {A : Type 0} → (A → ℤ) → A → Option ℤ
from_castable cast ctp = from_posix (cast ctp)

-- operator posix_duration
unfoldable pub to_posix : ℤ → ℤ
to_posix d = thousandth d

unfoldable pub add : ℤ → ℤ → Option ℤ
add t d = checked (t +ℤ d)

unfoldable pub subtract : ℤ → ℤ → Option ℤ
subtract t1 t2 = checked (t1 +ℤ -ℤ t2)

unfoldable pub less_than : ℤ → ℤ → Bool
less_than t1 t2 = less t1 t2

unfoldable pub to_posix_duration : ℤ → ℤ
to_posix_duration d = to_posix d

scaled_back : (z : ℤ) → thousandth (scale 1000 z) ≡ z
scaled_back (pos n) = ap pos (omega arith)
scaled_back (negsuc n) =
    let whole : suc n * 1000 ≡ suc (n * 1000 + 999) = omega arith in
    let back : suc (n * 1000 + 999) / 1000 ≡ suc n = omega arith in rw (whole, back) refl

-- A duration of microseconds survives the way through the clock's own, if that can hold it.
pub to_posix-from_posix :
    (z : ℤ) → fits (scale 1000 z) ≡ true → (d : ℤ) × (from_posix z ≡ some d) × (to_posix d ≡ z)
unfolding from_posix to_posix
to_posix-from_posix z h = (scale 1000 z, rw h refl, scaled_back z)

pub less_sum : (t : ℤ) (k m : ℕ) → less (t +ℤ pos k) (t +ℤ pos m) ≡ ltb k m
less_sum (pos t) k m = ground arith
less_sum (negsuc t) k m = ground arith

difference_sum : (t : ℤ) (k m : ℕ) → (t +ℤ pos m) +ℤ -ℤ (t +ℤ pos k) ≡ difference m k
difference_sum (pos t) k m = ground arith
difference_sum (negsuc t) k m = ground arith

-- A timer that is set at the time `t` to `n` units of `period` nanoseconds still runs `k`
-- nanoseconds later exactly if `k` is less than that duration; and the time that is left, as asio
-- asks for it, is the difference of the two in whole microseconds, rounded to zero, and negative
-- when the timer should have expired that long ago. The clock can hold the duration, the
-- difference, the time at which the timer expires and the later time.
pub less_than-add :
    (period n k : ℕ) (t : ℤ)
    → fits (pos (n * period)) ≡ true
    → fits (t +ℤ pos (n * period)) ≡ true
    → fits (t +ℤ pos k) ≡ true
    → fits (difference (n * period) k) ≡ true
    → (d expiry now left : ℤ) × (from_chrono period (pos n) ≡ some d)
      × (add t d ≡ some expiry)
      × (add t (pos k) ≡ some now)
      × (less_than now expiry ≡ ltb k (n * period))
      × (subtract expiry now ≡ some left)
      × (to_posix_duration left ≡ thousandth (difference (n * period) k))
unfolding from_chrono add subtract less_than to_posix_duration to_posix
less_than-add period n k t f g h l = (
  pos (n * period),
  t +ℤ pos (n * period),
  t +ℤ pos k,
  difference (n * period) k,
  rw f refl,
  rw g refl,
  rw h refl,
  less_sum t k (n * period),
  rw (difference_sum t k (n * period), l) refl,
  refl,
)

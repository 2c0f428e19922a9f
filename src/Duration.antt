-- ===== src/Duration.antt =====
-- Durations of Go's time package in nanoseconds, and durationSeconds of
-- internal/store/idempotency.go, by which the store rounds a lease, a retention or a window up to
-- whole seconds.
use Prim.Native.Nat.{◌/◌, ◌%◌}
use complicatedauth_backend.Prelude.{
  ℕ, suc, ◌+◌, ◌-◌, ◌*◌, ◌≤◌, ◌<◌, ◌≡◌, Bool, arith, ltb, ◌==◌, not, if◌then◌else◌,
}
use complicatedauth_backend.Prelude.Int.{ℤ, pos, negsuc, pos_part, neg_part, ltb_ℤ}

-- time.Second, time.Minute and time.Hour
abbrev pub second : ℕ
second = 1000000000

abbrev pub minute : ℕ
minute = 60000000000

abbrev pub hour : ℕ
hour = 3600000000000

-- int64(duration / time.Second): Go's division goes towards zero.
unfoldable pub whole_seconds : ℤ → ℤ
whole_seconds (pos n) = pos (n / second)
whole_seconds (negsuc n) = if ltb (suc n) second then pos 0 else negsuc (suc n / second - 1)

-- seconds++
unfoldable pub increment : ℤ → ℤ
increment (pos n) = pos (n + 1)
increment (negsuc n) = if n == 0 then pos 0 else negsuc (n - 1)

-- duration%time.Second != 0
unfoldable pub has_fraction : ℤ → Bool
has_fraction d = not ((pos_part d + neg_part d) % second == 0)

-- durationSeconds
unfoldable pub duration_seconds : ℤ → ℕ
unfolding whole_seconds increment has_fraction
duration_seconds duration =
    let seconds =
      if has_fraction duration
      then increment (whole_seconds duration)
      else whole_seconds duration in
    if ltb_ℤ seconds (pos 1) then 1 else pos_part seconds

-- A positive duration is rounded up to the next whole second, and by less than a second.
pub duration_seconds_rounds_up :
    (d : ℕ)
    → 0 < d
    → (d ≤ duration_seconds (pos d) * second) × (duration_seconds (pos d) * second < d + second)
unfolding duration_seconds
duration_seconds_rounds_up d h = ground arith

-- Any other duration counts as one second.
pub duration_seconds_of_negative : (n : ℕ) → duration_seconds (negsuc n) ≡ 1
unfolding duration_seconds
duration_seconds_of_negative n = ground arith

-- ===== src/Proto/Time.antt =====
-- proto/time.go: instants and durations, in nanoseconds.
use dhcp_golib.Base.{ℕ, ◌*◌, Bool, false, if◌then◌else◌, ◌==◌}
use dhcp_golib.Base.Int.{ℤ, pos, negsuc, ◌+ℤ◌, ◌-ℤ◌, quot}

-- Both are int64 in the source; the values that the machine computes from 32-bit second counts and
-- clock readings stay far inside it.
abbrev pub Instant : Type 0
Instant = ℤ

abbrev pub Duration : Type 0
Duration = ℤ

abbrev pub second : ℕ
second = 1_000_000_000

-- `n * Second`.
abbrev pub seconds : ℕ → Duration
seconds n = pos (n * second)

-- `Instant.Add` and `Instant.Sub`.
abbrev pub add : Instant → Duration → Instant
add t d = t +ℤ d

abbrev pub sub : Instant → Instant → Duration
sub t u = t -ℤ u

abbrev pub infinite : Duration
infinite = negsuc 0

unfoldable pub is_infinite : Duration → Bool
is_infinite (pos n) = false
is_infinite (negsuc n) = n == 0

abbrev pub infinite_seconds : ℕ
infinite_seconds = 0xFFFF_FFFF

-- `SecondsToDuration`, of a uint32.
unfoldable pub seconds_to_duration : ℕ → Duration
seconds_to_duration secs = if secs == infinite_seconds then infinite else seconds secs

-- `Duration.Seconds`.
unfoldable pub whole_seconds : Duration → ℤ
whole_seconds d = quot d second

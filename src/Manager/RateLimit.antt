-- ===== src/Manager/RateLimit.antt =====
-- lease/ratelimit.go: the token bucket of RFC 9915 section 14.1.
pub mod Rate
use dhcp_golib.Base.{ℕ, zero, suc, ◌+◌, ◌*◌, Bool, true, false, not, if◌then◌else◌, List, [], ◌∷◌}
use dhcp_golib.Base.Int.{ℤ, pos, negsuc, ◌+ℤ◌, ◌-ℤ◌, ltb_ℤ, leb_ℤ, scale, pos_part}
use dhcp_golib.Proto.Time.{Duration, Instant, seconds, sub}

pub record RateLimit : Type 0 where
  pub messages : ℤ  -- int
  pub interval : Duration

unfoldable pub default_rate_limit : RateLimit
default_rate_limit = record { messages = pos 20; interval = seconds 20 }

default_messages : ℤ → ℤ
default_messages (pos zero) = pos 20
default_messages n = n

-- `RateLimit.resolve`: the limit with its defaults filled in, and whether it is on.
unfoldable pub resolve : RateLimit → RateLimit × Bool
unfolding default_messages
resolve r = if ltb_ℤ r.messages (pos 0) then (r, false) else (
  record {
    messages = default_messages r.messages;
    interval = if leb_ℤ r.interval (pos 0) then seconds 20 else r.interval;
  },
  true,
)

pub record Bucket : Type 0 where
  pub limit : RateLimit
  pub on : Bool
  pub level : Duration
  pub last : Instant
  pub started : Bool
  pub refused : ℕ  -- uint64

-- `newBucket`.
unfoldable pub new_bucket : RateLimit → Bucket
new_bucket r =
    let (limit, on) = resolve r in
    record { limit = limit; on = on; level = pos 0; last = pos 0; started = false; refused = 0 }

-- `proto.Duration(b.limit.Messages) * b.limit.Interval`: the messages of a bucket that is on are not
-- negative.
unfoldable pub full : Bucket → Duration
full b = scale (pos_part b.limit.messages) b.limit.interval

-- The level once the bucket is filled for `now`.
unfoldable pub refilled : Bucket → Instant → Duration
unfolding full
refilled b now =
    let d = sub now b.last in
    let raised = b.level +ℤ scale (pos_part b.limit.messages) d in
    if not b.started
    then full b
    else if ltb_ℤ (pos 0) d
    then (if ltb_ℤ (full b) raised then full b else raised)
    else b.level

-- `bucket.take`.
unfoldable pub take : Bucket → Instant → Bucket × Bool
take b now =
    let level = refilled b now in
    let b' = record b { level = level; last = now; started = true } in
    if not b.on
    then (b, true)
    else if ltb_ℤ level b.limit.interval
    then (record b' { refused = b.refused + 1 }, false)
    else (record b' { level = level -ℤ b.limit.interval }, true)

-- The verdicts of a run of `take` at the instants of a list: the bucket at the end, and how many
-- messages were let through.
abbrev pub granted : Bool → ℕ → ℕ
granted true n = suc n
granted false n = n

unfoldable pub run : Bucket → List Instant → Bucket × ℕ
run b [] = (b, 0)
run b (now ∷ rest) =
    let (b', passed) = take b now in let (b'', n) = run b' rest in (b'', granted passed n)

-- ===== src/Proto/Backoff.antt =====
-- proto/backoff.go: the retransmission schedule of RFC 2131 section 4.1.
pub mod Bounds
use dhcp_golib.Base.{
  ℕ, zero, suc, ◌+◌, ◌-◌, ◌*◌, ◌/◌, ◌%◌, ◌^◌, Bool, true, false, ◌&&◌, ◌||◌, if◌then◌else◌, ◌==◌,
  ltb, leb,
}
use dhcp_golib.Base.Int.{ℤ, pos, ◌+ℤ◌, ◌-ℤ◌, ltb_ℤ, leb_ℤ, scale, pos_part}
use dhcp_golib.Proto.Time.{Duration, seconds}

pub record Backoff : Type 0 where
  pub initial : Duration
  pub max : Duration
  pub jitter : Duration
  pub max_retransmissions : ℕ

abbrev pub max_int64 : Duration
max_int64 = pos 9_223_372_036_854_775_807

unfoldable pub default_backoff : Backoff
default_backoff = record {
  initial = seconds 4;
  max = seconds 64;
  jitter = seconds 1;
  max_retransmissions = 4;
}

-- The doubling loop of `Delay`: it stops before a doubling that would pass the maximum or int64.
unfoldable pub double_loop : ℕ → Duration → Duration → Duration
double_loop zero limit d = d
double_loop (suc n) limit d =
    let rest = double_loop n limit (scale 2 d) in
    if (ltb_ℤ (pos 0) limit && leb_ℤ limit d) || ltb_ℤ (pos 4_611_686_018_427_387_903) d
    then d
    else rest

-- `jitter`, at an entropy value `rnd` of 64 bits. `half` is positive in the second branch, so its
-- conversion to uint64 is exact and twice it, plus one, does not wrap.
unfoldable pub apply_jitter : Duration → Duration → ℕ → Duration
apply_jitter d half rnd =
    let off = pos (rnd % (pos_part half * 2 + 1)) -ℤ half in
    let moved = d +ℤ off in
    if leb_ℤ half (pos 0)
    then (if ltb_ℤ d (pos 0) then pos 0 else d)
    else if ltb_ℤ (pos 0) off && ltb_ℤ (max_int64 -ℤ off) d
    then max_int64
    else if ltb_ℤ moved (pos 0)
    then pos 0
    else moved

-- `Backoff.Delay`. The count of retransmissions is never negative.
unfoldable pub delay : Backoff → ℕ → ℕ → Duration
delay b n rnd =
    let start = if leb_ℤ b.initial (pos 0) then pos 0 else b.initial in
    let d = double_loop n b.max start in
    apply_jitter (if ltb_ℤ (pos 0) b.max && ltb_ℤ b.max d then b.max else d) b.jitter rnd

-- `Backoff.validate`: true where it returns no error.
unfoldable pub validate : Backoff → Bool
validate b =
    if ltb_ℤ b.jitter (pos 0) || leb_ℤ b.initial b.jitter || ltb_ℤ b.max b.initial
    then false
    else true

-- `Backoff.Exhausted`.
unfoldable pub exhausted : Backoff → ℕ → Bool
exhausted b n = ltb 0 b.max_retransmissions && leb b.max_retransmissions n

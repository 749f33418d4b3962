-- ===== src/Proto/Retransmit.antt =====
-- proto/backoff6.go: the retransmission of RFC 9915 section 15 for DHCPv6. Sums wrap around as int64 does.
pub mod Bounds
use dhcp_golib.Base.{
  ℕ, ◌*◌, ◌+◌, ◌/◌, ◌%◌, ◌^◌, Bool, true, ◌&&◌, ◌||◌, not, if◌then◌else◌, ◌==◌, leb, suc,
}
use dhcp_golib.Base.Int.{ℤ, pos, negsuc, ◌+ℤ◌, ◌-ℤ◌, ltb_ℤ, leb_ℤ, scale, wrap_64}
use dhcp_golib.Proto.Time.{Duration}

-- IRT, MRT, MRC and MRD; a zero MRT, MRC or MRD sets no limit.
pub record Retransmit : Type 0 where
  pub irt : Duration
  pub mrt : Duration
  pub mrc : ℤ  -- int
  pub mrd : Duration

abbrev pub rand_scale : ℕ
rand_scale = 1_000_000

abbrev pub rand_denom : ℕ
rand_denom = 10_000_000

-- `randFactor`: between -0.1 and 0.1, in units of one in ten million, at an entropy value of 64 bits.
unfoldable pub rand_factor : ℕ → ℤ
rand_factor rnd = pos (rnd % (2 * rand_scale + 1)) -ℤ pos rand_scale

-- `abs64`.
abbrev pub abs_64 : ℤ → ℕ
abs_64 (pos n) = n
abs_64 (negsuc n) = suc n

is_negative : ℤ → Bool
is_negative d = ltb_ℤ d (pos 0)

-- The 128-bit division of `scaleRand`, which saturates at a tenth.
unfoldable pub quotient : ℕ → ℕ → ℕ
quotient ad an =
    let product = ad * an in
    if leb rand_denom (product / 2 ^ 64) then ad / 10 else product / rand_denom

-- `scaleRand`: the product of 128 bits, by its high word, and its quotient.
unfoldable pub scale_rand : Duration → ℤ → Duration
unfolding is_negative
scale_rand d n =
    let q = quotient (abs_64 d) (abs_64 n) in
    let differ = (is_negative d && not (is_negative n)) || (not (is_negative d) && is_negative n) in
    if abs_64 d == 0 || abs_64 n == 0 then pos 0 else if differ then pos 0 -ℤ pos q else pos q

-- `nonNegative`.
unfoldable pub non_negative : Duration → Duration
non_negative d = if ltb_ℤ d (pos 0) then pos 0 else d

-- `Retransmit.First`.
unfoldable pub first : Retransmit → ℕ → Duration
first r rnd = non_negative (wrap_64 (r.irt +ℤ scale_rand r.irt (rand_factor rnd)))

-- `Retransmit.Next`.
unfoldable pub next : Retransmit → Duration → ℕ → Duration
next r prev rnd =
    let n = rand_factor rnd in
    let rt = wrap_64 (scale 2 prev +ℤ scale_rand prev n) in
    non_negative
      (if ltb_ℤ (pos 0) r.mrt && ltb_ℤ r.mrt rt then wrap_64 (r.mrt +ℤ scale_rand r.mrt n) else rt)

-- `Retransmit.Exhausted`.
unfoldable pub exhausted_6 : Retransmit → ℤ → Duration → Bool
exhausted_6 r count elapsed =
    if ltb_ℤ (pos 0) r.mrc && leb_ℤ r.mrc count
    then true
    else ltb_ℤ (pos 0) r.mrd && leb_ℤ r.mrd elapsed

-- `Duration(secs) * Second` for an option of RFC 9915 sections 21.24 and 21.25, in range.
abbrev pub max_rt_option_min_seconds : ℕ
max_rt_option_min_seconds = 60

abbrev pub max_rt_option_max_seconds : ℕ
max_rt_option_max_seconds = 86400

-- `maxRTInRange`.
unfoldable pub max_rt_in_range : ℕ → Bool
max_rt_in_range secs = leb max_rt_option_min_seconds secs && leb secs max_rt_option_max_seconds

-- ===== src/Proto/Backoff/Bounds.antt =====
-- Bounds on the delays of a schedule that `validate` accepts.
use dhcp_golib.Base.{
  ℕ, zero, suc, ◌+◌, ◌-◌, ◌*◌, ◌%◌, ◌^◌, ◌≤◌, ◌<◌, ◌≡◌, refl, ap, ◌∙◌, true, false, ◌&&◌, arith,
  min, if◌then◌else◌,
}
use dhcp_golib.Base.Int.{pos, negsuc, ◌+ℤ◌, ◌-ℤ◌, pos_part, ltb_ℤ}
use native.Mathlib.Nat.{pow-suc}
use native.Mathlib.Decide.{dec_lt}
use dhcp_golib.Proto.Time.{Duration}
use dhcp_golib.Proto.Backoff.{Backoff, double_loop, apply_jitter, delay, validate}

abbrev pub half_range : ℕ
half_range = 4_611_686_018_427_387_903

doubled-ge : (n d : ℕ) → d ≤ 2 ^ n * d
doubled-ge zero d = omega arith
doubled-ge (suc n) d = omega (arith, doubled-ge n d, ap (λ (t : ℕ). t * d) (pow-suc 2 n))

-- The loop, at most the maximum, is the initial delay doubled `n` times, at most the maximum.
double_loop-min :
    (n m d : ℕ)
    → 0 < d
    → 0 < m
    → m ≤ half_range
    → (x : ℕ) × (double_loop n (pos m) (pos d) ≡ pos x) × (min m x ≡ min m (2 ^ n * d))
unfolding double_loop
double_loop-min zero m d h l k = (d, refl, omega arith)
double_loop-min (suc n) m d h l k = elim (dec_lt d m) [
  | yes below ↦
      let (x, e, same) = double_loop-min n m (2 * d) (omega arith) l k in
      (x, ground (arith, e), omega (arith, same, ap (λ (t : ℕ). t * d) (pow-suc 2 n)))
  | no past ↦ (d, ground arith, omega (arith, doubled-ge (suc n) d))
]

apply_jitter-bounds :
    (d j rnd : ℕ)
    → j < d
    → d ≤ half_range
    → (r : ℕ) × (apply_jitter (pos d) (pos j) rnd ≡ pos r) × (0 < r) × (d ≤ r + j) × (r ≤ d + j)
unfolding apply_jitter ◌+ℤ◌ ◌-ℤ◌
apply_jitter-bounds d zero rnd h k = (d, ground arith, omega arith, omega arith, omega arith)
apply_jitter-bounds d (suc j) rnd h k =
    (d + rnd % (suc j * 2 + 1) - suc j, ground arith, omega arith, omega arith, omega arith)

-- What `validate` accepts: 0 ≤ Jitter < Initial ≤ Max.
record IsSchedule (b : Backoff) : Type 0 where
  initial_pos : b.initial ≡ pos (pos_part b.initial)
  jitter_pos : b.jitter ≡ pos (pos_part b.jitter)
  max_pos : b.max ≡ pos (pos_part b.max)
  jitter_small : pos_part b.jitter < pos_part b.initial
  ordered : pos_part b.initial ≤ pos_part b.max

sign : (d : Duration) → ltb_ℤ d (pos 0) ≡ false → d ≡ pos (pos_part d)
sign (pos n) e = refl
sign (negsuc n) e = ground arith

validate-IsSchedule : (b : Backoff) → validate b ≡ true → IsSchedule b
unfolding validate
validate-IsSchedule b e = record {
  initial_pos = sign b.initial (ground arith);
  jitter_pos = sign b.jitter (ground arith);
  max_pos = sign b.max (ground arith);
  jitter_small = ground arith;
  ordered = ground arith;
}

clamped :
    (m x : ℕ)
    → 0 < m
    → (if ltb_ℤ (pos 0) (pos m) && ltb_ℤ (pos m) (pos x) then pos m else pos x) ≡ pos (min m x)
clamped m x h = ground arith

abbrev schedule : ℕ → ℕ → ℕ → ℕ → Backoff
schedule i j m k = record { initial = pos i; max = pos m; jitter = pos j; max_retransmissions = k }

delay-bounds-at :
    (i j m n rnd : ℕ) (retransmissions : ℕ)
    → j < i
    → i ≤ m
    → m ≤ half_range
    → let planned = min m (2 ^ n * i) in
      (r : ℕ) × (delay (schedule i j m retransmissions) n rnd ≡ pos r)
      × (0 < r)
      × (planned ≤ r + j)
      × (r ≤ planned + j)
unfolding delay
delay-bounds-at i j m n rnd retransmissions small ordered fits =
    let (x, e, same) = double_loop-min n m i (omega arith) (omega arith) fits in
    let (r, result, positive, lo, hi) =
      apply_jitter-bounds (min m x) j rnd (omega (arith, same, doubled-ge n i)) (omega arith) in
    (
      r,
      ground (arith, e, clamped m x (omega arith), result),
      positive,
      omega (arith, same),
      omega (arith, same),
    )

schedule_of :
    (b : Backoff)
    → IsSchedule b
    → b ≡ schedule (pos_part b.initial) (pos_part b.jitter) (pos_part b.max) b.max_retransmissions
schedule_of b s = λ i. record {
  initial = s.initial_pos i;
  max = s.max_pos i;
  jitter = s.jitter_pos i;
  max_retransmissions = b.max_retransmissions;
}

-- Every delay of a schedule that `validate` accepts is positive, so no timer of it fires at once, and
-- it lies within the jitter of the initial delay doubled `n` times and capped at the maximum: for
-- every number of retransmissions and every entropy value, with no overflow on the way. The maximum
-- is below half of the int64 range, some 146 years.
pub delay-bounds :
    (b : Backoff) (n rnd : ℕ)
    → validate b ≡ true
    → pos_part b.max ≤ half_range
    → let planned = min (pos_part b.max) (2 ^ n * pos_part b.initial) in
      (r : ℕ) × (delay b n rnd ≡ pos r)
      × (0 < r)
      × (planned ≤ r + pos_part b.jitter)
      × (r ≤ planned + pos_part b.jitter)
delay-bounds b n rnd e fits =
    let s = validate-IsSchedule b e in
    let (r, result, positive, lo, hi) =
      delay-bounds-at (pos_part b.initial) (pos_part b.jitter) (pos_part b.max) n rnd
        b.max_retransmissions s.jitter_small s.ordered fits in
    (r, ap (λ x. delay x n rnd) (schedule_of b s) ∙ result, positive, lo, hi)

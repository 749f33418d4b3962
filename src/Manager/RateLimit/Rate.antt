-- ===== src/Manager/RateLimit/Rate.antt =====
-- How many messages the bucket lets through.
use dhcp_golib.Base.{
  ℕ, suc, ◌+◌, ◌-◌, ◌*◌, ◌≤◌, ◌≡◌, refl, Bool, true, false, List, [], ◌∷◌, map, min, ap, arith, leb,
  le→ltb,
}
use dhcp_golib.Base.Int.{pos, ◌+ℤ◌, ◌-ℤ◌}
use native.Mathlib.Decide.{dec_lt}
use dhcp_golib.Manager.RateLimit.{
  RateLimit, Bucket, resolve, new_bucket, full, refilled, take, run, granted,
}

-- A bucket that is on, of `m` messages in `i` nanoseconds, at level `l`, filled last at `t`.
pub record IsRunning (b : Bucket) (m i l t : ℕ) : Type 0 where
  pub is_on : b.on ≡ true
  pub is_started : b.started ≡ true
  pub messages_is : b.limit.messages ≡ pos m
  pub interval_is : b.limit.interval ≡ pos i
  pub level_is : b.level ≡ pos l
  pub last_is : b.last ≡ pos t

full_lem : (b : Bucket) (m i l t : ℕ) → IsRunning b m i l t → full b ≡ pos (m * i)
unfolding full
full_lem b m i l t r = ground (arith, r.messages_is, r.interval_is)

elapsed : (t now : ℕ) → t ≤ now → pos now -ℤ pos t ≡ pos (now - t)
unfolding ◌-ℤ◌
elapsed t now h = ground arith

raised : (l k : ℕ) → pos l +ℤ pos k ≡ pos (l + k)
unfolding ◌+ℤ◌
raised l k = ground arith

refilled_lem :
    (b : Bucket) (m i l t now : ℕ)
    → IsRunning b m i l t
    → t ≤ now
    → l ≤ m * i
    → (x : ℕ) × (refilled b (pos now) ≡ pos x) × (x ≤ m * i) × (x ≤ l + m * (now - t))
unfolding refilled
refilled_lem b m i l t now r h k = (
  min (m * i) (l + m * (now - t)),
  ground (arith, full_lem b m i l t r, elapsed t now h, raised l (m * (now - t))),
  omega arith,
  omega arith,
)

spend : (x i : ℕ) → i ≤ x → pos x -ℤ pos i ≡ pos (x - i)
unfolding ◌-ℤ◌
spend x i h = ground arith

-- One call of a running bucket: what it lets through is paid from the level, which grows by no more
-- than `m` for each nanosecond.
take_step :
    (b : Bucket) (m i l t now : ℕ)
    → IsRunning b m i l t
    → t ≤ now
    → l ≤ m * i
    → (l' : ℕ) × IsRunning (take b (pos now)).0 m i l' now
      × (l' + i * granted (take b (pos now)).1 0 ≤ l + m * (now - t))
      × (l' ≤ m * i)
unfolding take
take_step b m i l t now r h k =
    let (x, e, cap, gain) = refilled_lem b m i l t now r h k in
    elim (dec_lt x i) [
      | yes short ↦ (
        x,
        ground (arith, e, r.is_on, r.interval_is, r.messages_is),
        ground (arith, e, r.is_on, r.interval_is),
        cap,
      )
      | no enough ↦ (
        x - i,
        ground (arith, e, r.is_on, r.interval_is, r.messages_is, spend x i),
        ground (arith, e, r.is_on, r.interval_is, spend x i),
        omega arith,
      )
    ]

-- Instants that do not go back, from `t` on, and the last of them.
abbrev pub IsMonotone : ℕ → List ℕ → Type 0
IsMonotone t [] = Unit {0}
IsMonotone t (now ∷ rest) = (t ≤ now) × IsMonotone now rest

abbrev pub last_instant : ℕ → List ℕ → ℕ
last_instant t [] = t
last_instant t (now ∷ rest) = last_instant now rest

granted_lem : (p : Bool) (n : ℕ) → granted p n ≡ granted p 0 + n
granted_lem true n = omega arith
granted_lem false n = omega arith

run_bound :
    (b : Bucket) (m i l t : ℕ) (times : List ℕ)
    → IsRunning b m i l t
    → l ≤ m * i
    → IsMonotone t times
    → (i * (run b (map pos times)).1 ≤ l + m * (last_instant t times - t))
      × (t ≤ last_instant t times)
unfolding run
run_bound b m i l t [] r k mono = (omega arith, omega arith)
run_bound b m i l t (now ∷ rest) r k mono =
    let (l', r', paid, cap) = take_step b m i l t now r mono.0 k in
    let (tail, order) = run_bound (take b (pos now)).0 m i l' now rest r' cap mono.1 in
    let longer : last_instant now rest - t ≡ (last_instant now rest - now) + (now - t) =
      omega arith in
    (
      omega (
        arith,
        paid,
        tail,
        ap (λ (d : ℕ). m * d) longer,
        ap (λ (d : ℕ). i * d)
            (granted_lem (take b (pos now)).1 (run (take b (pos now)).0 (map pos rest)).1),
      ),
      omega arith,
    )

abbrev pub limit_of : ℕ → ℕ → RateLimit
limit_of m i = record { messages = pos (suc m); interval = pos (suc i) }

leb-suc : (i : ℕ) → leb (suc i + 0) 0 ≡ false
leb-suc i = ground arith

resolve_lem : (m i : ℕ) → resolve (limit_of m i) ≡ (limit_of m i, true)
unfolding resolve
resolve_lem m i = rw (le→ltb (suc m + 0) 0 (omega arith), leb-suc i) refl

new_bucket_lem :
    (m i : ℕ)
    → new_bucket (limit_of m i) ≡ record {
      limit = limit_of m i;
      on = true;
      level = pos 0;
      last = pos 0;
      started = false;
      refused = 0;
    }
unfolding new_bucket
new_bucket_lem m i = rw (resolve_lem m i) refl

-- The first call finds the bucket full.
refilled-new : (m i t : ℕ) → refilled (new_bucket (limit_of m i)) (pos t) ≡ pos (suc m * suc i)
unfolding refilled full
refilled-new m i t = rw (new_bucket_lem m i) refl

first_take :
    (m i t : ℕ)
    → ((take (new_bucket (limit_of m i)) (pos t)).1 ≡ true)
      × IsRunning
          (take (new_bucket (limit_of m i)) (pos t)).0
          (suc m)
          (suc i)
          (suc m * suc i - suc i)
          t
unfolding take
first_take m i t =
    rw
      (
        refilled-new m i t,
        new_bucket_lem m i,
        le→ltb (suc m * suc i + 0) (suc i + 0) (omega arith),
        spend (suc m * suc i) (suc i) (omega arith),
      )
      (
        refl,
        record {
          is_on = refl;
          is_started = refl;
          messages_is = refl;
          interval_is = refl;
          level_is = refl;
          last_is = refl;
        },
      )

-- With a positive number of messages and a positive interval, and at instants that do not go back:
-- however many calls arrive and whenever they do, the messages let through in a run are at most the
-- bucket's capacity and what is refilled between the first and the last call: RFC 9915 section 14.1's
-- average rate. Written without division, `interval * passed ≤ messages * interval + messages *
-- elapsed`.
pub run_rate :
    (m i t : ℕ) (times : List ℕ)
    → IsMonotone t times
    → suc i * (run (new_bucket (limit_of m i)) (map pos (t ∷ times))).1
      ≤ suc m * suc i + suc m * (last_instant t times - t)
unfolding run
run_rate m i t times mono =
    let (passed, running) = first_take m i t in
    let after = (take (new_bucket (limit_of m i)) (pos t)).0 in
    let (bound, order) =
      run_bound after (suc m) (suc i) (suc m * suc i - suc i) t times running (omega arith) mono in
    omega (
      arith,
      bound,
      ap (λ (d : ℕ). suc i * d)
          (granted_lem (take (new_bucket (limit_of m i)) (pos t)).1 (run after (map pos times)).1),
      ap (λ (d : Bool). suc i * granted d 0) passed,
    )

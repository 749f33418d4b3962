-- ===== src/Proto/Retransmit/Bounds.antt =====
-- The bounds of RFC 9915 section 15 on a retransmission time.
use dhcp_golib.Base.{
  ℕ, ◌*◌, ◌+◌, ◌-◌, ◌/◌, ◌^◌, ◌≤◌, ◌<◌, ◌≡◌, refl, ap, ap₂, ◌∙◌, ◌&&◌, ◌||◌, if◌then◌else◌, ◌==◌,
  leb, arith, ◌⊎◌, inl, inr, Bool-cases,
}
use dhcp_golib.Base.Int.{ℤ, pos, ◌+ℤ◌, ◌-ℤ◌, ltb_ℤ, wrap_64, wrap_64-pos}
use dhcp_golib.Proto.Time.{Duration}
use native.Mathlib.Nat.{mul-le-mul_left}
use dhcp_golib.Proto.Retransmit.{
  Retransmit, rand_scale, rand_denom, rand_factor, abs_64, is_negative, scale_rand, quotient,
  non_negative, first, next,
}

rand_factor-small : (rnd : ℕ) → abs_64 (rand_factor rnd) ≤ rand_scale
unfolding rand_factor ◌-ℤ◌
rand_factor-small rnd = ground arith

-- A tenth of the product, whichever way it is taken.
quotient-tenth : (p a : ℕ) → a ≤ rand_scale → quotient p a * 10 ≤ p
unfolding quotient
quotient-tenth p a h =
    let scaled : p * a ≤ p * 1000000 = mul-le-mul_left p h in
    elim (Bool-cases (leb rand_denom (p * a / 2 ^ 64))) [
      | inl e ↦ rw (e, quotient) (omega arith)
      | inr e ↦ rw (e, quotient) (omega (arith, scaled))
    ]

scale_rand-cases :
    (p : ℕ) (n : ℤ)
    → (scale_rand (pos p) n ≡ pos 0)
      ⊎ (scale_rand (pos p) n ≡ pos (quotient p (abs_64 n)))
      ⊎ (scale_rand (pos p) n ≡ pos 0 -ℤ pos (quotient p (abs_64 n)))
unfolding scale_rand
scale_rand-cases p n = elim (Bool-cases (p == 0 || abs_64 n == 0)) [
  | inl e ↦ inl (rw (e, scale_rand) refl)
  | inr e ↦ inr (elim (Bool-cases (is_negative n)) [
    | inl f ↦ inr (ground (arith, e, f))
    | inr f ↦ inl (ground (arith, e, f))
  ])
]

-- Moving a time by its jitter leaves it within a tenth.
moved :
    (base p : ℕ) (n : ℤ)
    → abs_64 n ≤ rand_scale
    → p ≤ base
    → (r : ℕ) × (pos base +ℤ scale_rand (pos p) n ≡ pos r)
      × (base * 10 ≤ r * 10 + p)
      × (r * 10 ≤ base * 10 + p)
unfolding ◌+ℤ◌ ◌-ℤ◌
moved base p n h le =
    let small = quotient-tenth p (abs_64 n) h in
    let x = quotient p (abs_64 n) in
    elim (scale_rand-cases p n) [
      | inl e ↦ (base, ground (arith, e), omega arith, omega arith)
      | inr (inl e) ↦ (base + x, ground (arith, e), omega (arith, small), omega (arith, small))
      | inr (inr e) ↦ (
        base - x,
        ground (arith, e, small, le),
        omega (arith, small, le),
        omega (arith, small, le),
      )
    ]

non_negative-pos : (r : ℕ) → non_negative (pos r) ≡ pos r
unfolding non_negative
non_negative-pos r = ground arith

-- The first time lies within a tenth of an IRT that is not negative and stays within int64 with its
-- jitter, for every entropy value.
pub first-bounds :
    (r : Retransmit) (irt rnd : ℕ)
    → r.irt ≡ pos irt
    → irt * 11 < 2 ^ 63 * 10
    → (t : ℕ) × (first r rnd ≡ pos t) × (irt * 9 ≤ t * 10) × (t * 10 ≤ irt * 11)
unfolding first
first-bounds r irt rnd e fits =
    let (t, sum, lo, hi) = moved irt irt (rand_factor rnd) (rand_factor-small rnd) (omega arith) in
    (
      t,
      ap (λ d. non_negative (wrap_64 (d +ℤ scale_rand d (rand_factor rnd)))) e
          ∙ ap (λ d. non_negative (wrap_64 d)) sum
          ∙ ap non_negative (wrap_64-pos t (omega arith))
          ∙ non_negative-pos t,
      omega arith,
      omega arith,
    )

-- What Next returns, from the doubled time `t` and the limit `m`, where `n` is the jitter.
chosen : ℤ → Duration → Duration → Duration
chosen n m t =
    non_negative (if ltb_ℤ (pos 0) m && ltb_ℤ m t then wrap_64 (m +ℤ scale_rand m n) else t)

next-chosen :
    (r : Retransmit) (prev mrt rnd rt : ℕ)
    → r.mrt ≡ pos mrt
    → wrap_64 (pos (2 * prev) +ℤ scale_rand (pos prev) (rand_factor rnd)) ≡ pos rt
    → next r (pos prev) rnd ≡ chosen (rand_factor rnd) (pos mrt) (pos rt)
unfolding next chosen
next-chosen r prev mrt rnd rt e f = ap₂ (chosen (rand_factor rnd)) e f

chosen-cases :
    (n : ℤ) (mrt rt : ℕ)
    → ((chosen n (pos mrt) (pos rt) ≡ pos rt) × ((mrt ≡ 0) ⊎ (rt ≤ mrt)))
      ⊎ ((chosen n (pos mrt) (pos rt) ≡ non_negative (wrap_64 (pos mrt +ℤ scale_rand (pos mrt) n)))
          × (0 < mrt)
          × (mrt < rt))
unfolding chosen
chosen-cases n mrt rt = elim (Bool-cases (ltb_ℤ (pos 0) (pos mrt) && ltb_ℤ (pos mrt) (pos rt))) [
  | inl e ↦ inr (rw (e, chosen) refl, ground (arith, e), ground (arith, e))
  | inr e ↦ inl (rw (e, chosen) (non_negative-pos rt), ground (arith, e))
]

-- Where the time before and MRT are not negative and stay within int64 after doubling and
-- jitter, every later DHCPv6 retransmission time is twice the one before within a tenth of that
-- one, and not above MRT unless MRT is 0, or, with a positive MRT that this would pass, lies
-- within a tenth of MRT.
pub next-bounds :
    (r : Retransmit) (prev mrt rnd : ℕ)
    → r.mrt ≡ pos mrt
    → prev * 21 < 2 ^ 63 * 10
    → mrt * 11 < 2 ^ 63 * 10
    → (t : ℕ) × (next r (pos prev) rnd ≡ pos t)
      × (((prev * 19 ≤ t * 10) × (t * 10 ≤ prev * 21) × ((mrt ≡ 0) ⊎ (t ≤ mrt)))
          ⊎ ((mrt * 9 ≤ t * 10) × (t * 10 ≤ mrt * 11) × (0 < mrt) × (mrt * 10 < prev * 21)))
next-bounds r prev mrt rnd e short capped =
    let n = rand_factor rnd in
    let (rt, sum, lo, hi) = moved (2 * prev) prev n (rand_factor-small rnd) (omega arith) in
    let (u, limited, below, above) = moved mrt mrt n (rand_factor-small rnd) (omega arith) in
    let exact = ap wrap_64 sum ∙ wrap_64-pos rt (omega arith) in
    let cap = ap wrap_64 limited ∙ wrap_64-pos u (omega arith) in
    let picked = next-chosen r prev mrt rnd rt e exact in
    elim (chosen-cases n mrt rt) [
      | inl (f, small) ↦ (rt, picked ∙ f, inl (omega arith, omega arith, small))
      | inr (f, some_limit, large) ↦ (
        u,
        picked ∙ f ∙ ap non_negative cap ∙ non_negative-pos u,
        inr (omega arith, omega arith, some_limit, omega (arith, large)),
      )
    ]

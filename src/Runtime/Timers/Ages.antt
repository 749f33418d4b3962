-- ===== src/Runtime/Timers/Ages.antt =====
-- The ages of callbacks: their generations against those of their timers.
use dhcp_golib.Base.{
  ℕ, ◌+◌, ◌^◌, ◌≤◌, ◌<◌, ◌≡◌, refl, ap, sym, ◌∙◌, true, false, ◌&&◌, ◌==◌, ==_iff, List, [], ◌∷◌,
  none, arith, ◌⊎◌, inl, inr, Option-cases, Bool-cases, All, subst,
}
use dhcp_golib.Base.Int.{pos}
use native.Mathlib.Nat.{mod-eq_of_lt}
use dhcp_golib.Runtime.Timers.{
  Timers, Callback, update, without, same, pending, stop_locked, next_gen, disarm,
}

-- The generations of the callbacks lie below those of their timers, by `q` of the timer at least; and
-- no generation is above `k`.
abbrev pub IsOld : (ℕ → ℕ) → (ℕ → ℕ) → Callback → Type 0
IsOld q gen c = c.generation + q c.id ≤ gen c.id

pub record IsTimers (q : ℕ → ℕ) (k : ℕ) (t : Timers) : Type 0 where
  pub bounded : (i : ℕ) → t.gen i ≤ k
  pub scheduled_old : All (IsOld q t.gen) t.scheduled
  pub started_old : All (IsOld q t.gen) t.started

pub All-without :
    (P : Callback → Type 0) (c : Callback) (ds : List Callback) → All P ds → All P (without c ds)
unfolding without
All-without P c [] h = tt
All-without P c (d ∷ ds) h = elim (Bool-cases (same c d)) [
  | inl e ↦ rw e h.1
  | inr e ↦ rw e (h.0, All-without P c ds h.1)
]

-- What holds of the callbacks of a list holds of one that is found in it.
pub All-pending :
    (P : ℕ → ℕ → Type 0) (c : Callback) (ds : List Callback)
    → All (λ d. P d.id d.generation) ds
    → pending c ds ≡ true
    → P c.id c.generation
unfolding pending same
All-pending P c [] h e = absurd (cc)
All-pending P c (d ∷ ds) h e = elim (Bool-cases (c.id == d.id && c.generation == d.generation)) [
  | inl f ↦
      let ids : d.id ≡ c.id = ground (arith, f) in
      let gens : d.generation ≡ c.generation = ground (arith, f) in
      subst (λ g. P c.id g) gens (subst (λ i. P i d.generation) ids h.0)
  | inr f ↦ All-pending P c ds h.1 (ground (arith, e, f))
]

All-map :
    (P Q : Callback → Type 0) (ds : List Callback)
    → ((c : Callback) → P c → Q c)
    → All P ds
    → All Q ds
All-map P Q [] f h = tt
All-map P Q (d ∷ ds) f h = (f d h.0, All-map P Q ds f h.1)

next_gen_at :
    (i k : ℕ) (t : Timers) → t.gen i ≤ k → k + 1 < 2 ^ 64 → (next_gen i t).gen i ≡ t.gen i + 1
unfolding next_gen
next_gen_at i k t h w = ground (arith, mod-eq_of_lt {n = t.gen i + 1} {m = 2 ^ 64} (omega arith))

next_gen_else : (i j : ℕ) (t : Timers) → (j == i) ≡ false → (next_gen i t).gen j ≡ t.gen j
unfolding next_gen
next_gen_else i j t e = ground (arith, e)

pub stop_locked-cases :
    (i : ℕ) (t : Timers)
    → (stop_locked i t ≡ t)
      ⊎ ((g : ℕ) × (stop_locked i t ≡ record t {
        timer = update t.timer i none;
        scheduled = without (record { id = i; generation = g; after = pos 0 }) t.scheduled;
      }))
unfolding stop_locked
stop_locked-cases i t = elim (Option-cases (t.timer i)) [
  | inl e ↦ inl (rw (e, stop_locked) refl)
  | inr (g, e) ↦ inr (g, rw (e, stop_locked) refl)
]

stop_locked-gen : (i j : ℕ) (t : Timers) → (stop_locked i t).gen j ≡ t.gen j
stop_locked-gen i j t = elim (stop_locked-cases i t) [
  | inl e ↦ ap (λ u. u.gen j) e
  | inr (g, e) ↦ ap (λ u. u.gen j) e
]

stop_locked-started : (i : ℕ) (t : Timers) → (stop_locked i t).started ≡ t.started
stop_locked-started i t = elim (stop_locked-cases i t) [
  | inl e ↦ ap (λ u. u.started) e
  | inr (g, e) ↦ ap (λ u. u.started) e
]

stop_locked-scheduled :
    (P : Callback → Type 0) (i : ℕ) (t : Timers)
    → All P t.scheduled
    → All P (stop_locked i t).scheduled
stop_locked-scheduled P i t h = elim (stop_locked-cases i t) [
  | inl e ↦ subst (λ u. All P u.scheduled) (sym e) h
  | inr (g, e) ↦
      subst (λ u. All P u.scheduled) (sym e)
        (All-without P (record { id = i; generation = g; after = pos 0 }) t.scheduled h)
]

pub disarm_at :
    (i k : ℕ) (t : Timers) → t.gen i ≤ k → k + 1 < 2 ^ 64 → (disarm i t).gen i ≡ t.gen i + 1
unfolding disarm
disarm_at i k t h w =
    let same_gen = stop_locked-gen i i t in
    next_gen_at i k (stop_locked i t) (omega arith) w ∙ ap (λ g. g + 1) same_gen

disarm_else : (i j : ℕ) (t : Timers) → (j == i) ≡ false → (disarm i t).gen j ≡ t.gen j
unfolding disarm
disarm_else i j t e = next_gen_else i j (stop_locked i t) e ∙ stop_locked-gen i j t

disarm_callbacks :
    (P : Callback → Type 0) (i : ℕ) (t : Timers)
    → All P t.scheduled
    → All P t.started
    → All P (disarm i t).scheduled × All P (disarm i t).started
unfolding disarm next_gen
disarm_callbacks P i t h k =
    (stop_locked-scheduled P i t h, subst (All P) (sym (stop_locked-started i t)) k)

-- Disarming a timer makes all its callbacks older than its generation.
pub disarm-IsTimers :
    (q q' : ℕ → ℕ) (i k : ℕ) (t : Timers)
    → ((j : ℕ) → (j == i) ≡ false → q' j ≤ q j)
    → q' i ≤ 1
    → k + 1 < 2 ^ 64
    → IsTimers q k t
    → IsTimers q' (k + 1) (disarm i t)
disarm-IsTimers q q' i k t below one w h =
    let here = disarm_at i k t (h.bounded i) w in
    let older : (c : Callback) → IsOld q t.gen c → IsOld q' (disarm i t).gen c = λ c old.
      elim (Bool-cases (c.id == i)) [
        | inl e ↦
            let at_ : c.id ≡ i = (==_iff c.id i).0 e in
            omega (arith, old, here, one, ap (disarm i t).gen at_, ap q' at_, ap t.gen at_)
        | inr e ↦ omega (arith, old, disarm_else i c.id t e, below c.id e)
      ] in
    let (scheduled, started) =
      disarm_callbacks (IsOld q' (disarm i t).gen) i t
        (All-map (IsOld q t.gen) (IsOld q' (disarm i t).gen) t.scheduled older h.scheduled_old)
        (All-map (IsOld q t.gen) (IsOld q' (disarm i t).gen) t.started older h.started_old) in
    record {
      bounded = λ j. elim (Bool-cases (j == i)) [
        | inl e ↦
            let at_ : j ≡ i = (==_iff j i).0 e in
            omega (arith, here, h.bounded i, ap (disarm i t).gen at_)
        | inr e ↦ omega (arith, disarm_else i j t e, h.bounded j)
      ];
      scheduled_old = scheduled;
      started_old = started;
    }

pub IsTimers-later : (q : ℕ → ℕ) (k k' : ℕ) (t : Timers) → k ≤ k' → IsTimers q k t → IsTimers q k' t
IsTimers-later q k k' t le h = record {
  bounded = λ i. omega (arith, h.bounded i, le);
  scheduled_old = h.scheduled_old;
  started_old = h.started_old;
}

-- ===== src/Runtime/Timers/Steps.antt =====
-- The ages of the callbacks under each event.
use dhcp_golib.Base.{
  ℕ, zero, suc, ◌+◌, ◌^◌, ◌≤◌, ◌<◌, ◌≡◌, refl, sym, true, if◌then◌else◌, leb, ◌∷◌, some, arith, ◌⊎◌,
  inl, inr, Bool-cases, All, drop, subst,
}
use dhcp_golib.Base.Int.{pos, ltb_ℤ}
use dhcp_golib.Proto.Time.{Duration}
use dhcp_golib.Runtime.Timers.{
  Timers, Callback, TimerEvent, set, cancel, close, close_channel, begin, fire, send, give_up,
  receive, num_timers, update, pending, disarm, set_timer, cancel_timer, close_loop, close_timers,
  close_fired, begin_callback, accepted, fire_callback, send_fire, give_up_fire, step,
}
use dhcp_golib.Runtime.Timers.Ages.{
  IsOld, IsTimers, All-without, All-pending, IsTimers-later, disarm-IsTimers,
}

pub set_timer-cases :
    (i : ℕ) (d : Duration) (t : Timers)
    → (set_timer i d t ≡ t)
      ⊎ (set_timer i d t ≡ record (disarm i t) {
        timer = update (disarm i t).timer i (some ((disarm i t).gen i));
        scheduled =
            record {
              id = i;
              generation = (disarm i t).gen i;
              after = if ltb_ℤ d (pos 0) then pos 0 else d;
            }
            ∷ (disarm i t).scheduled;
      })
unfolding set_timer
set_timer-cases i d t = elim (Bool-cases (leb num_timers i)) [
  | inl e ↦ inl (rw (e, set_timer) refl)
  | inr e ↦ elim (Bool-cases t.closed) [
    | inl f ↦ inl (rw (e, f, set_timer) refl)
    | inr f ↦ inr (rw (e, f, set_timer) refl)
  ]
]

-- A set timer has a callback of its present generation.
set_timer-IsTimers :
    (q : ℕ → ℕ) (i k : ℕ) (d : Duration) (t : Timers)
    → q i ≡ 0
    → k + 1 < 2 ^ 64
    → IsTimers q k t
    → IsTimers q (k + 1) (set_timer i d t)
set_timer-IsTimers q i k d t e w h =
    let off = disarm-IsTimers q q i k t (λ j f. omega arith) (omega (arith, e)) w h in
    elim (set_timer-cases i d t) [
      | inl same_ ↦
          subst (IsTimers q (k + 1)) (sym same_) (IsTimers-later q k (k + 1) t (omega arith) h)
      | inr armed ↦ subst (IsTimers q (k + 1)) (sym armed) (record {
        bounded = off.bounded;
        scheduled_old = (omega (arith, e), off.scheduled_old);
        started_old = off.started_old;
      })
    ]

cancel_timer-IsTimers :
    (q : ℕ → ℕ) (i k : ℕ) (t : Timers)
    → q i ≤ 1
    → k + 1 < 2 ^ 64
    → IsTimers q k t
    → IsTimers q (k + 1) (cancel_timer i t)
unfolding cancel_timer
cancel_timer-IsTimers q i k t one w h = elim (Bool-cases (leb num_timers i)) [
  | inl e ↦ rw (e, cancel_timer) (IsTimers-later q k (k + 1) t (omega arith) h)
  | inr e ↦ rw (e, cancel_timer) (disarm-IsTimers q q i k t (λ j f. omega arith) one w h)
]

close_loop-IsTimers :
    (q : ℕ → ℕ) (n k : ℕ) (t : Timers)
    → ((j : ℕ) → q j ≤ 1)
    → k + n < 2 ^ 64
    → IsTimers q k t
    → IsTimers q (k + n) (close_loop n t)
unfolding close_loop
close_loop-IsTimers q zero k t one w h = IsTimers-later q k (k + 0) t (omega arith) h
close_loop-IsTimers q (suc n) k t one w h =
    let before = close_loop-IsTimers q n k t one (omega arith) h in
    IsTimers-later q (k + n + 1) (k + suc n) (disarm n (close_loop n t)) (omega arith) (
      disarm-IsTimers q q n (k + n) (close_loop n t) (λ j f. omega arith) (one n) (omega arith)
        before)

-- The events that arm no timer of a raised generation.
abbrev pub Spares : (ℕ → ℕ) → TimerEvent → Type 0
Spares q (set i d) = q i ≡ 0
Spares q (cancel i) = Unit {0}
Spares q close = Unit {0}
Spares q close_channel = Unit {0}
Spares q (begin c) = Unit {0}
Spares q (fire c) = Unit {0}
Spares q (send i) = Unit {0}
Spares q (give_up i) = Unit {0}
Spares q receive = Unit {0}

close_timers-IsTimers :
    (q : ℕ → ℕ) (k : ℕ) (t : Timers)
    → ((j : ℕ) → q j ≤ 1)
    → k + 17 < 2 ^ 64
    → IsTimers q k t
    → IsTimers q (k + 17) (close_timers t)
unfolding close_timers
close_timers-IsTimers q k t one w h =
    let closing : IsTimers q k (record t { closed = true }) = record {
      bounded = h.bounded;
      scheduled_old = h.scheduled_old;
      started_old = h.started_old;
    } in
    elim (Bool-cases t.closed) [
      | inl e ↦
          rw (e, close_timers)
            (IsTimers-later q k (k + 17) (record t { closed = true }) (omega arith) closing)
      | inr e ↦
          rw (e, close_timers)
            (close_loop-IsTimers q 17 k (record t { closed = true }) one w closing)
    ]

begin_callback-IsTimers :
    (q : ℕ → ℕ) (k : ℕ) (c : Callback) (t : Timers)
    → IsTimers q k t
    → IsTimers q k (begin_callback c t)
unfolding begin_callback
begin_callback-IsTimers q k c t h = elim (Bool-cases (pending c t.scheduled)) [
  | inr e ↦ rw (e, begin_callback) h
  | inl e ↦
      rw (e, begin_callback)
        (record {
          bounded = h.bounded;
          scheduled_old = All-without (IsOld q t.gen) c t.scheduled h.scheduled_old;
          started_old = (
            All-pending (λ i g. g + q i ≤ t.gen i) c t.scheduled h.scheduled_old e,
            h.started_old,
          );
        })
]

fire_callback-IsTimers :
    (q : ℕ → ℕ) (k : ℕ) (c : Callback) (t : Timers)
    → IsTimers q k t
    → IsTimers q k (fire_callback c t)
unfolding fire_callback
fire_callback-IsTimers q k c t h =
    let fewer = All-without (IsOld q t.gen) c t.started h.started_old in
    elim (Bool-cases (pending c t.started)) [
      | inr e ↦ rw (e, fire_callback) h
      | inl e ↦ elim (Bool-cases (accepted c t)) [
        | inl f ↦
            rw (e, f, fire_callback)
              (record { bounded = h.bounded; scheduled_old = h.scheduled_old; started_old = fewer })
        | inr f ↦
            rw (e, f, fire_callback)
              (record { bounded = h.bounded; scheduled_old = h.scheduled_old; started_old = fewer })
      ]
    ]

abbrev Keeps : Timers → Timers → Type 0
Keeps t u = (u.gen ≡ t.gen) × (u.scheduled ≡ t.scheduled) × (u.started ≡ t.started)

Keeps-IsTimers : (q : ℕ → ℕ) (k : ℕ) (t u : Timers) → Keeps t u → IsTimers q k t → IsTimers q k u
Keeps-IsTimers q k t u (gens, scheduled, started) h = record {
  bounded = subst (λ g. (i : ℕ) → g i ≤ k) (sym gens) h.bounded;
  scheduled_old =
      subst (λ g. All (IsOld q g) u.scheduled) (sym gens)
        (subst (All (IsOld q t.gen)) (sym scheduled) h.scheduled_old);
  started_old =
      subst (λ g. All (IsOld q g) u.started) (sym gens)
        (subst (All (IsOld q t.gen)) (sym started) h.started_old);
}

send_fire-Keeps : (i : ℕ) (t : Timers) → Keeps t (send_fire i t)
unfolding send_fire
send_fire-Keeps i t = (ground arith, ground arith, ground arith)

give_up_fire-Keeps : (i : ℕ) (t : Timers) → Keeps t (give_up_fire i t)
unfolding give_up_fire
give_up_fire-Keeps i t = (ground arith, ground arith, ground arith)

close_fired-Keeps : (t : Timers) → Keeps t (close_fired t)
unfolding close_fired
close_fired-Keeps t = (ground arith, ground arith, ground arith)

-- Every event keeps the ages, and raises a generation by one at most; closing raises all of them.
pub step-IsTimers :
    (q : ℕ → ℕ) (k : ℕ) (t : Timers) (ev : TimerEvent)
    → ((j : ℕ) → q j ≤ 1)
    → Spares q ev
    → k + 17 < 2 ^ 64
    → IsTimers q k t
    → IsTimers q (k + 17) (step t ev)
unfolding step
step-IsTimers q k t (set i d) one spared w h =
    IsTimers-later q (k + 1) (k + 17) (set_timer i d t) (omega arith)
      (set_timer-IsTimers q i k d t spared (omega arith) h)
step-IsTimers q k t (cancel i) one spared w h =
    IsTimers-later q (k + 1) (k + 17) (cancel_timer i t) (omega arith)
      (cancel_timer-IsTimers q i k t (one i) (omega arith) h)
step-IsTimers q k t close one spared w h = close_timers-IsTimers q k t one w h
step-IsTimers q k t close_channel one spared w h =
    IsTimers-later q k (k + 17) (close_fired t) (omega arith)
      (Keeps-IsTimers q k t (close_fired t) (close_fired-Keeps t) h)
step-IsTimers q k t (begin c) one spared w h =
    IsTimers-later q k (k + 17) (begin_callback c t) (omega arith)
      (begin_callback-IsTimers q k c t h)
step-IsTimers q k t (fire c) one spared w h =
    IsTimers-later q k (k + 17) (fire_callback c t) (omega arith) (fire_callback-IsTimers q k c t h)
step-IsTimers q k t (send i) one spared w h =
    IsTimers-later q k (k + 17) (send_fire i t) (omega arith)
      (Keeps-IsTimers q k t (send_fire i t) (send_fire-Keeps i t) h)
step-IsTimers q k t (give_up i) one spared w h =
    IsTimers-later q k (k + 17) (give_up_fire i t) (omega arith)
      (Keeps-IsTimers q k t (give_up_fire i t) (give_up_fire-Keeps i t) h)
step-IsTimers q k t receive one spared w h =
    IsTimers-later q k (k + 17) (record t { fired = drop 1 t.fired }) (omega arith)
      (Keeps-IsTimers q k t (record t { fired = drop 1 t.fired }) (refl, refl, refl) h)

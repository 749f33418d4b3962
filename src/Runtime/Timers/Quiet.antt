-- ===== src/Runtime/Timers/Quiet.antt =====
-- A timer after its cancellation: the fires that pass their check.
use dhcp_golib.Base.{
  ℕ, ◌+◌, ◌*◌, ◌^◌, ◌≤◌, ◌<◌, ◌≡◌, refl, true, false, ◌==◌, if◌then◌else◌, leb, List, [], ◌∷◌,
  arith, inl, inr, Bool-cases, length, All, subst,
}
use dhcp_golib.Runtime.Timers.{
  Timers, Callback, TimerEvent, set, cancel, close, close_channel, begin, fire, send, give_up,
  receive, num_timers, pending, new_timers, cancel_timer, accepted, step, run, passes, deliveries,
}
use dhcp_golib.Runtime.Timers.Ages.{IsTimers, All-pending, disarm-IsTimers}
use dhcp_golib.Runtime.Timers.Steps.{Spares, step-IsTimers}

-- One for the timer `i`, and zero for the others.
abbrev one_at : ℕ → ℕ → ℕ
one_at i j = if j == i then 1 else 0

one_at-le : (i j : ℕ) → one_at i j ≤ 1
one_at-le i j = ground arith

-- An event that does not set the timer.
abbrev pub Leaves : ℕ → TimerEvent → Type 0
Leaves i (set j d) = (j == i) ≡ false
Leaves i (cancel j) = Unit {0}
Leaves i close = Unit {0}
Leaves i close_channel = Unit {0}
Leaves i (begin c) = Unit {0}
Leaves i (fire c) = Unit {0}
Leaves i (send j) = Unit {0}
Leaves i (give_up j) = Unit {0}
Leaves i receive = Unit {0}

Leaves-Spares : (i : ℕ) (ev : TimerEvent) → Leaves i ev → Spares (one_at i) ev
Leaves-Spares i (set j d) h = ground (arith, h)
Leaves-Spares i (cancel j) h = tt
Leaves-Spares i close h = tt
Leaves-Spares i close_channel h = tt
Leaves-Spares i (begin c) h = tt
Leaves-Spares i (fire c) h = tt
Leaves-Spares i (send j) h = tt
Leaves-Spares i (give_up j) h = tt
Leaves-Spares i receive h = tt

stale_not-accepted :
    (i k : ℕ) (c : Callback) (t : Timers)
    → IsTimers (one_at i) k t
    → (c.id == i) ≡ true
    → accepted c t ≡ false
unfolding accepted
stale_not-accepted i k c t h e = elim (Bool-cases (pending c t.started)) [
  | inr f ↦ ground (arith, f)
  | inl f ↦
      let old : c.generation + one_at i c.id ≤ t.gen c.id =
        All-pending (λ j g. g + one_at i j ≤ t.gen j) c t.started h.started_old f in
      ground (arith, old, e)
]

quiet_passes :
    (i k : ℕ) (t : Timers) (ev : TimerEvent) → IsTimers (one_at i) k t → passes i t ev ≡ 0
unfolding passes
quiet_passes i k t (set j d) h = refl
quiet_passes i k t (cancel j) h = refl
quiet_passes i k t close h = refl
quiet_passes i k t close_channel h = refl
quiet_passes i k t (begin c) h = refl
quiet_passes i k t (fire c) h = elim (Bool-cases (c.id == i)) [
  | inl e ↦ ground (arith, e, stale_not-accepted i k c t h e)
  | inr e ↦ ground (arith, e)
]
quiet_passes i k t (send j) h = refl
quiet_passes i k t (give_up j) h = refl
quiet_passes i k t receive h = refl

quiet_deliveries :
    (i k : ℕ) (t : Timers) (evs : List TimerEvent)
    → All (Leaves i) evs
    → k + length evs * 17 < 2 ^ 64
    → IsTimers (one_at i) k t
    → deliveries i t evs ≡ 0
unfolding deliveries
quiet_deliveries i k t [] left w h = refl
quiet_deliveries i k t (ev ∷ evs) left w h =
    let next =
      step-IsTimers (one_at i) k t ev (one_at-le i) (Leaves-Spares i ev left.0) (omega arith) h in
    let rest = quiet_deliveries i (k + 17) (step t ev) evs left.1 (omega arith) next in
    omega (arith, quiet_passes i k t ev h, rest)

abbrev none_raised : ℕ → ℕ
none_raised j = 0

all_spared : (ev : TimerEvent) → Spares none_raised ev
all_spared (set j d) = refl
all_spared (cancel j) = tt
all_spared close = tt
all_spared close_channel = tt
all_spared (begin c) = tt
all_spared (fire c) = tt
all_spared (send j) = tt
all_spared (give_up j) = tt
all_spared receive = tt

run-IsTimers :
    (k : ℕ) (t : Timers) (evs : List TimerEvent)
    → k + length evs * 17 < 2 ^ 64
    → IsTimers none_raised k t
    → IsTimers none_raised (k + length evs * 17) (run t evs)
unfolding run
run-IsTimers k t [] w h = subst (λ b. IsTimers none_raised b t) (omega arith) h
run-IsTimers k t (ev ∷ evs) w h =
    let next =
      step-IsTimers none_raised k t ev (λ j. omega arith) (all_spared ev) (omega arith) h in
    subst (λ b. IsTimers none_raised b (run (step t ev) evs)) (omega arith)
      (run-IsTimers (k + 17) (step t ev) evs (omega arith) next)

new_timers-IsTimers : IsTimers none_raised 0 new_timers
unfolding new_timers
new_timers-IsTimers = record { bounded = λ i. omega arith; scheduled_old = tt; started_old = tt }

cancelled :
    (i k : ℕ) (t : Timers)
    → i < num_timers
    → k + 1 < 2 ^ 64
    → IsTimers none_raised k t
    → IsTimers (one_at i) (k + 1) (cancel_timer i t)
unfolding cancel_timer
cancelled i k t small w h = elim (Bool-cases (leb num_timers i)) [
  | inl e ↦ absurd (ground (arith, e, small))
  | inr e ↦
      rw (e, cancel_timer)
        (disarm-IsTimers none_raised (one_at i) i k t (λ j f. ground (arith, f)) (one_at-le i i) w
          h)
]

-- Once Cancel has returned, no fire of the timer passes its check until the timer is set again: neither
-- of a callback that was scheduled, nor of one that had started and waits for the lock. What happened
-- before, what the other timers do, and the order in which all of it happens are arbitrary; the events
-- are too few for a generation of 64 bits to come round, some 10^18.
pub deliveries-cancel :
    (i : ℕ) (before after : List TimerEvent)
    → i < num_timers
    → All (Leaves i) after
    → length before * 17 + 1 + length after * 17 < 2 ^ 64
    → deliveries i (step (run new_timers before) (cancel i)) after ≡ 0
unfolding step
deliveries-cancel i before after small left w =
    let reached = run-IsTimers 0 new_timers before (omega arith) new_timers-IsTimers in
    quiet_deliveries i (0 + length before * 17 + 1) (cancel_timer i (run new_timers before)) after
      left (omega arith)
      (cancelled i (0 + length before * 17) (run new_timers before) small (omega arith) reached)

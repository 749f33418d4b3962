-- ===== src/Runtime/Timers/Closing.antt =====
-- Closing the service and its channel, with callbacks that are sending.
use dhcp_golib.Base.{
  ℕ, zero, suc, ◌≡◌, refl, ap, sym, ◌∙◌, true, false, not, ◌&&◌, ◌==◌, leb, List, [], ◌∷◌, arith,
  inl, inr, Bool-cases, length, subst,
}
use dhcp_golib.Proto.Time.{Duration}
use dhcp_golib.Runtime.Timers.{
  Timers, Callback, TimerEvent, set, cancel, close, close_channel, begin, fire, send, give_up,
  receive, num_timers, has_id, new_timers, next_gen, disarm, set_timer, cancel_timer, close_loop,
  close_timers, close_fired, begin_callback, accepted, fire_callback, send_fire, give_up_fire, step,
  run,
}
use dhcp_golib.Runtime.Timers.Ages.{stop_locked-cases}
use dhcp_golib.Runtime.Timers.Steps.{set_timer-cases}

-- The channel is closed only after the service, and while no callback is sending; nothing has panicked.
pub record IsSafe (t : Timers) : Type 0 where
  pub after_close : (t.channel_closed && not t.closed) ≡ false
  pub none_sending : (t.channel_closed && not (length t.sending == 0)) ≡ false
  pub sound : t.panicked ≡ false

-- What disarming leaves alone.
abbrev Same : Timers → Timers → Type 0
Same t u =
    (u.closed ≡ t.closed)
    × (u.channel_closed ≡ t.channel_closed)
    × (u.sending ≡ t.sending)
    × (u.panicked ≡ t.panicked)

Same-IsSafe : (t u : Timers) → Same t u → IsSafe t → IsSafe u
Same-IsSafe t u (a, b, c, d) h = record {
  after_close = ground (arith, a, b, h.after_close);
  none_sending = ground (arith, ap length c, b, h.none_sending);
  sound = d ∙ h.sound;
}

disarm-Same : (i : ℕ) (t : Timers) → Same t (disarm i t)
unfolding disarm next_gen
disarm-Same i t = elim (stop_locked-cases i t) [
  | inl e ↦ (
    ap (λ u. u.closed) e,
    ap (λ u. u.channel_closed) e,
    ap (λ u. u.sending) e,
    ap (λ u. u.panicked) e,
  )
  | inr (g, e) ↦ (
    ap (λ u. u.closed) e,
    ap (λ u. u.channel_closed) e,
    ap (λ u. u.sending) e,
    ap (λ u. u.panicked) e,
  )
]

disarm-IsSafe : (i : ℕ) (t : Timers) → IsSafe t → IsSafe (disarm i t)
disarm-IsSafe i t h = Same-IsSafe t (disarm i t) (disarm-Same i t) h

set_timer-IsSafe : (i : ℕ) (d : Duration) (t : Timers) → IsSafe t → IsSafe (set_timer i d t)
set_timer-IsSafe i d t h =
    let off = disarm-IsSafe i t h in
    elim (set_timer-cases i d t) [
      | inl e ↦ subst IsSafe (sym e) h
      | inr e ↦ subst IsSafe (sym e) (record {
        after_close = off.after_close;
        none_sending = off.none_sending;
        sound = off.sound;
      })
    ]

cancel_timer-IsSafe : (i : ℕ) (t : Timers) → IsSafe t → IsSafe (cancel_timer i t)
unfolding cancel_timer
cancel_timer-IsSafe i t h = elim (Bool-cases (leb num_timers i)) [
  | inl e ↦ rw (e, cancel_timer) h
  | inr e ↦ rw (e, cancel_timer) (disarm-IsSafe i t h)
]

close_loop-IsSafe : (n : ℕ) (t : Timers) → IsSafe t → IsSafe (close_loop n t)
unfolding close_loop
close_loop-IsSafe zero t h = h
close_loop-IsSafe (suc n) t h = disarm-IsSafe n (close_loop n t) (close_loop-IsSafe n t h)

close_timers-IsSafe : (t : Timers) → IsSafe t → IsSafe (close_timers t)
unfolding close_timers
close_timers-IsSafe t h =
    let closing : IsSafe (record t { closed = true }) = record {
      after_close = ground arith;
      none_sending = h.none_sending;
      sound = h.sound;
    } in
    elim (Bool-cases t.closed) [
      | inl e ↦ rw (e, close_timers) closing
      | inr e ↦ rw (e, close_timers) (close_loop-IsSafe 17 (record t { closed = true }) closing)
    ]

close_fired-IsSafe : (t : Timers) → IsSafe t → IsSafe (close_fired t)
unfolding close_fired
close_fired-IsSafe t h = record {
  after_close = ground (arith, h.after_close);
  none_sending = ground (arith, h.none_sending);
  sound = ground (arith, h.sound);
}

fire_callback-IsSafe : (c : Callback) (t : Timers) → IsSafe t → IsSafe (fire_callback c t)
unfolding fire_callback accepted
fire_callback-IsSafe c t h = record {
  after_close = ground (arith, h.after_close);
  none_sending = ground (arith, h.after_close, h.none_sending);
  sound = ground (arith, h.sound);
}

begin_callback-IsSafe : (c : Callback) (t : Timers) → IsSafe t → IsSafe (begin_callback c t)
unfolding begin_callback
begin_callback-IsSafe c t h = record {
  after_close = ground (arith, h.after_close);
  none_sending = ground (arith, h.none_sending);
  sound = ground (arith, h.sound);
}

nothing_to_send : (i : ℕ) (js : List ℕ) → (length js == 0) ≡ true → has_id i js ≡ false
unfolding has_id
nothing_to_send i [] e = refl
nothing_to_send i (j ∷ js) e = absurd (ground (arith, e))

send_fire-IsSafe : (i : ℕ) (t : Timers) → IsSafe t → IsSafe (send_fire i t)
unfolding send_fire
send_fire-IsSafe i t h = record {
  after_close = ground (arith, h.after_close);
  none_sending = ground (arith, h.none_sending, nothing_to_send i t.sending);
  sound = ground (arith, h.none_sending, h.sound, nothing_to_send i t.sending);
}

give_up_fire-IsSafe : (i : ℕ) (t : Timers) → IsSafe t → IsSafe (give_up_fire i t)
unfolding give_up_fire
give_up_fire-IsSafe i t h = record {
  after_close = ground (arith, h.after_close);
  none_sending = ground (arith, h.none_sending, nothing_to_send i t.sending);
  sound = ground (arith, h.sound);
}

step-IsSafe : (t : Timers) (ev : TimerEvent) → IsSafe t → IsSafe (step t ev)
unfolding step
step-IsSafe t (set i d) h = set_timer-IsSafe i d t h
step-IsSafe t (cancel i) h = cancel_timer-IsSafe i t h
step-IsSafe t close h = close_timers-IsSafe t h
step-IsSafe t close_channel h = close_fired-IsSafe t h
step-IsSafe t (begin c) h = begin_callback-IsSafe c t h
step-IsSafe t (fire c) h = fire_callback-IsSafe c t h
step-IsSafe t (send i) h = send_fire-IsSafe i t h
step-IsSafe t (give_up i) h = give_up_fire-IsSafe i t h
step-IsSafe t receive h = record {
  after_close = h.after_close;
  none_sending = h.none_sending;
  sound = h.sound;
}

run_from-IsSafe : (t : Timers) (evs : List TimerEvent) → IsSafe t → IsSafe (run t evs)
unfolding run
run_from-IsSafe t [] h = h
run_from-IsSafe t (ev ∷ evs) h = run_from-IsSafe (step t ev) evs (step-IsSafe t ev h)

new_timers-IsSafe : IsSafe new_timers
unfolding new_timers
new_timers-IsSafe = record { after_close = refl; none_sending = refl; sound = refl }

-- In every run of the service, whatever its callers and its callbacks do and in whatever order, no
-- callback sends on the closed channel: the channel is closed only after the service and while no
-- callback is sending.
pub run-IsSafe : (evs : List TimerEvent) → IsSafe (run new_timers evs)
run-IsSafe evs = run_from-IsSafe new_timers evs new_timers-IsSafe

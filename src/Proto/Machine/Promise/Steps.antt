-- ===== src/Proto/Machine/Promise/Steps.antt =====
-- Every event in every state keeps the promise, so every run does (proto/machine.go).
use dhcp_golib.Base.{ℕ, ◌≡◌, true, false, Option, none, some, arith, refl, Bool-cases, inl, inr}
use dhcp_golib.Proto.Time.{Instant}
use dhcp_golib.Proto.Event.{
  State, state_stopped, state_init, state_selecting, state_requesting, state_bound, state_renewing,
  state_rebinding, state_rebooting, state_probing, Event, ev_start, ev_stop, ev_link_down,
  ev_link_up, ev_conflict_detected, ev_address_lost, ev_release, ev_received, ev_timer_fired,
  TimerId, ev_action_failed, ev_arp_received, ev_set_hostname, reason_link_down,
  reason_address_lost,
}
use dhcp_golib.Proto.Machine.{Machine, Run, stamp, journal}
use dhcp_golib.Proto.Machine.Messages.{acceptable}
use dhcp_golib.Proto.Machine.Idle.{link_down}
use dhcp_golib.Proto.Machine.Answers.{
  received_selecting, received_requesting, received_rebooting, received_renewal,
}
use dhcp_golib.Proto.Machine.Step.{
  unstepped, step_stopped, received_init, step_init, if_acceptable, step_selecting, step_requesting,
  step_rebooting, link_lost, address_lost, step_bound, step_renewal, step_probing, dispatch, handle,
  step, is_forcerenew,
}
use dhcp_golib.Proto.Machine.Promise.{Client, fired, is_some, IsTracked, IsFree, IsSettled}
use dhcp_golib.Proto.Machine.Promise.Parts.{
  journal-IsSettled, drop_lease-IsFree, drop_lease-IsClear, to_init_idle-IsSettled,
}
use dhcp_golib.Proto.Machine.Promise.Restarts.{
  begin_acquisition-IsSettled, decline_and_restart-IsSettled, release-IsSettled,
  release_before_bound-IsSettled, stop-IsSettled, link_down-IsSettled,
}
use dhcp_golib.Proto.Machine.Promise.Failures.{note_action_failed-IsSettled}
use dhcp_golib.Proto.Machine.Promise.Leases.{take_hostname-IsSettled}
use dhcp_golib.Proto.Machine.Promise.Conflicts.{on_arp-IsSettled, take_forcerenew-IsSettled}
use dhcp_golib.Proto.Machine.Promise.Replies.{
  IsIdle, IsLeased, refuse_rapid-IsSettled, received_selecting-IsSettled,
  received_requesting-IsSettled, received_rebooting-IsSettled, received_renewal-IsSettled,
  note_v6_only_kept-IsSettled,
}
use dhcp_golib.Proto.Machine.Promise.Firing.{
  timer_init-IsSettled, timer_selecting-IsSettled, timer_requesting-IsSettled,
  timer_rebooting-IsSettled, timer_bound-IsSettled, timer_probing-IsSettled,
  timer_renewing-IsSettled, timer_rebinding-IsSettled,
}
use dhcp_golib.Wire.Message.{Message}

module _ (c : Client) (r : Run) (s : IsSettled c r) where
  noted : IsSettled c (journal r)
  noted = journal-IsSettled c r s

  tracked : IsTracked c r
  tracked = ground arith

  received_init-IsSettled : (msg : Option Message) → IsSettled c (received_init msg r)
  unfolding received_init
  received_init-IsSettled none = noted
  received_init-IsSettled (some msg) = ground (arith, noted, refuse_rapid-IsSettled c r s)

  if_acceptable-IsSettled :
      (act : Message → Run → Run) (msg : Option Message)
      → ((m : Message) → IsSettled c (act m r))
      → IsSettled c (if_acceptable act msg r)
  unfolding if_acceptable
  if_acceptable-IsSettled act msg each =
      elim (acceptable r.machine msg)
        as (λ o. IsSettled c (elim o [ none ↦ journal r | some m ↦ act m r ])) [
          | none ↦ noted
          | some m ↦ each m
        ]

  link_lost-IsSettled : IsSettled c (link_lost r)
  unfolding link_lost
  link_lost-IsSettled = to_init_idle-IsSettled c _ (drop_lease-IsFree c r reason_link_down tracked)

  address_lost-IsSettled :
      (now : Instant) (rnd : ℕ)
      → is_some r.machine.probing ≡ false
      → IsSettled c (address_lost now rnd r)
  unfolding address_lost
  address_lost-IsSettled now rnd e =
      begin_acquisition-IsSettled c now rnd false _
        (drop_lease-IsClear c r reason_address_lost tracked e)

-- The handlers, at the start of a step.
module _ (c : Client) (m : Machine) (s : IsSettled c (unstepped m)) (now : Instant) (rnd : ℕ) where
  idle : is_some m.lease ≡ false → is_some m.probing ≡ false → IsIdle c (unstepped m)
  idle e f = ground arith

  leased : is_some m.lease ≡ true → is_some m.probing ≡ false → IsLeased c (unstepped m)
  leased e f = ground arith

  stopped_timer :
      (t : TimerId)
      → m.state ≡ state_stopped
      → IsSettled (fired (ev_timer_fired t) c) (journal (unstepped m))
  unfolding stamp
  stopped_timer t e = ground arith

  step_stopped-IsSettled :
      (ev : Event)
      → m.state ≡ state_stopped
      → IsSettled (fired ev c) (step_stopped now rnd ev (unstepped m))
  unfolding step_stopped
  step_stopped-IsSettled ev_start e =
      begin_acquisition-IsSettled c now rnd true (unstepped m)
        (idle (ground arith) (ground arith)).clear
  step_stopped-IsSettled (ev_set_hostname name) e =
      take_hostname-IsSettled c now rnd name (unstepped m) s
  step_stopped-IsSettled (ev_timer_fired t) e = stopped_timer t e
  step_stopped-IsSettled _ e = noted c (unstepped m) s

  step_init-IsSettled :
      (ev : Event)
      → m.state ≡ state_init
      → IsSettled (fired ev c) (step_init now rnd ev (unstepped m))
  unfolding step_init
  step_init-IsSettled ev_start e =
      begin_acquisition-IsSettled c now rnd true (unstepped m)
        (idle (ground arith) (ground arith)).clear
  step_init-IsSettled ev_stop e = stop-IsSettled c (unstepped m) (tracked c (unstepped m) s)
  step_init-IsSettled ev_release e =
      release_before_bound-IsSettled c (unstepped m) (tracked c (unstepped m) s)
  step_init-IsSettled (ev_timer_fired t) e = timer_init-IsSettled c m s now rnd t e
  step_init-IsSettled ev_link_up e =
      begin_acquisition-IsSettled c now rnd true (unstepped m)
        (idle (ground arith) (ground arith)).clear
  step_init-IsSettled (ev_action_failed id) e =
      note_action_failed-IsSettled c now rnd id (unstepped m) s
  step_init-IsSettled (ev_set_hostname name) e =
      take_hostname-IsSettled c now rnd name (unstepped m) s
  step_init-IsSettled (ev_received msg raw dst) e = received_init-IsSettled c (unstepped m) s msg
  step_init-IsSettled _ e = noted c (unstepped m) s

  step_selecting-IsSettled :
      (ev : Event)
      → m.state ≡ state_selecting
      → IsSettled (fired ev c) (step_selecting now rnd ev (unstepped m))
  unfolding step_selecting
  step_selecting-IsSettled ev_stop e = stop-IsSettled c (unstepped m) (tracked c (unstepped m) s)
  step_selecting-IsSettled ev_release e =
      release_before_bound-IsSettled c (unstepped m) (tracked c (unstepped m) s)
  step_selecting-IsSettled (ev_received msg raw dst) e =
      if_acceptable-IsSettled c (unstepped m) s (received_selecting now rnd) msg (λ reply.
        received_selecting-IsSettled c now rnd reply (unstepped m)
          (idle (ground arith) (ground arith)))
  step_selecting-IsSettled (ev_timer_fired t) e = timer_selecting-IsSettled c m s now rnd t e
  step_selecting-IsSettled ev_link_down e =
      link_down-IsSettled c (unstepped m) (idle (ground arith) (ground arith)).clear.free
  step_selecting-IsSettled (ev_action_failed id) e =
      note_action_failed-IsSettled c now rnd id (unstepped m) s
  step_selecting-IsSettled (ev_set_hostname name) e =
      take_hostname-IsSettled c now rnd name (unstepped m) s
  step_selecting-IsSettled _ e = noted c (unstepped m) s

  step_requesting-IsSettled :
      (ev : Event)
      → m.state ≡ state_requesting
      → IsSettled (fired ev c) (step_requesting now rnd ev (unstepped m))
  unfolding step_requesting
  step_requesting-IsSettled ev_stop e = stop-IsSettled c (unstepped m) (tracked c (unstepped m) s)
  step_requesting-IsSettled ev_release e =
      release_before_bound-IsSettled c (unstepped m) (tracked c (unstepped m) s)
  step_requesting-IsSettled (ev_received msg raw dst) e =
      if_acceptable-IsSettled c (unstepped m) s (received_requesting now rnd) msg (λ reply.
        received_requesting-IsSettled c now rnd reply (unstepped m)
          (idle (ground arith) (ground arith)))
  step_requesting-IsSettled (ev_timer_fired t) e = timer_requesting-IsSettled c m s now rnd t e
  step_requesting-IsSettled ev_link_down e =
      link_down-IsSettled c (unstepped m) (idle (ground arith) (ground arith)).clear.free
  step_requesting-IsSettled (ev_action_failed id) e =
      note_action_failed-IsSettled c now rnd id (unstepped m) s
  step_requesting-IsSettled (ev_set_hostname name) e =
      take_hostname-IsSettled c now rnd name (unstepped m) s
  step_requesting-IsSettled _ e = noted c (unstepped m) s

  step_rebooting-IsSettled :
      (ev : Event)
      → m.state ≡ state_rebooting
      → IsSettled (fired ev c) (step_rebooting now rnd ev (unstepped m))
  unfolding step_rebooting
  step_rebooting-IsSettled ev_stop e = stop-IsSettled c (unstepped m) (tracked c (unstepped m) s)
  step_rebooting-IsSettled ev_release e =
      release_before_bound-IsSettled c (unstepped m) (tracked c (unstepped m) s)
  step_rebooting-IsSettled (ev_received msg raw dst) e =
      if_acceptable-IsSettled c (unstepped m) s (received_rebooting now rnd) msg (λ reply.
        received_rebooting-IsSettled c now rnd reply (unstepped m)
          (idle (ground arith) (ground arith)))
  step_rebooting-IsSettled (ev_timer_fired t) e = timer_rebooting-IsSettled c m s now rnd t e
  step_rebooting-IsSettled ev_link_down e =
      link_down-IsSettled c (unstepped m) (idle (ground arith) (ground arith)).clear.free
  step_rebooting-IsSettled (ev_action_failed id) e =
      note_action_failed-IsSettled c now rnd id (unstepped m) s
  step_rebooting-IsSettled (ev_set_hostname name) e =
      take_hostname-IsSettled c now rnd name (unstepped m) s
  step_rebooting-IsSettled _ e = noted c (unstepped m) s

  step_bound-IsSettled :
      (ev : Event)
      → m.state ≡ state_bound
      → IsSettled (fired ev c) (step_bound now rnd ev (unstepped m))
  unfolding step_bound
  step_bound-IsSettled ev_stop e = stop-IsSettled c (unstepped m) (tracked c (unstepped m) s)
  step_bound-IsSettled (ev_timer_fired t) e = timer_bound-IsSettled c m s now rnd t e
  step_bound-IsSettled ev_link_down e = link_lost-IsSettled c (unstepped m) s
  step_bound-IsSettled ev_address_lost e =
      address_lost-IsSettled c (unstepped m) s now rnd (ground arith)
  step_bound-IsSettled ev_conflict_detected e =
      decline_and_restart-IsSettled c now rnd (unstepped m) (tracked c (unstepped m) s)
  step_bound-IsSettled (ev_arp_received p) e = on_arp-IsSettled c now rnd p (unstepped m) s
  step_bound-IsSettled ev_release e =
      release-IsSettled c rnd (unstepped m) (tracked c (unstepped m) s)
  step_bound-IsSettled (ev_received msg raw dst) e =
      journal-IsSettled c _ (note_v6_only_kept-IsSettled c msg (unstepped m) s)
  step_bound-IsSettled (ev_action_failed id) e =
      note_action_failed-IsSettled c now rnd id (unstepped m) s
  step_bound-IsSettled (ev_set_hostname name) e =
      take_hostname-IsSettled c now rnd name (unstepped m) s
  step_bound-IsSettled _ e = noted c (unstepped m) s

  step_renewing-IsSettled :
      (ev : Event)
      → m.state ≡ state_renewing
      → IsSettled (fired ev c) (step_renewal now rnd ev (unstepped m))
  unfolding step_renewal
  step_renewing-IsSettled ev_stop e = stop-IsSettled c (unstepped m) (tracked c (unstepped m) s)
  step_renewing-IsSettled ev_release e =
      release-IsSettled c rnd (unstepped m) (tracked c (unstepped m) s)
  step_renewing-IsSettled ev_conflict_detected e =
      decline_and_restart-IsSettled c now rnd (unstepped m) (tracked c (unstepped m) s)
  step_renewing-IsSettled (ev_arp_received p) e = on_arp-IsSettled c now rnd p (unstepped m) s
  step_renewing-IsSettled (ev_received msg raw dst) e =
      if_acceptable-IsSettled c (unstepped m) s (received_renewal now rnd) msg (λ reply.
        received_renewal-IsSettled c now rnd reply (unstepped m)
          (leased (ground arith) (ground arith)))
  step_renewing-IsSettled (ev_timer_fired t) e = timer_renewing-IsSettled c m s now rnd t e
  step_renewing-IsSettled ev_link_down e = link_lost-IsSettled c (unstepped m) s
  step_renewing-IsSettled ev_address_lost e =
      address_lost-IsSettled c (unstepped m) s now rnd (ground arith)
  step_renewing-IsSettled (ev_action_failed id) e =
      note_action_failed-IsSettled c now rnd id (unstepped m) s
  step_renewing-IsSettled (ev_set_hostname name) e =
      take_hostname-IsSettled c now rnd name (unstepped m) s
  step_renewing-IsSettled _ e = noted c (unstepped m) s

  step_rebinding-IsSettled :
      (ev : Event)
      → m.state ≡ state_rebinding
      → IsSettled (fired ev c) (step_renewal now rnd ev (unstepped m))
  unfolding step_renewal
  step_rebinding-IsSettled ev_stop e = stop-IsSettled c (unstepped m) (tracked c (unstepped m) s)
  step_rebinding-IsSettled ev_release e =
      release-IsSettled c rnd (unstepped m) (tracked c (unstepped m) s)
  step_rebinding-IsSettled ev_conflict_detected e =
      decline_and_restart-IsSettled c now rnd (unstepped m) (tracked c (unstepped m) s)
  step_rebinding-IsSettled (ev_arp_received p) e = on_arp-IsSettled c now rnd p (unstepped m) s
  step_rebinding-IsSettled (ev_received msg raw dst) e =
      if_acceptable-IsSettled c (unstepped m) s (received_renewal now rnd) msg (λ reply.
        received_renewal-IsSettled c now rnd reply (unstepped m)
          (leased (ground arith) (ground arith)))
  step_rebinding-IsSettled (ev_timer_fired t) e = timer_rebinding-IsSettled c m s now rnd t e
  step_rebinding-IsSettled ev_link_down e = link_lost-IsSettled c (unstepped m) s
  step_rebinding-IsSettled ev_address_lost e =
      address_lost-IsSettled c (unstepped m) s now rnd (ground arith)
  step_rebinding-IsSettled (ev_action_failed id) e =
      note_action_failed-IsSettled c now rnd id (unstepped m) s
  step_rebinding-IsSettled (ev_set_hostname name) e =
      take_hostname-IsSettled c now rnd name (unstepped m) s
  step_rebinding-IsSettled _ e = noted c (unstepped m) s

  probing-IsFree : m.state ≡ state_probing → IsFree c (unstepped m)
  probing-IsFree e = ground arith

  step_probing-IsSettled :
      (ev : Event)
      → m.state ≡ state_probing
      → IsSettled (fired ev c) (step_probing now rnd ev (unstepped m))
  unfolding step_probing link_down
  step_probing-IsSettled ev_stop e = stop-IsSettled c (unstepped m) (tracked c (unstepped m) s)
  step_probing-IsSettled ev_release e =
      release-IsSettled c rnd (unstepped m) (tracked c (unstepped m) s)
  step_probing-IsSettled (ev_timer_fired t) e = timer_probing-IsSettled c m s now rnd t e
  step_probing-IsSettled (ev_arp_received p) e = on_arp-IsSettled c now rnd p (unstepped m) s
  step_probing-IsSettled ev_conflict_detected e =
      decline_and_restart-IsSettled c now rnd (unstepped m) (tracked c (unstepped m) s)
  step_probing-IsSettled ev_link_down e = link_down-IsSettled c (unstepped m) (probing-IsFree e)
  step_probing-IsSettled (ev_action_failed id) e =
      note_action_failed-IsSettled c now rnd id (unstepped m) s
  step_probing-IsSettled (ev_set_hostname name) e =
      take_hostname-IsSettled c now rnd name (unstepped m) s
  step_probing-IsSettled _ e = noted c (unstepped m) s

  dispatch-IsSettled :
      (st : State) (ev : Event)
      → m.state ≡ st
      → IsSettled (fired ev c) (dispatch st now rnd ev (unstepped m))
  unfolding dispatch
  dispatch-IsSettled state_stopped ev e = step_stopped-IsSettled ev e
  dispatch-IsSettled state_init ev e = step_init-IsSettled ev e
  dispatch-IsSettled state_selecting ev e = step_selecting-IsSettled ev e
  dispatch-IsSettled state_requesting ev e = step_requesting-IsSettled ev e
  dispatch-IsSettled state_bound ev e = step_bound-IsSettled ev e
  dispatch-IsSettled state_renewing ev e = step_renewing-IsSettled ev e
  dispatch-IsSettled state_rebinding ev e = step_rebinding-IsSettled ev e
  dispatch-IsSettled state_rebooting ev e = step_rebooting-IsSettled ev e
  dispatch-IsSettled state_probing ev e = step_probing-IsSettled ev e

  -- A step keeps what a client relies on, the timer that fired counted as no longer armed.
  pub step-IsSettled : (ev : Event) → IsSettled (fired ev c) (step m now rnd ev)
  unfolding step handle
  step-IsSettled (ev_received (some msg) raw dst) = elim (Bool-cases (is_forcerenew msg)) [
    | inl e ↦ ground (arith, e, take_forcerenew-IsSettled c now rnd msg raw dst (unstepped m) s)
    | inr e ↦ ground (arith, e, dispatch-IsSettled m.state (ev_received (some msg) raw dst) refl)
  ]
  step-IsSettled (ev_received none raw dst) =
      dispatch-IsSettled m.state (ev_received none raw dst) refl
  step-IsSettled ev = dispatch-IsSettled m.state ev refl

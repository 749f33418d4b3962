-- ===== src/Proto/Machine/Pacing.antt =====
-- proto/machine.go: after a refusal the client waits before it starts over.
use dhcp_golib.Base.{
  ℕ, ◌≡◌, ◌≢◌, ◌+◌, ◌-◌, Bool, true, false, List, [], ◌∷◌, Option, none, some, if◌then◌else◌, arith,
  Option-cases, inl, inr, ==_iff,
}
use dhcp_golib.Proto.Time.{Duration, Instant}
use dhcp_golib.Proto.Params.{split}
use dhcp_golib.Proto.Backoff.{delay}
use dhcp_golib.Proto.Event.{
  State, state_stopped, Reason, state_requesting, state_rebooting, state_renewing, state_rebinding,
  state_init, ev_received, TimerId, timer_retransmit, timer_restart, Action, ActionKind,
  act_set_timer, act_cancel_timer, reason_nak,
}
use dhcp_golib.Proto.Machine.{Machine, Run, stamp, assigning, failed, cancel}
use dhcp_golib.Proto.Machine.Messages.{acceptable}
use dhcp_golib.Proto.Machine.Idle.{drop_lease}
use dhcp_golib.Proto.Machine.Acquire.{wait_to_restart, restart_paced}
use dhcp_golib.Proto.Machine.Answers.{
  take_nak, take_renewal_nak, received_requesting, received_rebooting, received_renewal,
}
use dhcp_golib.Proto.Machine.Step.{
  step, handle, dispatch, unstepped, step_requesting, step_rebooting, step_renewal, if_acceptable,
  is_forcerenew,
}
use dhcp_golib.Proto.Machine.Promise.{same_timer, fits, is_some}
use dhcp_golib.Proto.Machine.Endings.{sent}
use dhcp_golib.Wire.Message.{Addr, Message, msg_type, msg_nak}

-- How long a timer is armed for after some actions, the newest first; none where it was not armed.
abbrev pub armed_for_by : TimerId → ActionKind → Option Duration → Option Duration
armed_for_by t (act_set_timer u d) before = if same_timer u t then some d else before
armed_for_by t (act_cancel_timer u) before = if same_timer u t then none else before
armed_for_by t _ before = before

abbrev pub armed_for : TimerId → List Action → Option Duration
armed_for t [] = none
armed_for t (a ∷ acts) = armed_for_by t a.kind (armed_for t acts)

wait_to_restart_lem :
    (n rnd : ℕ) (r : Run)
    → ((wait_to_restart n rnd r).machine.state ≡ state_init)
      × ((wait_to_restart n rnd r).machine.lease ≡ r.machine.lease)
      × ((wait_to_restart n rnd r).machine.restarts ≡ r.machine.restarts)
      × (sent (wait_to_restart n rnd r).out ≡ sent r.out)
      × (armed_for timer_restart (wait_to_restart n rnd r).out
          ≡ some (delay r.machine.params.discover (n - 1) (split rnd 4)))
unfolding wait_to_restart stamp
wait_to_restart_lem n rnd r = ground arith

restart_paced_waits :
    (now : Instant) (rnd : ℕ) (r : Run)
    → r.machine.restarts ≢ 0
    → restart_paced now rnd false r
      ≡ wait_to_restart r.machine.restarts rnd
          (assigning (λ m. record m { restarts = r.machine.restarts + 1 }) r)
unfolding restart_paced
restart_paced_waits now rnd r h = ground (arith, ==_iff r.machine.restarts 0)

abbrev pub takes_nak : State → Bool
takes_nak state_requesting = true
takes_nak state_rebooting = true
takes_nak state_renewing = true
takes_nak state_rebinding = true
takes_nak _ = false

-- What a NAK leaves behind, in a row of restarts.
record IsWaiting (m : Machine) (rnd : ℕ) (r : Run) : Type 0 where
  parked : r.machine.state ≡ state_init
  no_lease : r.machine.lease ≡ none
  counted : r.machine.restarts ≡ m.restarts + 1
  unsent : sent r.out ≡ []
  waits :
      armed_for timer_restart r.out
      ≡ some (delay m.params.discover (m.restarts - 1) (split (split rnd 1) 4))

take_nak-IsWaiting :
    (m : Machine) (now : Instant) (rnd : ℕ)
    → m.restarts ≢ 0
    → m.lease ≡ none
    → IsWaiting m rnd (take_nak now rnd (unstepped m))
unfolding take_nak stamp
take_nak-IsWaiting m now rnd h l =
    let told = failed reason_nak (cancel timer_retransmit (unstepped m)) in
    let counted = assigning (λ u. record u { restarts = m.restarts + 1 }) told in
    ground (
      arith,
      l,
      restart_paced_waits now (split rnd 1) told h,
      wait_to_restart_lem m.restarts (split rnd 1) counted,
    )

drop_lease_keeps :
    (why : Reason) (m : Machine)
    → ((drop_lease why (unstepped m)).machine.lease ≡ none)
      × ((drop_lease why (unstepped m)).machine.restarts ≡ m.restarts)
      × ((drop_lease why (unstepped m)).machine.params ≡ m.params)
      × (sent (drop_lease why (unstepped m)).out ≡ [])
unfolding drop_lease stamp
drop_lease_keeps why m = elim (Option-cases m.lease) [
  | inl e ↦ ground (arith, e)
  | inr (l, e) ↦ ground (arith, e)
]

take_renewal_nak-IsWaiting :
    (m : Machine) (now : Instant) (rnd : ℕ)
    → m.restarts ≢ 0
    → IsWaiting m rnd (take_renewal_nak now rnd (unstepped m))
unfolding take_renewal_nak stamp
take_renewal_nak-IsWaiting m now rnd h =
    let dropped = drop_lease reason_nak (unstepped m) in
    let (lease, restarts, params, unsent) = drop_lease_keeps reason_nak m in
    let told = failed reason_nak dropped in
    let counted = assigning (λ u. record u { restarts = dropped.machine.restarts + 1 }) told in
    let some_restart : told.machine.restarts ≢ 0 = ground (arith, restarts) in
    ground (
      arith,
      lease,
      restarts,
      params,
      unsent,
      restart_paced_waits now (split rnd 1) told some_restart,
      wait_to_restart_lem dropped.machine.restarts (split rnd 1) counted,
    )

nak-IsWaiting :
    (st : State) (m : Machine) (now : Instant) (rnd : ℕ) (msg : Message) (raw : List ℕ) (dst : Addr)
    → takes_nak st ≡ true
    → fits st (is_some m.lease) (is_some m.probing) ≡ true
    → acceptable m (some msg) ≡ some msg
    → msg_type msg ≡ some msg_nak
    → m.restarts ≢ 0
    → IsWaiting m rnd (dispatch st now rnd (ev_received (some msg) raw dst) (unstepped m))
unfolding dispatch step_requesting step_rebooting step_renewal if_acceptable received_requesting
    received_rebooting received_renewal
nak-IsWaiting state_requesting m now rnd msg raw dst k f a t h =
    let no_lease : m.lease ≡ none = ground arith in
    ground (arith, a, t, take_nak-IsWaiting m now rnd h no_lease)
nak-IsWaiting state_rebooting m now rnd msg raw dst k f a t h =
    let no_lease : m.lease ≡ none = ground arith in
    ground (arith, a, t, take_nak-IsWaiting m now rnd h no_lease)
nak-IsWaiting state_renewing m now rnd msg raw dst k f a t h =
    ground (arith, a, t, take_renewal_nak-IsWaiting m now rnd h)
nak-IsWaiting state_rebinding m now rnd msg raw dst k f a t h =
    ground (arith, a, t, take_renewal_nak-IsWaiting m now rnd h)
nak-IsWaiting state_stopped m now rnd msg raw dst k f a t h = cc
nak-IsWaiting _ m now rnd msg raw dst k f a t h = cc

-- An acceptable NAK in a state that takes one, with the lease and the check as the state has
-- them and with at least one restart before, drops the lease, sends nothing, counts the restart,
-- and arms the restart timer for the delay of the schedule at the restarts before this one less
-- one.
pub nak_waits :
    (m : Machine) (now : Instant) (rnd : ℕ) (msg : Message) (raw : List ℕ) (dst : Addr)
    → takes_nak m.state ≡ true
    → fits m.state (is_some m.lease) (is_some m.probing) ≡ true
    → acceptable m (some msg) ≡ some msg
    → msg_type msg ≡ some msg_nak
    → m.restarts ≢ 0
    → let r = step m now rnd (ev_received (some msg) raw dst) in
      (r.machine.state ≡ state_init)
      × (r.machine.lease ≡ none)
      × (r.machine.restarts ≡ m.restarts + 1)
      × (sent r.out ≡ [])
      × (armed_for timer_restart r.out
          ≡ some (delay m.params.discover (m.restarts - 1) (split (split rnd 1) 4)))
unfolding step handle
nak_waits m now rnd msg raw dst k f a t h =
    let w = nak-IsWaiting m.state m now rnd msg raw dst k f a t h in
    let other : is_forcerenew msg ≡ false = ground (arith, t) in
    rw other (w.parked, w.no_lease, w.counted, w.unsent, w.waits)

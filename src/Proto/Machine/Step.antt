-- ===== src/Proto/Machine/Step.antt =====
-- proto/machine.go and proto/machine_acd.go: Step, with the handler of each state. An event that a
-- handler does not name leaves one note.
use dhcp_golib.Base.{ℕ, ◌+◌, ◌==◌, Bool, true, false, ◌&&◌, [], Option, none, some, if◌then◌else◌}
use dhcp_golib.Proto.Time.{Instant}
use dhcp_golib.Proto.Backoff.{exhausted}
use dhcp_golib.Proto.Params.{split}
use dhcp_golib.Proto.Event.{
  State, state_stopped, state_init, state_selecting, state_requesting, state_bound, state_renewing,
  state_rebinding, state_rebooting, state_probing, Event, ev_start, ev_stop, ev_link_down,
  ev_link_up, ev_conflict_detected, ev_address_lost, ev_release, ev_received, ev_timer_fired,
  ev_action_failed, ev_arp_received, ev_set_hostname, TimerId, timer_retransmit, timer_desync,
  timer_expire, timer_restart, timer_renew, timer_rebind, timer_acd, reason_no_server,
  reason_expired, reason_link_down, reason_address_lost,
}
use dhcp_golib.Proto.Machine.{Machine, Run, ◌▷◌, assigning, journal, failed}
use dhcp_golib.Proto.Machine.Messages.{acceptable, has_rapid_option, type_of}
use dhcp_golib.Proto.Machine.Idle.{stop, release_before_bound, drop_lease, to_init_idle, link_down}
use dhcp_golib.Proto.Machine.Sending.{
  release, send_discover, send_request, send_reboot, send_renewal, is_renewing,
}
use dhcp_golib.Proto.Machine.Acquire.{
  begin_acquisition, restart_paced, decline_and_restart, note_action_failed,
}
use dhcp_golib.Proto.Machine.Renewing.{take_hostname, enter_renewing, enter_rebinding}
use dhcp_golib.Proto.Machine.Holding.{acd_timer, on_arp}
use dhcp_golib.Proto.Machine.Forcerenew.{take_forcerenew}
use dhcp_golib.Proto.Machine.Answers.{
  refuse_rapid, note_v6_only_kept, received_selecting, received_requesting, received_rebooting,
  received_renewal,
}
use dhcp_golib.Wire.Message.{Message, msg_type, msg_ack, msg_force_renew}

-- `stepStopped`.
unfoldable pub step_stopped : Instant → ℕ → Event → Run → Run
step_stopped now rnd ev_start r = begin_acquisition now rnd true r
step_stopped now rnd (ev_set_hostname name) r = take_hostname now rnd name r
step_stopped now rnd _ r = journal r

unfoldable pub timer_init : Instant → ℕ → TimerId → Run → Run
timer_init now rnd timer_desync r = send_discover now rnd r
timer_init now rnd timer_restart r = begin_acquisition now rnd false r
timer_init now rnd _ r = journal r

unfoldable pub received_init : Option Message → Run → Run
received_init none r = journal r
received_init (some msg) r =
    if has_rapid_option (some msg) && type_of msg == msg_ack then refuse_rapid r else journal r

-- `stepInit`.
unfoldable pub step_init : Instant → ℕ → Event → Run → Run
unfolding timer_init received_init
step_init now rnd ev_start r = begin_acquisition now rnd true r
step_init now rnd ev_stop r = stop r
step_init now rnd ev_release r = release_before_bound r
step_init now rnd (ev_timer_fired t) r = timer_init now rnd t r
step_init now rnd ev_link_up r = begin_acquisition now rnd true r
step_init now rnd (ev_action_failed id) r = note_action_failed now rnd id r
step_init now rnd (ev_set_hostname name) r = take_hostname now rnd name r
step_init now rnd (ev_received msg raw dst) r = received_init msg r
step_init now rnd _ r = journal r

-- `acceptable`, with what a handler does with the message.
unfoldable pub if_acceptable : (Message → Run → Run) → Option Message → Run → Run
if_acceptable act msg r = elim (acceptable r.machine msg) [ none ↦ journal r | some m ↦ act m r ]

-- The end of a transaction without an answer: the failure, and an acquisition from INIT.
unfoldable pub no_answer : Instant → ℕ → Run → Run
no_answer now rnd r = r ▷ failed reason_no_server ▷ begin_acquisition now (split rnd 1) false

abbrev pub count_retransmit : Run → Run
count_retransmit = assigning (λ m. record m { retransmits = m.retransmits + 1 })

unfoldable pub timer_selecting : Instant → ℕ → TimerId → Run → Run
unfolding no_answer
timer_selecting now rnd timer_retransmit r =
    if exhausted r.machine.params.discover r.machine.retransmits
    then no_answer now rnd r
    else (r ▷ count_retransmit ▷ send_discover now rnd)
timer_selecting now rnd _ r = journal r

-- `stepSelecting`.
unfoldable pub step_selecting : Instant → ℕ → Event → Run → Run
unfolding timer_selecting if_acceptable
step_selecting now rnd ev_stop r = stop r
step_selecting now rnd ev_release r = release_before_bound r
step_selecting now rnd (ev_received msg raw dst) r =
    if_acceptable (received_selecting now rnd) msg r
step_selecting now rnd (ev_timer_fired t) r = timer_selecting now rnd t r
step_selecting now rnd ev_link_down r = link_down r
step_selecting now rnd (ev_action_failed id) r = note_action_failed now rnd id r
step_selecting now rnd (ev_set_hostname name) r = take_hostname now rnd name r
step_selecting now rnd _ r = journal r

unfoldable pub timer_requesting : Instant → ℕ → TimerId → Run → Run
unfolding no_answer
timer_requesting now rnd timer_retransmit r =
    if exhausted r.machine.params.request r.machine.retransmits
    then no_answer now rnd r
    else (r ▷ count_retransmit ▷ send_request now rnd)
timer_requesting now rnd _ r = journal r

-- `stepRequesting`.
unfoldable pub step_requesting : Instant → ℕ → Event → Run → Run
unfolding timer_requesting if_acceptable
step_requesting now rnd ev_stop r = stop r
step_requesting now rnd ev_release r = release_before_bound r
step_requesting now rnd (ev_received msg raw dst) r =
    if_acceptable (received_requesting now rnd) msg r
step_requesting now rnd (ev_timer_fired t) r = timer_requesting now rnd t r
step_requesting now rnd ev_link_down r = link_down r
step_requesting now rnd (ev_action_failed id) r = note_action_failed now rnd id r
step_requesting now rnd (ev_set_hostname name) r = take_hostname now rnd name r
step_requesting now rnd _ r = journal r

unfoldable pub timer_rebooting : Instant → ℕ → TimerId → Run → Run
unfolding no_answer
timer_rebooting now rnd timer_retransmit r =
    if exhausted r.machine.params.request r.machine.retransmits
    then no_answer now rnd r
    else (r ▷ count_retransmit ▷ send_reboot now rnd)
timer_rebooting now rnd _ r = journal r

-- `stepRebooting`.
unfoldable pub step_rebooting : Instant → ℕ → Event → Run → Run
unfolding timer_rebooting if_acceptable
step_rebooting now rnd ev_stop r = stop r
step_rebooting now rnd ev_release r = release_before_bound r
step_rebooting now rnd (ev_received msg raw dst) r =
    if_acceptable (received_rebooting now rnd) msg r
step_rebooting now rnd (ev_timer_fired t) r = timer_rebooting now rnd t r
step_rebooting now rnd ev_link_down r = link_down r
step_rebooting now rnd (ev_action_failed id) r = note_action_failed now rnd id r
step_rebooting now rnd (ev_set_hostname name) r = take_hostname now rnd name r
step_rebooting now rnd _ r = journal r

-- What BOUND, RENEWING and REBINDING do at the expiry, at a lost link and at a lost address.
unfoldable pub lease_expired : Instant → ℕ → Run → Run
lease_expired now rnd r = r ▷ drop_lease reason_expired ▷ restart_paced now rnd false

unfoldable pub link_lost : Run → Run
link_lost r = r ▷ drop_lease reason_link_down ▷ to_init_idle

unfoldable pub address_lost : Instant → ℕ → Run → Run
address_lost now rnd r = r ▷ drop_lease reason_address_lost ▷ begin_acquisition now rnd false

unfoldable pub timer_bound : Instant → ℕ → TimerId → Run → Run
unfolding lease_expired
timer_bound now rnd timer_expire r = lease_expired now rnd r
timer_bound now rnd timer_renew r = enter_renewing now rnd r
timer_bound now rnd timer_rebind r = enter_rebinding now rnd true r
timer_bound now rnd timer_acd r = acd_timer now rnd r
timer_bound now rnd _ r = journal r

-- `stepBound`.
unfoldable pub step_bound : Instant → ℕ → Event → Run → Run
unfolding timer_bound link_lost address_lost
step_bound now rnd ev_stop r = stop r
step_bound now rnd (ev_timer_fired t) r = timer_bound now rnd t r
step_bound now rnd ev_link_down r = link_lost r
step_bound now rnd ev_address_lost r = address_lost now rnd r
step_bound now rnd ev_conflict_detected r = decline_and_restart now rnd r
step_bound now rnd (ev_arp_received p) r = on_arp now rnd p r
step_bound now rnd ev_release r = release rnd r
step_bound now rnd (ev_received msg raw dst) r = r ▷ note_v6_only_kept msg ▷ journal
step_bound now rnd (ev_action_failed id) r = note_action_failed now rnd id r
step_bound now rnd (ev_set_hostname name) r = take_hostname now rnd name r
step_bound now rnd _ r = journal r

unfoldable pub timer_renewal : Instant → ℕ → TimerId → Run → Run
unfolding lease_expired
timer_renewal now rnd timer_retransmit r = send_renewal now r
timer_renewal now rnd timer_rebind r =
    if is_renewing r.machine.state then enter_rebinding now rnd false r else journal r
timer_renewal now rnd timer_expire r = lease_expired now rnd r
timer_renewal now rnd timer_acd r = acd_timer now rnd r
timer_renewal now rnd _ r = journal r

-- `stepRenewal`.
unfoldable pub step_renewal : Instant → ℕ → Event → Run → Run
unfolding timer_renewal if_acceptable link_lost address_lost
step_renewal now rnd ev_stop r = stop r
step_renewal now rnd ev_release r = release rnd r
step_renewal now rnd ev_conflict_detected r = decline_and_restart now rnd r
step_renewal now rnd (ev_arp_received p) r = on_arp now rnd p r
step_renewal now rnd (ev_received msg raw dst) r = if_acceptable (received_renewal now rnd) msg r
step_renewal now rnd (ev_timer_fired t) r = timer_renewal now rnd t r
step_renewal now rnd ev_link_down r = link_lost r
step_renewal now rnd ev_address_lost r = address_lost now rnd r
step_renewal now rnd (ev_action_failed id) r = note_action_failed now rnd id r
step_renewal now rnd (ev_set_hostname name) r = take_hostname now rnd name r
step_renewal now rnd _ r = journal r

unfoldable pub timer_probing : Instant → ℕ → TimerId → Run → Run
timer_probing now rnd timer_acd r = acd_timer now rnd r
timer_probing now rnd _ r = journal r

-- `stepProbing`.
unfoldable pub step_probing : Instant → ℕ → Event → Run → Run
unfolding timer_probing
step_probing now rnd ev_stop r = stop r
step_probing now rnd ev_release r = release rnd r
step_probing now rnd (ev_timer_fired t) r = timer_probing now rnd t r
step_probing now rnd (ev_arp_received p) r = on_arp now rnd p r
step_probing now rnd ev_conflict_detected r = decline_and_restart now rnd r
step_probing now rnd ev_link_down r = r ▷ journal ▷ to_init_idle
step_probing now rnd (ev_action_failed id) r = note_action_failed now rnd id r
step_probing now rnd (ev_set_hostname name) r = take_hostname now rnd name r
step_probing now rnd _ r = journal r

-- The switch of `Step` over the state.
unfoldable pub dispatch : State → Instant → ℕ → Event → Run → Run
dispatch state_stopped now rnd ev r = step_stopped now rnd ev r
dispatch state_init now rnd ev r = step_init now rnd ev r
dispatch state_selecting now rnd ev r = step_selecting now rnd ev r
dispatch state_requesting now rnd ev r = step_requesting now rnd ev r
dispatch state_bound now rnd ev r = step_bound now rnd ev r
dispatch state_renewing now rnd ev r = step_renewal now rnd ev r
dispatch state_rebinding now rnd ev r = step_renewal now rnd ev r
dispatch state_rebooting now rnd ev r = step_rebooting now rnd ev r
dispatch state_probing now rnd ev r = step_probing now rnd ev r

abbrev pub is_forcerenew : Message → Bool
is_forcerenew msg = elim (msg_type msg) [ none ↦ false | some t ↦ t == msg_force_renew ]

-- `Step` before the switch: a FORCERENEW has a handler of its own.
unfoldable pub handle : Instant → ℕ → Event → Run → Run
unfolding dispatch
handle now rnd (ev_received (some msg) raw dst) r =
    if is_forcerenew msg
    then take_forcerenew now rnd msg raw dst r
    else dispatch r.machine.state now rnd (ev_received (some msg) raw dst) r
handle now rnd ev r = dispatch r.machine.state now rnd ev r

-- The machine at the start of a step: no action has been appended.
abbrev pub unstepped : Machine → Run
unstepped m = record { machine = m; out = [] }

-- `Step`: the machine and its actions, the newest first. The state that it returns is that of the machine.
unfoldable pub step : Machine → Instant → ℕ → Event → Run
unfolding handle
step m now rnd ev = handle now rnd ev (unstepped m)

-- ===== src/Proto/Machine/Acquire.antt =====
-- proto/machine.go: starting an acquisition and starting over, and what a failed message leads to.
use dhcp_golib.Base.{
  ℕ, ◌+◌, ◌-◌, ◌%◌, ◌^◌, ◌==◌, Bool, true, false, ◌&&◌, not, Option, none, some, if◌then◌else◌,
}
use dhcp_golib.Base.Int.{pos, ltb_ℤ, leb_ℤ}
use dhcp_golib.Proto.Time.{Duration, Instant, seconds}
use dhcp_golib.Proto.Backoff.{delay}
use dhcp_golib.Proto.Acd
use dhcp_golib.Proto.Params.{split, live, param_restart_delay, desync}
use dhcp_golib.Proto.Event.{
  State, state_init, state_selecting, state_requesting, state_renewing, state_rebinding,
  state_rebooting, timer_retransmit, timer_desync, timer_restart, reason_conflict, reason_transport,
  reason_ipv6_only_preferred,
}
use dhcp_golib.Proto.Machine.{Machine, Run, ◌▷◌, assigning, set, journal, failed, cancel_all, bump}
use dhcp_golib.Wire.Message.{invalid}
use dhcp_golib.Proto.Machine.Idle.{to_init_idle, drop_lease}
use dhcp_golib.Proto.Machine.Sending.{send_discover, send_reboot, renewal_delay, send_decline}

-- `takeResume`: whether an address is to be asked for again.
unfoldable pub take_resume : Instant → Run → Run × Bool
take_resume now r = elim r.machine.resume [
  | none ↦ (r, false)
  | some s ↦
      let forgotten = assigning (λ m. record m { resume = none }) r in
      if not (live s now)
      then (journal forgotten, false)
      else (journal (assigning (λ m. record m { reboot_addr = s.addr }) forgotten), true)
]

-- `beginAcquisition` behind `takeResume`.
unfoldable pub discover_or_wait : Instant → ℕ → Bool → Run → Run
unfolding send_discover
discover_or_wait now rnd with_desync r =
    let d = if with_desync then desync r.machine.params (split rnd 2) else pos 0 in
    if leb_ℤ d (pos 0)
    then send_discover now (split rnd 3) r
    else (r ▷ set timer_desync d ▷ journal)

-- `beginAcquisition` up to `takeResume`.
unfoldable pub reset_for_acquisition : Instant → ℕ → Run → Run
unfolding cancel_all
reset_for_acquisition now rnd r =
    r
    ▷ assigning (λ m. record m {
      started_at = now;
      started = true;
      retransmits = 0;
      send_failures = 0;
      offer = none;
      reboot_addr = invalid;
      xid = split rnd 0 % 2 ^ 32;
      state = state_init;
    })
    ▷ cancel_all

-- `beginAcquisition`.
unfoldable pub begin_acquisition : Instant → ℕ → Bool → Run → Run
unfolding reset_for_acquisition take_resume send_reboot discover_or_wait
begin_acquisition now rnd with_desync r =
    let (resumed, rebooting) = take_resume now (reset_for_acquisition now rnd r) in
    if rebooting
    then send_reboot now (split rnd 3) resumed
    else discover_or_wait now rnd with_desync resumed

-- `restartPaced`, past the first restart.
unfoldable pub wait_to_restart : ℕ → ℕ → Run → Run
unfolding to_init_idle
wait_to_restart n rnd r =
    r
    ▷ to_init_idle
    ▷ set timer_restart (delay r.machine.params.discover (n - 1) (split rnd 4))
    ▷ journal

-- `restartPaced`.
unfoldable pub restart_paced : Instant → ℕ → Bool → Run → Run
unfolding begin_acquisition wait_to_restart
restart_paced now rnd with_desync r =
    let n = r.machine.restarts in
    let counted = assigning (λ m. record m { restarts = n + 1 }) r in
    if n == 0 then begin_acquisition now rnd with_desync counted else wait_to_restart n rnd counted

-- The wait of `declineAndRestart`: with conflict detection off there is no rate limit. The second part
-- says whether the rate limit holds.
unfoldable pub decline_wait : Machine → Instant → Duration × Bool
decline_wait m now =
    let d = param_restart_delay m.params in
    elim m.acd [
      | none ↦ (d, false)
      | some a ↦
          if Acd.rate_limited a then (Acd.restart_delay (Acd.stop a) now d, true) else (d, false)
    ]

-- `declineAndRestart`.
unfoldable pub decline_and_restart : Instant → ℕ → Run → Run
unfolding send_decline drop_lease to_init_idle decline_wait
decline_and_restart now rnd r =
    let (d, limited) = decline_wait r.machine now in
    r
    ▷ send_decline rnd
    ▷ drop_lease reason_conflict
    ▷ to_init_idle
    ▷ (λ u. if limited then journal u else u)
    ▷ set timer_restart d
    ▷ journal

abbrev pub min_v6_only_wait : Duration
min_v6_only_wait = seconds 300

-- `v6OnlyWait`.
unfoldable pub v6_only_wait : ℕ → Duration
v6_only_wait secs = if ltb_ℤ (seconds secs) min_v6_only_wait then min_v6_only_wait else seconds secs

-- `waitForIPv6`.
unfoldable pub wait_for_ipv6 : ℕ → Run → Run
unfolding to_init_idle v6_only_wait
wait_for_ipv6 secs r =
    r
    ▷ assigning (λ m. record m {
      counters = record m.counters { v6_only_waited = bump m.counters.v6_only_waited };
    })
    ▷ to_init_idle
    ▷ failed reason_ipv6_only_preferred
    ▷ set timer_restart (v6_only_wait secs)
    ▷ journal

-- The end of `noteActionFailed`: the retransmission is armed anew.
unfoldable pub rearm : ℕ → Run → Run
rearm rnd r =
    let m = r.machine in
    elim m.state [
      | state_selecting ↦ set timer_retransmit (delay m.params.discover m.retransmits rnd) r
      | state_requesting ↦ set timer_retransmit (delay m.params.request m.retransmits rnd) r
      | state_rebooting ↦ set timer_retransmit (delay m.params.request m.retransmits rnd) r
      | _ ↦ r
    ]

abbrev pub is_init : State → Bool
is_init state_init = true
is_init _ = false

-- `noteActionFailed`, too often in a row.
unfoldable pub give_up_sending : Run → Run
unfolding drop_lease to_init_idle
give_up_sending r =
    let dropped = r ▷ failed reason_transport ▷ drop_lease reason_transport in
    if is_init dropped.machine.state then dropped else to_init_idle dropped

unfoldable pub send_failed : ℕ → Run → Run
unfolding give_up_sending rearm
send_failed rnd r =
    let m = r.machine in
    if ltb_ℤ (pos 0) m.params.max_send_failures
      && leb_ℤ m.params.max_send_failures (pos m.send_failures)
    then give_up_sending r
    else rearm rnd r

abbrev pub is_arp_action : Option ℕ → ℕ → Bool
is_arp_action none id = false
is_arp_action (some i) id = id == i

-- `noteActionFailed`, of a message.
unfoldable pub note_send_failed : Instant → ℕ → Run → Run
unfolding send_failed
note_send_failed now rnd r =
    let counted = r ▷ assigning (λ m. record m { send_failures = m.send_failures + 1 }) ▷ journal in
    let retry = set timer_retransmit (renewal_delay r.machine now) counted in
    elim r.machine.state [
      | state_renewing ↦ retry
      | state_rebinding ↦ retry
      | _ ↦ send_failed rnd counted
    ]

-- `noteActionFailed`.
unfoldable pub note_action_failed : Instant → ℕ → ℕ → Run → Run
unfolding note_send_failed
note_action_failed now rnd id r =
    if is_arp_action r.machine.arp_action id
    then (r ▷ assigning (λ m. record m { arp_action = none }) ▷ journal)
    else note_send_failed now rnd r

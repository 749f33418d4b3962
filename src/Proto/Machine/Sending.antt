-- ===== src/Proto/Machine/Sending.antt =====
-- proto/machine.go: the messages of each state with the timers that they arm, and the release.
use dhcp_golib.Base.{ℕ, ◌%◌, ◌^◌, Bool, true, false, none, some, if◌then◌else◌}
use dhcp_golib.Base.Int.{ltb_ℤ, quot}
use dhcp_golib.Proto.Time.{Duration, Instant, sub, seconds}
use dhcp_golib.Proto.Backoff.{delay}
use dhcp_golib.Proto.Lease.{deadlines}
use dhcp_golib.Proto.Params.{split}
use dhcp_golib.Proto.Event.{
  State, state_selecting, state_requesting, state_renewing, state_rebooting, timer_retransmit,
  timer_desync, reason_released, Dest,
}
use dhcp_golib.Proto.Machine.{Machine, Run, ◌▷◌, assigning, send, set, cancel, journal, held_lease}
use dhcp_golib.Proto.Machine.Messages.{
  base_name, discover_of, request_of, reboot_of, renewal_of, decline_of, release_of,
  terminal_fields,
}
use dhcp_golib.Wire.Message.{Message, msg_request, msg_discover}
use dhcp_golib.Proto.Machine.Idle.{broadcasting, to_init_idle, halt}

-- `sendDiscover`.
unfoldable pub send_discover : Instant → ℕ → Run → Run
send_discover now rnd r =
    let m = r.machine in
    let sent_at = if m.params.rapid_commit then now else m.request_sent_at in
    r
    ▷ assigning (λ u. record u {
      name_on_wire = base_name m now msg_discover;
      request_sent_at = sent_at;
      state = state_selecting;
    })
    ▷ cancel timer_desync
    ▷ send (discover_of m now) broadcasting
    ▷ set timer_retransmit (delay m.params.discover m.retransmits rnd)

send_request_for : Instant → ℕ → Message → Run → Run
send_request_for now rnd offer r =
    let m = r.machine in
    r
    ▷ assigning (λ u. record u {
      name_on_wire = base_name m now msg_request;
      request_sent_at = now;
      state = state_requesting;
    })
    ▷ send (request_of m now offer) broadcasting
    ▷ set timer_retransmit (delay m.params.request m.retransmits rnd)

-- `sendRequest`.
unfoldable pub send_request : Instant → ℕ → Run → Run
unfolding to_init_idle send_request_for
send_request now rnd r = elim r.machine.offer [
  | none ↦ r ▷ journal ▷ to_init_idle
  | some offer ↦ send_request_for now rnd offer r
]

-- `sendReboot`.
unfoldable pub send_reboot : Instant → ℕ → Run → Run
send_reboot now rnd r =
    let m = r.machine in
    r
    ▷ assigning (λ u. record u {
      name_on_wire = base_name m now msg_request;
      request_sent_at = now;
      state = state_rebooting;
    })
    ▷ send (reboot_of m now) broadcasting
    ▷ set timer_retransmit (delay m.params.request m.retransmits rnd)

abbrev pub renew_retransmit_floor : Duration
renew_retransmit_floor = seconds 60

-- Half of the time that is left, but not less than the floor.
unfoldable pub half_left : Instant → Instant → Duration
half_left until now =
    let half = quot (sub until now) 2 in
    if ltb_ℤ half renew_retransmit_floor then renew_retransmit_floor else half

abbrev pub is_renewing : State → Bool
is_renewing state_renewing = true
is_renewing _ = false

-- `renewalDelay`.
unfoldable pub renewal_delay : Machine → Instant → Duration
unfolding half_left
renewal_delay m now =
    let d = deadlines (held_lease m) in
    let by_expiry : Duration = elim d.expire [
      | none ↦ renew_retransmit_floor
      | some t ↦ half_left t now
    ] in
    let by_rebind : Duration = elim d.rebind [ none ↦ by_expiry | some t ↦ half_left t now ] in
    if is_renewing m.state then by_rebind else by_expiry

-- `sendRenewal`.
unfoldable pub send_renewal : Instant → Run → Run
send_renewal now r =
    let m = r.machine in
    let own = (held_lease m).addr.addr in
    let server : Dest = record { broadcast = false; addr = (held_lease m).server_id; src = own } in
    r
    ▷ assigning
        (λ u. record u { name_on_wire = base_name m now msg_request; request_sent_at = now })
    ▷ send (renewal_of m now) (if is_renewing m.state then server else broadcasting)
    ▷ set timer_retransmit (renewal_delay m now)

-- `sendDecline`.
unfoldable pub send_decline : ℕ → Run → Run
send_decline rnd r = elim (terminal_fields r.machine) [
  | none ↦ journal r
  | some t ↦ send (decline_of r.machine.params (split rnd 4 % 2 ^ 32) t.0 t.1) broadcasting r
]

-- `sendRelease`.
unfoldable pub send_release : ℕ → Run → Run
send_release rnd r = elim (terminal_fields r.machine) [
  | none ↦ journal r
  | some t ↦
      send (release_of r.machine.params (split rnd 5 % 2 ^ 32) t.0 t.1)
        (record { broadcast = false; addr = t.1; src = t.0 }) r
]

-- `release`.
unfoldable pub release : ℕ → Run → Run
unfolding send_release halt
release rnd r = r ▷ send_release rnd ▷ halt reason_released

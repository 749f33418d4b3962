-- ===== src/Proto/Machine/Answers.antt =====
-- proto/machine.go, proto/rapidcommit.go and proto/ipv6only.go: what the machine does with an OFFER, an
-- ACK or a NAK, state by state.
use dhcp_golib.Base.{
  ℕ, ◌==◌, Bool, true, false, ◌&&◌, ◌||◌, not, Option, none, some, if◌then◌else◌, ok, err, stuck,
}
use dhcp_golib.Base.Int.{pos, leb_ℤ}
use dhcp_golib.Proto.Time.{Instant, is_infinite}
use dhcp_golib.Proto.Lease.{Lease, lease_from_ack, or_else}
use dhcp_golib.Proto.Lease.Notes.{ack_noted}
use dhcp_golib.Proto.Acd.{addr_eq}
use dhcp_golib.Proto.Params.{split, usable_4}
use dhcp_golib.Proto.Event.{timer_retransmit, reason_nak}
use dhcp_golib.Proto.Machine.{Machine, Run, ◌▷◌, assigning, cancel, journal, failed, bump}
use dhcp_golib.Proto.Machine.Messages.{has_rapid_option, type_of}
use dhcp_golib.Proto.Machine.Idle.{drop_lease}
use dhcp_golib.Proto.Machine.Sending.{send_request}
use dhcp_golib.Proto.Machine.Acquire.{restart_paced, wait_for_ipv6}
use dhcp_golib.Proto.Machine.Holding.{after_ack, enter_bound}
use dhcp_golib.Proto.Machine.Forcerenew.{refuses_ack_without_nonce}
use dhcp_golib.Wire.Option.{opt_server_id}
use dhcp_golib.Wire.Message.{
  invalid, is_unspecified, Message, clone_message, msg_offer, msg_ack, msg_nak,
}
use dhcp_golib.Wire.Values.{addr4, rapid_commit, ipv6_only_preferred}

-- `v6OnlyValue`, of a message that is not nil: what it counts and notes, and the value.
unfoldable pub v6_only_value : Message → Run → Run × Option ℕ
v6_only_value msg r =
    let malformed =
      r
      ▷ assigning (λ m. record m {
        counters = record m.counters { v6_only_malformed = bump m.counters.v6_only_malformed };
      })
      ▷ journal in
    let read : Run × Option ℕ = elim (ipv6_only_preferred msg.options) [
      | ok secs ↦ (r, secs)
      | err e ↦ (malformed, none)
      | stuck ↦ (r, none)
    ] in
    if r.machine.params.ipv6_only_preferred then read else (r, none)

-- `noteV6OnlyKept`.
unfoldable pub note_v6_only_kept : Option Message → Run → Run
unfolding v6_only_value
note_v6_only_kept none r = r
note_v6_only_kept (some msg) r =
    let (u, value) = v6_only_value msg r in
    let noted : Run = elim value [
      | none ↦ u
      | some secs ↦
          u
          ▷ assigning (λ m. record m {
            counters = record m.counters { v6_only_ignored = bump m.counters.v6_only_ignored };
          })
          ▷ journal
    ] in
    if type_of msg == msg_ack then noted else r

-- `refuseRapid`.
unfoldable pub refuse_rapid : Run → Run
refuse_rapid r =
    r
    ▷ assigning (λ m. record m {
      counters = record m.counters { rapid_refused = bump m.counters.rapid_refused };
    })
    ▷ journal

-- `sid, ok := msg.Addr4(OptServerID); !ok || sid.IsUnspecified()`
abbrev no_server_named : Message → Bool
no_server_named msg = elim (addr4 opt_server_id msg.options) [
  | none ↦ true
  | some sid ↦ is_unspecified sid
]

abbrev rapid_malformed : Message → Bool
rapid_malformed msg = elim (rapid_commit msg.options) [ ok present ↦ false | _ ↦ true ]

unfoldable pub note_if : Bool → Run → Run
note_if noted r = if noted then journal r else r

-- `takeRapidAck`, with the lease that it takes.
unfoldable pub accept_rapid : Instant → ℕ → Message → Lease → Run → Run
unfolding note_if
accept_rapid now rnd msg l r =
    r
    ▷ assigning (λ m. record m {
      counters = record m.counters { rapid_accepted = bump m.counters.rapid_accepted };
    })
    ▷ journal
    ▷ note_if (ack_noted msg)
    ▷ note_v6_only_kept (some msg)
    ▷ after_ack now rnd l

-- `takeRapidAck`.
unfoldable pub take_rapid_ack : Instant → ℕ → Message → Run → Run
unfolding accept_rapid refuse_rapid
take_rapid_ack now rnd msg r =
    let leased : Run = elim (lease_from_ack msg r.machine.request_sent_at) [
      | none ↦ refuse_rapid r
      | some l ↦
          if leb_ℤ l.lease_time (pos 0) && not (is_infinite l.lease_time)
          then refuse_rapid r
          else accept_rapid now rnd msg l r
    ] in
    if rapid_malformed msg
    then refuse_rapid r
    else if not r.machine.params.rapid_commit
    then refuse_rapid r
    else if no_server_named msg
    then refuse_rapid r
    else leased

-- The test of `refusesRapidInRequesting`.
unfoldable pub refuses_rapid : Machine → Message → Bool
unfolding or_else
refuses_rapid m msg =
    let answers : Bool = elim m.offer [
      | none ↦ true
      | some offer ↦
          not (rapid_malformed msg)
          && addr_eq (or_else (addr4 opt_server_id msg.options) invalid)
              (or_else (addr4 opt_server_id offer.options) invalid)
          && addr_eq msg.yiaddr offer.yiaddr
    ] in
    m.params.rapid_commit && has_rapid_option (some msg) && not answers

-- `leaseFromAck` in a handler: a note where there is no lease, else what is done with the lease.
unfoldable pub with_lease : Message → (Lease → Run → Run) → Run → Run
unfolding note_if
with_lease msg act r = elim (lease_from_ack msg r.machine.request_sent_at) [
  | none ↦ journal r
  | some l ↦ r ▷ note_if (ack_noted msg) ▷ act l
]

-- An OFFER in SELECTING.
unfoldable pub take_offer : Instant → ℕ → Message → Run → Run
unfolding v6_only_value wait_for_ipv6 send_request clone_message
take_offer now rnd msg r =
    let (u, value) = v6_only_value msg r in
    let chosen =
      u
      ▷ assigning (λ m. record m { offer = some (clone_message msg); retransmits = 0 })
      ▷ send_request now rnd in
    elim value [
      | some secs ↦ wait_for_ipv6 secs u
      | none ↦ if not (usable_4 msg.yiaddr) || no_server_named msg then journal u else chosen
    ]

unfoldable pub received_selecting : Instant → ℕ → Message → Run → Run
unfolding take_offer take_rapid_ack
received_selecting now rnd msg r =
    let t = type_of msg in
    if t == msg_offer
    then take_offer now rnd msg r
    else if t == msg_ack && has_rapid_option (some msg)
    then take_rapid_ack now rnd msg r
    else journal r

-- A NAK in REQUESTING or REBOOTING.
unfoldable pub take_nak : Instant → ℕ → Run → Run
unfolding restart_paced
take_nak now rnd r =
    r ▷ cancel timer_retransmit ▷ failed reason_nak ▷ restart_paced now (split rnd 1) false

-- An ACK in REQUESTING.
unfoldable pub take_ack : Instant → ℕ → Message → Run → Run
unfolding refuse_rapid restart_paced with_lease
take_ack now rnd msg r =
    let without_nonce =
      r
      ▷ assigning (λ m. record m {
        counters = record m.counters { ack_refused = bump m.counters.ack_refused };
      })
      ▷ journal
      ▷ restart_paced now (split rnd 1) true in
    if refuses_rapid r.machine msg
    then refuse_rapid r
    else if refuses_ack_without_nonce r.machine msg
    then without_nonce
    else (r ▷ note_v6_only_kept (some msg) ▷ with_lease msg (after_ack now rnd))

unfoldable pub received_requesting : Instant → ℕ → Message → Run → Run
unfolding take_ack take_nak
received_requesting now rnd msg r =
    let t = type_of msg in
    if t == msg_ack
    then take_ack now rnd msg r
    else if t == msg_nak
    then take_nak now rnd r
    else journal r

-- An ACK in REBOOTING.
unfoldable pub take_reboot_ack : Instant → ℕ → Message → Run → Run
unfolding v6_only_value wait_for_ipv6 with_lease
take_reboot_ack now rnd msg r =
    let (u, value) = v6_only_value msg r in
    elim value [ some secs ↦ wait_for_ipv6 secs u | none ↦ with_lease msg (after_ack now rnd) u ]

unfoldable pub received_rebooting : Instant → ℕ → Message → Run → Run
unfolding take_reboot_ack take_nak
received_rebooting now rnd msg r =
    let t = type_of msg in
    if t == msg_ack
    then take_reboot_ack now rnd msg r
    else if t == msg_nak
    then take_nak now rnd r
    else journal r

-- A NAK in RENEWING or REBINDING.
unfoldable pub take_renewal_nak : Instant → ℕ → Run → Run
unfolding drop_lease restart_paced
take_renewal_nak now rnd r =
    r ▷ drop_lease reason_nak ▷ failed reason_nak ▷ restart_paced now (split rnd 1) false

unfoldable pub received_renewal : Instant → ℕ → Message → Run → Run
unfolding with_lease enter_bound take_renewal_nak
received_renewal now rnd msg r =
    let t = type_of msg in
    if t == msg_ack
    then (r ▷ note_v6_only_kept (some msg) ▷ with_lease msg (λ l. enter_bound now rnd l true))
    else if t == msg_nak
    then take_renewal_nak now rnd r
    else journal r

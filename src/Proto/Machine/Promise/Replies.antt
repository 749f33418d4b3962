-- ===== src/Proto/Machine/Promise/Replies.antt =====
-- What OFFER, ACK and NAK leave of the promise (proto/machine.go, proto/rapidcommit.go and
-- proto/ipv6only.go).
use dhcp_golib.Base.{ℕ, Bool, true, false, Option, none, some, arith, Option-cases, inl, inr}
use dhcp_golib.Proto.Time.{Instant}
use dhcp_golib.Proto.Params.{split}
use dhcp_golib.Proto.Lease.{Lease, lease_from_ack}
use dhcp_golib.Proto.Lease.Notes.{ack_noted}
use dhcp_golib.Proto.Event.{timer_retransmit, reason_nak}
use dhcp_golib.Proto.Machine.{Run, stamp, journal, cancel, failed, assigning, bump}
use dhcp_golib.Proto.Machine.Sending.{send_request}
use dhcp_golib.Proto.Machine.Holding.{after_ack, enter_bound}
use dhcp_golib.Proto.Machine.Answers.{
  v6_only_value, note_v6_only_kept, refuse_rapid, accept_rapid, take_rapid_ack, with_lease,
  take_offer, received_selecting, take_nak, take_ack, received_requesting, take_reboot_ack,
  received_rebooting, take_renewal_nak, received_renewal, note_if,
}
use dhcp_golib.Proto.Machine.Promise.{Client, IsTracked, IsClear, IsHolding, IsSettled}
use dhcp_golib.Proto.Machine.Promise.Parts.{
  journal-IsSettled, send_request-IsSettled, drop_lease-IsClear, failed-IsClear,
}
use dhcp_golib.Proto.Machine.Promise.Restarts.{restart_paced-IsSettled, wait_for_ipv6-IsSettled}
use dhcp_golib.Proto.Machine.Promise.Leases.{after_ack-IsSettled, enter_bound-IsSettled_renewal}
use dhcp_golib.Wire.Message.{Message, clone_message}

-- Settled with no lease held and none checked, and settled with a lease held: what a note or a counter
-- leaves as it is.
pub record IsIdle (c : Client) (r : Run) : Type 0 where
  pub clear : IsClear c r
  pub settled : IsSettled c r

pub record IsLeased (c : Client) (r : Run) : Type 0 where
  pub holding : IsHolding c r
  pub settled : IsSettled c r

module _ (c : Client) where
  journal-IsIdle : (r : Run) → IsIdle c r → IsIdle c (journal r)
  unfolding stamp
  journal-IsIdle r s = ground arith

  journal-IsLeased : (r : Run) → IsLeased c r → IsLeased c (journal r)
  unfolding stamp
  journal-IsLeased r s = ground arith

  v6_only_value-IsIdle : (msg : Message) (r : Run) → IsIdle c r → IsIdle c (v6_only_value msg r).0
  unfolding v6_only_value stamp
  v6_only_value-IsIdle msg r s = ground arith

  v6_only_value-IsLeased :
      (msg : Message) (r : Run) → IsLeased c r → IsLeased c (v6_only_value msg r).0
  unfolding v6_only_value stamp
  v6_only_value-IsLeased msg r s = ground arith

  note_v6_only_kept-IsIdle :
      (msg : Option Message) (r : Run) → IsIdle c r → IsIdle c (note_v6_only_kept msg r)
  unfolding note_v6_only_kept stamp
  note_v6_only_kept-IsIdle none r s = s
  note_v6_only_kept-IsIdle (some msg) r s = ground (arith, v6_only_value-IsIdle msg r s)

  note_v6_only_kept-IsLeased :
      (msg : Option Message) (r : Run) → IsLeased c r → IsLeased c (note_v6_only_kept msg r)
  unfolding note_v6_only_kept stamp
  note_v6_only_kept-IsLeased none r s = s
  note_v6_only_kept-IsLeased (some msg) r s = ground (arith, v6_only_value-IsLeased msg r s)

  note_if-IsIdle : (noted : Bool) (r : Run) → IsIdle c r → IsIdle c (note_if noted r)
  unfolding note_if
  note_if-IsIdle true r s = journal-IsIdle r s
  note_if-IsIdle false r s = s

  note_if-IsLeased : (noted : Bool) (r : Run) → IsLeased c r → IsLeased c (note_if noted r)
  unfolding note_if
  note_if-IsLeased true r s = journal-IsLeased r s
  note_if-IsLeased false r s = s

  pub refuse_rapid-IsSettled : (r : Run) → IsSettled c r → IsSettled c (refuse_rapid r)
  unfolding refuse_rapid stamp
  refuse_rapid-IsSettled r s = ground arith

  -- A lease that is read from an ACK is taken, or a note is left.
  with_lease_idle :
      (msg : Message) (now : Instant) (rnd : ℕ) (r : Run)
      → IsIdle c r
      → IsSettled c (with_lease msg (after_ack now rnd) r)
  unfolding with_lease
  with_lease_idle msg now rnd r s =
      elim (Option-cases (lease_from_ack msg r.machine.request_sent_at)) [
        | inl e ↦ ground (arith, e, journal-IsSettled c r s.settled)
        | inr (l, e) ↦
            let noted = note_if-IsIdle (ack_noted msg) r s in
            ground (arith, e, after_ack-IsSettled c now rnd l _ noted.clear noted.settled)
      ]

  with_lease_leased :
      (msg : Message) (now : Instant) (rnd : ℕ) (r : Run)
      → IsLeased c r
      → IsSettled c (with_lease msg (λ l. enter_bound now rnd l true) r)
  unfolding with_lease
  with_lease_leased msg now rnd r s =
      elim (Option-cases (lease_from_ack msg r.machine.request_sent_at)) [
        | inl e ↦ ground (arith, e, journal-IsSettled c r s.settled)
        | inr (l, e) ↦
            let noted = note_if-IsLeased (ack_noted msg) r s in
            ground (arith, e, enter_bound-IsSettled_renewal c now rnd l _ noted.holding)
      ]

  accept_rapid-IsSettled :
      (now : Instant) (rnd : ℕ) (msg : Message) (l : Lease) (r : Run)
      → IsIdle c r
      → IsSettled c (accept_rapid now rnd msg l r)
  unfolding accept_rapid
  accept_rapid-IsSettled now rnd msg l r s =
      let counted =
        assigning
          (λ m. record m {
            counters = record m.counters { rapid_accepted = bump m.counters.rapid_accepted };
          })
          r in
      let idle : IsIdle c counted = ground arith in
      let noted = note_if-IsIdle (ack_noted msg) _ (journal-IsIdle counted idle) in
      let kept = note_v6_only_kept-IsIdle (some msg) _ noted in
      after_ack-IsSettled c now rnd l _ kept.clear kept.settled

  take_rapid_ack-IsSettled :
      (now : Instant) (rnd : ℕ) (msg : Message) (r : Run)
      → IsIdle c r
      → IsSettled c (take_rapid_ack now rnd msg r)
  unfolding take_rapid_ack
  take_rapid_ack-IsSettled now rnd msg r s =
      let refused = refuse_rapid-IsSettled r s.settled in
      elim (Option-cases (lease_from_ack msg r.machine.request_sent_at)) [
        | inl e ↦ ground (arith, e, refused)
        | inr (l, e) ↦ ground (arith, e, refused, accept_rapid-IsSettled now rnd msg l r s)
      ]

  choose_offer :
      (now : Instant) (rnd : ℕ) (msg : Message) (r : Run)
      → IsIdle c r
      → IsSettled c (
          send_request now rnd
            (assigning (λ m. record m { offer = some (clone_message msg); retransmits = 0 }) r))
  choose_offer now rnd msg r s = send_request-IsSettled c _ now rnd (ground arith)

  take_offer-IsSettled :
      (now : Instant) (rnd : ℕ) (msg : Message) (r : Run)
      → IsIdle c r
      → IsSettled c (take_offer now rnd msg r)
  unfolding take_offer
  take_offer-IsSettled now rnd msg r s =
      let idle = v6_only_value-IsIdle msg r s in
      let read = v6_only_value msg r in
      elim (Option-cases read.1) [
        | inl e ↦ ground (
          arith,
          e,
          journal-IsSettled c read.0 idle.settled,
          choose_offer now rnd msg read.0 idle,
        )
        | inr (secs, e) ↦ ground (arith, e, wait_for_ipv6-IsSettled c secs read.0 idle.clear.free)
      ]

  pub received_selecting-IsSettled :
      (now : Instant) (rnd : ℕ) (msg : Message) (r : Run)
      → IsIdle c r
      → IsSettled c (received_selecting now rnd msg r)
  unfolding received_selecting
  received_selecting-IsSettled now rnd msg r s = ground (
    arith,
    take_offer-IsSettled now rnd msg r s,
    take_rapid_ack-IsSettled now rnd msg r s,
    journal-IsSettled c r s.settled,
  )

  take_nak-IsSettled :
      (now : Instant) (rnd : ℕ) (r : Run) → IsIdle c r → IsSettled c (take_nak now rnd r)
  unfolding take_nak
  take_nak-IsSettled now rnd r s =
      let told : IsClear c (failed reason_nak (cancel timer_retransmit r)) =
        unfold stamp in ground arith in
      restart_paced-IsSettled c now (split rnd 1) false _ told

  take_ack-IsSettled :
      (now : Instant) (rnd : ℕ) (msg : Message) (r : Run)
      → IsIdle c r
      → IsSettled c (take_ack now rnd msg r)
  unfolding take_ack
  take_ack-IsSettled now rnd msg r s =
      let counted = journal (
        assigning
          (λ m. record m {
            counters = record m.counters { ack_refused = bump m.counters.ack_refused };
          })
          r) in
      let clear : IsClear c counted = unfold stamp in ground arith in
      let kept = note_v6_only_kept-IsIdle (some msg) r s in
      ground (
        arith,
        refuse_rapid-IsSettled r s.settled,
        restart_paced-IsSettled c now (split rnd 1) true counted clear,
        with_lease_idle msg now rnd (note_v6_only_kept (some msg) r) kept,
      )

  pub received_requesting-IsSettled :
      (now : Instant) (rnd : ℕ) (msg : Message) (r : Run)
      → IsIdle c r
      → IsSettled c (received_requesting now rnd msg r)
  unfolding received_requesting
  received_requesting-IsSettled now rnd msg r s = ground (
    arith,
    take_ack-IsSettled now rnd msg r s,
    take_nak-IsSettled now rnd r s,
    journal-IsSettled c r s.settled,
  )

  take_reboot_ack-IsSettled :
      (now : Instant) (rnd : ℕ) (msg : Message) (r : Run)
      → IsIdle c r
      → IsSettled c (take_reboot_ack now rnd msg r)
  unfolding take_reboot_ack
  take_reboot_ack-IsSettled now rnd msg r s =
      let idle = v6_only_value-IsIdle msg r s in
      let read = v6_only_value msg r in
      elim (Option-cases read.1) [
        | inl e ↦ ground (arith, e, with_lease_idle msg now rnd read.0 idle)
        | inr (secs, e) ↦ ground (arith, e, wait_for_ipv6-IsSettled c secs read.0 idle.clear.free)
      ]

  pub received_rebooting-IsSettled :
      (now : Instant) (rnd : ℕ) (msg : Message) (r : Run)
      → IsIdle c r
      → IsSettled c (received_rebooting now rnd msg r)
  unfolding received_rebooting
  received_rebooting-IsSettled now rnd msg r s = ground (
    arith,
    take_reboot_ack-IsSettled now rnd msg r s,
    take_nak-IsSettled now rnd r s,
    journal-IsSettled c r s.settled,
  )

  take_renewal_nak-IsSettled :
      (now : Instant) (rnd : ℕ) (r : Run) → IsLeased c r → IsSettled c (take_renewal_nak now rnd r)
  unfolding take_renewal_nak
  take_renewal_nak-IsSettled now rnd r s =
      let tracked : IsTracked c r = ground arith in
      let dropped = drop_lease-IsClear c r reason_nak tracked s.holding.unchecked in
      restart_paced-IsSettled c now (split rnd 1) false _ (failed-IsClear c _ reason_nak dropped)

  pub received_renewal-IsSettled :
      (now : Instant) (rnd : ℕ) (msg : Message) (r : Run)
      → IsLeased c r
      → IsSettled c (received_renewal now rnd msg r)
  unfolding received_renewal
  received_renewal-IsSettled now rnd msg r s =
      let kept = note_v6_only_kept-IsLeased (some msg) r s in
      ground (
        arith,
        with_lease_leased msg now rnd (note_v6_only_kept (some msg) r) kept,
        take_renewal_nak-IsSettled now rnd r s,
        journal-IsSettled c r s.settled,
      )

  pub note_v6_only_kept-IsSettled :
      (msg : Option Message) (r : Run) → IsSettled c r → IsSettled c (note_v6_only_kept msg r)
  unfolding note_v6_only_kept v6_only_value stamp
  note_v6_only_kept-IsSettled none r s = s
  note_v6_only_kept-IsSettled (some msg) r s = ground arith

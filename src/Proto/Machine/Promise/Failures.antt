-- ===== src/Proto/Machine/Promise/Failures.antt =====
-- A send that failed: noteActionFailed keeps the promise (proto/machine.go).
use dhcp_golib.Base.{ℕ, ◌+◌, ◌≡◌, true, arith, Bool-cases, inl, inr}
use dhcp_golib.Proto.Time.{Instant}
use dhcp_golib.Proto.Event.{reason_transport}
use dhcp_golib.Proto.Machine.{Run, stamp, journal, failed, assigning}
use dhcp_golib.Proto.Machine.Idle.{drop_lease}
use dhcp_golib.Proto.Machine.Acquire.{
  give_up_sending, send_failed, note_send_failed, note_action_failed, is_init,
}
use dhcp_golib.Proto.Machine.Promise.{Client, IsTracked, IsSettled}
use dhcp_golib.Proto.Machine.Promise.Parts.{drop_lease-IsFree, to_init_idle-IsSettled}
use dhcp_golib.Proto.Machine.Promise.Restarts.{rearm-IsSettled}

module _ (c : Client) where
  -- Where the machine is in INIT already, no lease was held and nothing is dropped.
  drop_in_init :
      (r : Run)
      → IsSettled c r
      → is_init (drop_lease reason_transport (failed reason_transport r)).machine.state ≡ true
      → IsSettled c (drop_lease reason_transport (failed reason_transport r))
  unfolding drop_lease stamp
  drop_in_init r s e = ground arith

  give_up_sending-IsSettled : (r : Run) → IsSettled c r → IsSettled c (give_up_sending r)
  unfolding give_up_sending stamp
  give_up_sending-IsSettled r s =
      let noted : IsTracked c (failed reason_transport r) = ground arith in
      let free = drop_lease-IsFree c (failed reason_transport r) reason_transport noted in
      let dropped = drop_lease reason_transport (failed reason_transport r) in
      elim (Bool-cases (is_init dropped.machine.state)) [
        | inl e ↦ rw e (drop_in_init r s e)
        | inr e ↦ rw e (to_init_idle-IsSettled c dropped free)
      ]

  send_failed-IsSettled : (rnd : ℕ) (r : Run) → IsSettled c r → IsSettled c (send_failed rnd r)
  unfolding send_failed
  send_failed-IsSettled rnd r s =
      ground (arith, give_up_sending-IsSettled r s, rearm-IsSettled c rnd r s)

  note_send_failed-IsSettled :
      (now : Instant) (rnd : ℕ) (r : Run) → IsSettled c r → IsSettled c (note_send_failed now rnd r)
  unfolding note_send_failed stamp
  note_send_failed-IsSettled now rnd r s =
      let counted = journal (assigning (λ m. record m { send_failures = m.send_failures + 1 }) r) in
      let settled : IsSettled c counted = ground arith in
      ground (arith, send_failed-IsSettled rnd counted settled)

  pub note_action_failed-IsSettled :
      (now : Instant) (rnd id : ℕ) (r : Run)
      → IsSettled c r
      → IsSettled c (note_action_failed now rnd id r)
  unfolding note_action_failed stamp
  note_action_failed-IsSettled now rnd id r s =
      ground (arith, note_send_failed-IsSettled now rnd r s)

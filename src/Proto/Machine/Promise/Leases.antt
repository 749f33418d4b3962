-- ===== src/Proto/Machine/Promise/Leases.antt =====
-- Taking, checking and renewing a lease: what it leaves of the promise (proto/machine.go,
-- proto/machine_acd.go and proto/machine_hostname.go).
use dhcp_golib.Base.{
  ℕ, ◌≡◌, Bool, true, false, ◌||◌, not, List, [], ◌∷◌, none, some, arith, refl, Option-cases, inl,
  inr, subst, ap, ◌∙◌,
}
use dhcp_golib.Proto.Time.{Instant}
use dhcp_golib.Proto.Lease.{Lease}
use dhcp_golib.Proto.Acd.{
  Acd, AcdAction, AcdEvent, acd_step, conflict_wait, conflict_async, conflict_off, ConflictMode,
}
use dhcp_golib.Proto.Event.{
  state_bound, state_probing, timer_retransmit, timer_expire, timer_acd, act_lease_acquired,
  act_lease_renewed, act_lease_changed,
}
use dhcp_golib.Proto.Machine.{Run, stamp, journal, set, cancel, ◌▷◌, assigning, held_lease}
use dhcp_golib.Wire.Message.{Addr}
use dhcp_golib.Proto.Machine.Sending.{send_renewal}
use dhcp_golib.Proto.Machine.Renewing.{
  enter_renewing, enter_rebinding, announce_hostname, take_hostname,
}
use dhcp_golib.Proto.Machine.Holding.{
  apply_timers, start_acd, take_lease, acquire_lease, note_change, renew_lease, enter_bound,
  enter_probing, after_ack, after_ack_in, put_acd,
}
use dhcp_golib.Proto.Machine.Promise.{
  Client, is_some, has_expiry, IsTracked, IsFree, IsClear, IsHolding, IsSettled, held_after,
  armed_after, in_order,
}
use dhcp_golib.Proto.Machine.Promise.Parts.{journal-IsSettled, send_renewal-IsSettled}

-- In BOUND, with a lease whose acquisition or renewal has not been told yet.
record IsTaken (c : Client) (before : Bool) (r : Run) : Type 0 where
  leased : is_some r.machine.lease ≡ true
  held : held_after c.held r.out ≡ before
  ordered : in_order c.held r.out ≡ true
  unchecked : is_some r.machine.probing ≡ false
  bound : r.machine.state ≡ state_bound
  expiring :
      (not (has_expiry r.machine.lease) || armed_after timer_expire (c.armed timer_expire) r.out)
      ≡ true

module _ (c : Client) where
  take_lease-IsTaken :
      (now : Instant) (l : Lease) (renewal : Bool) (r : Run)
      → IsTracked c r
      → is_some r.machine.probing ≡ false
      → IsTaken c (held_after c.held r.out) (take_lease now l renewal r)
  unfolding take_lease stamp
  take_lease-IsTaken now l renewal r s e = ground arith

  pub enter_renewing-IsSettled :
      (now : Instant) (rnd : ℕ) (r : Run)
      → IsHolding c r
      → IsSettled c r
      → IsSettled c (enter_renewing now rnd r)
  unfolding enter_renewing stamp send_renewal
  enter_renewing-IsSettled now rnd r h s = ground arith

  pub enter_rebinding-IsSettled :
      (now : Instant) (rnd : ℕ) (afresh : Bool) (r : Run)
      → IsHolding c r
      → IsSettled c (enter_rebinding now rnd afresh r)
  unfolding enter_rebinding stamp send_renewal
  enter_rebinding-IsSettled now rnd afresh r h = ground arith

  pub announce_hostname-IsSettled :
      (now : Instant) (rnd : ℕ) (r : Run)
      → IsSettled c r
      → IsSettled c (announce_hostname now rnd r)
  unfolding announce_hostname
  announce_hostname-IsSettled now rnd r s =
      ground (arith, enter_renewing-IsSettled now rnd r, send_renewal-IsSettled c r now)

  pub take_hostname-IsSettled :
      (now : Instant) (rnd : ℕ) (name : List ℕ) (r : Run)
      → IsSettled c r
      → IsSettled c (take_hostname now rnd name r)
  unfolding take_hostname
  take_hostname-IsSettled now rnd name r s =
      let renamed = assigning (λ m. record m { hostname = name }) r in
      let same : IsSettled c renamed = ground arith in
      let told = announce_hostname-IsSettled now rnd renamed same in
      ground (arith, told, journal-IsSettled c r s, journal-IsSettled c _ told)

  acquired :
      (r : Run) (l : Lease) (a : Addr)
      → IsTaken c false r
      → IsSettled c (stamp (act_lease_acquired l a) r)
  unfolding stamp
  acquired r l a t = rw t.bound (ground arith)

  acquire_lease-IsSettled :
      (now : Instant) (rnd : ℕ) (l : Lease) (r : Run)
      → IsClear c r
      → IsSettled c (acquire_lease now rnd l r)
  unfolding acquire_lease
  acquire_lease-IsSettled now rnd l r s =
      let tracked : IsTracked c r = ground arith in
      let taken : IsTaken c false (take_lease now l false r) =
        subst (λ b. IsTaken c b (take_lease now l false r)) s.free.unheld
          (take_lease-IsTaken now l false r tracked s.unchecked) in
      announce_hostname-IsSettled now rnd _ (acquired _ _ _ taken)

  -- Arming the timer of conflict detection changes nothing that is promised.
  apply_timers-IsSettled :
      (acts : List AcdAction) (r : Run) → IsSettled c r → IsSettled c (apply_timers acts r)
  unfolding apply_timers stamp
  apply_timers-IsSettled [] r s = s
  apply_timers-IsSettled (AcdAction.set_timer d ∷ acts) r s =
      apply_timers-IsSettled acts (set timer_acd d r) (ground arith)
  apply_timers-IsSettled (AcdAction.send_probe ∷ acts) r s = apply_timers-IsSettled acts r s
  apply_timers-IsSettled (AcdAction.send_announce ∷ acts) r s = apply_timers-IsSettled acts r s
  apply_timers-IsSettled (AcdAction.cancel_timer ∷ acts) r s = apply_timers-IsSettled acts r s
  apply_timers-IsSettled (AcdAction.ready ∷ acts) r s = apply_timers-IsSettled acts r s
  apply_timers-IsSettled (AcdAction.conflict rule ∷ acts) r s = apply_timers-IsSettled acts r s
  apply_timers-IsSettled (AcdAction.note ∷ acts) r s = apply_timers-IsSettled acts r s

  pub put_acd-IsSettled : (a : Acd) (r : Run) → IsSettled c r → IsSettled c (put_acd a r)
  put_acd-IsSettled a r s = ground arith

  start_acd-IsSettled :
      (now : Instant) (rnd : ℕ) (addr : Addr) (r : Run)
      → IsSettled c r
      → IsSettled c (start_acd now rnd addr r)
  unfolding start_acd
  start_acd-IsSettled now rnd addr r s = elim (Option-cases r.machine.acd) [
    | inl e ↦ ground (arith, e)
    | inr (a, e) ↦
        let next = acd_step a now rnd (AcdEvent.ev_start addr) in
        ground (
          arith,
          e,
          apply_timers-IsSettled next.1 (put_acd next.0 r) (put_acd-IsSettled next.0 r s),
        )
  ]

  renewed : (r : Run) (l : Lease) → IsTaken c true r → IsSettled c (stamp (act_lease_renewed l) r)
  unfolding stamp
  renewed r l t = rw t.bound (ground arith)

  changed :
      (r : Run) (l : Lease)
      → IsSettled c r
      → held_after c.held r.out ≡ true
      → IsSettled c (stamp (act_lease_changed l) r)
  unfolding stamp
  changed r l s h = ground arith

  apply_timers_keeps :
      (acts : List AcdAction) (r : Run)
      → ((apply_timers acts r).machine.lease ≡ r.machine.lease)
        × ((apply_timers acts r).machine.probing ≡ r.machine.probing)
  unfolding apply_timers stamp
  apply_timers_keeps [] r = (refl, refl)
  apply_timers_keeps (AcdAction.set_timer d ∷ acts) r = apply_timers_keeps acts (set timer_acd d r)
  apply_timers_keeps (AcdAction.send_probe ∷ acts) r = apply_timers_keeps acts r
  apply_timers_keeps (AcdAction.send_announce ∷ acts) r = apply_timers_keeps acts r
  apply_timers_keeps (AcdAction.cancel_timer ∷ acts) r = apply_timers_keeps acts r
  apply_timers_keeps (AcdAction.ready ∷ acts) r = apply_timers_keeps acts r
  apply_timers_keeps (AcdAction.conflict rule ∷ acts) r = apply_timers_keeps acts r
  apply_timers_keeps (AcdAction.note ∷ acts) r = apply_timers_keeps acts r

  start_acd_keeps :
      (now : Instant) (rnd : ℕ) (addr : Addr) (r : Run)
      → ((start_acd now rnd addr r).machine.lease ≡ r.machine.lease)
        × ((start_acd now rnd addr r).machine.probing ≡ r.machine.probing)
  unfolding start_acd
  start_acd_keeps now rnd addr r = elim (Option-cases r.machine.acd) [
    | inl e ↦ ground (arith, e)
    | inr (a, e) ↦
        let next = acd_step a now rnd (AcdEvent.ev_start addr) in
        ground (arith, e, apply_timers_keeps next.1 (put_acd next.0 r))
  ]

  note_change-IsSettled :
      (now : Instant) (rnd : ℕ) (prev l : Lease) (r : Run)
      → IsSettled c r
      → is_some r.machine.lease ≡ true
      → IsSettled c (note_change now rnd prev l r)
  unfolding note_change
  note_change-IsSettled now rnd prev l r s e =
      let noted = journal-IsSettled c r s in
      let checked = start_acd-IsSettled now rnd l.addr.addr (journal r) noted in
      let kept : is_some (start_acd now rnd l.addr.addr (journal r)).machine.lease ≡ true =
        unfold stamp in ap is_some (start_acd_keeps now rnd l.addr.addr (journal r)).0 ∙ e in
      ground (
        arith,
        changed r l s,
        changed (start_acd now rnd l.addr.addr (journal r)) l checked,
        checked.known,
        kept,
      )

  renew_lease-IsSettled :
      (now : Instant) (rnd : ℕ) (l : Lease) (r : Run)
      → IsHolding c r
      → IsSettled c (renew_lease now rnd l r)
  unfolding renew_lease
  renew_lease-IsSettled now rnd l r h =
      let tracked : IsTracked c r = ground arith in
      let taken : IsTaken c true (take_lease now l true r) =
        subst (λ b. IsTaken c b (take_lease now l true r)) h.held
          (take_lease-IsTaken now l true r tracked h.unchecked) in
      let l' = held_lease (take_lease now l true r).machine in
      let told = renewed (take_lease now l true r) l' taken in
      let still : is_some (stamp (act_lease_renewed l') (take_lease now l true r)).machine.lease
          ≡ true =
        unfold stamp in taken.leased in
      elim (Option-cases r.machine.lease) [
        | inl e ↦ ground (arith, e, told)
        | inr (prev, e) ↦ ground (arith, e, note_change-IsSettled now rnd prev l' _ told still)
      ]

  pub enter_bound-IsSettled :
      (now : Instant) (rnd : ℕ) (l : Lease) (r : Run)
      → IsClear c r
      → IsSettled c (enter_bound now rnd l false r)
  unfolding enter_bound
  enter_bound-IsSettled now rnd l r s = acquire_lease-IsSettled now rnd l r s

  pub enter_bound-IsSettled_renewal :
      (now : Instant) (rnd : ℕ) (l : Lease) (r : Run)
      → IsHolding c r
      → IsSettled c (enter_bound now rnd l true r)
  unfolding enter_bound
  enter_bound-IsSettled_renewal now rnd l r h = renew_lease-IsSettled now rnd l r h

  enter_probing-IsSettled :
      (now : Instant) (rnd : ℕ) (l : Lease) (r : Run)
      → IsFree c r
      → IsSettled c (enter_probing now rnd l r)
  unfolding enter_probing stamp
  enter_probing-IsSettled now rnd l r s =
      let entered =
        r
        ▷ cancel timer_retransmit
        ▷ assigning (λ m. record m {
          probing = some l;
          state = state_probing;
          offer = none;
          retransmits = 0;
          send_failures = 0;
        })
        ▷ journal in
      let settled : IsSettled c entered = ground arith in
      start_acd-IsSettled now rnd l.addr.addr entered settled

  start_acd-IsClear :
      (now : Instant) (rnd : ℕ) (addr : Addr) (r : Run)
      → IsClear c r
      → IsSettled c (start_acd now rnd addr r)
      → IsClear c (start_acd now rnd addr r)
  start_acd-IsClear now rnd addr r clear s =
      let (lease, probing) = start_acd_keeps now rnd addr r in ground (arith, lease, probing)

  after_ack_in-IsSettled :
      (mode : ConflictMode) (now : Instant) (rnd : ℕ) (l : Lease) (r : Run)
      → IsClear c r
      → IsSettled c r
      → IsSettled c (after_ack_in mode now rnd l r)
  unfolding after_ack_in
  after_ack_in-IsSettled conflict_wait now rnd l r clear s =
      enter_probing-IsSettled now rnd l r clear.free
  after_ack_in-IsSettled conflict_async now rnd l r clear s =
      let checked = start_acd-IsSettled now rnd l.addr.addr r s in
      enter_bound-IsSettled now rnd l _ (start_acd-IsClear now rnd l.addr.addr r clear checked)
  after_ack_in-IsSettled conflict_off now rnd l r clear s = enter_bound-IsSettled now rnd l r clear

  -- An ACK that is taken in a state with no lease.
  pub after_ack-IsSettled :
      (now : Instant) (rnd : ℕ) (l : Lease) (r : Run)
      → IsClear c r
      → IsSettled c r
      → IsSettled c (after_ack now rnd l r)
  unfolding after_ack
  after_ack-IsSettled now rnd l r clear s = after_ack_in-IsSettled _ now rnd l r clear s

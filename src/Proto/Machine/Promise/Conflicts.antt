-- ===== src/Proto/Machine/Promise/Conflicts.antt =====
-- Conflict detection and FORCERENEW: what they leave of the promise (proto/machine_acd.go and
-- proto/machine_forcerenew.go).
use dhcp_golib.Base.{
  ℕ, ◌≡◌, List, [], ◌∷◌, Option, none, some, arith, refl, Option-cases, inl, inr, ok, err, stuck,
}
use dhcp_golib.Proto.Time.{Duration, Instant}
use dhcp_golib.Proto.Lease.{Lease}
use dhcp_golib.Proto.Acd
use dhcp_golib.Proto.Acd.{AcdAction, AcdEvent, acd_step}
use dhcp_golib.Proto.Event.{
  State, state_bound, state_renewing, state_rebinding, state_stopped, state_init, state_selecting,
  state_requesting, state_rebooting, state_probing, timer_acd, Reason, reason_conflict,
}
use dhcp_golib.Proto.Machine.{
  Run, stamp, journal, set, cancel, failed, assigning, bump, ForcerenewKey, Refusal, no_server,
  wrong_state,
}
use dhcp_golib.Proto.Machine.Holding.{
  put_acd, send_arp, acd_ready, acd_conflict, apply_one, apply_acd, acd_event, acd_timer, on_arp,
}
use dhcp_golib.Proto.Machine.Forcerenew.{
  refuse_forcerenew, renew_now, already_renewing, judged, forcerenew_verdict, take_forcerenew,
  take_forcerenew_in,
}
use dhcp_golib.Proto.Machine.Promise.{Client, IsTracked, IsClear, IsHolding, IsSettled}
use dhcp_golib.Proto.Machine.Promise.Parts.{journal-IsSettled}
use dhcp_golib.Proto.Machine.Promise.Restarts.{decline_and_restart-IsSettled}
use dhcp_golib.Proto.Machine.Promise.Leases.{
  put_acd-IsSettled, enter_bound-IsSettled, enter_renewing-IsSettled,
}
use dhcp_golib.Wire.Message.{Addr, Message}
use dhcp_golib.Wire.Arp.{ArpPacket}

module _ (c : Client) where
  -- What is checked is checked in PROBING, where no lease is held.
  ready-IsClear :
      (r : Run) (l : Lease)
      → IsSettled c r
      → r.machine.probing ≡ some l
      → IsClear c (journal (assigning (λ m. record m { probing = none }) r))
  unfolding stamp
  ready-IsClear r l s e = ground arith

  acd_ready-IsSettled :
      (now : Instant) (rnd : ℕ) (r : Run) → IsSettled c r → IsSettled c (acd_ready now rnd r)
  unfolding acd_ready
  acd_ready-IsSettled now rnd r s = elim (Option-cases r.machine.probing) [
    | inl e ↦ ground (arith, e, journal-IsSettled c r s)
    | inr (l, e) ↦
        let checked = journal (assigning (λ m. record m { probing = none }) r) in
        ground (arith, e, enter_bound-IsSettled c now rnd l checked (ready-IsClear r l s e))
  ]

  failed-IsSettled : (why : Reason) (r : Run) → IsSettled c r → IsSettled c (failed why r)
  unfolding stamp
  failed-IsSettled why r s = ground arith

  acd_conflict-IsSettled :
      (now : Instant) (rnd : ℕ) (r : Run) → IsSettled c r → IsSettled c (acd_conflict now rnd r)
  unfolding acd_conflict
  acd_conflict-IsSettled now rnd r s =
      let noted : IsTracked c (journal r) = unfold stamp in ground arith in
      let restarted = decline_and_restart-IsSettled c now rnd (journal r) noted in
      ground (arith, restarted, failed-IsSettled reason_conflict _ restarted)

  send_arp-IsSettled : (p : ArpPacket) (r : Run) → IsSettled c r → IsSettled c (send_arp p r)
  unfolding send_arp stamp
  send_arp-IsSettled p r s = ground arith

  acd_timer_set : (d : Duration) (r : Run) → IsSettled c r → IsSettled c (set timer_acd d r)
  unfolding stamp
  acd_timer_set d r s = ground arith

  acd_timer_cancelled : (r : Run) → IsSettled c r → IsSettled c (cancel timer_acd r)
  unfolding stamp
  acd_timer_cancelled r s = ground arith

  apply_one-IsSettled :
      (now : Instant) (rnd : ℕ) (a : AcdAction) (r : Run)
      → IsSettled c r
      → IsSettled c (apply_one now rnd a r)
  unfolding apply_one
  apply_one-IsSettled now rnd (AcdAction.set_timer d) r s = acd_timer_set d r s
  apply_one-IsSettled now rnd AcdAction.cancel_timer r s = acd_timer_cancelled r s
  apply_one-IsSettled now rnd AcdAction.send_probe r s = elim (Option-cases r.machine.acd) [
    | inl e ↦ ground (arith, e)
    | inr (a, e) ↦ ground (arith, e, send_arp-IsSettled (Acd.probe a) r s)
  ]
  apply_one-IsSettled now rnd AcdAction.send_announce r s = elim (Option-cases r.machine.acd) [
    | inl e ↦ ground (arith, e)
    | inr (a, e) ↦ ground (arith, e, send_arp-IsSettled (Acd.announcement a) r s)
  ]
  apply_one-IsSettled now rnd AcdAction.ready r s = acd_ready-IsSettled now rnd r s
  apply_one-IsSettled now rnd (AcdAction.conflict rule) r s = acd_conflict-IsSettled now rnd r s
  apply_one-IsSettled now rnd AcdAction.note r s = journal-IsSettled c r s

  apply_acd-IsSettled :
      (now : Instant) (rnd : ℕ) (acts : List AcdAction) (r : Run)
      → IsSettled c r
      → IsSettled c (apply_acd now rnd acts r)
  unfolding apply_acd
  apply_acd-IsSettled now rnd [] r s = s
  apply_acd-IsSettled now rnd (a ∷ acts) r s =
      apply_acd-IsSettled now rnd acts (apply_one now rnd a r) (apply_one-IsSettled now rnd a r s)

  acd_event-IsSettled :
      (now : Instant) (rnd : ℕ) (ev : AcdEvent) (r : Run)
      → IsSettled c r
      → IsSettled c (acd_event now rnd ev r)
  unfolding acd_event
  acd_event-IsSettled now rnd ev r s = elim (Option-cases r.machine.acd) [
    | inl e ↦ ground (arith, e, journal-IsSettled c r s)
    | inr (a, e) ↦
        let next = acd_step a now rnd ev in
        ground (
          arith,
          e,
          apply_acd-IsSettled now rnd next.1 (put_acd next.0 r) (put_acd-IsSettled c next.0 r s),
        )
  ]

  pub acd_timer-IsSettled :
      (now : Instant) (rnd : ℕ) (r : Run) → IsSettled c r → IsSettled c (acd_timer now rnd r)
  unfolding acd_timer
  acd_timer-IsSettled now rnd r s = acd_event-IsSettled now rnd AcdEvent.ev_timer r s

  pub on_arp-IsSettled :
      (now : Instant) (rnd : ℕ) (p : Option ArpPacket) (r : Run)
      → IsSettled c r
      → IsSettled c (on_arp now rnd p r)
  unfolding on_arp
  on_arp-IsSettled now rnd none r s = journal-IsSettled c r s
  on_arp-IsSettled now rnd (some p) r s = acd_event-IsSettled now rnd (AcdEvent.ev_arp (some p)) r s

  refuse_forcerenew-IsSettled :
      (why : Refusal) (r : Run) → IsSettled c r → IsSettled c (refuse_forcerenew why r)
  unfolding refuse_forcerenew stamp
  refuse_forcerenew-IsSettled why r s = ground arith

  already_renewing-IsSettled :
      (key : ForcerenewKey) (r : Run) → IsSettled c r → IsSettled c (already_renewing key r)
  unfolding already_renewing stamp
  already_renewing-IsSettled key r s = ground arith

  renew_now-IsSettled :
      (now : Instant) (rnd : ℕ) (key : ForcerenewKey) (r : Run)
      → IsHolding c r
      → IsSettled c r
      → IsSettled c (renew_now now rnd key r)
  unfolding renew_now
  renew_now-IsSettled now rnd key r h s =
      let counted = journal (
        assigning
          (λ m. record m {
            fr = some key;
            counters = record m.counters { renewed = bump m.counters.renewed };
          })
          r) in
      let settled : IsSettled c counted = unfold stamp in ground arith in
      let holding : IsHolding c counted = unfold stamp in ground arith in
      ground (
        arith,
        refuse_forcerenew-IsSettled no_server r s,
        enter_renewing-IsSettled c now rnd counted holding settled,
      )

  judged-IsSettled :
      (act : ForcerenewKey → Run → Run) (msg : Message) (raw : List ℕ) (dst : Addr) (r : Run)
      → ((key : ForcerenewKey) → IsSettled c (act key r))
      → IsSettled c r
      → IsSettled c (judged act msg raw dst r)
  unfolding judged
  judged-IsSettled act msg raw dst r each s =
      elim (forcerenew_verdict r.machine msg raw dst)
        as (λ v.
          IsSettled c
            (elim v [ ok key ↦ act key r | err why ↦ refuse_forcerenew why r | stuck ↦ r ])) [
              | ok key ↦ each key
              | err why ↦ refuse_forcerenew-IsSettled why r s
              | stuck ↦ s
            ]

  bound-holding : (r : Run) → IsSettled c r → r.machine.state ≡ state_bound → IsHolding c r
  bound-holding r s e = ground arith

  take_forcerenew_in-IsSettled :
      (st : State) (now : Instant) (rnd : ℕ) (msg : Message) (raw : List ℕ) (dst : Addr) (r : Run)
      → r.machine.state ≡ st
      → IsSettled c r
      → IsSettled c (take_forcerenew_in st now rnd msg raw dst r)
  unfolding take_forcerenew_in
  take_forcerenew_in-IsSettled state_bound now rnd msg raw dst r e s =
      judged-IsSettled (renew_now now rnd) msg raw dst r
        (λ key. renew_now-IsSettled now rnd key r (bound-holding r s e) s) s
  take_forcerenew_in-IsSettled state_renewing now rnd msg raw dst r e s =
      judged-IsSettled already_renewing msg raw dst r (λ key. already_renewing-IsSettled key r s) s
  take_forcerenew_in-IsSettled state_rebinding now rnd msg raw dst r e s =
      judged-IsSettled already_renewing msg raw dst r (λ key. already_renewing-IsSettled key r s) s
  take_forcerenew_in-IsSettled state_stopped now rnd msg raw dst r e s =
      refuse_forcerenew-IsSettled wrong_state r s
  take_forcerenew_in-IsSettled state_init now rnd msg raw dst r e s =
      refuse_forcerenew-IsSettled wrong_state r s
  take_forcerenew_in-IsSettled state_selecting now rnd msg raw dst r e s =
      refuse_forcerenew-IsSettled wrong_state r s
  take_forcerenew_in-IsSettled state_requesting now rnd msg raw dst r e s =
      refuse_forcerenew-IsSettled wrong_state r s
  take_forcerenew_in-IsSettled state_rebooting now rnd msg raw dst r e s =
      refuse_forcerenew-IsSettled wrong_state r s
  take_forcerenew_in-IsSettled state_probing now rnd msg raw dst r e s =
      refuse_forcerenew-IsSettled wrong_state r s

  pub take_forcerenew-IsSettled :
      (now : Instant) (rnd : ℕ) (msg : Message) (raw : List ℕ) (dst : Addr) (r : Run)
      → IsSettled c r
      → IsSettled c (take_forcerenew now rnd msg raw dst r)
  unfolding take_forcerenew
  take_forcerenew-IsSettled now rnd msg raw dst r s =
      take_forcerenew_in-IsSettled r.machine.state now rnd msg raw dst r refl s

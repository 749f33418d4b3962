-- ===== src/Proto/Machine/Holding.antt =====
-- proto/machine.go and proto/machine_acd.go: taking a lease, checking it for a conflict, and renewing
-- it.
use dhcp_golib.Base.{
  ℕ, ◌==◌, Bool, true, false, ◌&&◌, not, List, [], ◌∷◌, Option, none, some, if◌then◌else◌, length,
  ltb,
}
use dhcp_golib.Base.Int.{pos, ltb_ℤ}
use dhcp_golib.Proto.Time.{Instant, sub}
use dhcp_golib.Proto.Lease.{Lease, Deadlines, deadlines}
use dhcp_golib.Proto.Lease.Notes.{clamped}
use dhcp_golib.Proto.Lease.Equal.{lease_equal, prefix_eq}
use dhcp_golib.Proto.Acd
use dhcp_golib.Proto.Acd.{
  Acd, AcdEvent, AcdAction, acd_step, ConflictMode, conflict_wait, conflict_async, conflict_off,
  addr_eq, bytes_eq, is_valid,
}
use dhcp_golib.Proto.Event.{
  state_bound, state_probing, TimerId, timer_retransmit, timer_expire, timer_renew, timer_rebind,
  timer_acd, reason_conflict, act_lease_acquired, act_lease_renewed, act_lease_changed,
  act_send_arp,
}
use dhcp_golib.Proto.Machine.{
  Machine, Run, ◌▷◌, assigning, stamp, set, cancel, journal, failed, held_lease, ForcerenewKey,
}
use dhcp_golib.Proto.Machine.Acquire.{decline_and_restart}
use dhcp_golib.Wire.Message.{Addr, is_unspecified}
use dhcp_golib.Wire.Arp.{ArpPacket}
use dhcp_golib.Wire.Auth.{forcerenew_nonce_len}
use dhcp_golib.Proto.Machine.Renewing.{announce_hostname}

-- `sendARP`: the id that is kept is that of the action.
unfoldable pub send_arp : ArpPacket → Run → Run
send_arp p r =
    r
    ▷ stamp (act_send_arp p)
    ▷ assigning (λ m. record m { arp_action = some r.machine.next_action })

abbrev pub put_acd : Acd → Run → Run
put_acd a = assigning (λ m. record m { acd = some a })

-- The actions of `acdEvStart`, of which there is one, to set the timer.
unfoldable pub apply_timers : List AcdAction → Run → Run
apply_timers [] r = r
apply_timers (AcdAction.set_timer d ∷ acts) r = apply_timers acts (set timer_acd d r)
apply_timers (_ ∷ acts) r = apply_timers acts r

-- `startACD`.
unfoldable pub start_acd : Instant → ℕ → Addr → Run → Run
unfolding apply_timers
start_acd now rnd addr r = elim r.machine.acd [
  | none ↦ r
  | some a ↦
      let (a', acts) = acd_step a now rnd (AcdEvent.ev_start addr) in
      apply_timers acts (put_acd a' r)
]

-- `settleForcerenew`, where the lease has a nonce of its own.
settle_given : Bool → Option ForcerenewKey → Lease → Lease × Option ForcerenewKey
settle_given renewal key l =
    let kept : ℕ = elim key [
      | none ↦ l.forcerenew_replay
      | some k ↦
          if renewal && bytes_eq k.nonce l.forcerenew_nonce && ltb l.forcerenew_replay k.floor
          then k.floor
          else l.forcerenew_replay
    ] in
    (
      record l { forcerenew_replay = kept },
      some (record { nonce = l.forcerenew_nonce; floor = kept }),
    )

-- `settleForcerenew`, where it has none: the key of a renewal by the same server is kept.
settle_missing : Bool → Addr → Option ForcerenewKey → Lease → Lease × Option ForcerenewKey
settle_missing renewal server key l =
    let bare = record l { forcerenew_nonce = []; forcerenew_replay = 0 } in
    elim key [
      | none ↦ (bare, none)
      | some k ↦
          if renewal && addr_eq l.server_id server
          then (record l { forcerenew_nonce = k.nonce; forcerenew_replay = k.floor }, some k)
          else (bare, none)
    ]

-- `settleForcerenew`: the lease and the key that it leaves; `server` is that of the lease before.
unfoldable pub settle_forcerenew :
    Bool → Addr → Option ForcerenewKey → Lease → Lease × Option ForcerenewKey
unfolding settle_given settle_missing
settle_forcerenew renewal server key l =
    if length l.forcerenew_nonce == forcerenew_nonce_len
    then settle_given renewal key l
    else settle_missing renewal server key l

-- `armDeadline`.
unfoldable pub arm_deadline : Instant → TimerId → Option Instant → Run → Run
arm_deadline now t none r = cancel t r
arm_deadline now t (some at) r =
    let d = sub at now in set t (if ltb_ℤ d (pos 0) then pos 0 else d) r

-- Whether the lease of an ACK has time left: only such a lease ends a row of restarts.
unfoldable pub has_time_left : Deadlines → Instant → Bool
has_time_left d now = elim d.expire [ none ↦ true | some t ↦ ltb_ℤ (pos 0) (sub t now) ]

-- The notes of `enterBound`: one for a T1 or T2 that was replaced, one for a lease that has expired
-- already, one for a lease that is infinite.
unfoldable pub deadline_notes : Lease → Instant → Run → Run
unfolding clamped
deadline_notes l now r =
    let noted = if clamped l then journal r else r in
    elim (deadlines l).expire [
      | none ↦ journal noted
      | some t ↦ if ltb_ℤ (sub t now) (pos 0) then journal noted else noted
    ]

-- `enterBound` up to the timers: the lease is taken.
unfoldable pub take_lease : Instant → Lease → Bool → Run → Run
unfolding settle_forcerenew deadline_notes has_time_left arm_deadline
take_lease now l renewal r =
    let m = r.machine in
    let renews = elim m.lease as (λ o. Bool) [ none ↦ false | some prev ↦ renewal ] in
    let (l', key) = settle_forcerenew renews (held_lease m).server_id m.fr l in
    let d = deadlines l' in
    r
    ▷ cancel timer_retransmit
    ▷ assigning (λ u. record u {
      fr = key;
      lease = some l';
      state = state_bound;
      offer = none;
      retransmits = 0;
      send_failures = 0;
      restarts = if has_time_left d now then 0 else u.restarts;
    })
    ▷ deadline_notes l' now
    ▷ arm_deadline now timer_expire d.expire
    ▷ arm_deadline now timer_renew d.renew
    ▷ arm_deadline now timer_rebind d.rebind

-- `requestedAddr`.
unfoldable pub requested_addr : Machine → Addr
requested_addr m =
    if is_valid m.reboot_addr && not (is_unspecified m.reboot_addr)
    then m.reboot_addr
    else m.params.requested_ip

-- `enterBound`, for a lease that is new.
unfoldable pub acquire_lease : Instant → ℕ → Lease → Run → Run
unfolding take_lease requested_addr announce_hostname
acquire_lease now rnd l r =
    let taken = take_lease now l false r in
    let m = taken.machine in
    taken ▷ stamp (act_lease_acquired (held_lease m) (requested_addr m)) ▷ announce_hostname now rnd

-- `enterBound`, for a renewal: the end, on the lease before it and the new one.
unfoldable pub note_change : Instant → ℕ → Lease → Lease → Run → Run
unfolding start_acd
note_change now rnd prev l r =
    let moved =
      if prefix_eq prev.addr l.addr then r else (r ▷ journal ▷ start_acd now rnd l.addr.addr) in
    if lease_equal prev l then r else stamp (act_lease_changed l) moved

unfoldable pub renew_lease : Instant → ℕ → Lease → Run → Run
unfolding take_lease note_change
renew_lease now rnd l r =
    let taken = take_lease now l true r in
    let l' = held_lease taken.machine in
    let renewed = stamp (act_lease_renewed l') taken in
    elim r.machine.lease [ none ↦ renewed | some prev ↦ note_change now rnd prev l' renewed ]

-- `enterBound`.
unfoldable pub enter_bound : Instant → ℕ → Lease → Bool → Run → Run
unfolding acquire_lease renew_lease
enter_bound now rnd l renewal r =
    if renewal then renew_lease now rnd l r else acquire_lease now rnd l r

-- `enterProbing`.
unfoldable pub enter_probing : Instant → ℕ → Lease → Run → Run
unfolding start_acd
enter_probing now rnd l r =
    r
    ▷ cancel timer_retransmit
    ▷ assigning (λ m. record m {
      probing = some l;
      state = state_probing;
      offer = none;
      retransmits = 0;
      send_failures = 0;
    })
    ▷ journal
    ▷ start_acd now rnd l.addr.addr

-- The switch of `afterAck`.
unfoldable pub after_ack_in : ConflictMode → Instant → ℕ → Lease → Run → Run
unfolding enter_probing start_acd enter_bound
after_ack_in conflict_wait now rnd l r = enter_probing now rnd l r
after_ack_in conflict_async now rnd l r =
    r ▷ start_acd now rnd l.addr.addr ▷ enter_bound now rnd l false
after_ack_in conflict_off now rnd l r = enter_bound now rnd l false r

-- `afterAck`.
unfoldable pub after_ack : Instant → ℕ → Lease → Run → Run
unfolding after_ack_in
after_ack now rnd l r = after_ack_in r.machine.params.conflict now rnd l r

-- `acdReady`.
unfoldable pub acd_ready : Instant → ℕ → Run → Run
unfolding enter_bound
acd_ready now rnd r = elim r.machine.probing [
  | none ↦ journal r
  | some l ↦
      r ▷ assigning (λ m. record m { probing = none }) ▷ journal ▷ enter_bound now rnd l false
]

-- The case acdConflict of `applyACD`.
unfoldable pub acd_conflict : Instant → ℕ → Run → Run
unfolding decline_and_restart
acd_conflict now rnd r =
    let restarted = r ▷ journal ▷ decline_and_restart now rnd in
    elim r.machine.lease [ none ↦ failed reason_conflict restarted | some l ↦ restarted ]

-- One round of `applyACD`. It is called with conflict detection on only.
unfoldable pub apply_one : Instant → ℕ → AcdAction → Run → Run
unfolding send_arp acd_ready acd_conflict
apply_one now rnd (AcdAction.set_timer d) r = set timer_acd d r
apply_one now rnd AcdAction.cancel_timer r = cancel timer_acd r
apply_one now rnd AcdAction.send_probe r = elim r.machine.acd [
  | none ↦ r
  | some a ↦ send_arp (Acd.probe a) r
]
apply_one now rnd AcdAction.send_announce r = elim r.machine.acd [
  | none ↦ r
  | some a ↦ send_arp (Acd.announcement a) r
]
apply_one now rnd AcdAction.ready r = acd_ready now rnd r
apply_one now rnd (AcdAction.conflict rule) r = acd_conflict now rnd r
apply_one now rnd AcdAction.note r = journal r

-- `applyACD`.
unfoldable pub apply_acd : Instant → ℕ → List AcdAction → Run → Run
unfolding apply_one
apply_acd now rnd [] r = r
apply_acd now rnd (a ∷ acts) r = apply_acd now rnd acts (apply_one now rnd a r)

-- `onARP` and `acdTimer`: a step of the sub-machine.
unfoldable pub acd_event : Instant → ℕ → AcdEvent → Run → Run
unfolding apply_acd
acd_event now rnd ev r = elim r.machine.acd [
  | none ↦ journal r
  | some a ↦ let (a', acts) = acd_step a now rnd ev in apply_acd now rnd acts (put_acd a' r)
]

-- `acdTimer`.
unfoldable pub acd_timer : Instant → ℕ → Run → Run
unfolding acd_event
acd_timer now rnd r = acd_event now rnd AcdEvent.ev_timer r

-- `onARP`: without a packet, or with conflict detection off, it leaves a note.
unfoldable pub on_arp : Instant → ℕ → Option ArpPacket → Run → Run
unfolding acd_event
on_arp now rnd none r = journal r
on_arp now rnd (some p) r = acd_event now rnd (AcdEvent.ev_arp (some p)) r

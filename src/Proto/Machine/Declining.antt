-- ===== src/Proto/Machine/Declining.antt =====
-- proto/machine_acd.go: a conflict over the address that is checked is declined.
use dhcp_golib.Base.{
  ℕ, ◌≡◌, ◌+◌, ◌%◌, ◌^◌, true, false, [], ◌∷◌, none, some, arith, refl, ◌⊎◌, inl, inr, Bool-cases,
  subst, sym,
}
use dhcp_golib.Proto.Time.{Duration, Instant, add}
use dhcp_golib.Proto.Params.{usable_4, split, param_restart_delay}
use dhcp_golib.Proto.Lease.{Lease}
use dhcp_golib.Proto.Acd
use dhcp_golib.Proto.Acd.{
  Acd, AcdAction, Rule, ev_arp, acd_step, arp, conflict_rule, is_valid, rate_limited,
}
use dhcp_golib.Proto.Acd.Conflicts.{restart_delay-bounds}
use dhcp_golib.Base.Int.{◌≤ℤ◌}
use dhcp_golib.Wire.Arp.{ArpPacket}
use dhcp_golib.Proto.Event.{state_init, state_probing, ev_arp_received, timer_restart}
use dhcp_golib.Proto.Machine.{Machine, Run, stamp, journal}
use dhcp_golib.Proto.Machine.Messages.{decline_of, terminal_fields, as_4}
use dhcp_golib.Proto.Machine.Requests.{identity, decline_identity}
use dhcp_golib.Wire.Message.{Message, invalid, msg_decline}
use dhcp_golib.Proto.Machine.Idle.{broadcasting, drop_lease}
use dhcp_golib.Proto.Machine.Sending.{send_decline}
use dhcp_golib.Proto.Machine.Acquire.{decline_and_restart, decline_wait}
use dhcp_golib.Proto.Machine.Holding.{apply_acd, apply_one, acd_conflict, acd_event, on_arp}
use dhcp_golib.Proto.Machine.Step.{step, handle, dispatch, unstepped, step_probing}
use dhcp_golib.Proto.Machine.Endings.{sent}
use dhcp_golib.Proto.Machine.Pacing.{armed_for}

terminal_fields_probing :
    (l : Lease) (m : Machine)
    → m.lease ≡ none
    → m.probing ≡ some l
    → usable_4 l.addr.addr ≡ true
    → usable_4 l.server_id ≡ true
    → terminal_fields (journal (unstepped m)).machine ≡ some (l.addr.addr, l.server_id)
unfolding terminal_fields stamp
terminal_fields_probing l m e p a s = ground (arith, e, p, a, s)

decline_wait_alike :
    (m : Machine) (now : Instant)
    → decline_wait (journal (unstepped m)).machine now ≡ decline_wait m now
unfolding decline_wait stamp
decline_wait_alike m now = refl

arp_conflict :
    (a : Acd) (now : Instant) (rnd : ℕ) (packet : ArpPacket) (rule : Rule)
    → is_valid a.addr ≡ true
    → conflict_rule a packet ≡ some rule
    → (acd_step a now rnd (ev_arp (some packet))).1 ≡ AcdAction.conflict rule ∷ []
unfolding acd_step arp
arp_conflict a now rnd packet rule v c = ground (arith, v, c)

-- The wait after a DHCPDECLINE, and the message, where the lease that is checked has an address and a
-- server.
decline_and_restart_lem :
    (now : Instant) (rnd : ℕ) (l : Lease) (m : Machine)
    → m.lease ≡ none
    → m.probing ≡ some l
    → usable_4 l.addr.addr ≡ true
    → usable_4 l.server_id ≡ true
    → let r = decline_and_restart now rnd (journal (unstepped m)) in
      (r.machine.state ≡ state_init)
      × (r.machine.lease ≡ none)
      × (r.machine.probing ≡ none)
      × (sent r.out
          ≡ (decline_of m.params (split rnd 4 % 2 ^ 32) l.addr.addr l.server_id, broadcasting) ∷ [])
      × (armed_for timer_restart r.out ≡ some (decline_wait m now).0)
unfolding decline_and_restart stamp send_decline drop_lease
decline_and_restart_lem now rnd l m e p a s =
    let fields = terminal_fields_probing l m e p a s in
    ground (arith, e, fields, decline_wait_alike m now)

-- The actions of a conflict, in PROBING.
conflict_applied :
    (now : Instant) (rnd : ℕ) (rule : Rule) (l : Lease) (m : Machine)
    → m.lease ≡ none
    → m.probing ≡ some l
    → usable_4 l.addr.addr ≡ true
    → usable_4 l.server_id ≡ true
    → let r = apply_acd now rnd (AcdAction.conflict rule ∷ []) (unstepped m) in
      (r.machine.state ≡ state_init)
      × (r.machine.lease ≡ none)
      × (r.machine.probing ≡ none)
      × (sent r.out
          ≡ (decline_of m.params (split rnd 4 % 2 ^ 32) l.addr.addr l.server_id, broadcasting) ∷ [])
      × (armed_for timer_restart r.out ≡ some (decline_wait m now).0)
unfolding apply_acd apply_one acd_conflict stamp
conflict_applied now rnd rule l m e p a s =
    ground (arith, e, decline_and_restart_lem now rnd l m e p a s)

-- The state of the check after a conflict: it is counted.
conflict_counted :
    (a : Acd) (now : Instant) (rnd : ℕ) (packet : ArpPacket) (rule : Rule)
    → is_valid a.addr ≡ true
    → conflict_rule a packet ≡ some rule
    → (acd_step a now rnd (ev_arp (some packet))).0
      ≡ Acd.stop (record a { conflicts = a.conflicts + 1 })
unfolding acd_step arp
conflict_counted a now rnd packet rule v c = ground (arith, v, c)

-- The check with one conflict more.
abbrev pub counted : Acd → Acd
counted a = record a { conflicts = a.conflicts + 1 }

-- A wait of a machine that starts over because of a conflict.
pub record IsWait (m : Machine) (a : Acd) (now : Instant) (d : Duration) : Type 0 where
  -- It is at least the ten seconds of RFC 2131, or what the parameters say instead.
  pub restart : param_restart_delay m.params ≤ℤ d
  -- With as many conflicts as the limit, the next attempt comes an interval after the last at least.
  pub limited :
      (rate_limited (counted a) ≡ false)
      ⊎ (add a.attempt_at a.params.rate_limit_interval ≤ℤ add now d)

-- The check as it stands where the wait is taken.
abbrev stopped : Acd → Acd
stopped a = Acd.stop (Acd.stop (counted a))

decline_wait-limited :
    (m : Machine) (a : Acd) (now : Instant)
    → rate_limited (counted a) ≡ true
    → (decline_wait (record m { acd = some (Acd.stop (counted a)) }) now).0
      ≡ Acd.restart_delay (stopped a) now (param_restart_delay m.params)
unfolding decline_wait rate_limited Acd.stop
decline_wait-limited m a now e = ground (arith, e)

decline_wait-free :
    (m : Machine) (a : Acd) (now : Instant)
    → rate_limited (counted a) ≡ false
    → (decline_wait (record m { acd = some (Acd.stop (counted a)) }) now).0
      ≡ param_restart_delay m.params
unfolding decline_wait rate_limited Acd.stop
decline_wait-free m a now e = ground (arith, e)

restart_delay-IsWait :
    (m : Machine) (a : Acd) (now : Instant)
    → IsWait m a now (Acd.restart_delay (stopped a) now (param_restart_delay m.params))
unfolding rate_limited Acd.stop
restart_delay-IsWait m a now =
    let (least, spaced) = restart_delay-bounds (stopped a) now (param_restart_delay m.params) in
    record { restart = least; limited = spaced }

least-IsWait :
    (m : Machine) (a : Acd) (now : Instant)
    → rate_limited (counted a) ≡ false
    → IsWait m a now (param_restart_delay m.params)
least-IsWait m a now e = record { restart = omega arith; limited = inl e }

decline_wait-IsWait :
    (m : Machine) (a : Acd) (now : Instant)
    → IsWait m a now (decline_wait (record m { acd = some (Acd.stop (counted a)) }) now).0
decline_wait-IsWait m a now = elim (Bool-cases (rate_limited (counted a))) [
  | inr e ↦ subst (IsWait m a now) (sym (decline_wait-free m a now e)) (least-IsWait m a now e)
  | inl e ↦
      subst (IsWait m a now) (sym (decline_wait-limited m a now e)) (restart_delay-IsWait m a now)
]

-- What a conflict over the address of a lease leaves, where `a` is the check before it.
pub record IsAbandoned (m : Machine) (l : Lease) (a : Acd) (now : Instant) (r : Run) : Type 0 where
  pub state : r.machine.state ≡ state_init
  pub lease : r.machine.lease ≡ none
  pub probing : r.machine.probing ≡ none
  pub told :
      (message : Message) × (sent r.out ≡ (message, broadcasting) ∷ [])
      × (identity message ≡ record {
        kind = some msg_decline;
        requested = some (as_4 l.addr.addr);
        server = some (as_4 l.server_id);
        own = invalid;
      })
  pub waiting : (d : Duration) × (armed_for timer_restart r.out ≡ some d) × IsWait m a now d

conflict_stepped :
    (m : Machine) (now : Instant) (rnd : ℕ) (a : Acd) (packet : ArpPacket) (rule : Rule)
    → m.state ≡ state_probing
    → m.acd ≡ some a
    → is_valid a.addr ≡ true
    → conflict_rule a packet ≡ some rule
    → step m now rnd (ev_arp_received (some packet))
      ≡ apply_acd now rnd
          (AcdAction.conflict rule ∷ [])
          (unstepped (record m { acd = some (Acd.stop (counted a)) }))
unfolding step handle dispatch step_probing on_arp acd_event
conflict_stepped m now rnd a packet rule st d v c = ground (
  arith,
  st,
  d,
  arp_conflict a now rnd packet rule v c,
  conflict_counted a now rnd packet rule v c,
)

conflict_applied-IsAbandoned :
    (now : Instant) (rnd : ℕ) (rule : Rule) (l : Lease) (a : Acd) (m : Machine)
    → m.lease ≡ none
    → m.probing ≡ some l
    → usable_4 l.addr.addr ≡ true
    → usable_4 l.server_id ≡ true
    → IsAbandoned m l a now (
        apply_acd now rnd
          (AcdAction.conflict rule ∷ [])
          (unstepped (record m { acd = some (Acd.stop (counted a)) })))
conflict_applied-IsAbandoned now rnd rule l a m e p u s =
    let m' = record m { acd = some (Acd.stop (counted a)) } in
    let (over, dropped, unchecked, told, timed) = conflict_applied now rnd rule l m' e p u s in
    let xid = split rnd 4 % 2 ^ 32 in
    record {
      state = over;
      lease = dropped;
      probing = unchecked;
      told = (
        decline_of m.params xid l.addr.addr l.server_id,
        told,
        decline_identity m.params xid l.addr.addr l.server_id,
      );
      waiting = ((decline_wait m' now).0, timed, decline_wait-IsWait m a now);
    }

-- A conflict over an address in PROBING, where no lease is held and the lease that is checked
-- has a usable address and server, sends one message, a broadcast DHCPDECLINE with that address
-- in option 50, that server in option 54 and no own address; it leaves nothing held or checked;
-- and it arms the restart timer for a wait that is not below the restart delay of the parameters
-- and, once the conflicts with this one have reached the limit, does not end before an interval
-- of the rate limit after the last attempt.
pub conflict_declined :
    (m : Machine) (now : Instant) (rnd : ℕ) (l : Lease) (a : Acd) (packet : ArpPacket) (rule : Rule)
    → m.state ≡ state_probing
    → m.lease ≡ none
    → m.probing ≡ some l
    → m.acd ≡ some a
    → is_valid a.addr ≡ true
    → conflict_rule a packet ≡ some rule
    → usable_4 l.addr.addr ≡ true
    → usable_4 l.server_id ≡ true
    → IsAbandoned m l a now (step m now rnd (ev_arp_received (some packet)))
conflict_declined m now rnd l a packet rule st e p d v c u s =
    subst (IsAbandoned m l a now) (sym (conflict_stepped m now rnd a packet rule st d v c))
      (conflict_applied-IsAbandoned now rnd rule l a m e p u s)

-- ===== src/Proto/Journal/Unread.antt =====
-- What proto/journal.go does not record: the packet of an ARP event.
use dhcp_golib.Base.{ℕ, ◌≡◌, refl, Bool, true, List, [], none, some, arith, ok, err}
use dhcp_golib.Proto.Time.{Instant}
use dhcp_golib.Proto.Acd.{Acd, Rule, conflict_rule, is_valid}
use dhcp_golib.Proto.Lease.{Lease}
use dhcp_golib.Proto.Params.{usable_4}
use dhcp_golib.Proto.Event.{state_init, state_probing, ev_arp_received, Action}
use dhcp_golib.Proto.Machine.{Machine, stamp}
use dhcp_golib.Proto.Machine.Holding.{on_arp}
use dhcp_golib.Proto.Machine.Step.{step, handle, dispatch, step_probing}
use dhcp_golib.Proto.Machine.Declining.{conflict_declined}
use dhcp_golib.Proto.Journal.{
  JournalEntry, new_journal_entry, payload, event_of, event_by, check_step, replay_entry, diverged,
  field_to_state, state_number,
}
use dhcp_golib.Proto.Journal.Recorded.{Stepped, entry}
use dhcp_golib.Wire.Arp.{ArpPacket}

step_without_packet :
    (m : Machine) (now : Instant) (rnd : ℕ)
    → m.state ≡ state_probing
    → (step m now rnd (ev_arp_received none)).machine.state ≡ state_probing
unfolding step handle dispatch step_probing on_arp stamp
step_without_packet m now rnd e = ground (arith, e)

abbrev pub with_packet : Instant → ℕ → ArpPacket → Stepped
with_packet now rnd packet = record {
  now = now;
  rnd = rnd;
  event = ev_arp_received (some packet);
  advert = [];
}

module _ (render : Action → List ℕ) (is_advert : List ℕ → Bool) where
  stays_behind :
      (e : JournalEntry) (m : Machine)
      → event_of is_advert e ≡ ok (ev_arp_received none)
      → m.state ≡ state_probing
      → e.from_state ≡ state_probing
      → e.to_state ≡ state_init
      → replay_entry render is_advert m e ≡ err (diverged e.seq field_to_state)
  unfolding replay_entry check_step state_number
  stays_behind e m read st from to =
      ground (arith, read, st, from, to, step_without_packet m e.now e.rnd st)

  -- In PROBING, a conflict over the address that is checked, which a packet shows by the rules,
  -- where no lease is held and the lease that is checked has an address and a server, is
  -- recorded as a step to INIT, and the replay of its entry on the same machine diverges in the
  -- state it goes to.
  pub conflict_unreplayed :
      (m : Machine) (seq : ℕ) (now : Instant) (rnd : ℕ) (l : Lease) (a : Acd) (packet : ArpPacket)
      (rule : Rule)
      → m.state ≡ state_probing
      → m.lease ≡ none
      → m.probing ≡ some l
      → m.acd ≡ some a
      → is_valid a.addr ≡ true
      → conflict_rule a packet ≡ some rule
      → usable_4 l.addr.addr ≡ true
      → usable_4 l.server_id ≡ true
      → replay_entry render is_advert m (entry render is_advert m seq (with_packet now rnd packet))
        ≡ err (diverged seq field_to_state)
  unfolding new_journal_entry payload event_of event_by
  conflict_unreplayed m seq now rnd l a packet rule st e p d v c u s =
      stays_behind (entry render is_advert m seq (with_packet now rnd packet)) m refl st st
        (conflict_declined m now rnd l a packet rule st e p d v c u s).state

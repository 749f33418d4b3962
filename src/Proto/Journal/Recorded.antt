-- ===== src/Proto/Journal/Recorded.antt =====
-- The journal that a client records of its steps, each by NewJournalEntry of proto/journal.go, and what
-- of its events a replay reads back.
use dhcp_golib.Base.{
  ℕ, ◌+◌, ◌≡◌, ◌↔◌, ◌==◌, refl, Bool, true, false, List, [], ◌∷◌, none, some, length, arith, ok, ap,
  suc, All, Bool-cases, Result-forms, inl, inr,
}
use dhcp_golib.Proto.Time.{Instant}
use dhcp_golib.Proto.Params.{Params}
use dhcp_golib.Proto.Event.{
  State, Event, ev_start, ev_stop, ev_received, ev_timer_fired, ev_link_down, ev_link_up,
  ev_conflict_detected, ev_address_lost, ev_action_failed, ev_release, ev_arp_received,
  ev_router_advert, ev_dad_result, ev_set_hostname, Action,
}
use dhcp_golib.Proto.Machine.{Machine, new}
use dhcp_golib.Proto.Machine.Step.{step}
use dhcp_golib.Proto.Journal.{
  JournalEntry, payload, new_journal_entry, event_of, event_by, replay_advert, replay, outcome,
}
use dhcp_golib.Proto.Journal.Trace.{Trace, Agrees, replay_iff}
use dhcp_golib.Wire.Codec.{decode}

-- What one call of Step is given, and the field RARaw of its event.
pub record Stepped : Type 0 where
  pub now : Instant
  pub rnd : ℕ
  pub event : Event
  pub advert : List ℕ

-- An event that carries no more than an entry holds: the message of a packet is what its octets
-- decode to, an advertisement has octets that are one, and an ARP event has no packet.
unfoldable pub IsRecordable : (List ℕ → Bool) → Event → List ℕ → Type 0
IsRecordable is_advert (ev_received none raw dst) advert = false ≡ true
IsRecordable is_advert (ev_received (some msg) raw dst) advert = decode raw ≡ ok msg
IsRecordable is_advert (ev_arp_received none) advert = true ≡ true
IsRecordable is_advert (ev_arp_received (some p)) advert = false ≡ true
IsRecordable is_advert ev_router_advert advert =
    ((length advert == 0) ≡ false) × (is_advert advert ≡ true)
IsRecordable is_advert _ advert = true ≡ true

module _ (render : Action → List ℕ) (is_advert : List ℕ → Bool) where
  abbrev pub entry : Machine → ℕ → Stepped → JournalEntry
  entry m seq s =
      let r = step m s.now s.rnd s.event in
      new_journal_entry render seq s.now s.rnd s.event s.advert m.state r.machine.state r.out

  abbrev pub after : Machine → Stepped → Machine
  after m s = (step m s.now s.rnd s.event).machine

  unfoldable pub recorded : Machine → ℕ → List Stepped → List JournalEntry
  recorded m seq [] = []
  recorded m seq (s ∷ ss) = entry m seq s ∷ recorded (after m s) (seq + 1) ss

  unfoldable pub after_all : Machine → List Stepped → Machine
  after_all m [] = m
  after_all m (s ∷ ss) = after_all (after m s) ss

  read_back :
      (seq : ℕ) (now : Instant) (rnd : ℕ) (ev : Event) (advert : List ℕ) (from to : State)
      (acts : List Action)
      → (event_of is_advert (new_journal_entry render seq now rnd ev advert from to acts) ≡ ok ev)
        ↔ IsRecordable is_advert ev advert
  unfolding event_of event_by new_journal_entry payload IsRecordable replay_advert
  read_back seq now rnd ev_start advert from to acts = (λ e. refl, λ e. refl)
  read_back seq now rnd ev_stop advert from to acts = (λ e. refl, λ e. refl)
  read_back seq now rnd ev_link_down advert from to acts = (λ e. refl, λ e. refl)
  read_back seq now rnd ev_link_up advert from to acts = (λ e. refl, λ e. refl)
  read_back seq now rnd ev_conflict_detected advert from to acts = (λ e. refl, λ e. refl)
  read_back seq now rnd ev_address_lost advert from to acts = (λ e. refl, λ e. refl)
  read_back seq now rnd ev_release advert from to acts = (λ e. refl, λ e. refl)
  read_back seq now rnd (ev_received none raw dst) advert from to acts =
      elim (Result-forms (decode raw)) [
        | inl (m, d) ↦ (λ e. ground (arith, d, e), λ e. cc)
        | inr (inl (x, d)) ↦ (λ e. ground (arith, d, e), λ e. cc)
        | inr (inr d) ↦ (λ e. ground (arith, d, e), λ e. cc)
      ]
  read_back seq now rnd (ev_received (some msg) raw dst) advert from to acts =
      elim (Result-forms (decode raw)) [
        | inl (m, d) ↦ (λ e. ground (arith, d, e), λ e. ground (arith, e))
        | inr (inl (x, d)) ↦ (λ e. ground (arith, d, e), λ e. ground (arith, e))
        | inr (inr d) ↦ (λ e. ground (arith, d, e), λ e. ground (arith, e))
      ]
  read_back seq now rnd (ev_timer_fired t) advert from to acts = (λ e. refl, λ e. refl)
  read_back seq now rnd (ev_action_failed id) advert from to acts = (λ e. refl, λ e. refl)
  read_back seq now rnd (ev_arp_received none) advert from to acts = (λ e. refl, λ e. refl)
  read_back seq now rnd (ev_arp_received (some p)) advert from to acts = (λ e. cc, λ e. cc)
  read_back seq now rnd ev_router_advert advert from to acts =
      elim (Bool-cases (length advert == 0)) [
        | inl bare ↦ (λ e. ground (arith, bare, e), λ e. ground (arith, bare, e))
        | inr full ↦ elim (Bool-cases (is_advert advert)) [
          | inl good ↦ (λ e. (full, good), λ e. ground (arith, full, good))
          | inr bad ↦ (λ e. ground (arith, full, bad, e), λ e. ground (arith, bad, e))
        ]
      ]
  read_back seq now rnd (ev_dad_result a d) advert from to acts = (λ e. refl, λ e. refl)
  read_back seq now rnd (ev_set_hostname name) advert from to acts = (λ e. refl, λ e. refl)

  -- The entry of a step is read back as the event of the step exactly where the event carries no
  -- more than an entry holds.
  pub event_of_iff :
      (m : Machine) (seq : ℕ) (s : Stepped)
      → (event_of is_advert (entry m seq s) ≡ ok s.event) ↔ IsRecordable is_advert s.event s.advert
  event_of_iff m seq s =
      let r = step m s.now s.rnd s.event in
      read_back seq s.now s.rnd s.event s.advert m.state r.machine.state r.out

  entry-Agrees :
      (m : Machine) (seq : ℕ) (s : Stepped)
      → IsRecordable is_advert s.event s.advert
      → Agrees render is_advert m (entry m seq s) (after m s)
  unfolding new_journal_entry
  entry-Agrees m seq s h = record {
    event = s.event;
    read = (event_of_iff m seq s).1 h;
    from = refl;
    next = refl;
    to = refl;
    texts = refl;
  }

  abbrev pub AllRecordable : List Stepped → Type 0
  AllRecordable = All (λ s. IsRecordable is_advert s.event s.advert)

  recorded-Trace :
      (m : Machine) (seq : ℕ) (ss : List Stepped)
      → AllRecordable ss
      → Trace render is_advert m (recorded m seq ss) (after_all m ss)
  unfolding recorded after_all Trace
  recorded-Trace m seq [] h = refl
  recorded-Trace m seq (s ∷ ss) h =
      (after m s, entry-Agrees m seq s h.0, recorded-Trace (after m s) (seq + 1) ss h.1)

  length-recorded :
      (m : Machine) (seq : ℕ) (ss : List Stepped) → length (recorded m seq ss) ≡ length ss
  unfolding recorded
  length-recorded m seq [] = refl
  length-recorded m seq (s ∷ ss) = ap suc (length-recorded (after m s) (seq + 1) ss)

  -- The journal of any steps of a machine that New made is replayed to the state and the lease
  -- behind the last step, if the message of each received packet is what its octets decode to,
  -- each router advertisement has octets that are one, and no ARP event carries a packet.
  pub replay-recorded :
      (p : Params) (m : Machine) (seq : ℕ) (ss : List Stepped)
      → new p ≡ ok m
      → AllRecordable ss
      → replay render is_advert p (recorded m seq ss) ≡ ok (outcome (after_all m ss) (length ss))
  replay-recorded p m seq ss made h =
      (replay_iff render is_advert p (recorded m seq ss) (outcome (after_all m ss) (length ss))).1 (
        m,
        after_all m ss,
        made,
        recorded-Trace m seq ss h,
        ap (outcome (after_all m ss)) (length-recorded m seq ss),
      )

-- ===== src/Proto/Journal.antt =====
-- proto/journal.go: the recording of a step, and the replay of a recording. A text is a list of octets.
-- How an action is written as text, and which octets are a router advertisement, is left to the two
-- parameters `render` and `is_advert`, for every choice of them; the address of the advertising router
-- and the reason of a failed action, which the DHCPv4 machine does not read, are left out of an entry.
pub mod Trace
pub mod Recorded
pub mod Unread
use dhcp_golib.Base.{
  ℕ, ◌+◌, ◌==◌, Bool, false, not, List, [], ◌∷◌, ◌++◌, Option, none, some, if◌then◌else◌, length,
  Result, ok, err, stuck, ◌>>=◌,
}
use dhcp_golib.Base.Int.{pos}
use dhcp_golib.Proto.Time.{Instant}
use dhcp_golib.Proto.Acd.{bytes_eq}
use dhcp_golib.Proto.Lease.{Lease}
use dhcp_golib.Proto.Params.{Params, ParamError}
use dhcp_golib.Proto.Event.{
  State, state_stopped, state_init, state_selecting, state_requesting, state_bound, state_renewing,
  state_rebinding, state_rebooting, state_probing, TimerId, timer_retransmit, Event, ev_start,
  ev_stop, ev_received, ev_timer_fired, ev_link_down, ev_link_up, ev_conflict_detected,
  ev_address_lost, ev_action_failed, ev_release, ev_arp_received, ev_router_advert, ev_dad_result,
  ev_set_hostname, Action,
}
use dhcp_golib.Proto.Machine.{Machine, Run, new, lease_of}
use dhcp_golib.Proto.Machine.Step.{step}
use dhcp_golib.Wire.Message.{Addr, invalid}
use dhcp_golib.Wire.Codec.{CodecError, decode}

pub data EventKind : Type 0 where
  kind_start kind_stop kind_received kind_timer_fired kind_link_down kind_link_up : EventKind
  kind_conflict_detected kind_address_lost kind_action_failed kind_release : EventKind
  kind_arp_received kind_router_advert kind_dad_result kind_set_hostname : EventKind

pub record JournalEntry : Type 0 where
  pub seq : ℕ
  pub now : Instant
  pub rnd : ℕ
  pub kind : EventKind
  pub raw : List ℕ
  pub dst : Addr
  pub ra : List ℕ
  pub hostname : List ℕ
  pub dad_addr : Addr
  pub dad_duplicate : Bool
  pub timer : TimerId
  pub action : ℕ
  pub from_state : State
  pub to_state : State
  pub actions : List (List ℕ)

-- The field in which a replay and its journal differ, the index with an action.
pub data Field : Type 0 where
  field_from_state field_to_state field_action_count : Field
  field_action : ℕ → Field

pub data ReplayError : Type 0 where
  bad_params : ParamError → ReplayError
  bad_packet : ℕ → CodecError → ReplayError
  no_advert bad_advert : ℕ → ReplayError
  diverged : ℕ → Field → ReplayError

pub record ReplayResult : Type 0 where
  pub state : State
  pub lease : Option Lease
  pub steps : ℕ

-- The number of a state.
unfoldable pub state_number : State → ℕ
state_number state_stopped = 0
state_number state_init = 1
state_number state_selecting = 2
state_number state_requesting = 3
state_number state_bound = 4
state_number state_renewing = 5
state_number state_rebinding = 6
state_number state_rebooting = 7
state_number state_probing = 8

-- An entry with what every step records, and no payload.
abbrev pub bare_entry : EventKind → JournalEntry
bare_entry k = record {
  seq = 0;
  now = pos 0;
  rnd = 0;
  kind = k;
  raw = [];
  dst = invalid;
  ra = [];
  hostname = [];
  dad_addr = invalid;
  dad_duplicate = false;
  timer = timer_retransmit;
  action = 0;
  from_state = state_stopped;
  to_state = state_stopped;
  actions = [];
}

-- The payload of an event in an entry; `advert` is the field RARaw of a router advertisement.
unfoldable pub payload : Event → List ℕ → JournalEntry
payload ev_start advert = bare_entry kind_start
payload ev_stop advert = bare_entry kind_stop
payload ev_link_down advert = bare_entry kind_link_down
payload ev_link_up advert = bare_entry kind_link_up
payload ev_conflict_detected advert = bare_entry kind_conflict_detected
payload ev_address_lost advert = bare_entry kind_address_lost
payload ev_release advert = bare_entry kind_release
payload (ev_received msg raw dst) advert = record (bare_entry kind_received) {
  raw = raw;
  dst = dst;
}
payload (ev_timer_fired t) advert = record (bare_entry kind_timer_fired) { timer = t }
payload (ev_action_failed id) advert = record (bare_entry kind_action_failed) { action = id }
payload (ev_arp_received p) advert = bare_entry kind_arp_received
payload ev_router_advert advert = record (bare_entry kind_router_advert) { ra = advert }
payload (ev_dad_result a duplicate) advert = record (bare_entry kind_dad_result) {
  dad_addr = a;
  dad_duplicate = duplicate;
}
payload (ev_set_hostname name) advert = record (bare_entry kind_set_hostname) { hostname = name }

-- The first place where two lists of texts differ, over the shorter one.
unfoldable pub first_difference : ℕ → List (List ℕ) → List (List ℕ) → Option ℕ
first_difference i [] recorded = none
first_difference i (a ∷ as_) [] = none
first_difference i (a ∷ as_) (b ∷ bs) =
    if bytes_eq a b then first_difference (i + 1) as_ bs else some i

abbrev pub refused : ℕ → Result CodecError Event → Result ReplayError Event
refused seq (ok ev) = ok ev
refused seq (err e) = err (bad_packet seq e)
refused seq stuck = stuck

-- The comparison of `Replay` of the actions of a step with those of its entry.
unfoldable pub check_actions : JournalEntry → List (List ℕ) → Machine → Result ReplayError Machine
check_actions e got m =
    if not (length got == length e.actions)
    then err (diverged e.seq field_action_count)
    else elim (first_difference 0 got e.actions) [
      | none ↦ ok m
      | some i ↦ err (diverged e.seq (field_action i))
    ]

abbrev pub outcome : Machine → ℕ → ReplayResult
outcome m steps = record { state = m.state; lease = lease_of m; steps = steps }

abbrev pub made : Params → Result ReplayError Machine
made p = elim (new p) [ ok m ↦ ok m | err e ↦ err (bad_params e) | stuck ↦ stuck ]

module _ (render : Action → List ℕ) where
  -- `RenderActions`; the actions of a step stand the newest first.
  unfoldable pub render_actions : List Action → List (List ℕ)
  render_actions [] = []
  render_actions (a ∷ as_) = render_actions as_ ++ render a ∷ []

  -- `NewJournalEntry`.
  unfoldable pub new_journal_entry :
      ℕ → Instant → ℕ → Event → List ℕ → State → State → List Action → JournalEntry
  new_journal_entry seq now rnd ev advert from to acts = record (payload ev advert) {
    seq = seq;
    now = now;
    rnd = rnd;
    from_state = from;
    to_state = to;
    actions = render_actions acts;
  }

  unfoldable pub check_step : JournalEntry → Run → Result ReplayError Machine
  check_step e r =
      if not (state_number r.machine.state == state_number e.to_state)
      then err (diverged e.seq field_to_state)
      else check_actions e (render_actions r.out) r.machine

module _ (is_advert : List ℕ → Bool) where
  -- `replayEvent` for a router advertisement.
  unfoldable pub replay_advert : ℕ → List ℕ → Result ReplayError Event
  replay_advert seq ra =
      if length ra == 0
      then err (no_advert seq)
      else if is_advert ra
      then ok ev_router_advert
      else err (bad_advert seq)

  -- `JournalEntry.Event` with `replayEvent`: the event that an entry stands for.
  unfoldable pub event_by : EventKind → JournalEntry → Result ReplayError Event
  event_by kind_start e = ok ev_start
  event_by kind_stop e = ok ev_stop
  event_by kind_received e =
      refused e.seq (do msg ← decode e.raw; ok (ev_received (some msg) e.raw e.dst))
  event_by kind_timer_fired e = ok (ev_timer_fired e.timer)
  event_by kind_link_down e = ok ev_link_down
  event_by kind_link_up e = ok ev_link_up
  event_by kind_conflict_detected e = ok ev_conflict_detected
  event_by kind_address_lost e = ok ev_address_lost
  event_by kind_action_failed e = ok (ev_action_failed e.action)
  event_by kind_release e = ok ev_release
  event_by kind_arp_received e = ok (ev_arp_received none)
  event_by kind_router_advert e = replay_advert e.seq e.ra
  event_by kind_dad_result e = ok (ev_dad_result e.dad_addr e.dad_duplicate)
  event_by kind_set_hostname e = ok (ev_set_hostname e.hostname)

  unfoldable pub event_of : JournalEntry → Result ReplayError Event
  event_of e = event_by e.kind e

module _ (render : Action → List ℕ) (is_advert : List ℕ → Bool) where
  -- One round of the loop of `Replay`.
  unfoldable pub replay_entry : Machine → JournalEntry → Result ReplayError Machine
  replay_entry m e =
      if not (state_number m.state == state_number e.from_state)
      then err (diverged e.seq field_from_state)
      else do ev ← event_of is_advert e; check_step render e (step m e.now e.rnd ev)

  unfoldable pub replay_entries : Machine → List JournalEntry → Result ReplayError Machine
  replay_entries m [] = ok m
  replay_entries m (e ∷ es) = do next ← replay_entry m e; replay_entries next es

  -- `Replay`.
  unfoldable pub replay : Params → List JournalEntry → Result ReplayError ReplayResult
  replay p es = do m ← made p; last ← replay_entries m es; ok (outcome last (length es))

-- ===== src/Proto/Machine.antt =====
-- proto/machine.go: the state of the DHCPv4 client and the list of actions of a step. The handlers are
-- in the child modules.
pub mod Messages
pub mod Idle
pub mod Sending
pub mod Acquire
pub mod Renewing
pub mod Holding
pub mod Forcerenew
pub mod Answers
pub mod Step
pub mod Promise
pub mod Endings
pub mod Replays
pub mod Requests
pub mod Exchange
pub mod Pacing
pub mod Declining
pub mod Creation
use dhcp_golib.Base.{
  ℕ, ◌+◌, ◌%◌, ◌^◌, Bool, false, List, [], ◌∷◌, Option, none, some, if◌then◌else◌, ◌==◌, length,
  Result, ok, err, stuck,
}
use dhcp_golib.Base.Int.{pos}
use dhcp_golib.Proto.Time.{Duration, Instant}
use dhcp_golib.Proto.Lease.{Lease, or_else}
use dhcp_golib.Proto.Acd.{Acd, new_acd, conflict_off, conflict_wait, conflict_async}
use dhcp_golib.Proto.Params.{
  Params, Resume, ParamError, bad_fqdn, bad_user_class, validate_params, parameter_codes,
  fqdn_flags, acd_params, link_hw,
}
use dhcp_golib.Proto.Event.{
  State, state_stopped, TimerId, all_timer_ids, Reason, Dest, Action, ActionKind, act_send,
  act_set_timer, act_cancel_timer, act_failed, act_journal,
}
use dhcp_golib.Wire.Message.{Addr, invalid, Message}
use dhcp_golib.Wire.Names.{encode_fqdn}
use dhcp_golib.Wire.UserClass.{encode_user_class}

-- `ForcerenewRefusal`, without ForcerenewRefusalNone, which refuses nothing.
pub data Refusal : Type 0 where
  wrong_state no_raw not_unicast not_our_address not_this_client no_nonce no_auth : Refusal
  malformed_auth replayed bad_digest no_server : Refusal

-- `RapidCommitCounters`, `IPv6OnlyCounters` and `ForcerenewCounters`, a uint64 each; `refused` is the
-- array that is indexed by the refusal.
pub record Counters : Type 0 where
  pub rapid_accepted : ℕ
  pub rapid_refused : ℕ
  pub v6_only_waited : ℕ
  pub v6_only_ignored : ℕ
  pub v6_only_malformed : ℕ
  pub renewed : ℕ
  pub already_renewing : ℕ
  pub ack_refused : ℕ
  pub refused : Refusal → ℕ

-- `c++` of a uint64.
abbrev pub bump : ℕ → ℕ
bump c = (c + 1) % 2 ^ 64

-- `forcerenewKey`, where it has a nonce.
pub record ForcerenewKey : Type 0 where
  pub nonce : List ℕ
  pub floor : ℕ

-- `Machine`. A value with a flag that says whether it is there is an Option, and so is a pointer. The
-- counts of retransmissions, failures and restarts are of type int and never fall below zero.
pub record Machine : Type 0 where
  pub params : Params
  pub state : State
  pub next_action : ℕ  -- uint64
  pub started_at : Instant
  pub started : Bool
  pub xid : ℕ  -- uint32
  pub retransmits : ℕ
  pub send_failures : ℕ
  pub restarts : ℕ
  pub offer : Option Message
  pub request_sent_at : Instant
  pub counters : Counters
  pub fr : Option ForcerenewKey
  pub lease : Option Lease
  pub resume : Option Resume
  pub reboot_addr : Addr
  pub acd : Option Acd
  pub probing : Option Lease
  pub hostname : List ℕ
  pub name_on_wire : List ℕ
  pub arp_action : Option ℕ

abbrev pub zero_counters : Counters
zero_counters = record {
  rapid_accepted = 0;
  rapid_refused = 0;
  v6_only_waited = 0;
  v6_only_ignored = 0;
  v6_only_malformed = 0;
  renewed = 0;
  already_renewing = 0;
  ack_refused = 0;
  refused = λ why. 0;
}

-- `Lease{}`, which is read where no lease is held.
abbrev pub zero_lease : Lease
zero_lease = record {
  addr = record { addr = invalid; bits = 0 };
  server_id = invalid;
  router = [];
  routes = [];
  dns = [];
  domain = [];
  search = [];
  mtu = 0;
  start = pos 0;
  lease_time = pos 0;
  t1 = pos 0;
  t2 = pos 0;
  options = [];
  forcerenew_nonce = [];
  forcerenew_replay = 0;
}

-- The fields of `New` that are encoded once.
encoded_user_class : Params → Result ParamError (List ℕ)
encoded_user_class p = elim p.user_class [
  | [] ↦ ok []
  | c ∷ cs ↦ elim (encode_user_class (c ∷ cs)) [
    | ok v ↦ ok v
    | err e ↦ err bad_user_class
    | stuck ↦ stuck
  ]
]

encoded_fqdn : Params → Result ParamError (List ℕ)
encoded_fqdn p =
    let value : Result ParamError (List ℕ) = elim (encode_fqdn (fqdn_flags p.fqdn) p.fqdn.name) [
      | ok v ↦ ok v
      | err e ↦ err bad_fqdn
      | stuck ↦ stuck
    ] in
    if length p.fqdn.name == 0 then ok [] else value

abbrev pub acd_of : Params → Option Acd
acd_of p = elim p.conflict [
  | conflict_off ↦ none
  | conflict_wait ↦ some (new_acd (acd_params p) conflict_wait (link_hw p))
  | conflict_async ↦ some (new_acd (acd_params p) conflict_async (link_hw p))
]

-- The machine of `New`, on parameters that are complete.
unfoldable pub fresh : Params → Machine
fresh p = record {
  params = p;
  state = state_stopped;
  next_action = 0;
  started_at = pos 0;
  started = false;
  xid = 0;
  retransmits = 0;
  send_failures = 0;
  restarts = 0;
  offer = none;
  request_sent_at = pos 0;
  counters = zero_counters;
  fr = none;
  lease = none;
  resume = p.resume;
  reboot_addr = invalid;
  acd = acd_of p;
  probing = none;
  hostname = p.hostname;
  name_on_wire = [];
  arp_action = none;
}

-- The parameters of the machine: the default list of codes, and what is encoded.
unfoldable pub completed : Params → List ℕ → List ℕ → Params
completed p class name = record p {
  parameter_list = parameter_codes p;
  user_class_value = class;
  fqdn_value = name;
}

encoded : Params → Result ParamError Machine
unfolding encoded_user_class encoded_fqdn fresh completed
encoded p = elim (encoded_user_class p) [
  | err e ↦ err e
  | stuck ↦ stuck
  | ok class ↦ elim (encoded_fqdn p) [
    | Result.err e ↦ err e
    | Result.stuck ↦ stuck
    | Result.ok name ↦ ok (fresh (completed p class name))
  ]
]

-- `New`.
unfoldable pub new : Params → Result ParamError Machine
unfolding encoded
new p = elim (validate_params p) [ some e ↦ err e | none ↦ encoded p ]

-- `Machine.Lease`: the lease with the nonce that is held beside it.
unfoldable pub lease_of : Machine → Option Lease
lease_of m = elim m.lease [
  | none ↦ none
  | some l ↦ elim m.fr [
    | none ↦ some l
    | some k ↦ some (record l { forcerenew_nonce = k.nonce; forcerenew_replay = k.floor })
  ]
]

-- The lease that is held, or the zero value.
abbrev pub held_lease : Machine → Lease
held_lease m = or_else m.lease zero_lease

-- The machine in the course of a step, with the actions that it has appended: the newest stands first.
pub record Run : Type 0 where
  pub machine : Machine
  pub out : List Action

-- One statement of a handler after another.
infixl 5 ◌▷◌
abbrev pub ◌▷◌ : Run → (Run → Run) → Run
r ▷ f = f r

-- An assignment to fields of the machine.
abbrev pub assigning : (Machine → Machine) → Run → Run
assigning f r = record r { machine = f r.machine }

-- `actions.stamp`, with `takeActionID`.
unfoldable pub stamp : ActionKind → Run → Run
stamp k r = record {
  machine = record r.machine { next_action = bump r.machine.next_action };
  out = record { id = r.machine.next_action; kind = k } ∷ r.out;
}

-- The other methods of `actions`.
abbrev pub send : Message → Dest → Run → Run
send msg dest = stamp (act_send msg dest)

abbrev pub set : TimerId → Duration → Run → Run
set t d = stamp (act_set_timer t d)

abbrev pub cancel : TimerId → Run → Run
cancel t = stamp (act_cancel_timer t)

abbrev pub journal : Run → Run
journal = stamp act_journal

abbrev pub failed : Reason → Run → Run
failed why = stamp (act_failed why)

cancel_each : List TimerId → Run → Run
cancel_each [] r = r
cancel_each (t ∷ ts) r = cancel_each ts (cancel t r)

-- `actions.cancelAll`.
unfoldable pub cancel_all : Run → Run
unfolding cancel_each
cancel_all r = cancel_each all_timer_ids r

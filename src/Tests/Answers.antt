-- ===== src/Tests/Answers.antt =====
-- What a client makes of single messages: an offer, a refusal, a conflict.
use dhcp_golib.Base.{
  List, ◌≡◌, ◌≢◌, ◌-◌, ◌+◌, refl, Bool, true, false, [], ◌∷◌, none, some, inl, inr, arith,
}
use dhcp_golib.Base.Int.{pos}
use dhcp_golib.Proto.Time.{seconds}
use dhcp_golib.Proto.Acd.{
  Acd, claimed, acd_step, ev_arp, acd_probing, conflict_wait, default_acd_params, conflict_rule,
}
use dhcp_golib.Proto.Backoff.{delay}
use dhcp_golib.Proto.Params.{Params, split, usable_4}
use dhcp_golib.Proto.Event.{
  ev_stop, ev_release, ev_received, ev_arp_received, state_init, state_selecting, state_requesting,
  state_bound, state_probing, TimerId, timer_restart, Dest,
}
use dhcp_golib.Proto.Machine.{Machine, fresh, completed, held_lease}
use dhcp_golib.Proto.Machine.Messages.{
  acceptable, request_of, reboot_of, renewal_of, as_4, held_or_probing,
}
use dhcp_golib.Proto.Machine.Step.{step, is_forcerenew}
use dhcp_golib.Proto.Machine.Promise.{fits, is_some}
use dhcp_golib.Proto.Machine.Endings.{
  sent, IsEnded, GivesBack, noted_only, stop_ends, release_ends, foreign_message_ignored,
}
use dhcp_golib.Proto.Machine.Requests.{identity, request_identities}
use dhcp_golib.Proto.Machine.Exchange.{offer_answered, Asks, Tick, retransmitted}
use dhcp_golib.Proto.Machine.Pacing.{armed_for, nak_waits}
use dhcp_golib.Proto.Machine.Declining.{conflict_declined, IsAbandoned}
use dhcp_golib.Wire.Message.{Message, invalid, ip4, msg_type, msg_request, is_unspecified}
use dhcp_golib.Wire.Option.{opt_server_id}
use dhcp_golib.Wire.Values.{addr4}
use dhcp_golib.Wire.Arp.{ArpPacket}
use dhcp_golib.Tests.Clients.{client, hw, reply, taken}

-- Every timer is armed.
abbrev all_armed : TimerId → Bool
all_armed t = true

abbrev pub holding : Machine
holding = record client { state = state_bound; lease = some taken }

stop_ends_example : IsEnded all_armed [] (step holding (seconds 9) 7 ev_stop)
stop_ends_example = stop_ends holding (seconds 9) 7 all_armed refl

release_ends_example :
    (messages : List (Message × Dest)) × IsEnded all_armed messages
      (step holding (seconds 9) 7 ev_release)
    × GivesBack (held_or_probing holding) messages
release_ends_example = release_ends holding (seconds 9) 7 all_armed refl

abbrev discovering : Machine
discovering = record client { state = state_selecting; xid = 5 }

plain : is_forcerenew (reply 6 2) ≡ false
unfolding msg_type dhcp_golib.Wire.Option.lookup
plain = refl

other_xid : 6 ≢ discovering.xid
other_xid e = absurd (omega (arith, e))

in_selecting : discovering.state ≡ state_selecting
in_selecting = refl

accepted_offer : acceptable discovering (some (reply 5 2)) ≡ some (reply 5 2)
unfolding acceptable msg_type dhcp_golib.Wire.Option.lookup dhcp_golib.Proto.Params.permits addr4
    fresh completed dhcp_golib.Proto.Params.default_params
accepted_offer = refl

offer_type : msg_type (reply 5 2) ≡ some 2
unfolding msg_type dhcp_golib.Wire.Option.lookup
offer_type = refl

prefers_no_ipv6 : discovering.params.ipv6_only_preferred ≡ false
unfolding fresh completed dhcp_golib.Proto.Params.default_params
prefers_no_ipv6 = refl

server_named : addr4 opt_server_id (reply 5 2).options ≡ some (ip4 10 0 0 1)
unfolding addr4 dhcp_golib.Wire.Option.lookup
server_named = refl

server_specified : is_unspecified (ip4 10 0 0 1) ≡ false
unfolding is_unspecified
server_specified = refl

foreign_message_ignored_example :
    step discovering (seconds 9) 7 (ev_received (some (reply 6 2)) [] invalid)
    ≡ noted_only discovering
foreign_message_ignored_example =
    foreign_message_ignored discovering (seconds 9) 7 (reply 6 2) [] invalid refl plain
      (inr (inl other_xid))

-- No answer comes until the timer has fired twice.
abbrev twice_silent : List Tick
twice_silent = record { now = seconds 13; rnd = 8 } ∷ record { now = seconds 21; rnd = 9 } ∷ []

offer_answered_example : Asks discovering (reply 5 2) (ip4 10 0 0 1) 2 (
    retransmitted
      (step discovering (seconds 9) 7 (ev_received (some (reply 5 2)) [] invalid))
      twice_silent)
unfolding is_unspecified fresh completed dhcp_golib.Proto.Params.default_params
offer_answered_example =
    offer_answered discovering (seconds 9) 7 (reply 5 2) [] invalid (ip4 10 0 0 1) twice_silent
      in_selecting accepted_offer offer_type prefers_no_ipv6 refl server_named server_specified
      (inr (omega arith))

-- Asking for the third time in a row, after two restarts.
abbrev asking : Machine
asking = record client { state = state_requesting; xid = 5; restarts = 2 }

accepted_nak : acceptable asking (some (reply 5 6)) ≡ some (reply 5 6)
unfolding acceptable msg_type dhcp_golib.Wire.Option.lookup dhcp_golib.Proto.Params.permits addr4
    fresh completed dhcp_golib.Proto.Params.default_params
accepted_nak = refl

nak_type : msg_type (reply 5 6) ≡ some 6
unfolding msg_type dhcp_golib.Wire.Option.lookup
nak_type = refl

some_restarts : asking.restarts ≢ 0
unfolding fresh completed
some_restarts = λ e. absurd (omega (arith, e))

asking-fits : fits asking.state (is_some asking.lease) (is_some asking.probing) ≡ true
unfolding fresh
asking-fits = refl

nak_waits_example :
    let r = step asking (seconds 9) 7 (ev_received (some (reply 5 6)) [] invalid) in
    (r.machine.state ≡ state_init)
    × (r.machine.lease ≡ none)
    × (r.machine.restarts ≡ asking.restarts + 1)
    × (sent r.out ≡ [])
    × (armed_for timer_restart r.out
        ≡ some (delay asking.params.discover (asking.restarts - 1) (split (split 7 1) 4)))
nak_waits_example =
    nak_waits asking (seconds 9) 7 (reply 5 6) [] invalid refl asking-fits accepted_nak nak_type
      some_restarts

request_identities_example :
    (identity (request_of discovering (seconds 9) (reply 5 2)) ≡ record {
      kind = some msg_request;
      requested = some (as_4 (ip4 10 0 0 9));
      server = some (as_4 (ip4 10 0 0 1));
      own = invalid;
    })
    × (identity (reboot_of discovering (seconds 9)) ≡ record {
      kind = some msg_request;
      requested = some (as_4 discovering.reboot_addr);
      server = none;
      own = invalid;
    })
    × (identity (renewal_of discovering (seconds 9)) ≡ record {
      kind = some msg_request;
      requested = none;
      server = none;
      own = (held_lease discovering).addr.addr;
    })
request_identities_example =
    request_identities discovering (seconds 9) (reply 5 2) (ip4 10 0 0 1) server_named

-- A check of the address of the lease, and a packet of another host that uses it.
abbrev pub check : Acd
check = record {
  params = default_acd_params;
  mode = conflict_wait;
  phase = acd_probing;
  addr = ip4 10 0 0 9;
  hw = hw;
  sent = 2;
  attempt_at = pos 5;
  conflicts = 0;
}

abbrev pub claim_packet : ArpPacket
claim_packet = record {
  op = 2;
  sender_hw = 2 ∷ 0 ∷ 0 ∷ 0 ∷ 0 ∷ 9 ∷ [];
  target_hw = [];
  sender_ip = ip4 10 0 0 9;
  target_ip = ip4 10 0 0 1;
}

abbrev pub checking : Machine
checking = record client { state = state_probing; acd = some check; probing = some taken }

pub packet_conflicts : conflict_rule check claim_packet ≡ some claimed
unfolding conflict_rule dhcp_golib.Proto.Acd.is_ours
packet_conflicts = refl

pub no_lease_yet : checking.lease ≡ none
unfolding fresh
no_lease_yet = refl

pub usable_address : usable_4 taken.addr.addr ≡ true
unfolding is_unspecified
usable_address = refl

pub usable_server : usable_4 taken.server_id ≡ true
unfolding is_unspecified
usable_server = refl

conflict_declined_example :
    IsAbandoned checking taken check
      (seconds 9)
      (step checking (seconds 9) 7 (ev_arp_received (some claim_packet)))
conflict_declined_example =
    conflict_declined checking (seconds 9) 7 taken check claim_packet claimed refl no_lease_yet refl
      refl refl packet_conflicts usable_address usable_server

-- ===== src/Tests/Clients.antt =====
-- A DHCPv4 client from its start to a lease, and what becomes of it.
use dhcp_golib.Base.{ℕ, ◌≡◌, ◌%◌, ◌^◌, ◌↔◌, refl, true, List, [], ◌∷◌, Option, none, some, ok, err}
use dhcp_golib.Base.Int.{pos}
use dhcp_golib.Proto.Time.{seconds}
use dhcp_golib.Proto.Acd.{conflict_off, validate_acd}
use dhcp_golib.Proto.Backoff.{validate}
use dhcp_golib.Proto.Lease.{Lease, expire}
use dhcp_golib.Proto.Params.{
  Params, default_params, split, validate_params, validate_hostname, ParamError,
}
use dhcp_golib.Proto.Event.{ev_start, ev_received, timer_retransmit, timer_expire}
use dhcp_golib.Proto.Machine.{Machine, new, fresh, completed}
use dhcp_golib.Proto.Machine.Creation.{new-refuses}
use dhcp_golib.Proto.Machine.Step.{step}
use dhcp_golib.Proto.Machine.Promise.{is_some, fits, awaits}
use dhcp_golib.Proto.Machine.Promise.Runs.{
  Input, watch_all, unstarted, lease_events_in_order, state_fits_lease, answer_timer_armed,
  expiry_timer_armed,
}
use dhcp_golib.Wire.Message.{invalid, ip4, Message}

abbrev pub hw : List ℕ
hw = 2 ∷ 0 ∷ 0 ∷ 0 ∷ 0 ∷ 1 ∷ []

-- Conflict detection is off, and the client does not wait before its first message.
abbrev pub chosen : Params
chosen = record (default_params hw) {
  conflict = conflict_off;
  desync_min = pos 0;
  desync_max = pos 0;
}

abbrev pub client : Machine
client = fresh (completed chosen [] [])

pub made : new chosen ≡ ok client
unfolding new default_params validate_params validate validate_acd validate_hostname
made = refl

-- A reply of the server 10.0.0.1 that offers or grants 10.0.0.9 for an hour.
abbrev pub reply : ℕ → ℕ → Message
reply xid kind = record {
  op = 2;
  htype = 1;
  hlen = 6;
  hops = 0;
  xid = xid;
  secs = 0;
  flags = 0;
  ciaddr = invalid;
  yiaddr = ip4 10 0 0 9;
  siaddr = invalid;
  giaddr = invalid;
  chaddr = hw;
  sname = [];
  file = [];
  options =
      (53, kind ∷ [])
      ∷ (54, 10 ∷ 0 ∷ 0 ∷ 1 ∷ [])
      ∷ (51, 0 ∷ 0 ∷ 14 ∷ 16 ∷ [])
      ∷ (1, 255 ∷ 255 ∷ 255 ∷ 0 ∷ [])
      ∷ [];
}

abbrev pub xid_of : ℕ → ℕ
xid_of rnd = split rnd 0 % 2 ^ 32

abbrev to_discover : List Input
to_discover = record { now = pos 0; rnd = 7; event = ev_start } ∷ []

abbrev to_bound : List Input
to_bound =
    record { now = pos 0; rnd = 7; event = ev_start }
    ∷ record {
      now = seconds 1;
      rnd = 8;
      event = ev_received (some (reply (xid_of 7) 2)) [] invalid;
    }
    ∷ record {
      now = seconds 2;
      rnd = 9;
      event = ev_received (some (reply (xid_of 7) 5)) [] invalid;
    }
    ∷ []

lease_events_in_order_example :
    ((watch_all (unstarted client) to_bound).orderly ≡ true)
    × ((watch_all (unstarted client) to_bound).client.held
        ≡ is_some (watch_all (unstarted client) to_bound).machine.lease)
lease_events_in_order_example = lease_events_in_order chosen client to_bound made

state_fits_lease_example :
    fits
      (watch_all (unstarted client) to_bound).machine.state
      (is_some (watch_all (unstarted client) to_bound).machine.lease)
      (is_some (watch_all (unstarted client) to_bound).machine.probing)
    ≡ true
state_fits_lease_example = state_fits_lease chosen client to_bound made

discovering : awaits (watch_all (unstarted client) to_discover).machine.state ≡ true
unfolding watch_all step fresh dhcp_golib.Proto.Machine.Step.step_stopped
    dhcp_golib.Proto.Machine.Acquire.begin_acquisition dhcp_golib.Proto.Machine.stamp completed
    default_params dhcp_golib.Proto.Params.desync dhcp_golib.Base.Int.◌-ℤ◌
discovering = refl

answer_timer_armed_example :
    (watch_all (unstarted client) to_discover).client.armed timer_retransmit ≡ true
answer_timer_armed_example = answer_timer_armed chosen client to_discover made discovering

-- The lease that the run leaves.
abbrev pub taken : Lease
taken = record {
  addr = record { addr = ip4 10 0 0 9; bits = 24 };
  server_id = ip4 10 0 0 1;
  router = [];
  routes = [];
  dns = [];
  domain = [];
  search = [];
  mtu = 0;
  start = seconds 1;
  lease_time = seconds 3600;
  t1 = pos 0;
  t2 = pos 0;
  options = (reply 0 5).options;
  forcerenew_nonce = [];
  forcerenew_replay = 0;
}

bound : (watch_all (unstarted client) to_bound).machine.lease ≡ some taken
unfolding watch_all step dhcp_golib.Wire.Message.msg_type dhcp_golib.Wire.Option.lookup fresh
    dhcp_golib.Proto.Machine.Step.step_stopped dhcp_golib.Proto.Machine.Acquire.begin_acquisition
    dhcp_golib.Proto.Machine.stamp completed default_params dhcp_golib.Proto.Params.desync
    dhcp_golib.Base.Int.◌-ℤ◌ dhcp_golib.Proto.Machine.Step.step_selecting
    dhcp_golib.Proto.Machine.Messages.acceptable split dhcp_golib.Proto.Params.permits
    dhcp_golib.Wire.Values.addr4 dhcp_golib.Proto.Machine.Answers.received_selecting
    dhcp_golib.Wire.Message.is_unspecified dhcp_golib.Proto.Machine.Step.step_requesting
    dhcp_golib.Proto.Machine.Answers.received_requesting
    dhcp_golib.Proto.Machine.Answers.refuses_rapid
    dhcp_golib.Proto.Machine.Forcerenew.refuses_ack_without_nonce
    dhcp_golib.Wire.Values.forcerenew_nonce_algorithms dhcp_golib.Proto.Lease.lease_from_ack
    dhcp_golib.Wire.Values.uint32 dhcp_golib.Proto.Machine.Holding.after_ack
    dhcp_golib.Proto.Lease.Notes.ack_noted dhcp_golib.Proto.Lease.mask_bits
    dhcp_golib.Wire.Routes.classless_routes dhcp_golib.Wire.Routes.classless_source
    dhcp_golib.Wire.Routes.static_routes dhcp_golib.Wire.Names.domain_search
    dhcp_golib.Proto.Machine.Answers.note_v6_only_kept dhcp_golib.Proto.Lease.deadlines
    dhcp_golib.Proto.Time.is_infinite dhcp_golib.Proto.Lease.granted
    dhcp_golib.Proto.Lease.take_domain_search dhcp_golib.Proto.Lease.take_routes
    dhcp_golib.Proto.Lease.take_static_routes dhcp_golib.Proto.Lease.base_lease
    dhcp_golib.Proto.Lease.valid_forcerenew_nonce dhcp_golib.Wire.Auth.forcerenew_auth_of
    dhcp_golib.Proto.Time.seconds_to_duration dhcp_golib.Wire.Bytes.ube32
    dhcp_golib.Proto.Lease.rebind_after dhcp_golib.Proto.Lease.renew_after dhcp_golib.Base.Int.◌+ℤ◌
    dhcp_golib.Proto.Machine.Messages.base_name dhcp_golib.Wire.Option.value
    dhcp_golib.Wire.Message.set_type dhcp_golib.Wire.Option.assign dhcp_golib.Wire.Values.addrs4
    dhcp_golib.Wire.Values.text dhcp_golib.Wire.Values.uint16
bound = refl

taken-expires : expire taken ≡ some (seconds 3601)
unfolding expire dhcp_golib.Proto.Time.is_infinite dhcp_golib.Base.Int.◌+ℤ◌
taken-expires = refl

expiry_timer_armed_example :
    (watch_all (unstarted client) to_bound).client.armed timer_expire ≡ true
expiry_timer_armed_example =
    expiry_timer_armed chosen client to_bound taken (seconds 3601) made bound taken-expires

new-refuses_example :
    ((e : ParamError) → (new chosen ≡ err e) ↔ (validate_params chosen ≡ some e))
    × (((m : Machine) × (new chosen ≡ ok m)) ↔ (validate_params chosen ≡ none))
new-refuses_example = new-refuses chosen

-- ===== src/Proto/Machine/Messages.antt =====
-- proto/machine.go: the messages that the machine builds, and which of those it receives it looks at.
use dhcp_golib.Base.{
  ℕ, ◌%◌, ◌^◌, Bool, true, false, ◌&&◌, not, List, [], ◌∷◌, ◌++◌, Option, none, some, if◌then◌else◌,
  ◌==◌, length,
}
use dhcp_golib.Base.Int.{pos, ltb_ℤ, leb_ℤ, pos_part}
use dhcp_golib.Proto.Time.{Duration, Instant, sub, is_infinite, whole_seconds}
use dhcp_golib.Proto.Lease.{Lease, or_else}
use dhcp_golib.Proto.Acd.{bytes_eq}
use dhcp_golib.Proto.Params.{Params, parameter_codes, mem_code, permits, usable_4}
use dhcp_golib.Proto.Machine.{Machine, zero_lease, held_lease}
use dhcp_golib.Wire.Bytes.{be32}
use dhcp_golib.Wire.Option.{
  Options, lookup, value, assign, opt_client_id, opt_fqdn, opt_host_name, opt_vendor_class_id,
  opt_user_class, opt_parameter_list, opt_ipv6_only_preferred, opt_forcerenew_nonce, opt_lease_time,
  opt_rapid_commit, opt_server_id, opt_requested_ip, opt_message,
}
use dhcp_golib.Wire.Message.{
  Addr, invalid, ip4, Message, msg_type, set_type, msg_decline, msg_release, msg_discover,
  msg_request,
}
use dhcp_golib.Wire.Values.{addr4, encode_forcerenew_nonce_capable, encode_rapid_commit}

abbrev pub boot_request : ℕ
boot_request = 1

abbrev pub boot_reply : ℕ
boot_reply = 2

abbrev pub htype_ethernet : ℕ
htype_ethernet = 1

abbrev pub flag_broadcast : ℕ
flag_broadcast = 0x8000

-- `Addr.As4`, where the address is IPv4, which each caller has tested.
abbrev pub as_4 : Addr → List ℕ
as_4 (ip4 a b c d) = a ∷ b ∷ c ∷ d ∷ []
as_4 _ = []

-- `msg.Options[c] = v`.
abbrev pub with_option : ℕ → List ℕ → Message → Message
with_option c v msg = record msg { options = assign c v msg.options }

-- The same under a test.
abbrev pub option_if : Bool → ℕ → List ℕ → Options → Options
option_if wanted c v o = if wanted then assign c v o else o

abbrev filled : List ℕ → Bool
filled v = not (length v == 0)

-- `Machine.secs`, a uint16.
unfoldable pub secs_field : Machine → Instant → ℕ
secs_field m now =
    let d = sub now m.started_at in
    let s = whole_seconds d in
    if not m.started
    then 0
    else if leb_ℤ d (pos 0)
    then 0
    else if ltb_ℤ (pos 65535) s
    then 65535
    else pos_part s

-- A message with no address and no file, under one type.
unfoldable pub blank_message : ℕ → ℕ → ℕ → List ℕ → ℕ → Message
blank_message xid secs flags chaddr t =
    set_type
      (record {
        op = boot_request;
        htype = htype_ethernet;
        hlen = 0;
        hops = 0;
        xid = xid;
        secs = secs;
        flags = flags;
        ciaddr = invalid;
        yiaddr = invalid;
        siaddr = invalid;
        giaddr = invalid;
        chaddr = chaddr;
        sname = [];
        file = [];
        options = [];
      })
      t

-- `base` up to the name: options 53, 61, and 81 or 12.
unfoldable pub named_options : Machine → Options → Options
named_options m o =
    let identified = option_if (filled m.params.client_id) opt_client_id m.params.client_id o in
    if filled m.params.fqdn_value
    then assign opt_fqdn m.params.fqdn_value identified
    else option_if (filled m.hostname) opt_host_name m.hostname identified

-- The value of option 55, with option 108 added where the client prefers IPv6-only.
unfoldable pub listed_codes : Params → List ℕ
listed_codes p =
    let b = parameter_codes p in
    if p.ipv6_only_preferred && not (mem_code opt_ipv6_only_preferred b)
    then b ++ opt_ipv6_only_preferred ∷ []
    else b

-- `uint32(d.Seconds())` in four octets.
abbrev lease_octets : Duration → List ℕ
lease_octets d = be32 (pos_part (whole_seconds d) % 2 ^ 32)

-- `base` behind the name: options 60, 77, 55, 145 and 51.
unfoldable pub asked_options : Params → Options → Options
unfolding listed_codes
asked_options p o =
    let vendor = option_if (filled p.vendor_class) opt_vendor_class_id p.vendor_class o in
    let class = option_if (filled p.user_class_value) opt_user_class p.user_class_value vendor in
    let codes = option_if (filled (parameter_codes p)) opt_parameter_list (listed_codes p) class in
    let nonce = assign opt_forcerenew_nonce encode_forcerenew_nonce_capable codes in
    let bounded = ltb_ℤ (pos 0) p.requested_lease && not (is_infinite p.requested_lease) in
    option_if bounded opt_lease_time (lease_octets p.requested_lease) nonce

-- The message of `base` with its name.
unfoldable pub base_named : Machine → Instant → ℕ → Message
unfolding blank_message named_options secs_field
base_named m now t =
    let flags = if m.params.broadcast then flag_broadcast else 0 in
    let msg = blank_message m.xid (secs_field m now) flags m.params.chaddr t in
    record msg { options = named_options m msg.options }

-- `base`: the message.
unfoldable pub base : Machine → Instant → ℕ → Message
unfolding base_named asked_options
base m now t =
    let msg = base_named m now t in record msg { options = asked_options m.params msg.options }

-- `base`: what it leaves in `nameOnWire`.
unfoldable pub base_name : Machine → Instant → ℕ → List ℕ
unfolding base_named
base_name m now t = value opt_host_name (base_named m now t).options

-- `terminalBase`.
unfoldable pub terminal_base : Params → ℕ → ℕ → Message
unfolding blank_message
terminal_base p t xid =
    let msg = blank_message xid 0 0 p.chaddr t in
    record msg { options = option_if (filled p.client_id) opt_client_id p.client_id msg.options }

-- "address already in use"
abbrev pub decline_message : List ℕ
decline_message =
    97 ∷ 100 ∷ 100 ∷ 114 ∷ 101 ∷ 115 ∷ 115 ∷ 32 ∷ 97 ∷ 108 ∷ 114 ∷ 101 ∷ 97 ∷ 100 ∷ 121 ∷ 32 ∷ 105
    ∷ 110 ∷ 32 ∷ 117 ∷ 115 ∷ 101 ∷ []

-- "no longer required"
abbrev pub release_message : List ℕ
release_message =
    110 ∷ 111 ∷ 32 ∷ 108 ∷ 111 ∷ 110 ∷ 103 ∷ 101 ∷ 114 ∷ 32 ∷ 114 ∷ 101 ∷ 113 ∷ 117 ∷ 105 ∷ 114
    ∷ 101 ∷ 100 ∷ []

-- `heldOrProbing`.
unfoldable pub held_or_probing : Machine → Lease
unfolding or_else
held_or_probing m = elim m.lease [ some l ↦ l | none ↦ or_else m.probing zero_lease ]

-- `terminalFields`: the address and the server, or none where there is no such message.
unfoldable pub terminal_fields : Machine → Option (Addr × Addr)
unfolding held_or_probing
terminal_fields m =
    let l = held_or_probing m in
    if not (usable_4 l.addr.addr)
    then none
    else if not (usable_4 l.server_id)
    then none
    else some (l.addr.addr, l.server_id)

-- The message of `sendDecline`.
unfoldable pub decline_of : Params → ℕ → Addr → Addr → Message
decline_of p xid addr sid = with_option opt_message decline_message (
    with_option opt_server_id (as_4 sid)
      (with_option opt_requested_ip (as_4 addr) (terminal_base p msg_decline xid)))

-- The message of `sendRelease`.
unfoldable pub release_of : Params → ℕ → Addr → Addr → Message
release_of p xid addr sid =
    let msg = record (terminal_base p msg_release xid) { ciaddr = addr } in
    with_option opt_message release_message (with_option opt_server_id (as_4 sid) msg)

-- The message of `sendDiscover`.
unfoldable pub discover_of : Machine → Instant → Message
discover_of m now =
    let msg = base m now msg_discover in
    let asked =
      option_if (usable_4 m.params.requested_ip) opt_requested_ip (as_4 m.params.requested_ip)
        msg.options in
    record msg {
      options = option_if m.params.rapid_commit opt_rapid_commit encode_rapid_commit asked;
    }

-- The message of `sendRequest`, for the offer it answers.
unfoldable pub request_of : Machine → Instant → Message → Message
request_of m now offer =
    let msg = with_option opt_requested_ip (as_4 offer.yiaddr) (base m now msg_request) in
    elim (addr4 opt_server_id offer.options) [
      | none ↦ msg
      | some sid ↦ with_option opt_server_id (as_4 sid) msg
    ]

-- The message of `sendRenewal`.
unfoldable pub renewal_of : Machine → Instant → Message
renewal_of m now = record (base m now msg_request) { ciaddr = (held_lease m).addr.addr }

-- The message of `sendReboot`.
unfoldable pub reboot_of : Machine → Instant → Message
reboot_of m now = with_option opt_requested_ip (as_4 m.reboot_addr) (base m now msg_request)

-- `chaddrMatches`.
unfoldable pub chaddr_matches : Machine → Message → Bool
chaddr_matches m msg = bytes_eq msg.chaddr m.params.chaddr

is_typed : Message → Bool
is_typed msg = elim (msg_type msg) [ none ↦ false | some t ↦ true ]

-- `acceptable`, on a message that is not nil: true where it returns it.
unfoldable pub accepts : Machine → Message → Bool
unfolding is_typed chaddr_matches
accepts m msg =
    if not (msg.op == boot_reply)
    then false
    else if not (is_typed msg)
    then false
    else if not (msg.xid == m.xid)
    then false
    else if not (permits m.params.servers (addr4 opt_server_id msg.options))
    then false
    else chaddr_matches m msg

-- `acceptable`: the message, or none where it is discarded with one note.
unfoldable pub acceptable : Machine → Option Message → Option Message
unfolding accepts
acceptable m none = none
acceptable m (some msg) = if accepts m msg then some msg else none

-- `hasRapidOption`.
unfoldable pub has_rapid_option : Option Message → Bool
has_rapid_option none = false
has_rapid_option (some msg) = elim (lookup opt_rapid_commit msg.options) [
  | none ↦ false
  | some v ↦ true
]

-- The type of a message, 0 where `Type` returns false.
abbrev pub type_of : Message → ℕ
type_of msg = elim (msg_type msg) [ none ↦ 0 | some t ↦ t ]

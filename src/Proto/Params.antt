-- ===== src/Proto/Params.antt =====
-- proto/params.go: the parameters of the DHCPv4 machine, their defaults and their validation, and
-- `split` of proto/backoff.go.
use Prim.Native.Nat.{bit_xor}
use dhcp_golib.Base.{
  ℕ, ◌+◌, ◌*◌, ◌/◌, ◌%◌, ◌^◌, Bool, true, false, ◌&&◌, ◌||◌, not, List, [], ◌∷◌, Option, none, some,
  if◌then◌else◌, ◌==◌, ltb, length, Result, ok, err, stuck,
}
use dhcp_golib.Base.Int.{pos, ◌+ℤ◌, ◌-ℤ◌, ltb_ℤ, leb_ℤ, pos_part, ℤ}
use dhcp_golib.Proto.Time.{Duration, Instant, seconds}
use dhcp_golib.Proto.Backoff.{Backoff, default_backoff, validate}
use dhcp_golib.Proto.Acd.{
  AcdParams, default_acd_params, is_zero_acd, validate_acd, ConflictMode, conflict_wait, addr_eq,
}
use dhcp_golib.Wire.Option.{
  opt_classless_static_rte, opt_ms_classless_static_rte, opt_router, opt_static_route,
  opt_subnet_mask, opt_dns_server, opt_domain_name, opt_domain_search, opt_interface_mtu,
  opt_broadcast_address, opt_ntp_server, opt_time_offset, opt_posix_timezone, opt_tz_database,
  opt_tftp_server, opt_bootfile_name, opt_wpad, opt_vendor_specific, opt_vivso, opt_rapid_commit,
  opt_ipv6_only_preferred,
}
use dhcp_golib.Wire.Message.{Addr, invalid, is_4, is_unspecified}
use dhcp_golib.Wire.Names.{encode_fqdn}
use dhcp_golib.Wire.UserClass.{encode_user_class}
use dhcp_golib.Wire.Values.{OptionError}

-- `split`: splitmix64, on words of 64 bits.
unfoldable pub split : ℕ → ℕ → ℕ
split rnd i =
    let z : ℕ = (rnd + 0x9E37_79B9_7F4A_7C15 * (i + 1)) % 2 ^ 64 in
    let y : ℕ = bit_xor z (z / 2 ^ 30) * 0xBF58_476D_1CE4_E5B9 % 2 ^ 64 in
    let x : ℕ = bit_xor y (y / 2 ^ 27) * 0x94D0_49BB_1331_11EB % 2 ^ 64 in bit_xor x (x / 2 ^ 31)

-- `Resume`: the expiry is an Option where the source has a value and a flag.
pub record Resume : Type 0 where
  pub addr : Addr
  pub expire : Option Instant

abbrev pub usable_4 : Addr → Bool
usable_4 a = is_4 a && not (is_unspecified a)

-- `Resume.live`, of a pointer that is not nil.
unfoldable pub live : Resume → Instant → Bool
live r now = if usable_4 r.addr then elim r.expire [ none ↦ true | some t ↦ ltb_ℤ now t ] else false

pub record ServerPolicy : Type 0 where
  pub allow : List Addr
  pub deny : List Addr

abbrev pub mem_addr : Addr → List Addr → Bool
mem_addr a [] = false
mem_addr a (b ∷ bs) = addr_eq b a || mem_addr a bs

-- `ServerPolicy.permits`: the identifier is none where the message carries none.
unfoldable pub permits : ServerPolicy → Option Addr → Bool
permits s none = length s.allow == 0
permits s (some sid) =
    if mem_addr sid s.deny then false else length s.allow == 0 || mem_addr sid s.allow

pub record Fqdn : Type 0 where
  pub name : List ℕ
  pub flags : ℕ  -- uint8

-- `FQDNFlagS | FQDNFlagE`.
abbrev pub default_fqdn_flags : ℕ
default_fqdn_flags = 5

-- `FQDN.flags`.
unfoldable pub fqdn_flags : Fqdn → ℕ
fqdn_flags f = if f.flags == 0 then default_fqdn_flags else f.flags

pub record Params : Type 0 where
  pub chaddr : List ℕ
  pub link_hw_addr : List ℕ
  pub client_id : List ℕ
  pub hostname : List ℕ
  pub vendor_class : List ℕ
  pub user_class : List (List ℕ)
  pub rapid_commit : Bool
  pub ipv6_only_preferred : Bool
  pub parameter_list : List ℕ
  pub requested_ip : Addr
  pub resume : Option Resume
  pub requested_lease : Duration
  pub broadcast : Bool
  pub discover : Backoff
  pub request : Backoff
  pub desync_min : Duration
  pub desync_max : Duration
  pub restart_delay : Duration
  pub max_send_failures : ℤ  -- int
  pub conflict : ConflictMode
  pub acd : AcdParams
  pub servers : ServerPolicy
  pub fqdn : Fqdn
  -- What `New` encodes of `fqdn` and of `user_class`: the source's fields fqdn and userClass.
  pub fqdn_value : List ℕ
  pub user_class_value : List ℕ

abbrev pub default_restart_delay : Duration
default_restart_delay = seconds 10

-- `DefaultParameterList`.
abbrev pub default_parameter_list : List ℕ
default_parameter_list =
    opt_classless_static_rte ∷ opt_ms_classless_static_rte ∷ opt_router ∷ opt_static_route
    ∷ opt_subnet_mask ∷ opt_dns_server ∷ opt_domain_name ∷ opt_domain_search ∷ opt_interface_mtu
    ∷ opt_broadcast_address ∷ opt_ntp_server ∷ opt_time_offset ∷ opt_posix_timezone
    ∷ opt_tz_database ∷ opt_tftp_server ∷ opt_bootfile_name ∷ opt_wpad ∷ opt_vendor_specific
    ∷ opt_vivso ∷ []

-- `DefaultParams`.
unfoldable pub default_params : List ℕ → Params
unfolding default_backoff default_acd_params
default_params chaddr = record {
  chaddr = chaddr;
  link_hw_addr = [];
  client_id = [];
  hostname = [];
  vendor_class = [];
  user_class = [];
  rapid_commit = false;
  ipv6_only_preferred = false;
  parameter_list = default_parameter_list;
  requested_ip = invalid;
  resume = none;
  requested_lease = pos 0;
  broadcast = true;
  discover = default_backoff;
  request = default_backoff;
  desync_min = seconds 1;
  desync_max = seconds 10;
  restart_delay = default_restart_delay;
  max_send_failures = pos 5;
  conflict = conflict_wait;
  acd = default_acd_params;
  servers = record { allow = []; deny = [] };
  fqdn = record { name = []; flags = 0 };
  fqdn_value = [];
  user_class_value = [];
}

pub data ParamError : Type 0 where
  no_chaddr chaddr_too_long bad_desync bad_restart_delay bad_backoff bad_resume bad_acd_params :
      ParamError
  bad_fqdn bad_user_class bad_rapid_commit bad_ipv6_only_preferred bad_hostname : ParamError

abbrev pub mem_code : ℕ → List ℕ → Bool
mem_code c [] = false
mem_code c (d ∷ ds) = d == c || mem_code c ds

all_printable : List ℕ → Bool
all_printable [] = true
all_printable (c ∷ cs) = not (ltb c 0x21 || ltb 0x7E c) && all_printable cs

-- `ValidateHostname`: true where it returns no error.
unfoldable pub validate_hostname : List ℕ → Bool
unfolding all_printable
validate_hostname name = length name == 0 || (not (ltb 255 (length name)) && all_printable name)

abbrev pub is_ok : Result OptionError (List ℕ) → Bool
is_ok (ok v) = true
is_ok (err e) = false
is_ok stuck = false

-- The first of some tests that holds.
unfoldable pub first_failure : List (Bool × ParamError) → Option ParamError
first_failure [] = none
first_failure ((failed, e) ∷ rest) = if failed then some e else first_failure rest

negative : Duration → Bool
negative d = ltb_ℤ d (pos 0)

resume_unusable : Option Resume → Bool
resume_unusable none = false
resume_unusable (some r) = not (usable_4 r.addr)

-- The tests of `Params.validate`, each with its error. A ConflictMode has no other value than its three.
unfoldable pub param_tests : Params → List (Bool × ParamError)
unfolding negative resume_unusable
param_tests p =
    (length p.chaddr == 0, no_chaddr)
    ∷ (ltb 16 (length p.chaddr), chaddr_too_long)
    ∷ (ltb 16 (length p.link_hw_addr), chaddr_too_long)
    ∷ (
      negative p.desync_min || negative p.desync_max || ltb_ℤ p.desync_max p.desync_min,
      bad_desync,
    )
    ∷ (negative p.restart_delay, bad_restart_delay)
    ∷ (not (validate p.discover), bad_backoff)
    ∷ (not (validate p.request), bad_backoff)
    ∷ (resume_unusable p.resume, bad_resume)
    ∷ (not (validate_acd p.acd), bad_acd_params)
    ∷ (
      not (length p.fqdn.name == 0) && not (is_ok (encode_fqdn (fqdn_flags p.fqdn) p.fqdn.name)),
      bad_fqdn,
    )
    ∷ (
      not (length p.user_class == 0) && not (is_ok (encode_user_class p.user_class)),
      bad_user_class,
    )
    ∷ (p.rapid_commit && mem_code opt_rapid_commit p.parameter_list, bad_rapid_commit)
    ∷ (
      not p.ipv6_only_preferred && mem_code opt_ipv6_only_preferred p.parameter_list,
      bad_ipv6_only_preferred,
    )
    ∷ (not (validate_hostname p.hostname), bad_hostname)
    ∷ []

-- `Params.validate`: the error, or none for nil.
unfoldable pub validate_params : Params → Option ParamError
unfolding first_failure param_tests
validate_params p = first_failure (param_tests p)

-- `Params.acd`.
unfoldable pub acd_params : Params → AcdParams
unfolding is_zero_acd default_acd_params
acd_params p = if is_zero_acd p.acd then default_acd_params else p.acd

-- `Params.restartDelay`.
unfoldable pub param_restart_delay : Params → Duration
param_restart_delay p =
    if leb_ℤ p.restart_delay (pos 0) then default_restart_delay else p.restart_delay

-- `Params.desync`: the span is positive where it is converted.
unfoldable pub desync : Params → ℕ → Duration
desync p rnd =
    let span = p.desync_max -ℤ p.desync_min in
    if leb_ℤ span (pos 0) then p.desync_min else p.desync_min +ℤ pos (rnd % (pos_part span + 1))

-- `Params.parameterList`.
unfoldable pub parameter_codes : Params → List ℕ
parameter_codes p =
    if length p.parameter_list == 0 then default_parameter_list else p.parameter_list

-- `Params.linkHW`.
unfoldable pub link_hw : Params → List ℕ
link_hw p = if ltb 0 (length p.link_hw_addr) then p.link_hw_addr else p.chaddr

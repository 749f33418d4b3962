-- ===== src/Proto/Lease.antt =====
-- proto/lease.go: the lease, its deadlines, and what an ACK grants.
pub mod Order
pub mod Granted
pub mod Equal
pub mod Notes
use dhcp_golib.Base.{
  ℕ, zero, suc, ◌+◌, ◌-◌, ◌*◌, ◌/◌, ◌%◌, ◌^◌, ◌&&◌, ◌||◌, not, List, [], ◌∷◌, ◌++◌, Option, none,
  some, if◌then◌else◌, ◌==◌, ltb, ok,
}
use dhcp_golib.Base.Int.{pos, ◌+ℤ◌, ltb_ℤ, leb_ℤ, scale, quot}
use dhcp_golib.Proto.Time.{Duration, Instant, add, is_infinite, seconds_to_duration}
use dhcp_golib.Wire.Option.{
  Options, clone, opt_lease_time, opt_subnet_mask, opt_server_id, opt_router, opt_dns_server,
  opt_domain_name, opt_interface_mtu, opt_renewal_time, opt_rebinding_time,
}
use dhcp_golib.Wire.Message.{Addr, invalid, ip4, is_4, is_unspecified, Message}
use dhcp_golib.Wire.Auth.{ForcerenewAuth, forcerenew_auth_of, forcerenew_type_nonce}
use dhcp_golib.Wire.Values.{addr4, addrs4, uint32, uint16, text}
use dhcp_golib.Wire.Routes.{Prefix, Route, on_link, is_default, classless_routes, static_routes}
use dhcp_golib.Wire.Names.{domain_search}

pub record Lease : Type 0 where
  pub addr : Prefix
  pub server_id : Addr
  pub router : List Addr
  pub routes : List Route
  pub dns : List Addr
  pub domain : List ℕ
  pub search : List (List ℕ)
  pub mtu : ℕ
  pub start : Instant
  pub lease_time : Duration
  pub t1 : Duration
  pub t2 : Duration
  pub options : Options
  pub forcerenew_nonce : List ℕ
  pub forcerenew_replay : ℕ

-- `Lease.Expire`.
unfoldable pub expire : Lease → Option Instant
expire l = if is_infinite l.lease_time then none else some (add l.start l.lease_time)

-- `Deadlines`: a deadline is an Option where the source has a value and a flag. The note is text for
-- the journal and is left out.
pub record Deadlines : Type 0 where
  pub renew : Option Instant
  pub rebind : Option Instant
  pub expire : Option Instant

-- T2, with the default of RFC 2131 section 4.4.5 where the server's is missing or too late.
unfoldable pub rebind_after : Lease → Duration
rebind_after l =
    let forever = is_infinite l.lease_time in
    let eighths = scale 7 (quot l.lease_time 8) in
    let wanted = if leb_ℤ l.t2 (pos 0) && not forever then eighths else l.t2 in
    if not forever && leb_ℤ l.lease_time wanted then eighths else wanted

-- T1, against the T2 that is used.
unfoldable pub renew_after : Lease → Duration → Duration
renew_after l rebind =
    let wanted =
      if leb_ℤ l.t1 (pos 0) && not (is_infinite l.lease_time) then quot l.lease_time 2 else l.t1 in
    if ltb_ℤ (pos 0) rebind && leb_ℤ rebind wanted then quot rebind 2 else wanted

after_if_positive : Instant → Duration → Option Instant
after_if_positive start d = if ltb_ℤ (pos 0) d then some (add start d) else none

-- `Lease.Deadlines`.
unfoldable pub deadlines : Lease → Deadlines
unfolding after_if_positive expire
deadlines l =
    let rebind = rebind_after l in
    if not (is_infinite l.lease_time) && leb_ℤ l.lease_time (pos 0)
    then record { renew = none; rebind = none; expire = expire l }
    else record {
      renew = after_if_positive l.start (renew_after l rebind);
      rebind = after_if_positive l.start rebind;
      expire = expire l;
    }

-- `Lease.Gateway`: a default route of the classless option that is not on-link, else the first router.
default_router : List Route → Option Addr
default_router [] = none
default_router (r ∷ rs) =
    if is_default r && not (on_link r) then some r.router else default_router rs

head_addr : List Addr → Option Addr
head_addr [] = none
head_addr (a ∷ as_) = some a

unfoldable pub gateway : Lease → Option Addr
unfolding default_router head_addr
gateway l = elim (default_router l.routes) [ none ↦ head_addr l.router | some a ↦ some a ]

-- `maskBits`: the count of leading ones, if nothing but zeroes follows.
leading_ones : ℕ → ℕ → ℕ → ℕ
leading_ones zero u n = n
leading_ones (suc left) u n =
    let rest = leading_ones left u (n + 1) in if u / 2 ^ (31 - n) % 2 == 1 then rest else n

unfoldable pub mask_bits : Addr → Option ℕ
unfolding leading_ones
mask_bits (ip4 a b c d) =
    let u = a * 2 ^ 24 + b * 2 ^ 16 + c * 2 ^ 8 + d in
    let n = leading_ones 32 u 0 in
    if ltb n 32 && not (u * 2 ^ n % 2 ^ 32 == 0) then none else some n
mask_bits _ = none

-- `validForcerenewNonce`.
unfoldable pub valid_forcerenew_nonce : Message → Option ForcerenewAuth
valid_forcerenew_nonce m = elim (forcerenew_auth_of m.options) [
  | ok (some a) ↦ if a.kind == forcerenew_type_nonce then some a else none
  | _ ↦ none
]

unfoldable pub or_else {ℓ} : {A : Type ℓ} → Option A → A → A
or_else none d = d
or_else (some a) d = a

-- `takeStaticRoutes`: on an error the routes stay as they were.
unfoldable pub take_static_routes : Options → Lease → Lease
take_static_routes o l = elim (static_routes o) [ ok rs ↦ record l { routes = rs } | _ ↦ l ]

-- `takeRoutes`: routes of the classless option supersede the router option.
unfoldable pub take_routes : Options → Lease → Lease
take_routes o l = elim (classless_routes o) [
  | ok [] ↦ take_static_routes o l
  | ok (r ∷ rs) ↦ record l { routes = r ∷ rs; router = [] }
  | _ ↦ take_static_routes o l
]

-- `takeDomainSearch`.
unfoldable pub take_domain_search : Options → Lease → Lease
take_domain_search o l = elim (domain_search o) [ ok names ↦ record l { search = names } | _ ↦ l ]

-- The prefix length from the subnet mask: 32 where it is absent or not contiguous.
prefix_bits : Option Addr → ℕ
unfolding or_else
prefix_bits none = 32
prefix_bits (some a) = or_else (mask_bits a) 32

-- The lease that `leaseFromAck` builds, for a lease time of `secs`, before its routes and its search list.
unfoldable pub base_lease : Message → Instant → ℕ → Lease
unfolding or_else prefix_bits
base_lease m sent_at secs =
    let o = m.options in
    let auth = valid_forcerenew_nonce m in
    record {
      addr = record { addr = m.yiaddr; bits = prefix_bits (addr4 opt_subnet_mask o) };
      server_id = or_else (addr4 opt_server_id o) invalid;
      router = or_else (addrs4 opt_router o) [];
      routes = [];
      dns = or_else (addrs4 opt_dns_server o) [];
      domain = or_else (text opt_domain_name o) [];
      search = [];
      mtu = or_else (uint16 opt_interface_mtu o) 0;
      start = sent_at;
      lease_time = seconds_to_duration secs;
      t1 = elim (uint32 opt_renewal_time o) [ none ↦ pos 0 | some t ↦ seconds_to_duration t ];
      t2 = elim (uint32 opt_rebinding_time o) [ none ↦ pos 0 | some t ↦ seconds_to_duration t ];
      options = clone o;
      forcerenew_nonce = elim auth [ none ↦ [] | some a ↦ a.nonce ];
      forcerenew_replay = elim auth [ none ↦ 0 | some a ↦ a.replay ];
    }

-- The lease with them.
unfoldable pub granted : Message → Instant → ℕ → Lease
granted m sent_at secs =
    take_domain_search m.options (take_routes m.options (base_lease m sent_at secs))

-- `leaseFromAck`, without the note for the journal.
unfoldable pub lease_from_ack : Message → Instant → Option Lease
lease_from_ack m sent_at =
    if not (is_4 m.yiaddr) || is_unspecified m.yiaddr
    then none
    else elim (uint32 opt_lease_time m.options) [
      | none ↦ none
      | some secs ↦ some (granted m sent_at secs)
    ]

-- ===== src/Proto/Lease/Notes.antt =====
-- proto/lease.go: whether Deadlines and leaseFromAck have a note for the journal. Its text is left out.
use dhcp_golib.Base.{
  Bool, true, false, ◌&&◌, ◌||◌, not, [], ◌∷◌, none, some, if◌then◌else◌, ◌==◌, length, ok,
}
use dhcp_golib.Base.Int.{pos, ltb_ℤ, leb_ℤ, scale, quot}
use dhcp_golib.Proto.Time.{is_infinite}
use dhcp_golib.Proto.Lease.{Lease, mask_bits, rebind_after, or_else}
use dhcp_golib.Wire.Option.{Options, lookup, opt_subnet_mask, opt_router, opt_static_route}
use dhcp_golib.Wire.Message.{Message}
use dhcp_golib.Wire.Values.{addr4, addrs4}
use dhcp_golib.Wire.Routes.{classless_routes, static_routes}
use dhcp_golib.Wire.Names.{domain_search}

-- `Deadlines.Note` is not empty: a T2 or a T1 was too late and has been replaced.
unfoldable pub clamped : Lease → Bool
clamped l =
    let forever = is_infinite l.lease_time in
    let wanted_t2 =
      if leb_ℤ l.t2 (pos 0) && not forever then scale 7 (quot l.lease_time 8) else l.t2 in
    let wanted_t1 = if leb_ℤ l.t1 (pos 0) && not forever then quot l.lease_time 2 else l.t1 in
    let rebind = rebind_after l in
    if not forever && leb_ℤ l.lease_time (pos 0)
    then false
    else (not forever && leb_ℤ l.lease_time wanted_t2)
      || (ltb_ℤ (pos 0) rebind && leb_ℤ rebind wanted_t1)

static_noted : Options → Bool
static_noted o = elim (static_routes o) [ ok rs ↦ false | _ ↦ true ]

-- The note of `takeRoutes`.
unfoldable pub routes_noted : Options → Bool
unfolding or_else static_noted
routes_noted o = elim (classless_routes o) [
  | ok [] ↦ static_noted o
  | ok (r ∷ rs) ↦
      not (length (or_else (addrs4 opt_router o) []) == 0)
      || elim (lookup opt_static_route o) as (λ v. Bool) [ none ↦ false | some v ↦ true ]
  | _ ↦ true
]

-- The note of `takeDomainSearch`.
unfoldable pub search_noted : Options → Bool
search_noted o = elim (domain_search o) [ ok names ↦ false | _ ↦ true ]

mask_noted : Options → Bool
mask_noted o = elim (addr4 opt_subnet_mask o) [
  | none ↦ false
  | some mask ↦ elim (mask_bits mask) [ none ↦ true | some n ↦ false ]
]

-- The note of `leaseFromAck`, where it returns a lease.
unfoldable pub ack_noted : Message → Bool
unfolding mask_noted routes_noted search_noted
ack_noted m = mask_noted m.options || routes_noted m.options || search_noted m.options

-- ===== src/Wire/Routes.antt =====
-- wire/values.go: the route options 121 (or 249) and 33.
pub mod Classless
use dhcp_golib.Base.{
  ℕ, zero, suc, ◌+◌, ◌-◌, ◌*◌, ◌/◌, ◌%◌, ◌^◌, min, Bool, true, false, ◌&&◌, ◌||◌, not, List, [],
  ◌∷◌, ◌++◌, Option, none, some, if◌then◌else◌, ◌==◌, ltb, length, take, drop, Result, ok, err,
  stuck,
}
use dhcp_golib.Wire.Option.{
  Options, lookup, opt_static_route, opt_classless_static_rte, opt_ms_classless_static_rte,
}
use dhcp_golib.Wire.Option.Map.{is_some}
use dhcp_golib.Wire.Message.{Addr, invalid, ip4, is_4, is_unspecified}
use dhcp_golib.Wire.Codec.{fit, get_addr}
use dhcp_golib.Wire.Values.{OptionError, malformed_routes}

-- `netip.Prefix`.
pub record Prefix : Type 0 where
  pub addr : Addr
  pub bits : ℕ

pub record Route : Type 0 where
  pub dest : Prefix
  pub router : Addr

-- `Prefix.Masked`, of an IPv4 prefix: octet `i` keeps its first `bits - 8 i` bits.
unfoldable pub mask_octet : ℕ → ℕ → ℕ → ℕ
mask_octet bits i x = let cut = 2 ^ (8 - min 8 (bits - 8 * i)) in x / cut * cut

mask_addr : ℕ → Addr → Addr
mask_addr bits (ip4 a b c d) =
    ip4 (mask_octet bits 0 a) (mask_octet bits 1 b) (mask_octet bits 2 c) (mask_octet bits 3 d)
mask_addr bits a = a

unfoldable pub masked : Prefix → Prefix
unfolding mask_addr
masked p = record p { addr = mask_addr p.bits p.addr }

is_valid : Addr → Bool
is_valid invalid = false
is_valid _ = true

-- `Route.OnLink` and `Route.IsDefault`.
unfoldable pub on_link : Route → Bool
unfolding is_valid
on_link r = not (is_valid r.router) || is_unspecified r.router

unfoldable pub is_default : Route → Bool
is_default r = r.dest.bits == 0 && is_4 r.dest.addr

-- `Options.ClasslessSource`: 249 only where 121 is absent.
unfoldable pub classless_source : Options → ℕ
classless_source o =
    if is_some (lookup opt_classless_static_rte o)
    then opt_classless_static_rte
    else if is_some (lookup opt_ms_classless_static_rte o)
    then opt_ms_classless_static_rte
    else opt_classless_static_rte

abbrev pub significant_octets : ℕ → ℕ
significant_octets width = (width + 7) / 8

-- One route of the value, at the significant octets of its destination.
unfoldable pub route_at : ℕ → List ℕ → Route
route_at width b =
    let sig = significant_octets width in
    record {
      dest = masked (record { addr = get_addr (fit 4 (take sig b)); bits = width });
      router = get_addr (drop sig b);
    }

-- The loop of `Options.ClasslessRoutes`, on what is left of the value.
unfoldable pub classless_loop : ℕ → List ℕ → List Route → Result OptionError (List Route)
classless_loop fuel [] out = ok out
classless_loop zero (width ∷ b) out = stuck
classless_loop (suc fuel) (width ∷ b) out =
    let sig = significant_octets width in
    let rest = classless_loop fuel (drop (sig + 4) b) (out ++ route_at width b ∷ []) in
    if ltb 32 width
    then err malformed_routes
    else if ltb (length b) (sig + 4)
    then err malformed_routes
    else rest

unfoldable pub classless_routes : Options → Result OptionError (List Route)
classless_routes o = elim (lookup (classless_source o) o) [
  | none ↦ ok []
  | some v ↦ if length v == 0 then err malformed_routes else classless_loop (length v) v []
]

-- The loop of `Options.StaticRoutes`, over pairs of eight octets.
unfoldable pub static_loop : List ℕ → List Route
static_loop (a ∷ b ∷ c ∷ d ∷ e ∷ f ∷ g ∷ h ∷ r) =
    record { dest = record { addr = ip4 a b c d; bits = 32 }; router = ip4 e f g h } ∷ static_loop r
static_loop _ = []

unfoldable pub static_routes : Options → Result OptionError (List Route)
static_routes o = elim (lookup opt_static_route o) [
  | none ↦ ok []
  | some v ↦
      if length v == 0 || not (length v % 8 == 0) then err malformed_routes else ok (static_loop v)
]

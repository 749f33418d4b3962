-- ===== src/Wire/Routes/Classless.antt =====
-- Option 121 against the format of RFC 3442: a width, the significant octets of the destination,
-- and the four octets of the router.
use dhcp_golib.Base.{
  ℕ, zero, suc, ◌+◌, ◌-◌, ◌*◌, ◌≤◌, ◌<◌, ◌≡◌, ◌≢◌, refl, sym, ap, ◌∙◌, List, [], ◌∷◌, ◌++◌, some,
  inl, inr, arith, length, take, drop, All, map, ok, stuck, append-nil, append_assoc, length-append,
  length-take, length-drop, take-append, drop-append, Option-cases, min, ap₂, drop-append_beyond,
  subst,
}
use Prim.Native.Nat.{◌^◌, ◌%◌}
use native.Mathlib.Nat.{div-add-mod'}
use dhcp_golib.Wire.Option.{Options, lookup}
use dhcp_golib.Wire.Message.{ip4}
use dhcp_golib.Wire.Codec.{fit, get_addr}
use dhcp_golib.Wire.Routes.{
  Prefix, Route, mask_octet, masked, significant_octets, route_at, classless_loop, classless_routes,
  classless_source,
}

-- A route as RFC 3442 describes it: a width and the octets of the destination and of the router.
pub record Descriptor : Type 0 where
  pub width : ℕ
  pub a : ℕ
  pub b : ℕ
  pub c : ℕ
  pub d : ℕ
  pub e : ℕ
  pub f : ℕ
  pub g : ℕ
  pub h : ℕ

-- The width is at most 32, and the octets of the destination are bytes.
pub record IsDescriptor (r : Descriptor) : Type 0 where
  pub width_fits : r.width ≤ 32
  pub a_byte : r.a < 256
  pub b_byte : r.b < 256
  pub c_byte : r.c < 256
  pub d_byte : r.d < 256

abbrev pub destination : Descriptor → List ℕ
destination r = r.a ∷ r.b ∷ r.c ∷ r.d ∷ []

abbrev pub gateway_octets : Descriptor → List ℕ
gateway_octets r = r.e ∷ r.f ∷ r.g ∷ r.h ∷ []

-- The octets of a route on the wire.
abbrev pub descriptor_bytes : Descriptor → List ℕ
descriptor_bytes r =
    r.width ∷ (take (significant_octets r.width) (destination r) ++ gateway_octets r)

abbrev pub descriptors_bytes : List Descriptor → List ℕ
descriptors_bytes [] = []
descriptors_bytes (r ∷ rs) = descriptor_bytes r ++ descriptors_bytes rs

-- The part of an octet that a prefix keeps: what stands behind the first `bits - 8 i` bits is taken off.
abbrev pub kept : ℕ → ℕ → ℕ → ℕ
kept bits i x = x - x % 2 ^ (8 - min 8 (bits - 8 * i))

-- The route that a descriptor stands for: the host bits of the destination are cleared.
abbrev pub route_of : Descriptor → Route
route_of r = record {
  dest = record {
    addr = ip4 (kept r.width 0 r.a) (kept r.width 1 r.b) (kept r.width 2 r.c) (kept r.width 3 r.d);
    bits = r.width;
  };
  router = ip4 r.e r.f r.g r.h;
}

mask_octet-kept : (bits i x : ℕ) → mask_octet bits i x ≡ kept bits i x
unfolding mask_octet
mask_octet-kept bits i x =
    let cut = 2 ^ (8 - min 8 (bits - 8 * i)) in omega (arith, div-add-mod' x cut)

-- Of an octet wholly behind the width nothing is kept.
kept_behind : (bits i x : ℕ) → bits ≤ 8 * i → x < 256 → kept bits i x ≡ 0
kept_behind bits i x h lt =
    let whole : 8 - min 8 (bits - 8 * i) ≡ 8 = omega arith in
    let gone : x - x % 256 ≡ 0 = omega (arith, lt) in ap (λ (k : ℕ). x - x % 2 ^ k) whole ∙ gone

-- So a zero in its place, as the filled up destination has it, does not change it.
mask_octet_behind : (bits i x : ℕ) → bits ≤ 8 * i → x < 256 → mask_octet bits i 0 ≡ kept bits i x
mask_octet_behind bits i x h lt =
    mask_octet-kept bits i 0
    ∙ kept_behind bits i 0 h (omega arith)
    ∙ sym (kept_behind bits i x h lt)

-- The significant octets, filled up with zeroes and masked, are the destination.
masked-significant :
    (r : Descriptor) (s : ℕ)
    → IsDescriptor r
    → significant_octets r.width ≡ s
    → masked (record { addr = get_addr (fit 4 (take s (destination r))); bits = r.width })
      ≡ (route_of r).dest
unfolding fit masked get_addr
masked-significant r zero k e = ground (
  arith,
  mask_octet_behind r.width 0 r.a,
  mask_octet_behind r.width 1 r.b,
  mask_octet_behind r.width 2 r.c,
  mask_octet_behind r.width 3 r.d,
)
masked-significant r (suc zero) k e = ground (
  arith,
  mask_octet-kept r.width 0 r.a,
  mask_octet_behind r.width 1 r.b,
  mask_octet_behind r.width 2 r.c,
  mask_octet_behind r.width 3 r.d,
)
masked-significant r (suc (suc zero)) k e = ground (
  arith,
  mask_octet-kept r.width 0 r.a,
  mask_octet-kept r.width 1 r.b,
  mask_octet_behind r.width 2 r.c,
  mask_octet_behind r.width 3 r.d,
)
masked-significant r (suc (suc (suc zero))) k e = ground (
  arith,
  mask_octet-kept r.width 0 r.a,
  mask_octet-kept r.width 1 r.b,
  mask_octet-kept r.width 2 r.c,
  mask_octet_behind r.width 3 r.d,
)
masked-significant r (suc (suc (suc (suc zero)))) k e = ground (
  arith,
  mask_octet-kept r.width 0 r.a,
  mask_octet-kept r.width 1 r.b,
  mask_octet-kept r.width 2 r.c,
  mask_octet-kept r.width 3 r.d,
)
masked-significant r (suc (suc (suc (suc (suc s))))) k e = absurd (omega arith)

-- `route_at` reads a route that is behind its width octet, with `t` behind it.
route_at-descriptor :
    (r : Descriptor) (t : List ℕ)
    → IsDescriptor r
    → route_at r.width
        (take (significant_octets r.width) (destination r) ++ (gateway_octets r ++ t))
      ≡ route_of r
unfolding route_at get_addr
route_at-descriptor r t k =
    let sig = significant_octets r.width in
    let len : length (take sig (destination r)) ≡ sig =
      omega (arith, length-take sig (destination r)) in
    rw
      (
        take-append sig (take sig (destination r)) (gateway_octets r ++ t) len,
        drop-append sig (take sig (destination r)) (gateway_octets r ++ t) len,
      )
      (ap (λ (p : Prefix). record { dest = p; router = ip4 r.e r.f r.g r.h })
        (masked-significant r sig k refl))

classless_loop_step :
    (fuel w : ℕ) (b : List ℕ) (out : List Route)
    → w ≤ 32
    → significant_octets w + 4 ≤ length b
    → classless_loop (suc fuel) (w ∷ b) out
      ≡ classless_loop fuel (drop (significant_octets w + 4) b) (out ++ route_at w b ∷ [])
unfolding classless_loop
classless_loop_step fuel w b out narrow fits = ground arith

classless_loop-descriptor :
    (fuel : ℕ) (r : Descriptor) (t : List ℕ) (out : List Route)
    → IsDescriptor r
    → classless_loop (suc fuel) (descriptor_bytes r ++ t) out
      ≡ classless_loop fuel t (out ++ route_of r ∷ [])
classless_loop-descriptor fuel r t out k =
    let sig = significant_octets r.width in
    let dest = take sig (destination r) in
    let len : length dest ≡ sig = omega (arith, length-take sig (destination r)) in
    rw (append_assoc dest (gateway_octets r) t) (
      classless_loop_step fuel r.width (dest ++ (gateway_octets r ++ t)) out k.width_fits
        (omega (arith, length-append dest (gateway_octets r ++ t)))
      ∙ ap₂ (λ u v. classless_loop fuel u (out ++ v ∷ []))
          (drop-append_beyond sig 4 (sig + 4) dest (gateway_octets r ++ t) len refl)
          (route_at-descriptor r t k))

classless_loop-descriptors :
    (fuel : ℕ) (rs : List Descriptor) (out : List Route)
    → All IsDescriptor rs
    → length (descriptors_bytes rs) ≤ fuel
    → classless_loop fuel (descriptors_bytes rs) out ≡ ok (out ++ map route_of rs)
classless_loop-descriptors fuel [] out k f = unfold classless_loop in ap ok (sym (append-nil out))
classless_loop-descriptors zero (r ∷ rs) out k f = absurd (omega arith)
classless_loop-descriptors (suc fuel) (r ∷ rs) out k f =
    classless_loop-descriptor fuel r (descriptors_bytes rs) out k.0
    ∙ classless_loop-descriptors fuel rs (out ++ route_of r ∷ []) k.1
        (omega (arith, length-append (descriptor_bytes r) (descriptors_bytes rs)))
    ∙ ap ok (append_assoc out (route_of r ∷ []) (map route_of rs))

-- One route or more laid out as RFC 3442 describes, with widths of at most 32, are read in their
-- order, each with its router and width and with its destination cleared of the bits behind the
-- width, which need not be zero on the wire.
pub classless_routes_read :
    (o : Options) (r : Descriptor) (rs : List Descriptor)
    → All IsDescriptor (r ∷ rs)
    → lookup (classless_source o) o ≡ some (descriptors_bytes (r ∷ rs))
    → classless_routes o ≡ ok (map route_of (r ∷ rs))
unfolding classless_routes
classless_routes_read o r rs k l =
    let b = descriptors_bytes (r ∷ rs) in
    ground (arith, l, classless_loop-descriptors (length b) (r ∷ rs) [] k (omega arith))

classless_loop-ne-stuck :
    (fuel : ℕ) (b : List ℕ) (out : List Route) → length b ≤ fuel → classless_loop fuel b out ≢ stuck
unfolding classless_loop
classless_loop-ne-stuck fuel [] out f = λ e. cc
classless_loop-ne-stuck zero (w ∷ b) out f = absurd (omega arith)
classless_loop-ne-stuck (suc fuel) (w ∷ b) out f = ground (
  arith,
  length-drop (significant_octets w + 4) b,
  classless_loop-ne-stuck fuel (drop (significant_octets w + 4) b) (out ++ route_at w b ∷ []),
)

-- A route's width, as RFC 3442 bounds it.
abbrev pub IsRoute : Route → Type 0
IsRoute r = r.dest.bits ≤ 32

route_at-IsRoute : (w : ℕ) (b : List ℕ) → w ≤ 32 → IsRoute (route_at w b)
unfolding route_at masked
route_at-IsRoute w b h = h

All-snoc : (rs : List Route) (r : Route) → All IsRoute rs → IsRoute r → All IsRoute (rs ++ r ∷ [])
All-snoc [] r h k = (k, tt)
All-snoc (x ∷ rs) r h k = (h.0, All-snoc rs r h.1 k)

classless_loop_inv :
    (fuel w : ℕ) (b : List ℕ) (out rs : List Route)
    → classless_loop (suc fuel) (w ∷ b) out ≡ ok rs
    → (w ≤ 32)
      × (classless_loop fuel (drop (significant_octets w + 4) b) (out ++ route_at w b ∷ []) ≡ ok rs)
unfolding classless_loop
classless_loop_inv fuel w b out rs e = ground arith

classless_loop_bounds :
    (fuel : ℕ) (b : List ℕ) (out rs : List Route)
    → All IsRoute out
    → classless_loop fuel b out ≡ ok rs
    → All IsRoute rs
classless_loop_bounds fuel [] out rs h e = unfold classless_loop in subst (All IsRoute) (cc) h
classless_loop_bounds zero (w ∷ b) out rs h e = unfold classless_loop in cc
classless_loop_bounds (suc fuel) (w ∷ b) out rs h e =
    let (narrow, rest) = classless_loop_inv fuel w b out rs e in
    classless_loop_bounds fuel (drop (significant_octets w + 4) b) (out ++ route_at w b ∷ []) rs
      (All-snoc out (route_at w b) h (route_at-IsRoute w b narrow)) rest

-- The reader ends on every set of options.
pub classless_routes-ne-stuck : (o : Options) → classless_routes o ≢ stuck
unfolding classless_routes
classless_routes-ne-stuck o = elim (Option-cases (lookup (classless_source o) o)) [
  | inl absent ↦ rw (absent, classless_routes) (λ e. cc)
  | inr (v, there) ↦ ground (arith, there, classless_loop-ne-stuck (length v) v [])
]

-- What the reader accepts has widths of at most 32 bits.
pub classless_routes-IsRoute :
    (o : Options) (rs : List Route) → classless_routes o ≡ ok rs → All IsRoute rs
unfolding classless_routes
classless_routes-IsRoute o rs e = elim (Option-cases (lookup (classless_source o) o)) [
  | inl absent ↦
      let none_read : [] ≡ rs = ground (arith, absent, e) in subst (All IsRoute) none_read tt
  | inr (v, there) ↦ classless_loop_bounds (length v) v [] rs tt (ground (arith, there, e))
]

-- ===== src/Wire/Vendor.antt =====
-- wire/values.go: the vendor-identifying option 125, Options.VendorIdentifying (RFC 3925).
use dhcp_golib.Base.{
  ℕ, zero, suc, ◌+◌, ◌-◌, ◌≤◌, ◌<◌, ◌^◌, ◌≡◌, ◌≢◌, refl, sym, ap, ap₂, ◌∙◌, inl, inr, List, [], ◌∷◌,
  ◌++◌, none, some, if◌then◌else◌, ltb, arith, length, drop, slice, get_or, Result, ok, err, stuck,
  All, append-nil, append_assoc, length-append, take-append, drop-append, length-drop, Option-cases,
}
use dhcp_golib.Wire.Bytes.{be32, ube32, ube32-be32}
use dhcp_golib.Wire.Option.{Options, lookup, opt_vivso}
use dhcp_golib.Wire.Values.{OptionError, malformed_vendor}

pub record VendorData : Type 0 where
  pub enterprise : ℕ
  pub content : List ℕ

-- One block at the head of `b`, with `n` octets of data.
block_at : ℕ → List ℕ → VendorData
block_at n b = record { enterprise = ube32 (slice 0 4 b); content = slice 5 (5 + n) b }

-- The loop, on what is left of the value. A round takes five octets at least.
unfoldable pub vendor_loop : ℕ → List ℕ → List VendorData → Result OptionError (List VendorData)
unfolding block_at
vendor_loop fuel [] out = ok out
vendor_loop zero (x ∷ t) out = stuck
vendor_loop (suc fuel) (x ∷ t) out =
    let b = x ∷ t in
    let n = get_or b 4 0 in
    let rest = vendor_loop fuel (drop (5 + n) b) (out ++ block_at n b ∷ []) in
    if ltb (length b) 5
    then err malformed_vendor
    else if ltb (length b) (5 + n)
    then err malformed_vendor
    else rest

unfoldable pub vendor_identifying : Options → Result OptionError (List VendorData)
vendor_identifying o = elim (lookup opt_vivso o) [
  | none ↦ ok []
  | some v ↦ vendor_loop (length v) v []
]

-- A block as RFC 3925 section 4 lays it out.
abbrev pub block_bytes : VendorData → List ℕ
block_bytes d = be32 d.enterprise ++ (length d.content ∷ d.content)

abbrev pub blocks_bytes : List VendorData → List ℕ
blocks_bytes [] = []
blocks_bytes (d ∷ ds) = block_bytes d ++ blocks_bytes ds

abbrev pub IsBlock : VendorData → Type 0
IsBlock d = (d.enterprise < 2 ^ 32) × (length d.content ≤ 255)

vendor_loop_step :
    (fuel x n : ℕ) (t : List ℕ) (out : List VendorData)
    → get_or (x ∷ t) 4 0 ≡ n
    → 5 + n ≤ length (x ∷ t)
    → vendor_loop (suc fuel) (x ∷ t) out
      ≡ vendor_loop fuel (drop (5 + n) (x ∷ t)) (out ++ block_at n (x ∷ t) ∷ [])
unfolding vendor_loop
vendor_loop_step fuel x n t out e fits = ground arith

block_at-block :
    (d : VendorData) (t : List ℕ) → IsBlock d → block_at (length d.content) (block_bytes d ++ t) ≡ d
unfolding block_at be32 ube32
block_at-block d t h = ground (
  arith,
  take-append (5 + length d.content - 5) d.content t (omega arith),
  ube32-be32 d.enterprise,
)

vendor_loop-block :
    (fuel : ℕ) (d : VendorData) (t : List ℕ) (out : List VendorData)
    → IsBlock d
    → vendor_loop (suc fuel) (block_bytes d ++ t) out ≡ vendor_loop fuel t (out ++ d ∷ [])
unfolding be32
vendor_loop-block fuel d t out h =
    vendor_loop_step fuel _ (length d.content) _ out refl (omega (arith, length-append d.content t))
    ∙ ap₂ (λ x y. vendor_loop fuel x (out ++ y ∷ []))
        (drop-append (5 + length d.content) (block_bytes d) t (omega arith)) (block_at-block d t h)

blocks_shorter :
    (d : VendorData) (ds : List VendorData)
    → length (blocks_bytes ds) < length (blocks_bytes (d ∷ ds))
unfolding be32
blocks_shorter d ds = omega (arith, length-append (block_bytes d) (blocks_bytes ds))

vendor_loop-blocks :
    (fuel : ℕ) (ds out : List VendorData)
    → All IsBlock ds
    → length (blocks_bytes ds) ≤ fuel
    → vendor_loop fuel (blocks_bytes ds) out ≡ ok (out ++ ds)
vendor_loop-blocks fuel [] out h f = unfold vendor_loop in ap ok (sym (append-nil out))
vendor_loop-blocks zero (d ∷ ds) out h f = absurd (omega (arith, blocks_shorter d ds))
vendor_loop-blocks (suc fuel) (d ∷ ds) out h f =
    vendor_loop-block fuel d (blocks_bytes ds) out h.0
    ∙ vendor_loop-blocks fuel ds (out ++ d ∷ []) h.1 (omega (arith, blocks_shorter d ds))
    ∙ ap ok (append_assoc out (d ∷ []) ds)

-- The blocks of RFC 3925 are read back in their order, whatever their enterprise numbers and data.
vendor_identifying_read :
    (o : Options) (ds : List VendorData)
    → All IsBlock ds
    → lookup opt_vivso o ≡ some (blocks_bytes ds)
    → vendor_identifying o ≡ ok ds
unfolding vendor_identifying
vendor_identifying_read o ds h l =
    rw (l, vendor_identifying) (vendor_loop-blocks (length (blocks_bytes ds)) ds [] h (omega arith))

vendor_loop-ne-stuck :
    (fuel : ℕ) (b : List ℕ) (out : List VendorData)
    → length b ≤ fuel
    → vendor_loop fuel b out ≢ stuck
unfolding vendor_loop
vendor_loop-ne-stuck fuel [] out f = λ e. cc
vendor_loop-ne-stuck zero (x ∷ t) out f = absurd (omega arith)
vendor_loop-ne-stuck (suc fuel) (x ∷ t) out f =
    let n = get_or (x ∷ t) 4 0 in
    ground (
      arith,
      length-drop (5 + n) (x ∷ t),
      vendor_loop-ne-stuck fuel (drop (5 + n) (x ∷ t)) (out ++ block_at n (x ∷ t) ∷ []),
    )

-- The reader ends on every set of options.
pub vendor_identifying-ne-stuck : (o : Options) → vendor_identifying o ≢ stuck
unfolding vendor_identifying
vendor_identifying-ne-stuck o = elim (Option-cases (lookup opt_vivso o)) [
  | inl absent ↦ rw (absent, vendor_identifying) (λ e. cc)
  | inr (v, there) ↦
      rw (there, vendor_identifying) (vendor_loop-ne-stuck (length v) v [] (omega arith))
]

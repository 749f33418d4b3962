-- ===== src/Wire/Codec/Parse.antt =====
-- `parseOptions` against a grammar of the options field: PAD octets and options, then an END with
-- anything behind it, or no END at all.
use dhcp_golib.Base.{
  ℕ, zero, suc, ◌≤◌, ◌≡◌, ◌≢◌, refl, ap, ◌∙◌, List, [], ◌∷◌, ◌++◌, Option, none, some, arith,
  length, take, drop, All, length-append, length-drop, drop-append, take-append, append_assoc, ok,
  stuck,
}
use dhcp_golib.Wire.Option.{Options, opt_pad, opt_end}
use dhcp_golib.Wire.Codec.{parse_loop, parse_options, append_value}

-- One item of the field.
pub data Item : Type 0 where
  pad : Item
  opt : ℕ → List ℕ → Item

abbrev pub IsItem : Item → Type 0
IsItem pad = Unit {0}
IsItem (opt c v) = (c ≢ opt_pad) × (c ≢ opt_end) × (length v ≤ 255)

abbrev pub item_bytes : Item → List ℕ
item_bytes pad = opt_pad ∷ []
item_bytes (opt c v) = c ∷ length v ∷ v

abbrev pub bytes_of : List Item → List ℕ
bytes_of [] = []
bytes_of (i ∷ is) = item_bytes i ++ bytes_of is

-- What stands behind the items.
abbrev pub tail_bytes : Option (List ℕ) → List ℕ
tail_bytes none = []
tail_bytes (some rest) = opt_end ∷ rest

-- What the items add to a map.
abbrev pub apply_item : Item → Options → Options
apply_item pad out = out
apply_item (opt c v) out = append_value c v out

abbrev pub apply_items : List Item → Options → Options
apply_items [] out = out
apply_items (i ∷ is) out = apply_items is (apply_item i out)

shorter :
    {fuel : ℕ} (v : List ℕ) (is : List Item) (t : Option (List ℕ))
    → suc (suc (length ((v ++ bytes_of is) ++ tail_bytes t))) ≤ suc fuel
    → length (bytes_of is ++ tail_bytes t) ≤ fuel
shorter v is t f = omega (
  arith,
  ap length (append_assoc v (bytes_of is) (tail_bytes t)),
  length-append v (bytes_of is ++ tail_bytes t),
)

-- One round of the loop.
pub parse_loop_pad :
    (fuel : ℕ) (b : List ℕ) (out : Options)
    → parse_loop (suc fuel) (opt_pad ∷ b) out ≡ parse_loop fuel b out
unfolding parse_loop
parse_loop_pad fuel [] out = refl
parse_loop_pad fuel (n ∷ b) out = refl

pub parse_loop_end :
    (fuel : ℕ) (b : List ℕ) (out : Options) → parse_loop (suc fuel) (opt_end ∷ b) out ≡ ok out
unfolding parse_loop
parse_loop_end fuel [] out = refl
parse_loop_end fuel (n ∷ b) out = refl

pub parse_loop_opt :
    (fuel c : ℕ) (v b : List ℕ) (out : Options)
    → c ≢ opt_pad
    → c ≢ opt_end
    → parse_loop (suc fuel) (c ∷ length v ∷ (v ++ b)) out ≡ parse_loop fuel b (append_value c v out)
unfolding parse_loop
parse_loop_opt fuel c v b out np ne =
    rw (drop-append (length v) v b refl, take-append (length v) v b refl)
      (ground (arith, length-append v b))

parse_loop-items :
    (fuel : ℕ) (is : List Item) (t : Option (List ℕ)) (out : Options)
    → All IsItem is
    → length (bytes_of is ++ tail_bytes t) ≤ fuel
    → parse_loop fuel (bytes_of is ++ tail_bytes t) out ≡ ok (apply_items is out)
parse_loop-items fuel [] none out h f = unfold parse_loop in refl
parse_loop-items zero [] (some rest) out h f = absurd (omega arith)
parse_loop-items (suc fuel) [] (some rest) out h f = parse_loop_end fuel rest out
parse_loop-items zero (pad ∷ is) t out h f = absurd (omega arith)
parse_loop-items (suc fuel) (pad ∷ is) t out h f =
    parse_loop_pad fuel _ out ∙ parse_loop-items fuel is t out h.1 (omega arith)
parse_loop-items zero (opt c v ∷ is) t out h f = absurd (omega arith)
parse_loop-items (suc fuel) (opt c v ∷ is) t out h f =
    rw (append_assoc v (bytes_of is) (tail_bytes t)) (
      parse_loop_opt fuel c v _ out h.0.0 h.0.1
      ∙ parse_loop-items fuel is t (append_value c v out) h.1 (shorter v is t f))

-- On a field of the grammar, `parseOptions` adds the items and nothing else.
pub parse_options-items :
    (is : List Item) (t : Option (List ℕ)) (out : Options)
    → All IsItem is
    → parse_options (bytes_of is ++ tail_bytes t) out ≡ ok (apply_items is out)
unfolding parse_options
parse_options-items is t out h = parse_loop-items _ is t out h (omega arith)

-- The loop never runs out of fuel.
parse_loop-ne-stuck :
    (fuel : ℕ) (b : List ℕ) (out : Options) → length b ≤ fuel → parse_loop fuel b out ≢ stuck
unfolding parse_loop
parse_loop-ne-stuck fuel [] out f = λ e. cc
parse_loop-ne-stuck zero (c ∷ b) out f = absurd (omega arith)
parse_loop-ne-stuck (suc fuel) (c ∷ []) out f =
    ground (arith, parse_loop-ne-stuck fuel [] out (omega arith))
parse_loop-ne-stuck (suc fuel) (c ∷ n ∷ b) out f = ground (
  arith,
  length-drop n b,
  parse_loop-ne-stuck fuel (n ∷ b) out (omega arith),
  parse_loop-ne-stuck fuel (drop n b) (append_value c (take n b) out),
)

pub parse_options-ne-stuck : (b : List ℕ) (out : Options) → parse_options b out ≢ stuck
unfolding parse_options
parse_options-ne-stuck b out = parse_loop-ne-stuck _ b out (omega arith)

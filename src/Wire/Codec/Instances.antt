-- ===== src/Wire/Codec/Instances.antt =====
-- What a run of items leaves in the map, by RFC 2131 section 4.1 and RFC 3396.
use dhcp_golib.Base.{
  Option, All, ok, ℕ, ◌≡◌, refl, sym, Bool, false, ◌||◌, List, [], ◌∷◌, ◌++◌, none, some, arith,
  if◌then◌else◌, ◌==◌, append-nil, append_assoc,
}
use dhcp_golib.Wire.Option.{Options, lookup, value, keys}
use dhcp_golib.Wire.Option.Map.{
  mem, value-assign, mem-keys-assign, mem-keys, Distinct, assign-Distinct,
}
use dhcp_golib.Wire.Codec.{append_value, parse_options}
use dhcp_golib.Wire.Codec.Parse.{
  Item, pad, opt, IsItem, bytes_of, tail_bytes, apply_items, parse_options-items,
}

-- The values of a code among the items, one behind the other.
abbrev pub values_of : ℕ → List Item → List ℕ
values_of c [] = []
values_of c (pad ∷ is) = values_of c is
values_of c (opt d v ∷ is) = if d == c then v ++ values_of c is else values_of c is

abbrev pub occurs : ℕ → List Item → Bool
occurs c [] = false
occurs c (pad ∷ is) = occurs c is
occurs c (opt d v ∷ is) = (d == c) || occurs c is

value-append_value :
    (c d : ℕ) (v : List ℕ) (out : Options)
    → value c (append_value d v out) ≡ (if d == c then value c out ++ v else value c out)
unfolding append_value
value-append_value c d v out = ground (arith, value-assign d c (value d out ++ v) out)

mem-append_value :
    (c d : ℕ) (v : List ℕ) (out : Options)
    → mem c (keys (append_value d v out)) ≡ ((d == c) || mem c (keys out))
unfolding append_value
mem-append_value c d v out = mem-keys-assign d c (value d out ++ v) out

value_nil : (c : ℕ) → value c [] ≡ []
unfolding value lookup
value_nil c = refl

-- The instances of a code are concatenated.
pub value-apply_items :
    (c : ℕ) (is : List Item) (out : Options)
    → value c (apply_items is out) ≡ value c out ++ values_of c is
value-apply_items c [] out = sym (append-nil _)
value-apply_items c (pad ∷ is) out = value-apply_items c is out
value-apply_items c (opt d v ∷ is) out = ground (
  arith,
  value-apply_items c is (append_value d v out),
  value-append_value c d v out,
  append_assoc (value c out) v (values_of c is),
)

pub mem-apply_items :
    (c : ℕ) (is : List Item) (out : Options)
    → mem c (keys (apply_items is out)) ≡ (mem c (keys out) || occurs c is)
mem-apply_items c [] out = ground arith
mem-apply_items c (pad ∷ is) out = mem-apply_items c is out
mem-apply_items c (opt d v ∷ is) out =
    ground (arith, mem-apply_items c is (append_value d v out), mem-append_value c d v out)

-- A map's value, from the two.
pub lookup_of_parts :
    (c : ℕ) (o : Options) → lookup c o ≡ (if mem c (keys o) then some (value c o) else none)
unfolding value
lookup_of_parts c o = ground (arith, mem-keys c o)

pub apply_items-Distinct :
    (is : List Item) (out : Options) → Distinct (keys out) → Distinct (keys (apply_items is out))
apply_items-Distinct [] out h = h
apply_items-Distinct (pad ∷ is) out h = apply_items-Distinct is out h
apply_items-Distinct (opt d v ∷ is) out h =
    apply_items-Distinct is (append_value d v out)
      (unfold append_value in assign-Distinct d (value d out ++ v) out h)

-- The map that the items leave in an empty one.
pub lookup-apply_items :
    (c : ℕ) (is : List Item)
    → lookup c (apply_items is []) ≡ (if occurs c is then some (values_of c is) else none)
lookup-apply_items c is = ground (
  arith,
  lookup_of_parts c (apply_items is []),
  mem-apply_items c is [],
  value-apply_items c is [],
  value_nil c,
)

-- On a field of the grammar, `parseOptions` succeeds from an empty map, and a code has an entry exactly
-- when an item of it occurs: the values of its items, concatenated in their order (RFC 3396).
pub lookup-parse_options :
    (is : List Item) (t : Option (List ℕ))
    → All IsItem is
    → (o : Options) × (parse_options (bytes_of is ++ tail_bytes t) [] ≡ ok o)
      × ((c : ℕ) → lookup c o ≡ (if occurs c is then some (values_of c is) else none))
lookup-parse_options is t h =
    (apply_items is [], parse_options-items is t [] h, λ c. lookup-apply_items c is)

-- ===== src/Wire/Codec/Encode.antt =====
-- What `Encode` writes behind the header: an item for each code but PAD and END, in ascending order.
use dhcp_golib.Base.{
  ℕ, ◌≤◌, ◌<◌, ◌≡◌, refl, Bool, true, false, ◌||◌, List, [], ◌∷◌, ◌++◌, arith, if◌then◌else◌, ◌==◌,
  length, All, append-nil, append_assoc, ok, err,
}
use dhcp_golib.Wire.Option.{Options, value, opt_pad, opt_end}
use dhcp_golib.Wire.Option.Map.{mem}
use dhcp_golib.Wire.Option.Order.{IsAscending, mem-below}
use dhcp_golib.Wire.Codec.{encode_options, option_too_long}
use dhcp_golib.Wire.Codec.Parse.{Item, opt, IsItem, bytes_of}
use dhcp_golib.Wire.Codec.Instances.{values_of, occurs}

-- PAD and END are framing, and never content.
abbrev pub is_framing : ℕ → Bool
is_framing c = c == opt_pad || c == opt_end

pub items_of : List ℕ → Options → List Item
items_of [] o = []
items_of (c ∷ cs) o = if is_framing c then items_of cs o else opt c (value c o) ∷ items_of cs o

module _ (o : Options) (fits : (c : ℕ) → is_framing c ≡ false → length (value c o) ≤ 255) where
  pub encode_options-items :
      (cs buf : List ℕ) → encode_options cs o buf ≡ ok (buf ++ bytes_of (items_of cs o))
  unfolding encode_options items_of
  encode_options-items [] buf = rw append-nil
  encode_options-items (c ∷ cs) buf = ground (
    arith,
    fits c,
    encode_options-items cs buf,
    encode_options-items cs (buf ++ c ∷ length (value c o) ∷ value c o),
    append_assoc buf (c ∷ length (value c o) ∷ value c o) (bytes_of (items_of cs o)),
  )

  pub items_of-All : (cs : List ℕ) → All IsItem (items_of cs o)
  unfolding items_of
  items_of-All [] = tt
  items_of-All (c ∷ cs) = ground (arith, fits c, items_of-All cs)

-- A value that is too long is refused, whatever stands before it.
pub encode_options_too_long :
    (c : ℕ) (cs buf : List ℕ) (o : Options)
    → mem c cs ≡ true
    → is_framing c ≡ false
    → 255 < length (value c o)
    → encode_options cs o buf ≡ err option_too_long
unfolding encode_options
encode_options_too_long c [] buf o m f h = cc
encode_options_too_long c (d ∷ cs) buf o m f h = ground (
  arith,
  encode_options_too_long c cs buf o,
  encode_options_too_long c cs (buf ++ d ∷ length (value d o) ∷ value d o) o,
)

pub occurs-items_of :
    (c : ℕ) (cs : List ℕ) (o : Options) → is_framing c ≡ false → occurs c (items_of cs o) ≡ mem c cs
unfolding items_of
occurs-items_of c [] o f = refl
occurs-items_of c (d ∷ cs) o f = ground (arith, occurs-items_of c cs o)

pub values_of-items_of :
    (c : ℕ) (cs : List ℕ) (o : Options)
    → is_framing c ≡ false
    → IsAscending cs
    → values_of c (items_of cs o) ≡ (if mem c cs then value c o else [])
unfolding items_of
values_of-items_of c [] o f a = refl
values_of-items_of c (d ∷ cs) o f a =
    ground (arith, values_of-items_of c cs o f a.1, mem-below d cs a.0, append-nil (value c o))

pub framing_occurs :
    (c : ℕ) (cs : List ℕ) (o : Options) → is_framing c ≡ true → occurs c (items_of cs o) ≡ false
unfolding items_of
framing_occurs c [] o f = refl
framing_occurs c (d ∷ cs) o f = ground (arith, framing_occurs c cs o f)

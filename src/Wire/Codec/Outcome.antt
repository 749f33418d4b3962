-- ===== src/Wire/Codec/Outcome.antt =====
-- Which results `Encode` and `Decode` have, on every input.
use dhcp_golib.Base.{
  ℕ, ◌≤◌, ◌<◌, ◌≡◌, ◌≢◌, refl, ◌∙◌, Bool, true, false, List, [], ◌∷◌, ◌++◌, arith, if◌then◌else◌,
  length, replicate, length-append, Result, ok, err, stuck, ltb, slice, length-replicate, ◌-◌,
  ◌>>=◌,
}
use dhcp_golib.Wire.Option.{Options, value, keys, codes, lookup, opt_end, opt_pad}
use dhcp_golib.Wire.Option.Map.{mem, Distinct, is_some, value_of_lookup, mem-keys}
use dhcp_golib.Wire.Option.Order.{codes_ext, mem-sort_codes}
use dhcp_golib.Wire.Message.{Message}
use dhcp_golib.Wire.Codec.{
  encode, decode, decode_body, read_field, header, encode_options, pad_message, CodecError, short,
  bad_cookie, is_cookie, chaddr_too_long, option_too_long,
}
use dhcp_golib.Wire.Codec.Parse.{bytes_of, parse_options-ne-stuck}
use dhcp_golib.Wire.Codec.Encode.{
  is_framing, items_of, encode_options-items, encode_options_too_long,
}

read_field-ne-stuck : (t : Bool) (b : List ℕ) (o : Options) → read_field t b o ≢ stuck
unfolding read_field
read_field-ne-stuck true b o = ground (arith, parse_options-ne-stuck b o)
read_field-ne-stuck false b o = λ e. cc

bind-ne-stuck {ℓ κ} :
    {A : Type ℓ} {B : Type κ} (r : Result CodecError A) (f : A → Result CodecError B)
    → r ≢ stuck
    → ((a : A) → f a ≢ stuck)
    → (r >>= f) ≢ stuck
bind-ne-stuck (ok a) f h k = k a
bind-ne-stuck (err e) f h k = λ q. cc
bind-ne-stuck stuck f h k = absurd (h refl)

ok-ne-stuck {ℓ} : {A : Type ℓ} (a : A) → ◌≢◌ {A = Result CodecError A} (ok a) stuck
ok-ne-stuck a e = cc

decode_body-ne-stuck : (b : List ℕ) → decode_body b ≢ stuck
unfolding decode_body
decode_body-ne-stuck b = bind-ne-stuck _ _ (parse_options-ne-stuck _ _) (λ o.
    bind-ne-stuck _ _ (read_field-ne-stuck _ _ _)
      (λ p. bind-ne-stuck _ _ (read_field-ne-stuck _ _ _) (λ q. ok-ne-stuck _)))

-- `Decode` ends on every input, with a message or with an error.
pub decode-ne-stuck : (b : List ℕ) → decode b ≢ stuck
unfolding decode
decode-ne-stuck b = checked (ltb (length b) 240) (is_cookie (slice 236 240 b))
  where
    checked :
        (short_ good : Bool)
        → (if short_ then err short else if good then decode_body b else err bad_cookie) ≢ stuck
    checked true good = λ e. cc
    checked false true = decode_body-ne-stuck b
    checked false false = λ e. cc

-- A message whose hardware address is too long is refused.
pub encode_long_chaddr : (m : Message) → 16 < length m.chaddr → encode m ≡ err chaddr_too_long
unfolding encode
encode_long_chaddr m h = ground arith

value-lookup : (c : ℕ) (o : Options) → 0 < length (value c o) → is_some (lookup c o) ≡ true
unfolding value
value-lookup c o h = ground arith

-- A message one of whose options is longer than a length octet counts is refused, whatever stands
-- before that option: nothing is truncated and nothing of it is written.
pub encode_long_option :
    (m : Message) (c : ℕ)
    → length m.chaddr ≤ 16
    → is_framing c ≡ false
    → 255 < length (value c m.options)
    → encode m ≡ err option_too_long
unfolding encode
encode_long_option m c fits f long =
    ground (arith, encode_options_too_long c (codes m.options) (header m) m.options (found) f long)
  where
    found : mem c (codes m.options) ≡ true
    found =
        unfold codes in
        (mem-sort_codes c (keys m.options)
          ∙ mem-keys c m.options
          ∙ value-lookup c m.options (omega arith))

length-pad_message : (b : List ℕ) → 300 ≤ length (pad_message b)
unfolding pad_message
length-pad_message b = omega (
  arith,
  length-append b (replicate (300 - length b) opt_pad),
  length-replicate {A = ℕ} (300 - length b) opt_pad,
)

-- Every other message is written, in 300 octets at least.
encode_succeeds :
    (m : Message)
    → length m.chaddr ≤ 16
    → ((c : ℕ) → is_framing c ≡ false → length (value c m.options) ≤ 255)
    → (b : List ℕ) × (encode m ≡ ok b) × (300 ≤ length b)
unfolding encode
encode_succeeds m chaddr values =
    let body = header m ++ bytes_of (items_of (codes m.options) m.options) in
    (
      pad_message (body ++ opt_end ∷ []),
      ground (arith, encode_options-items m.options values (codes m.options) (header m)),
      length-pad_message (body ++ opt_end ∷ []),
    )

header_options : (m : Message) (o : Options) → header (record m { options = o }) ≡ header m
unfolding header
header_options m o = refl

-- The bytes do not depend on the order in which the map is iterated.
encode_options_ext :
    (o p : Options)
    → ((c : ℕ) → lookup c o ≡ lookup c p)
    → (cs buf : List ℕ) → encode_options cs o buf ≡ encode_options cs p buf
unfolding encode_options
encode_options_ext o p same [] buf = refl
encode_options_ext o p same (c ∷ cs) buf = ground (
  arith,
  value_of_lookup c o p (same c),
  encode_options_ext o p same cs buf,
  encode_options_ext o p same cs (buf ++ c ∷ length (value c p) ∷ value c p),
)

-- `Encode` is deterministic: two maps with the same values give the same bytes, in whatever order
-- Go iterates over them.
pub encode_deterministic :
    (m : Message) (o : Options)
    → Distinct (keys m.options)
    → Distinct (keys o)
    → ((c : ℕ) → lookup c m.options ≡ lookup c o)
    → encode (record m { options = o }) ≡ encode m
unfolding encode
encode_deterministic m o dm do_ same = ground (
  arith,
  codes_ext m.options o dm do_ same,
  encode_options_ext m.options o same (codes o) (header m),
  header_options m o,
)

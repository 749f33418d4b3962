-- ===== src/Tests/Messages.antt =====
-- Messages and packets.
use dhcp_golib.Base.{
  ℕ, ◌≡◌, ◌≤◌, ◌<◌, refl, List, [], ◌∷◌, ◌++◌, none, some, length, arith, ok, if◌then◌else◌,
  replicate,
}
use dhcp_golib.Wire.Option.{Options, lookup, value, assign}
use dhcp_golib.Wire.Message.{Message, ip4}
use dhcp_golib.Wire.Codec.{
  encode, decode, parse_options, append_value, overload, file_overloaded, sname_overloaded,
}
use dhcp_golib.Wire.Codec.Parse.{Item, pad, opt, bytes_of, tail_bytes}
use dhcp_golib.Wire.Codec.Grammar.{Parsed, parse_options-Parsed}
use dhcp_golib.Wire.Codec.Instances.{occurs, values_of, lookup-parse_options}
use dhcp_golib.Wire.Codec.RoundTrip.{IsEncodable, ReadBack, decode-encode}
use dhcp_golib.Wire.Codec.Outcome.{encode_deterministic}

-- A DISCOVER with its options.
abbrev discover_with : Options → Message
discover_with o = record {
  op = 1;
  htype = 1;
  hlen = 6;
  hops = 0;
  xid = 0x1234;
  secs = 3;
  flags = 0x8000;
  ciaddr = ip4 0 0 0 0;
  yiaddr = ip4 0 0 0 0;
  siaddr = ip4 0 0 0 0;
  giaddr = ip4 0 0 0 0;
  chaddr = 2 ∷ 0 ∷ 0 ∷ 0 ∷ 0 ∷ 1 ∷ [];
  sname = [];
  file = [];
  options = o;
}

abbrev asked : Options
asked = (55, 1 ∷ 3 ∷ []) ∷ (53, 1 ∷ []) ∷ []

abbrev asked_again : Options
asked_again = (53, 1 ∷ []) ∷ (55, 1 ∷ 3 ∷ []) ∷ []

abbrev discover : Message
discover = discover_with asked

asked_small : (c : ℕ) → length (value c asked) ≤ 255
unfolding value lookup
asked_small c = ground arith

discover-IsEncodable : IsEncodable discover
unfolding overload file_overloaded sname_overloaded value lookup
discover-IsEncodable = record {
  xid_fits = omega arith;
  secs_fits = omega arith;
  flags_fits = omega arith;
  chaddr_fits = omega arith;
  sname_fits = omega arith;
  sname_text = tt;
  file_fits = omega arith;
  file_text = tt;
  keys_distinct = (refl, (refl, tt));
  values_fit = λ c f. asked_small c;
  no_file_overload = refl;
  no_sname_overload = refl;
}

decode-encode_example :
    (b : List ℕ) × (m' : Message) × (encode discover ≡ ok b)
    × (decode b ≡ ok m')
    × ReadBack discover m'
decode-encode_example = decode-encode discover discover-IsEncodable

asked_same : (c : ℕ) → lookup c asked ≡ lookup c asked_again
unfolding lookup
asked_same c = ground arith

encode_deterministic_example : encode (discover_with asked_again) ≡ encode discover
encode_deterministic_example =
    encode_deterministic discover asked_again (refl, (refl, tt)) (refl, (refl, tt)) asked_same

abbrev swollen : Options
swollen = (55, replicate 256 1) ∷ []

swollen_long : 255 < length (value 55 swollen)
unfolding value lookup
swollen_long = omega arith

-- A router option in two parts, with a PAD between them.
abbrev parts : List Item
parts = opt 3 (10 ∷ 0 ∷ []) ∷ pad ∷ opt 3 (0 ∷ 1 ∷ []) ∷ []

lookup-parse_options_example :
    (o : Options) × (parse_options (bytes_of parts ++ tail_bytes (some [])) [] ≡ ok o)
    × ((c : ℕ) → lookup c o ≡ (if occurs c parts then some (values_of c parts) else none))
lookup-parse_options_example = lookup-parse_options parts (some []) (
  (λ e. omega arith, λ e. omega arith, omega arith),
  (tt, ((λ e. omega arith, λ e. omega arith, omega arith), tt)),
)

abbrev field : List ℕ
field = 53 ∷ 1 ∷ 5 ∷ 255 ∷ 7 ∷ []

field_read : parse_options field [] ≡ ok ((53, 5 ∷ []) ∷ [])
unfolding parse_options append_value value lookup assign
field_read = refl

parse_options-Parsed_example : Parsed field [] ((53, 5 ∷ []) ∷ [])
parse_options-Parsed_example =
    parse_options-Parsed field [] ((53, 5 ∷ []) ∷ [])
      (omega arith, (omega arith, (omega arith, (omega arith, (omega arith, tt))))) field_read

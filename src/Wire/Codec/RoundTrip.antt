-- ===== src/Wire/Codec/RoundTrip.antt =====
-- `Decode` after `Encode`.
use dhcp_golib.Base.{
  ℕ, ◌-◌, ◌≤◌, ◌<◌, ◌^◌, ◌≡◌, refl, ap, ◌∙◌, true, false, List, [], ◌∷◌, ◌++◌, arith, if◌then◌else◌,
  length, replicate, append_assoc, ok, none, some, slice, le→ltb,
}
use dhcp_golib.Wire.Option.{Options, value, keys, codes, lookup, opt_pad, opt_end, opt_overload}
use dhcp_golib.Wire.Option.Map.{Distinct, mem-keys, value_of_lookup}
use dhcp_golib.Wire.Option.Order.{codes-IsAscending}
use dhcp_golib.Wire.Message.{Message}
use dhcp_golib.Wire.Codec.{
  encode, decode, decode_body, read_field, header, overload, file_overloaded, sname_overloaded,
  pad_message, parse_options, octet_or_zero, is_cookie,
}
use dhcp_golib.Wire.Codec.Parse.{Item, bytes_of, tail_bytes, apply_items, parse_options-items}
use dhcp_golib.Wire.Codec.Instances.{lookup-apply_items, lookup_of_parts}
use dhcp_golib.Wire.Codec.Encode.{
  is_framing, items_of, encode_options-items, items_of-All, framing_occurs, occurs-items_of,
  values_of-items_of,
}
use dhcp_golib.Wire.Codec.Layout.{
  IsText, on_wire, header-FrontRead, drop-header, cookie_at, file_at, sname_at, chaddr_at,
  length-header, trim_nul-fit,
}

-- What makes a message one that `Encode` writes and `Decode` reads back: every field in its range, a
-- map with each key once and values that one length octet can count, and no overload of the fields
-- that the message itself fills.
pub record IsEncodable (m : Message) : Type 0 where
  pub xid_fits : m.xid < 2 ^ 32
  pub secs_fits : m.secs < 2 ^ 16
  pub flags_fits : m.flags < 2 ^ 16
  pub chaddr_fits : length m.chaddr ≤ 16
  pub sname_fits : length m.sname ≤ 64
  pub sname_text : IsText m.sname
  pub file_fits : length m.file ≤ 128
  pub file_text : IsText m.file
  pub keys_distinct : Distinct (keys m.options)
  pub values_fit : (c : ℕ) → is_framing c ≡ false → length (value c m.options) ≤ 255
  pub no_file_overload : file_overloaded (overload m.options) ≡ false
  pub no_sname_overload : sname_overloaded (overload m.options) ≡ false

-- `m'` is `m` as it comes back: HLen is the length of CHAddr, an address that is not IPv4 is 0.0.0.0,
-- and the options but PAD and END, which are framing, have their values.
pub record ReadBack (m m' : Message) : Type 0 where
  pub op_same : m'.op ≡ m.op
  pub htype_same : m'.htype ≡ m.htype
  pub hlen_same : m'.hlen ≡ length m.chaddr
  pub hops_same : m'.hops ≡ m.hops
  pub xid_same : m'.xid ≡ m.xid
  pub secs_same : m'.secs ≡ m.secs
  pub flags_same : m'.flags ≡ m.flags
  pub ciaddr_same : m'.ciaddr ≡ on_wire m.ciaddr
  pub yiaddr_same : m'.yiaddr ≡ on_wire m.yiaddr
  pub siaddr_same : m'.siaddr ≡ on_wire m.siaddr
  pub giaddr_same : m'.giaddr ≡ on_wire m.giaddr
  pub chaddr_same : m'.chaddr ≡ m.chaddr
  pub sname_same : m'.sname ≡ m.sname
  pub file_same : m'.file ≡ m.file
  pub options_same :
      (c : ℕ) → lookup c m'.options ≡ (if is_framing c then none else lookup c m.options)

-- The options field that `Encode` writes, and the map that it is read back as.
sent_items : Message → List Item
sent_items m = items_of (codes m.options) m.options

pub sent_options : Message → Options
unfolding sent_items
sent_options m = apply_items (sent_items m) []

pub padding : Message → List ℕ
unfolding sent_items
padding m =
    let written = header m ++ (bytes_of (sent_items m) ++ opt_end ∷ []) in
    replicate (300 - length written) opt_pad

sent_tail : Message → List ℕ
unfolding sent_items padding
sent_tail m = bytes_of (sent_items m) ++ tail_bytes (some (padding m))

-- Every option but PAD and END has its value again.
pub lookup-sent_options :
    (m : Message) (c : ℕ)
    → Distinct (keys m.options)
    → lookup c (sent_options m) ≡ (if is_framing c then none else lookup c m.options)
unfolding sent_options
lookup-sent_options m c h =
    let asc = codes-IsAscending m.options h in
    ground (
      arith,
      lookup-apply_items c (sent_items m),
      framing_occurs c (codes m.options) m.options,
      occurs-items_of c (codes m.options) m.options,
      values_of-items_of c (codes m.options) m.options,
      asc.0,
      asc.1 c,
      mem-keys c m.options,
      lookup_of_parts c m.options,
    )

-- `pad_message` behind END, with everything behind the header together.
pad_message-append :
    (h b : List ℕ) (e : ℕ)
    → pad_message ((h ++ b) ++ e ∷ [])
      ≡ h ++ (b ++ e ∷ replicate (300 - length (h ++ (b ++ e ∷ []))) opt_pad)
unfolding pad_message
pad_message-append h b e =
    let zeroes = replicate (300 - length (h ++ (b ++ e ∷ []))) opt_pad in
    rw (append_assoc h b (e ∷ []))
      (append_assoc h (b ++ e ∷ []) zeroes ∙ ap (◌++◌ h) (append_assoc b (e ∷ []) zeroes))

-- `Encode` succeeds, and writes the header, the items, END and the padding.
encode_lem : (m : Message) → IsEncodable m → encode m ≡ ok (header m ++ sent_tail m)
unfolding encode sent_tail padding sent_items
encode_lem m v = ground (
  arith,
  v.chaddr_fits,
  encode_options-items m.options v.values_fit (codes m.options) (header m),
  pad_message-append (header m) (bytes_of (items_of (codes m.options) m.options)) opt_end,
)

is_cookie-header : (m : Message) (t : List ℕ) → is_cookie (slice 236 240 (header m ++ t)) ≡ true
unfolding is_cookie
is_cookie-header m t = rw (cookie_at m t)

sent_tail_parses :
    (m : Message) → IsEncodable m → parse_options (sent_tail m) [] ≡ ok (sent_options m)
unfolding sent_tail sent_options sent_items
sent_tail_parses m v =
    parse_options-items (sent_items m) (some (padding m)) []
      (items_of-All m.options v.values_fit (codes m.options))

sent_overload : (m : Message) → IsEncodable m → overload (sent_options m) ≡ overload m.options
unfolding overload
sent_overload m v =
    ap octet_or_zero (value_of_lookup _ _ _ (lookup-sent_options m opt_overload v.keys_distinct))

-- Behind the two checks of `Decode`.
decode_checked :
    (b : List ℕ) → 240 ≤ length b → is_cookie (slice 236 240 b) ≡ true → decode b ≡ decode_body b
unfolding decode
decode_checked b long cookie = rw (le→ltb (length b) 240 long, cookie)

-- `Decode` of the bytes, and what it returns.
module _ (m : Message) (v : IsEncodable m) where
  wire_bytes : List ℕ
  wire_bytes = header m ++ sent_tail m

  received : Message
  received = record {
    op = m.op;
    htype = m.htype;
    hlen = length m.chaddr;
    hops = m.hops;
    xid = m.xid;
    secs = m.secs;
    flags = m.flags;
    ciaddr = on_wire m.ciaddr;
    yiaddr = on_wire m.yiaddr;
    siaddr = on_wire m.siaddr;
    giaddr = on_wire m.giaddr;
    chaddr = m.chaddr;
    sname = m.sname;
    file = m.file;
    options = sent_options m;
  }

  decode_body_lem : decode_body wire_bytes ≡ ok received
  unfolding decode_body read_field wire_bytes received
  decode_body_lem =
      let f = header-FrontRead m (sent_tail m) v.xid_fits v.secs_fits v.flags_fits in
      ground (
        arith,
        drop-header m (sent_tail m),
        sent_tail_parses m v,
        sent_overload m v,
        v.no_file_overload,
        v.no_sname_overload,
        v.chaddr_fits,
        file_at m (sent_tail m),
        sname_at m (sent_tail m),
        chaddr_at m (sent_tail m) v.chaddr_fits,
        trim_nul-fit 128 m.file v.file_fits v.file_text,
        trim_nul-fit 64 m.sname v.sname_fits v.sname_text,
        f.op_at,
        f.htype_at,
        f.hlen_at,
        f.hops_at,
        f.xid_at,
        f.secs_at,
        f.flags_at,
        f.ciaddr_at,
        f.yiaddr_at,
        f.siaddr_at,
        f.giaddr_at,
      )

  decode_lem : decode wire_bytes ≡ ok received
  decode_lem = decode_checked wire_bytes long cookie ∙ decode_body_lem
    where
      long : 240 ≤ length wire_bytes
      long = unfold wire_bytes in rw (length-header m (sent_tail m)) (omega arith)

      cookie : is_cookie (slice 236 240 wire_bytes) ≡ true
      cookie = unfold wire_bytes in is_cookie-header m (sent_tail m)

  received-ReadBack : ReadBack m received
  unfolding received
  received-ReadBack = record {
    op_same = refl;
    htype_same = refl;
    hlen_same = refl;
    hops_same = refl;
    xid_same = refl;
    secs_same = refl;
    flags_same = refl;
    ciaddr_same = refl;
    yiaddr_same = refl;
    siaddr_same = refl;
    giaddr_same = refl;
    chaddr_same = refl;
    sname_same = refl;
    file_same = refl;
    options_same = λ c. lookup-sent_options m c v.keys_distinct;
  }

-- An encodable message is encoded, and what `Decode` returns of the bytes is the message again:
-- every field, and every option but PAD and END, which are framing. HLen comes back as the length of
-- CHAddr, and an address that is not IPv4 as 0.0.0.0.
pub decode-encode :
    (m : Message)
    → IsEncodable m
    → (b : List ℕ) × (m' : Message) × (encode m ≡ ok b) × (decode b ≡ ok m') × ReadBack m m'
decode-encode m v =
    (wire_bytes m v, received m v, encode_lem', decode_lem m v, received-ReadBack m v)
  where
    encode_lem' : encode m ≡ ok (wire_bytes m v)
    encode_lem' = unfold wire_bytes in encode_lem m v

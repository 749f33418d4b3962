-- ===== src/Wire/Codec.antt =====
-- wire/codec.go: Encode and Decode.
pub mod Parse
pub mod Grammar
pub mod Instances
pub mod Encode
pub mod Layout
pub mod RoundTrip
pub mod Outcome
use dhcp_golib.Base.{
  ℕ, zero, suc, ◌+◌, ◌-◌, ◌/◌, ◌%◌, Bool, true, false, ◌&&◌, ◌||◌, List, [], ◌∷◌, ◌++◌, Option,
  none, some, if◌then◌else◌, ◌==◌, ltb, length, take, drop, slice, replicate, get_or, Result, ok,
  err, stuck, ◌>>=◌,
}
use dhcp_golib.Wire.Bytes.{be16, be32, ube16, ube32}
use dhcp_golib.Wire.Option.{Options, lookup, value, assign, codes, opt_pad, opt_end, opt_overload}
use dhcp_golib.Wire.Message.{Addr, invalid, ip4, ip6, Message}

abbrev pub fixed_len : ℕ
fixed_len = 236

abbrev pub header_len : ℕ
header_len = 240

abbrev pub chaddr_len : ℕ
chaddr_len = 16

abbrev pub sname_len : ℕ
sname_len = 64

abbrev pub file_len : ℕ
file_len = 128

abbrev pub sname_off : ℕ
sname_off = 44

abbrev pub file_off : ℕ
file_off = 108

abbrev pub min_message_len : ℕ
min_message_len = 300

abbrev pub magic_cookie : List ℕ
magic_cookie = 99 ∷ 130 ∷ 83 ∷ 99 ∷ []

pub data CodecError : Type 0 where
  short bad_cookie truncated_option option_overrun chaddr_too_long option_too_long : CodecError

-- `copy(buf[off:off+n], b)` over zeroes: what does not fit is cut, what is missing stays zero.
unfoldable pub fit : ℕ → List ℕ → List ℕ
fit n b = take n b ++ replicate (n - length b) 0

-- `putAddr`: an address that is not IPv4 is written as zeroes.
unfoldable pub octets_or_zero : Addr → ℕ × ℕ × ℕ × ℕ
octets_or_zero (ip4 a b c d) = (a, b, c, d)
octets_or_zero _ = (0, 0, 0, 0)

unfoldable pub put_addr : Addr → List ℕ
put_addr a = let v = octets_or_zero a in v.0 ∷ v.1 ∷ v.2 ∷ v.3 ∷ []

-- `getAddr`, on a slice of four octets or more.
unfoldable pub get_addr : List ℕ → Addr
get_addr (a ∷ b ∷ c ∷ d ∷ _) = ip4 a b c d
get_addr _ = invalid

-- The fixed header with the cookie: the fields at the source's offsets 0, 4, 8, 10, 12, 16, 20, 24,
-- 28, 44, 108 and 236, each as wide as the gap to the next.
unfoldable pub header : Message → List ℕ
unfolding be16 be32 put_addr
header m =
    m.op
    ∷ m.htype
    ∷ length m.chaddr
    ∷ m.hops
    ∷ (be32 m.xid
        ++ (be16 m.secs
            ++ (be16 m.flags
                ++ (put_addr m.ciaddr
                    ++ (put_addr m.yiaddr
                        ++ (put_addr m.siaddr
                            ++ (put_addr m.giaddr
                                ++ (fit chaddr_len m.chaddr
                                    ++ (fit sname_len m.sname
                                        ++ (fit file_len m.file ++ magic_cookie))))))))))

-- The loop of `Encode` over `Options.Codes`, from `buf` on.
unfoldable pub encode_options : List ℕ → Options → List ℕ → Result CodecError (List ℕ)
encode_options [] o buf = ok buf
encode_options (c ∷ cs) o buf =
    let skipped = encode_options cs o buf in
    let v = value c o in
    let rest = encode_options cs o (buf ++ c ∷ length v ∷ v) in
    if c == opt_pad || c == opt_end
    then skipped
    else if ltb 255 (length v)
    then err option_too_long
    else rest

-- `for len(buf) < MinMessageLen { buf = append(buf, PAD) }`
unfoldable pub pad_message : List ℕ → List ℕ
pad_message buf = buf ++ replicate (min_message_len - length buf) opt_pad

unfoldable pub encode : Message → Result CodecError (List ℕ)
unfolding header encode_options pad_message
encode m =
    if ltb chaddr_len (length m.chaddr)
    then err chaddr_too_long
    else (encode_options (codes m.options) m.options (header m) >>= λ buf.
        ok (pad_message (buf ++ opt_end ∷ [])))

-- `out[c] = append(out[c], v...)`
unfoldable pub append_value : ℕ → List ℕ → Options → Options
append_value c v out = assign c (value c out ++ v) out

-- `parseOptions`, on what is left of the buffer. Each round takes an octet at least.
unfoldable pub parse_loop : ℕ → List ℕ → Options → Result CodecError Options
parse_loop fuel [] out = ok out
parse_loop zero (c ∷ b) out = stuck
parse_loop (suc fuel) (c ∷ []) out =
    let more = parse_loop fuel [] out in
    if c == opt_pad then more else if c == opt_end then ok out else err truncated_option
parse_loop (suc fuel) (c ∷ n ∷ b) out =
    let past_pad = parse_loop fuel (n ∷ b) out in
    let rest = parse_loop fuel (drop n b) (append_value c (take n b) out) in
    if c == opt_pad
    then past_pad
    else if c == opt_end
    then ok out
    else if ltb (length b) n
    then err option_overrun
    else rest

unfoldable pub parse_options : List ℕ → Options → Result CodecError Options
unfolding parse_loop
parse_options b out = parse_loop (length b) b out

-- `trimNul`: what stands before the first zero octet.
unfoldable pub trim_nul : List ℕ → List ℕ
trim_nul [] = []
trim_nul (c ∷ b) = if c == 0 then [] else c ∷ trim_nul b

-- `[4]byte(x) != magicCookie`
unfoldable pub is_cookie : List ℕ → Bool
is_cookie (a ∷ b ∷ c ∷ d ∷ []) = a == 99 && b == 130 && c == 83 && d == 99
is_cookie _ = false

-- The value of option 52, if it is one octet: 1 says that 'file' holds options, 2 'sname', 3 both.
octet_or_zero : List ℕ → ℕ
octet_or_zero (v ∷ []) = v
octet_or_zero _ = 0

unfoldable pub overload : Options → ℕ
unfolding octet_or_zero
overload o = octet_or_zero (value opt_overload o)

-- `overload&1` and `overload&2`.
unfoldable pub file_overloaded : ℕ → Bool
file_overloaded v = v % 2 == 1

unfoldable pub sname_overloaded : ℕ → Bool
sname_overloaded v = v / 2 % 2 == 1

-- One of 'file' and 'sname': options if the overload says so, else text up to the first zero.
unfoldable pub read_field : Bool → List ℕ → Options → Result CodecError (List ℕ × Options)
read_field true b o = parse_options b o >>= λ o'. ok ([], o')
read_field false b o = ok (trim_nul b, o)

-- The part of `Decode` behind the checks of length and cookie.
unfoldable pub decode_body : List ℕ → Result CodecError Message
decode_body b = do
  o ← parse_options (drop header_len b) []
  (file, o₁) ← read_field (file_overloaded (overload o)) (slice file_off (file_off + file_len) b) o
  (sname, o₂) ←
      read_field (sname_overloaded (overload o)) (slice sname_off (sname_off + sname_len) b) o₁
  let hlen = get_or b 2 0
  ok (record {
    op = get_or b 0 0;
    htype = get_or b 1 0;
    hlen = hlen;
    hops = get_or b 3 0;
    xid = ube32 (slice 4 8 b);
    secs = ube16 (slice 8 10 b);
    flags = ube16 (slice 10 12 b);
    ciaddr = get_addr (slice 12 16 b);
    yiaddr = get_addr (slice 16 20 b);
    siaddr = get_addr (slice 20 24 b);
    giaddr = get_addr (slice 24 28 b);
    chaddr = slice 28 (28 + (if ltb chaddr_len hlen then chaddr_len else hlen)) b;
    sname = sname;
    file = file;
    options = o₂;
  })

unfoldable pub decode : List ℕ → Result CodecError Message
decode b =
    if ltb (length b) header_len
    then err short
    else if is_cookie (slice fixed_len header_len b)
    then decode_body b
    else err bad_cookie

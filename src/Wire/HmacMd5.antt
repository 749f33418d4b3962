-- ===== src/Wire/HmacMd5.antt =====
-- wire/hmacmd5.go: MD5 (RFC 1321) and HMAC-MD5 (RFC 2104), on words of 32 bits.
use Prim.Native.Nat.{bit_and, bit_or, bit_xor}
use dhcp_golib.Base.{
  ℕ, zero, suc, ◌+◌, ◌-◌, ◌*◌, ◌/◌, ◌%◌, ◌^◌, Bool, false, List, [], ◌∷◌, ◌++◌, map, if◌then◌else◌,
  ◌==◌, ltb, length, take, drop, replicate, get_or, slice,
}

abbrev pub md5_block_size : ℕ
md5_block_size = 64

abbrev pub md5_digest_size : ℕ
md5_digest_size = 16

abbrev pub md5_table : List ℕ
md5_table =
    0xd76aa478 ∷ 0xe8c7b756 ∷ 0x242070db ∷ 0xc1bdceee ∷ 0xf57c0faf ∷ 0x4787c62a ∷ 0xa8304613
    ∷ 0xfd469501 ∷ 0x698098d8 ∷ 0x8b44f7af ∷ 0xffff5bb1 ∷ 0x895cd7be ∷ 0x6b901122 ∷ 0xfd987193
    ∷ 0xa679438e ∷ 0x49b40821 ∷ 0xf61e2562 ∷ 0xc040b340 ∷ 0x265e5a51 ∷ 0xe9b6c7aa ∷ 0xd62f105d
    ∷ 0x02441453 ∷ 0xd8a1e681 ∷ 0xe7d3fbc8 ∷ 0x21e1cde6 ∷ 0xc33707d6 ∷ 0xf4d50d87 ∷ 0x455a14ed
    ∷ 0xa9e3e905 ∷ 0xfcefa3f8 ∷ 0x676f02d9 ∷ 0x8d2a4c8a ∷ 0xfffa3942 ∷ 0x8771f681 ∷ 0x6d9d6122
    ∷ 0xfde5380c ∷ 0xa4beea44 ∷ 0x4bdecfa9 ∷ 0xf6bb4b60 ∷ 0xbebfbc70 ∷ 0x289b7ec6 ∷ 0xeaa127fa
    ∷ 0xd4ef3085 ∷ 0x04881d05 ∷ 0xd9d4d039 ∷ 0xe6db99e5 ∷ 0x1fa27cf8 ∷ 0xc4ac5665 ∷ 0xf4292244
    ∷ 0x432aff97 ∷ 0xab9423a7 ∷ 0xfc93a039 ∷ 0x655b59c3 ∷ 0x8f0ccc92 ∷ 0xffeff47d ∷ 0x85845dd1
    ∷ 0x6fa87e4f ∷ 0xfe2ce6e0 ∷ 0xa3014314 ∷ 0x4e0811a1 ∷ 0xf7537e82 ∷ 0xbd3af235 ∷ 0x2ad7d2bb
    ∷ 0xeb86d391 ∷ []

abbrev pub md5_shift : List ℕ
md5_shift =
    7 ∷ 12 ∷ 17 ∷ 22 ∷ 7 ∷ 12 ∷ 17 ∷ 22 ∷ 7 ∷ 12 ∷ 17 ∷ 22 ∷ 7 ∷ 12 ∷ 17 ∷ 22 ∷ 5 ∷ 9 ∷ 14 ∷ 20 ∷ 5
    ∷ 9 ∷ 14 ∷ 20 ∷ 5 ∷ 9 ∷ 14 ∷ 20 ∷ 5 ∷ 9 ∷ 14 ∷ 20 ∷ 4 ∷ 11 ∷ 16 ∷ 23 ∷ 4 ∷ 11 ∷ 16 ∷ 23 ∷ 4 ∷ 11
    ∷ 16 ∷ 23 ∷ 4 ∷ 11 ∷ 16 ∷ 23 ∷ 6 ∷ 10 ∷ 15 ∷ 21 ∷ 6 ∷ 10 ∷ 15 ∷ 21 ∷ 6 ∷ 10 ∷ 15 ∷ 21 ∷ 6 ∷ 10
    ∷ 15 ∷ 21 ∷ []

-- `uint32`, and its complement `^b`.
abbrev pub u32 : ℕ → ℕ
u32 x = x % 2 ^ 32

abbrev pub complement : ℕ → ℕ
complement x = 2 ^ 32 - 1 - x

-- `sum<<s | sum>>(32-s)`.
unfoldable pub rotate_left : ℕ → ℕ → ℕ
rotate_left x s = bit_or (u32 (x * 2 ^ s)) (x / 2 ^ (32 - s))

pub record Words : Type 0 where
  pub a : ℕ
  pub b : ℕ
  pub c : ℕ
  pub d : ℕ

-- The switch of the inner loop: `f` of round `i`, and the index `g` of the word that it reads.
unfoldable pub mix : ℕ → Words → ℕ
mix i w =
    if ltb i 16
    then bit_or (bit_and w.b w.c) (bit_and (complement w.b) w.d)
    else if ltb i 32
    then bit_or (bit_and w.d w.b) (bit_and (complement w.d) w.c)
    else if ltb i 48
    then bit_xor (bit_xor w.b w.c) w.d
    else bit_xor w.c (bit_or w.b (complement w.d))

unfoldable pub word_of : ℕ → ℕ
word_of i =
    if ltb i 16
    then i
    else if ltb i 32
    then (5 * i + 1) % 16
    else if ltb i 48
    then (3 * i + 5) % 16
    else 7 * i % 16

unfoldable pub md5_round : ℕ → List ℕ → Words → Words
unfolding mix word_of rotate_left
md5_round i x w =
    let sum = u32 (w.a + mix i w + get_or md5_table i 0 + get_or x (word_of i) 0) in
    record { a = w.d; b = u32 (w.b + rotate_left sum (get_or md5_shift i 0)); c = w.b; d = w.c }

-- The rounds from `i` on, of which there are `left`.
unfoldable pub md5_rounds : ℕ → ℕ → List ℕ → Words → Words
unfolding md5_round
md5_rounds zero i x w = w
md5_rounds (suc left) i x w = md5_rounds left (i + 1) x (md5_round i x w)

-- The words of a block, least octet first.
unfoldable pub words_of : List ℕ → List ℕ
words_of (p ∷ q ∷ r ∷ s ∷ rest) = (p + q * 2 ^ 8 + r * 2 ^ 16 + s * 2 ^ 24) ∷ words_of rest
words_of _ = []

unfoldable pub md5_block : List ℕ → Words → Words
unfolding md5_rounds words_of
md5_block block w =
    let r = md5_rounds 64 0 (words_of block) w in
    record { a = u32 (w.a + r.a); b = u32 (w.b + r.b); c = u32 (w.c + r.c); d = u32 (w.d + r.d) }

-- The blocks of the padded text, of which there are `left`.
unfoldable pub md5_blocks : ℕ → List ℕ → Words → Words
unfolding md5_block
md5_blocks zero b w = w
md5_blocks (suc left) b w = md5_blocks left (drop 64 b) (md5_block (take 64 b) w)

-- The `n` octets of a number, least first.
unfoldable pub little_endian : ℕ → ℕ → List ℕ
little_endian zero x = []
little_endian (suc n) x = (x % 256) ∷ little_endian n (x / 256)

-- The padding loop, until the length is 56 modulo a block, which takes 63 rounds at most.
unfoldable pub pad_zeroes : ℕ → List ℕ → List ℕ
pad_zeroes zero b = b
pad_zeroes (suc fuel) b =
    let rest = pad_zeroes fuel (b ++ 0 ∷ []) in if length b % md5_block_size == 56 then b else rest

unfoldable pub md5_padded : List ℕ → List ℕ
unfolding little_endian pad_zeroes
md5_padded msg = pad_zeroes 63 (msg ++ 0x80 ∷ []) ++ little_endian 8 (length msg * 8 % 2 ^ 64)

-- `md5Sum`.
unfoldable pub md5_sum : List ℕ → List ℕ
unfolding md5_padded md5_blocks little_endian
md5_sum msg =
    let p = md5_padded msg in
    let start : Words = record {
      a = 0x6745_2301;
      b = 0xefcd_ab89;
      c = 0x98ba_dcfe;
      d = 0x1032_5476;
    } in
    let w = md5_blocks (length p / md5_block_size) p start in
    little_endian 4 w.a ++ (little_endian 4 w.b ++ (little_endian 4 w.c ++ little_endian 4 w.d))

-- `hmacMD5`.
unfoldable pub hmac_md5 : List ℕ → List ℕ → List ℕ
unfolding md5_sum
hmac_md5 key msg =
    let short = if ltb md5_block_size (length key) then md5_sum key else key in
    let k = short ++ replicate (md5_block_size - length short) 0 in
    let inner = md5_sum (map (λ v. bit_xor v 0x36) k ++ msg) in
    md5_sum (map (λ v. bit_xor v 0x5c) k ++ inner)

-- `diff` over the octets of two slices of one length.
unfoldable pub differences : List ℕ → List ℕ → ℕ
differences [] bs = 0
differences (a ∷ as_) [] = 0
differences (a ∷ as_) (b ∷ bs) = bit_or (bit_xor a b) (differences as_ bs)

-- `equalConstantTime`.
unfoldable pub equal_constant_time : List ℕ → List ℕ → Bool
unfolding differences
equal_constant_time a b = if length a == length b then differences a b == 0 else false

-- `clear(buf[start:end])`.
unfoldable pub cleared : ℕ → ℕ → List ℕ → List ℕ
cleared start end buf = take start buf ++ (replicate (end - start) 0 ++ drop end buf)

-- `zeroedHMACMatches`.
unfoldable pub zeroed_hmac_matches : List ℕ → List ℕ → ℕ → ℕ → Bool
unfolding hmac_md5 cleared equal_constant_time
zeroed_hmac_matches key raw start end =
    equal_constant_time (slice start end raw) (hmac_md5 key (cleared start end raw))

-- ===== src/Wire/Codec/Layout.antt =====
-- The fixed header read back at the offsets of `Decode`.
use dhcp_golib.Base.{
  ℕ, zero, suc, ◌+◌, ◌-◌, ◌≤◌, ◌<◌, ◌≡◌, ◌≢◌, refl, sym, ap, ◌∙◌, List, [], ◌∷◌, ◌++◌, arith,
  length, take, drop, slice, replicate, All, append_assoc, length-append, subst, ◌^◌,
  length-replicate, length-take, drop-append, take-append, drop-append_beyond, get_or,
}
use dhcp_golib.Wire.Bytes.{be16, be32, ube16, ube32}
use dhcp_golib.Wire.Message.{Addr, ip4, Message}
use dhcp_golib.Wire.Codec.{
  fit, octets_or_zero, put_addr, get_addr, header, trim_nul, magic_cookie, chaddr_len, sname_len,
  file_len,
}

-- The 28 octets before 'chaddr', in front of `t`.
abbrev front : Message → List ℕ → List ℕ
front m t =
    m.op
    ∷ m.htype
    ∷ length m.chaddr
    ∷ m.hops
    ∷ (be32 m.xid
        ++ (be16 m.secs
            ++ (be16 m.flags
                ++ (put_addr m.ciaddr
                    ++ (put_addr m.yiaddr ++ (put_addr m.siaddr ++ (put_addr m.giaddr ++ t)))))))

-- 'chaddr', 'sname', 'file' and the cookie, in front of `t`.
abbrev back : Message → List ℕ → List ℕ
back m t =
    fit chaddr_len m.chaddr
    ++ (fit sname_len m.sname ++ (fit file_len m.file ++ (magic_cookie ++ t)))

header-append : (m : Message) (t : List ℕ) → header m ++ t ≡ front m (back m t)
unfolding header be16 be32 put_addr
header-append m t = ap (front m) (
    append_assoc (fit chaddr_len m.chaddr) _ t
    ∙ ap (◌++◌ (fit chaddr_len m.chaddr)) (
        append_assoc (fit sname_len m.sname) _ t
        ∙ ap (◌++◌ (fit sname_len m.sname)) (append_assoc (fit file_len m.file) magic_cookie t)))

pub length-fit : (n : ℕ) (b : List ℕ) → length (fit n b) ≡ n
unfolding fit
length-fit n b = omega (
  arith,
  length-append (take n b) (replicate (n - length b) 0),
  length-take n b,
  length-replicate {A = ℕ} (n - length b) 0,
)

pub take_all : (n : ℕ) (b : List ℕ) → length b ≤ n → take n b ≡ b
take_all zero [] h = refl
take_all zero (x ∷ b) h = absurd (omega arith)
take_all (suc n) [] h = refl
take_all (suc n) (x ∷ b) h = ap (◌∷◌ x) (take_all n b (omega arith))

-- A field that fits begins with its value.
take-fit : (n : ℕ) (b t : List ℕ) → length b ≤ n → take (length b) (fit n b ++ t) ≡ b
unfolding fit
take-fit n b t h =
    rw (take_all n b h, append_assoc b (replicate (n - length b) 0) t)
      (take-append (length b) b (replicate (n - length b) 0 ++ t) refl)

-- No NUL: what 'sname' and 'file' must not hold to be read back whole.
abbrev pub IsText : List ℕ → Type 0
IsText = All (λ c. c ≢ 0)

trim_nul-zeroes : (b : List ℕ) (k : ℕ) → IsText b → trim_nul (b ++ replicate k 0) ≡ b
unfolding trim_nul
trim_nul-zeroes [] zero h = refl
trim_nul-zeroes [] (suc k) h = refl
trim_nul-zeroes (x ∷ b) k h = ground (arith, trim_nul-zeroes b k h.1)

pub trim_nul-fit : (n : ℕ) (b : List ℕ) → length b ≤ n → IsText b → trim_nul (fit n b) ≡ b
unfolding fit
trim_nul-fit n b h t = rw (take_all n b h) (trim_nul-zeroes b (n - length b) t)

module _ (m : Message) (t : List ℕ) where
  pub drop-header : drop 240 (header m ++ t) ≡ t
  unfolding be16 be32 put_addr
  drop-header = rw (header-append m t) (
      drop-append_beyond 16 196 212 (fit 16 m.chaddr) _ (length-fit 16 m.chaddr) refl
      ∙ drop-append_beyond 64 132 196 (fit 64 m.sname) _ (length-fit 64 m.sname) refl
      ∙ drop-append_beyond 128 4 132 (fit 128 m.file) _ (length-fit 128 m.file) refl)

  pub cookie_at : slice 236 240 (header m ++ t) ≡ magic_cookie
  unfolding be16 be32 put_addr
  cookie_at = rw (header-append m t) (
      ap (take 4) (
        drop-append_beyond 16 192 208 (fit 16 m.chaddr) _ (length-fit 16 m.chaddr) refl
        ∙ drop-append_beyond 64 128 192 (fit 64 m.sname) _ (length-fit 64 m.sname) refl
        ∙ drop-append 128 (fit 128 m.file) _ (length-fit 128 m.file)))

  pub file_at : slice 108 236 (header m ++ t) ≡ fit 128 m.file
  unfolding be16 be32 put_addr
  file_at = rw (header-append m t) (
      ap (take 128) (
        drop-append_beyond 16 64 80 (fit 16 m.chaddr) _ (length-fit 16 m.chaddr) refl
        ∙ drop-append 64 (fit 64 m.sname) _ (length-fit 64 m.sname))
      ∙ take-append 128 (fit 128 m.file) _ (length-fit 128 m.file))

  pub sname_at : slice 44 108 (header m ++ t) ≡ fit 64 m.sname
  unfolding be16 be32 put_addr
  sname_at = rw (header-append m t) (
      ap (take 64) (drop-append 16 (fit 16 m.chaddr) _ (length-fit 16 m.chaddr))
      ∙ take-append 64 (fit 64 m.sname) _ (length-fit 64 m.sname))

  pub chaddr_at : length m.chaddr ≤ 16 → slice 28 (28 + length m.chaddr) (header m ++ t) ≡ m.chaddr
  unfolding be16 be32 put_addr
  chaddr_at h =
      rw (header-append m t) (ap (λ k. take k (back m t)) (omega arith) ∙ take-fit 16 m.chaddr _ h)

  pub length-header : length (header m ++ t) ≡ 240 + length t
  unfolding be16 be32 put_addr
  length-header = rw (header-append m t) (
      omega (
        arith,
        length-append (fit 16 m.chaddr) (fit 64 m.sname ++ (fit 128 m.file ++ (magic_cookie ++ t))),
        length-append (fit 64 m.sname) (fit 128 m.file ++ (magic_cookie ++ t)),
        length-append (fit 128 m.file) (magic_cookie ++ t),
        length-fit 16 m.chaddr,
        length-fit 64 m.sname,
        length-fit 128 m.file,
      ))

-- An address as the wire carries it: what is not IPv4 becomes 0.0.0.0.
abbrev pub on_wire : Addr → Addr
on_wire a = let v = octets_or_zero a in ip4 v.0 v.1 v.2 v.3

-- The scalar fields and the addresses.
pub record FrontRead (m : Message) (b : List ℕ) : Type 0 where
  pub op_at : get_or b 0 0 ≡ m.op
  pub htype_at : get_or b 1 0 ≡ m.htype
  pub hlen_at : get_or b 2 0 ≡ length m.chaddr
  pub hops_at : get_or b 3 0 ≡ m.hops
  pub xid_at : ube32 (slice 4 8 b) ≡ m.xid
  pub secs_at : ube16 (slice 8 10 b) ≡ m.secs
  pub flags_at : ube16 (slice 10 12 b) ≡ m.flags
  pub ciaddr_at : get_addr (slice 12 16 b) ≡ on_wire m.ciaddr
  pub yiaddr_at : get_addr (slice 16 20 b) ≡ on_wire m.yiaddr
  pub siaddr_at : get_addr (slice 20 24 b) ≡ on_wire m.siaddr
  pub giaddr_at : get_addr (slice 24 28 b) ≡ on_wire m.giaddr

front-FrontRead :
    (m : Message) (t : List ℕ)
    → m.xid < 2 ^ 32
    → m.secs < 2 ^ 16
    → m.flags < 2 ^ 16
    → FrontRead m (front m t)
unfolding be16 be32 put_addr get_addr ube16 ube32
front-FrontRead m t x s f = record {
  op_at = refl;
  htype_at = refl;
  hlen_at = refl;
  hops_at = refl;
  xid_at = omega arith;
  secs_at = omega arith;
  flags_at = omega arith;
  ciaddr_at = refl;
  yiaddr_at = refl;
  siaddr_at = refl;
  giaddr_at = refl;
}

pub header-FrontRead :
    (m : Message) (t : List ℕ)
    → m.xid < 2 ^ 32
    → m.secs < 2 ^ 16
    → m.flags < 2 ^ 16
    → FrontRead m (header m ++ t)
header-FrontRead m t x s f =
    subst (FrontRead m) (sym (header-append m t)) (front-FrontRead m (back m t) x s f)

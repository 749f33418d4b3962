-- ===== src/Wire/Arp/RoundTrip.antt =====
-- `DecodeARP` on what `EncodeARP` writes, and the Probes.
use dhcp_golib.Base.{
  ℕ, ◌<◌, ◌^◌, ◌≡◌, refl, ap, ◌∙◌, true, false, ◌&&◌, not, List, [], ◌∷◌, ◌++◌, ◌==◌, arith, length,
  ok, ◌⊎◌, inl, inr, Bool-cases, length-append, ◌↔◌,
}
use dhcp_golib.Wire.Bytes.{be16, ube16}
use dhcp_golib.Wire.Message.{Addr, invalid, ip4, ip6, is_4, is_unspecified}
use dhcp_golib.Wire.Codec.{fit, put_addr, octets_or_zero, get_addr}
use dhcp_golib.Wire.Codec.Layout.{length-fit}
use dhcp_golib.Wire.Arp.{ArpPacket, arp_bytes, encode_arp, decode_arp, is_probe, arp_request}

-- The target hardware address as it comes back: an empty one is six zeroes.
abbrev pub hw_on_wire : List ℕ → List ℕ
hw_on_wire [] = 0 ∷ 0 ∷ 0 ∷ 0 ∷ 0 ∷ 0 ∷ []
hw_on_wire (a ∷ b) = a ∷ b

-- Six octets, and an IPv4 address.
data IsHardware : List ℕ → Type 0 where
  hardware : (a b c d e f : ℕ) → IsHardware (a ∷ b ∷ c ∷ d ∷ e ∷ f ∷ [])

data IsV4 : Addr → Type 0 where
  v4 : (a b c d : ℕ) → IsV4 (ip4 a b c d)

length_six : (hw : List ℕ) → length hw ≡ 6 → IsHardware hw
length_six [] e = absurd (omega arith)
length_six (a ∷ []) e = absurd (omega arith)
length_six (a ∷ b ∷ []) e = absurd (omega arith)
length_six (a ∷ b ∷ c ∷ []) e = absurd (omega arith)
length_six (a ∷ b ∷ c ∷ d ∷ []) e = absurd (omega arith)
length_six (a ∷ b ∷ c ∷ d ∷ x ∷ []) e = absurd (omega arith)
length_six (a ∷ b ∷ c ∷ d ∷ x ∷ y ∷ []) e = hardware a b c d x y
length_six (a ∷ b ∷ c ∷ d ∷ x ∷ y ∷ z ∷ t) e = absurd (omega arith)

is_4-IsV4 : (a : Addr) → is_4 a ≡ true → IsV4 a
is_4-IsV4 invalid e = cc
is_4-IsV4 (ip4 a b c d) e = v4 a b c d
is_4-IsV4 (ip6 bs) e = cc

-- What `EncodeARP` checks.
record IsSendable (p : ArpPacket) : Type 0 where
  sender : IsHardware p.sender_hw
  target : (p.target_hw ≡ []) ⊎ IsHardware p.target_hw
  from : IsV4 p.sender_ip
  to : IsV4 p.target_ip

length_zero : (hw : List ℕ) → length hw ≡ 0 → hw ≡ []
length_zero [] e = refl
length_zero (a ∷ b) e = absurd (omega arith)

target_shape :
    (hw : List ℕ)
    → (not (length hw == 0) && not (length hw == 6)) ≡ false
    → (hw ≡ []) ⊎ IsHardware hw
target_shape hw e = elim (Bool-cases (length hw == 0)) [
  | inl z ↦ inl (length_zero hw (ground arith))
  | inr n ↦ inr (length_six hw (ground arith))
]

encode_arp_inv :
    (p : ArpPacket) (b : List ℕ) → encode_arp p ≡ ok b → IsSendable p × (b ≡ arp_bytes p)
unfolding encode_arp
encode_arp_inv p b e = (
  record {
    sender = length_six p.sender_hw (ground arith);
    target = target_shape p.target_hw (ground arith);
    from = is_4-IsV4 p.sender_ip (ground arith);
    to = is_4-IsV4 p.target_ip (ground arith);
  },
  ground arith,
)

-- The read-back, by the parts of the packet.
abbrev packet : ℕ → List ℕ → List ℕ → Addr → Addr → ArpPacket
packet op shw thw sip tip = record {
  op = op;
  sender_hw = shw;
  target_hw = thw;
  sender_ip = sip;
  target_ip = tip;
}

decode_arp_bytes :
    (op : ℕ) {shw thw : List ℕ} {sip tip : Addr} (pad : List ℕ)
    → op < 2 ^ 16
    → IsHardware shw
    → IsHardware thw
    → IsV4 sip
    → IsV4 tip
    → decode_arp (arp_bytes (packet op shw thw sip tip) ++ pad) ≡ ok (packet op shw thw sip tip)
unfolding arp_bytes decode_arp be16 ube16 fit put_addr octets_or_zero get_addr
decode_arp_bytes op pad h (hardware a b c d e f) (hardware g i j k l m) (v4 s t u v) (v4 w x y z) =
    ground arith

length-arp_bytes : (p : ArpPacket) → length (arp_bytes p) ≡ 28
unfolding arp_bytes be16 put_addr
length-arp_bytes p = omega (
  arith,
  length-append (fit 6 p.sender_hw)
      (put_addr p.sender_ip ++ (fit 6 p.target_hw ++ put_addr p.target_ip)),
  length-append (fit 6 p.target_hw) (put_addr p.target_ip),
  length-fit 6 p.sender_hw,
  length-fit 6 p.target_hw,
)

-- A target that is left empty is written as the six zeroes that it comes back as.
arp_bytes_target :
    (p : ArpPacket) → arp_bytes p ≡ arp_bytes (record p { target_hw = hw_on_wire p.target_hw })
unfolding arp_bytes fit
arp_bytes_target p = target p.target_hw
  where
    target :
        (hw : List ℕ)
        → arp_bytes (record p { target_hw = hw })
          ≡ arp_bytes (record p { target_hw = hw_on_wire hw })
    target [] = refl
    target (a ∷ b) = refl

hw_on_wire-IsHardware : (hw : List ℕ) → (hw ≡ []) ⊎ IsHardware hw → IsHardware (hw_on_wire hw)
hw_on_wire-IsHardware [] h = hardware 0 0 0 0 0 0
hw_on_wire-IsHardware (a ∷ b) (inl e) = absurd (cc)
hw_on_wire-IsHardware (a ∷ b) (inr k) = k

-- An ARP packet with an op of 16 bits that is encoded is 28 octets, and these are decoded to the
-- packet, whatever padding follows, but for an empty target hardware address, which comes back
-- as six zeroes.
pub decode_arp-encode_arp :
    (p : ArpPacket) (b pad : List ℕ)
    → p.op < 2 ^ 16
    → encode_arp p ≡ ok b
    → (length b ≡ 28)
      × (decode_arp (b ++ pad) ≡ ok (record p { target_hw = hw_on_wire p.target_hw }))
decode_arp-encode_arp p b pad h e =
    let (s, bytes) = encode_arp_inv p b e in
    (
      ap length bytes ∙ length-arp_bytes p,
      ap (λ x. decode_arp (x ++ pad)) (bytes ∙ arp_bytes_target p)
          ∙ decode_arp_bytes p.op pad h s.sender (hw_on_wire-IsHardware p.target_hw s.target) s.from
              s.to,
    )

zero_address : (a : Addr) → ((is_4 a && is_unspecified a) ≡ true) ↔ (a ≡ ip4 0 0 0 0)
unfolding is_unspecified
zero_address invalid = (λ e. cc, λ e. cc)
zero_address (ip4 a b c d) = (λ e. ground arith, λ e. ground arith)
zero_address (ip6 bs) = (λ e. cc, λ e. cc)

-- A reply is never a Probe, and a request is one exactly when its sender address is 0.0.0.0.
pub is_probe_iff :
    (p : ArpPacket) → (is_probe p ≡ true) ↔ ((p.op ≡ arp_request) × (p.sender_ip ≡ ip4 0 0 0 0))
unfolding is_probe
is_probe_iff p = (
  λ e. (ground arith, (zero_address p.sender_ip).0 (ground arith)),
  λ h. let z = (zero_address p.sender_ip).1 h.1 in ground (arith, h.0, z),
)

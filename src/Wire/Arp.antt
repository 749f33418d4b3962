-- ===== src/Wire/Arp.antt =====
-- wire/arp.go: Ethernet/IPv4 ARP packets.
pub mod RoundTrip
use dhcp_golib.Base.{
  ℕ, ◌+◌, ◌≤◌, ◌<◌, ◌^◌, ◌≡◌, refl, sym, ap, ◌∙◌, Bool, true, false, ◌&&◌, ◌||◌, not, List, [], ◌∷◌,
  ◌++◌, if◌then◌else◌, ◌==◌, ltb, arith, length, slice, get_or, replicate, Result, ok, err, ◌⊎◌,
  inl, inr, Bool-cases,
}
use dhcp_golib.Wire.Bytes.{be16, ube16}
use dhcp_golib.Wire.Message.{Addr, invalid, ip4, ip6, is_4, is_unspecified}
use dhcp_golib.Wire.Codec.{fit, put_addr, octets_or_zero, get_addr}

abbrev pub arp_htype_ethernet : ℕ
arp_htype_ethernet = 1

abbrev pub arp_ptype_ipv4 : ℕ
arp_ptype_ipv4 = 0x0800

abbrev pub arp_hlen_ethernet : ℕ
arp_hlen_ethernet = 6

abbrev pub arp_plen_ipv4 : ℕ
arp_plen_ipv4 = 4

abbrev pub arp_packet_len : ℕ
arp_packet_len = 28

abbrev pub arp_request : ℕ
arp_request = 1

abbrev pub arp_reply : ℕ
arp_reply = 2

pub record ArpPacket : Type 0 where
  pub op : ℕ  -- uint16
  pub sender_hw : List ℕ
  pub target_hw : List ℕ
  pub sender_ip : Addr
  pub target_ip : Addr

pub data ArpError : Type 0 where
  arp_short arp_family arp_addr_len arp_encode : ArpError

-- `ARPPacket.IsProbe`.
unfoldable pub is_probe : ArpPacket → Bool
is_probe p = p.op == arp_request && is_4 p.sender_ip && is_unspecified p.sender_ip

unfoldable pub decode_arp : List ℕ → Result ArpError ArpPacket
decode_arp b =
    if ltb (length b) arp_packet_len
    then err arp_short
    else if not (ube16 (slice 0 2 b) == arp_htype_ethernet)
        || not (ube16 (slice 2 4 b) == arp_ptype_ipv4)
    then err arp_family
    else if not (get_or b 4 0 == arp_hlen_ethernet) || not (get_or b 5 0 == arp_plen_ipv4)
    then err arp_addr_len
    else ok (record {
      op = ube16 (slice 6 8 b);
      sender_hw = slice 8 14 b;
      target_hw = slice 18 24 b;
      sender_ip = get_addr (slice 14 18 b);
      target_ip = get_addr (slice 24 28 b);
    })

-- The packet's 28 octets: the offsets 0, 2, 4, 5, 6, 8, 14, 18 and 24 of the source.
unfoldable pub arp_bytes : ArpPacket → List ℕ
arp_bytes p =
    be16 arp_htype_ethernet
    ++ (be16 arp_ptype_ipv4
        ++ (arp_hlen_ethernet
            ∷ arp_plen_ipv4
            ∷ (be16 p.op
                ++ (fit 6 p.sender_hw
                    ++ (put_addr p.sender_ip ++ (fit 6 p.target_hw ++ put_addr p.target_ip))))))

-- `EncodeARP`, of a packet that is not nil.
unfoldable pub encode_arp : ArpPacket → Result ArpError (List ℕ)
encode_arp p =
    if not (length p.sender_hw == arp_hlen_ethernet)
    then err arp_encode
    else if not (length p.target_hw == 0) && not (length p.target_hw == arp_hlen_ethernet)
    then err arp_encode
    else if not (is_4 p.sender_ip)
    then err arp_encode
    else if not (is_4 p.target_ip)
    then err arp_encode
    else ok (arp_bytes p)

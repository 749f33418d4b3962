-- ===== src/Tests/Options.antt =====
-- Options and ARP packets.
use dhcp_golib.Base.{
  ℕ, ◌≡◌, ◌≢◌, ◌≤◌, refl, true, List, [], ◌∷◌, ◌++◌, some, length, arith, ok, stuck, map,
}
use dhcp_golib.Wire.Bytes.{be64}
use dhcp_golib.Wire.Option.{Options, lookup, opt_user_class, opt_authentication, opt_domain_search}
use dhcp_golib.Wire.UserClass.{
  user_class, encode_user_class, class_total, class_bytes, user_class-encode_user_class,
}
use dhcp_golib.Wire.Vendor.{VendorData}
use dhcp_golib.Wire.Routes.{classless_routes, classless_source}
use dhcp_golib.Wire.Routes.Classless.{
  Descriptor, IsDescriptor, descriptors_bytes, route_of, classless_routes_read,
}
use dhcp_golib.Wire.Names.{
  domain_search, encode_name, trim_dot, ends_dot, split_dot, cons_head, encode_labels,
}
use dhcp_golib.Wire.Names.Total.{domain_search-ne-stuck}
use dhcp_golib.Wire.Names.RoundTrip.{domain_search-encode_name}
use dhcp_golib.Wire.Message.{ip4}
use dhcp_golib.Wire.Arp.{ArpPacket, encode_arp, decode_arp, arp_bytes}
use dhcp_golib.Wire.Arp.RoundTrip.{decode_arp-encode_arp, hw_on_wire}
use dhcp_golib.Wire.Auth.{encode_forcerenew_auth, forcerenew_auth_of, forcerenew_auth_round_trip}

abbrev unsorted : Options
unsorted = (61, 1 ∷ []) ∷ (12, 104 ∷ []) ∷ (53, 1 ∷ []) ∷ []

abbrev classes : List (List ℕ)
classes = (97 ∷ 98 ∷ []) ∷ (99 ∷ []) ∷ []

abbrev classes_bytes : List ℕ
classes_bytes = 2 ∷ 97 ∷ 98 ∷ 1 ∷ 99 ∷ []

abbrev only : ℕ → List ℕ → Options
only c v = (c, v) ∷ []

lookup-only : (c : ℕ) (v : List ℕ) → lookup c (only c v) ≡ some v
unfolding lookup
lookup-only c v = ground arith

classes_encoded : encode_user_class classes ≡ ok classes_bytes
unfolding encode_user_class class_total class_bytes
classes_encoded = refl

user_class-encode_user_class_example :
    (user_class (only opt_user_class classes_bytes) ≡ ok (some classes))
    × (1 ≤ length classes_bytes)
    × (length classes_bytes ≤ 255)
user_class-encode_user_class_example =
    user_class-encode_user_class classes classes_bytes (only opt_user_class classes_bytes)
      classes_encoded (lookup-only opt_user_class classes_bytes)

abbrev blocks : List VendorData
blocks =
    record { enterprise = 9; content = 1 ∷ 2 ∷ [] }
    ∷ record { enterprise = 4491; content = [] }
    ∷ []

-- 129.210.177.132/25 by 10.0.0.1: the destination has a host bit.
abbrev descriptor : Descriptor
descriptor = record { width = 25; a = 129; b = 210; c = 177; d = 132; e = 10; f = 0; g = 0; h = 1 }

descriptor-IsDescriptor : IsDescriptor descriptor
descriptor-IsDescriptor = record {
  width_fits = omega arith;
  a_byte = omega arith;
  b_byte = omega arith;
  c_byte = omega arith;
  d_byte = omega arith;
}

-- It is cleared.
destination_cleared : (route_of descriptor).dest ≡ record { addr = ip4 129 210 177 128; bits = 25 }
destination_cleared = refl

abbrev routed : Options
routed = only 121 (descriptors_bytes (descriptor ∷ []))

lookup-routed : lookup (classless_source routed) routed ≡ some (descriptors_bytes (descriptor ∷ []))
unfolding lookup classless_source
lookup-routed = refl

classless_routes_read_example : classless_routes routed ≡ ok (map route_of (descriptor ∷ []))
classless_routes_read_example =
    classless_routes_read routed descriptor [] (descriptor-IsDescriptor, tt) lookup-routed

-- A name that points at itself.
domain_search-ne-stuck_example : domain_search (only opt_domain_search (192 ∷ 0 ∷ [])) ≢ stuck
domain_search-ne-stuck_example = domain_search-ne-stuck (only opt_domain_search (192 ∷ 0 ∷ []))

-- `a.bc.`
abbrev name : List ℕ
name = 97 ∷ 46 ∷ 98 ∷ 99 ∷ 46 ∷ []

abbrev name_bytes : List ℕ
name_bytes = 1 ∷ 97 ∷ 2 ∷ 98 ∷ 99 ∷ 0 ∷ []

name_encoded : encode_name name ≡ ok name_bytes
unfolding encode_name trim_dot ends_dot split_dot cons_head encode_labels
name_encoded = refl

name_dotted : ends_dot name ≡ true
unfolding ends_dot
name_dotted = refl

name_full : trim_dot name ≢ []
unfolding trim_dot
name_full = λ e. cc

domain_search-encode_name_example :
    domain_search (only opt_domain_search name_bytes) ≡ ok (trim_dot name ∷ [])
domain_search-encode_name_example =
    domain_search-encode_name name name_bytes (only opt_domain_search name_bytes) name_encoded
      name_dotted name_full (lookup-only opt_domain_search name_bytes)

abbrev request : ArpPacket
request = record {
  op = 1;
  sender_hw = 2 ∷ 0 ∷ 0 ∷ 0 ∷ 0 ∷ 1 ∷ [];
  target_hw = [];
  sender_ip = ip4 0 0 0 0;
  target_ip = ip4 192 168 1 7;
}

request_encoded : encode_arp request ≡ ok (arp_bytes request)
unfolding encode_arp
request_encoded = refl

decode_arp-encode_arp_example :
    (length (arp_bytes request) ≡ 28)
    × (decode_arp (arp_bytes request ++ 0 ∷ [])
        ≡ ok (record request { target_hw = hw_on_wire request.target_hw }))
decode_arp-encode_arp_example =
    decode_arp-encode_arp request (arp_bytes request) (0 ∷ []) (omega arith) request_encoded

abbrev nonce : List ℕ
nonce = 1 ∷ 2 ∷ 3 ∷ 4 ∷ 5 ∷ 6 ∷ 7 ∷ 8 ∷ 9 ∷ 10 ∷ 11 ∷ 12 ∷ 13 ∷ 14 ∷ 15 ∷ 16 ∷ []

abbrev auth_value : List ℕ
auth_value = 3 ∷ 1 ∷ 0 ∷ (be64 77 ++ (1 ∷ nonce))

auth_encoded : encode_forcerenew_auth 1 nonce 77 ≡ ok auth_value
unfolding encode_forcerenew_auth
auth_encoded = refl

forcerenew_auth_round_trip_example :
    forcerenew_auth_of (only opt_authentication auth_value)
    ≡ ok (some (record { kind = 1; replay = 77; nonce = nonce }))
forcerenew_auth_round_trip_example =
    forcerenew_auth_round_trip 1 77 nonce auth_value (only opt_authentication auth_value)
      (omega arith) auth_encoded (lookup-only opt_authentication auth_value)

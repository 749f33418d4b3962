-- ===== src/Wire/Option.antt =====
-- wire/option.go: option codes, the map from codes to values, and its sorted list of codes.
pub mod Map
pub mod Order
use dhcp_golib.Base.{ℕ, List, [], ◌∷◌, ◌++◌, map, Option, none, some, if◌then◌else◌, ◌==◌, leb}

-- The `OptionCode` constants, a uint8 each.
abbrev pub opt_pad : ℕ
opt_pad = 0

abbrev pub opt_subnet_mask : ℕ
opt_subnet_mask = 1

abbrev pub opt_router : ℕ
opt_router = 3

abbrev pub opt_dns_server : ℕ
opt_dns_server = 6

abbrev pub opt_domain_name : ℕ
opt_domain_name = 15

abbrev pub opt_interface_mtu : ℕ
opt_interface_mtu = 26

abbrev pub opt_static_route : ℕ
opt_static_route = 33

abbrev pub opt_vendor_specific : ℕ
opt_vendor_specific = 43

abbrev pub opt_lease_time : ℕ
opt_lease_time = 51

abbrev pub opt_overload : ℕ
opt_overload = 52

abbrev pub opt_message_type : ℕ
opt_message_type = 53

abbrev pub opt_server_id : ℕ
opt_server_id = 54

abbrev pub opt_renewal_time : ℕ
opt_renewal_time = 58

abbrev pub opt_rebinding_time : ℕ
opt_rebinding_time = 59

abbrev pub opt_user_class : ℕ
opt_user_class = 77

abbrev pub opt_rapid_commit : ℕ
opt_rapid_commit = 80

abbrev pub opt_authentication : ℕ
opt_authentication = 90

abbrev pub opt_ipv6_only_preferred : ℕ
opt_ipv6_only_preferred = 108

abbrev pub opt_domain_search : ℕ
opt_domain_search = 119

abbrev pub opt_classless_static_rte : ℕ
opt_classless_static_rte = 121

abbrev pub opt_vivso : ℕ
opt_vivso = 125

abbrev pub opt_forcerenew_nonce : ℕ
opt_forcerenew_nonce = 145

abbrev pub opt_ms_classless_static_rte : ℕ
opt_ms_classless_static_rte = 249

abbrev pub opt_end : ℕ
opt_end = 255

abbrev pub opt_time_offset : ℕ
opt_time_offset = 2

abbrev pub opt_host_name : ℕ
opt_host_name = 12

abbrev pub opt_broadcast_address : ℕ
opt_broadcast_address = 28

abbrev pub opt_ntp_server : ℕ
opt_ntp_server = 42

abbrev pub opt_requested_ip : ℕ
opt_requested_ip = 50

abbrev pub opt_parameter_list : ℕ
opt_parameter_list = 55

abbrev pub opt_message : ℕ
opt_message = 56

abbrev pub opt_vendor_class_id : ℕ
opt_vendor_class_id = 60

abbrev pub opt_client_id : ℕ
opt_client_id = 61

abbrev pub opt_tftp_server : ℕ
opt_tftp_server = 66

abbrev pub opt_bootfile_name : ℕ
opt_bootfile_name = 67

abbrev pub opt_fqdn : ℕ
opt_fqdn = 81

abbrev pub opt_posix_timezone : ℕ
opt_posix_timezone = 100

abbrev pub opt_tz_database : ℕ
opt_tz_database = 101

abbrev pub opt_wpad : ℕ
opt_wpad = 252

-- `map[OptionCode][]byte`: an association list. A map has a key once (`Distinct`, in Map); the order
-- of the list stands for Go's unspecified order of iteration. A nil map is the empty list.
abbrev pub Options : Type 0
Options = List (ℕ × List ℕ)

-- `v, ok := o[c]`.
unfoldable pub lookup : ℕ → Options → Option (List ℕ)
lookup c [] = none
lookup c ((k, v) ∷ o) = if k == c then some v else lookup c o

-- `o[c]` without the test: nil for a missing key.
unfoldable pub value : ℕ → Options → List ℕ
unfolding lookup
value c o = elim (lookup c o) [ none ↦ [] | some v ↦ v ]

-- `o[c] = v`.
unfoldable pub assign : ℕ → List ℕ → Options → Options
assign c v [] = (c, v) ∷ []
assign c v ((k, w) ∷ o) = if k == c then (c, v) ∷ o else (k, w) ∷ assign c v o

-- The keys, in the order of iteration.
abbrev pub keys : Options → List ℕ
keys [] = []
keys ((k, v) ∷ o) = k ∷ keys o

-- `sort.Slice` by `<`.
unfoldable pub insert_code : ℕ → List ℕ → List ℕ
insert_code c [] = c ∷ []
insert_code c (d ∷ ds) = if leb c d then c ∷ d ∷ ds else d ∷ insert_code c ds

unfoldable pub sort_codes : List ℕ → List ℕ
unfolding insert_code
sort_codes [] = []
sort_codes (c ∷ cs) = insert_code c (sort_codes cs)

-- `Options.Codes`.
unfoldable pub codes : Options → List ℕ
unfolding sort_codes
codes o = sort_codes (keys o)

-- `Options.Clone`: every value copied, so the value of the model is the same.
unfoldable pub clone : Options → Options
clone [] = []
clone ((k, v) ∷ o) = (k, [] ++ v) ∷ clone o

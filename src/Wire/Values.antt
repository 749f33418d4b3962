-- ===== src/Wire/Values.antt =====
-- wire/values.go and wire/option.go: the readers of options of a fixed shape.
use dhcp_golib.Base.{
  ℕ, ◌^◌, ◌%◌, ◌<◌, ◌≡◌, Bool, true, false, ◌||◌, ◌&&◌, not, List, [], ◌∷◌, Option, none, some,
  if◌then◌else◌, ◌==◌, arith, length, Result, ok, err,
}
use dhcp_golib.Wire.Bytes.{be32, ube32, ube16}
use dhcp_golib.Wire.Option.{
  Options, lookup, assign, opt_rapid_commit, opt_ipv6_only_preferred, opt_forcerenew_nonce,
  opt_vendor_specific,
}
use dhcp_golib.Wire.Option.Map.{lookup-assign}
use dhcp_golib.Wire.Message.{Addr, ip4}

-- The error values of option.go and values.go.
pub data OptionError : Type 0 where
  bad_option_value malformed_routes malformed_names bad_fqdn_flags bad_name malformed_vendor :
      OptionError

-- `(v, ok)` is an Option; `(v, present, err)` is a Result over an Option, `ok none` if absent.
unfoldable pub addr_of : List ℕ → Option Addr
addr_of (a ∷ b ∷ c ∷ d ∷ []) = some (ip4 a b c d)
addr_of _ = none

-- `Options.Addr4`.
unfoldable pub addr4 : ℕ → Options → Option Addr
unfolding addr_of
addr4 c o = elim (lookup c o) [ none ↦ none | some v ↦ addr_of v ]

-- The loop of `Options.Addrs4`, whose length is a multiple of four.
unfoldable pub addrs_of : List ℕ → List Addr
addrs_of (a ∷ b ∷ c ∷ d ∷ r) = ip4 a b c d ∷ addrs_of r
addrs_of _ = []

-- `Options.Addrs4`.
unfoldable pub addrs4 : ℕ → Options → Option (List Addr)
unfolding addrs_of
addrs4 c o = elim (lookup c o) [
  | none ↦ none
  | some v ↦ if length v == 0 || not (length v % 4 == 0) then none else some (addrs_of v)
]

-- `Options.Uint32`.
unfoldable pub uint32 : ℕ → Options → Option ℕ
uint32 c o = elim (lookup c o) [
  | none ↦ none
  | some v ↦ if length v == 4 then some (ube32 v) else none
]

-- `Options.Uint16`.
unfoldable pub uint16 : ℕ → Options → Option ℕ
uint16 c o = elim (lookup c o) [
  | none ↦ none
  | some v ↦ if length v == 2 then some (ube16 v) else none
]

-- The loop of `Options.Text`: trailing NULs are dropped.
unfoldable pub trim_trailing_nul : List ℕ → List ℕ
trim_trailing_nul [] = []
trim_trailing_nul (c ∷ b) =
    let rest = trim_trailing_nul b in if c == 0 && length rest == 0 then [] else c ∷ rest

unfoldable pub text : ℕ → Options → Option (List ℕ)
unfolding trim_trailing_nul
text c o = elim (lookup c o) [ none ↦ none | some v ↦ some (trim_trailing_nul v) ]

-- `EncodeRapidCommit` and `Options.RapidCommit`.
unfoldable pub encode_rapid_commit : List ℕ
encode_rapid_commit = []

unfoldable pub rapid_commit : Options → Result OptionError Bool
rapid_commit o = elim (lookup opt_rapid_commit o) [
  | none ↦ ok false
  | some v ↦ if length v == 0 then ok true else err bad_option_value
]

-- `EncodeIPv6OnlyPreferred` and `Options.IPv6OnlyPreferred`.
unfoldable pub encode_ipv6_only_preferred : ℕ → List ℕ
encode_ipv6_only_preferred seconds = be32 seconds

unfoldable pub ipv6_only_preferred : Options → Result OptionError (Option ℕ)
ipv6_only_preferred o = elim (lookup opt_ipv6_only_preferred o) [
  | none ↦ ok none
  | some v ↦ if length v == 4 then ok (some (ube32 v)) else err bad_option_value
]

-- `EncodeForcerenewNonceCapable` and `Options.ForcerenewNonceAlgorithms`.
abbrev pub forcerenew_algorithm_hmac_md5 : ℕ
forcerenew_algorithm_hmac_md5 = 1

unfoldable pub encode_forcerenew_nonce_capable : List ℕ
encode_forcerenew_nonce_capable = forcerenew_algorithm_hmac_md5 ∷ []

unfoldable pub forcerenew_nonce_algorithms : Options → Result OptionError (Option (List ℕ))
forcerenew_nonce_algorithms o = elim (lookup opt_forcerenew_nonce o) [
  | none ↦ ok none
  | some v ↦ if length v == 0 then err bad_option_value else ok (some v)
]

-- `Options.VendorSpecific`.
unfoldable pub vendor_specific : Options → Option (List ℕ)
vendor_specific o = lookup opt_vendor_specific o

-- Each of the three client options is read back from what its encoder writes: Rapid Commit as set,
-- the IPv6-only wait as its 32-bit number of seconds, the nonce algorithms as the one supported.
pub client_options_round_trip :
    (seconds : ℕ) (o : Options)
    → seconds < 2 ^ 32
    → (rapid_commit (assign opt_rapid_commit encode_rapid_commit o) ≡ ok true)
      × (ipv6_only_preferred (assign opt_ipv6_only_preferred (encode_ipv6_only_preferred seconds) o)
          ≡ ok (some seconds))
      × (forcerenew_nonce_algorithms (assign opt_forcerenew_nonce encode_forcerenew_nonce_capable o)
          ≡ ok (some (forcerenew_algorithm_hmac_md5 ∷ [])))
unfolding rapid_commit encode_rapid_commit ipv6_only_preferred encode_ipv6_only_preferred
    forcerenew_nonce_algorithms encode_forcerenew_nonce_capable be32 ube32
client_options_round_trip seconds o h = (
  ground (arith, lookup-assign opt_rapid_commit opt_rapid_commit [] o),
  ground (arith, lookup-assign opt_ipv6_only_preferred opt_ipv6_only_preferred (be32 seconds) o),
  ground (arith, lookup-assign opt_forcerenew_nonce opt_forcerenew_nonce (1 ∷ []) o),
)

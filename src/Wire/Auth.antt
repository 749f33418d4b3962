-- ===== src/Wire/Auth.antt =====
-- wire/option_auth.go: option 90 in the shape of the Forcerenew Nonce protocol (RFC 6704).
pub mod Verify
use dhcp_golib.Base.{
  ℕ, ◌+◌, ◌-◌, ◌^◌, ◌<◌, ◌≡◌, ◌⊎◌, append-nil, replicate, ap, ◌∙◌, ◌&&◌, not, List, ◌∷◌, ◌++◌,
  Option, none, some, if◌then◌else◌, ◌==◌, ltb, arith, length, drop, slice, get_or, Result, ok, err,
}
use dhcp_golib.Wire.Bytes.{be64, ube64, ube64-be64}
use dhcp_golib.Wire.Option.{Options, lookup, opt_authentication}
use dhcp_golib.Wire.Codec.{fit}
use dhcp_golib.Wire.Codec.Layout.{take_all}

abbrev pub auth_fixed_len : ℕ
auth_fixed_len = 11

abbrev pub auth_protocol_rkap : ℕ
auth_protocol_rkap = 3

abbrev pub auth_algorithm_hmac : ℕ
auth_algorithm_hmac = 1

abbrev pub auth_rdm_monotonic : ℕ
auth_rdm_monotonic = 0

abbrev pub forcerenew_type_nonce : ℕ
forcerenew_type_nonce = 1

abbrev pub forcerenew_type_digest : ℕ
forcerenew_type_digest = 2

abbrev pub forcerenew_nonce_len : ℕ
forcerenew_nonce_len = 16

pub record ForcerenewAuth : Type 0 where
  pub kind : ℕ
  pub replay : ℕ  -- uint64
  pub nonce : List ℕ

pub data AuthError : Type 0 where
  forcerenew_auth forcerenew_nonce : AuthError

-- `decodeForcerenewAuth`.
unfoldable pub decode_forcerenew_auth : List ℕ → Result AuthError ForcerenewAuth
decode_forcerenew_auth v =
    let kind = get_or v auth_fixed_len 0 in
    if ltb (length v) auth_fixed_len
    then err forcerenew_auth
    else if not (get_or v 0 0 == auth_protocol_rkap)
    then err forcerenew_auth
    else if not (get_or v 1 0 == auth_algorithm_hmac)
    then err forcerenew_auth
    else if not (get_or v 2 0 == auth_rdm_monotonic)
    then err forcerenew_auth
    else if not (length v - auth_fixed_len == 1 + forcerenew_nonce_len)
    then err forcerenew_auth
    else if not (kind == forcerenew_type_nonce) && not (kind == forcerenew_type_digest)
    then err forcerenew_auth
    else ok (record {
      kind = kind;
      replay = ube64 (slice 3 11 v);
      nonce = fit forcerenew_nonce_len (drop (auth_fixed_len + 1) v);
    })

-- `Options.ForcerenewAuth`.
unfoldable pub forcerenew_auth_of : Options → Result AuthError (Option ForcerenewAuth)
forcerenew_auth_of o = elim (lookup opt_authentication o) [
  | none ↦ ok none
  | some v ↦ elim (decode_forcerenew_auth v) [
    | Result.ok a ↦ ok (some a)
    | Result.err e ↦ err e
    | Result.stuck ↦ Result.stuck
  ]
]

-- `EncodeForcerenewAuth`.
unfoldable pub encode_forcerenew_auth : ℕ → List ℕ → ℕ → Result AuthError (List ℕ)
encode_forcerenew_auth typ nonce replay =
    if not (length nonce == forcerenew_nonce_len)
    then err forcerenew_nonce
    else if not (typ == forcerenew_type_nonce) && not (typ == forcerenew_type_digest)
    then err forcerenew_auth
    else ok (
        auth_protocol_rkap
        ∷ auth_algorithm_hmac
        ∷ auth_rdm_monotonic
        ∷ (be64 replay ++ (typ ∷ nonce)))

fit_whole : (n : ℕ) (b : List ℕ) → length b ≡ n → fit n b ≡ b
unfolding fit
fit_whole n b e =
    let nothing : n - length b ≡ 0 = omega arith in
    rw (take_all n b (omega arith)) (ap (λ k. b ++ replicate k 0) nothing ∙ append-nil b)

decode_encoded :
    (typ replay : ℕ) (nonce : List ℕ)
    → length nonce ≡ 16
    → (typ ≡ 1) ⊎ (typ ≡ 2)
    → replay < 2 ^ 64
    → decode_forcerenew_auth (3 ∷ 1 ∷ 0 ∷ (be64 replay ++ (typ ∷ nonce)))
      ≡ ok (record { kind = typ; replay = replay; nonce = nonce })
unfolding decode_forcerenew_auth be64
decode_encoded typ replay nonce len kind h =
    ground (arith, fit_whole 16 nonce len, ube64-be64 replay h)

encode_forcerenew_auth_inv :
    (typ replay : ℕ) (nonce v : List ℕ)
    → encode_forcerenew_auth typ nonce replay ≡ ok v
    → (length nonce ≡ 16)
      × ((typ ≡ 1) ⊎ (typ ≡ 2))
      × (v ≡ 3 ∷ 1 ∷ 0 ∷ (be64 replay ++ (typ ∷ nonce)))
unfolding encode_forcerenew_auth
encode_forcerenew_auth_inv typ replay nonce v e = ground arith

-- What `EncodeForcerenewAuth` accepts is read back from option 90: the type, the nonce or digest of
-- 16 octets, and the replay value of 64 bits.
pub forcerenew_auth_round_trip :
    (typ replay : ℕ) (nonce v : List ℕ) (o : Options)
    → replay < 2 ^ 64
    → encode_forcerenew_auth typ nonce replay ≡ ok v
    → lookup opt_authentication o ≡ some v
    → forcerenew_auth_of o ≡ ok (some (record { kind = typ; replay = replay; nonce = nonce }))
unfolding forcerenew_auth_of
forcerenew_auth_round_trip typ replay nonce v o h e l =
    let (len, kind, bytes) = encode_forcerenew_auth_inv typ replay nonce v e in
    ground (arith, l, bytes, decode_encoded typ replay nonce len kind h)

-- ===== src/Wire/Auth/Verify.antt =====
-- wire/option_auth.go: forcerenewSpan and VerifyForcerenew, which authenticate a FORCERENEW over the
-- octets that arrived.
use dhcp_golib.Base.{
  ℕ, zero, suc, ◌+◌, ◌/◌, ◌%◌, Bool, true, false, ◌&&◌, not, List, [], ◌∷◌, ◌++◌, if◌then◌else◌,
  ◌==◌, ltb, leb, length, slice, get_or, Result, ok, err, stuck, ◌>>=◌, ◌≡◌, inl, inr, arith,
  Result-forms, Bool-cases,
}
use dhcp_golib.Wire.Option.{opt_pad, opt_end, opt_authentication, opt_overload}
use dhcp_golib.Wire.Codec.{
  fixed_len, header_len, file_off, file_len, sname_off, sname_len, CodecError, short, bad_cookie,
  truncated_option, option_overrun,
}
use dhcp_golib.Wire.Auth.{
  auth_fixed_len, forcerenew_type_digest, forcerenew_nonce_len, decode_forcerenew_auth,
}
use dhcp_golib.Wire.HmacMd5.{cleared, zeroed_hmac_matches}

abbrev pub hops_off : ℕ
hops_off = 3

abbrev pub giaddr_off : ℕ
giaddr_off = 24

-- What VerifyForcerenew returns other than nil: an error of the option walk, ErrForcerenewAuth,
-- ErrForcerenewNonce or ErrForcerenewDigest.
pub data VerifyError : Type 0 where
  unreadable : CodecError → VerifyError
  not_digest_shape nonce_length bad_digest : VerifyError

-- What the walks have collected: the place of each option 90, as its start and its length, and the
-- values of option 52 behind one another.
pub record Found : Type 0 where
  pub auth : List (ℕ × ℕ)
  pub overload : List ℕ

unfoldable pub noted : List ℕ → ℕ → Found → Found
noted raw i f =
    let n = get_or raw (i + 1) 0 in
    let c = get_or raw i 0 in
    if c == opt_authentication
    then record f { auth = f.auth ++ (i + 2, n) ∷ [] }
    else if c == opt_overload
    then record f { overload = f.overload ++ slice (i + 2) (i + 2 + n) raw }
    else f

-- The closure `walk`, from `i` up to `end`. A round takes an octet at least.
unfoldable pub walk : ℕ → List ℕ → ℕ → ℕ → Found → Result VerifyError Found
unfolding noted
walk zero raw i end f = if ltb i end then stuck else ok f
walk (suc fuel) raw i end f =
    let c = get_or raw i 0 in
    let n = get_or raw (i + 1) 0 in
    let past_pad = walk fuel raw (i + 1) end f in
    let rest = walk fuel raw (i + 2 + n) end (noted raw i f) in
    if not (ltb i end)
    then ok f
    else if c == opt_pad
    then past_pad
    else if c == opt_end
    then ok f
    else if leb end (i + 1)
    then err (unreadable truncated_option)
    else if ltb end (i + 2 + n)
    then err (unreadable option_overrun)
    else rest

unfoldable pub overload_octet : List ℕ → ℕ
overload_octet (v ∷ []) = v
overload_octet _ = 0

-- The walk of the file or the sname field, where option 52 says that it holds options.
unfoldable pub walk_field : Bool → List ℕ → ℕ → ℕ → Found → Result VerifyError Found
walk_field holds raw off len f = elim holds [ true ↦ walk len raw off (off + len) f | false ↦ ok f ]

-- The three walks.
unfoldable pub collect : List ℕ → Result VerifyError Found
unfolding walk overload_octet walk_field
collect raw = do
  f ← walk (length raw) raw header_len (length raw) (record { auth = []; overload = [] })
  let ov = overload_octet f.overload
  g ← walk_field (ov % 2 == 1) raw file_off file_len f
  walk_field (ov / 2 % 2 == 1) raw sname_off sname_len g

-- The end of `forcerenewSpan`: one option 90, of the digest's shape.
unfoldable pub digest_start : List ℕ → List (ℕ × ℕ) → Result VerifyError ℕ
digest_start raw ((start, n) ∷ []) = elim (decode_forcerenew_auth (slice start (start + n) raw)) [
  | ok a ↦
      if a.kind == forcerenew_type_digest
      then ok (start + auth_fixed_len + 1)
      else err not_digest_shape
  | err e ↦ err not_digest_shape
  | stuck ↦ stuck
]
digest_start raw _ = err not_digest_shape

unfoldable pub is_magic : List ℕ → Bool
is_magic (a ∷ b ∷ c ∷ d ∷ _) = a == 99 && b == 130 && c == 83 && d == 99
is_magic _ = false

-- `forcerenewSpan`.
unfoldable pub forcerenew_span : List ℕ → Result VerifyError ℕ
unfolding collect digest_start is_magic
forcerenew_span raw =
    let found = collect raw >>= λ f. digest_start raw f.auth in
    if ltb (length raw) header_len
    then err (unreadable short)
    else if not (is_magic (slice fixed_len header_len raw))
    then err (unreadable bad_cookie)
    else found

-- `masked`: the two fields that a relay agent rewrites are cleared.
unfoldable pub masked : List ℕ → List ℕ
unfolding cleared
masked raw = cleared giaddr_off (giaddr_off + 4) (cleared hops_off (hops_off + 1) raw)

-- The end of `VerifyForcerenew`: true is its nil error.
unfoldable pub check_digest : List ℕ → List ℕ → ℕ → Result VerifyError Bool
check_digest raw nonce start =
    if zeroed_hmac_matches nonce (masked raw) start (start + forcerenew_nonce_len)
    then ok true
    else err bad_digest

-- `VerifyForcerenew`.
unfoldable pub verify_forcerenew : List ℕ → List ℕ → Result VerifyError Bool
verify_forcerenew raw nonce =
    let checked = forcerenew_span raw >>= check_digest raw nonce in
    if length nonce == forcerenew_nonce_len then checked else err nonce_length

check_digest-true :
    (raw nonce : List ℕ) (start : ℕ) (v : Bool) → check_digest raw nonce start ≡ ok v → v ≡ true
unfolding check_digest
check_digest-true raw nonce start v e =
    elim (Bool-cases
      (zeroed_hmac_matches nonce (masked raw) start (start + forcerenew_nonce_len))) [
        | inl t ↦ ground (arith, t)
        | inr t ↦ ground (arith, t)
      ]

-- Its only value is the nil error.
pub verify_forcerenew-true :
    (raw nonce : List ℕ) (v : Bool) → verify_forcerenew raw nonce ≡ ok v → v ≡ true
unfolding verify_forcerenew
verify_forcerenew-true raw nonce v e = elim (Result-forms (forcerenew_span raw)) [
  | inl (start, f) ↦ ground (arith, f, check_digest-true raw nonce start v)
  | inr (inl (why, f)) ↦ ground (arith, f)
  | inr (inr f) ↦ ground (arith, f)
]

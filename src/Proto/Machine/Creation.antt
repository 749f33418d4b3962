-- ===== src/Proto/Machine/Creation.antt =====
-- proto/machine.go: New refuses what validate refuses, and nothing else.
use dhcp_golib.Base.{
  ℕ, ◌≡◌, ◌≢◌, ◌↔◌, Bool, false, ◌&&◌, not, List, [], ◌∷◌, none, some, ◌==◌, arith, length,
  Option-cases, inl, inr, ok, err, stuck, Result-forms, All,
}
use dhcp_golib.Proto.Params.{
  Params, ParamError, validate_params, param_tests, first_failure, is_ok, fqdn_flags,
}
use dhcp_golib.Proto.Machine.{
  Machine, new, fresh, completed, encoded, encoded_user_class, encoded_fqdn,
}
use dhcp_golib.Wire.Names.{encode_fqdn}
use dhcp_golib.Wire.UserClass.{encode_user_class}

-- No test of a list that has no first failure holds.
no_failure :
    (tests : List (Bool × ParamError)) → first_failure tests ≡ none → All (λ t. t.0 ≡ false) tests
unfolding first_failure
no_failure [] h = tt
no_failure ((failed, e) ∷ rest) h = (ground arith, no_failure rest (ground arith))

abbrev class_refused : Params → Bool
class_refused p = not (length p.user_class == 0) && not (is_ok (encode_user_class p.user_class))

abbrev name_refused : Params → Bool
name_refused p =
    not (length p.fqdn.name == 0) && not (is_ok (encode_fqdn (fqdn_flags p.fqdn) p.fqdn.name))

class_err : (p : Params) (e : ParamError) → class_refused p ≡ false → encoded_user_class p ≢ err e
unfolding encoded_user_class
class_err p e u h = ground arith

class_stuck : (p : Params) → class_refused p ≡ false → encoded_user_class p ≢ stuck
unfolding encoded_user_class
class_stuck p u h = ground arith

name_err : (p : Params) (e : ParamError) → name_refused p ≡ false → encoded_fqdn p ≢ err e
unfolding encoded_fqdn
name_err p e u h = ground arith

name_stuck : (p : Params) → name_refused p ≡ false → encoded_fqdn p ≢ stuck
unfolding encoded_fqdn
name_stuck p u h = ground arith

class_ok : (p : Params) → class_refused p ≡ false → (v : List ℕ) × (encoded_user_class p ≡ ok v)
class_ok p u = elim (Result-forms (encoded_user_class p)) [
  | inl given ↦ given
  | inr (inl (e, h)) ↦ absurd (class_err p e u h)
  | inr (inr h) ↦ absurd (class_stuck p u h)
]

name_ok : (p : Params) → name_refused p ≡ false → (v : List ℕ) × (encoded_fqdn p ≡ ok v)
name_ok p u = elim (Result-forms (encoded_fqdn p)) [
  | inl given ↦ given
  | inr (inl (e, h)) ↦ absurd (name_err p e u h)
  | inr (inr h) ↦ absurd (name_stuck p u h)
]

encoded-ok :
    (p : Params)
    → name_refused p ≡ false
    → class_refused p ≡ false
    → (m : Machine) × (encoded p ≡ ok m)
unfolding encoded
encoded-ok p f u =
    let (class, given) = class_ok p u in
    let (name, told) = name_ok p f in (fresh (completed p class name), ground (arith, given, told))

-- The two tests that `New` repeats have passed.
validated :
    (p : Params) → validate_params p ≡ none → (name_refused p ≡ false) × (class_refused p ≡ false)
unfolding validate_params
validated p h =
    let each = no_failure (param_tests p) h in
    (each.1.1.1.1.1.1.1.1.1.0, each.1.1.1.1.1.1.1.1.1.1.0)

-- New returns an error exactly where validate does, the same one, and a machine exactly where
-- validate returns none: the encodings that it repeats do not fail.
pub new-refuses :
    (p : Params)
    → ((e : ParamError) → (new p ≡ err e) ↔ (validate_params p ≡ some e))
      × (((m : Machine) × (new p ≡ ok m)) ↔ (validate_params p ≡ none))
unfolding new
new-refuses p = elim (Option-cases (validate_params p)) [
  | inl h ↦
      let (f, u) = validated p h in
      let (m, made) = encoded-ok p f u in
      (
        λ e. (λ k. ground (arith, h, made), λ k. ground (arith, h)),
        (λ k. h, λ k. (m, ground (arith, h, made))),
      )
  | inr (why, h) ↦ (
    λ e. (λ k. ground (arith, h), λ k. ground (arith, h)),
    (λ k. absurd (ground (arith, h, k.1)), λ k. absurd (ground (arith, h))),
  )
]

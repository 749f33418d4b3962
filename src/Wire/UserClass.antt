-- ===== src/Wire/UserClass.antt =====
-- wire/option.go: EncodeUserClass and Options.UserClass, option 77 (RFC 3004).
use dhcp_golib.Base.{
  ℕ, zero, suc, ◌+◌, ◌%◌, ◌≤◌, ◌≡◌, ◌≢◌, refl, sym, ap, ◌∙◌, false, ◌||◌, List, [], ◌∷◌, ◌++◌,
  Option, none, some, if◌then◌else◌, ◌==◌, ltb, arith, length, take, drop, Result, ok, err, stuck,
  ◌>>=◌, append-nil, append_assoc, length-append, take-append, drop-append, All, >>=-eq-ok,
  if_err-eq-ok, ltb→le, Option-cases, inl, inr, ap₂, length-take, length-drop, take-append-drop,
}
use dhcp_golib.Wire.Bytes.{IsBytes, drop-IsBytes}
use dhcp_golib.Wire.Option.{Options, lookup, opt_user_class}
use dhcp_golib.Wire.Values.{OptionError, bad_option_value}

abbrev pub max_user_class_instance : ℕ
max_user_class_instance = 254

-- The first loop of `EncodeUserClass`: the total of the instances, or the refusal of one of them.
unfoldable pub class_total : ℕ → List (List ℕ) → Result OptionError ℕ
class_total total [] = ok total
class_total total (c ∷ cs) =
    let rest = class_total (total + (1 + length c)) cs in
    if length c == 0 || ltb max_user_class_instance (length c) then err bad_option_value else rest

-- The second loop: each instance behind its length octet.
unfoldable pub class_bytes : List (List ℕ) → List ℕ
class_bytes [] = []
class_bytes (c ∷ cs) = (length c % 256) ∷ (c ++ class_bytes cs)

unfoldable pub encode_user_class : List (List ℕ) → Result OptionError (List ℕ)
encode_user_class [] = err bad_option_value
encode_user_class (c ∷ cs) = do
  total ← class_total 0 (c ∷ cs)
  if ltb 255 total then err bad_option_value else ok (class_bytes (c ∷ cs))

-- The loop of `Options.UserClass`, on what is left of the value. A round takes an octet at least.
unfoldable pub user_class_loop : ℕ → List ℕ → List (List ℕ) → Result OptionError (List (List ℕ))
user_class_loop fuel [] out = ok out
user_class_loop zero (n ∷ b) out = stuck
user_class_loop (suc fuel) (n ∷ b) out =
    let rest = user_class_loop fuel (drop n b) (out ++ take n b ∷ []) in
    if n == 0 then err bad_option_value else if ltb (length b) n then err bad_option_value else rest

unfoldable pub user_class_value : List ℕ → Result OptionError (Option (List (List ℕ)))
user_class_value v =
    if length v == 0
    then err bad_option_value
    else (user_class_loop (length v) v [] >>= λ out. ok (some out))

unfoldable pub user_class : Options → Result OptionError (Option (List (List ℕ)))
user_class o = elim (lookup opt_user_class o) [ none ↦ ok none | some v ↦ user_class_value v ]

-- What RFC 3004 section 4 allows.
abbrev pub IsClass : List ℕ → Type 0
IsClass c = (1 ≤ length c) × (length c ≤ 254)

class_total-ok :
    (total : ℕ) (cs : List (List ℕ)) (t : ℕ)
    → class_total total cs ≡ ok t
    → All IsClass cs × (t ≡ total + length (class_bytes cs))
unfolding class_total class_bytes
class_total-ok total [] t e = ground arith
class_total-ok total (c ∷ cs) t e =
    ground (arith, class_total-ok (total + (1 + length c)) cs t, length-append c (class_bytes cs))

user_class_loop-classes :
    (fuel : ℕ) (cs out : List (List ℕ))
    → All IsClass cs
    → length (class_bytes cs) ≤ fuel
    → user_class_loop fuel (class_bytes cs) out ≡ ok (out ++ cs)
unfolding user_class_loop class_bytes
user_class_loop-classes fuel [] out h f = ap ok (sym (append-nil out))
user_class_loop-classes zero (c ∷ cs) out h f = absurd (omega arith)
user_class_loop-classes (suc fuel) (c ∷ cs) out h f =
    let n : length c % 256 ≡ length c = omega arith in
    rw
      (
        n,
        drop-append (length c) c (class_bytes cs) refl,
        take-append (length c) c (class_bytes cs) refl,
      )
      (ground (
        arith,
        length-append c (class_bytes cs),
        append_assoc out (c ∷ []) cs,
        user_class_loop-classes fuel cs (out ++ c ∷ []) h.1,
      ))

encode_user_class_inv :
    (cs : List (List ℕ)) (v : List ℕ)
    → encode_user_class cs ≡ ok v
    → All IsClass cs × (v ≡ class_bytes cs) × (1 ≤ length v) × (length v ≤ 255)
unfolding encode_user_class class_bytes
encode_user_class_inv [] v e = cc
encode_user_class_inv (c ∷ cs) v e =
    let (t, e₁, e₂) = >>=-eq-ok (class_total 0 (c ∷ cs)) _ e in
    let (valid, total) = class_total-ok 0 (c ∷ cs) t e₁ in
    let (small, whole) : (ltb 255 t ≡ false) × (v ≡ class_bytes (c ∷ cs)) =
      if_err-eq-ok bad_option_value _ e₂ in
    (
      valid,
      whole,
      omega (arith, ap length whole),
      omega (arith, ap length whole, ltb→le 255 t small),
    )

-- What `EncodeUserClass` accepts, it renders in 1 to 255 octets, and `UserClass` reads the same
-- classes back.
pub user_class-encode_user_class :
    (cs : List (List ℕ)) (v : List ℕ) (o : Options)
    → encode_user_class cs ≡ ok v
    → lookup opt_user_class o ≡ some v
    → (user_class o ≡ ok (some cs)) × (1 ≤ length v) × (length v ≤ 255)
unfolding user_class user_class_value
user_class-encode_user_class cs v o e l =
    let (valid, bytes, lo, hi) = encode_user_class_inv cs v e in
    (
      rw (l, user_class, bytes)
          (ground (
            arith,
            ap length bytes,
            user_class_loop-classes (length (class_bytes cs)) cs [] valid (omega arith),
          )),
      lo,
      hi,
    )

user_class_loop_step :
    (fuel n : ℕ) (b : List ℕ) (out cs : List (List ℕ))
    → user_class_loop (suc fuel) (n ∷ b) out ≡ ok cs
    → (n ≤ length b) × (user_class_loop fuel (drop n b) (out ++ take n b ∷ []) ≡ ok cs)
unfolding user_class_loop
user_class_loop_step fuel n b out cs e = ground arith

-- What is accepted is a list of whole, non-empty instances, which render to the octets read.
user_class_loop-ok :
    (fuel : ℕ) (b : List ℕ) (out cs : List (List ℕ))
    → IsBytes b
    → user_class_loop fuel b out ≡ ok cs
    → (new : List (List ℕ)) × (cs ≡ out ++ new) × (class_bytes new ≡ b)
unfolding user_class_loop class_bytes
user_class_loop-ok fuel [] out cs h e = ([], ground (arith, append-nil out), refl)
user_class_loop-ok zero (n ∷ b) out cs h e = cc
user_class_loop-ok (suc fuel) (n ∷ b) out cs h e =
    let (fits, rest) = user_class_loop_step fuel n b out cs e in
    let (new, seen, bytes) =
      user_class_loop-ok fuel (drop n b) (out ++ take n b ∷ []) cs (drop-IsBytes n b h.1) rest in
    let len : length (take n b) ≡ n = omega (arith, length-take n b) in
    let octet : length (take n b) % 256 ≡ n = omega arith in
    (
      take n b ∷ new,
      seen ∙ append_assoc out (take n b ∷ []) new,
      ap₂ ◌∷◌ octet (ap (◌++◌ (take n b)) bytes ∙ take-append-drop n b),
    )

-- `UserClass` accepts only whole, non-empty instances: they render to the octets of the option, so
-- no octet is dropped and none is read twice.
user_class_exact :
    (o : Options) (v : List ℕ) (cs : List (List ℕ))
    → lookup opt_user_class o ≡ some v
    → IsBytes v
    → user_class o ≡ ok (some cs)
    → class_bytes cs ≡ v
unfolding user_class user_class_value
user_class_exact o v cs l h e =
    let r : user_class_loop (length v) v [] ≡ ok cs = ground (arith, l, e) in
    let (new, seen, bytes) = user_class_loop-ok (length v) v [] cs h r in
    ap class_bytes seen ∙ bytes

user_class_loop-ne-stuck :
    (fuel : ℕ) (b : List ℕ) (out : List (List ℕ))
    → length b ≤ fuel
    → user_class_loop fuel b out ≢ stuck
unfolding user_class_loop
user_class_loop-ne-stuck fuel [] out f = λ e. cc
user_class_loop-ne-stuck zero (n ∷ b) out f = absurd (omega arith)
user_class_loop-ne-stuck (suc fuel) (n ∷ b) out f =
    ground (arith, length-drop n b, user_class_loop-ne-stuck fuel (drop n b) (out ++ take n b ∷ []))

user_class_value-ne-stuck : (v : List ℕ) → user_class_value v ≢ stuck
unfolding user_class_value
user_class_value-ne-stuck v = ground (arith, user_class_loop-ne-stuck (length v) v [])

-- The reader ends on every set of options.
pub user_class-ne-stuck : (o : Options) → user_class o ≢ stuck
unfolding user_class
user_class-ne-stuck o = elim (Option-cases (lookup opt_user_class o)) [
  | inl absent ↦ rw (absent, user_class) (λ e. cc)
  | inr (v, there) ↦ rw (there, user_class) (user_class_value-ne-stuck v)
]

-- ===== src/Base/Results.antt =====
-- Go's (value, error) pair, over a type of errors. `stuck` is no Go value: a loop ran out of fuel.
use mathlib.Core.Path.{◌≡◌, refl}
use mathlib.Core.Logic.{◌≢◌, ◌⊎◌, inl, inr}
use mathlib.Core.Bool.{Bool, true, false}
use dhcp_golib.Base.Tests.{if◌then◌else◌}

pub data Result {ℓ κ} (E : Type κ) (A : Type ℓ) : Type (ℓ ⊔ κ) where
  ok : A → Result E A
  err : E → Result E A
  stuck : Result E A

infixl 5 ◌>>=◌
abbrev pub ◌>>=◌ {ℓ κ ι} :
    {E : Type κ} {A : Type ℓ} {B : Type ι} → Result E A → (A → Result E B) → Result E B
ok a >>= f = f a
err e >>= f = err e
stuck >>= f = stuck

module _ {ℓ κ ι} {E : Type κ} {A : Type ℓ} {B : Type ι} where
  -- A chain that succeeds: its first part did, and the rest on its value.
  pub >>=-eq-ok :
      (first : Result E A) (rest : A → Result E B) {result : B}
      → (first >>= rest) ≡ ok result
      → (value : A) × (first ≡ ok value) × (rest value ≡ ok result)
  >>=-eq-ok (ok value) rest e = (value, refl, e)
  >>=-eq-ok (err refused) rest e = cc
  >>=-eq-ok stuck rest e = cc

-- A test that refuses, read backwards.
pub if_err-eq-ok {ℓ κ} :
    {E : Type κ} {A : Type ℓ} (e : E) {a b : A} (t : Bool)
    → (if t then err e else ok a) ≡ ok b
    → (t ≡ false) × (b ≡ a)
if_err-eq-ok e true h = cc
if_err-eq-ok e false h = (refl, cc)

-- The two ways in which a loop that has fuel enough ends.
pub Result-cases {ℓ κ} :
    {E : Type κ} {A : Type ℓ} (r : Result E A)
    → r ≢ stuck
    → ((a : A) × (r ≡ ok a)) ⊎ ((e : E) × (r ≡ err e))
Result-cases (ok a) h = inl (a, refl)
Result-cases (err e) h = inr (e, refl)
Result-cases stuck h = absurd (h refl)

-- The three forms of a result, to split on one that is computed.
pub Result-forms {ℓ κ} :
    {E : Type κ} {A : Type ℓ} (r : Result E A)
    → ((a : A) × (r ≡ ok a)) ⊎ (((e : E) × (r ≡ err e)) ⊎ (r ≡ stuck))
Result-forms (ok a) = inl (a, refl)
Result-forms (err e) = inr (inl (e, refl))
Result-forms stuck = inr (inr refl)

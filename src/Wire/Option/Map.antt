-- ===== src/Wire/Option/Map.antt =====
-- The options as a map: what a write leaves behind, and the keys.
use dhcp_golib.Base.{
  ℕ, ◌≡◌, refl, ap, Bool, true, false, ◌||◌, List, [], ◌∷◌, Option, none, some, arith,
  if◌then◌else◌, ◌==◌,
}
use dhcp_golib.Wire.Option.{Options, lookup, value, assign, keys, clone}

-- Whether a code is in a list of codes.
abbrev pub mem : ℕ → List ℕ → Bool
mem c [] = false
mem c (d ∷ ds) = (d == c) || mem c ds

-- Every key once: the invariant of a map.
abbrev pub Distinct : List ℕ → Type 0
Distinct [] = Unit {0}
Distinct (c ∷ cs) = (mem c cs ≡ false) × Distinct cs

abbrev pub is_some {ℓ} : {A : Type ℓ} → Option A → Bool
is_some none = false
is_some (some a) = true

pub lookup-assign :
    (c d : ℕ) (v : List ℕ) (o : Options)
    → lookup d (assign c v o) ≡ (if c == d then some v else lookup d o)
unfolding lookup assign
lookup-assign c d v [] = refl
lookup-assign c d v ((k, w) ∷ o) = ground (arith, lookup-assign c d v o)

pub value-assign :
    (c d : ℕ) (v : List ℕ) (o : Options)
    → value d (assign c v o) ≡ (if c == d then v else value d o)
unfolding value
value-assign c d v o = ground (arith, lookup-assign c d v o)

pub mem-keys-assign :
    (c d : ℕ) (v : List ℕ) (o : Options)
    → mem d (keys (assign c v o)) ≡ ((c == d) || mem d (keys o))
unfolding assign
mem-keys-assign c d v [] = refl
mem-keys-assign c d v ((k, w) ∷ o) = ground (arith, mem-keys-assign c d v o)

pub assign-Distinct :
    (c : ℕ) (v : List ℕ) (o : Options) → Distinct (keys o) → Distinct (keys (assign c v o))
unfolding assign
assign-Distinct c v [] h = (refl, tt)
assign-Distinct c v ((k, w) ∷ o) h =
    ground (arith, assign-Distinct c v o h.1, mem-keys-assign c k v o)

-- A code is a key exactly when it has a value.
pub mem-keys : (c : ℕ) (o : Options) → mem c (keys o) ≡ is_some (lookup c o)
unfolding lookup
mem-keys c [] = refl
mem-keys c ((k, v) ∷ o) = ground (arith, mem-keys c o)

pub clone_lem : (o : Options) → clone o ≡ o
unfolding clone
clone_lem [] = refl
clone_lem ((k, v) ∷ o) = ap (◌∷◌ (k, v)) (clone_lem o)

pub value_of_lookup : (c : ℕ) (o p : Options) → lookup c o ≡ lookup c p → value c o ≡ value c p
unfolding value
value_of_lookup c o p h = ground arith

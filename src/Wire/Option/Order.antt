-- ===== src/Wire/Option/Order.antt =====
-- The order of `Options.Codes`, and what it depends on.
use dhcp_golib.Base.{
  ℕ, ◌≤◌, ◌<◌, ◌≡◌, refl, sym, ap, ap₂, ◌∙◌, true, false, ◌||◌, List, [], ◌∷◌, arith, ◌==◌, All,
}
use dhcp_golib.Wire.Option.{Options, lookup, keys, insert_code, sort_codes, codes}
use dhcp_golib.Wire.Option.Map.{mem, Distinct, mem-keys, is_some}
use native.Mathlib.Decide.{dec_lt}

abbrev pub IsAscending : List ℕ → Type 0
IsAscending [] = Unit {0}
IsAscending (c ∷ cs) = All (λ d. c < d) cs × IsAscending cs

pub mem-insert_code : (c d : ℕ) (ds : List ℕ) → mem c (insert_code d ds) ≡ ((d == c) || mem c ds)
unfolding insert_code
mem-insert_code c d [] = refl
mem-insert_code c d (x ∷ ds) = ground (arith, mem-insert_code c d ds)

pub mem-sort_codes : (c : ℕ) (ds : List ℕ) → mem c (sort_codes ds) ≡ mem c ds
unfolding sort_codes
mem-sort_codes c [] = refl
mem-sort_codes c (d ∷ ds) = ground (arith, mem-insert_code c d (sort_codes ds), mem-sort_codes c ds)

-- Bounds from below pass through an insertion.
insert_code-All :
    (b c : ℕ) (ds : List ℕ) → b < c → All (λ d. b < d) ds → All (λ d. b < d) (insert_code c ds)
unfolding insert_code
insert_code-All b c [] h a = (h, tt)
insert_code-All b c (d ∷ ds) h a = ground (arith, insert_code-All b c ds h a.1)

All-weaken : (b c : ℕ) (ds : List ℕ) → b < c → All (λ d. c < d) ds → All (λ d. b < d) ds
All-weaken b c [] h a = tt
All-weaken b c (d ∷ ds) h a = (omega arith, All-weaken b c ds h a.1)

insert_code-IsAscending :
    (c : ℕ) (ds : List ℕ) → mem c ds ≡ false → IsAscending ds → IsAscending (insert_code c ds)
unfolding insert_code
insert_code-IsAscending c [] n a = (tt, tt)
insert_code-IsAscending c (d ∷ ds) n a =
    ground (arith, insert_code-IsAscending c ds, insert_code-All d c ds, All-weaken c d ds)

pub sort_codes-IsAscending : (ds : List ℕ) → Distinct ds → IsAscending (sort_codes ds)
unfolding sort_codes
sort_codes-IsAscending [] h = tt
sort_codes-IsAscending (d ∷ ds) h =
    insert_code-IsAscending d (sort_codes ds) (mem-sort_codes d ds ∙ h.0)
      (sort_codes-IsAscending ds h.1)

-- An element below all others is not among them.
pub mem-below : (c : ℕ) (ds : List ℕ) → All (λ d. c < d) ds → mem c ds ≡ false
mem-below c [] a = refl
mem-below c (d ∷ ds) a = ground (arith, mem-below c ds a.1)

-- A member of an ascending list is not below its head.
head-le : (c d : ℕ) (ds : List ℕ) → IsAscending (d ∷ ds) → mem c (d ∷ ds) ≡ true → d ≤ c
head-le c d ds a m = elim (dec_lt c d) [
  | yes p ↦ absurd (ground (arith, mem-below c ds (All-weaken c d ds p a.0)))
  | no p ↦ omega arith
]

-- An ascending list is determined by its elements.
pub IsAscending-unique :
    (xs ys : List ℕ) → IsAscending xs → IsAscending ys → ((c : ℕ) → mem c xs ≡ mem c ys) → xs ≡ ys
IsAscending-unique [] [] a b h = refl
IsAscending-unique [] (y ∷ ys) a b h = absurd (ground (arith, h y))
IsAscending-unique (x ∷ xs) [] a b h = absurd (ground (arith, h x))
IsAscending-unique (x ∷ xs) (y ∷ ys) a b h =
    let same : x ≡ y = ground (arith, h x, h y, head-le x y ys b, head-le y x xs a) in
    ap₂ ◌∷◌ same (
      IsAscending-unique xs ys a.1 b.1
        (λ c. ground (arith, h c, same, mem-below x xs a.0, mem-below y ys b.0)))

-- `Codes` lists the keys in strictly ascending order, and nothing else.
pub codes-IsAscending :
    (o : Options)
    → Distinct (keys o)
    → IsAscending (codes o) × ((c : ℕ) → mem c (codes o) ≡ is_some (lookup c o))
unfolding codes
codes-IsAscending o h =
    (sort_codes-IsAscending (keys o) h, λ c. mem-sort_codes c (keys o) ∙ mem-keys c o)

-- Two maps with the same values list the same codes, whatever the order of iteration.
pub codes_ext :
    (o p : Options)
    → Distinct (keys o)
    → Distinct (keys p)
    → ((c : ℕ) → lookup c o ≡ lookup c p)
    → codes o ≡ codes p
codes_ext o p ho hp same =
    let a = codes-IsAscending o ho in
    let b = codes-IsAscending p hp in
    IsAscending-unique (codes o) (codes p) a.0 b.0 (λ c. a.1 c ∙ ap is_some (same c) ∙ sym (b.1 c))

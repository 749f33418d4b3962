-- ===== src/Wire/Names/Total.antt =====
-- The end of the name reader, also on compression pointers that form a loop.
use dhcp_golib.Base.{
  ℕ, zero, suc, ◌+◌, ◌-◌, ◌*◌, ◌%◌, ◌≤◌, ◌<◌, ◌≡◌, ◌≢◌, refl, inl, inr, List, [], ◌∷◌, ◌++◌, Option,
  none, some, arith, length, slice, get_or, ok, stuck, Option-cases, Result-cases, if◌then◌else◌,
  ◌==◌,
}
use dhcp_golib.Wire.Option.{Options, lookup, opt_domain_search}
use dhcp_golib.Wire.Names.{
  next_or, read_name, read_name_at, name_fuel, search_loop, search_value, domain_search,
}

-- `k` jumps are left. Each round between jumps moves on, and each jump uses one up.
read_name-ne-stuck :
    (fuel k : ℕ) (v : List ℕ) (off : ℕ) (labels : List (List ℕ)) (next : Option ℕ) (jumps : ℕ)
    → jumps + k ≡ 128
    → k * (length v + 1) + (length v - off) < fuel
    → read_name fuel v off labels next jumps ≢ stuck
unfolding read_name
read_name-ne-stuck zero k v off labels next jumps j f = absurd (omega arith)
read_name-ne-stuck (suc fuel) zero v off labels next jumps j f =
    let n = get_or v off 0 in
    ground (
      arith,
      read_name-ne-stuck fuel zero v (off + 1 + n) (labels ++ slice (off + 1) (off + 1 + n) v ∷ [])
          next jumps,
    )
read_name-ne-stuck (suc fuel) (suc k) v off labels next jumps j f =
    let n = get_or v off 0 in
    let target = n % 64 * 256 + get_or v (off + 1) 0 in
    ground (
      arith,
      read_name-ne-stuck fuel (suc k) v (off + 1 + n)
          (labels ++ slice (off + 1) (off + 1 + n) v ∷ []) next jumps,
      read_name-ne-stuck fuel k v target labels (some (next_or next (off + 2))) (jumps + 1),
    )

-- The offset that is returned lies behind the name's first octet.
read_name_next :
    (fuel b : ℕ) (v : List ℕ) (off : ℕ) (labels : List (List ℕ)) (next : Option ℕ) (jumps : ℕ)
    (name : List ℕ) (nx : ℕ)
    → b ≤ next_or next (off + 1)
    → read_name fuel v off labels next jumps ≡ ok (name, nx)
    → b ≤ nx
unfolding read_name
read_name_next zero b v off labels next jumps name nx h e = cc
read_name_next (suc fuel) b v off labels none jumps name nx h e =
    let n = get_or v off 0 in
    let target = n % 64 * 256 + get_or v (off + 1) 0 in
    ground (
      arith,
      read_name_next fuel b v (off + 1 + n) (labels ++ slice (off + 1) (off + 1 + n) v ∷ []) none
          jumps name nx,
      read_name_next fuel b v target labels (some (off + 2)) (jumps + 1) name nx,
    )
read_name_next (suc fuel) b v off labels (some x) jumps name nx h e =
    let n = get_or v off 0 in
    let target = n % 64 * 256 + get_or v (off + 1) 0 in
    ground (
      arith,
      read_name_next fuel b v (off + 1 + n) (labels ++ slice (off + 1) (off + 1 + n) v ∷ [])
          (some x) jumps name nx,
      read_name_next fuel b v target labels (some x) (jumps + 1) name nx,
    )

pub read_name_at-ne-stuck : (v : List ℕ) (off : ℕ) → read_name_at v off ≢ stuck
unfolding read_name_at
read_name_at-ne-stuck v off =
    read_name-ne-stuck (name_fuel v) 128 v off [] none 0 refl (omega arith)

pub read_name_at_next :
    (v : List ℕ) (off : ℕ) (name : List ℕ) (nx : ℕ) → read_name_at v off ≡ ok (name, nx) → off < nx
unfolding read_name_at
read_name_at_next v off name nx e =
    read_name_next (name_fuel v) (suc off) v off [] none 0 name nx (omega arith) e

search_loop-ne-stuck :
    (fuel : ℕ) (v : List ℕ) (i : ℕ) (out : List (List ℕ))
    → length v - i ≤ fuel
    → search_loop fuel v i out ≢ stuck
unfolding search_loop
search_loop-ne-stuck zero v i out f = ground arith
search_loop-ne-stuck (suc fuel) v i out f =
    elim (Result-cases (read_name_at v i) (read_name_at-ne-stuck v i)) [
      | inl ((name, nx), e) ↦ ground (
        arith,
        e,
        read_name_at_next v i name nx e,
        search_loop-ne-stuck fuel v nx (if length name == 0 then out else out ++ name ∷ []),
      )
      | inr (x, e) ↦ ground (arith, e)
    ]

-- `DomainSearch` ends on every set of options: no pointer, forward, backward or to itself, makes it
-- loop.
pub domain_search-ne-stuck : (o : Options) → domain_search o ≢ stuck
unfolding domain_search search_value
domain_search-ne-stuck o = elim (Option-cases (lookup opt_domain_search o)) [
  | inl absent ↦ rw (absent, domain_search) (λ e. cc)
  | inr (v, there) ↦ ground (arith, there, search_loop-ne-stuck (length v) v 0 [])
]

-- ===== src/Wire/Names.antt =====
-- wire/values.go: domain names on the wire, the domain-search option 119 with its compression
-- pointers (readName, Options.DomainSearch) and the client's option 81 (encodeName, EncodeFQDN).
pub mod Total
pub mod RoundTrip
use dhcp_golib.Base.{
  ℕ, zero, suc, ◌+◌, ◌-◌, ◌*◌, ◌/◌, ◌%◌, Bool, true, false, ◌&&◌, ◌||◌, not, List, [], ◌∷◌, ◌++◌,
  Option, none, some, if◌then◌else◌, ◌==◌, ltb, leb, length, slice, get_or, Result, ok, err, stuck,
  ◌>>=◌,
}
use dhcp_golib.Wire.Option.{Options, lookup, opt_domain_search}
use dhcp_golib.Wire.Values.{OptionError, malformed_names, bad_name, bad_fqdn_flags}

abbrev pub dot : ℕ
dot = b'.'

-- `strings.Join(labels, ".")`.
unfoldable pub join_dot : List (List ℕ) → List ℕ
join_dot [] = []
join_dot (l ∷ []) = l
join_dot (l ∷ m ∷ ls) = l ++ (dot ∷ join_dot (m ∷ ls))

abbrev pub max_name_jumps : ℕ
max_name_jumps = 128

-- `next`, which the source keeps at -1 until it is set.
abbrev pub next_or : Option ℕ → ℕ → ℕ
next_or none d = d
next_or (some n) d = n

-- The loop of `readName`: the name and the offset behind its first part. `n / 64` is the two top
-- bits of the octet, which the source reads by the mask 0xC0.
unfoldable pub read_name :
    ℕ → List ℕ → ℕ → List (List ℕ) → Option ℕ → ℕ → Result OptionError (List ℕ × ℕ)
read_name zero v off labels next jumps = stuck
read_name (suc fuel) v off labels next jumps =
    let n = get_or v off 0 in
    let target = n % 64 * 256 + get_or v (off + 1) 0 in
    let jumped = read_name fuel v target labels (some (next_or next (off + 2))) (jumps + 1) in
    let label = slice (off + 1) (off + 1 + n) v in
    let further = read_name fuel v (off + 1 + n) (labels ++ label ∷ []) next jumps in
    if leb (length v) off
    then err malformed_names
    else if n == 0
    then ok (join_dot labels, next_or next (off + 1))
    else if n / 64 == 3
    then (if leb (length v) (off + 1)
        then err malformed_names
        else if leb (length v) target
        then err malformed_names
        else if ltb max_name_jumps (jumps + 1)
        then err malformed_names
        else jumped)
    else if not (n / 64 == 0)
    then err malformed_names
    else if ltb (length v) (off + 1 + n)
    then err malformed_names
    else further

-- Enough rounds for every value: 129 runs between jumps, each of `length v + 1` rounds at most.
abbrev pub name_fuel : List ℕ → ℕ
name_fuel v = 129 * (length v + 1)

unfoldable pub read_name_at : List ℕ → ℕ → Result OptionError (List ℕ × ℕ)
read_name_at v off = read_name (name_fuel v) v off [] none 0

-- The loop of `Options.DomainSearch`, at offset `i`. Each name takes an octet at least.
unfoldable pub search_loop : ℕ → List ℕ → ℕ → List (List ℕ) → Result OptionError (List (List ℕ))
search_loop zero v i out = if leb (length v) i then ok out else stuck
search_loop (suc fuel) v i out =
    let rest =
      (read_name_at v i >>= λ r.
      search_loop fuel v r.1 (if length r.0 == 0 then out else out ++ r.0 ∷ [])) in
    if leb (length v) i then ok out else rest

unfoldable pub search_value : List ℕ → Result OptionError (List (List ℕ))
search_value v = if length v == 0 then err malformed_names else search_loop (length v) v 0 []

unfoldable pub domain_search : Options → Result OptionError (List (List ℕ))
domain_search o = elim (lookup opt_domain_search o) [ none ↦ ok [] | some v ↦ search_value v ]

-- `strings.HasSuffix(name, ".")` and `strings.TrimSuffix(name, ".")`.
unfoldable pub ends_dot : List ℕ → Bool
ends_dot [] = false
ends_dot (c ∷ []) = c == dot
ends_dot (c ∷ d ∷ r) = ends_dot (d ∷ r)

unfoldable pub trim_dot : List ℕ → List ℕ
trim_dot [] = []
trim_dot (c ∷ []) = if c == dot then [] else c ∷ []
trim_dot (c ∷ d ∷ r) = c ∷ trim_dot (d ∷ r)

-- `strings.Split(name, ".")`.
unfoldable pub cons_head : ℕ → List (List ℕ) → List (List ℕ)
cons_head c [] = (c ∷ []) ∷ []
cons_head c (l ∷ ls) = (c ∷ l) ∷ ls

unfoldable pub split_dot : List ℕ → List (List ℕ)
unfolding cons_head
split_dot [] = [] ∷ []
split_dot (c ∷ b) = if c == dot then [] ∷ split_dot b else cons_head c (split_dot b)

-- The loop of `encodeName` over the labels.
unfoldable pub encode_labels : List (List ℕ) → List ℕ → Result OptionError (List ℕ)
encode_labels [] out = ok out
encode_labels (l ∷ ls) out =
    let rest = encode_labels ls (out ++ ((length l % 256) ∷ l)) in
    if length l == 0 then err bad_name else if ltb 63 (length l) then err bad_name else rest

-- `encodeName`: a trailing dot is the root, which ends the name by a zero octet.
unfoldable pub encode_name : List ℕ → Result OptionError (List ℕ)
encode_name name = do
  let trimmed = trim_dot name
  out ← if length trimmed == 0 then ok [] else encode_labels (split_dot trimmed) []
  ok (if ends_dot name then out ++ 0 ∷ [] else out)

-- The flag bits of option 81, by the power of two that each is: S 1, O 2, E 4, N 8; the rest is MBZ.
abbrev pub has_flag : ℕ → ℕ → Bool
has_flag bit flags = flags / bit % 2 == 1

unfoldable pub encode_fqdn : ℕ → List ℕ → Result OptionError (List ℕ)
encode_fqdn flags name =
    if has_flag 2 flags
    then err bad_fqdn_flags
    else if has_flag 8 flags && has_flag 1 flags
    then err bad_fqdn_flags
    else if not (flags / 16 == 0)
    then err bad_fqdn_flags
    else (do
      body ← if has_flag 4 flags then encode_name name else ok (trim_dot name)
      let out = flags ∷ 0 ∷ 0 ∷ body
      if ltb 255 (length out) then err bad_name else ok out)

-- ===== src/Wire/Names/RoundTrip.antt =====
-- `readName` on what `encodeName` writes.
use dhcp_golib.Base.{
  ℕ, zero, suc, ◌+◌, ◌-◌, ◌%◌, ◌≤◌, ◌<◌, ◌≡◌, ◌≢◌, refl, sym, ap, ap₂, ◌∙◌, Bool, true, List, [],
  ◌∷◌, ◌++◌, Option, none, some, arith, length, slice, get_or, ok, if◌then◌else◌, ◌==◌, ◌>>=◌, All,
  append-nil, append_assoc, length-append, take-append, drop-append,
}
use dhcp_golib.Wire.Option.{Options, lookup, opt_domain_search}
use dhcp_golib.Wire.Names.{
  dot, join_dot, next_or, read_name, read_name_at, name_fuel, search_loop, search_value,
  domain_search, ends_dot, trim_dot, cons_head, split_dot, encode_labels, encode_name,
}

-- `strings.Split` and `strings.Join` are inverse in this direction.
split_dot-nonempty : (b : List ℕ) → split_dot b ≢ []
unfolding split_dot
split_dot-nonempty [] = λ e. cc
split_dot-nonempty (c ∷ b) = ground arith

join_dot-cons_head : (c : ℕ) (ls : List (List ℕ)) → join_dot (cons_head c ls) ≡ c ∷ join_dot ls
unfolding join_dot cons_head
join_dot-cons_head c [] = refl
join_dot-cons_head c (l ∷ []) = refl
join_dot-cons_head c (l ∷ m ∷ ls) = refl

join_dot-nil : (ls : List (List ℕ)) → ls ≢ [] → join_dot ([] ∷ ls) ≡ dot ∷ join_dot ls
unfolding join_dot
join_dot-nil [] h = absurd (h refl)
join_dot-nil (l ∷ ls) h = refl

join_dot-split_dot : (b : List ℕ) → join_dot (split_dot b) ≡ b
unfolding split_dot
join_dot-split_dot [] = unfold join_dot in refl
join_dot-split_dot (c ∷ b) = ground (
  arith,
  join_dot-split_dot b,
  join_dot-cons_head c (split_dot b),
  join_dot-nil (split_dot b) (split_dot-nonempty b),
)

-- A label that the wire format can carry, and a run of them.
abbrev pub IsLabel : List ℕ → Type 0
IsLabel l = (1 ≤ length l) × (length l ≤ 63)

pub label_bytes : List (List ℕ) → List ℕ
label_bytes [] = []
label_bytes (l ∷ ls) = length l ∷ (l ++ label_bytes ls)

encode_labels-ok :
    (ls : List (List ℕ)) (out v : List ℕ)
    → encode_labels ls out ≡ ok v
    → All IsLabel ls × (v ≡ out ++ label_bytes ls)
unfolding encode_labels label_bytes
encode_labels-ok [] out v e = ground (arith, append-nil out)
encode_labels-ok (l ∷ ls) out v e = ground (
  arith,
  encode_labels-ok ls (out ++ ((length l % 256) ∷ l)) v,
  append_assoc out ((length l % 256) ∷ l) (label_bytes ls),
)

get_or-append : (a : List ℕ) (x : ℕ) (t : List ℕ) (d : ℕ) → get_or (a ++ x ∷ t) (length a) d ≡ x
get_or-append [] x t d = refl
get_or-append (y ∷ a) x t d = get_or-append a x t d

-- One round of `readName` on a label, and on the zero octet.
read_name_label :
    (fuel n : ℕ) (v : List ℕ) (off : ℕ) (labels : List (List ℕ)) (next : Option ℕ) (jumps : ℕ)
    → get_or v off 0 ≡ n
    → 1 ≤ n
    → n ≤ 63
    → off + 1 + n ≤ length v
    → read_name (suc fuel) v off labels next jumps
      ≡ read_name fuel v (off + 1 + n) (labels ++ slice (off + 1) (off + 1 + n) v ∷ []) next jumps
unfolding read_name
read_name_label fuel n v off labels next jumps here lo hi fits = ground arith

read_name_end :
    (fuel : ℕ) (v : List ℕ) (off : ℕ) (labels : List (List ℕ)) (next : Option ℕ) (jumps : ℕ)
    → get_or v off 0 ≡ 0
    → off < length v
    → read_name (suc fuel) v off labels next jumps ≡ ok (join_dot labels, next_or next (off + 1))
unfolding read_name
read_name_end fuel v off labels next jumps here inside = ground arith

slice-append :
    (pre l t : List ℕ) (off : ℕ)
    → length pre ≡ off
    → slice off (off + length l) (pre ++ (l ++ t)) ≡ l
slice-append pre l t off e =
    rw (drop-append off pre (l ++ t) e) (take-append (off + length l - off) l t (omega arith))

label_bytes-cons :
    (l : List ℕ) (ls : List (List ℕ)) (t : List ℕ)
    → label_bytes (l ∷ ls) ++ t ≡ length l ∷ (l ++ (label_bytes ls ++ t))
unfolding label_bytes
label_bytes-cons l ls t = ap (◌∷◌ (length l)) (append_assoc l (label_bytes ls) t)

length-label_bytes-cons :
    (l : List ℕ) (ls : List (List ℕ))
    → length (label_bytes (l ∷ ls)) ≡ 1 + length l + length (label_bytes ls)
unfolding label_bytes
length-label_bytes-cons l ls = omega (arith, length-append l (label_bytes ls))

-- The value in front of a label, the label, and what is behind it.
read_name-labels :
    (fuel : ℕ) (ls : List (List ℕ)) (pre post : List ℕ) (off : ℕ) (labels : List (List ℕ))
    (next : Option ℕ) (jumps : ℕ)
    → All IsLabel ls
    → length pre ≡ off
    → length ls < fuel
    → read_name fuel (pre ++ (label_bytes ls ++ 0 ∷ post)) off labels next jumps
      ≡ ok (join_dot (labels ++ ls), next_or next (off + length (label_bytes ls) + 1))
read_name-labels zero ls pre post off labels next jumps h e f = absurd (omega arith)
read_name-labels (suc fuel) [] pre post off labels next jumps h e f =
    let v = pre ++ 0 ∷ post in
    let here : get_or v off 0 ≡ 0 = rw (← e) (get_or-append pre 0 post 0) in
    unfold label_bytes in
    (read_name_end fuel v off labels next jumps here (omega (arith, length-append pre (0 ∷ post)))
      ∙ ap₂ (λ a b. ok (join_dot a, next_or next b)) (sym (append-nil labels)) (omega arith))
read_name-labels (suc fuel) (l ∷ ls) pre post off labels next jumps h e f =
    let t = label_bytes ls ++ 0 ∷ post in
    let here : get_or (pre ++ length l ∷ (l ++ t)) off 0 ≡ length l =
      rw (← e) (get_or-append pre (length l) (l ++ t) 0) in
    let cut : slice (off + 1) (off + 1 + length l) (pre ++ length l ∷ (l ++ t)) ≡ l =
      rw (← append_assoc pre (length l ∷ []) (l ++ t)) (
        slice-append (pre ++ length l ∷ []) l t (off + 1)
          (omega (arith, length-append pre (length l ∷ [])))) in
    let regroup : pre ++ length l ∷ (l ++ t) ≡ (pre ++ length l ∷ l) ++ t =
      sym (append_assoc pre (length l ∷ l) t) in
    ap (λ x. read_name (suc fuel) (pre ++ x) off labels next jumps)
      (label_bytes-cons l ls (0 ∷ post))
    ∙ read_name_label fuel (length l) (pre ++ length l ∷ (l ++ t)) off labels next jumps here h.0.0
        h.0.1 (omega (arith, length-append pre (length l ∷ (l ++ t)), length-append l t))
    ∙ ap₂ (λ x y. read_name fuel x (off + 1 + length l) (labels ++ y ∷ []) next jumps) regroup cut
    ∙ read_name-labels fuel ls (pre ++ length l ∷ l) post (off + 1 + length l) (labels ++ l ∷ [])
        next jumps h.1 (omega (arith, length-append pre (length l ∷ l))) (omega arith)
    ∙ ap₂ (λ a b. ok (join_dot a, next_or next b)) (append_assoc labels (l ∷ []) ls)
        (omega (arith, length-label_bytes-cons l ls))

length-le-label_bytes : (ls : List (List ℕ)) → length ls ≤ length (label_bytes ls)
unfolding label_bytes
length-le-label_bytes [] = omega arith
length-le-label_bytes (l ∷ ls) =
    omega (arith, length-le-label_bytes ls, length-append l (label_bytes ls))

encode_root :
    (trimmed : List ℕ) (root : Bool) (v : List ℕ)
    → root ≡ true
    → trimmed ≢ []
    → ((if length trimmed == 0 then ok [] else encode_labels (split_dot trimmed) []) >>= λ out.
        ok (if root then out ++ 0 ∷ [] else out))
      ≡ ok v
    → (out : List ℕ) × (encode_labels (split_dot trimmed) [] ≡ ok out) × (v ≡ out ++ 0 ∷ [])
encode_root [] root v r full e = absurd (full refl)
encode_root (c ∷ t) root v r full e = ground (arith, e, r)

-- What `encodeName` writes for a name with a trailing dot.
encode_name_inv :
    (name v : List ℕ)
    → encode_name name ≡ ok v
    → ends_dot name ≡ true
    → trim_dot name ≢ []
    → All IsLabel (split_dot (trim_dot name))
      × (v ≡ label_bytes (split_dot (trim_dot name)) ++ 0 ∷ [])
unfolding encode_name
encode_name_inv name v e root full =
    let trimmed = trim_dot name in
    let written : (out : List ℕ) × (encode_labels (split_dot trimmed) [] ≡ ok out)
        × (v ≡ out ++ 0 ∷ []) =
      encode_root (trim_dot name) (ends_dot name) v root full e in
    let (valid, bytes) = encode_labels-ok (split_dot trimmed) [] written.0 written.1 in
    (valid, written.2 ∙ ap (λ x. x ++ 0 ∷ []) bytes)

-- `readName` at offset 0 of one name.
read_name_at-labels :
    (ls : List (List ℕ)) (v : List ℕ)
    → All IsLabel ls
    → v ≡ label_bytes ls ++ 0 ∷ []
    → read_name_at v 0 ≡ ok (join_dot ls, length v)
unfolding read_name_at
read_name_at-labels ls v h e =
    let len : length v ≡ length (label_bytes ls) + 1 =
      ap length e ∙ length-append (label_bytes ls) (0 ∷ []) in
    ap (λ x. read_name (name_fuel v) x 0 [] none 0) e
    ∙ read_name-labels (name_fuel v) ls [] [] 0 [] none 0 h refl
        (omega (arith, length-le-label_bytes ls))
    ∙ ap (λ x. ok (join_dot ls, x)) (omega arith)

search_loop_one :
    (v name : List ℕ)
    → 0 < length v
    → name ≢ []
    → read_name_at v 0 ≡ ok (name, length v)
    → search_loop (length v) v 0 [] ≡ ok (name ∷ [])
unfolding search_loop
search_loop_one [] name lv n e = absurd (omega arith)
search_loop_one (c ∷ []) name lv n e = ground arith
search_loop_one (c ∷ d ∷ v) name lv n e = ground arith

-- A name with a trailing dot, whose labels `encodeName` accepts, is read back from the option as the
-- one name of the search list, without the dot.
pub domain_search-encode_name :
    (name v : List ℕ) (o : Options)
    → encode_name name ≡ ok v
    → ends_dot name ≡ true
    → trim_dot name ≢ []
    → lookup opt_domain_search o ≡ some v
    → domain_search o ≡ ok (trim_dot name ∷ [])
unfolding domain_search search_value
domain_search-encode_name name v o e root full l =
    let ls = split_dot (trim_dot name) in
    let (valid, bytes) = encode_name_inv name v e root full in
    let len : length v ≡ length (label_bytes ls) + 1 =
      ap length bytes ∙ length-append (label_bytes ls) (0 ∷ []) in
    let read : read_name_at v 0 ≡ ok (trim_dot name, length v) =
      rw join_dot-split_dot at (read_name_at-labels ls v valid bytes) in
    ground (arith, l, len, search_loop_one v (trim_dot name) (omega arith) full read)

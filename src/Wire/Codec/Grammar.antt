-- ===== src/Wire/Codec/Grammar.antt =====
-- The other direction of Parse: from what `parseOptions` accepts to a field of the grammar.
use dhcp_golib.Base.{
  ℕ, zero, suc, ◌≤◌, ◌≡◌, ◌≢◌, refl, sym, ap, ◌∙◌, subst, List, [], ◌∷◌, ◌++◌, Option, none, some,
  arith, length, take, drop, All, append_assoc, length-take, take-append-drop, ok, ◌<◌,
}
use dhcp_golib.Wire.Bytes.{IsBytes, drop-IsBytes}
use dhcp_golib.Wire.Option.{Options, opt_pad, opt_end}
use dhcp_golib.Wire.Codec.{parse_loop, parse_options, append_value}
use dhcp_golib.Wire.Codec.Parse.{
  Item, pad, opt, IsItem, bytes_of, tail_bytes, apply_items, parse_loop_pad, parse_loop_end,
}
use native.Mathlib.Decide.{ℕ_discrete}

-- That `b` is a field of the grammar whose items take `out` to `o`.
pub record Parsed (b : List ℕ) (out o : Options) : Type 0 where
  pub items : List Item
  pub rest : Option (List ℕ)
  pub items_valid : All IsItem items
  pub bytes : b ≡ bytes_of items ++ tail_bytes rest
  pub applied : o ≡ apply_items items out

Parsed-pad : {b : List ℕ} {out o : Options} → Parsed b out o → Parsed (opt_pad ∷ b) out o
Parsed-pad p = record {
  items = pad ∷ p.items;
  rest = p.rest;
  items_valid = (tt, p.items_valid);
  bytes = ap (◌∷◌ opt_pad) p.bytes;
  applied = p.applied;
}

Parsed-end : {out o : Options} (b : List ℕ) → o ≡ out → Parsed (opt_end ∷ b) out o
Parsed-end b e = record { items = []; rest = some b; items_valid = tt; bytes = refl; applied = e }

Parsed-opt :
    {b : List ℕ} {out o : Options} (c : ℕ) (v : List ℕ)
    → IsItem (opt c v)
    → Parsed b (append_value c v out) o
    → Parsed (c ∷ length v ∷ (v ++ b)) out o
Parsed-opt c v i p = record {
  items = opt c v ∷ p.items;
  rest = p.rest;
  items_valid = (i, p.items_valid);
  bytes =
      ap (λ x. c ∷ length v ∷ x)
        (ap (◌++◌ v) p.bytes ∙ sym (append_assoc v (bytes_of p.items) (tail_bytes p.rest)));
  applied = p.applied;
}

-- A round that takes an option, read backwards.
parse_loop_opt_inv :
    (fuel c n : ℕ) (b : List ℕ) (out o : Options)
    → c ≢ opt_pad
    → c ≢ opt_end
    → parse_loop (suc fuel) (c ∷ n ∷ b) out ≡ ok o
    → (n ≤ length b) × (parse_loop fuel (drop n b) (append_value c (take n b) out) ≡ ok o)
unfolding parse_loop
parse_loop_opt_inv fuel c n b out o np ne e = ground arith

parse_loop_bare :
    (fuel c : ℕ) (out o : Options)
    → c ≢ opt_pad
    → c ≢ opt_end
    → parse_loop (suc fuel) (c ∷ []) out ≢ ok o
unfolding parse_loop
parse_loop_bare fuel c out o np ne e = ground arith

Parsed-whole :
    {out o : Options} (c n : ℕ) (b : List ℕ)
    → c ≢ opt_pad
    → c ≢ opt_end
    → n < 256
    → n ≤ length b
    → Parsed (drop n b) (append_value c (take n b) out) o
    → Parsed (c ∷ n ∷ b) out o
Parsed-whole {out} {o} c n b np ne nb fits p =
    let len : length (take n b) ≡ n = omega (arith, length-take n b) in
    subst (λ x. Parsed (c ∷ n ∷ x) out o) (take-append-drop n b)
      (subst (λ k. Parsed (c ∷ k ∷ (take n b ++ drop n b)) out o) len
        (Parsed-opt c (take n b) (np, ne, omega arith) p))

step_pad :
    (fuel c : ℕ) (b : List ℕ) (out o : Options)
    → c ≡ opt_pad
    → parse_loop (suc fuel) (c ∷ b) out ≡ ok o
    → parse_loop fuel b out ≡ ok o
step_pad fuel c b out o p e = sym (parse_loop_pad fuel b out) ∙ (rw p at e)

step_end :
    (fuel c : ℕ) (b : List ℕ) (out o : Options)
    → c ≡ opt_end
    → parse_loop (suc fuel) (c ∷ b) out ≡ ok o
    → o ≡ out
step_end fuel c b out o p e = cc (parse_loop_end fuel b out, rw p at e)

parse_loop-Parsed :
    (fuel : ℕ) (b : List ℕ) (out o : Options)
    → IsBytes b
    → parse_loop fuel b out ≡ ok o
    → Parsed b out o
parse_loop-Parsed fuel [] out o h e = record {
  items = [];
  rest = none;
  items_valid = tt;
  bytes = refl;
  applied = unfold parse_loop in cc;
}
parse_loop-Parsed zero (c ∷ b) out o h e = unfold parse_loop in cc
parse_loop-Parsed (suc fuel) (c ∷ []) out o h e = elim (ℕ_discrete c opt_pad) [
  | yes p ↦
      subst (λ k. Parsed (k ∷ []) out o) (sym p)
        (Parsed-pad (parse_loop-Parsed fuel [] out o tt (step_pad fuel c [] out o p e)))
  | no p ↦ elim (ℕ_discrete c opt_end) [
    | yes q ↦
        subst (λ k. Parsed (k ∷ []) out o) (sym q) (Parsed-end [] (step_end fuel c [] out o q e))
    | no q ↦ absurd (parse_loop_bare fuel c out o p q e)
  ]
]
parse_loop-Parsed (suc fuel) (c ∷ n ∷ b) out o h e = elim (ℕ_discrete c opt_pad) [
  | yes p ↦
      subst (λ k. Parsed (k ∷ n ∷ b) out o) (sym p)
        (Parsed-pad (parse_loop-Parsed fuel (n ∷ b) out o h.1 (step_pad fuel c (n ∷ b) out o p e)))
  | no p ↦ elim (ℕ_discrete c opt_end) [
    | yes q ↦
        subst (λ k. Parsed (k ∷ n ∷ b) out o) (sym q)
          (Parsed-end (n ∷ b) (step_end fuel c (n ∷ b) out o q e))
    | no q ↦
        let inv = parse_loop_opt_inv fuel c n b out o p q e in
        Parsed-whole c n b p q h.1.0 inv.0 (
          parse_loop-Parsed fuel (drop n b) (append_value c (take n b) out) o
            (drop-IsBytes n b h.1.1) inv.1)
  ]
]

-- Whatever `parseOptions` accepts is a field of the grammar, and its result is what the items add.
pub parse_options-Parsed :
    (b : List ℕ) (out o : Options) → IsBytes b → parse_options b out ≡ ok o → Parsed b out o
unfolding parse_options
parse_options-Parsed b out o h e = parse_loop-Parsed _ b out o h e

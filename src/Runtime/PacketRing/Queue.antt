-- ===== src/Runtime/PacketRing/Queue.antt =====
-- The ring against a bounded queue: the last elements of a list, and the invariant of a ring.
use dhcp_golib.Base.{
  ℕ, zero, suc, ◌+◌, ◌-◌, ◌%◌, ◌<◌, ◌≤◌, ◌≡◌, refl, ap, ap₂, sym, ◌∙◌, true, false, ◌==◌,
  if◌then◌else◌, List, [], ◌∷◌, ◌++◌, take, drop, length, arith, length-append, drop-append,
  take-append,
}
use native.Mathlib.Nat.{mod_self, mod-eq_of_lt}
use dhcp_golib.Runtime.PacketRing.{Ring, set_at, record_packet, packets}

-- The place written next: the one behind, or the first.
pub next_wraps : (a n : ℕ) → suc a ≡ n → (a + 1) % n ≡ 0
next_wraps a n e = let here : a + 1 ≡ n = omega arith in ap (λ i. i % n) here ∙ mod_self n

pub next_follows : (a n : ℕ) → suc a < n → (a + 1) % n ≡ suc a
next_follows a n h =
    let behind : a + 1 ≡ suc a = omega arith in ap (λ i. i % n) behind ∙ mod-eq_of_lt h

module _ {A : Type 0} where
  -- The last `n` elements of a list.
  abbrev pub last_of : ℕ → List A → List A
  last_of n xs = drop (length xs - n) xs

  pub last_of-all : (n : ℕ) (xs : List A) → length xs ≤ n → last_of n xs ≡ xs
  last_of-all n xs h =
      let none_lost : length xs - n ≡ 0 = omega arith in ap (λ i. drop i xs) none_lost

  drop-snoc :
      (k : ℕ) (xs : List A) (p : A) → k ≤ length xs → drop k (xs ++ p ∷ []) ≡ drop k xs ++ p ∷ []
  drop-snoc zero xs p h = refl
  drop-snoc (suc k) [] p h = absurd (omega arith)
  drop-snoc (suc k) (x ∷ xs) p h = drop-snoc k xs p (omega arith)

  drop_split : (k : ℕ) (xs : List A) → k < length xs → (y : A) × (drop k xs ≡ y ∷ drop (suc k) xs)
  drop_split k [] h = absurd (omega arith)
  drop_split zero (x ∷ xs) h = (x, refl)
  drop_split (suc k) (x ∷ xs) h = drop_split k xs (omega arith)

  pub split_at :
      (i : ℕ) (xs : List A)
      → i < length xs
      → (front : List A) × (y : A) × (bs : List A) × (xs ≡ front ++ y ∷ bs) × (length front ≡ i)
  split_at i [] h = absurd (omega arith)
  split_at zero (x ∷ xs) h = ([], x, xs, refl, refl)
  split_at (suc i) (x ∷ xs) h =
      let (front, y, bs, e, f) = split_at i xs (omega arith) in
      (x ∷ front, y, bs, ap (◌∷◌ x) e, ap suc f)

  set_at-append :
      (i : ℕ) (front bs : List A) (p y : A)
      → length front ≡ i
      → set_at i p (front ++ y ∷ bs) ≡ front ++ p ∷ bs
  set_at-append zero [] bs p y e = refl
  set_at-append zero (x ∷ front) bs p y e = absurd (omega arith)
  set_at-append (suc i) [] bs p y e = absurd (omega arith)
  set_at-append (suc i) (x ∷ front) bs p y e =
      ap (◌∷◌ x) (set_at-append i front bs p y (omega arith))

  -- The ring after the packets `all`, all the way back to an empty ring of `n` places.
  pub record IsRing (n : ℕ) (all : List A) (r : Ring A) : Type 0 where
    pub size : length r.buf ≡ n
    pub room : r.next < n
    pub kept : packets r ≡ last_of n all
    pub lost : r.dropped ≡ length all - n
    pub filling : r.full ≡ false → r.next ≡ length all
    pub filled : r.full ≡ true → n ≤ length all

  packets_full : (r : Ring A) → r.full ≡ true → packets r ≡ drop r.next r.buf ++ take r.next r.buf
  unfolding packets
  packets_full r e = rw e refl

  packets_filling : (r : Ring A) → r.full ≡ false → packets r ≡ take r.next r.buf
  unfolding packets
  packets_filling r e = rw e refl

  -- What a packet does to the last `n` of a list.
  pub push_full :
      (n : ℕ) (all q : List A) (y p : A)
      → n ≤ length all
      → 0 < n
      → last_of n all ≡ y ∷ q
      → last_of n (all ++ p ∷ []) ≡ q ++ p ∷ []
  push_full n all q y p h k e =
      let (y', s) = drop_split (length all - n) all (omega arith) in
      let later : length (all ++ p ∷ []) - n ≡ suc (length all - n) =
        omega (arith, length-append all (p ∷ [])) in
      let rest : drop (suc (length all - n)) all ≡ q = ap (drop 1) (sym s ∙ e) in
      ap (λ i. drop i (all ++ p ∷ [])) later
      ∙ drop-snoc (suc (length all - n)) all p (omega arith)
      ∙ ap (λ l. l ++ p ∷ []) rest

  pub push_filling :
      (n : ℕ) (all q : List A) (p : A)
      → length all < n
      → last_of n all ≡ q
      → last_of n (all ++ p ∷ []) ≡ q ++ p ∷ []
  push_filling n all q p h e =
      last_of-all n (all ++ p ∷ []) (omega (arith, length-append all (p ∷ [])))
      ∙ ap (λ l. l ++ p ∷ []) (sym (last_of-all n all (omega arith)) ∙ e)

  -- The packets of a ring cut at the place it writes next.
  pub packets_cut_full :
      (r : Ring A) (front bs : List A)
      → r.full ≡ true
      → r.buf ≡ front ++ bs
      → length front ≡ r.next
      → packets r ≡ bs ++ front
  packets_cut_full r front bs e f g =
      packets_full r e
      ∙ ap₂ (◌++◌) (ap (drop r.next) f ∙ drop-append r.next front bs g)
          (ap (take r.next) f ∙ take-append r.next front bs g)

  pub packets_cut_filling :
      (r : Ring A) (front bs : List A)
      → r.full ≡ false
      → r.buf ≡ front ++ bs
      → length front ≡ r.next
      → packets r ≡ front
  packets_cut_filling r front bs e f g =
      packets_filling r e ∙ ap (take r.next) f ∙ take-append r.next front bs g

  pub buf-record :
      (p y : A) (r : Ring A) (front bs : List A)
      → r.buf ≡ front ++ y ∷ bs
      → length front ≡ r.next
      → (record_packet p r).buf ≡ front ++ p ∷ bs
  unfolding record_packet
  buf-record p y r front bs e f = ap (set_at r.next p) e ∙ set_at-append r.next front bs p y f

  pub next-record : (p : A) (r : Ring A) → (record_packet p r).next ≡ (r.next + 1) % length r.buf
  unfolding record_packet
  next-record p r = refl

  pub full-record :
      (p : A) (r : Ring A)
      → (record_packet p r).full ≡ (if (record_packet p r).next == 0 then true else r.full)
  unfolding record_packet
  full-record p r = refl

  pub dropped-record :
      (p : A) (r : Ring A)
      → (record_packet p r).dropped ≡ (if r.full then r.dropped + 1 else r.dropped)
  unfolding record_packet
  dropped-record p r = refl

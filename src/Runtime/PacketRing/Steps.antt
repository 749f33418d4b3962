-- ===== src/Runtime/PacketRing/Steps.antt =====
-- `Record` on a ring that holds the last packets, and runs of it.
use dhcp_golib.Base.{
  ℕ, zero, suc, ◌+◌, ◌-◌, ◌%◌, ◌<◌, ◌≡◌, refl, ap, sym, ◌∙◌, true, false, ◌==◌, if◌then◌else◌, List,
  [], ◌∷◌, ◌++◌, length, arith, append_assoc, append-nil, length-append, length-replicate,
  Bool-cases, inl, inr, subst,
}
use dhcp_golib.Base.Int.{ℤ, pos, negsuc}
use dhcp_golib.Runtime.PacketRing.{Ring, ring_size, new_packet_ring, record_packet, packets}
use dhcp_golib.Runtime.PacketRing.Queue

never_zero : (i : ℕ) → (suc i == 0) ≡ false
never_zero i = ground arith

ring_size-positive : (size : ℤ) → 0 < ring_size size
unfolding ring_size
ring_size-positive (pos zero) = omega arith
ring_size-positive (pos (suc n)) = omega arith
ring_size-positive (negsuc n) = omega arith

module _ {A : Type 0} where
  -- The packets that the last place pushes out, and what stays.
  pushed :
      (n : ℕ) (all : List A) (p y : A) (r : Ring A) (front bs : List A)
      → Queue.IsRing n all r
      → r.buf ≡ front ++ y ∷ bs
      → length front ≡ r.next
      → (r.full ≡ true → Queue.last_of n (all ++ p ∷ []) ≡ bs ++ (front ++ p ∷ []))
        × (r.full ≡ false → Queue.last_of n (all ++ p ∷ []) ≡ front ++ p ∷ [])
  pushed n all p y r front bs i e f = (
    (λ full.
        Queue.push_full n all (bs ++ front) y p (i.filled full) (omega (arith, i.room))
          (sym i.kept ∙ Queue.packets_cut_full r front (y ∷ bs) full e f)
        ∙ append_assoc bs front (p ∷ [])),
    (λ filling.
        Queue.push_filling n all front p (omega (arith, i.room, i.filling filling))
          (sym i.kept ∙ Queue.packets_cut_filling r front (y ∷ bs) filling e f)),
  )

  count :
      (n : ℕ) (all : List A) (p : A) (r : Ring A)
      → Queue.IsRing n all r
      → (record_packet p r).dropped ≡ length (all ++ p ∷ []) - n
  count n all p r i = elim (Bool-cases r.full) [
    | inl full ↦
        Queue.dropped-record p r
        ∙ ap (λ b. if b then r.dropped + 1 else r.dropped) full
        ∙ omega (arith, i.lost, i.filled full, length-append all (p ∷ []))
    | inr filling ↦
        Queue.dropped-record p r
        ∙ ap (λ b. if b then r.dropped + 1 else r.dropped) filling
        ∙ omega (arith, i.lost, i.filling filling, i.room, length-append all (p ∷ []))
  ]

  -- Writing the last place.
  step_wraps :
      (n : ℕ) (all : List A) (p y : A) (r : Ring A) (front : List A)
      → Queue.IsRing n all r
      → r.buf ≡ front ++ y ∷ []
      → length front ≡ r.next
      → Queue.IsRing n (all ++ p ∷ []) (record_packet p r)
  step_wraps n all p y r front i e f =
      let buf = Queue.buf-record p y r front [] e f in
      let long : suc (length front) ≡ n =
        omega (arith, sym i.size ∙ ap length e, length-append front (y ∷ [])) in
      let first : (record_packet p r).next ≡ 0 =
        Queue.next-record p r
        ∙ ap (λ k. (r.next + 1) % k) i.size
        ∙ Queue.next_wraps r.next n (omega arith) in
      let full : (record_packet p r).full ≡ true =
        Queue.full-record p r ∙ ap (λ k. if k == 0 then true else r.full) first in
      let (when_full, when_filling) = pushed n all p y r front [] i e f in
      record {
        size = ap length buf ∙ omega (arith, length-append front (p ∷ []));
        room = omega arith;
        kept =
            Queue.packets_cut_full (record_packet p r) [] (front ++ p ∷ []) full buf (sym first)
            ∙ append-nil (front ++ p ∷ [])
            ∙ sym (elim (Bool-cases r.full) [ inl b ↦ when_full b | inr b ↦ when_filling b ]);
        lost = count n all p r i;
        filling = λ no. absurd (cc);
        filled = λ yes. elim (Bool-cases r.full) [
          | inl b ↦ omega (arith, i.filled b, length-append all (p ∷ []))
          | inr b ↦ omega (arith, i.filling b, length-append all (p ∷ []))
        ];
      }

  -- Writing any other place.
  step_follows :
      (n : ℕ) (all : List A) (p y z : A) (r : Ring A) (front bs : List A)
      → Queue.IsRing n all r
      → r.buf ≡ front ++ y ∷ z ∷ bs
      → length front ≡ r.next
      → Queue.IsRing n (all ++ p ∷ []) (record_packet p r)
  step_follows n all p y z r front bs i e f =
      let buf =
        Queue.buf-record p y r front (z ∷ bs) e f ∙ sym (append_assoc front (p ∷ []) (z ∷ bs)) in
      let long : length front + suc (suc (length bs)) ≡ n =
        omega (arith, sym i.size ∙ ap length e, length-append front (y ∷ z ∷ bs)) in
      let next : (record_packet p r).next ≡ suc r.next =
        Queue.next-record p r
        ∙ ap (λ k. (r.next + 1) % k) i.size
        ∙ Queue.next_follows r.next n (omega arith) in
      let same : (record_packet p r).full ≡ r.full =
        Queue.full-record p r
        ∙ ap (λ k. if k == 0 then true else r.full) next
        ∙ ap (λ b. if b then true else r.full) (never_zero r.next) in
      let cut : length (front ++ p ∷ []) ≡ (record_packet p r).next =
        omega (arith, length-append front (p ∷ [])) in
      let (when_full, when_filling) = pushed n all p y r front (z ∷ bs) i e f in
      record {
        size = ap length buf ∙ length-append (front ++ p ∷ []) (z ∷ bs) ∙ omega arith;
        room = omega arith;
        kept = elim (Bool-cases r.full) [
          | inl b ↦
              Queue.packets_cut_full (record_packet p r) (front ++ p ∷ []) (z ∷ bs) (same ∙ b) buf
                cut
              ∙ sym (when_full b)
          | inr b ↦
              Queue.packets_cut_filling (record_packet p r) (front ++ p ∷ []) (z ∷ bs) (same ∙ b)
                buf cut
              ∙ sym (when_filling b)
        ];
        lost = count n all p r i;
        filling = λ no. omega (arith, next, i.filling (sym same ∙ no), length-append all (p ∷ []));
        filled = λ yes. omega (arith, i.filled (sym same ∙ yes), length-append all (p ∷ []));
      }

  step_at :
      (n : ℕ) (all : List A) (p y : A) (r : Ring A) (front bs : List A)
      → Queue.IsRing n all r
      → r.buf ≡ front ++ y ∷ bs
      → length front ≡ r.next
      → Queue.IsRing n (all ++ p ∷ []) (record_packet p r)
  step_at n all p y r front [] i e f = step_wraps n all p y r front i e f
  step_at n all p y r front (z ∷ bs) i e f = step_follows n all p y z r front bs i e f

  step-IsRing :
      (n : ℕ) (all : List A) (p : A) (r : Ring A)
      → Queue.IsRing n all r
      → Queue.IsRing n (all ++ p ∷ []) (record_packet p r)
  step-IsRing n all p r i =
      let (front, y, bs, e, f) = Queue.split_at r.next r.buf (omega (arith, i.size, i.room)) in
      step_at n all p y r front bs i e f

  -- A run of `Record`.
  abbrev pub record_all : Ring A → List A → Ring A
  record_all r [] = r
  record_all r (p ∷ ps) = record_all (record_packet p r) ps

  run-IsRing :
      (n : ℕ) (all ps : List A) (r : Ring A)
      → Queue.IsRing n all r
      → Queue.IsRing n (all ++ ps) (record_all r ps)
  run-IsRing n all [] r i = rw (append-nil all) i
  run-IsRing n all (p ∷ ps) r i =
      subst (λ l. Queue.IsRing n l (record_all (record_packet p r) ps))
        (append_assoc all (p ∷ []) ps)
        (run-IsRing n (all ++ p ∷ []) ps (record_packet p r) (step-IsRing n all p r i))

  new-IsRing :
      (blank : A) (size : ℤ) → Queue.IsRing (ring_size size) [] (new_packet_ring blank size)
  unfolding new_packet_ring packets
  new-IsRing blank size = record {
    size = length-replicate (ring_size size) blank;
    room = ring_size-positive size;
    kept = sym (Queue.last_of-all (ring_size size) [] (omega arith));
    lost = omega arith;
    filling = λ e. refl;
    filled = λ e. absurd (cc);
  }

  pub packets-record_all :
      (blank : A) (size : ℤ) (ps : List A)
      → (packets (record_all (new_packet_ring blank size) ps) ≡ Queue.last_of (ring_size size) ps)
        × ((record_all (new_packet_ring blank size) ps).dropped ≡ length ps - ring_size size)
  packets-record_all blank size ps =
      let i =
        run-IsRing (ring_size size) [] ps (new_packet_ring blank size) (new-IsRing blank size) in
      (i.kept, i.lost)

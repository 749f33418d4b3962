-- ===== src/Proto/Slaac/TwoHours.antt =====
-- The two-hour rule of RFC 4862 section 5.5.3 e.
use dhcp_golib.Base.{
  ℕ, ◌*◌, ◌≡◌, refl, ap, sym, ◌∙◌, true, false, if◌then◌else◌, arith, ◌⊎◌, inl, inr, Bool-cases,
  subst,
}
use dhcp_golib.Base.Int.{ℤ, pos, negsuc, ltb_ℤ, ◌+ℤ◌, ◌-ℤ◌}
use dhcp_golib.Proto.Time.{Duration, Instant, add, sub, infinite, is_infinite}
use dhcp_golib.Proto.Lease.Order.{IsWire}
use dhcp_golib.Proto.Slaac.{
  SlaacEntry, two_hours, left, remaining, dur_greater, valid_lifetime, refresh,
}

-- A lifetime: infinite, or not negative.
abbrev pub IsLifetime : Duration → Type 0
IsLifetime d = (d ≡ infinite) ⊎ ((n : ℕ) × (d ≡ pos n))

left-IsLifetime : (start lifetime now : ℤ) → (n : ℕ) × (left start lifetime now ≡ pos n)
unfolding left
left-IsLifetime start lifetime now = clipped (sub (add start lifetime) now)
  where
    clipped : (d : ℤ) → (n : ℕ) × ((if ltb_ℤ d (pos 0) then pos 0 else d) ≡ pos n)
    clipped (pos n) = (n, ground arith)
    clipped (negsuc n) = (0, ground arith)

remaining-IsLifetime : (e : SlaacEntry) (now : Instant) → IsLifetime (remaining e now)
unfolding remaining
remaining-IsLifetime e now = elim (Bool-cases (is_infinite e.valid)) [
  | inl f ↦ inl (rw (f, remaining) refl)
  | inr f ↦ let (n, g) = left-IsLifetime e.start e.valid now in inr (n, rw (f, remaining) g)
]

-- What is left at the instant at which a lifetime begins is all of it.
whole : (now : Instant) (n : ℕ) → sub (add now (pos n)) now ≡ pos n
unfolding ◌+ℤ◌ ◌-ℤ◌
whole (pos m) n = ground arith
whole (negsuc m) n = ground arith

left-start : (s : Instant) (n : ℕ) → left s (pos n) s ≡ pos n
unfolding left
left-start s n = ap (λ d. if ltb_ℤ d (pos 0) then pos 0 else d) (whole s n) ∙ ground arith

lifetime_start :
    (s : Instant) (d : Duration)
    → IsLifetime d
    → (if is_infinite d then infinite else left s d s) ≡ d
unfolding is_infinite
lifetime_start s d (inl f) =
    subst (λ x. (if is_infinite x then infinite else left s x s) ≡ x) (sym f) refl
lifetime_start s d (inr (n, f)) =
    subst (λ x. (if is_infinite x then infinite else left s x s) ≡ x) (sym f) (left-start s n)

remaining-start : (e : SlaacEntry) → IsLifetime e.valid → remaining e e.start ≡ e.valid
unfolding remaining
remaining-start e h = lifetime_start e.start e.valid h

greater_asym : (a b : Duration) → dur_greater a b ≡ true → dur_greater b a ≡ false
unfolding dur_greater
greater_asym a b h = elim (Bool-cases (is_infinite a)) [
  | inl e ↦ elim (Bool-cases (is_infinite b)) [
    | inl f ↦ absurd (ground (arith, h, e, f))
    | inr f ↦ ground (arith, e, f)
  ]
  | inr e ↦ elim (Bool-cases (is_infinite b)) [
    | inl f ↦ absurd (ground (arith, h, e, f))
    | inr f ↦ ground (arith, h, e, f)
  ]
]

greater_irrefl : (a : Duration) → dur_greater a a ≡ false
unfolding dur_greater
greater_irrefl a = elim (Bool-cases (is_infinite a)) [
  | inl e ↦ ground (arith, e)
  | inr e ↦ ground (arith, e)
]

-- What the rules choose: the lifetime advertised where it is longer, what remains, or two hours.
valid_lifetime-cases :
    (valid remains : Duration)
    → ((valid_lifetime valid remains ≡ valid)
        × ((dur_greater valid two_hours ≡ true) ⊎ (dur_greater valid remains ≡ true)))
      ⊎ (valid_lifetime valid remains ≡ remains)
      ⊎ (valid_lifetime valid remains ≡ two_hours)
unfolding valid_lifetime
valid_lifetime-cases valid remains = elim (Bool-cases (dur_greater valid two_hours)) [
  | inl e ↦ inl (ground (arith, e), inl e)
  | inr e ↦ elim (Bool-cases (dur_greater valid remains)) [
    | inl f ↦ inl (ground (arith, e, f), inr f)
    | inr f ↦ elim (Bool-cases (dur_greater remains two_hours)) [
      | inl g ↦ inr (inr (ground (arith, e, f, g)))
      | inr g ↦ inr (inl (ground (arith, e, f, g)))
    ]
  ]
]

-- The rules never cut what remains below two hours.
valid_lifetime-bound :
    (valid remains : Duration)
    → IsLifetime valid
    → IsLifetime remains
    → IsLifetime (valid_lifetime valid remains)
      × ((dur_greater remains (valid_lifetime valid remains) ≡ false)
          ⊎ (dur_greater two_hours (valid_lifetime valid remains) ≡ false))
valid_lifetime-bound valid remains v r = elim (valid_lifetime-cases valid remains) [
  | inl (e, inl f) ↦ (
    subst IsLifetime (sym e) v,
    inr (ap (dur_greater two_hours) e ∙ greater_asym valid two_hours f),
  )
  | inl (e, inr f) ↦
      (subst IsLifetime (sym e) v, inl (ap (dur_greater remains) e ∙ greater_asym valid remains f))
  | inr (inl e) ↦
      (subst IsLifetime (sym e) r, inl (ap (dur_greater remains) e ∙ greater_irrefl remains))
  | inr (inr e) ↦ (
    subst IsLifetime (sym e) (inr (7200 * 1_000_000_000, refl)),
    inr (ap (dur_greater two_hours) e ∙ greater_irrefl two_hours),
  )
]

refresh-fields :
    (now : Instant) (preferred valid : Duration) (e : SlaacEntry)
    → ((refresh now preferred valid e).0.start ≡ now)
      × ((refresh now preferred valid e).0.valid ≡ valid_lifetime valid (remaining e now))
      × ((refresh now preferred valid e).0.preferred ≡ preferred)
unfolding refresh
refresh-fields now preferred valid e = (ground arith, ground arith, ground arith)

-- However an advertisement that nothing authenticates chooses its lifetimes, the valid one as 32 bits
-- carry it, a refresh does not take
-- valid time from an address that has two hours or less, and never leaves one that has more with less
-- than two hours: what remains right after it is not less than what remained, or not less than two
-- hours. The preferred lifetime is always the one advertised.
pub refresh-remaining :
    (now : Instant) (preferred valid : Duration) (e : SlaacEntry)
    → IsWire valid
    → ((dur_greater (remaining e now) (remaining (refresh now preferred valid e).0 now) ≡ false)
        ⊎ (dur_greater two_hours (remaining (refresh now preferred valid e).0 now) ≡ false))
      × ((refresh now preferred valid e).0.preferred ≡ preferred)
refresh-remaining now preferred valid e w =
    let after = (refresh now preferred valid e).0 in
    let (began, lifetime, kept) = refresh-fields now preferred valid e in
    let v : IsLifetime valid = elim w [ inl f ↦ inl f | inr (k, f) ↦ inr (k * 1_000_000_000, f) ] in
    let (life, bound) =
      valid_lifetime-bound valid (remaining e now) v (remaining-IsLifetime e now) in
    let all_of_it : remaining after now ≡ valid_lifetime valid (remaining e now) =
      ap (remaining after) (sym began)
      ∙ remaining-start after (subst IsLifetime (sym lifetime) life)
      ∙ lifetime in
    (
      elim bound [
        | inl f ↦ inl (ap (dur_greater (remaining e now)) all_of_it ∙ f)
        | inr f ↦ inr (ap (dur_greater two_hours) all_of_it ∙ f)
      ],
      kept,
    )

-- ===== src/Proto/Acd/Conflicts.antt =====
-- Which packets are a conflict, against RFC 5227's words.
use dhcp_golib.Base.{
  ℕ, ◌≡◌, ◌≢◌, refl, ap, ap₂, Bool, true, false, not, ◌&&◌, List, [], ◌∷◌, arith, ◌⊎◌, ◌↔◌, inl,
  inr, Bool-cases,
}
use dhcp_golib.Base.Int.{ℤ, ◌≤ℤ◌, ltb_ℤ, ◌+ℤ◌, ◌-ℤ◌, +ℤ_parts, -ℤ_parts}
use dhcp_golib.Proto.Time.{Duration, add, sub}
use dhcp_golib.Wire.Message.{Addr, invalid, ip4, ip6}
use dhcp_golib.Wire.Arp.{ArpPacket, is_probe}
use dhcp_golib.Proto.Acd.{
  Acd, AcdPhase, acd_probing, acd_settling, acd_announcing, acd_defending, is_ours, addr_eq,
  bytes_eq, rate_limited, restart_delay,
}

pub bytes_eq_iff : (as_ bs : List ℕ) → (bytes_eq as_ bs ≡ true) ↔ (as_ ≡ bs)
bytes_eq_iff [] [] = (λ e. refl, λ e. refl)
bytes_eq_iff [] (b ∷ bs) = (λ e. cc, λ e. cc)
bytes_eq_iff (a ∷ as_) [] = (λ e. cc, λ e. cc)
bytes_eq_iff (a ∷ as_) (b ∷ bs) =
    let (there, back) = bytes_eq_iff as_ bs in
    (
      λ e.
          let both : (a ≡ b) × (bytes_eq as_ bs ≡ true) = (ground arith, ground arith) in
          ap₂ ◌∷◌ both.0 (there both.1),
      λ e.
          let heads : a ≡ b = cc in
          let tails : as_ ≡ bs = cc in let same = back tails in ground arith,
    )

pub addr_eq_iff : (x y : Addr) → (addr_eq x y ≡ true) ↔ (x ≡ y)
addr_eq_iff invalid invalid = (λ e. refl, λ e. refl)
addr_eq_iff invalid (ip4 a b c d) = (λ e. cc, λ e. cc)
addr_eq_iff invalid (ip6 bs) = (λ e. cc, λ e. cc)
addr_eq_iff (ip4 a b c d) invalid = (λ e. cc, λ e. cc)
addr_eq_iff (ip4 a b c d) (ip4 e f g h) = (λ k. ground arith, λ k. ground arith)
addr_eq_iff (ip4 a b c d) (ip6 bs) = (λ e. cc, λ e. cc)
addr_eq_iff (ip6 bs) invalid = (λ e. cc, λ e. cc)
addr_eq_iff (ip6 bs) (ip4 a b c d) = (λ e. cc, λ e. cc)
addr_eq_iff (ip6 as_) (ip6 bs) =
    let (there, back) = bytes_eq_iff as_ bs in (λ e. ap ip6 (there e), λ e. back (ground arith))

-- The phases in which the address is being checked, and in which it is being used.
pub data IsChecking : AcdPhase → Type 0 where
  while_probing : IsChecking acd_probing
  while_settling : IsChecking acd_settling

pub data IsUsing : AcdPhase → Type 0 where
  while_announcing : IsUsing acd_announcing
  while_defending : IsUsing acd_defending

-- RFC 5227 sections 2.1.1 and 2.4: a packet from other hardware whose sender address is the one checked
-- or used; or, during the check, a Probe from other hardware for it. Its hardware address is its own
-- as long as it is not empty.
pub data IsConflict (a : Acd) (p : ArpPacket) : Type 0 where
  claims_checked : IsChecking a.phase → p.sender_ip ≡ a.addr → p.sender_hw ≢ a.hw → IsConflict a p
  probes_checked :
      IsChecking a.phase
      → is_probe p ≡ true
      → p.target_ip ≡ a.addr
      → p.sender_hw ≢ a.hw
      → IsConflict a p
  claims_used : IsUsing a.phase → p.sender_ip ≡ a.addr → p.sender_hw ≢ a.hw → IsConflict a p

abbrev claims : Acd → ArpPacket → Bool
claims a p = addr_eq p.sender_ip a.addr && not (is_ours a p.sender_hw)

abbrev probes : Acd → ArpPacket → Bool
probes a p = is_probe p && addr_eq p.target_ip a.addr && not (is_ours a p.sender_hw)

restart_delay-cases :
    (a : Acd) (now base : Duration)
    → let due = sub (add a.attempt_at a.params.rate_limit_interval) now in
      ((rate_limited a ≡ false) × (restart_delay a now base ≡ base))
      ⊎ ((due ≤ℤ base) × (restart_delay a now base ≡ base))
      ⊎ ((base ≤ℤ due) × (restart_delay a now base ≡ due))
unfolding restart_delay
restart_delay-cases a now base = elim (Bool-cases (rate_limited a)) [
  | inr e ↦ inl (e, ground (arith, e))
  | inl e ↦
      let due = sub (add a.attempt_at a.params.rate_limit_interval) now in
      inr (elim (Bool-cases (ltb_ℤ due base)) [
        | inl f ↦ inl (ground (arith, f), ground (arith, e, f))
        | inr f ↦ inr (ground (arith, f), ground (arith, e, f))
      ])
]

due_later : (at_ now d : ℤ) → at_ -ℤ now ≤ℤ d → at_ ≤ℤ now +ℤ d
due_later at_ now d h = omega (arith, h, -ℤ_parts at_ now, +ℤ_parts now d)

≤ℤ_of_eq : (x y z : ℤ) → y ≡ z → x ≤ℤ z → x ≤ℤ y
≤ℤ_of_eq x y z e h = rw e h

-- The wait before the next attempt is never shorter than the one asked for; and once the conflicts have
-- reached the limit, the next attempt is no earlier than the rate limit's interval after the last.
pub restart_delay-bounds :
    (a : Acd) (now base : Duration)
    → (base ≤ℤ restart_delay a now base)
      × ((rate_limited a ≡ false)
          ⊎ (add a.attempt_at a.params.rate_limit_interval ≤ℤ add now (restart_delay a now base)))
restart_delay-bounds a now base =
    let next = add a.attempt_at a.params.rate_limit_interval in
    elim (restart_delay-cases a now base) [
      | inl (e, same) ↦ (≤ℤ_of_eq base _ base same (omega arith), inl e)
      | inr (inl (h, same)) ↦ (
        ≤ℤ_of_eq base _ base same (omega arith),
        inr (≤ℤ_of_eq next _ (add now base) (ap (add now) same) (due_later next now base h)),
      )
      | inr (inr (h, same)) ↦ (
        ≤ℤ_of_eq base _ (sub next now) same h,
        inr (
            ≤ℤ_of_eq next _ (add now (sub next now)) (ap (add now) same)
              (due_later next now (sub next now) (omega arith))),
      )
    ]

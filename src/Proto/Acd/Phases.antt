-- ===== src/Proto/Acd/Phases.antt =====
-- The phases of a conflict check, and whether its timer is armed in them.
use dhcp_golib.Base.{
  ℕ, ◌+◌, ◌≡◌, refl, ap, sym, ◌∙◌, Bool, true, false, List, [], ◌∷◌, ◌++◌, Option, none, some,
  arith, ◌⊎◌, inl, inr, Option-cases, Bool-cases,
}
use dhcp_golib.Proto.Time.{Instant}
use dhcp_golib.Wire.Message.{Addr}
use dhcp_golib.Wire.Arp.{ArpPacket}
use dhcp_golib.Proto.Acd.{
  Acd, AcdPhase, acd_idle, acd_probing, acd_settling, acd_announcing, acd_defending, AcdEvent,
  ev_start, ev_timer, ev_arp, ev_stop, AcdAction, send_probe, send_announce, set_timer,
  cancel_timer, ready, conflict, note, start, stop, announce, probe_timer, settle_timer, timer, arp,
  Rule, conflict_rule, acd_step, is_valid,
}

-- Whether a timer is armed after a list of actions, if it was armed before them as `before` says.
abbrev pub armed : Bool → List AcdAction → Bool
armed before [] = before
armed before (set_timer d ∷ acts) = armed true acts
armed before (cancel_timer ∷ acts) = armed false acts
armed before (send_probe ∷ acts) = armed before acts
armed before (send_announce ∷ acts) = armed before acts
armed before (ready ∷ acts) = armed before acts
armed before (conflict r ∷ acts) = armed before acts
armed before (note ∷ acts) = armed before acts

-- The phases that wait for a timer.
abbrev pub waits : AcdPhase → Bool
waits acd_probing = true
waits acd_settling = true
waits acd_announcing = true
waits acd_idle = false
waits acd_defending = false

start-armed :
    (a : Acd) (now : Instant) (rnd : ℕ) (address : Addr) (b : Bool)
    → armed b (start a now rnd address).1 ≡ true
unfolding start
start-armed a now rnd address b = ground arith

-- What the announcement arms is what the phase it leaves waits for.
announce-armed :
    (a : Acd)
    → a.phase ≡ acd_announcing
    → (b : Bool) → armed b (announce a).1 ≡ waits (announce a).0.phase
unfolding announce
announce-armed a e b = ground (arith, e)

armed-append : (b : Bool) (xs ys : List AcdAction) → armed b (xs ++ ys) ≡ armed (armed b xs) ys
armed-append b [] ys = refl
armed-append b (set_timer d ∷ xs) ys = armed-append true xs ys
armed-append b (cancel_timer ∷ xs) ys = armed-append false xs ys
armed-append b (send_probe ∷ xs) ys = armed-append b xs ys
armed-append b (send_announce ∷ xs) ys = armed-append b xs ys
armed-append b (ready ∷ xs) ys = armed-append b xs ys
armed-append b (conflict r ∷ xs) ys = armed-append b xs ys
armed-append b (note ∷ xs) ys = armed-append b xs ys

-- The timer of each phase.
abbrev timer_of : AcdPhase → Acd → ℕ → Acd × List AcdAction
timer_of acd_idle a rnd = (a, note ∷ [])
timer_of acd_probing a rnd = probe_timer a rnd
timer_of acd_settling a rnd = settle_timer a
timer_of acd_announcing a rnd = announce a
timer_of acd_defending a rnd = (a, note ∷ [])

timer-phase : (a : Acd) (rnd : ℕ) (p : AcdPhase) → a.phase ≡ p → timer a rnd ≡ timer_of p a rnd
unfolding timer
timer-phase a rnd acd_idle e = ground (arith, e)
timer-phase a rnd acd_probing e = ground (arith, e)
timer-phase a rnd acd_settling e = ground (arith, e)
timer-phase a rnd acd_announcing e = ground (arith, e)
timer-phase a rnd acd_defending e = ground (arith, e)

probe_timer-armed :
    (a : Acd) (rnd : ℕ) (b : Bool)
    → a.phase ≡ acd_probing
    → armed b (probe_timer a rnd).1 ≡ waits (probe_timer a rnd).0.phase
unfolding probe_timer
probe_timer-armed a rnd b e = ground (arith, e)

settle_timer-armed :
    (a : Acd) (b : Bool) → armed b (settle_timer a).1 ≡ waits (settle_timer a).0.phase
unfolding settle_timer
settle_timer-armed a b =
    armed-append b (announce (record a { phase = acd_announcing; sent = 0 })).1 (ready ∷ [])
    ∙ announce-armed (record a { phase = acd_announcing; sent = 0 }) refl b

timer_of-armed :
    (a : Acd) (rnd : ℕ) (p : AcdPhase)
    → a.phase ≡ p
    → armed false (timer_of p a rnd).1 ≡ waits (timer_of p a rnd).0.phase
timer_of-armed a rnd acd_idle e = ap waits (sym e)
timer_of-armed a rnd acd_probing e = probe_timer-armed a rnd false e
timer_of-armed a rnd acd_settling e = settle_timer-armed a false
timer_of-armed a rnd acd_announcing e = announce-armed a e false
timer_of-armed a rnd acd_defending e = ap waits (sym e)

arp-outcome :
    (a : Acd) (p : Option ArpPacket)
    → (arp a p ≡ (a, []))
      ⊎ ((r : Rule) × (arp a p
            ≡ (stop (record a { conflicts = a.conflicts + 1 }), conflict r ∷ [])))
unfolding arp
arp-outcome a none = inl refl
arp-outcome a (some p) = elim (Bool-cases (is_valid a.addr)) [
  | inr e ↦ inl (ground (arith, e))
  | inl e ↦ elim (Option-cases (conflict_rule a p)) [
    | inl f ↦ inl (ground (arith, e, f))
    | inr (r, f) ↦ inr (r, ground (arith, e, f))
  ]
]

-- A timer that has fired is no longer armed; no other event touches it.
abbrev pub armed_at : AcdEvent → AcdPhase → Bool
armed_at ev_timer p = false
armed_at (ev_start address) p = waits p
armed_at (ev_arp q) p = waits p
armed_at ev_stop p = waits p

waits-stop : (a : Acd) → waits (stop a).phase ≡ false
unfolding stop
waits-stop a = refl

arp-armed :
    (a : Acd) (p : Option ArpPacket)
    → waits (arp a p).0.phase ≡ true
    → armed (waits a.phase) (arp a p).1 ≡ true
unfolding stop
arp-armed a p w = elim (arp-outcome a p) [
  | inl e ↦ ground (arith, e)
  | inr (r, e) ↦ ground (arith, e)
]

-- A check that is under way never waits for nothing: whatever the event, if the phase it leads to is
-- one that waits for the timer, the timer is armed after the actions.
pub acd_step-armed :
    (a : Acd) (now : Instant) (rnd : ℕ) (ev : AcdEvent)
    → waits (acd_step a now rnd ev).0.phase ≡ true
    → armed (armed_at ev a.phase) (acd_step a now rnd ev).1 ≡ true
unfolding acd_step
acd_step-armed a now rnd (ev_start address) w = start-armed a now rnd address (waits a.phase)
acd_step-armed a now rnd ev_timer w =
    ap (λ r. armed false r.1) (timer-phase a rnd a.phase refl)
    ∙ timer_of-armed a rnd a.phase refl
    ∙ ap (λ r. waits r.0.phase) (sym (timer-phase a rnd a.phase refl))
    ∙ w
acd_step-armed a now rnd (ev_arp p) w = arp-armed a p w
acd_step-armed a now rnd ev_stop w = absurd (ground (arith, w, waits-stop a))

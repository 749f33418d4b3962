-- ===== src/Proto/Acd/Schedule.antt =====
-- The schedule of a check that nothing disturbs, and the wait after a conflict.
use dhcp_golib.Base.{
  ℕ, zero, suc, ◌+◌, ◌<◌, ◌≡◌, refl, ap, ap₂, sym, ◌∙◌, List, [], ◌∷◌, ◌++◌, arith, length,
  replicate, subst,
}
use dhcp_golib.Base.Int.{pos}
use dhcp_golib.Proto.Time.{Instant}
use dhcp_golib.Wire.Message.{Addr}
use dhcp_golib.Proto.Acd.{
  Acd, AcdPhase, acd_probing, acd_settling, acd_announcing, acd_defending, AcdAction, send_probe,
  send_announce, set_timer, cancel_timer, ready, conflict, note, start, announce, probe_timer,
  settle_timer, timer, acd_step, ev_timer,
}

-- The timer fires once for each instant and entropy value of a list.
abbrev pub run_timers : Acd → List (Instant × ℕ) → Acd × List AcdAction
run_timers a [] = (a, [])
run_timers a (t ∷ ts) =
    let (b, acts) = acd_step a t.0 t.1 ev_timer in
    let (c, more) = run_timers b ts in (c, acts ++ more)

-- The actions without those on the timer.
abbrev pub outline : List AcdAction → List AcdAction
outline [] = []
outline (set_timer d ∷ acts) = outline acts
outline (cancel_timer ∷ acts) = outline acts
outline (send_probe ∷ acts) = send_probe ∷ outline acts
outline (send_announce ∷ acts) = send_announce ∷ outline acts
outline (ready ∷ acts) = ready ∷ outline acts
outline (conflict r ∷ acts) = conflict r ∷ outline acts
outline (note ∷ acts) = note ∷ outline acts

outline-append : (xs ys : List AcdAction) → outline (xs ++ ys) ≡ outline xs ++ outline ys
outline-append [] ys = refl
outline-append (set_timer d ∷ xs) ys = outline-append xs ys
outline-append (cancel_timer ∷ xs) ys = outline-append xs ys
outline-append (send_probe ∷ xs) ys = ap (◌∷◌ send_probe) (outline-append xs ys)
outline-append (send_announce ∷ xs) ys = ap (◌∷◌ send_announce) (outline-append xs ys)
outline-append (ready ∷ xs) ys = ap (◌∷◌ ready) (outline-append xs ys)
outline-append (conflict r ∷ xs) ys = ap (◌∷◌ (conflict r)) (outline-append xs ys)
outline-append (note ∷ xs) ys = ap (◌∷◌ note) (outline-append xs ys)

-- A check in phase `p` that has sent `s` of its packets, on `address`, for `n` probes and `k`
-- announcements.
record IsAt (p : AcdPhase) (s n k : ℕ) (address : Addr) (a : Acd) : Type 0 where
  phase_is : a.phase ≡ p
  sent_is : a.sent ≡ s
  probes_are : a.params.probe_num ≡ pos n
  announcements_are : a.params.announce_num ≡ pos k
  address_is : a.addr ≡ address

announces_more :
    (s n k : ℕ) (address : Addr) (a : Acd)
    → suc s < k
    → IsAt acd_announcing s n k address a
    → IsAt acd_announcing (suc s) n k address (announce a).0
      × (outline (announce a).1 ≡ send_announce ∷ [])
unfolding announce
announces_more s n k address a h i =
    ground (arith, i.phase_is, i.sent_is, i.probes_are, i.announcements_are, i.address_is)

announces_last :
    (n k : ℕ) (address : Addr) (a : Acd)
    → IsAt acd_announcing k n (suc k) address a
    → IsAt acd_defending (suc k) n (suc k) address (announce a).0
      × (outline (announce a).1 ≡ send_announce ∷ [])
unfolding announce
announces_last n k address a i =
    ground (arith, i.phase_is, i.sent_is, i.probes_are, i.announcements_are, i.address_is)

-- A firing in each phase.
fires_announcing :
    (a : Acd) (now : Instant) (rnd : ℕ)
    → a.phase ≡ acd_announcing
    → acd_step a now rnd ev_timer ≡ announce a
unfolding acd_step timer
fires_announcing a now rnd e = ground (arith, e)

fires_settling :
    (a : Acd) (now : Instant) (rnd : ℕ)
    → a.phase ≡ acd_settling
    → ((acd_step a now rnd ev_timer).0
        ≡ (announce (record a { phase = acd_announcing; sent = 0 })).0)
      × ((acd_step a now rnd ev_timer).1
          ≡ (announce (record a { phase = acd_announcing; sent = 0 })).1 ++ ready ∷ [])
unfolding acd_step timer settle_timer
fires_settling a now rnd e = (ground (arith, e), ground (arith, e))

fires_probing :
    (a : Acd) (now : Instant) (rnd : ℕ)
    → a.phase ≡ acd_probing
    → acd_step a now rnd ev_timer ≡ probe_timer a rnd
unfolding acd_step timer
fires_probing a now rnd e = ground (arith, e)

probes_more :
    (s n k : ℕ) (address : Addr) (a : Acd) (rnd : ℕ)
    → suc s < n
    → IsAt acd_probing s n k address a
    → IsAt acd_probing (suc s) n k address (probe_timer a rnd).0
      × (outline (probe_timer a rnd).1 ≡ send_probe ∷ [])
unfolding probe_timer
probes_more s n k address a rnd h i =
    ground (arith, i.phase_is, i.sent_is, i.probes_are, i.announcements_are, i.address_is)

probes_last :
    (n k : ℕ) (address : Addr) (a : Acd) (rnd : ℕ)
    → IsAt acd_probing n (suc n) k address a
    → IsAt acd_settling (suc n) (suc n) k address (probe_timer a rnd).0
      × (outline (probe_timer a rnd).1 ≡ send_probe ∷ [])
unfolding probe_timer
probes_last n k address a rnd i =
    ground (arith, i.phase_is, i.sent_is, i.probes_are, i.announcements_are, i.address_is)

-- What is left to announce, `m + 1` packets.
announcing_run :
    (m s n k : ℕ) (address : Addr) (a : Acd) (ts : List (Instant × ℕ))
    → length ts ≡ suc m
    → s + suc m ≡ k
    → IsAt acd_announcing s n k address a
    → IsAt acd_defending k n k address (run_timers a ts).0
      × (outline (run_timers a ts).1 ≡ replicate (suc m) send_announce)
announcing_run m s n k address a [] l e i = absurd (omega arith)
announcing_run zero s n k address a (t ∷ u ∷ ts) l e i = absurd (omega arith)
announcing_run zero s n k address a (t ∷ []) l e i =
    let whole : k ≡ suc s = omega arith in
    let fired = fires_announcing a t.0 t.1 i.phase_is in
    let (at_end, sent) =
      announces_last n s address a (subst (λ c. IsAt acd_announcing s n c address a) whole i) in
    rw fired (
      subst (λ c. IsAt acd_defending c n c address (announce a).0) (sym whole) at_end,
      outline-append (announce a).1 [] ∙ ap (λ o. o ++ []) sent,
    )
announcing_run (suc m) s n k address a (t ∷ ts) l e i =
    let fired = fires_announcing a t.0 t.1 i.phase_is in
    let (next, sent) = announces_more s n k address a (omega arith) i in
    let (at_end, rest) =
      announcing_run m (suc s) n k address (announce a).0 ts (omega arith) (omega arith) next in
    rw fired (
      at_end,
      outline-append (announce a).1 (run_timers (announce a).0 ts).1 ∙ ap₂ (◌++◌) sent rest,
    )

-- The first announcement, after which the address is ready, and the others.
settling_run :
    (m s n : ℕ) (address : Addr) (a : Acd) (t : Instant × ℕ) (ts : List (Instant × ℕ))
    → length ts ≡ m
    → IsAt acd_settling s n (suc m) address a
    → IsAt acd_defending (suc m) n (suc m) address (run_timers a (t ∷ ts)).0
      × (outline (run_timers a (t ∷ ts)).1 ≡ send_announce ∷ ready ∷ replicate m send_announce)
settling_run zero s n address a t (u ∷ ts) l i = absurd (omega arith)
settling_run zero s n address a t [] l i =
    let (fired, acts) = fires_settling a t.0 t.1 i.phase_is in
    let first = announce (record a { phase = acd_announcing; sent = 0 }) in
    let (at_end, sent) =
      announces_last n 0 address (record a { phase = acd_announcing; sent = 0 })
        (record {
          phase_is = refl;
          sent_is = refl;
          probes_are = i.probes_are;
          announcements_are = i.announcements_are;
          address_is = i.address_is;
        }) in
    rw (fired, acts)
      (
        at_end,
        outline-append (first.1 ++ ready ∷ []) []
            ∙ ap (λ o. o ++ [])
                (outline-append first.1 (ready ∷ []) ∙ ap (λ o. o ++ ready ∷ []) sent),
      )
settling_run (suc m) s n address a t ts l i =
    let (fired, acts) = fires_settling a t.0 t.1 i.phase_is in
    let first = announce (record a { phase = acd_announcing; sent = 0 }) in
    let (next, sent) =
      announces_more 0 n (suc (suc m)) address (record a { phase = acd_announcing; sent = 0 })
        (omega arith)
        (record {
          phase_is = refl;
          sent_is = refl;
          probes_are = i.probes_are;
          announcements_are = i.announcements_are;
          address_is = i.address_is;
        }) in
    let (at_end, rest) =
      announcing_run m 1 n (suc (suc m)) address first.0 ts l (omega arith) next in
    rw (fired, acts)
      (
        at_end,
        outline-append (first.1 ++ ready ∷ []) (run_timers first.0 ts).1
            ∙ ap₂ (◌++◌) (outline-append first.1 (ready ∷ []) ∙ ap (λ o. o ++ ready ∷ []) sent)
                rest,
      )

-- What is left to probe, `m + 1` packets, and all that follows.
probing_run :
    (m s n k : ℕ) (address : Addr) (a : Acd) (ts : List (Instant × ℕ))
    → length ts ≡ suc m + suc k
    → s + suc m ≡ n
    → IsAt acd_probing s n (suc k) address a
    → IsAt acd_defending (suc k) n (suc k) address (run_timers a ts).0
      × (outline (run_timers a ts).1
          ≡ replicate (suc m) send_probe ++ send_announce ∷ ready ∷ replicate k send_announce)
probing_run m s n k address a [] l e i = absurd (omega arith)
probing_run zero s n k address a (t ∷ []) l e i = absurd (omega arith)
probing_run zero s n k address a (t ∷ u ∷ ts) l e i =
    let whole : n ≡ suc s = omega arith in
    let fired = fires_probing a t.0 t.1 i.phase_is in
    let (next, sent) =
      probes_last s (suc k) address a t.1
        (subst (λ c. IsAt acd_probing s c (suc k) address a) whole i) in
    let (at_end, rest) =
      settling_run k (suc s) (suc s) address (probe_timer a t.1).0 u ts (omega arith) next in
    rw fired (
      subst
          (λ c.
            IsAt acd_defending (suc k) c (suc k) address
              (run_timers (probe_timer a t.1).0 (u ∷ ts)).0)
          (sym whole) at_end,
      outline-append (probe_timer a t.1).1 (run_timers (probe_timer a t.1).0 (u ∷ ts)).1
          ∙ ap₂ (◌++◌) sent rest,
    )
probing_run (suc m) s n k address a (t ∷ ts) l e i =
    let fired = fires_probing a t.0 t.1 i.phase_is in
    let (next, sent) = probes_more s n (suc k) address a t.1 (omega arith) i in
    let (at_end, rest) =
      probing_run m (suc s) n k address (probe_timer a t.1).0 ts (omega arith) (omega arith) next in
    rw fired (
      at_end,
      outline-append (probe_timer a t.1).1 (run_timers (probe_timer a t.1).0 ts).1
          ∙ ap₂ (◌++◌) sent rest,
    )

starts :
    (a : Acd) (now : Instant) (rnd n k : ℕ) (address : Addr)
    → a.params.probe_num ≡ pos (suc n)
    → a.params.announce_num ≡ pos k
    → IsAt acd_probing 0 (suc n) k address (start a now rnd address).0
unfolding start
starts a now rnd n k address e f = ground (arith, e, f)

-- A check that no packet disturbs ends, after one firing of the timer for each of its packets: it sends
-- all its probes, then announces the address and hands it over, then sends the other announcements, and
-- nothing else; and it goes on defending the address it began with.
pub run_timers-start :
    (a : Acd) (now : Instant) (rnd n k : ℕ) (address : Addr) (ts : List (Instant × ℕ))
    → a.params.probe_num ≡ pos (suc n)
    → a.params.announce_num ≡ pos (suc k)
    → length ts ≡ suc n + suc k
    → ((run_timers (start a now rnd address).0 ts).0.phase ≡ acd_defending)
      × ((run_timers (start a now rnd address).0 ts).0.addr ≡ address)
      × (outline (run_timers (start a now rnd address).0 ts).1
          ≡ replicate (suc n) send_probe ++ send_announce ∷ ready ∷ replicate k send_announce)
run_timers-start a now rnd n k address ts e f l =
    let (at_end, sent) =
      probing_run n 0 (suc n) k address (start a now rnd address).0 ts l (omega arith)
        (starts a now rnd n (suc k) address e f) in
    (at_end.phase_is, at_end.address_is, sent)

-- ===== src/Proto/Journal/Trace.antt =====
-- What a replay of proto/journal.go accepts: a journal as a relation on machines, one agreement of an
-- entry with a step after another.
use dhcp_golib.Base.{
  ℕ, ◌+◌, ◌≡◌, ◌↔◌, ◌==◌, refl, ap, sym, ◌∙◌, Bool, true, List, [], ◌∷◌, none, if◌then◌else◌,
  length, arith, ==_iff, Bool-cases, Option-cases, inl, inr, Result, ok, ◌>>=◌, >>=-eq-ok,
  Result-forms,
}
use dhcp_golib.Proto.Acd.{bytes_eq}
use dhcp_golib.Proto.Acd.Conflicts.{bytes_eq_iff}
use dhcp_golib.Proto.Params.{Params}
use dhcp_golib.Proto.Event.{
  State, state_stopped, state_init, state_selecting, state_requesting, state_bound, state_renewing,
  state_rebinding, state_rebooting, state_probing, Event, Action,
}
use dhcp_golib.Proto.Machine.{Machine, Run, new}
use dhcp_golib.Proto.Machine.Step.{step}
use dhcp_golib.Proto.Journal.{
  JournalEntry, ReplayError, ReplayResult, state_number, first_difference, render_actions, event_of,
  check_actions, check_step, replay_entry, replay_entries, outcome, made, replay,
}

-- The state of a number.
state_of : ℕ → State
state_of n =
    if n == 0
    then state_stopped
    else if n == 1
    then state_init
    else if n == 2
    then state_selecting
    else if n == 3
    then state_requesting
    else if n == 4
    then state_bound
    else if n == 5
    then state_renewing
    else if n == 6
    then state_rebinding
    else if n == 7
    then state_rebooting
    else state_probing

state_of-state_number : (s : State) → state_of (state_number s) ≡ s
unfolding state_of state_number
state_of-state_number state_stopped = refl
state_of-state_number state_init = refl
state_of-state_number state_selecting = refl
state_of-state_number state_requesting = refl
state_of-state_number state_bound = refl
state_of-state_number state_renewing = refl
state_of-state_number state_rebinding = refl
state_of-state_number state_rebooting = refl
state_of-state_number state_probing = refl

state_number_iff : (s t : State) → ((state_number s == state_number t) ≡ true) ↔ (s ≡ t)
state_number_iff s t = (
  (λ e.
      sym (state_of-state_number s)
      ∙ ap state_of ((==_iff (state_number s) (state_number t)).0 e)
      ∙ state_of-state_number t),
  (λ e. (==_iff (state_number s) (state_number t)).1 (ap state_number e)),
)

first_difference_self : (i : ℕ) (texts : List (List ℕ)) → first_difference i texts texts ≡ none
unfolding first_difference
first_difference_self i [] = refl
first_difference_self i (a ∷ as_) =
    ground (arith, (bytes_eq_iff a a).1 refl, first_difference_self (i + 1) as_)

first_difference-none :
    (i : ℕ) (texts recorded : List (List ℕ))
    → length texts ≡ length recorded
    → first_difference i texts recorded ≡ none
    → texts ≡ recorded
unfolding first_difference
first_difference-none i [] [] n e = refl
first_difference-none i [] (b ∷ bs) n e = absurd (omega arith)
first_difference-none i (a ∷ as_) [] n e = absurd (omega arith)
first_difference-none i (a ∷ as_) (b ∷ bs) n e = elim (Bool-cases (bytes_eq a b)) [
  | inl same ↦
      let rest = first_difference-none (i + 1) as_ bs (omega arith) (ground (arith, same)) in
      let first = (bytes_eq_iff a b).0 same in cc
  | inr differ ↦ ground (arith, differ)
]

check_actions-ok :
    (e : JournalEntry) (got : List (List ℕ)) (m n : Machine)
    → check_actions e got m ≡ ok n
    → (got ≡ e.actions) × (m ≡ n)
unfolding check_actions
check_actions-ok e got m n h = elim (Bool-cases (length got == length e.actions)) [
  | inr other ↦ ground (arith, other, h)
  | inl same ↦ elim (Option-cases (first_difference 0 got e.actions)) [
    | inr (i, d) ↦ ground (arith, same, d, h)
    | inl d ↦
        let count = (==_iff (length got) (length e.actions)).0 same in
        (first_difference-none 0 got e.actions count d, ground (arith, same, d, h))
  ]
]

check_actions_self : (e : JournalEntry) (m : Machine) → check_actions e e.actions m ≡ ok m
unfolding check_actions
check_actions_self e m = ground (
  arith,
  first_difference_self 0 e.actions,
  (==_iff (length e.actions) (length e.actions)).1 refl,
)

module _ (render : Action → List ℕ) (is_advert : List ℕ → Bool) where
  -- An entry and a step of a machine from which it can have been recorded.
  pub record Agrees (m : Machine) (e : JournalEntry) (n : Machine) : Type 0 where
    pub event : Event
    pub read : event_of is_advert e ≡ ok event
    pub from : m.state ≡ e.from_state
    pub next : (step m e.now e.rnd event).machine ≡ n
    pub to : n.state ≡ e.to_state
    pub texts : render_actions render (step m e.now e.rnd event).out ≡ e.actions

  check_step-ok :
      (e : JournalEntry) (r : Run) (n : Machine)
      → check_step render e r ≡ ok n
      → (r.machine ≡ n) × (n.state ≡ e.to_state) × (render_actions render r.out ≡ e.actions)
  unfolding check_step
  check_step-ok e r n h =
      elim (Bool-cases (state_number r.machine.state == state_number e.to_state)) [
        | inr other ↦ ground (arith, other, h)
        | inl same ↦
            let checked : check_actions e (render_actions render r.out) r.machine ≡ ok n =
              ground (arith, same, h) in
            let (texts, m) = check_actions-ok e (render_actions render r.out) r.machine n checked in
            let there = (state_number_iff r.machine.state e.to_state).0 same in
            (m, ap (λ k. k.state) (sym m) ∙ there, texts)
      ]

  replay_entry-Agrees :
      (m n : Machine) (e : JournalEntry) → replay_entry render is_advert m e ≡ ok n → Agrees m e n
  unfolding replay_entry
  replay_entry-Agrees m n e h =
      elim (Bool-cases (state_number m.state == state_number e.from_state)) [
        | inr other ↦ ground (arith, other, h)
        | inl same ↦
            let body : (event_of is_advert e >>= λ ev. check_step render e (step m e.now e.rnd ev))
                ≡ ok n =
              ground (arith, same, h) in
            let (ev, read, checked) =
              >>=-eq-ok (event_of is_advert e) (λ ev. check_step render e (step m e.now e.rnd ev))
                body in
            let (next, to, texts) = check_step-ok e (step m e.now e.rnd ev) n checked in
            record {
              event = ev;
              read = read;
              from = (state_number_iff m.state e.from_state).0 same;
              next = next;
              to = to;
              texts = texts;
            }
      ]

  check_step-eq :
      (e : JournalEntry) (r : Run)
      → r.machine.state ≡ e.to_state
      → render_actions render r.out ≡ e.actions
      → check_step render e r ≡ ok r.machine
  unfolding check_step
  check_step-eq e r to texts =
      let same = (state_number_iff r.machine.state e.to_state).1 to in
      let checked : check_actions e (render_actions render r.out) r.machine ≡ ok r.machine =
        ap (λ l. check_actions e l r.machine) texts ∙ check_actions_self e r.machine in
      ground (arith, same, checked)

  Agrees-replay_entry :
      (m n : Machine) (e : JournalEntry) → Agrees m e n → replay_entry render is_advert m e ≡ ok n
  unfolding replay_entry
  Agrees-replay_entry m n e a =
      let same = (state_number_iff m.state e.from_state).1 a.from in
      let here : (step m e.now e.rnd a.event).machine.state ≡ e.to_state =
        ap (λ k. k.state) a.next ∙ a.to in
      let checked = check_step-eq e (step m e.now e.rnd a.event) here a.texts in
      let body : (event_of is_advert e >>= λ ev. check_step render e (step m e.now e.rnd ev))
          ≡ ok n =
        ap (λ o. o >>= λ ev. check_step render e (step m e.now e.rnd ev)) a.read
        ∙ checked
        ∙ ap ok a.next in
      ground (arith, same, body)

  -- A journal of the steps from one machine to another.
  unfoldable pub Trace : Machine → List JournalEntry → Machine → Type 0
  Trace m [] k = m ≡ k
  Trace m (e ∷ es) k = (n : Machine) × Agrees m e n × Trace n es k

  replay_entries-Trace :
      (m k : Machine) (es : List JournalEntry)
      → replay_entries render is_advert m es ≡ ok k
      → Trace m es k
  unfolding replay_entries Trace
  replay_entries-Trace m k [] h = cc
  replay_entries-Trace m k (e ∷ es) h =
      let (n, first, rest) =
        >>=-eq-ok (replay_entry render is_advert m e) (λ n. replay_entries render is_advert n es)
          h in
      (n, replay_entry-Agrees m n e first, replay_entries-Trace n k es rest)

  Trace-replay_entries :
      (m k : Machine) (es : List JournalEntry)
      → Trace m es k
      → replay_entries render is_advert m es ≡ ok k
  unfolding replay_entries Trace
  Trace-replay_entries m k [] t = cc
  Trace-replay_entries m k (e ∷ es) (n, a, t) =
      ap (λ o. o >>= λ k. replay_entries render is_advert k es) (Agrees-replay_entry m n e a)
      ∙ Trace-replay_entries n k es t

  made-ok : (p : Params) (m : Machine) → made p ≡ ok m → new p ≡ ok m
  made-ok p m h = elim (Result-forms (new p)) [
    | inl (k, e) ↦ ground (arith, e, h)
    | inr (inl (x, e)) ↦ ground (arith, e, h)
    | inr (inr e) ↦ ground (arith, e, h)
  ]

  abbrev finished : List JournalEntry → Machine → Result ReplayError ReplayResult
  finished es k = ok (outcome k (length es))

  abbrev replayed_from : List JournalEntry → Machine → Result ReplayError ReplayResult
  replayed_from es m = replay_entries render is_advert m es >>= finished es

  -- Replay succeeds, with a result, exactly where New makes a machine from which the entries are
  -- a journal: each entry is read as an event, and the step on this event, at the time and with
  -- the entropy of the entry, starts in the state it comes from, ends in the state it goes to,
  -- and emits the actions it lists; and the result is the state and the lease behind the last
  -- step, with the number of entries.
  pub replay_iff :
      (p : Params) (es : List JournalEntry) (result : ReplayResult)
      → (replay render is_advert p es ≡ ok result) ↔ (
          (m : Machine) × (k : Machine) × (new p ≡ ok m)
          × (Trace m es k)
          × (outcome k (length es) ≡ result))
  unfolding replay
  replay_iff p es result = (
    (λ h.
        let (m, first, rest) = >>=-eq-ok (made p) (replayed_from es) h in
        let (k, run, e) = >>=-eq-ok (replay_entries render is_advert m es) (finished es) rest in
        (m, k, made-ok p m first, replay_entries-Trace m k es run, cc)),
    (λ (m, k, first, t, e).
        let start : made p ≡ ok m = ground (arith, first) in
        ap (λ o. o >>= replayed_from es) start
        ∙ ap (λ o. o >>= finished es) (Trace-replay_entries m k es t)
        ∙ ap ok e),
  )

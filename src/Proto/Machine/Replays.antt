-- ===== src/Proto/Machine/Replays.antt =====
-- proto/machine_forcerenew.go: a FORCERENEW acts only if it is authenticated and new.
use dhcp_golib.Base.{
  ℕ, ◌≡◌, ◌<◌, true, List, [], none, some, arith, refl, Option-cases, inl, inr, ok, err,
  Result-forms, ◌≢◌, ◌∙◌, Bool, false, subst, sym,
}
use dhcp_golib.Proto.Time.{Instant}
use dhcp_golib.Proto.Event.{
  State, state_stopped, state_bound, state_renewing, state_rebinding, ev_received,
}
use dhcp_golib.Proto.Params.{usable_4}
use dhcp_golib.Proto.Machine.{
  Machine, Run, stamp, ForcerenewKey, Refusal, replayed, wrong_state, held_lease,
}
use dhcp_golib.Proto.Machine.Renewing.{enter_renewing, begin_renewal_transaction}
use dhcp_golib.Proto.Machine.Sending.{send_renewal}
use dhcp_golib.Proto.Machine.Messages.{chaddr_matches}
use dhcp_golib.Proto.Machine.Forcerenew.{
  addressed_refusal, authenticated, digest_verdict, forcerenew_verdict, judged, refuse_forcerenew,
  renew_now, already_renewing, take_forcerenew_in, take_forcerenew,
}
use dhcp_golib.Proto.Machine.Step.{step, handle, unstepped, is_forcerenew}
use dhcp_golib.Proto.Machine.Endings.{sent}
use dhcp_golib.Wire.Message.{Addr, Message}
use dhcp_golib.Wire.Auth.{ForcerenewAuth, forcerenew_auth_of}
use dhcp_golib.Wire.Auth.Verify.{verify_forcerenew, verify_forcerenew-true, bad_digest}

digest_verdict_new :
    (raw : List ℕ) (key : ForcerenewKey) (a : ForcerenewAuth) (replay : ℕ)
    → digest_verdict raw key a ≡ ok replay
    → (key.floor < replay)
      × (verify_forcerenew raw key.nonce ≡ ok true)
      × (digest_verdict raw (record key { floor = replay }) a ≡ err replayed)
unfolding digest_verdict
digest_verdict_new raw key a replay e = elim (Result-forms (verify_forcerenew raw key.nonce)) [
  | inl (yes_, v) ↦ ground (arith, v, verify_forcerenew-true raw key.nonce yes_ v)
  | inr (inl (bad_digest, v)) ↦ ground (arith, v)
  | inr (inl (_, v)) ↦ ground (arith, v)
  | inr (inr v) ↦ ground (arith, v)
]

authenticated_new :
    (raw : List ℕ) (msg : Message) (key : ForcerenewKey) (replay : ℕ)
    → authenticated raw msg key ≡ ok replay
    → (key.floor < replay)
      × (verify_forcerenew raw key.nonce ≡ ok true)
      × (authenticated raw msg (record key { floor = replay }) ≡ err replayed)
unfolding authenticated
authenticated_new raw msg key replay e = elim (Result-forms (forcerenew_auth_of msg.options)) [
  | inl (none, n) ↦ ground (arith, n)
  | inl (some a, n) ↦ ground (arith, n, digest_verdict_new raw key a replay)
  | inr (inl (why, n)) ↦ ground (arith, n)
  | inr (inr n) ↦ ground (arith, n)
]

-- What an accepted FORCERENEW says of the key that was held before it.
accepted_new :
    (m : Machine) (msg : Message) (raw : List ℕ) (dst : Addr) (key old : ForcerenewKey)
    → m.fr ≡ some old
    → forcerenew_verdict m msg raw dst ≡ ok key
    → (old.floor < key.floor)
      × (verify_forcerenew raw old.nonce ≡ ok true)
      × (addressed_refusal m msg raw dst ≡ none)
      × (authenticated raw msg key ≡ err replayed)
unfolding forcerenew_verdict
accepted_new m msg raw dst key old h e = elim (Result-forms (authenticated raw msg old)) [
  | inl (replay, n) ↦ ground (arith, n, authenticated_new raw msg old replay n)
  | inr (inl (why, n)) ↦ ground (arith, n)
  | inr (inr n) ↦ ground (arith, n)
]

-- Without a key nothing is accepted.
accepted_key :
    (m : Machine) (msg : Message) (raw : List ℕ) (dst : Addr) (key : ForcerenewKey)
    → forcerenew_verdict m msg raw dst ≡ ok key
    → (old : ForcerenewKey) × (m.fr ≡ some old)
unfolding forcerenew_verdict
accepted_key m msg raw dst key e = elim (Option-cases m.fr) [
  | inl n ↦ absurd (ground (arith, n))
  | inr (old, n) ↦ (old, n)
]

refused_again :
    (m m' : Machine) (msg : Message) (raw : List ℕ) (dst : Addr) (key : ForcerenewKey)
    → m'.fr ≡ some key
    → addressed_refusal m' msg raw dst ≡ none
    → authenticated raw msg key ≡ err replayed
    → forcerenew_verdict m' msg raw dst ≡ err replayed
unfolding forcerenew_verdict
refused_again m m' msg raw dst key h a e = ground (arith, h, a, e)

addressed_alike :
    (m m' : Machine) (msg : Message) (raw : List ℕ) (dst : Addr)
    → m'.lease ≡ m.lease
    → m'.params ≡ m.params
    → addressed_refusal m' msg raw dst ≡ addressed_refusal m msg raw dst
unfolding addressed_refusal chaddr_matches
addressed_alike m m' msg raw dst l p = rw (l, p) refl

-- What a message that is refused leaves as it was.
record IsUnmoved (m : Machine) (r : Run) : Type 0 where
  state : r.machine.state ≡ m.state
  lease : r.machine.lease ≡ m.lease
  key : r.machine.fr ≡ m.fr
  unsent : sent r.out ≡ []

refuse-IsUnmoved : (why : Refusal) (m : Machine) → IsUnmoved m (refuse_forcerenew why (unstepped m))
unfolding refuse_forcerenew stamp
refuse-IsUnmoved why m = ground arith

judged-IsUnmoved :
    (act : ForcerenewKey → Run → Run) (m : Machine) (msg : Message) (raw : List ℕ) (dst : Addr)
    → ((key : ForcerenewKey) → forcerenew_verdict m msg raw dst ≢ ok key)
    → IsUnmoved m (judged act msg raw dst (unstepped m))
unfolding judged
judged-IsUnmoved act m msg raw dst never = elim (Result-forms (forcerenew_verdict m msg raw dst)) [
  | inl (key, e) ↦ absurd (never key e)
  | inr (inl (why, e)) ↦ ground (arith, e, refuse-IsUnmoved why m)
  | inr (inr e) ↦ ground (arith, e)
]

take_forcerenew-IsUnmoved :
    (st : State) (m : Machine) (now : Instant) (rnd : ℕ) (msg : Message) (raw : List ℕ) (dst : Addr)
    → ((key : ForcerenewKey) → forcerenew_verdict m msg raw dst ≢ ok key)
    → IsUnmoved m (take_forcerenew_in st now rnd msg raw dst (unstepped m))
unfolding take_forcerenew_in
take_forcerenew-IsUnmoved state_bound m now rnd msg raw dst never =
    judged-IsUnmoved (renew_now now rnd) m msg raw dst never
take_forcerenew-IsUnmoved state_renewing m now rnd msg raw dst never =
    judged-IsUnmoved already_renewing m msg raw dst never
take_forcerenew-IsUnmoved state_rebinding m now rnd msg raw dst never =
    judged-IsUnmoved already_renewing m msg raw dst never
take_forcerenew-IsUnmoved state_stopped m now rnd msg raw dst never = refuse-IsUnmoved wrong_state m
take_forcerenew-IsUnmoved _ m now rnd msg raw dst never = refuse-IsUnmoved wrong_state m

-- A FORCERENEW whose octets do not verify under the key that is held, or that comes while none
-- is held, sends nothing and leaves the state, the lease and the key as they are, in every
-- state.
pub forged_forcerenew_ignored :
    (m : Machine) (now : Instant) (rnd : ℕ) (msg : Message) (raw : List ℕ) (dst : Addr)
    → is_forcerenew msg ≡ true
    → ((key : ForcerenewKey) → m.fr ≡ some key → verify_forcerenew raw key.nonce ≢ ok true)
    → let r = step m now rnd (ev_received (some msg) raw dst) in
      (r.machine.state ≡ m.state)
      × (r.machine.lease ≡ m.lease)
      × (r.machine.fr ≡ m.fr)
      × (sent r.out ≡ [])
unfolding step handle take_forcerenew
forged_forcerenew_ignored m now rnd msg raw dst f forged =
    let never : (key : ForcerenewKey) → forcerenew_verdict m msg raw dst ≢ ok key = λ key e.
      let (old, held) = accepted_key m msg raw dst key e in
      forged old held (accepted_new m msg raw dst key old held e).1 in
    let u = take_forcerenew-IsUnmoved m.state m now rnd msg raw dst never in
    rw f (u.state, u.lease, u.key, u.unsent)

abbrev pub may_renew : State → Bool
may_renew state_bound = true
may_renew state_renewing = true
may_renew state_rebinding = true
may_renew _ = false

-- What an accepted FORCERENEW leaves behind.
record IsRaised (m : Machine) (key : ForcerenewKey) (r : Run) : Type 0 where
  key_held : r.machine.fr ≡ some key
  lease : r.machine.lease ≡ m.lease
  params : r.machine.params ≡ m.params

renew_now-IsRaised :
    (m : Machine) (now : Instant) (rnd : ℕ) (key : ForcerenewKey)
    → usable_4 (held_lease m).server_id ≡ true
    → IsRaised m key (renew_now now rnd key (unstepped m))
unfolding renew_now enter_renewing begin_renewal_transaction send_renewal stamp
renew_now-IsRaised m now rnd key s = ground (arith, s)

already_renewing-IsRaised :
    (m : Machine) (key : ForcerenewKey) → IsRaised m key (already_renewing key (unstepped m))
unfolding already_renewing stamp
already_renewing-IsRaised m key = record { key_held = refl; lease = refl; params = refl }

judged-IsRaised :
    (act : ForcerenewKey → Run → Run) (m : Machine) (msg : Message) (raw : List ℕ) (dst : Addr)
    (key : ForcerenewKey)
    → forcerenew_verdict m msg raw dst ≡ ok key
    → IsRaised m key (act key (unstepped m))
    → IsRaised m key (judged act msg raw dst (unstepped m))
unfolding judged
judged-IsRaised act m msg raw dst key e done = rw (e, judged) done

take_forcerenew-IsRaised :
    (st : State) (m : Machine) (now : Instant) (rnd : ℕ) (msg : Message) (raw : List ℕ) (dst : Addr)
    (key : ForcerenewKey)
    → may_renew st ≡ true
    → usable_4 (held_lease m).server_id ≡ true
    → forcerenew_verdict m msg raw dst ≡ ok key
    → IsRaised m key (take_forcerenew_in st now rnd msg raw dst (unstepped m))
unfolding take_forcerenew_in
take_forcerenew-IsRaised state_bound m now rnd msg raw dst key h s e =
    judged-IsRaised (renew_now now rnd) m msg raw dst key e (renew_now-IsRaised m now rnd key s)
take_forcerenew-IsRaised state_renewing m now rnd msg raw dst key h s e =
    judged-IsRaised already_renewing m msg raw dst key e (already_renewing-IsRaised m key)
take_forcerenew-IsRaised state_rebinding m now rnd msg raw dst key h s e =
    judged-IsRaised already_renewing m msg raw dst key e (already_renewing-IsRaised m key)
take_forcerenew-IsRaised state_stopped m now rnd msg raw dst key h s e = cc
take_forcerenew-IsRaised _ m now rnd msg raw dst key h s e = cc

step_forcerenew :
    (m : Machine) (now : Instant) (rnd : ℕ) (msg : Message) (raw : List ℕ) (dst : Addr)
    → is_forcerenew msg ≡ true
    → step m now rnd (ev_received (some msg) raw dst)
      ≡ take_forcerenew_in m.state now rnd msg raw dst (unstepped m)
unfolding step handle take_forcerenew
step_forcerenew m now rnd msg raw dst f = rw (f, handle) refl

replay-IsUnmoved :
    (m : Machine) (now : Instant) (rnd : ℕ) (msg : Message) (raw : List ℕ) (dst : Addr)
    → is_forcerenew msg ≡ true
    → forcerenew_verdict m msg raw dst ≡ err replayed
    → IsUnmoved m (step m now rnd (ev_received (some msg) raw dst))
replay-IsUnmoved m now rnd msg raw dst f e =
    subst (IsUnmoved m) (sym (step_forcerenew m now rnd msg raw dst f))
      (take_forcerenew-IsUnmoved m.state m now rnd msg raw dst (λ key k. cc))

-- A FORCERENEW that is accepted in BOUND, RENEWING or REBINDING, on a lease with a usable
-- server, was verified under the key that was held; its step raises the replay floor of the key
-- that the machine holds, and the same message again, at any time, is refused as a replay: it
-- sends nothing and leaves the state, the lease and the key as they are.
pub forcerenew_accepted_once :
    (m : Machine) (now later : Instant) (rnd rnd' : ℕ) (msg : Message) (raw : List ℕ) (dst : Addr)
    (key : ForcerenewKey)
    → is_forcerenew msg ≡ true
    → may_renew m.state ≡ true
    → usable_4 (held_lease m).server_id ≡ true
    → forcerenew_verdict m msg raw dst ≡ ok key
    → let r = step m now rnd (ev_received (some msg) raw dst) in
      let again = step r.machine later rnd' (ev_received (some msg) raw dst) in
      ((old : ForcerenewKey) × (m.fr ≡ some old)
        × (old.floor < key.floor)
        × (verify_forcerenew raw old.nonce ≡ ok true))
      × (r.machine.fr ≡ some key)
      × (forcerenew_verdict r.machine msg raw dst ≡ err replayed)
      × (again.machine.state ≡ r.machine.state)
      × (again.machine.lease ≡ r.machine.lease)
      × (again.machine.fr ≡ some key)
      × (sent again.out ≡ [])
forcerenew_accepted_once m now later rnd rnd' msg raw dst key f st s e =
    let (old, held) = accepted_key m msg raw dst key e in
    let (grows, genuine, addressed, replay) = accepted_new m msg raw dst key old held e in
    let r = step m now rnd (ev_received (some msg) raw dst) in
    let k : IsRaised m key r =
      subst (IsRaised m key) (sym (step_forcerenew m now rnd msg raw dst f))
        (take_forcerenew-IsRaised m.state m now rnd msg raw dst key st s e) in
    let refused =
      refused_again m r.machine msg raw dst key k.key_held
        (addressed_alike m r.machine msg raw dst k.lease k.params ∙ addressed) replay in
    let u = replay-IsUnmoved r.machine later rnd' msg raw dst f refused in
    (
      (old, held, grows, genuine),
      k.key_held,
      refused,
      u.state,
      u.lease,
      u.key ∙ k.key_held,
      u.unsent,
    )

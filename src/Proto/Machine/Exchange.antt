-- ===== src/Proto/Machine/Exchange.antt =====
-- proto/machine.go: an OFFER that is usable is answered with a request for it.
use dhcp_golib.Base.{
  ℕ, suc, ◌+◌, ◌≤◌, ◌≡◌, ◌⊎◌, true, false, List, [], ◌∷◌, some, arith, refl, sym, subst, ap, ap₂,
  ◌∙◌, Option-cases, inl, inr, length,
}
use dhcp_golib.Proto.Time.{Instant}
use dhcp_golib.Proto.Params.{usable_4}
use dhcp_golib.Proto.Event.{
  state_selecting, state_requesting, ev_received, ev_timer_fired, timer_retransmit,
}
use dhcp_golib.Proto.Backoff.{Backoff, exhausted}
use dhcp_golib.Proto.Machine.{Machine, Run, stamp}
use dhcp_golib.Proto.Machine.Messages.{
  acceptable, request_of, base, base_named, blank_message, as_4,
}
use dhcp_golib.Proto.Machine.Idle.{broadcasting}
use dhcp_golib.Proto.Machine.Sending.{send_request}
use dhcp_golib.Proto.Machine.Answers.{received_selecting, take_offer, v6_only_value}
use dhcp_golib.Proto.Machine.Step.{
  step, handle, dispatch, unstepped, step_selecting, if_acceptable, step_requesting,
  timer_requesting,
}
use dhcp_golib.Proto.Machine.Endings.{sent}
use dhcp_golib.Proto.Machine.Requests.{identity, request_identities}
use dhcp_golib.Wire.Option.{opt_server_id}
use dhcp_golib.Wire.Message.{
  Addr, Message, msg_type, msg_offer, msg_request, invalid, set_type, is_unspecified,
  clone_message_lem,
}
use dhcp_golib.Wire.Values.{addr4}

request_identity :
    (m : Machine) (now : Instant) (offer : Message) (sid : Addr)
    → addr4 opt_server_id offer.options ≡ some sid
    → identity (request_of m now offer) ≡ record {
      kind = some msg_request;
      requested = some (as_4 offer.yiaddr);
      server = some (as_4 sid);
      own = invalid;
    }
request_identity m now offer sid e = (request_identities m now offer sid e).0

request_of-xid :
    (m : Machine) (now : Instant) (offer : Message) → (request_of m now offer).xid ≡ m.xid
unfolding request_of base base_named blank_message set_type
request_of-xid m now offer = elim (Option-cases (addr4 opt_server_id offer.options)) [
  | inl e ↦ ground (arith, e)
  | inr (sid, e) ↦ ground (arith, e)
]

-- A run in which an offer of the server `sid` is asked for under the parameters and the transaction of a
-- machine, for the `n`-th time again: one message, a request for it, is broadcast.
pub record Asks (m : Machine) (offer : Message) (sid : Addr) (n : ℕ) (r : Run) : Type 0 where
  pub state : r.machine.state ≡ state_requesting
  pub kept : r.machine.offer ≡ some offer
  pub xid : r.machine.xid ≡ m.xid
  pub params : r.machine.params ≡ m.params
  pub count : r.machine.retransmits ≡ n
  pub told :
      (message : Message) × (sent r.out ≡ (message, broadcasting) ∷ [])
      × (message.xid ≡ m.xid)
      × (identity message ≡ record {
        kind = some msg_request;
        requested = some (as_4 offer.yiaddr);
        server = some (as_4 sid);
        own = invalid;
      })

send_request-Asks :
    (m u : Machine) (now : Instant) (rnd : ℕ) (offer : Message) (sid : Addr) (n : ℕ)
    → addr4 opt_server_id offer.options ≡ some sid
    → u.offer ≡ some offer
    → u.xid ≡ m.xid
    → u.params ≡ m.params
    → u.retransmits ≡ n
    → Asks m offer sid n (send_request now rnd (unstepped u))
unfolding send_request stamp
send_request-Asks m u now rnd offer sid n a o x p k =
    rw (o, send_request)
      (record {
        state = refl;
        kept = o;
        xid = x;
        params = p;
        count = k;
        told = (
          request_of u now offer,
          refl,
          request_of-xid u now offer ∙ x,
          request_identity u now offer sid a,
        );
      })

take_offer_chosen :
    (m : Machine) (now : Instant) (rnd : ℕ) (msg : Message) (sid : Addr)
    → m.params.ipv6_only_preferred ≡ false
    → usable_4 msg.yiaddr ≡ true
    → addr4 opt_server_id msg.options ≡ some sid
    → is_unspecified sid ≡ false
    → take_offer now rnd msg (unstepped m)
      ≡ send_request now rnd (unstepped (record m { offer = some msg; retransmits = 0 }))
unfolding take_offer v6_only_value
take_offer_chosen m now rnd msg sid p y a u = ground (arith, p, y, a, u, clone_message_lem msg)

-- When the retransmission timer fires, and with which entropy.
pub record Tick : Type 0 where
  pub now : Instant
  pub rnd : ℕ

-- The last run, where the timer fires again and again behind a run.
abbrev pub retransmitted : Run → List Tick → Run
retransmitted r [] = r
retransmitted r (t ∷ ts) =
    retransmitted (step r.machine t.now t.rnd (ev_timer_fired timer_retransmit)) ts

step_tick :
    (u : Machine) (now : Instant) (rnd : ℕ)
    → u.state ≡ state_requesting
    → exhausted u.params.request u.retransmits ≡ false
    → step u now rnd (ev_timer_fired timer_retransmit)
      ≡ send_request now rnd (unstepped (record u { retransmits = u.retransmits + 1 }))
unfolding step handle dispatch step_requesting timer_requesting
step_tick u now rnd s h = ground (arith, s, h)

tick-Asks :
    (m : Machine) (r : Run) (now : Instant) (rnd : ℕ) (offer : Message) (sid : Addr) (n : ℕ)
    → addr4 opt_server_id offer.options ≡ some sid
    → Asks m offer sid n r
    → exhausted m.params.request n ≡ false
    → Asks m offer sid (n + 1) (step r.machine now rnd (ev_timer_fired timer_retransmit))
tick-Asks m r now rnd offer sid n a k h =
    let u = r.machine in
    let left : exhausted u.params.request u.retransmits ≡ false =
      ap₂ (λ q j. exhausted q.request j) k.params k.count ∙ h in
    subst (Asks m offer sid (n + 1)) (sym (step_tick u now rnd k.state left)) (
      send_request-Asks m (record u { retransmits = u.retransmits + 1 }) now rnd offer sid (n + 1) a
        k.kept k.xid k.params (ap (λ j. j + 1) k.count))

-- A schedule that allows so many retransmissions.
abbrev pub Allows : Backoff → ℕ → Type 0
Allows b n = (b.max_retransmissions ≡ 0) ⊎ (n ≤ b.max_retransmissions)

Allows-exhausted : (b : Backoff) (n k : ℕ) → Allows b (n + suc k) → exhausted b n ≡ false
unfolding exhausted
Allows-exhausted b n k (inl e) = ground arith
Allows-exhausted b n k (inr e) = ground arith

retransmitted-Asks :
    (m : Machine) (r : Run) (offer : Message) (sid : Addr) (n : ℕ) (ts : List Tick)
    → addr4 opt_server_id offer.options ≡ some sid
    → Asks m offer sid n r
    → Allows m.params.request (n + length ts)
    → Asks m offer sid (n + length ts) (retransmitted r ts)
retransmitted-Asks m r offer sid n [] a k h = subst (λ j. Asks m offer sid j r) (omega arith) k
retransmitted-Asks m r offer sid n (t ∷ ts) a k h =
    let again =
      tick-Asks m r t.now t.rnd offer sid n a k
        (Allows-exhausted m.params.request n (length ts) h) in
    let next = step r.machine t.now t.rnd (ev_timer_fired timer_retransmit) in
    let count : n + 1 + length ts ≡ n + suc (length ts) = omega arith in
    subst (λ j. Asks m offer sid j (retransmitted next ts)) count
      (retransmitted-Asks m next offer sid (n + 1) ts a again
        (subst (Allows m.params.request) (sym count) h))

step_offer :
    (m : Machine) (now : Instant) (rnd : ℕ) (msg : Message) (raw : List ℕ) (dst sid : Addr)
    → m.state ≡ state_selecting
    → acceptable m (some msg) ≡ some msg
    → msg_type msg ≡ some msg_offer
    → m.params.ipv6_only_preferred ≡ false
    → usable_4 msg.yiaddr ≡ true
    → addr4 opt_server_id msg.options ≡ some sid
    → is_unspecified sid ≡ false
    → step m now rnd (ev_received (some msg) raw dst)
      ≡ send_request now rnd (unstepped (record m { offer = some msg; retransmits = 0 }))
unfolding step handle dispatch step_selecting if_acceptable received_selecting
step_offer m now rnd msg raw dst sid s ok_ t p y a u =
    ground (arith, s, ok_, t, take_offer_chosen m now rnd msg sid p y a u)

-- An OFFER in SELECTING that is acceptable and has a usable address and server, on a client that
-- does not prefer IPv6, is kept and asked for, and asked for again each time the retransmission
-- timer fires, within the limit of the schedule: each step broadcasts one DHCPREQUEST under the
-- transaction id of before, with the offered address in option 50, the server in option 54 and
-- no own address, and stays in REQUESTING on this offer.
pub offer_answered :
    (m : Machine) (now : Instant) (rnd : ℕ) (msg : Message) (raw : List ℕ) (dst sid : Addr)
    (ts : List Tick)
    → m.state ≡ state_selecting
    → acceptable m (some msg) ≡ some msg
    → msg_type msg ≡ some msg_offer
    → m.params.ipv6_only_preferred ≡ false
    → usable_4 msg.yiaddr ≡ true
    → addr4 opt_server_id msg.options ≡ some sid
    → is_unspecified sid ≡ false
    → Allows m.params.request (length ts)
    → Asks m msg sid
        (length ts)
        (retransmitted (step m now rnd (ev_received (some msg) raw dst)) ts)
offer_answered m now rnd msg raw dst sid ts s ok_ t p y a u h =
    let chosen = record m { offer = some msg; retransmits = 0 } in
    let asked : Asks m msg sid 0 (step m now rnd (ev_received (some msg) raw dst)) =
      subst (Asks m msg sid 0) (sym (step_offer m now rnd msg raw dst sid s ok_ t p y a u))
        (send_request-Asks m chosen now rnd msg sid 0 a refl refl refl refl) in
    let answer = step m now rnd (ev_received (some msg) raw dst) in
    let count : 0 + length ts ≡ length ts = omega arith in
    subst (λ j. Asks m msg sid j (retransmitted answer ts)) count
      (retransmitted-Asks m answer msg sid 0 ts a asked
        (subst (Allows m.params.request) (sym count) h))

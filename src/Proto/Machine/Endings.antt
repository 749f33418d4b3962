-- ===== src/Proto/Machine/Endings.antt =====
-- proto/machine.go: how the machine ends, and what it does not look at.
use dhcp_golib.Base.{
  ℕ, ◌≡◌, Bool, true, false, List, [], ◌∷◌, none, some, arith, refl, Option-cases, inl, inr, subst,
  ◌≢◌, ◌⊎◌, ==_iff, ◌%◌, ◌^◌, ◌&&◌, Bool-cases,
}
use dhcp_golib.Proto.Time.{Instant}
use dhcp_golib.Proto.Params.{split, permits, usable_4}
use dhcp_golib.Proto.Lease.{Lease}
use dhcp_golib.Proto.Machine.Requests.{identity, release_identity}
use dhcp_golib.Proto.Acd.{bytes_eq}
use dhcp_golib.Proto.Event.{
  State, state_stopped, state_init, state_selecting, state_requesting, state_bound, state_renewing,
  state_rebinding, state_rebooting, state_probing, ev_stop, ev_release, ev_received, TimerId,
  timer_retransmit, Dest, Reason, reason_stopped, reason_released, Action, ActionKind, act_send,
  act_journal,
}
use dhcp_golib.Proto.Machine.{Machine, Run, stamp, bump, cancel_all, ◌▷◌}
use dhcp_golib.Proto.Machine.Messages.{
  boot_reply, chaddr_matches, acceptable, accepts, terminal_fields, release_of, held_or_probing,
  as_4,
}
use dhcp_golib.Proto.Machine.Idle.{acd_idle, halt, stop, drop_lease}
use dhcp_golib.Proto.Machine.Sending.{release, send_release}
use dhcp_golib.Proto.Machine.Step.{
  step, handle, dispatch, unstepped, is_forcerenew, step_init, step_selecting, step_requesting,
  step_rebooting, step_bound, step_renewal, step_probing, if_acceptable,
}
use dhcp_golib.Proto.Machine.Promise.{armed_after, awaits}
use dhcp_golib.Wire.Option.{opt_server_id}
use dhcp_golib.Wire.Message.{Addr, Message, msg_release}
use dhcp_golib.Wire.Values.{addr4}

-- The messages of a list of actions, the newest first.
abbrev pub sent_by : ActionKind → List (Message × Dest) → List (Message × Dest)
sent_by (act_send msg dest) rest = (msg, dest) ∷ rest
sent_by _ rest = rest

abbrev pub sent : List Action → List (Message × Dest)
sent [] = []
sent (a ∷ acts) = sent_by a.kind (sent acts)

abbrev pub is_stopped : State → Bool
is_stopped state_stopped = true
is_stopped _ = false

-- The machine has ended: it holds and checks nothing, a client has no timer of it armed, and `messages`
-- are what it sent in this step.
pub record IsEnded (armed : TimerId → Bool) (messages : List (Message × Dest)) (r : Run)
    : Type 0 where
  pub over : r.machine.state ≡ state_stopped
  pub no_lease : r.machine.lease ≡ none
  pub unchecked : r.machine.probing ≡ none
  pub disarmed : (t : TimerId) → armed_after t (armed t) r.out ≡ false
  pub messages_sent : sent r.out ≡ messages

cancel_all_disarms :
    (t : TimerId) (armed : Bool) (r : Run) → armed_after t armed (cancel_all r).out ≡ false
unfolding cancel_all stamp
cancel_all_disarms timer_retransmit armed r = refl
cancel_all_disarms _ armed r = refl

drop_lease_unsent :
    (why : Reason) (r : Run)
    → (sent (drop_lease why r).out ≡ sent r.out) × ((drop_lease why r).machine.lease ≡ none)
unfolding drop_lease stamp
drop_lease_unsent why r = elim (Option-cases r.machine.lease) [
  | inl e ↦ ground (arith, e)
  | inr (l, e) ↦ ground (arith, e)
]

halt-IsEnded :
    (why : Reason) (armed : TimerId → Bool) (r : Run) → IsEnded armed (sent r.out) (halt why r)
unfolding halt stamp
halt-IsEnded why armed r = record {
  over = refl;
  no_lease = (drop_lease_unsent why r).1;
  unchecked = refl;
  disarmed = λ t. cancel_all_disarms t (armed t) (r ▷ drop_lease why ▷ acd_idle);
  messages_sent = (drop_lease_unsent why r).0;
}

stop-IsEnded :
    (st : State) (m : Machine) (now : Instant) (rnd : ℕ) (armed : TimerId → Bool)
    → is_stopped st ≡ false
    → IsEnded armed [] (dispatch st now rnd ev_stop (unstepped m))
unfolding dispatch step_init step_selecting step_requesting step_rebooting step_bound step_renewal
    step_probing stop
stop-IsEnded state_stopped m now rnd armed h = cc
stop-IsEnded state_init m now rnd armed h = halt-IsEnded reason_stopped armed (unstepped m)
stop-IsEnded _ m now rnd armed h = halt-IsEnded reason_stopped armed (unstepped m)

-- What a release sends: one DHCPRELEASE to the server of the lease, or nothing where there is none.
abbrev released : Machine → ℕ → List (Message × Dest)
released m rnd = elim (terminal_fields m) [
  | none ↦ []
  | some t ↦
      (
        release_of m.params (split rnd 5 % 2 ^ 32) t.0 t.1,
        record { broadcast = false; addr = t.1; src = t.0 },
      )
      ∷ []
]

send_release_sent :
    (m : Machine) (rnd : ℕ) → sent (send_release rnd (unstepped m)).out ≡ released m rnd
unfolding send_release stamp
send_release_sent m rnd = elim (Option-cases (terminal_fields m)) [
  | inl e ↦ ground (arith, e)
  | inr (t, e) ↦ ground (arith, e)
]

-- The destination of a message to the server of a lease.
abbrev pub to_server : Lease → Dest
to_server l = record { broadcast = false; addr = l.server_id; src = l.addr.addr }

-- Whether a lease names an address and a server that a message can be about.
abbrev pub is_addressed : Lease → Bool
is_addressed l = usable_4 l.addr.addr && usable_4 l.server_id

-- The messages that give back a lease: one DHCPRELEASE to its server, which has the address of the lease
-- as its own, or none where the lease does not name both.
abbrev pub GivesBack : Lease → List (Message × Dest) → Type 0
GivesBack l messages =
    ((is_addressed l ≡ false) × (messages ≡ []))
    ⊎ ((is_addressed l ≡ true)
        × ((message : Message) × (messages ≡ (message, to_server l) ∷ [])
            × (identity message ≡ record {
              kind = some msg_release;
              requested = none;
              server = some (as_4 l.server_id);
              own = l.addr.addr;
            })))

terminal_fields-addressed :
    (m : Machine)
    → is_addressed (held_or_probing m) ≡ true
    → terminal_fields m ≡ some ((held_or_probing m).addr.addr, (held_or_probing m).server_id)
unfolding terminal_fields
terminal_fields-addressed m e = ground (arith, e)

terminal_fields-unaddressed :
    (m : Machine) → is_addressed (held_or_probing m) ≡ false → terminal_fields m ≡ none
unfolding terminal_fields
terminal_fields-unaddressed m e = ground (arith, e)

released-GivesBack : (m : Machine) (rnd : ℕ) → GivesBack (held_or_probing m) (released m rnd)
released-GivesBack m rnd =
    let l = held_or_probing m in
    elim (Bool-cases (is_addressed l)) [
      | inr e ↦ inl (e, ground (arith, terminal_fields-unaddressed m e))
      | inl e ↦ inr (
        e,
        (
          release_of m.params (split rnd 5 % 2 ^ 32) l.addr.addr l.server_id,
          ground (arith, terminal_fields-addressed m e),
          release_identity m.params (split rnd 5 % 2 ^ 32) l.addr.addr l.server_id,
        ),
      )
    ]

abbrev pub may_release : State → Bool
may_release state_bound = true
may_release state_renewing = true
may_release state_rebinding = true
may_release state_probing = true
may_release _ = false

release-IsEnded :
    (m : Machine) (rnd : ℕ) (armed : TimerId → Bool)
    → IsEnded armed (released m rnd) (release rnd (unstepped m))
unfolding release
release-IsEnded m rnd armed =
    subst (λ l. IsEnded armed l (release rnd (unstepped m))) (send_release_sent m rnd)
      (halt-IsEnded reason_released armed (send_release rnd (unstepped m)))

dispatch-released :
    (st : State) (m : Machine) (now : Instant) (rnd : ℕ) (armed : TimerId → Bool)
    → may_release st ≡ true
    → IsEnded armed (released m rnd) (dispatch st now rnd ev_release (unstepped m))
unfolding dispatch step_bound step_renewal step_probing
dispatch-released state_bound m now rnd armed h = release-IsEnded m rnd armed
dispatch-released state_renewing m now rnd armed h = release-IsEnded m rnd armed
dispatch-released state_rebinding m now rnd armed h = release-IsEnded m rnd armed
dispatch-released state_probing m now rnd armed h = release-IsEnded m rnd armed
dispatch-released state_stopped m now rnd armed h = cc
dispatch-released _ m now rnd armed h = cc

-- A stop in any state but STOPPED sends nothing, and leaves the machine stopped, with nothing
-- held or checked and no timer armed.
pub stop_ends :
    (m : Machine) (now : Instant) (rnd : ℕ) (armed : TimerId → Bool)
    → is_stopped m.state ≡ false
    → IsEnded armed [] (step m now rnd ev_stop)
unfolding step handle
stop_ends m now rnd armed h = stop-IsEnded m.state m now rnd armed h

-- A release in BOUND, RENEWING, REBINDING or PROBING sends one DHCPRELEASE to the server of the
-- lease, with that server in option 54, the address of the lease as its own address and no
-- option 50, or nothing where the lease names no usable address or server, and leaves the
-- machine stopped, with nothing held or checked and no timer armed.
pub release_ends :
    (m : Machine) (now : Instant) (rnd : ℕ) (armed : TimerId → Bool)
    → may_release m.state ≡ true
    → (messages : List (Message × Dest)) × IsEnded armed messages (step m now rnd ev_release)
      × GivesBack (held_or_probing m) messages
unfolding step handle
release_ends m now rnd armed h =
    (released m rnd, dispatch-released m.state m now rnd armed h, released-GivesBack m rnd)

-- The machine after one note, and the action of that note.
abbrev pub noted_only : Machine → Run
noted_only m = record {
  machine = record m { next_action = bump m.next_action };
  out = record { id = m.next_action; kind = act_journal } ∷ [];
}

ignored_in :
    (st : State) (m : Machine) (now : Instant) (rnd : ℕ) (msg : Message) (raw : List ℕ) (dst : Addr)
    → awaits st ≡ true
    → acceptable m (some msg) ≡ none
    → dispatch st now rnd (ev_received (some msg) raw dst) (unstepped m) ≡ noted_only m
unfolding dispatch step_selecting step_requesting step_rebooting step_renewal if_acceptable stamp
ignored_in state_selecting m now rnd msg raw dst h e = ground (arith, e)
ignored_in state_requesting m now rnd msg raw dst h e = ground (arith, e)
ignored_in state_rebooting m now rnd msg raw dst h e = ground (arith, e)
ignored_in state_renewing m now rnd msg raw dst h e = ground (arith, e)
ignored_in state_rebinding m now rnd msg raw dst h e = ground (arith, e)
ignored_in state_stopped m now rnd msg raw dst h e = cc
ignored_in _ m now rnd msg raw dst h e = cc

-- A message that is no FORCERENEW, in a state that waits for an answer, changes nothing but the
-- next action id and leaves one note, if it is no BOOTREPLY, or of another transaction or
-- hardware address, or of a server that the policy refuses.
pub foreign_message_ignored :
    (m : Machine) (now : Instant) (rnd : ℕ) (msg : Message) (raw : List ℕ) (dst : Addr)
    → awaits m.state ≡ true
    → is_forcerenew msg ≡ false
    → (msg.op ≢ boot_reply)
      ⊎ ((msg.xid ≢ m.xid)
          ⊎ ((bytes_eq msg.chaddr m.params.chaddr ≡ false)
              ⊎ (permits m.params.servers (addr4 opt_server_id msg.options) ≡ false)))
    → step m now rnd (ev_received (some msg) raw dst) ≡ noted_only m
unfolding step handle acceptable accepts chaddr_matches
foreign_message_ignored m now rnd msg raw dst h f bad =
    let refused : acceptable m (some msg) ≡ none =
      ground (arith, ==_iff msg.op boot_reply, ==_iff msg.xid m.xid) in
    ground (arith, f, ignored_in m.state m now rnd msg raw dst h refused)

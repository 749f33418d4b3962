-- ===== src/Proto/Machine/Promise/Runs.antt =====
-- The promise of the DHCPv4 machine (proto/machine.go) over the runs of a client that carries its actions
-- out: any events, at any times, with any entropy.
use dhcp_golib.Base.{ℕ, ◌≡◌, Bool, true, false, ◌&&◌, List, [], ◌∷◌, some, arith, ok, subst, sym}
use dhcp_golib.Proto.Time.{Instant}
use dhcp_golib.Proto.Params.{Params}
use dhcp_golib.Proto.Lease.{Lease, deadlines, expire}
use dhcp_golib.Proto.Event.{Event, timer_retransmit, timer_expire}
use dhcp_golib.Proto.Machine.{Machine, new, fresh, completed, encoded}
use dhcp_golib.Proto.Machine.Step.{step, unstepped}
use dhcp_golib.Proto.Machine.Promise.{
  Client, fired, observed, in_order, is_some, fits, awaits, IsSettled,
}
use dhcp_golib.Proto.Machine.Promise.Steps.{step-IsSettled}

-- What one call of Step is given.
pub record Input : Type 0 where
  pub now : Instant
  pub rnd : ℕ
  pub event : Event

-- The machine, what a client has made of its actions, and whether all of them came in order.
pub record Watch : Type 0 where
  pub machine : Machine
  pub client : Client
  pub orderly : Bool

unfoldable pub watch : Watch → Input → Watch
watch w i =
    let r = step w.machine i.now i.rnd i.event in
    let c = fired i.event w.client in
    record {
      machine = r.machine;
      client = observed r.out c;
      orderly = w.orderly && in_order c.held r.out;
    }

unfoldable pub watch_all : Watch → List Input → Watch
unfolding watch
watch_all w [] = w
watch_all w (i ∷ is) = watch_all (watch w i) is

-- A machine that has not stepped: no lease is held, and no timer is armed.
abbrev pub unstarted : Machine → Watch
unstarted m = record {
  machine = m;
  client = record { held = false; armed = λ t. false };
  orderly = true;
}

-- The promise between two steps.
record IsKept (w : Watch) : Type 0 where
  settled : IsSettled w.client (unstepped w.machine)
  in_turn : w.orderly ≡ true

watch-IsKept : (w : Watch) (i : Input) → IsKept w → IsKept (watch w i)
unfolding watch
watch-IsKept w i k =
    let after = step-IsSettled w.client w.machine k.settled i.now i.rnd i.event in ground arith

watch_all-IsKept : (w : Watch) (is : List Input) → IsKept w → IsKept (watch_all w is)
unfolding watch_all
watch_all-IsKept w [] k = k
watch_all-IsKept w (i ∷ is) k = watch_all-IsKept (watch w i) is (watch-IsKept w i k)

fresh-IsKept : (p : Params) → IsKept (unstarted (fresh p))
unfolding fresh
fresh-IsKept p = ground arith

new-eq-fresh : (p : Params) (m : Machine) → new p ≡ ok m → m ≡ fresh m.params
unfolding new encoded fresh completed
new-eq-fresh p m e = ground arith

run-IsKept :
    (p : Params) (m : Machine) (is : List Input)
    → new p ≡ ok m
    → IsKept (watch_all (unstarted m) is)
run-IsKept p m is e =
    let first : IsKept (unstarted m) =
      subst (λ n. IsKept (unstarted n)) (sym (new-eq-fresh p m e)) (fresh-IsKept m.params) in
    watch_all-IsKept (unstarted m) is first

-- In every run of a machine that New made, on any events, at any times and with any entropy, a
-- lease is acquired only where the actions before leave none held, and is changed, renewed or
-- lost only where they leave one held; and what they leave held is what the machine holds.
pub lease_events_in_order :
    (p : Params) (m : Machine) (is : List Input)
    → new p ≡ ok m
    → ((watch_all (unstarted m) is).orderly ≡ true)
      × ((watch_all (unstarted m) is).client.held
          ≡ is_some (watch_all (unstarted m) is).machine.lease)
lease_events_in_order p m is e = let k = run-IsKept p m is e in (k.in_turn, k.settled.known)

-- In every run of a machine that New made, it holds a lease exactly in BOUND, RENEWING and
-- REBINDING, and checks one exactly in PROBING.
pub state_fits_lease :
    (p : Params) (m : Machine) (is : List Input)
    → new p ≡ ok m
    → (let n = (watch_all (unstarted m) is).machine in
        fits n.state (is_some n.lease) (is_some n.probing))
      ≡ true
state_fits_lease p m is e = (run-IsKept p m is e).settled.fitting

-- In every run of a machine that New made, on a client that carries its actions out and takes a
-- timer that fires for no longer armed, the retransmission timer is armed in each state that
-- waits for an answer.
pub answer_timer_armed :
    (p : Params) (m : Machine) (is : List Input)
    → new p ≡ ok m
    → awaits (watch_all (unstarted m) is).machine.state ≡ true
    → (watch_all (unstarted m) is).client.armed timer_retransmit ≡ true
answer_timer_armed p m is e h = let k = (run-IsKept p m is e).settled.waiting in ground (arith, k)

deadlines-expire : (l : Lease) → (deadlines l).expire ≡ expire l
unfolding deadlines
deadlines-expire l = ground arith

-- In every run of a machine that New made, on a client that carries its actions out and takes a
-- timer that fires for no longer armed, the expiry timer is armed while a lease that expires is
-- held.
pub expiry_timer_armed :
    (p : Params) (m : Machine) (is : List Input) (l : Lease) (t : Instant)
    → new p ≡ ok m
    → (watch_all (unstarted m) is).machine.lease ≡ some l
    → expire l ≡ some t
    → (watch_all (unstarted m) is).client.armed timer_expire ≡ true
expiry_timer_armed p m is l t e h x =
    let k = (run-IsKept p m is e).settled.expiring in ground (arith, k, deadlines-expire l)

-- ===== src/Proto/Machine/Promise.antt =====
-- What the client of the DHCPv4 machine sees of it: whether it holds a lease, and which timers are
-- armed. The promise of the machine is stated over these.
pub mod Parts
pub mod Restarts
pub mod Failures
pub mod Leases
pub mod Conflicts
pub mod Replies
pub mod Firing
pub mod Steps
pub mod Runs
use dhcp_golib.Base.{
  ℕ, ◌≡◌, Bool, true, false, ◌&&◌, ◌||◌, not, List, [], ◌∷◌, Option, none, some, if◌then◌else◌,
  ◌==◌,
}
use dhcp_golib.Proto.Lease.{Lease, deadlines}
use dhcp_golib.Proto.Event.{
  State, state_stopped, state_init, state_selecting, state_requesting, state_bound, state_renewing,
  state_rebinding, state_rebooting, state_probing, TimerId, timer_retransmit, timer_desync,
  timer_expire, timer_restart, timer_renew, timer_rebind, timer_acd, timer6_retransmit,
  timer6_delay, timer6_expire, timer6_renew, timer6_rebind, timer6_dad, timer6_refresh,
  timer6_router_solicit, timer6_slaac, timer6_auto_fallback, Event, ev_timer_fired, Action,
  ActionKind, act_set_timer, act_cancel_timer, act_lease_acquired, act_lease_changed,
  act_lease_renewed, act_lease_lost,
}
use dhcp_golib.Proto.Machine.{Run}

-- The constants of TimerID are numbered from 0.
abbrev pub timer_index : TimerId → ℕ
timer_index timer_retransmit = 0
timer_index timer_desync = 1
timer_index timer_expire = 2
timer_index timer_restart = 3
timer_index timer_renew = 4
timer_index timer_rebind = 5
timer_index timer_acd = 6
timer_index timer6_retransmit = 7
timer_index timer6_delay = 8
timer_index timer6_expire = 9
timer_index timer6_renew = 10
timer_index timer6_rebind = 11
timer_index timer6_dad = 12
timer_index timer6_refresh = 13
timer_index timer6_router_solicit = 14
timer_index timer6_slaac = 15
timer_index timer6_auto_fallback = 16

abbrev pub same_timer : TimerId → TimerId → Bool
same_timer t u = timer_index t == timer_index u

-- Whether a lease is held after an action, and a timer armed, from whether it was before.
abbrev pub held_by : ActionKind → Bool → Bool
held_by (act_lease_acquired l asked) before = true
held_by (act_lease_lost why) before = false
held_by _ before = before

abbrev pub armed_by : TimerId → ActionKind → Bool → Bool
armed_by t (act_set_timer u d) before = if same_timer u t then true else before
armed_by t (act_cancel_timer u) before = if same_timer u t then false else before
armed_by t _ before = before

-- Whether an action may come: a lease is acquired where none is held, and changes, is renewed or is
-- lost where one is.
abbrev pub may_come : ActionKind → Bool → Bool
may_come (act_lease_acquired l asked) held = not held
may_come (act_lease_changed l) held = held
may_come (act_lease_renewed l) held = held
may_come (act_lease_lost why) held = held
may_come _ held = true

-- The same over the actions of a step, of which the newest stands first.
abbrev pub held_after : Bool → List Action → Bool
held_after before [] = before
held_after before (a ∷ acts) = held_by a.kind (held_after before acts)

abbrev pub armed_after : TimerId → Bool → List Action → Bool
armed_after t before [] = before
armed_after t before (a ∷ acts) = armed_by t a.kind (armed_after t before acts)

abbrev pub in_order : Bool → List Action → Bool
in_order before [] = true
in_order before (a ∷ acts) = may_come a.kind (held_after before acts) && in_order before acts

pub record Client : Type 0 where
  pub held : Bool
  pub armed : TimerId → Bool

-- A timer that fires is no longer armed.
abbrev pub fired : Event → Client → Client
fired (ev_timer_fired t) c = record c { armed = λ u. if same_timer t u then false else c.armed u }
fired _ c = c

abbrev pub observed : List Action → Client → Client
observed acts c = record {
  held = held_after c.held acts;
  armed = λ t. armed_after t (c.armed t) acts;
}

abbrev pub is_some {ℓ} : {A : Type ℓ} → Option A → Bool
is_some none = false
is_some (some a) = true

-- What each state holds: a lease from BOUND to REBINDING, a lease that is being checked in PROBING.
abbrev pub fits : State → Bool → Bool → Bool
fits state_stopped held checking = not held && not checking
fits state_init held checking = not held && not checking
fits state_selecting held checking = not held && not checking
fits state_requesting held checking = not held && not checking
fits state_rebooting held checking = not held && not checking
fits state_probing held checking = not held && checking
fits state_bound held checking = held && not checking
fits state_renewing held checking = held && not checking
fits state_rebinding held checking = held && not checking

-- The states that wait for an answer of a server.
abbrev pub awaits : State → Bool
awaits state_selecting = true
awaits state_requesting = true
awaits state_rebooting = true
awaits state_renewing = true
awaits state_rebinding = true
awaits _ = false

abbrev pub has_expiry : Option Lease → Bool
has_expiry none = false
has_expiry (some l) = is_some (deadlines l).expire

-- In the course of a step that a client `c` watches: the client knows of the lease, and the actions
-- that came are in order.
pub record IsTracked (c : Client) (r : Run) : Type 0 where
  pub known : held_after c.held r.out ≡ is_some r.machine.lease
  pub ordered : in_order c.held r.out ≡ true

-- The same with no lease held.
pub record IsFree (c : Client) (r : Run) : Type 0 where
  pub no_lease : is_some r.machine.lease ≡ false
  pub unheld : held_after c.held r.out ≡ false
  pub ordered : in_order c.held r.out ≡ true

-- The same, with nothing checked either.
pub record IsClear (c : Client) (r : Run) : Type 0 where
  pub free : IsFree c r
  pub unchecked : is_some r.machine.probing ≡ false

-- The same, with a lease that is held and has its expiry.
pub record IsHolding (c : Client) (r : Run) : Type 0 where
  pub leased : is_some r.machine.lease ≡ true
  pub held : held_after c.held r.out ≡ true
  pub ordered : in_order c.held r.out ≡ true
  pub unchecked : is_some r.machine.probing ≡ false
  pub expiring :
      (not (has_expiry r.machine.lease) || armed_after timer_expire (c.armed timer_expire) r.out)
      ≡ true

-- At the end of a step.
pub record IsSettled (c : Client) (r : Run) : Type 0 where
  pub known : held_after c.held r.out ≡ is_some r.machine.lease
  pub ordered : in_order c.held r.out ≡ true
  pub fitting : fits r.machine.state (is_some r.machine.lease) (is_some r.machine.probing) ≡ true
  pub waiting :
      (not (awaits r.machine.state)
        || armed_after timer_retransmit (c.armed timer_retransmit) r.out)
      ≡ true
  pub expiring :
      (not (has_expiry r.machine.lease) || armed_after timer_expire (c.armed timer_expire) r.out)
      ≡ true

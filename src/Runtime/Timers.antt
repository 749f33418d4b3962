-- ===== src/Runtime/Timers.antt =====
-- runtime/timers.go: the timer service. Its calls, the starts and the ends of its callbacks, and the two
-- ways in which a callback leaves the channel operation are events, in any order that the mutex allows:
-- what a method does under the lock is one event.
pub mod Ages
pub mod Steps
pub mod Quiet
pub mod Closing
use dhcp_golib.Base.{
  ℕ, zero, suc, ◌+◌, ◌-◌, ◌%◌, ◌^◌, Bool, true, false, ◌&&◌, ◌||◌, not, if◌then◌else◌, ◌==◌, ltb,
  leb, List, [], ◌∷◌, ◌++◌, Option, none, some, length, drop,
}
use dhcp_golib.Base.Int.{ℤ, pos, ltb_ℤ}
use dhcp_golib.Proto.Time.{Duration}

-- `len(proto.AllTimerIDs())`.
abbrev pub num_timers : ℕ
num_timers = 17

-- A callback of `time.AfterFunc`: what it was given, and the delay.
pub record Callback : Type 0 where
  pub id : ℕ
  pub generation : ℕ
  pub after : Duration

-- A slice of the source is a function on the identifiers. `timer` holds the generation of the callback
-- that the armed time.Timer stands for. A callback is scheduled until it starts; Stop takes a scheduled
-- one back. `sending` holds the callbacks that the wait group counts; `panicked` says that one of them
-- sent on the closed channel.
pub record Timers : Type 0 where
  pub gen : ℕ → ℕ  -- []uint64
  pub timer : ℕ → Option ℕ
  pub scheduled : List Callback
  pub started : List Callback
  pub sending : List ℕ
  pub fired : List ℕ
  pub closed : Bool
  pub channel_closed : Bool
  pub panicked : Bool

pub data TimerEvent : Type 0 where
  set : ℕ → Duration → TimerEvent
  cancel : ℕ → TimerEvent
  close : TimerEvent
  close_channel : TimerEvent
  begin : Callback → TimerEvent
  fire : Callback → TimerEvent
  send : ℕ → TimerEvent
  give_up : ℕ → TimerEvent
  receive : TimerEvent

module _ {A : Type 0} where
  abbrev pub update : (ℕ → A) → ℕ → A → ℕ → A
  update f i a j = if j == i then a else f j

same : Callback → Callback → Bool
same c d = c.id == d.id && c.generation == d.generation

-- A list without the first callback for the identifier and the generation, and whether there was one.
unfoldable pub without : Callback → List Callback → List Callback
unfolding same
without c [] = []
without c (d ∷ ds) = let rest = without c ds in if same c d then ds else d ∷ rest

unfoldable pub pending : Callback → List Callback → Bool
unfolding same
pending c [] = false
pending c (d ∷ ds) = same c d || pending c ds

unfoldable pub without_id : ℕ → List ℕ → List ℕ
without_id i [] = []
without_id i (j ∷ js) = let rest = without_id i js in if i == j then js else j ∷ rest

unfoldable pub has_id : ℕ → List ℕ → Bool
has_id i [] = false
has_id i (j ∷ js) = i == j || has_id i js

-- `NewTimers`.
unfoldable pub new_timers : Timers
new_timers = record {
  gen = λ i. 0;
  timer = λ i. none;
  scheduled = [];
  started = [];
  sending = [];
  fired = [];
  closed = false;
  channel_closed = false;
  panicked = false;
}

-- `stopLocked`.
unfoldable pub stop_locked : ℕ → Timers → Timers
stop_locked i t = elim (t.timer i) [
  | none ↦ t
  | some g ↦ record t {
    timer = update t.timer i none;
    scheduled = without (record { id = i; generation = g; after = pos 0 }) t.scheduled;
  }
]

-- `t.gen[id]++`.
unfoldable pub next_gen : ℕ → Timers → Timers
next_gen i t = record t { gen = update t.gen i ((t.gen i + 1) % 2 ^ 64) }

-- Disarmed, with a new generation: what Set, Cancel and Close do to a timer.
unfoldable pub disarm : ℕ → Timers → Timers
disarm i t = next_gen i (stop_locked i t)

-- `Timers.Set`.
unfoldable pub set_timer : ℕ → Duration → Timers → Timers
set_timer i d t =
    let t' = disarm i t in
    let g = t'.gen i in
    let d' = if ltb_ℤ d (pos 0) then pos 0 else d in
    if leb num_timers i then t else if t.closed then t else record t' {
      timer = update t'.timer i (some g);
      scheduled = record { id = i; generation = g; after = d' } ∷ t'.scheduled;
    }

-- `Timers.Cancel`.
unfoldable pub cancel_timer : ℕ → Timers → Timers
cancel_timer i t = if leb num_timers i then t else disarm i t

-- The loop of Close, over the identifiers below `n`.
unfoldable pub close_loop : ℕ → Timers → Timers
close_loop zero t = t
close_loop (suc n) t = disarm n (close_loop n t)

-- `Timers.Close`, up to the wait.
unfoldable pub close_timers : Timers → Timers
close_timers t = if t.closed then t else close_loop num_timers (record t { closed = true })

-- The rest of Close: the wait ends when no callback is sending.
unfoldable pub close_fired : Timers → Timers
close_fired t = if t.closed && length t.sending == 0 then record t { channel_closed = true } else t

-- The runtime starts a scheduled callback.
unfoldable pub begin_callback : Callback → Timers → Timers
begin_callback c t =
    if pending c t.scheduled
    then record t { scheduled = without c t.scheduled; started = c ∷ t.started }
    else t

-- Whether `fire` passes its check.
unfoldable pub accepted : Callback → Timers → Bool
accepted c t = pending c t.started && not t.closed && t.gen c.id == c.generation

-- `Timers.fire`, under the lock.
unfoldable pub fire_callback : Callback → Timers → Timers
fire_callback c t =
    let t' = record t { started = without c t.started } in
    if not (pending c t.started)
    then t
    else if accepted c t
    then record t' { timer = update t.timer c.id none; sending = c.id ∷ t.sending }
    else t'

-- The select of `fire`: a send, while the channel has room.
unfoldable pub send_fire : ℕ → Timers → Timers
send_fire i t =
    if not (has_id i t.sending)
    then t
    else if t.channel_closed
    then record t { panicked = true }
    else if leb num_timers (length t.fired)
    then t
    else record t { sending = without_id i t.sending; fired = t.fired ++ i ∷ [] }

-- The select of `fire`: `done` is closed.
unfoldable pub give_up_fire : ℕ → Timers → Timers
give_up_fire i t =
    if has_id i t.sending && t.closed then record t { sending = without_id i t.sending } else t

unfoldable pub step : Timers → TimerEvent → Timers
step t (set i d) = set_timer i d t
step t (cancel i) = cancel_timer i t
step t close = close_timers t
step t close_channel = close_fired t
step t (begin c) = begin_callback c t
step t (fire c) = fire_callback c t
step t (send i) = send_fire i t
step t (give_up i) = give_up_fire i t
step t receive = record t { fired = drop 1 t.fired }

-- A run, and how many fires of a timer pass their check in it.
unfoldable pub run : Timers → List TimerEvent → Timers
run t [] = t
run t (ev ∷ evs) = run (step t ev) evs

unfoldable pub passes : ℕ → Timers → TimerEvent → ℕ
passes i t (fire c) = if c.id == i && accepted c t then 1 else 0
passes i t _ = 0

unfoldable pub deliveries : ℕ → Timers → List TimerEvent → ℕ
deliveries i t [] = 0
deliveries i t (ev ∷ evs) = passes i t ev + deliveries i (step t ev) evs

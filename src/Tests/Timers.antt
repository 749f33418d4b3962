-- ===== src/Tests/Timers.antt =====
-- A timer that is set, expires and is cancelled before its callback gets the lock.
use dhcp_golib.Base.{◌≡◌, refl, List, [], ◌∷◌, arith, ◌++◌}
use dhcp_golib.Base.Int.{pos}
use dhcp_golib.Runtime.Timers.{
  Callback, TimerEvent, set, cancel, close, close_channel, begin, fire, send, new_timers, step, run,
  deliveries, passes, set_timer, disarm, next_gen, stop_locked, begin_callback, pending, without,
  accepted,
}
use dhcp_golib.Runtime.Timers.Quiet.{deliveries-cancel}
use dhcp_golib.Runtime.Timers.Closing.{IsSafe, run-IsSafe}

abbrev first : Callback
first = record { id = 3; generation = 1; after = pos 5 }

abbrev armed_and_started : List TimerEvent
armed_and_started = set 3 (pos 5) ∷ begin first ∷ []

abbrev late : List TimerEvent
late = fire first ∷ set 4 (pos 1) ∷ []

deliveries-cancel_example :
    deliveries 3 (step (run new_timers armed_and_started) (cancel 3)) late ≡ 0
deliveries-cancel_example =
    deliveries-cancel 3 armed_and_started late (omega arith) (tt, (refl, tt)) (omega arith)

abbrev closing : List TimerEvent
closing = armed_and_started ++ fire first ∷ close ∷ close_channel ∷ send 3 ∷ close_channel ∷ []

run-IsSafe_example : IsSafe (run new_timers closing)
run-IsSafe_example = run-IsSafe closing

-- Without the cancellation the fire passes.
deliveries_uncancelled : deliveries 3 (run new_timers armed_and_started) late ≡ 1
unfolding deliveries passes run step set_timer disarm next_gen stop_locked begin_callback pending
    without accepted new_timers
deliveries_uncancelled = refl

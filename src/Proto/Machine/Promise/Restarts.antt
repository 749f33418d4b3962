-- ===== src/Proto/Machine/Promise/Restarts.antt =====
-- Starting over, giving up and failing to send: what they leave of the promise (proto/machine.go).
use dhcp_golib.Base.{
  ℕ, ◌+◌, ◌≡◌, Bool, true, false, if◌then◌else◌, ◌==◌, arith, Bool-cases, inl, inr,
}
use dhcp_golib.Proto.Time.{Duration, Instant}
use dhcp_golib.Proto.Params.{split}
use dhcp_golib.Proto.Event.{state_init, timer_restart, Reason, reason_released, reason_conflict}
use dhcp_golib.Proto.Machine.{Run, bump, stamp, journal, set, failed, assigning}
use dhcp_golib.Proto.Machine.Idle.{release_before_bound, stop, link_down}
use dhcp_golib.Proto.Machine.Sending.{release}
use dhcp_golib.Proto.Machine.Acquire.{
  take_resume, discover_or_wait, reset_for_acquisition, begin_acquisition, wait_to_restart,
  restart_paced, decline_and_restart, wait_for_ipv6, rearm,
}
use dhcp_golib.Proto.Machine.Promise.{Client, is_some, IsTracked, IsFree, IsClear, IsSettled}
use dhcp_golib.Proto.Machine.Promise.Parts.{
  journal-IsSettled, journal-IsTracked, drop_lease-IsFree, to_init_idle-IsSettled, halt-IsSettled,
  send_discover-IsSettled, send_reboot-IsSettled, take_resume-IsClear,
  reset_for_acquisition-IsClear, send_decline-IsTracked, send_release-IsTracked,
}

module _ (c : Client) where
  settled-IsFree : (r : Run) → IsSettled c r → is_some r.machine.lease ≡ false → IsFree c r
  settled-IsFree r s e = ground arith

  pub settled-IsTracked : (r : Run) → IsSettled c r → IsTracked c r
  settled-IsTracked r s = ground arith

  pub clear-IsTracked : (r : Run) → IsClear c r → IsTracked c r
  clear-IsTracked r s = ground arith

  reset_in_init :
      (now : Instant) (rnd : ℕ) (r : Run)
      → (take_resume now (reset_for_acquisition now rnd r)).0.machine.state ≡ state_init
  unfolding stamp take_resume reset_for_acquisition
  reset_in_init now rnd r = ground arith

  discover_or_wait-IsSettled :
      (now : Instant) (rnd : ℕ) (with_desync : Bool) (r : Run)
      → IsClear c r
      → r.machine.state ≡ state_init
      → IsSettled c (discover_or_wait now rnd with_desync r)
  unfolding stamp discover_or_wait
  discover_or_wait-IsSettled now rnd with_desync r s e =
      ground (arith, send_discover-IsSettled c r now (split rnd 3))

  pub begin_acquisition-IsSettled :
      (now : Instant) (rnd : ℕ) (with_desync : Bool) (r : Run)
      → IsClear c r
      → IsSettled c (begin_acquisition now rnd with_desync r)
  unfolding begin_acquisition
  begin_acquisition-IsSettled now rnd with_desync r s =
      let reset = reset_for_acquisition now rnd r in
      let clear = take_resume-IsClear c reset now (reset_for_acquisition-IsClear c r now rnd s) in
      let resumed = take_resume now reset in
      elim (Bool-cases resumed.1) [
        | inl e ↦ rw e (send_reboot-IsSettled c resumed.0 now (split rnd 3) clear)
        | inr e ↦ rw e (
            discover_or_wait-IsSettled now rnd with_desync resumed.0 clear
              (reset_in_init now rnd r))
      ]

  -- The timer of a restart changes nothing that is promised.
  set_restart-IsSettled :
      (d : Duration) (r : Run) → IsSettled c r → IsSettled c (set timer_restart d r)
  unfolding stamp
  set_restart-IsSettled d r s = ground arith

  failed-IsSettled : (why : Reason) (r : Run) → IsSettled c r → IsSettled c (failed why r)
  unfolding stamp
  failed-IsSettled why r s = ground arith

  wait_to_restart-IsSettled :
      (n rnd : ℕ) (r : Run) → IsFree c r → IsSettled c (wait_to_restart n rnd r)
  unfolding wait_to_restart
  wait_to_restart-IsSettled n rnd r s =
      journal-IsSettled c _ (set_restart-IsSettled _ _ (to_init_idle-IsSettled c r s))

  pub restart_paced-IsSettled :
      (now : Instant) (rnd : ℕ) (with_desync : Bool) (r : Run)
      → IsClear c r
      → IsSettled c (restart_paced now rnd with_desync r)
  unfolding restart_paced
  restart_paced-IsSettled now rnd with_desync r s =
      let counted = assigning (λ m. record m { restarts = r.machine.restarts + 1 }) r in
      let clear : IsClear c counted = ground arith in
      elim (Bool-cases (r.machine.restarts == 0)) [
        | inl e ↦ rw e (begin_acquisition-IsSettled now rnd with_desync counted clear)
        | inr e ↦ rw e (wait_to_restart-IsSettled r.machine.restarts rnd counted clear.free)
      ]

  note_limit-IsSettled :
      (limited : Bool) (r : Run) → IsSettled c r → IsSettled c (if limited then journal r else r)
  note_limit-IsSettled true r s = journal-IsSettled c r s
  note_limit-IsSettled false r s = s

  pub decline_and_restart-IsSettled :
      (now : Instant) (rnd : ℕ) (r : Run)
      → IsTracked c r
      → IsSettled c (decline_and_restart now rnd r)
  unfolding decline_and_restart
  decline_and_restart-IsSettled now rnd r s =
      let free = drop_lease-IsFree c _ reason_conflict (send_decline-IsTracked c r rnd s) in
      let idle = to_init_idle-IsSettled c _ free in
      journal-IsSettled c _ (set_restart-IsSettled _ _ (note_limit-IsSettled _ _ idle))

  pub release-IsSettled : (rnd : ℕ) (r : Run) → IsTracked c r → IsSettled c (release rnd r)
  unfolding release
  release-IsSettled rnd r s = halt-IsSettled c _ reason_released (send_release-IsTracked c r rnd s)

  pub release_before_bound-IsSettled :
      (r : Run) → IsTracked c r → IsSettled c (release_before_bound r)
  unfolding release_before_bound
  release_before_bound-IsSettled r s = halt-IsSettled c _ reason_released (journal-IsTracked c r s)

  pub stop-IsSettled : (r : Run) → IsTracked c r → IsSettled c (stop r)
  unfolding stop
  stop-IsSettled r s = halt-IsSettled c r _ s

  pub link_down-IsSettled : (r : Run) → IsFree c r → IsSettled c (link_down r)
  unfolding link_down stamp
  link_down-IsSettled r s =
      let noted : IsFree c (journal r) = ground arith in to_init_idle-IsSettled c (journal r) noted

  pub wait_for_ipv6-IsSettled :
      (secs : ℕ) (r : Run) → IsFree c r → IsSettled c (wait_for_ipv6 secs r)
  unfolding wait_for_ipv6
  wait_for_ipv6-IsSettled secs r s =
      let counted =
        assigning
          (λ m. record m {
            counters = record m.counters { v6_only_waited = bump m.counters.v6_only_waited };
          })
          r in
      let free : IsFree c counted = ground arith in
      let idle = to_init_idle-IsSettled c counted free in
      journal-IsSettled c _ (set_restart-IsSettled _ _ (failed-IsSettled _ _ idle))

  pub rearm-IsSettled : (rnd : ℕ) (r : Run) → IsSettled c r → IsSettled c (rearm rnd r)
  unfolding rearm stamp
  rearm-IsSettled rnd r s = ground arith

-- ===== src/Proto/Machine/Promise/Parts.antt =====
-- What the parts of the handlers leave of the promise (proto/machine.go).
use dhcp_golib.Base.{ℕ, ◌≡◌, false, arith, inl, inr, ◌⊎◌}
use dhcp_golib.Proto.Time.{Instant}
use dhcp_golib.Proto.Event.{Reason, state_renewing, state_rebinding}
use dhcp_golib.Proto.Machine.{Run, stamp, journal, failed}
use dhcp_golib.Proto.Machine.Idle.{drop_lease, to_init_idle, halt}
use dhcp_golib.Proto.Machine.Sending.{
  send_discover, send_request, send_reboot, send_renewal, send_decline, send_release,
}
use dhcp_golib.Proto.Machine.Acquire.{take_resume, reset_for_acquisition}
use dhcp_golib.Proto.Machine.Promise.{
  Client, is_some, IsTracked, IsFree, IsClear, IsHolding, IsSettled,
}

module _ (c : Client) (r : Run) where
  -- One note changes nothing.
  pub journal-IsSettled : IsSettled c r → IsSettled c (journal r)
  unfolding stamp
  journal-IsSettled s = ground arith

  pub journal-IsTracked : IsTracked c r → IsTracked c (journal r)
  unfolding stamp
  journal-IsTracked s = ground arith

  pub journal-IsClear : IsClear c r → IsClear c (journal r)
  unfolding stamp
  journal-IsClear s = ground arith

  pub failed-IsClear : (why : Reason) → IsClear c r → IsClear c (failed why r)
  unfolding stamp
  failed-IsClear why s = ground arith

  pub drop_lease-IsFree : (why : Reason) → IsTracked c r → IsFree c (drop_lease why r)
  unfolding stamp drop_lease
  drop_lease-IsFree why s = ground arith

  pub drop_lease-IsClear :
      (why : Reason)
      → IsTracked c r
      → is_some r.machine.probing ≡ false
      → IsClear c (drop_lease why r)
  unfolding stamp drop_lease
  drop_lease-IsClear why s e = ground arith

  pub to_init_idle-IsSettled : IsFree c r → IsSettled c (to_init_idle r)
  unfolding stamp to_init_idle
  to_init_idle-IsSettled s = ground arith

  pub halt-IsSettled : (why : Reason) → IsTracked c r → IsSettled c (halt why r)
  unfolding stamp halt
  halt-IsSettled why s = ground arith

  pub send_discover-IsSettled :
      (now : Instant) (rnd : ℕ) → IsClear c r → IsSettled c (send_discover now rnd r)
  unfolding stamp send_discover
  send_discover-IsSettled now rnd s = ground arith

  pub send_request-IsSettled :
      (now : Instant) (rnd : ℕ) → IsClear c r → IsSettled c (send_request now rnd r)
  unfolding stamp send_request
  send_request-IsSettled now rnd s = ground arith

  pub send_reboot-IsSettled :
      (now : Instant) (rnd : ℕ) → IsClear c r → IsSettled c (send_reboot now rnd r)
  unfolding stamp send_reboot
  send_reboot-IsSettled now rnd s = ground arith

  pub take_resume-IsClear : (now : Instant) → IsClear c r → IsClear c (take_resume now r).0
  unfolding stamp take_resume
  take_resume-IsClear now s = ground arith

  pub reset_for_acquisition-IsClear :
      (now : Instant) (rnd : ℕ) → IsClear c r → IsClear c (reset_for_acquisition now rnd r)
  unfolding stamp reset_for_acquisition
  reset_for_acquisition-IsClear now rnd s = ground arith

  pub send_decline-IsTracked : (rnd : ℕ) → IsTracked c r → IsTracked c (send_decline rnd r)
  unfolding stamp send_decline
  send_decline-IsTracked rnd s = ground arith

  pub send_release-IsTracked : (rnd : ℕ) → IsTracked c r → IsTracked c (send_release rnd r)
  unfolding stamp send_release
  send_release-IsTracked rnd s = ground arith

  -- A renewal that is sent: the lease stays as it is, and an answer is awaited.
  pub send_renewal-IsSettled :
      (now : Instant)
      → IsHolding c r
      → (r.machine.state ≡ state_renewing) ⊎ (r.machine.state ≡ state_rebinding)
      → IsSettled c (send_renewal now r)
  unfolding stamp send_renewal
  send_renewal-IsSettled now s (inl e) = rw e (ground arith)
  send_renewal-IsSettled now s (inr e) = rw e (ground arith)

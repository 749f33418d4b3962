-- ===== src/Proto/Machine/Promise/Firing.antt =====
-- A timer that fires: it is no longer armed, and each state keeps the promise without it
-- (proto/machine.go).
use dhcp_golib.Base.{ℕ, ◌≡◌, true, false, arith, inl, inr}
use dhcp_golib.Proto.Time.{Instant}
use dhcp_golib.Proto.Params.{split}
use dhcp_golib.Proto.Event.{
  state_init, state_selecting, state_requesting, state_bound, state_renewing, state_rebinding,
  state_rebooting, state_probing, ev_timer_fired, TimerId, timer_retransmit, timer_desync,
  timer_expire, timer_restart, timer_renew, timer_rebind, timer_acd, reason_no_server,
  reason_expired,
}
use dhcp_golib.Proto.Machine.{Machine, Run, stamp}
use dhcp_golib.Proto.Machine.Step.{
  unstepped, count_retransmit, no_answer, timer_init, timer_selecting, timer_requesting,
  timer_rebooting, lease_expired, timer_bound, timer_renewal, timer_probing,
}
use dhcp_golib.Proto.Machine.Promise.{Client, fired, is_some, IsTracked, IsClear, IsSettled}
use dhcp_golib.Proto.Machine.Promise.Parts.{
  send_discover-IsSettled, send_request-IsSettled, send_reboot-IsSettled, send_renewal-IsSettled,
  drop_lease-IsClear, failed-IsClear,
}
use dhcp_golib.Proto.Machine.Promise.Restarts.{begin_acquisition-IsSettled, restart_paced-IsSettled}
use dhcp_golib.Proto.Machine.Promise.Leases.{enter_renewing-IsSettled, enter_rebinding-IsSettled}
use dhcp_golib.Proto.Machine.Promise.Conflicts.{acd_timer-IsSettled}

module _ (c : Client) where
  no_answer-IsSettled :
      (now : Instant) (rnd : ℕ) (r : Run) → IsClear c r → IsSettled c (no_answer now rnd r)
  unfolding no_answer
  no_answer-IsSettled now rnd r s =
      begin_acquisition-IsSettled c now (split rnd 1) false _
        (failed-IsClear c r reason_no_server s)

  counted : (r : Run) → IsClear c r → IsClear c (count_retransmit r)
  counted r s = ground arith

  lease_expired-IsSettled :
      (now : Instant) (rnd : ℕ) (r : Run)
      → IsTracked c r
      → is_some r.machine.probing ≡ false
      → IsSettled c (lease_expired now rnd r)
  unfolding lease_expired
  lease_expired-IsSettled now rnd r s e =
      restart_paced-IsSettled c now rnd false _ (drop_lease-IsClear c r reason_expired s e)

  retransmit_discover :
      (now : Instant) (rnd : ℕ) (r : Run)
      → IsClear c r
      → IsSettled c (timer_selecting now rnd timer_retransmit r)
  unfolding timer_selecting
  retransmit_discover now rnd r s = ground (
    arith,
    no_answer-IsSettled now rnd r s,
    send_discover-IsSettled c (count_retransmit r) now rnd (counted r s),
  )

  retransmit_request :
      (now : Instant) (rnd : ℕ) (r : Run)
      → IsClear c r
      → IsSettled c (timer_requesting now rnd timer_retransmit r)
  unfolding timer_requesting
  retransmit_request now rnd r s = ground (
    arith,
    no_answer-IsSettled now rnd r s,
    send_request-IsSettled c (count_retransmit r) now rnd (counted r s),
  )

  retransmit_reboot :
      (now : Instant) (rnd : ℕ) (r : Run)
      → IsClear c r
      → IsSettled c (timer_rebooting now rnd timer_retransmit r)
  unfolding timer_rebooting
  retransmit_reboot now rnd r s = ground (
    arith,
    no_answer-IsSettled now rnd r s,
    send_reboot-IsSettled c (count_retransmit r) now rnd (counted r s),
  )

-- At the start of a step in which the timer `t` fires.
module _ (c : Client) (m : Machine) (settled : IsSettled c (unstepped m)) (now : Instant)
    (rnd : ℕ) where
  abbrev unarmed : TimerId → Client
  unarmed t = fired (ev_timer_fired t) c

  pub timer_init-IsSettled :
      (t : TimerId)
      → m.state ≡ state_init
      → IsSettled (unarmed t) (timer_init now rnd t (unstepped m))
  unfolding timer_init stamp
  timer_init-IsSettled timer_desync e =
      send_discover-IsSettled (unarmed timer_desync) (unstepped m) now rnd (ground arith)
  timer_init-IsSettled timer_restart e =
      begin_acquisition-IsSettled (unarmed timer_restart) now rnd false (unstepped m) (ground arith)
  timer_init-IsSettled _ e = ground arith

  pub timer_selecting-IsSettled :
      (t : TimerId)
      → m.state ≡ state_selecting
      → IsSettled (unarmed t) (timer_selecting now rnd t (unstepped m))
  unfolding timer_selecting stamp
  timer_selecting-IsSettled timer_retransmit e =
      retransmit_discover (unarmed timer_retransmit) now rnd (unstepped m) (ground arith)
  timer_selecting-IsSettled _ e = ground arith

  pub timer_requesting-IsSettled :
      (t : TimerId)
      → m.state ≡ state_requesting
      → IsSettled (unarmed t) (timer_requesting now rnd t (unstepped m))
  unfolding timer_requesting stamp
  timer_requesting-IsSettled timer_retransmit e =
      retransmit_request (unarmed timer_retransmit) now rnd (unstepped m) (ground arith)
  timer_requesting-IsSettled _ e = ground arith

  pub timer_rebooting-IsSettled :
      (t : TimerId)
      → m.state ≡ state_rebooting
      → IsSettled (unarmed t) (timer_rebooting now rnd t (unstepped m))
  unfolding timer_rebooting stamp
  timer_rebooting-IsSettled timer_retransmit e =
      retransmit_reboot (unarmed timer_retransmit) now rnd (unstepped m) (ground arith)
  timer_rebooting-IsSettled _ e = ground arith

  pub timer_bound-IsSettled :
      (t : TimerId)
      → m.state ≡ state_bound
      → IsSettled (unarmed t) (timer_bound now rnd t (unstepped m))
  unfolding timer_bound stamp
  timer_bound-IsSettled timer_expire e =
      lease_expired-IsSettled (unarmed timer_expire) now rnd (unstepped m) (ground arith)
        (ground arith)
  timer_bound-IsSettled timer_renew e =
      enter_renewing-IsSettled (unarmed timer_renew) now rnd (unstepped m) (ground arith)
        (ground arith)
  timer_bound-IsSettled timer_rebind e =
      enter_rebinding-IsSettled (unarmed timer_rebind) now rnd true (unstepped m) (ground arith)
  timer_bound-IsSettled timer_acd e =
      acd_timer-IsSettled (unarmed timer_acd) now rnd (unstepped m) (ground arith)
  timer_bound-IsSettled _ e = ground arith

  pub timer_probing-IsSettled :
      (t : TimerId)
      → m.state ≡ state_probing
      → IsSettled (unarmed t) (timer_probing now rnd t (unstepped m))
  unfolding timer_probing stamp
  timer_probing-IsSettled timer_acd e =
      acd_timer-IsSettled (unarmed timer_acd) now rnd (unstepped m) (ground arith)
  timer_probing-IsSettled _ e = ground arith

  pub timer_renewing-IsSettled :
      (t : TimerId)
      → m.state ≡ state_renewing
      → IsSettled (unarmed t) (timer_renewal now rnd t (unstepped m))
  unfolding timer_renewal stamp
  timer_renewing-IsSettled timer_retransmit e =
      send_renewal-IsSettled (unarmed timer_retransmit) (unstepped m) now (ground arith) (inl e)
  timer_renewing-IsSettled timer_rebind e =
      let entered =
        enter_rebinding-IsSettled (unarmed timer_rebind) now rnd false (unstepped m)
          (ground arith) in
      ground (arith, e, entered)
  timer_renewing-IsSettled timer_expire e =
      lease_expired-IsSettled (unarmed timer_expire) now rnd (unstepped m) (ground arith)
        (ground arith)
  timer_renewing-IsSettled timer_acd e =
      acd_timer-IsSettled (unarmed timer_acd) now rnd (unstepped m) (ground arith)
  timer_renewing-IsSettled _ e = ground arith

  pub timer_rebinding-IsSettled :
      (t : TimerId)
      → m.state ≡ state_rebinding
      → IsSettled (unarmed t) (timer_renewal now rnd t (unstepped m))
  unfolding timer_renewal stamp
  timer_rebinding-IsSettled timer_retransmit e =
      send_renewal-IsSettled (unarmed timer_retransmit) (unstepped m) now (ground arith) (inr e)
  timer_rebinding-IsSettled timer_rebind e = ground arith
  timer_rebinding-IsSettled timer_expire e =
      lease_expired-IsSettled (unarmed timer_expire) now rnd (unstepped m) (ground arith)
        (ground arith)
  timer_rebinding-IsSettled timer_acd e =
      acd_timer-IsSettled (unarmed timer_acd) now rnd (unstepped m) (ground arith)
  timer_rebinding-IsSettled _ e = ground arith

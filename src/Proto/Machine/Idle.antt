-- ===== src/Proto/Machine/Idle.antt =====
-- proto/machine.go: going back to INIT, losing the lease, and stopping.
use dhcp_golib.Base.{true, false, none, some}
use dhcp_golib.Proto.Acd
use dhcp_golib.Proto.Event.{
  State, state_stopped, state_init, timer_expire, timer_renew, timer_rebind, Reason, reason_stopped,
  reason_released, Dest, act_lease_lost,
}
use dhcp_golib.Proto.Machine.{Run, ◌▷◌, assigning, stamp, cancel, journal, cancel_all}
use dhcp_golib.Wire.Message.{invalid}

abbrev pub broadcasting : Dest
broadcasting = record { broadcast = true; addr = invalid; src = invalid }

abbrev pub in_state : State → Run → Run
in_state s = assigning (λ m. record m { state = s })

-- `acdIdle`.
unfoldable pub acd_idle : Run → Run
acd_idle = assigning (λ m. record m {
  acd = elim m.acd [ none ↦ none | some a ↦ some (Acd.stop a) ];
  probing = none;
  arp_action = none;
})

-- `toInitIdle`.
unfoldable pub to_init_idle : Run → Run
unfolding acd_idle cancel_all
to_init_idle r =
    r
    ▷ assigning (λ m. record m { state = state_init; offer = none; retransmits = 0 })
    ▷ acd_idle
    ▷ cancel_all

-- `linkDown`.
unfoldable pub link_down : Run → Run
unfolding to_init_idle
link_down r = r ▷ journal ▷ to_init_idle

drop_held : Reason → Run → Run
drop_held why r =
    r
    ▷ assigning (λ m. record m { lease = none; fr = none })
    ▷ cancel timer_expire
    ▷ cancel timer_renew
    ▷ cancel timer_rebind
    ▷ stamp (act_lease_lost why)

-- `dropLease`.
unfoldable pub drop_lease : Reason → Run → Run
unfolding drop_held
drop_lease why r = elim r.machine.lease [ none ↦ r | some l ↦ drop_held why r ]

-- `halt`.
unfoldable pub halt : Reason → Run → Run
unfolding drop_lease acd_idle cancel_all
halt why r =
    r
    ▷ drop_lease why
    ▷ acd_idle
    ▷ cancel_all
    ▷ assigning (λ m. record m {
      state = state_stopped;
      started = false;
      offer = none;
      retransmits = 0;
      send_failures = 0;
      restarts = 0;
    })

-- `stop`.
unfoldable pub stop : Run → Run
unfolding halt
stop r = halt reason_stopped r

-- `releaseBeforeBound`.
unfoldable pub release_before_bound : Run → Run
unfolding halt
release_before_bound r = r ▷ journal ▷ halt reason_released

-- ===== src/Tests/Conflicts.antt =====
-- A conflict check.
use dhcp_golib.Base.{ℕ, ◌≡◌, refl, true, false, List, [], ◌∷◌, ◌++◌, replicate, ◌⊎◌}
use dhcp_golib.Base.Int.{pos, ◌≤ℤ◌}
use dhcp_golib.Proto.Time.{Instant, seconds, add}
use dhcp_golib.Wire.Message.{ip4}
use dhcp_golib.Wire.Arp.{ArpPacket}
use dhcp_golib.Proto.Acd.{
  Acd, acd_probing, acd_defending, conflict_wait, default_acd_params, AcdEvent, ev_start,
  send_probe, send_announce, ready, acd_step, start, rate_limited, restart_delay,
}
use dhcp_golib.Proto.Acd.Phases.{armed, armed_at, waits, acd_step-armed}
use dhcp_golib.Proto.Acd.Conflicts.{restart_delay-bounds}
use dhcp_golib.Proto.Acd.Schedule.{run_timers, outline, run_timers-start}

-- A check of 192.168.1.7 that has sent two of its three probes, after ten conflicts.
abbrev checking : Acd
checking = record {
  params = default_acd_params;
  mode = conflict_wait;
  phase = acd_probing;
  addr = ip4 192 168 1 7;
  hw = 2 ∷ 0 ∷ 0 ∷ 0 ∷ 0 ∷ 1 ∷ [];
  sent = 2;
  attempt_at = pos 5;
  conflicts = 10;
}

abbrev again : AcdEvent
again = ev_start (ip4 10 0 0 1)

checking-waits : waits (acd_step checking (pos 9) 7 again).0.phase ≡ true
unfolding acd_step start default_acd_params
checking-waits = refl

acd_step-armed_example :
    armed (armed_at again acd_probing) (acd_step checking (pos 9) 7 again).1 ≡ true
acd_step-armed_example = acd_step-armed checking (pos 9) 7 again checking-waits

-- A packet from other hardware.
abbrev other : ArpPacket
other = record {
  op = 2;
  sender_hw = 2 ∷ 0 ∷ 0 ∷ 0 ∷ 0 ∷ 9 ∷ [];
  target_hw = [];
  sender_ip = ip4 192 168 1 7;
  target_ip = ip4 192 168 1 1;
}

restart_delay-bounds_example :
    (seconds 10 ≤ℤ restart_delay checking (pos 9) (seconds 10))
    × ((rate_limited checking ≡ false)
        ⊎ (add checking.attempt_at checking.params.rate_limit_interval
            ≤ℤ add (pos 9) (restart_delay checking (pos 9) (seconds 10))))
restart_delay-bounds_example = restart_delay-bounds checking (pos 9) (seconds 10)

abbrev firings : List (Instant × ℕ)
firings = (pos 1, 0) ∷ (pos 2, 1) ∷ (pos 3, 2) ∷ (pos 4, 3) ∷ (pos 5, 4) ∷ []

default_probes : checking.params.probe_num ≡ pos 3
unfolding default_acd_params
default_probes = refl

default_announcements : checking.params.announce_num ≡ pos 2
unfolding default_acd_params
default_announcements = refl

run_timers-start_example :
    ((run_timers (start checking (pos 0) 0 (ip4 10 0 0 1)).0 firings).0.phase ≡ acd_defending)
    × ((run_timers (start checking (pos 0) 0 (ip4 10 0 0 1)).0 firings).0.addr ≡ ip4 10 0 0 1)
    × (outline (run_timers (start checking (pos 0) 0 (ip4 10 0 0 1)).0 firings).1
        ≡ replicate 3 send_probe ++ send_announce ∷ ready ∷ replicate 1 send_announce)
run_timers-start_example =
    run_timers-start checking (pos 0) 0 2 1 (ip4 10 0 0 1) firings default_probes
      default_announcements refl

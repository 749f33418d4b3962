-- ===== src/Tests/Clocks.antt =====
-- Backoff, leases, the rate limit and the ring.
use dhcp_golib.Base.{
  ℕ, ◌+◌, ◌-◌, ◌*◌, ◌^◌, ◌≡◌, ◌≤◌, ◌<◌, min, refl, true, List, [], ◌∷◌, length, arith, map, ◌⊎◌,
}
use dhcp_golib.Base.Int.{pos, pos_part}
use dhcp_golib.Proto.Time.{seconds, second}
use dhcp_golib.Proto.Backoff.{delay, default_backoff, validate}
use dhcp_golib.Proto.Backoff.Bounds.{delay-bounds, half_range}
use dhcp_golib.Proto.Retransmit.{Retransmit, next}
use dhcp_golib.Proto.Retransmit.Bounds.{next-bounds}
use dhcp_golib.Proto.Lease.{Lease}
use dhcp_golib.Wire.Message.{ip4}
use dhcp_golib.Manager.RateLimit.{run, new_bucket}
use dhcp_golib.Manager.RateLimit.Rate.{limit_of, last_instant, run_rate}
use dhcp_golib.Runtime.PacketRing.{new_packet_ring, ring_size, packets}
use dhcp_golib.Runtime.PacketRing.Queue.{last_of}
use dhcp_golib.Runtime.PacketRing.Steps.{record_all, packets-record_all}

default_valid : validate default_backoff ≡ true
unfolding validate default_backoff
default_valid = refl

default_fits : pos_part default_backoff.max ≤ half_range
unfolding default_backoff
default_fits = omega arith

delay-bounds_example :
    let planned = min (pos_part default_backoff.max) (2 ^ 3 * pos_part default_backoff.initial) in
    (r : ℕ) × (delay default_backoff 3 12345 ≡ pos r)
    × (0 < r)
    × (planned ≤ r + pos_part default_backoff.jitter)
    × (r ≤ planned + pos_part default_backoff.jitter)
delay-bounds_example = delay-bounds default_backoff 3 12345 default_valid default_fits

-- A lease of an hour whose T2 is later than its end.
abbrev hour : Lease
hour = record {
  addr = record { addr = ip4 192 168 1 7; bits = 24 };
  server_id = ip4 192 168 1 1;
  router = [];
  routes = [];
  dns = [];
  domain = [];
  search = [];
  mtu = 0;
  start = pos 5;
  lease_time = seconds 3600;
  t1 = seconds 1800;
  t2 = seconds 9000;
  options = [];
  forcerenew_nonce = [];
  forcerenew_replay = 0;
}

run_rate_example :
    2 * (run (new_bucket (limit_of 3 1)) (map pos (5 ∷ 5 ∷ 6 ∷ 9 ∷ []))).1
    ≤ 4 * 2 + 4 * (last_instant 5 (5 ∷ 6 ∷ 9 ∷ []) - 5)
run_rate_example = run_rate 3 1 5 (5 ∷ 6 ∷ 9 ∷ []) (omega arith, (omega arith, (omega arith, tt)))

abbrev blank : ℕ
blank = 0

abbrev seen : List ℕ
seen = 7 ∷ 8 ∷ 9 ∷ []

packets-record_all_example :
    (packets (record_all (new_packet_ring blank (pos 2)) seen) ≡ last_of (ring_size (pos 2)) seen)
    × ((record_all (new_packet_ring blank (pos 2)) seen).dropped ≡ length seen - ring_size (pos 2))
packets-record_all_example = packets-record_all blank (pos 2) seen

-- The schedule of a Solicit.
abbrev solicit : Retransmit
solicit = record { irt = seconds 1; mrt = seconds 3600; mrc = pos 0; mrd = pos 0 }

next-bounds_example :
    (t : ℕ) × (next solicit (seconds 3000) 77 ≡ pos t)
    × (((3000 * second * 19 ≤ t * 10)
          × (t * 10 ≤ 3000 * second * 21)
          × ((3600 * second ≡ 0) ⊎ (t ≤ 3600 * second)))
        ⊎ ((3600 * second * 9 ≤ t * 10)
            × (t * 10 ≤ 3600 * second * 11)
            × (0 < 3600 * second)
            × (3600 * second * 10 < 3000 * second * 21)))
next-bounds_example =
    next-bounds solicit (3000 * second) (3600 * second) 77 refl (omega arith) (omega arith)

-- ===== src/Proto/Lease/Granted.antt =====
-- What an ACK grants.
use dhcp_golib.Base.{ℕ, ◌⊎◌, ◌<◌, ◌≡◌, Option, none, some, ◌*◌}
use dhcp_golib.Base.Int.{pos}
use dhcp_golib.Proto.Time.{Instant, add, seconds, second, infinite_seconds}
use dhcp_golib.Wire.Message.{Message}
use dhcp_golib.Proto.Lease.{Lease, Deadlines, expire}

-- The fields that neither the routes nor the search list change.
abbrev Timed : Lease → Lease → Type 0
Timed l l' =
    (l'.addr.addr ≡ l.addr.addr)
    × (l'.start ≡ l.start)
    × (l'.lease_time ≡ l.lease_time)
    × (l'.t1 ≡ l.t1)
    × (l'.t2 ≡ l.t2)

-- The deadlines of a lease of `secs` seconds from an instant: a lease of no time ends at once and is not
-- renewed, an infinite one does not end, and any other is renewed, rebound and ended in this order.
abbrev pub IsScheduled : Instant → ℕ → Deadlines → Type 0
IsScheduled start secs d =
    ((secs ≡ 0) × (d.renew ≡ none) × (d.rebind ≡ none) × (d.expire ≡ some (add start (pos 0))))
    ⊎ ((secs ≡ infinite_seconds) × (d.expire ≡ none))
    ⊎ ((w r : ℕ) × (d.renew ≡ some (add start (pos w)))
        × (d.rebind ≡ some (add start (pos r)))
        × (d.expire ≡ some (add start (seconds secs)))
        × (0 < w)
        × (w < r)
        × (r < secs * second))

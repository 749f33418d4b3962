-- ===== src/Proto/Lease/Order.antt =====
-- The order of the deadlines of a lease.
use dhcp_golib.Base.{ℕ, zero, suc, ◌*◌, ◌/◌, ◌≤◌, ◌<◌, ◌≡◌, some, arith, ◌⊎◌, inl, inr}
use dhcp_golib.Base.Int.{pos}
use dhcp_golib.Proto.Time.{Duration, is_infinite, infinite, seconds, second, add}
use native.Mathlib.Decide.{dec_lt}
use dhcp_golib.Proto.Lease.{Lease, deadlines, rebind_after, renew_after}

-- A duration that a 32-bit count of seconds gives: infinite, or whole seconds.
abbrev pub IsWire : Duration → Type 0
IsWire d = (d ≡ infinite) ⊎ ((k : ℕ) × (d ≡ seconds k))

-- The time to T2 is shorter than the lease, and not below two nanoseconds.
rebind_after-bounds :
    (l : Lease) (k : ℕ)
    → l.lease_time ≡ seconds (suc k)
    → IsWire l.t2
    → (r : ℕ) × (rebind_after l ≡ pos r) × (2 ≤ r) × (r < suc k * second)
unfolding rebind_after is_infinite
rebind_after-bounds l k e (inl forever) =
    (7 * (suc k * second / 8), ground (arith, e, forever), omega arith, omega arith)
rebind_after-bounds l k e (inr (zero, f)) =
    (7 * (suc k * second / 8), ground (arith, e, f), omega arith, omega arith)
rebind_after-bounds l k e (inr (suc j, f)) = elim (dec_lt j k) [
  | yes p ↦ (suc j * second, ground (arith, e, f), omega arith, omega arith)
  | no p ↦ (7 * (suc k * second / 8), ground (arith, e, f), omega arith, omega arith)
]

-- The time to T1 is shorter than the time to T2, and not zero.
renew_after-bounds :
    (l : Lease) (k r : ℕ)
    → l.lease_time ≡ seconds (suc k)
    → IsWire l.t1
    → 2 ≤ r
    → (w : ℕ) × (renew_after l (pos r) ≡ pos w) × (0 < w) × (w < r)
unfolding renew_after is_infinite
renew_after-bounds l k r e (inl forever) h = elim (dec_lt (suc k * second / 2) r) [
  | yes p ↦ (suc k * second / 2, ground (arith, e, forever), omega arith, p)
  | no p ↦ (r / 2, ground (arith, e, forever), omega arith, omega arith)
]
renew_after-bounds l k r e (inr (zero, f)) h = elim (dec_lt (suc k * second / 2) r) [
  | yes p ↦ (suc k * second / 2, ground (arith, e, f), omega arith, p)
  | no p ↦ (r / 2, ground (arith, e, f), omega arith, omega arith)
]
renew_after-bounds l k r e (inr (suc j, f)) h = elim (dec_lt (suc j * second) r) [
  | yes p ↦ (suc j * second, ground (arith, e, f), omega arith, p)
  | no p ↦ (r / 2, ground (arith, e, f), omega arith, omega arith)
]

-- A finite lease has all three deadlines, and renewing comes after the start, rebinding after
-- renewing and the end after rebinding, whatever T1 and T2 the server sent: missing ones, infinite
-- ones, and ones that are out of order.
pub deadlines_ordered :
    (l : Lease) (k : ℕ)
    → l.lease_time ≡ seconds (suc k)
    → IsWire l.t1
    → IsWire l.t2
    → (w r : ℕ) × ((deadlines l).renew ≡ some (add l.start (pos w)))
      × ((deadlines l).rebind ≡ some (add l.start (pos r)))
      × ((deadlines l).expire ≡ some (add l.start (seconds (suc k))))
      × (0 < w)
      × (w < r)
      × (r < suc k * second)
unfolding deadlines is_infinite
deadlines_ordered l k e h₁ h₂ =
    let (r, rebind, two, below) = rebind_after-bounds l k e h₂ in
    let (w, renew, positive, before) = renew_after-bounds l k r e h₁ two in
    (
      w,
      r,
      ground (arith, e, rebind, renew),
      ground (arith, e, rebind, renew),
      ground (arith, e),
      positive,
      before,
      below,
    )

-- ===== src/Runtime/PacketRing.antt =====
-- runtime/packetring.go: the bounded ring of the packets in and out. A packet is of any type; the lock
-- is held for the whole of every operation, so the operations are a sequence.
pub mod Queue
pub mod Steps
use dhcp_golib.Base.{
  ℕ, zero, suc, ◌+◌, ◌%◌, Bool, true, false, ◌==◌, if◌then◌else◌, List, [], ◌∷◌, ◌++◌, take, drop,
  replicate, length,
}
use dhcp_golib.Base.Int.{ℤ, pos, negsuc}

pub record Ring (A : Type 0) : Type 0 where
  pub buf : List A
  pub next : ℕ
  pub full : Bool
  pub dropped : ℕ

-- A size below 1 is raised to 1.
unfoldable pub ring_size : ℤ → ℕ
ring_size (pos zero) = 1
ring_size (pos (suc n)) = suc n
ring_size (negsuc n) = 1

module _ {A : Type 0} where
  -- An index assignment, `xs[i] = x`.
  abbrev pub set_at : ℕ → A → List A → List A
  set_at i x [] = []
  set_at zero x (y ∷ ys) = x ∷ ys
  set_at (suc i) x (y ∷ ys) = y ∷ set_at i x ys

  -- `NewPacketRing`; `blank` is the zero value that `make` fills the buffer with.
  unfoldable pub new_packet_ring : A → ℤ → Ring A
  new_packet_ring blank size = record {
    buf = replicate (ring_size size) blank;
    next = 0;
    full = false;
    dropped = 0;
  }

  -- `Record`.
  unfoldable pub record_packet : A → Ring A → Ring A
  record_packet p r =
      let next = (r.next + 1) % length r.buf in
      record {
        buf = set_at r.next p r.buf;
        next = next;
        full = if next == 0 then true else r.full;
        dropped = if r.full then r.dropped + 1 else r.dropped;
      }

  -- `Packets`.
  unfoldable pub packets : Ring A → List A
  packets r = (if r.full then drop r.next r.buf else []) ++ take r.next r.buf

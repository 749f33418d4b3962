-- ===== src/Tests/Acks.antt =====
-- An ACK with a lease time of an hour, no T1 and a T2 of two hours.
use dhcp_golib.Base.{[], ◌∷◌}
use dhcp_golib.Base.Int.{pos}
use dhcp_golib.Wire.Message.{Message, ip4}
use dhcp_golib.Proto.Lease.{Lease, granted}

abbrev ack : Message
ack = record {
  op = 2;
  htype = 1;
  hlen = 6;
  hops = 0;
  xid = 0x1234;
  secs = 0;
  flags = 0;
  ciaddr = ip4 0 0 0 0;
  yiaddr = ip4 192 168 1 7;
  siaddr = ip4 0 0 0 0;
  giaddr = ip4 0 0 0 0;
  chaddr = 2 ∷ 0 ∷ 0 ∷ 0 ∷ 0 ∷ 1 ∷ [];
  sname = [];
  file = [];
  options = (51, 0 ∷ 0 ∷ 14 ∷ 16 ∷ []) ∷ (53, 5 ∷ []) ∷ (59, 0 ∷ 0 ∷ 28 ∷ 32 ∷ []) ∷ [];
}

abbrev lease : Lease
lease = granted ack (pos 5) 3600

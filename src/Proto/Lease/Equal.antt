-- ===== src/Proto/Lease/Equal.antt =====
-- proto/lease.go: Lease.Equal, which says whether a renewal changed what the client configures.
use dhcp_golib.Base.{ℕ, Bool, true, false, ◌&&◌, ◌==◌, List, [], ◌∷◌}
use dhcp_golib.Proto.Lease.{Lease}
use dhcp_golib.Proto.Acd.{addr_eq, bytes_eq}
use dhcp_golib.Wire.Message.{Addr}
use dhcp_golib.Wire.Routes.{Prefix, Route}

-- `==` of two `netip.Prefix`.
abbrev pub prefix_eq : Prefix → Prefix → Bool
prefix_eq p q = addr_eq p.addr q.addr && p.bits == q.bits

-- `addrsEqual`.
unfoldable pub addrs_equal : List Addr → List Addr → Bool
addrs_equal [] [] = true
addrs_equal [] (b ∷ bs) = false
addrs_equal (a ∷ as_) [] = false
addrs_equal (a ∷ as_) (b ∷ bs) = addr_eq a b && addrs_equal as_ bs

-- `stringsEqual`.
unfoldable pub strings_equal : List (List ℕ) → List (List ℕ) → Bool
strings_equal [] [] = true
strings_equal [] (b ∷ bs) = false
strings_equal (a ∷ as_) [] = false
strings_equal (a ∷ as_) (b ∷ bs) = bytes_eq a b && strings_equal as_ bs

-- `routesEqual`.
unfoldable pub routes_equal : List Route → List Route → Bool
routes_equal [] [] = true
routes_equal [] (b ∷ bs) = false
routes_equal (a ∷ as_) [] = false
routes_equal (a ∷ as_) (b ∷ bs) =
    prefix_eq a.dest b.dest && addr_eq a.router b.router && routes_equal as_ bs

-- `Lease.Equal`.
unfoldable pub lease_equal : Lease → Lease → Bool
unfolding addrs_equal strings_equal routes_equal
lease_equal l o =
    prefix_eq l.addr o.addr
    && addr_eq l.server_id o.server_id
    && bytes_eq l.domain o.domain
    && l.mtu == o.mtu
    && addrs_equal l.router o.router
    && addrs_equal l.dns o.dns
    && strings_equal l.search o.search
    && routes_equal l.routes o.routes

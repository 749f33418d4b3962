-- ===== src/Proto/Acd.antt =====
-- proto/acd.go: the sub-machine of RFC 5227, address conflict detection. The texts of notes are left
-- out; the rule that a conflict names is a constructor.
pub mod Phases
pub mod Conflicts
pub mod Schedule
use dhcp_golib.Base.{
  ℕ, ◌+◌, ◌%◌, Bool, true, false, ◌&&◌, ◌||◌, not, if◌then◌else◌, ◌==◌, List, [], ◌∷◌, ◌++◌, Option,
  none, some, length,
}
use dhcp_golib.Base.Int.{ℤ, pos, ◌+ℤ◌, ◌-ℤ◌, ltb_ℤ, leb_ℤ, pos_part}
use dhcp_golib.Proto.Time.{Duration, Instant, seconds, add, sub}
use dhcp_golib.Wire.Message.{Addr, invalid, ip4, ip6}
use dhcp_golib.Wire.Arp.{ArpPacket, arp_request, is_probe}

pub data ConflictMode : Type 0 where
  conflict_wait conflict_async conflict_off : ConflictMode

pub record AcdParams : Type 0 where
  pub probe_wait : Duration
  pub probe_num : ℤ  -- int
  pub probe_min : Duration
  pub probe_max : Duration
  pub announce_wait : Duration
  pub announce_num : ℤ  -- int
  pub announce_interval : Duration
  pub max_conflicts : ℤ  -- int
  pub rate_limit_interval : Duration
  pub defend_interval : Duration

unfoldable pub default_acd_params : AcdParams
default_acd_params = record {
  probe_wait = seconds 1;
  probe_num = pos 3;
  probe_min = seconds 1;
  probe_max = seconds 2;
  announce_wait = seconds 2;
  announce_num = pos 2;
  announce_interval = seconds 2;
  max_conflicts = pos 10;
  rate_limit_interval = seconds 60;
  defend_interval = seconds 10;
}

pub data AcdPhase : Type 0 where
  acd_idle acd_probing acd_settling acd_announcing acd_defending : AcdPhase

pub record Acd : Type 0 where
  pub params : AcdParams
  pub mode : ConflictMode
  pub phase : AcdPhase
  pub addr : Addr
  pub hw : List ℕ
  pub sent : ℕ
  pub attempt_at : Instant
  pub conflicts : ℕ

-- `acdEvent`: the packet is none where the source's pointer is nil.
pub data AcdEvent : Type 0 where
  ev_start : Addr → AcdEvent
  ev_timer : AcdEvent
  ev_arp : Option ArpPacket → AcdEvent
  ev_stop : AcdEvent

-- The rules of RFC 5227: another host claims the address, or probes for it, while this one probes; or
-- uses it while this one holds it.
pub data Rule : Type 0 where
  claimed probed in_use : Rule

pub data AcdAction : Type 0 where
  send_probe send_announce : AcdAction
  set_timer : Duration → AcdAction
  cancel_timer ready : AcdAction
  conflict : Rule → AcdAction
  note : AcdAction

-- `newACD`.
unfoldable pub new_acd : AcdParams → ConflictMode → List ℕ → Acd
new_acd p mode hw = record {
  params = p;
  mode = mode;
  phase = acd_idle;
  addr = invalid;
  hw = hw;
  sent = 0;
  attempt_at = pos 0;
  conflicts = 0;
}

-- `acd.running`.
unfoldable pub running : Acd → Bool
running a = elim a.phase [ acd_idle ↦ false | _ ↦ true ]

-- `acd.stop`.
unfoldable pub stop : Acd → Acd
stop a = record a { phase = acd_idle; addr = invalid; sent = 0 }

-- `uniform`, at an entropy value `rnd` of 64 bits: the span is positive where it is converted.
unfoldable pub uniform : Duration → Duration → ℕ → Duration
uniform lo hi rnd =
    let span = hi -ℤ lo in if leb_ℤ span (pos 0) then lo else lo +ℤ pos (rnd % (pos_part span + 1))

-- `acd.start`.
unfoldable pub start : Acd → Instant → ℕ → Addr → Acd × List AcdAction
start a now rnd address =
    let a' = record a { addr = address; sent = 0; attempt_at = now; phase = acd_probing } in
    if leb_ℤ a.params.probe_num (pos 0)
    then (record a' { phase = acd_settling }, set_timer a.params.announce_wait ∷ [])
    else (a', set_timer (uniform (pos 0) a.params.probe_wait rnd) ∷ [])

-- `acd.announce`.
unfoldable pub announce : Acd → Acd × List AcdAction
announce a =
    let a' = record a { sent = a.sent + 1 } in
    if leb_ℤ a.params.announce_num (pos 0)
    then (record a { phase = acd_defending }, cancel_timer ∷ [])
    else if ltb_ℤ (pos (a.sent + 1)) a.params.announce_num
    then (a', send_announce ∷ set_timer a.params.announce_interval ∷ [])
    else (record a' { phase = acd_defending }, send_announce ∷ cancel_timer ∷ [])

probe_timer : Acd → ℕ → Acd × List AcdAction
probe_timer a rnd =
    let a' = record a { sent = a.sent + 1 } in
    if ltb_ℤ (pos (a.sent + 1)) a.params.probe_num
    then (a', send_probe ∷ set_timer (uniform a.params.probe_min a.params.probe_max rnd) ∷ [])
    else (record a' { phase = acd_settling }, send_probe ∷ set_timer a.params.announce_wait ∷ [])

settle_timer : Acd → Acd × List AcdAction
settle_timer a =
    let (a', acts) = announce (record a { phase = acd_announcing; sent = 0 }) in
    (a', acts ++ ready ∷ [])

-- `acd.timer`.
unfoldable pub timer : Acd → ℕ → Acd × List AcdAction
unfolding probe_timer settle_timer
timer a rnd = elim a.phase [
  | acd_probing ↦ probe_timer a rnd
  | acd_settling ↦ settle_timer a
  | acd_announcing ↦ announce a
  | _ ↦ (a, note ∷ [])
]

abbrev pub bytes_eq : List ℕ → List ℕ → Bool
bytes_eq [] [] = true
bytes_eq [] (b ∷ bs) = false
bytes_eq (a ∷ as_) [] = false
bytes_eq (a ∷ as_) (b ∷ bs) = a == b && bytes_eq as_ bs

-- `==` of two `netip.Addr`.
abbrev pub addr_eq : Addr → Addr → Bool
addr_eq invalid invalid = true
addr_eq (ip4 a b c d) (ip4 e f g h) = a == e && b == f && c == g && d == h
addr_eq (ip6 as_) (ip6 bs) = bytes_eq as_ bs
addr_eq _ _ = false

abbrev pub is_valid : Addr → Bool
is_valid invalid = false
is_valid _ = true

-- `acd.isOurs`.
unfoldable pub is_ours : Acd → List ℕ → Bool
is_ours a b = not (length b == 0) && bytes_eq b a.hw

-- `acd.conflictRule`, on a packet that is not nil.
unfoldable pub conflict_rule : Acd → ArpPacket → Option Rule
conflict_rule a p =
    let foreign = not (is_ours a p.sender_hw) in
    let claims = addr_eq p.sender_ip a.addr && foreign in
    let probes = is_probe p && addr_eq p.target_ip a.addr && foreign in
    let checking = if claims then some claimed else if probes then some probed else none in
    let holding = if claims then some in_use else none in
    elim a.phase [
      | acd_probing ↦ checking
      | acd_settling ↦ checking
      | acd_announcing ↦ holding
      | acd_defending ↦ holding
      | acd_idle ↦ none
    ]

arp_packet : Acd → ArpPacket → Acd × List AcdAction
arp_packet a p = elim (conflict_rule a p) [
  | none ↦ (a, [])
  | some rule ↦ (stop (record a { conflicts = a.conflicts + 1 }), conflict rule ∷ [])
]

-- `acd.arp`.
unfoldable pub arp : Acd → Option ArpPacket → Acd × List AcdAction
unfolding arp_packet
arp a none = (a, [])
arp a (some p) = if not (is_valid a.addr) then (a, []) else arp_packet a p

-- `acd.acdStep`: the phase it returns is that of the new state.
unfoldable pub acd_step : Acd → Instant → ℕ → AcdEvent → Acd × List AcdAction
acd_step a now rnd ev_stop = (stop a, [])
acd_step a now rnd (ev_start address) = start a now rnd address
acd_step a now rnd ev_timer = timer a rnd
acd_step a now rnd (ev_arp p) = arp a p

-- `acd.relevant`, on a packet that is not nil.
unfoldable pub relevant : Acd → ArpPacket → Bool
relevant a p =
    if not (running a) || not (is_valid a.addr)
    then false
    else addr_eq p.sender_ip a.addr || addr_eq p.target_ip a.addr

-- `acd.rateLimited`.
unfoldable pub rate_limited : Acd → Bool
rate_limited a =
    ltb_ℤ (pos 0) a.params.max_conflicts && leb_ℤ a.params.max_conflicts (pos a.conflicts)

-- `acd.restartDelay`.
unfoldable pub restart_delay : Acd → Instant → Duration → Duration
restart_delay a now base =
    let d = sub (add a.attempt_at a.params.rate_limit_interval) now in
    if not (rate_limited a) then base else if ltb_ℤ d base then base else d

-- `acd.probe`.
unfoldable pub probe : Acd → ArpPacket
probe a = record {
  op = arp_request;
  sender_hw = a.hw;
  target_hw = [];
  sender_ip = ip4 0 0 0 0;
  target_ip = a.addr;
}

-- `acd.announcement`.
unfoldable pub announcement : Acd → ArpPacket
announcement a = record {
  op = arp_request;
  sender_hw = a.hw;
  target_hw = [];
  sender_ip = a.addr;
  target_ip = a.addr;
}

unfoldable pub positive_all : List ℤ → Bool
positive_all [] = true
positive_all (d ∷ ds) = if leb_ℤ d (pos 0) then false else positive_all ds

unfoldable pub zero_all : List ℤ → Bool
zero_all [] = true
zero_all (d ∷ ds) = leb_ℤ d (pos 0) && leb_ℤ (pos 0) d && zero_all ds

unfoldable pub durations : AcdParams → List ℤ
durations p =
    p.probe_wait ∷ p.probe_min ∷ p.probe_max ∷ p.announce_wait ∷ p.announce_interval
    ∷ p.rate_limit_interval ∷ p.defend_interval ∷ []

unfoldable pub counts : AcdParams → List ℤ
counts p = p.probe_num ∷ p.announce_num ∷ p.max_conflicts ∷ []

-- `p == ACDParams{}`.
unfoldable pub is_zero_acd : AcdParams → Bool
unfolding zero_all durations counts
is_zero_acd p = zero_all (durations p) && zero_all (counts p)

-- `ACDParams.validate`, true where it returns no error: the zero value stands for the defaults.
unfoldable pub validate_acd : AcdParams → Bool
unfolding positive_all is_zero_acd durations counts
validate_acd p =
    is_zero_acd p
    || (positive_all (durations p) && positive_all (counts p) && leb_ℤ p.probe_min p.probe_max)

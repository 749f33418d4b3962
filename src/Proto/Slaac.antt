-- ===== src/Proto/Slaac.antt =====
-- proto/slaac6.go: the lifetimes of an address that RFC 4862 has formed from a prefix.
pub mod TwoHours
use dhcp_golib.Base.{Bool, true, false, ◌&&◌, ◌||◌, not, if◌then◌else◌}
use dhcp_golib.Base.Int.{pos, ltb_ℤ, leb_ℤ}
use dhcp_golib.Proto.Time.{Duration, Instant, seconds, add, sub, infinite, is_infinite}
use dhcp_golib.Wire.Message.{Addr}
use dhcp_golib.Wire.Routes.{Prefix}

abbrev pub two_hours : Duration
two_hours = seconds 7200

-- `slaacEntry`.
pub record SlaacEntry : Type 0 where
  pub prefix : Prefix
  pub addr : Addr
  pub start : Instant
  pub preferred : Duration
  pub valid : Duration
  pub deprecation_charged : Bool
  pub tentative : Bool

left : Instant → Duration → Instant → Duration
left start lifetime now =
    let d = sub (add start lifetime) now in if ltb_ℤ d (pos 0) then pos 0 else d

-- `slaacEntry.remaining` and `slaacEntry.remainingPreferred`.
unfoldable pub remaining : SlaacEntry → Instant → Duration
unfolding left
remaining e now = if is_infinite e.valid then infinite else left e.start e.valid now

unfoldable pub remaining_preferred : SlaacEntry → Instant → Duration
unfolding left
remaining_preferred e now =
    if is_infinite e.preferred then infinite else left e.start e.preferred now

-- `slaacEntry.deprecated` and `slaacEntry.expired`.
unfoldable pub deprecated : SlaacEntry → Instant → Bool
deprecated e now = not (is_infinite e.preferred) && leb_ℤ (add e.start e.preferred) now

unfoldable pub expired : SlaacEntry → Instant → Bool
expired e now = not (is_infinite e.valid) && leb_ℤ (add e.start e.valid) now

-- `durGreater`: an infinite duration is larger than every finite one.
unfoldable pub dur_greater : Duration → Duration → Bool
dur_greater a b =
    if is_infinite a && is_infinite b
    then false
    else if is_infinite a
    then true
    else if is_infinite b
    then false
    else ltb_ℤ b a

-- The three rules of RFC 4862 section 5.5.3 e, for the valid lifetime advertised and the one that
-- remains.
unfoldable pub valid_lifetime : Duration → Duration → Duration
valid_lifetime valid remains =
    if dur_greater valid two_hours || dur_greater valid remains
    then valid
    else if not (dur_greater remains two_hours)
    then remains
    else two_hours

same_instant : Instant → Instant → Bool
same_instant a b = leb_ℤ a b && leb_ℤ b a

same_flag : Bool → Bool → Bool
same_flag true b = b
same_flag false b = not b

-- `slaacTable.refresh`, on the entry it is given, without the count of refreshes: the entry, and whether
-- anything a caller can see has moved.
unfoldable pub refresh : Instant → Duration → Duration → SlaacEntry → SlaacEntry × Bool
unfolding same_instant same_flag
refresh now preferred valid e =
    let moved = record e {
      preferred = preferred;
      valid = valid_lifetime valid (remaining e now);
      start = now;
    } in
    let after =
      if not (deprecated moved now) then record moved { deprecation_charged = false } else moved in
    (
      after,
      not (same_instant (add e.start e.preferred) (add after.start after.preferred))
          || not (same_instant (add e.start e.valid) (add after.start after.valid))
          || not (same_flag (is_infinite e.preferred) (is_infinite after.preferred))
          || not (same_flag (is_infinite e.valid) (is_infinite after.valid)),
    )

-- ===== src/Tests/Slaac.antt =====
-- An advertisement that says an address with an hour left is valid no longer.
use dhcp_golib.Base.{◌≡◌, refl, false, [], ◌⊎◌, inr}
use dhcp_golib.Base.Int.{pos}
use dhcp_golib.Proto.Time.{seconds}
use dhcp_golib.Wire.Message.{ip6}
use dhcp_golib.Proto.Slaac.{SlaacEntry, two_hours, remaining, dur_greater, refresh}
use dhcp_golib.Proto.Slaac.TwoHours.{refresh-remaining}

abbrev entry : SlaacEntry
entry = record {
  prefix = record { addr = ip6 []; bits = 64 };
  addr = ip6 [];
  start = pos 7;
  preferred = seconds 1800;
  valid = seconds 3600;
  deprecation_charged = false;
  tentative = false;
}

refresh-remaining_example :
    ((dur_greater
          (remaining entry (pos 9))
          (remaining (refresh (pos 9) (pos 0) (seconds 0) entry).0 (pos 9))
        ≡ false)
      ⊎ (dur_greater two_hours (remaining (refresh (pos 9) (pos 0) (seconds 0) entry).0 (pos 9))
          ≡ false))
    × ((refresh (pos 9) (pos 0) (seconds 0) entry).0.preferred ≡ pos 0)
refresh-remaining_example = refresh-remaining (pos 9) (pos 0) (seconds 0) entry (inr (0, refl))

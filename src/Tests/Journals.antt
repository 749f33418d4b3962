-- ===== src/Tests/Journals.antt =====
-- Journals of a client: one that is replayed, and one whose ARP packet is not read back.
use dhcp_golib.Base.{
  ℕ, ◌≡◌, ◌↔◌, refl, Bool, false, List, [], ◌∷◌, ◌++◌, some, ok, err, replicate, length,
}
use dhcp_golib.Base.Int.{pos}
use dhcp_golib.Proto.Time.{seconds}
use dhcp_golib.Proto.Acd.{claimed}
use dhcp_golib.Proto.Event.{ev_start, ev_received, Action}
use dhcp_golib.Proto.Machine.{Machine, new}
use dhcp_golib.Proto.Journal.{replay, replay_entry, outcome, diverged, field_to_state}
use dhcp_golib.Proto.Journal.Trace.{Trace, replay_iff}
use dhcp_golib.Proto.Journal.Recorded.{
  Stepped, IsRecordable, AllRecordable, recorded, after_all, entry, replay-recorded,
}
use dhcp_golib.Proto.Journal.Unread.{conflict_unreplayed, with_packet}
use dhcp_golib.Wire.Message.{Message, invalid, ip4}
use dhcp_golib.Wire.Codec.{decode}
use dhcp_golib.Tests.Clients.{hw, chosen, client, reply, made, taken}
use dhcp_golib.Tests.Answers.{
  check, checking, claim_packet, packet_conflicts, usable_address, usable_server, no_lease_yet,
}

-- The octets of an offer of the server 10.0.0.1.
abbrev octets : List ℕ
octets =
    2 ∷ 1 ∷ 6 ∷ 0 ∷ 89 ∷ 50 ∷ 13 ∷ 215 ∷ replicate 8 0
    ++ 10 ∷ 0 ∷ 0 ∷ 9 ∷ replicate 8 0
    ++ hw
    ++ replicate 202 0
    ++ 99 ∷ 130 ∷ 83 ∷ 99 ∷ 53 ∷ 1 ∷ 2 ∷ 54 ∷ 4 ∷ 10 ∷ 0 ∷ 0 ∷ 1 ∷ 51 ∷ 4 ∷ 0 ∷ 0 ∷ 14 ∷ 16 ∷ 1 ∷ 4
      ∷ 255 ∷ 255 ∷ 255 ∷ 0 ∷ 255 ∷ []

abbrev offer : Message
offer = record (reply 1496452567 2) {
  ciaddr = ip4 0 0 0 0;
  siaddr = ip4 0 0 0 0;
  giaddr = ip4 0 0 0 0;
}

decode_offer : decode octets ≡ ok offer
unfolding dhcp_golib.Wire.Codec.is_cookie dhcp_golib.Wire.Codec.decode_body
    dhcp_golib.Wire.Codec.parse_options dhcp_golib.Wire.Codec.read_field
    dhcp_golib.Wire.Codec.file_overloaded dhcp_golib.Wire.Codec.overload
    dhcp_golib.Wire.Option.value dhcp_golib.Wire.Codec.append_value dhcp_golib.Wire.Option.assign
    dhcp_golib.Wire.Codec.sname_overloaded dhcp_golib.Wire.Bytes.ube32 dhcp_golib.Wire.Bytes.ube16
    dhcp_golib.Wire.Codec.get_addr dhcp_golib.Wire.Codec.trim_nul decode
decode_offer = refl

-- An action as text, by its id, and no octets that are an advertisement.
abbrev text : Action → List ℕ
text a = a.id ∷ []

abbrev refuses : List ℕ → Bool
refuses bs = false

abbrev exchange : List Stepped
exchange =
    record { now = pos 0; rnd = 7; event = ev_start; advert = [] }
    ∷ record {
      now = seconds 1;
      rnd = 8;
      event = ev_received (some offer) octets invalid;
      advert = [];
    }
    ∷ []

recordable : AllRecordable text refuses exchange
unfolding IsRecordable
recordable = (refl, (decode_offer, tt))

replay-recorded_example :
    replay text refuses chosen (recorded text refuses client 0 exchange)
    ≡ ok (outcome (after_all text refuses client exchange) 2)
replay-recorded_example = replay-recorded text refuses chosen client 0 exchange made recordable

replay_iff_example :
    (replay text refuses chosen (recorded text refuses client 0 exchange)
      ≡ ok (outcome (after_all text refuses client exchange) 2))
    ↔ ((m : Machine) × (k : Machine) × (new chosen ≡ ok m)
        × (Trace text refuses m (recorded text refuses client 0 exchange) k)
        × (outcome k (length (recorded text refuses client 0 exchange))
            ≡ outcome (after_all text refuses client exchange) 2))
replay_iff_example =
    replay_iff text refuses chosen (recorded text refuses client 0 exchange)
      (outcome (after_all text refuses client exchange) 2)

conflict_unreplayed_example :
    replay_entry text refuses checking
      (entry text refuses checking 4 (with_packet (seconds 9) 7 claim_packet))
    ≡ err (diverged 4 field_to_state)
conflict_unreplayed_example =
    conflict_unreplayed text refuses checking 4 (seconds 9) 7 taken check claim_packet claimed refl
      no_lease_yet refl refl refl packet_conflicts usable_address usable_server

-- ===== src/Tests/Forcerenews.antt =====
-- A FORCERENEW that is accepted, and the same one again and forged.
use dhcp_golib.Base.{
  ℕ, ◌≡◌, ◌≢◌, ◌<◌, refl, true, List, [], ◌∷◌, ◌++◌, replicate, some, ok, err, arith,
}
use dhcp_golib.Proto.Time.{seconds}
use dhcp_golib.Proto.Lease.{Lease}
use dhcp_golib.Proto.Params.{Params}
use dhcp_golib.Proto.Event.{ev_received}
use dhcp_golib.Proto.Machine.{Machine, ForcerenewKey, fresh, completed, replayed}
use dhcp_golib.Proto.Machine.Forcerenew.{forcerenew_verdict}
use dhcp_golib.Proto.Machine.Step.{step, is_forcerenew}
use dhcp_golib.Proto.Machine.Endings.{sent}
use dhcp_golib.Proto.Machine.Replays.{forcerenew_accepted_once, forged_forcerenew_ignored}
use dhcp_golib.Wire.Message.{ip4, Message, msg_type, is_unspecified}
use dhcp_golib.Wire.Auth.Verify.{verify_forcerenew, forcerenew_span}
use dhcp_golib.Tests.Clients.{hw, reply}
use dhcp_golib.Tests.Answers.{holding}

-- A FORCERENEW with replay value 5, under a nonce whose octets are 1 to 16.
abbrev nonce : List ℕ
nonce = 1 ∷ 2 ∷ 3 ∷ 4 ∷ 5 ∷ 6 ∷ 7 ∷ 8 ∷ 9 ∷ 10 ∷ 11 ∷ 12 ∷ 13 ∷ 14 ∷ 15 ∷ 16 ∷ []

abbrev auth_value : List ℕ
auth_value =
    3 ∷ 1 ∷ 0 ∷ 0 ∷ 0 ∷ 0 ∷ 0 ∷ 0 ∷ 0 ∷ 0 ∷ 5 ∷ 2 ∷ 156 ∷ 232 ∷ 208 ∷ 135 ∷ 185 ∷ 44 ∷ 208 ∷ 123
    ∷ 59 ∷ 127 ∷ 50 ∷ 23 ∷ 4 ∷ 233 ∷ 94 ∷ 227 ∷ []

abbrev order_bytes : List ℕ
order_bytes =
    2
    ∷ 1
    ∷ 6
    ∷ (replicate 9 0
        ++ (10
            ∷ 0
            ∷ 0
            ∷ 9
            ∷ (replicate 12 0
                ++ (hw
                    ++ (replicate 202 0
                        ++ (99
                            ∷ 130
                            ∷ 83
                            ∷ 99
                            ∷ 53
                            ∷ 1
                            ∷ 9
                            ∷ 90
                            ∷ 28
                            ∷ (auth_value ++ 255 ∷ [])))))))

abbrev order_message : Message
order_message = record (reply 0 9) {
  ciaddr = ip4 10 0 0 9;
  yiaddr = ip4 0 0 0 0;
  options = (53, 9 ∷ []) ∷ (90, auth_value) ∷ [];
}

abbrev keyed : Machine
keyed = record holding { fr = some (record { nonce = nonce; floor = 4 }) }

abbrev raised : ForcerenewKey
raised = record { nonce = nonce; floor = 5 }

order_accepted : forcerenew_verdict keyed order_message order_bytes (ip4 10 0 0 9) ≡ ok raised
unfolding forcerenew_verdict is_unspecified dhcp_golib.Proto.Lease.or_else
    dhcp_golib.Proto.Machine.Messages.chaddr_matches fresh completed
    dhcp_golib.Proto.Params.default_params dhcp_golib.Wire.Auth.forcerenew_auth_of
    dhcp_golib.Wire.Option.lookup dhcp_golib.Wire.Auth.decode_forcerenew_auth
    dhcp_golib.Wire.Bytes.ube64 verify_forcerenew forcerenew_span
    dhcp_golib.Wire.Auth.Verify.check_digest dhcp_golib.Wire.HmacMd5.zeroed_hmac_matches
    dhcp_golib.Wire.Auth.Verify.masked
order_accepted = refl

is_order : is_forcerenew order_message ≡ true
unfolding msg_type dhcp_golib.Wire.Option.lookup
is_order = refl

forcerenew_accepted_once_example :
    let r =
      step keyed (seconds 9) 7 (ev_received (some order_message) order_bytes (ip4 10 0 0 9)) in
    let again =
      step r.machine (seconds 10) 8 (ev_received (some order_message) order_bytes (ip4 10 0 0 9)) in
    ((old : ForcerenewKey) × (keyed.fr ≡ some old)
      × (old.floor < raised.floor)
      × (verify_forcerenew order_bytes old.nonce ≡ ok true))
    × (r.machine.fr ≡ some raised)
    × (forcerenew_verdict r.machine order_message order_bytes (ip4 10 0 0 9) ≡ err replayed)
    × (again.machine.state ≡ r.machine.state)
    × (again.machine.lease ≡ r.machine.lease)
    × (again.machine.fr ≡ some raised)
    × (sent again.out ≡ [])
unfolding dhcp_golib.Proto.Lease.or_else is_unspecified
forcerenew_accepted_once_example =
    forcerenew_accepted_once keyed (seconds 9) (seconds 10) 7 8 order_message order_bytes
      (ip4 10 0 0 9) raised is_order refl refl order_accepted

-- The same without its octets is no proof of anything.
nothing_verifies :
    (key : ForcerenewKey) → keyed.fr ≡ some key → verify_forcerenew [] key.nonce ≢ ok true
unfolding verify_forcerenew forcerenew_span
nothing_verifies key e = λ v. ground (arith, v)

forged_forcerenew_ignored_example :
    let r = step keyed (seconds 9) 7 (ev_received (some order_message) [] (ip4 10 0 0 9)) in
    (r.machine.state ≡ keyed.state)
    × (r.machine.lease ≡ keyed.lease)
    × (r.machine.fr ≡ keyed.fr)
    × (sent r.out ≡ [])
forged_forcerenew_ignored_example =
    forged_forcerenew_ignored keyed (seconds 9) 7 order_message [] (ip4 10 0 0 9) is_order
      nothing_verifies

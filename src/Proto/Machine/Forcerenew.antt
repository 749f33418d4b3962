-- ===== src/Proto/Machine/Forcerenew.antt =====
-- proto/machine_forcerenew.go: a FORCERENEW that a server sends, and the tests that it has to pass.
use dhcp_golib.Base.{
  ℕ, ◌+◌, ◌-◌, ◌*◌, ◌/◌, ◌%◌, ◌^◌, ◌==◌, Bool, true, false, ◌&&◌, ◌||◌, not, List, [], ◌∷◌, Option,
  none, some, if◌then◌else◌, length, take, drop, ltb, leb, Result, ok, err, stuck,
}
use dhcp_golib.Proto.Time.{Instant}
use dhcp_golib.Proto.Lease.{valid_forcerenew_nonce}
use dhcp_golib.Proto.Acd.{addr_eq, bytes_eq}
use dhcp_golib.Proto.Params.{usable_4}
use dhcp_golib.Proto.Event.{State, state_bound, state_renewing, state_rebinding}
use dhcp_golib.Proto.Machine.{
  Machine, Run, ◌▷◌, assigning, journal, held_lease, bump, Counters, ForcerenewKey, Refusal,
  wrong_state, no_raw, not_unicast, not_our_address, not_this_client, no_nonce, no_auth,
  malformed_auth, replayed, bad_digest, no_server,
}
use dhcp_golib.Proto.Machine.Messages.{boot_reply, chaddr_matches}
use dhcp_golib.Proto.Machine.Renewing.{enter_renewing}
use dhcp_golib.Wire.Message.{Addr, invalid, ip4, ip6, is_4, is_unspecified, Message}
use dhcp_golib.Wire.Codec.{get_addr}
use dhcp_golib.Wire.Routes.{Prefix}
use dhcp_golib.Wire.Auth.{ForcerenewAuth, forcerenew_auth_of, forcerenew_type_digest}
use dhcp_golib.Wire.Auth.Verify.{verify_forcerenew, VerifyError}
use dhcp_golib.Wire.Values.{forcerenew_nonce_algorithms}

-- `offerCarried145`.
unfoldable pub offer_carried_145 : Machine → Bool
offer_carried_145 m = elim m.offer [
  | none ↦ false
  | some offer ↦ elim (forcerenew_nonce_algorithms offer.options) [ ok (some v) ↦ true | _ ↦ false ]
]

-- `refusesAckWithoutNonce`.
unfoldable pub refuses_ack_without_nonce : Machine → Message → Bool
unfolding offer_carried_145
refuses_ack_without_nonce m msg =
    let missing : Bool = elim (valid_forcerenew_nonce msg) [ none ↦ true | some a ↦ false ] in
    if not (offer_carried_145 m) then false else missing

-- The index of a refusal in the array of counters.
abbrev pub refusal_index : Refusal → ℕ
refusal_index wrong_state = 1
refusal_index no_raw = 2
refusal_index not_unicast = 3
refusal_index not_our_address = 4
refusal_index not_this_client = 5
refusal_index no_nonce = 6
refusal_index no_auth = 7
refusal_index malformed_auth = 8
refusal_index replayed = 9
refusal_index bad_digest = 10
refusal_index no_server = 11

-- `AllForcerenewRefusals`.
abbrev pub all_refusals : List Refusal
all_refusals =
    wrong_state ∷ no_raw ∷ not_unicast ∷ not_our_address ∷ not_this_client ∷ no_nonce ∷ no_auth
    ∷ malformed_auth ∷ replayed ∷ bad_digest ∷ no_server ∷ []

-- `m.frCounts.Refused[why]++`
unfoldable pub count_refusal : Refusal → Counters → Counters
count_refusal why c = record c {
  refused = λ w. if refusal_index w == refusal_index why then bump (c.refused w) else c.refused w;
}

-- The sum of `RefusedTotal`, a uint64.
refused_sum : Counters → List Refusal → ℕ
refused_sum c [] = 0
refused_sum c (why ∷ rest) = (c.refused why + refused_sum c rest) % 2 ^ 64

unfoldable pub refused_total : Counters → ℕ
unfolding refused_sum
refused_total c = refused_sum c all_refusals

-- `refuseForcerenew`.
unfoldable pub refuse_forcerenew : Refusal → Run → Run
unfolding count_refusal
refuse_forcerenew why r =
    r ▷ assigning (λ m. record m { counters = count_refusal why m.counters }) ▷ journal

-- `Addr.Unmap`: an IPv4 address in ten zeroes and two octets of ones is that address.
unfoldable pub unmap : Addr → Addr
unfolding get_addr
unmap (ip6 bs) =
    let prefix = 0 ∷ 0 ∷ 0 ∷ 0 ∷ 0 ∷ 0 ∷ 0 ∷ 0 ∷ 0 ∷ 0 ∷ 255 ∷ 255 ∷ [] in
    if bytes_eq (take 12 bs) prefix then get_addr (drop 12 bs) else ip6 bs
unmap a = a

-- `Addr.IsMulticast`, of an IPv4 address.
abbrev is_multicast : Addr → Bool
is_multicast (ip4 a b c d) = leb 224 a && ltb a 240
is_multicast _ = false

address_of : ℕ → Addr
address_of n = ip4 (n / 2 ^ 24 % 256) (n / 2 ^ 16 % 256) (n / 2 ^ 8 % 256) (n % 256)

-- The last address of an IPv4 prefix: the host bits are ones.
unfoldable pub last_address : Prefix → Addr
unfolding address_of
last_address p = elim p.addr [
  | ip4 a b c d ↦
      let u = a * 2 ^ 24 + b * 2 ^ 16 + c * 2 ^ 8 + d in
      let host = 2 ^ (32 - p.bits) in address_of (u / host * host + (host - 1))
  | _ ↦ invalid
]

-- `forcerenewDestinationIsUnicast`.
unfoldable pub is_unicast : Prefix → Addr → Bool
unfolding unmap last_address
is_unicast p dst =
    let d = unmap dst in
    if not (is_4 d) || is_unspecified d || is_multicast d || addr_eq d (ip4 255 255 255 255)
    then false
    else not (ltb p.bits 31 && addr_eq d (last_address p))

-- The tests that come before the option is read.
unfoldable pub addressed_refusal : Machine → Message → List ℕ → Addr → Option Refusal
unfolding is_unicast
addressed_refusal m msg raw dst =
    let own = (held_lease m).addr.addr in
    if length raw == 0
    then some no_raw
    else if not (is_unicast (held_lease m).addr dst)
    then some not_unicast
    else if not (addr_eq (unmap dst) own)
    then some not_our_address
    else if not (msg.op == boot_reply) || not (chaddr_matches m msg) || not (addr_eq msg.ciaddr own)
    then some not_this_client
    else none

-- The tests of the digest: the option, its replay value, and the HMAC. The result is the replay value.
unfoldable pub digest_verdict : List ℕ → ForcerenewKey → ForcerenewAuth → Result Refusal ℕ
digest_verdict raw key a =
    let verified : Result Refusal ℕ = elim (verify_forcerenew raw key.nonce) [
      | ok yes_ ↦ ok a.replay
      | err VerifyError.bad_digest ↦ err bad_digest
      | _ ↦ err malformed_auth
    ] in
    if not (a.kind == forcerenew_type_digest)
    then err malformed_auth
    else if leb a.replay key.floor
    then err replayed
    else verified

unfoldable pub authenticated : List ℕ → Message → ForcerenewKey → Result Refusal ℕ
unfolding digest_verdict
authenticated raw msg key = elim (forcerenew_auth_of msg.options) [
  | ok none ↦ err no_auth
  | ok (some a) ↦ digest_verdict raw key a
  | _ ↦ err malformed_auth
]

-- The tests of `takeForcerenew` in a state with a lease: what refuses the message, or the key with its
-- replay value as the new floor.
unfoldable pub forcerenew_verdict : Machine → Message → List ℕ → Addr → Result Refusal ForcerenewKey
unfolding addressed_refusal authenticated
forcerenew_verdict m msg raw dst =
    let by_key : Result Refusal ForcerenewKey = elim m.fr [
      | none ↦ err no_nonce
      | some key ↦ elim (authenticated raw msg key) [
        | Result.ok replay ↦ ok (record key { floor = replay })
        | Result.err why ↦ err why
        | Result.stuck ↦ stuck
      ]
    ] in
    elim (addressed_refusal m msg raw dst) [ some why ↦ err why | none ↦ by_key ]

-- A FORCERENEW that is genuine, in BOUND.
unfoldable pub renew_now : Instant → ℕ → ForcerenewKey → Run → Run
unfolding refuse_forcerenew enter_renewing
renew_now now rnd key r =
    if not (usable_4 (held_lease r.machine).server_id)
    then refuse_forcerenew no_server r
    else (r
        ▷ assigning (λ m. record m {
          fr = some key;
          counters = record m.counters { renewed = bump m.counters.renewed };
        })
        ▷ journal
        ▷ enter_renewing now rnd)

-- The same, in RENEWING or REBINDING.
unfoldable pub already_renewing : ForcerenewKey → Run → Run
already_renewing key r =
    r
    ▷ assigning (λ m. record m {
      fr = some key;
      counters = record m.counters { already_renewing = bump m.counters.already_renewing };
    })
    ▷ journal

unfoldable pub judged : (ForcerenewKey → Run → Run) → Message → List ℕ → Addr → Run → Run
unfolding refuse_forcerenew
judged act msg raw dst r = elim (forcerenew_verdict r.machine msg raw dst) [
  | ok key ↦ act key r
  | err why ↦ refuse_forcerenew why r
  | stuck ↦ r
]

-- The first test of `takeForcerenew`, and what the states that pass it do.
unfoldable pub take_forcerenew_in : State → Instant → ℕ → Message → List ℕ → Addr → Run → Run
unfolding judged renew_now already_renewing refuse_forcerenew
take_forcerenew_in state_bound now rnd msg raw dst r = judged (renew_now now rnd) msg raw dst r
take_forcerenew_in state_renewing now rnd msg raw dst r = judged already_renewing msg raw dst r
take_forcerenew_in state_rebinding now rnd msg raw dst r = judged already_renewing msg raw dst r
take_forcerenew_in _ now rnd msg raw dst r = refuse_forcerenew wrong_state r

-- `takeForcerenew`.
unfoldable pub take_forcerenew : Instant → ℕ → Message → List ℕ → Addr → Run → Run
unfolding take_forcerenew_in
take_forcerenew now rnd msg raw dst r = take_forcerenew_in r.machine.state now rnd msg raw dst r

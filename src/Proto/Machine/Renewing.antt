-- ===== src/Proto/Machine/Renewing.antt =====
-- proto/machine.go and proto/machine_hostname.go: entering RENEWING and REBINDING, and telling the
-- server a new host name.
use dhcp_golib.Base.{
  ℕ, ◌%◌, ◌^◌, ◌==◌, Bool, true, false, ◌&&◌, not, List, none, if◌then◌else◌, length,
}
use dhcp_golib.Proto.Time.{Instant}
use dhcp_golib.Proto.Acd.{bytes_eq}
use dhcp_golib.Proto.Params.{split, usable_4, validate_hostname}
use dhcp_golib.Proto.Event.{State, state_bound, state_renewing, state_rebinding}
use dhcp_golib.Proto.Machine.{Machine, Run, ◌▷◌, assigning, journal, held_lease}
use dhcp_golib.Proto.Machine.Idle.{in_state}
use dhcp_golib.Proto.Machine.Sending.{send_renewal}

-- `sendsHostname`.
unfoldable pub sends_hostname : Machine → Bool
sends_hostname m = length m.params.fqdn_value == 0

-- `beginRenewalTransaction`.
unfoldable pub begin_renewal_transaction : Instant → ℕ → Run → Run
begin_renewal_transaction now rnd = assigning (λ m. record m {
  xid = split rnd 0 % 2 ^ 32;
  started_at = now;
  started = true;
  retransmits = 0;
  send_failures = 0;
  offer = none;
})

-- `enterRenewing`.
unfoldable pub enter_renewing : Instant → ℕ → Run → Run
unfolding begin_renewal_transaction
enter_renewing now rnd r =
    if not (usable_4 (held_lease r.machine).server_id)
    then journal r
    else (r ▷ begin_renewal_transaction now rnd ▷ in_state state_renewing ▷ send_renewal now)

-- `enterRebinding`.
unfoldable pub enter_rebinding : Instant → ℕ → Bool → Run → Run
unfolding begin_renewal_transaction
enter_rebinding now rnd afresh r =
    let begun = if afresh then begin_renewal_transaction now rnd r else r in
    begun ▷ in_state state_rebinding ▷ send_renewal now

-- `announceHostname`: the test, and what it does, without its result.
unfoldable pub name_unsent : Machine → Bool
unfolding sends_hostname
name_unsent m =
    sends_hostname m && not (bytes_eq m.hostname m.name_on_wire) && not (length m.hostname == 0)

unfoldable pub announce_hostname : Instant → ℕ → Run → Run
unfolding name_unsent enter_renewing
announce_hostname now rnd r =
    let m = r.machine in
    let sent : Run = elim m.state [
      | state_bound ↦ enter_renewing now rnd r
      | state_renewing ↦ send_renewal now r
      | state_rebinding ↦ send_renewal now r
      | _ ↦ r
    ] in
    if name_unsent m then sent else r

is_transacting : State → Bool
is_transacting state_renewing = true
is_transacting state_rebinding = true
is_transacting _ = false

-- The result of `announceHostname`, from the machine before it and the one after it.
unfoldable pub announced : Machine → Machine → Bool
unfolding name_unsent is_transacting
announced before after = name_unsent before && is_transacting after.state

-- `takeHostname`.
unfoldable pub take_hostname : Instant → ℕ → List ℕ → Run → Run
unfolding sends_hostname announced
take_hostname now rnd name r =
    let renamed = assigning (λ m. record m { hostname = name }) r in
    let told = announce_hostname now rnd renamed in
    if not (sends_hostname r.machine)
    then journal r
    else if not (validate_hostname name)
    then journal r
    else if announced renamed.machine told.machine
    then told
    else journal told

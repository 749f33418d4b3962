-- ===== src/Proto/Event.antt =====
-- proto/state.go, proto/event.go and proto/action.go: what goes into the DHCPv4 machine and what comes
-- out of it. An event or an action is a constructor with the fields of its kind. The actions of the
-- DHCPv6 machine, and the texts of notes and of failures, are left out.
use dhcp_golib.Base.{ℕ, Bool, List, [], ◌∷◌, Option}
use dhcp_golib.Proto.Time.{Duration}
use dhcp_golib.Proto.Lease.{Lease}
use dhcp_golib.Wire.Message.{Addr, Message}
use dhcp_golib.Wire.Arp.{ArpPacket}

pub data State : Type 0 where
  state_stopped state_init state_selecting state_requesting state_bound state_renewing : State
  state_rebinding state_rebooting state_probing : State

pub data TimerId : Type 0 where
  timer_retransmit timer_desync timer_expire timer_restart timer_renew timer_rebind timer_acd :
      TimerId
  timer6_retransmit timer6_delay timer6_expire timer6_renew timer6_rebind timer6_dad : TimerId
  timer6_refresh timer6_router_solicit timer6_slaac timer6_auto_fallback : TimerId

-- `AllTimerIDs`.
abbrev pub all_timer_ids : List TimerId
all_timer_ids =
    timer_retransmit ∷ timer_desync ∷ timer_expire ∷ timer_restart ∷ timer_renew ∷ timer_rebind
    ∷ timer_acd ∷ timer6_retransmit ∷ timer6_delay ∷ timer6_expire ∷ timer6_renew ∷ timer6_rebind
    ∷ timer6_dad ∷ timer6_refresh ∷ timer6_router_solicit ∷ timer6_slaac ∷ timer6_auto_fallback ∷ []

pub data Reason : Type 0 where
  reason_none reason_no_server reason_nak reason_expired reason_stopped reason_link_down : Reason
  reason_address_lost reason_conflict reason_transport reason_dad_incomplete reason_released :
      Reason
  reason_no_router reason_no_prefix reason_ipv6_only_preferred : Reason

-- The messages that another machine takes, a DHCPv6 message or a router advertisement, do not show
-- here: a DHCPv6 message is `ev_received` with no DHCPv4 message.
pub data Event : Type 0 where
  ev_start ev_stop ev_link_down ev_link_up ev_conflict_detected ev_address_lost ev_release : Event
  ev_received : Option Message → List ℕ → Addr → Event
  ev_timer_fired : TimerId → Event
  ev_action_failed : ℕ → Event
  ev_arp_received : Option ArpPacket → Event
  ev_router_advert : Event
  ev_dad_result : Addr → Bool → Event
  ev_set_hostname : List ℕ → Event

pub record Dest : Type 0 where
  pub broadcast : Bool
  pub addr : Addr
  pub src : Addr

pub data ActionKind : Type 0 where
  act_send : Message → Dest → ActionKind
  act_set_timer : TimerId → Duration → ActionKind
  act_cancel_timer : TimerId → ActionKind
  act_lease_acquired : Lease → Addr → ActionKind
  act_lease_changed act_lease_renewed : Lease → ActionKind
  act_lease_lost act_failed : Reason → ActionKind
  act_journal : ActionKind
  act_send_arp : ArpPacket → ActionKind

-- `ActionID`, a uint64, and what it is the id of.
pub record Action : Type 0 where
  pub id : ℕ
  pub kind : ActionKind

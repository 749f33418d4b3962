-- ===== src/Proto/Machine/Requests.antt =====
-- proto/machine.go: what the DHCPREQUEST of each state carries, and the one that answers an OFFER.
use dhcp_golib.Base.{
  ℕ, ◌≡◌, Bool, true, false, ◌||◌, not, List, [], ◌∷◌, Option, none, some, ◌==◌, arith, refl,
  Bool-cases, inl, inr, ◌∙◌, ==_iff, length, ap,
}
use dhcp_golib.Proto.Time.{Instant}
use dhcp_golib.Proto.Params.{Params}
use dhcp_golib.Proto.Machine.{Machine, held_lease}
use dhcp_golib.Proto.Machine.Messages.{
  base, base_named, named_options, asked_options, blank_message, as_4, request_of, reboot_of,
  renewal_of, option_if, with_option, terminal_base, decline_of, release_of, decline_message,
  release_message,
}
use dhcp_golib.Wire.Option.{
  Options, lookup, assign, opt_message_type, opt_requested_ip, opt_server_id, opt_client_id,
  opt_fqdn, opt_host_name, opt_vendor_class_id, opt_user_class, opt_parameter_list,
  opt_forcerenew_nonce, opt_lease_time, opt_message,
}
use dhcp_golib.Wire.Option.Map.{lookup-assign}
use dhcp_golib.Wire.Message.{
  Addr, invalid, Message, msg_type, set_type, msg_request, msg_decline, msg_release,
}
use dhcp_golib.Wire.Values.{addr4}

lookup-option_if :
    (wanted : Bool) (c d : ℕ) (v : List ℕ) (o : Options)
    → (c == d) ≡ false
    → lookup d (option_if wanted c v o) ≡ lookup d o
lookup-option_if true c d v o e = lookup-assign c d v o ∙ (rw e)
lookup-option_if false c d v o e = refl

-- The codes that stand in the options besides those that `base` adds: 53, 50 and 54.
abbrev other_code : ℕ → Bool
other_code c = c == opt_message_type || c == opt_requested_ip || c == opt_server_id

other_code_ne : (c d : ℕ) → other_code d ≡ true → other_code c ≡ false → (c == d) ≡ false
other_code_ne c d h k = ground (arith, ==_iff c d)

lookup-asked_options :
    (c : ℕ) (p : Params) (o : Options)
    → other_code c ≡ true
    → lookup c (asked_options p o) ≡ lookup c o
unfolding asked_options
lookup-asked_options c p o h =
    let ne = λ (d : ℕ) (k : other_code d ≡ false). other_code_ne d c h k in
    lookup-option_if _ opt_lease_time c _ _ (ne opt_lease_time refl)
    ∙ lookup-option_if true opt_forcerenew_nonce c _ _ (ne opt_forcerenew_nonce refl)
    ∙ lookup-option_if _ opt_parameter_list c _ _ (ne opt_parameter_list refl)
    ∙ lookup-option_if _ opt_user_class c _ _ (ne opt_user_class refl)
    ∙ lookup-option_if _ opt_vendor_class_id c _ _ (ne opt_vendor_class_id refl)

lookup-named_options :
    (c : ℕ) (m : Machine) (o : Options)
    → other_code c ≡ true
    → lookup c (named_options m o) ≡ lookup c o
unfolding named_options
lookup-named_options c m o h =
    let ne = λ (d : ℕ) (k : other_code d ≡ false). other_code_ne d c h k in
    let identified =
      lookup-option_if (not (length m.params.client_id == 0)) opt_client_id c m.params.client_id o
        (ne opt_client_id refl) in
    elim (Bool-cases (not (length m.params.fqdn_value == 0))) [
      | inl e ↦ rw e (lookup-option_if true opt_fqdn c _ _ (ne opt_fqdn refl) ∙ identified)
      | inr e ↦ rw e (lookup-option_if _ opt_host_name c _ _ (ne opt_host_name refl) ∙ identified)
    ]

-- `base` has of these the message type, and nothing else.
lookup-base :
    (c : ℕ) (m : Machine) (now : Instant) (t : ℕ)
    → other_code c ≡ true
    → lookup c (base m now t).options ≡ lookup c (assign opt_message_type (t ∷ []) [])
unfolding base base_named blank_message set_type
lookup-base c m now t h =
    lookup-asked_options c m.params _ h
    ∙ lookup-named_options c m (assign opt_message_type (t ∷ []) []) h

base_requested :
    (m : Machine) (now : Instant) (t : ℕ) → lookup opt_requested_ip (base m now t).options ≡ none
unfolding lookup assign
base_requested m now t = lookup-base opt_requested_ip m now t refl

base_server :
    (m : Machine) (now : Instant) (t : ℕ) → lookup opt_server_id (base m now t).options ≡ none
unfolding lookup assign
base_server m now t = lookup-base opt_server_id m now t refl

base_type :
    (m : Machine) (now : Instant) (t : ℕ)
    → lookup opt_message_type (base m now t).options ≡ some (t ∷ [])
unfolding lookup assign
base_type m now t = lookup-base opt_message_type m now t refl

base_own : (m : Machine) (now : Instant) (t : ℕ) → (base m now t).ciaddr ≡ invalid
unfolding base base_named blank_message set_type
base_own m now t = refl

-- The fields that tell one DHCPREQUEST from another.
pub record Identity : Type 0 where
  pub kind : Option ℕ
  pub requested : Option (List ℕ)
  pub server : Option (List ℕ)
  pub own : Addr

abbrev pub identity : Message → Identity
identity msg = record {
  kind = msg_type msg;
  requested = lookup opt_requested_ip msg.options;
  server = lookup opt_server_id msg.options;
  own = msg.ciaddr;
}

identity-base :
    (m : Machine) (now : Instant) (t : ℕ)
    → identity (base m now t)
      ≡ record { kind = some t; requested = none; server = none; own = invalid }
unfolding msg_type
identity-base m now t =
    ground (arith, base_requested m now t, base_server m now t, base_type m now t, base_own m now t)

-- Option 50 and option 54 show in it, and change nothing else of it.
identity_requested :
    (v : List ℕ) (msg : Message)
    → identity (with_option opt_requested_ip v msg) ≡ record (identity msg) { requested = some v }
unfolding msg_type
identity_requested v msg = ground (
  arith,
  lookup-assign opt_requested_ip opt_requested_ip v msg.options,
  lookup-assign opt_requested_ip opt_server_id v msg.options,
  lookup-assign opt_requested_ip opt_message_type v msg.options,
)

identity_server :
    (v : List ℕ) (msg : Message)
    → identity (with_option opt_server_id v msg) ≡ record (identity msg) { server = some v }
unfolding msg_type
identity_server v msg = ground (
  arith,
  lookup-assign opt_server_id opt_requested_ip v msg.options,
  lookup-assign opt_server_id opt_server_id v msg.options,
  lookup-assign opt_server_id opt_message_type v msg.options,
)

renewal_identity :
    (m : Machine) (now : Instant)
    → identity (renewal_of m now) ≡ record {
      kind = some msg_request;
      requested = none;
      server = none;
      own = (held_lease m).addr.addr;
    }
unfolding renewal_of msg_type
renewal_identity m now =
    ap (λ (x : Identity). record x { own = (held_lease m).addr.addr })
      (identity-base m now msg_request)

-- The request for an offer that names a server carries the offered address, that server and no
-- own address; the request of INIT-REBOOT carries the remembered address and no server and no
-- own address; the request of RENEWING and REBINDING carries neither of the two and the address
-- of the lease as its own.
pub request_identities :
    (m : Machine) (now : Instant) (offer : Message) (sid : Addr)
    → addr4 opt_server_id offer.options ≡ some sid
    → (identity (request_of m now offer) ≡ record {
      kind = some msg_request;
      requested = some (as_4 offer.yiaddr);
      server = some (as_4 sid);
      own = invalid;
    })
      × (identity (reboot_of m now) ≡ record {
        kind = some msg_request;
        requested = some (as_4 m.reboot_addr);
        server = none;
        own = invalid;
      })
      × (identity (renewal_of m now) ≡ record {
        kind = some msg_request;
        requested = none;
        server = none;
        own = (held_lease m).addr.addr;
      })
unfolding request_of reboot_of renewal_of
request_identities m now offer sid e =
    let bare = identity-base m now msg_request in
    let asked = identity_requested (as_4 offer.yiaddr) (base m now msg_request) in
    let again = identity_requested (as_4 m.reboot_addr) (base m now msg_request) in
    let answered =
      identity_server (as_4 sid)
        (with_option opt_requested_ip (as_4 offer.yiaddr) (base m now msg_request)) in
    (
      rw (e, request_of)
          (answered
            ∙ ap (λ (x : Identity). record x { server = some (as_4 sid) }) asked
            ∙ ap
                (λ (x : Identity). record x {
                  requested = some (as_4 offer.yiaddr);
                  server = some (as_4 sid);
                })
                bare),
      again ∙ ap (λ (x : Identity). record x { requested = some (as_4 m.reboot_addr) }) bare,
      renewal_identity m now,
    )

-- What a DHCPDECLINE and a DHCPRELEASE start from has the type, and none of the others.
identity-terminal_base :
    (p : Params) (t xid : ℕ)
    → identity (terminal_base p t xid)
      ≡ record { kind = some t; requested = none; server = none; own = invalid }
unfolding terminal_base blank_message set_type msg_type lookup assign
identity-terminal_base p t xid = elim (Bool-cases (not (length p.client_id == 0))) [
  | inl e ↦ ground (arith, e)
  | inr e ↦ ground (arith, e)
]

-- Option 56 is none of them.
identity_explained :
    (v : List ℕ) (msg : Message) → identity (with_option opt_message v msg) ≡ identity msg
unfolding msg_type
identity_explained v msg = ground (
  arith,
  lookup-assign opt_message opt_requested_ip v msg.options,
  lookup-assign opt_message opt_server_id v msg.options,
  lookup-assign opt_message opt_message_type v msg.options,
)

pub decline_identity :
    (p : Params) (xid : ℕ) (addr sid : Addr)
    → identity (decline_of p xid addr sid) ≡ record {
      kind = some msg_decline;
      requested = some (as_4 addr);
      server = some (as_4 sid);
      own = invalid;
    }
unfolding decline_of
decline_identity p xid addr sid =
    let bare = terminal_base p msg_decline xid in
    let asked = with_option opt_requested_ip (as_4 addr) bare in
    identity_explained decline_message (with_option opt_server_id (as_4 sid) asked)
    ∙ identity_server (as_4 sid) asked
    ∙ ap (λ (x : Identity). record x { server = some (as_4 sid) })
        (identity_requested (as_4 addr) bare
          ∙ ap (λ (x : Identity). record x { requested = some (as_4 addr) })
              (identity-terminal_base p msg_decline xid))

pub release_identity :
    (p : Params) (xid : ℕ) (addr sid : Addr)
    → identity (release_of p xid addr sid)
      ≡ record { kind = some msg_release; requested = none; server = some (as_4 sid); own = addr }
unfolding release_of msg_type
release_identity p xid addr sid =
    let bare = record (terminal_base p msg_release xid) { ciaddr = addr } in
    identity_explained release_message (with_option opt_server_id (as_4 sid) bare)
    ∙ identity_server (as_4 sid) bare
    ∙ ap (λ (x : Identity). record x { server = some (as_4 sid); own = addr })
        (identity-terminal_base p msg_release xid)

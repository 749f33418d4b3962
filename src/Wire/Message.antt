-- ===== src/Wire/Message.antt =====
-- wire/message.go: the DHCPv4 message, and option 53 in it.
use dhcp_golib.Base.{
  ℕ, ◌≡◌, Bool, true, false, ◌&&◌, List, [], ◌∷◌, ◌++◌, Option, none, some, ◌==◌, arith,
}
use dhcp_golib.Wire.Option.{Options, lookup, assign, clone, opt_message_type}
use dhcp_golib.Wire.Option.Map.{lookup-assign, clone_lem}

-- `netip.Addr`: the zero value, an IPv4 address by its four octets, an IPv6 address by its sixteen.
pub data Addr : Type 0 where
  invalid : Addr
  ip4 : ℕ → ℕ → ℕ → ℕ → Addr
  ip6 : List ℕ → Addr

-- `Addr.Is4`.
abbrev pub is_4 : Addr → Bool
is_4 (ip4 a b c d) = true
is_4 _ = false

all_zero : List ℕ → Bool
all_zero [] = true
all_zero (b ∷ bs) = b == 0 && all_zero bs

-- `Addr.IsUnspecified`.
unfoldable pub is_unspecified : Addr → Bool
unfolding all_zero
is_unspecified invalid = false
is_unspecified (ip4 a b c d) = a == 0 && b == 0 && c == 0 && d == 0
is_unspecified (ip6 bs) = all_zero bs

-- `MessageType`, a uint8.
abbrev pub msg_discover : ℕ
msg_discover = 1

abbrev pub msg_offer : ℕ
msg_offer = 2

abbrev pub msg_request : ℕ
msg_request = 3

abbrev pub msg_decline : ℕ
msg_decline = 4

abbrev pub msg_ack : ℕ
msg_ack = 5

abbrev pub msg_nak : ℕ
msg_nak = 6

abbrev pub msg_release : ℕ
msg_release = 7

abbrev pub msg_inform : ℕ
msg_inform = 8

abbrev pub msg_force_renew : ℕ
msg_force_renew = 9

pub record Message : Type 0 where
  pub op : ℕ  -- uint8
  pub htype : ℕ  -- uint8
  pub hlen : ℕ  -- uint8
  pub hops : ℕ  -- uint8
  pub xid : ℕ  -- uint32
  pub secs : ℕ  -- uint16
  pub flags : ℕ  -- uint16
  pub ciaddr : Addr
  pub yiaddr : Addr
  pub siaddr : Addr
  pub giaddr : Addr
  pub chaddr : List ℕ
  pub sname : List ℕ
  pub file : List ℕ
  pub options : Options

-- The value of option 53, of one octet.
type_octet : Option (List ℕ) → Option ℕ
type_octet none = none
type_octet (some []) = none
type_octet (some (t ∷ [])) = some t
type_octet (some (t ∷ u ∷ r)) = none

-- `Message.Type`.
unfoldable pub msg_type : Message → Option ℕ
unfolding type_octet
msg_type m = type_octet (lookup opt_message_type m.options)

-- `Message.SetType`.
unfoldable pub set_type : Message → ℕ → Message
set_type m t = record m { options = assign opt_message_type (t ∷ []) m.options }

-- `Message.Clone`, of a message that is not nil.
unfoldable pub clone_message : Message → Message
unfolding clone
clone_message m = record m {
  chaddr = [] ++ m.chaddr;
  sname = [] ++ m.sname;
  file = [] ++ m.file;
  options = clone m.options;
}

-- `Type` reads what `SetType` wrote, and the other options stay.
pub type-set_type :
    (m : Message) (t : ℕ)
    → (msg_type (set_type m t) ≡ some t)
      × ((c : ℕ)
          → (c == opt_message_type) ≡ false
          → lookup c (set_type m t).options ≡ lookup c m.options)
unfolding set_type msg_type
type-set_type m t = (
  rw (lookup-assign opt_message_type opt_message_type (t ∷ []) m.options),
  λ c n. ground (arith, lookup-assign opt_message_type c (t ∷ []) m.options),
)

pub clone_message_lem : (m : Message) → clone_message m ≡ m
unfolding clone_message
clone_message_lem m = rw (clone_lem m.options)

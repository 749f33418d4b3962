-- ===== src/Wire/Bytes.antt =====
-- wire/codec.go: the big-endian integers, be16, be32, ube16 and ube32.
use dhcp_golib.Base.{
  ℕ, ◌+◌, ◌*◌, ◌/◌, ◌%◌, ◌^◌, ◌<◌, ◌≡◌, List, [], ◌∷◌, arith, All, zero, suc, drop,
}

abbrev pub IsByte : ℕ → Type 0
IsByte b = b < 256

abbrev pub IsBytes : List ℕ → Type 0
IsBytes = All IsByte

-- `byte(v>>8), byte(v)`: what be16 writes at its destination.
unfoldable pub be16 : ℕ → List ℕ
be16 v = (v / 2 ^ 8 % 256) ∷ (v % 256) ∷ []

unfoldable pub be32 : ℕ → List ℕ
be32 v = (v / 2 ^ 24 % 256) ∷ (v / 2 ^ 16 % 256) ∷ (v / 2 ^ 8 % 256) ∷ (v % 256) ∷ []

-- The operands of the source's `|` have no bit in common when the octets are bytes, so it is `+`.
-- Each caller has checked the length; a shorter slice, on which Go panics, reads as 0 here.
unfoldable pub ube16 : List ℕ → ℕ
ube16 (a ∷ b ∷ _) = a * 2 ^ 8 + b
ube16 _ = 0

unfoldable pub ube32 : List ℕ → ℕ
ube32 (a ∷ b ∷ c ∷ d ∷ _) = a * 2 ^ 24 + b * 2 ^ 16 + c * 2 ^ 8 + d
ube32 _ = 0

-- The loops of be64 and ube64, unrolled.
unfoldable pub be64 : ℕ → List ℕ
be64 v =
    (v / 2 ^ 56 % 256)
    ∷ (v / 2 ^ 48 % 256)
    ∷ (v / 2 ^ 40 % 256)
    ∷ (v / 2 ^ 32 % 256)
    ∷ (v / 2 ^ 24 % 256)
    ∷ (v / 2 ^ 16 % 256)
    ∷ (v / 2 ^ 8 % 256)
    ∷ (v % 256)
    ∷ []

unfoldable pub ube64 : List ℕ → ℕ
ube64 (a ∷ b ∷ c ∷ d ∷ e ∷ f ∷ g ∷ h ∷ _) =
    a * 2 ^ 56 + b * 2 ^ 48 + c * 2 ^ 40 + d * 2 ^ 32 + e * 2 ^ 24 + f * 2 ^ 16 + g * 2 ^ 8 + h
ube64 _ = 0

pub ube64-be64 : (v : ℕ) → v < 2 ^ 64 → ube64 (be64 v) ≡ v
unfolding ube64 be64
ube64-be64 v h = omega arith

pub ube16-be16 : (v : ℕ) → v < 2 ^ 16 → ube16 (be16 v) ≡ v
unfolding ube16 be16
ube16-be16 v h = omega arith

pub ube32-be32 : (v : ℕ) → v < 2 ^ 32 → ube32 (be32 v) ≡ v
unfolding ube32 be32
ube32-be32 v h = omega arith

pub be16-IsBytes : (v : ℕ) → IsBytes (be16 v)
unfolding be16
be16-IsBytes v = ground arith

pub be32-IsBytes : (v : ℕ) → IsBytes (be32 v)
unfolding be32
be32-IsBytes v = ground arith

pub ube32-lt : (b : List ℕ) → IsBytes b → ube32 b < 2 ^ 32
unfolding ube32
ube32-lt [] h = omega arith
ube32-lt (a ∷ []) h = omega arith
ube32-lt (a ∷ b ∷ []) h = omega arith
ube32-lt (a ∷ b ∷ c ∷ []) h = omega arith
ube32-lt (a ∷ b ∷ c ∷ d ∷ _) h = omega arith

pub drop-IsBytes : (n : ℕ) (b : List ℕ) → IsBytes b → IsBytes (drop n b)
drop-IsBytes zero b h = h
drop-IsBytes (suc n) [] h = tt
drop-IsBytes (suc n) (x ∷ b) h = drop-IsBytes n b h.1

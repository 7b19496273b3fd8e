-- ===== src/Proto/Frame.antt =====
-- crates/throcc-proto/src/frame.rs: the plaintext header of every media datagram.
-- A u8, u32 or usize is a number; what the types bound stands as a hypothesis of the lemmas.
pub mod Laws
mod Masks
mod Clock
mod Tests
use throcc.Prelude.{
  ℕ, ◌+◌, ◌-◌, ◌*◌, ◌/◌, ◌%◌, ◌^◌, bit_and, bit_or, Bool, not, ◌&&◌, List, [], ◌∷◌, ◌++◌, Result,
  ok, err, ltb, ◌==◌, if◌then◌else◌, take, ◌>>=◌,
}

abbrev pub datagram_payload_floor : ℕ
datagram_payload_floor = 1162

abbrev pub header_bytes : ℕ
header_bytes = 13

abbrev pub tag_bytes : ℕ
tag_bytes = 16

-- Ciphertext body of a datagram, before the tag.
abbrev pub body_bytes : ℕ
body_bytes = datagram_payload_floor - header_bytes - tag_bytes

abbrev pub timestamp_bytes : ℕ
timestamp_bytes = 4

-- `Flags(u8)`.
pub record Flags : Type 0 where
  pub bits : ℕ

abbrev pub keyframe : Flags
keyframe = record { bits = 1 }

abbrev pub first : Flags
first = record { bits = 2 }

abbrev pub last : Flags
last = record { bits = 4 }

abbrev defined : ℕ
defined = 7

-- `!x` on a u8.
abbrev not_u8 : ℕ → ℕ
not_u8 x = 255 - x

unfoldable pub contains : Flags → Flags → Bool
contains f other = bit_and f.bits other.bits == other.bits

unfoldable pub with : Flags → Flags → Bool → Flags
with f other on =
    if on
    then record { bits = bit_or f.bits other.bits }
    else record { bits = bit_and f.bits (not_u8 other.bits) }

unfoldable pub has_reserved : Flags → Bool
has_reserved f = not (bit_and f.bits (not_u8 defined) == 0)

-- `u32::to_be_bytes` and `u32::from_be_bytes`.
abbrev pub to_be_bytes : ℕ → List ℕ
to_be_bytes x = x / 2 ^ 24 % 256 ∷ x / 2 ^ 16 % 256 ∷ x / 2 ^ 8 % 256 ∷ x % 256 ∷ []

abbrev pub from_be_bytes : ℕ → ℕ → ℕ → ℕ → ℕ
from_be_bytes a b c d = a * 2 ^ 24 + b * 2 ^ 16 + c * 2 ^ 8 + d

pub record Header : Type 0 where
  pub media_id : ℕ
  pub epoch : ℕ
  pub seq : ℕ
  pub flags : Flags

pub data HeaderError : Type 0 where
  short reserved_flags : HeaderError

unfoldable pub encode : Header → List ℕ
encode h =
    to_be_bytes h.media_id ++ (to_be_bytes h.epoch ++ (to_be_bytes h.seq ++ (h.flags.bits ∷ [])))

-- The pattern is `first_chunk::<13>`; the server's reading, which keeps reserved bits.
unfoldable pub parse : List ℕ → Result HeaderError Header
parse (a ∷ b ∷ c ∷ d ∷ e ∷ f ∷ g ∷ h ∷ i ∷ j ∷ k ∷ l ∷ m ∷ _) = ok (record {
  media_id = from_be_bytes a b c d;
  epoch = from_be_bytes e f g h;
  seq = from_be_bytes i j k l;
  flags = record { bits = m };
})
parse _ = err short

-- The clients' reading: unknown flag bits are an error.
unfoldable pub parse_strict : List ℕ → Result HeaderError Header
parse_strict datagram = do
  header ← parse datagram
  if has_reserved header.flags then err reserved_flags else ok header

-- The AEAD nonce: the encoding without its last byte.
unfoldable pub nonce : Header → List ℕ
nonce h = take 12 (encode h)

-- Serial-number comparison (RFC 1982, 32 bits); `wrapping_sub` is written out.
pub timestamp_before : ℕ → ℕ → Bool
timestamp_before a b = not (a == b) && ltb ((b + 2 ^ 32 - a) % 2 ^ 32) (2 ^ 31)

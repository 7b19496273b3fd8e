-- ===== src/Client/Fragment.antt =====
-- `Fragment` and `fragment` of crates/throcc-client-core/src/media/fragment.rs: an access unit cut
-- into what one datagram each carries.
pub mod Cut
mod Marks
pub mod Delivered
pub mod Arrivals
mod Waiting
pub mod Arrived
pub mod Tests
use throcc.Prelude.{
  ℕ, zero, suc, ◌-◌, min, bit_or, Bool, List, [], ◌∷◌, ◌++◌, Option, none, some, length, take, drop,
}
use throcc.Proto.Frame.{
  Flags, keyframe, first, last, with, body_bytes, timestamp_bytes, to_be_bytes,
}

pub record Fragment : Type 0 where
  pub flags : Flags
  pub timestamp : Option (List ℕ)
  pub body : List ℕ

-- The two parts, one after the other.
unfoldable pub plaintext : Fragment → List ℕ
plaintext f = elim f.timestamp [ none ↦ f.body | some t ↦ t ++ f.body ]

-- `|` of two flags.
abbrev pub union : Flags → Flags → Flags
union a b = record { bits = bit_or a.bits b.bits }

abbrev pub base_flags : Bool → Flags
base_flags is_keyframe = with (record { bits = 0 }) keyframe is_keyframe

-- The loop from `at` on, over the bytes from there, a body at a time; it takes as much fuel as
-- there are bytes, of which each round takes one at least.
pub cut : ℕ → Flags → List ℕ → List Fragment
cut fuel base [] = []
cut zero base (b ∷ rest) = []
cut (suc fuel) base (b ∷ rest) =
    record { flags = base; timestamp = none; body = take body_bytes (b ∷ rest) }
    ∷ cut fuel base (drop body_bytes (b ∷ rest))

-- `fragments.last_mut()`.
pub mark_last : List Fragment → List Fragment
mark_last [] = []
mark_last (f ∷ []) = record f { flags = union f.flags last } ∷ []
mark_last (f ∷ g ∷ rest) = f ∷ mark_last (g ∷ rest)

abbrev pub first_len : List ℕ → ℕ
first_len unit = min (length unit) (body_bytes - timestamp_bytes)

pub fragment : List ℕ → ℕ → Bool → List Fragment
fragment unit timestamp is_keyframe =
    let base = base_flags is_keyframe in
    mark_last (
      record {
        flags = union base first;
        timestamp = some (to_be_bytes timestamp);
        body = take (first_len unit) unit;
      }
      ∷ cut (length (drop (first_len unit) unit)) base (drop (first_len unit) unit))

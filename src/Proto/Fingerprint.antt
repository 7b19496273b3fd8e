-- ===== src/Proto/Fingerprint.antt =====
-- crates/throcc-proto/src/fingerprint.rs: how a key's SHA-256 is shown and read. The digest
-- itself is the crate sha2's. Characters are code points.
mod Laws
mod Tests
use throcc.Prelude.{
  is_ascii_whitespace, ℕ, ◌+◌, ◌-◌, ◌*◌, ◌/◌, ◌%◌, not, ◌&&◌, List, [], ◌∷◌, ◌++◌, Option, none,
  some, Result, ok, err, ltb, leb, ◌==◌, if◌then◌else◌, length, filter, ◌>>=◌, ok_or,
}

pub data ParseFingerprintError : Type 0 where
  parse_fingerprint_error : ParseFingerprintError

-- A digit of `{:x}`, for a value below 16.
hex_digit : ℕ → ℕ
hex_digit d = if ltb d 10 then b'0' + d else b'a' + d - 10

-- `{:02x}` of a u8.
hex_byte : ℕ → List ℕ
unfolding hex_digit
hex_byte b = hex_digit (b / 16) ∷ hex_digit (b % 16) ∷ []

-- `char::to_digit(16)`.
to_digit : ℕ → Option ℕ
to_digit c =
    if leb b'0' c && leb c b'9'
    then some (c - b'0')
    else if leb b'a' c && leb c b'f'
    then some (c - b'a' + 10)
    else if leb b'A' c && leb c b'F'
    then some (c - b'A' + 10)
    else none

-- The pairs of bytes after the first, each behind a space. An odd byte at the end is left out,
-- as by `as_chunks::<2>().0`; a fingerprint has 32.
show_pairs : List ℕ → List ℕ
show_pairs (a ∷ b ∷ rest) = b' ' ∷ (hex_byte a ++ (hex_byte b ++ show_pairs rest))
show_pairs _ = []

-- `fmt` of `Display`.
pub display : List ℕ → List ℕ
unfolding show_pairs
display (a ∷ b ∷ rest) = hex_byte a ++ (hex_byte b ++ show_pairs rest)
display _ = []

-- Two groups of four digits.
pub short : List ℕ → List ℕ
short (a ∷ b ∷ c ∷ d ∷ _) = hex_byte a ++ (hex_byte b ++ b' ' ∷ (hex_byte c ++ hex_byte d))
short _ = []

collect_digits : List ℕ → Option (List ℕ)
unfolding to_digit
collect_digits [] = some []
collect_digits (c ∷ cs) =
    let rest = collect_digits cs in
    elim (to_digit c) [ none ↦ none | some d ↦ elim rest [ none ↦ none | some ds ↦ some (d ∷ ds) ] ]

-- `high << 4 | low`, which share no bit.
pair_up : List ℕ → List ℕ
pair_up (high ∷ low ∷ rest) = (high * 16 % 256 + low) ∷ pair_up rest
pair_up _ = []

from_digits : List ℕ → Result ParseFingerprintError (List ℕ)
from_digits digits =
    if not (length digits == 64) then err parse_fingerprint_error else ok (pair_up digits)

pub from_str : List ℕ → Result ParseFingerprintError (List ℕ)
unfolding collect_digits from_digits is_ascii_whitespace
from_str s = do
  digits ←
      ok_or (collect_digits (filter (λ c. not (is_ascii_whitespace c)) s)) parse_fingerprint_error
  from_digits digits

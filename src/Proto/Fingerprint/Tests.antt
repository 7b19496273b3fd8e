-- ===== src/Proto/Fingerprint/Tests.antt =====
-- A fingerprint of 32 bytes, shown and read.
use throcc.Prelude.{ℕ, zero, suc, ◌≡◌, refl, List, [], ◌∷◌, ok, err, arith}
use throcc.Proto.Fingerprint.{display, from_str, parse_fingerprint_error, hex_byte}
use throcc.Proto.Fingerprint.Laws.{from_str-display_bytes}

abbrev repeat : ℕ → ℕ → List ℕ
repeat zero b = []
repeat (suc n) b = b ∷ repeat n b

shows_pairs :
    display (0x69 ∷ 0xbc ∷ 0xf0 ∷ 0x41 ∷ [])
    ≡ b'6' ∷ b'9' ∷ b'b' ∷ b'c' ∷ b' ' ∷ b'f' ∷ b'0' ∷ b'4' ∷ b'1' ∷ []
unfolding display hex_byte
shows_pairs = refl

refuses_sign : from_str (b'+' ∷ b'a' ∷ []) ≡ err parse_fingerprint_error
unfolding from_str
refuses_sign = refl

from_str-display_bytes_example : from_str (display (repeat 32 0xbc)) ≡ ok (repeat 32 0xbc)
from_str-display_bytes_example = from_str-display_bytes (repeat 32 0xbc) refl (omega arith)

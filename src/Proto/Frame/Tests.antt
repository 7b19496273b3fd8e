-- ===== src/Proto/Frame/Tests.antt =====
-- The header's lemmas at concrete headers, and runs of the tests in frame.rs.
use throcc.Prelude.{ℕ, ◌-◌, ◌^◌, ◌≡◌, refl, true, List, [], ◌∷◌, ◌++◌, ok, err, arith, take}
use throcc.Proto.Frame.{
  Header, reserved_flags, short, has_reserved, encode, parse, parse_strict, nonce, timestamp_before,
}
use throcc.Proto.Frame.Laws.{IsHeader, parse-encode, nonce-injective}

abbrev header : Header
header = record {
  media_id = 0x01020304;
  epoch = 0x05060708;
  seq = 0x090a0b0c;
  flags = record { bits = 6 };
}

abbrev newer : Header
newer = record header { flags = record { bits = 0x86 } }

abbrev bytes : List ℕ
bytes = 1 ∷ 2 ∷ 3 ∷ 4 ∷ 5 ∷ 6 ∷ 7 ∷ 8 ∷ 9 ∷ 10 ∷ 11 ∷ 12 ∷ 6 ∷ 77 ∷ []

layout_is_fixed : encode header ≡ take 13 bytes
unfolding encode
layout_is_fixed = refl

reads_header : parse bytes ≡ ok header
unfolding parse
reads_header = refl

reads_short : parse (take 12 bytes) ≡ err short
unfolding parse
reads_short = refl

refuses_newer : parse_strict (encode newer) ≡ err reserved_flags
unfolding parse_strict parse encode has_reserved
refuses_newer = refl

timestamps_wrap : timestamp_before (2 ^ 32 - 11) 5 ≡ true
unfolding timestamp_before
timestamps_wrap = refl

header-IsHeader : IsHeader header
header-IsHeader = omega arith

newer-IsHeader : IsHeader newer
newer-IsHeader = omega arith

parse-encode_example : parse (encode header ++ 77 ∷ []) ≡ ok header
parse-encode_example = parse-encode header (77 ∷ []) header-IsHeader

nonce-injective_example :
    (header.media_id ≡ newer.media_id) × (header.epoch ≡ newer.epoch) × (header.seq ≡ newer.seq)
nonce-injective_example = nonce-injective header newer header-IsHeader newer-IsHeader same_nonce
  where
    same_nonce : nonce header ≡ nonce newer
    same_nonce = unfold nonce encode in refl

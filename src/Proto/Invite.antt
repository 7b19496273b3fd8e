-- ===== src/Proto/Invite.antt =====
-- crates/throcc-proto/src/invite.rs: invite codes such as K7Q-M2XPD, in Crockford base32.
-- A `char` is its code point, and a `String` the list of them. All characters that the code
-- keeps are ASCII, so byte lengths and positions are those of the list.
mod Laws
mod Partial
mod Tests
use throcc.Prelude.{
  to_ascii_uppercase, is_ascii_whitespace, ℕ, ◌+◌, Bool, false, not, ◌&&◌, ◌||◌, List, [], ◌∷◌,
  ◌++◌, map, Option, none, some, Result, ok, err, ltb, leb, ◌==◌, if◌then◌else◌, length, take, drop,
  bit_and, get_or, filter, ◌>>=◌, ok_or,
}

-- 0 to 9, then the upper-case letters without I, L, O and U.
abbrev pub alphabet : List ℕ
alphabet =
    48 ∷ 49 ∷ 50 ∷ 51 ∷ 52 ∷ 53 ∷ 54 ∷ 55 ∷ 56 ∷ 57 ∷ 65 ∷ 66 ∷ 67 ∷ 68 ∷ 69 ∷ 70 ∷ 71 ∷ 72 ∷ 74
    ∷ 75 ∷ 77 ∷ 78 ∷ 80 ∷ 81 ∷ 82 ∷ 83 ∷ 84 ∷ 86 ∷ 87 ∷ 88 ∷ 89 ∷ 90 ∷ []

abbrev pub id_chars : ℕ
id_chars = 3

abbrev pub secret_chars : ℕ
secret_chars = 5

pub record InviteCode : Type 0 where
  pub id : List ℕ
  pub secret : List ℕ

-- `BadInviteCode` is a unit struct.
pub data BadInviteCode : Type 0 where
  bad_invite_code : BadInviteCode

pub elem : ℕ → List ℕ → Bool
elem c [] = false
elem c (x ∷ xs) = c == x || elem c xs

upper_char : ℕ → Option ℕ
upper_char c =
    if c == b'O'
    then some b'0'
    else if c == b'I' || c == b'L'
    then some b'1'
    else if leb c 127 && elem c alphabet
    then some c
    else none

pub normalize_char : ℕ → Option ℕ
unfolding to_ascii_uppercase upper_char
normalize_char c = upper_char (to_ascii_uppercase c)

-- `filter_map(normalize_char)`.
pub normalize : List ℕ → List ℕ
normalize [] = []
normalize (c ∷ cs) =
    let rest = normalize cs in elim (normalize_char c) [ none ↦ rest | some d ↦ d ∷ rest ]

-- `map(normalize_char).collect::<Option<_>>()`.
pub collect_chars : List ℕ → Option (List ℕ)
collect_chars [] = some []
collect_chars (c ∷ cs) =
    let rest = collect_chars cs in
    elim (normalize_char c) [
      | none ↦ none
      | some d ↦ elim rest [ none ↦ none | some ds ↦ some (d ∷ ds) ]
    ]

pub is_kept : ℕ → Bool
unfolding is_ascii_whitespace
is_kept c = not (c == b'-') && not (is_ascii_whitespace c)

from_chars : List ℕ → Result BadInviteCode InviteCode
from_chars chars =
    if not (length chars == id_chars + secret_chars)
    then err bad_invite_code
    else ok (record { id = take id_chars chars; secret = drop id_chars chars })

-- `from_str`.
pub from_str : List ℕ → Result BadInviteCode InviteCode
unfolding collect_chars is_kept from_chars
from_str input = do
  chars ← ok_or (collect_chars (filter is_kept input)) bad_invite_code
  from_chars chars

-- `fmt` of `Display`.
pub display : InviteCode → List ℕ
display code = code.id ++ b'-' ∷ code.secret

encode : List ℕ → List ℕ
encode = map (λ b. get_or alphabet (bit_and b 31) 0)

-- From 8 random bytes; an index below 32 is in range, so the default of `get_or` is not used.
pub from_random : List ℕ → InviteCode
unfolding encode
from_random bytes = record {
  id = encode (take id_chars bytes);
  secret = encode (drop id_chars bytes);
}

insert_dash : List ℕ → List ℕ
insert_dash chars =
    if ltb id_chars (length chars) then take id_chars chars ++ b'-' ∷ drop id_chars chars else chars

pub format_partial : List ℕ → List ℕ
unfolding insert_dash
format_partial input = insert_dash (take (id_chars + secret_chars) (normalize input))

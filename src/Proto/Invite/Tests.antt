-- ===== src/Proto/Invite/Tests.antt =====
-- The examples of invite.rs, and the lemmas at K7Q-M2XPD.
use throcc.Prelude.{ℕ, ◌≡◌, refl, List, [], ◌∷◌, ok, err, arith}
use throcc.Proto.Invite.{
  InviteCode, bad_invite_code, elem, from_str, display, format_partial, normalize, normalize_char,
}
use throcc.Proto.Invite.Laws.{IsCode, from_str-display}

abbrev code : InviteCode
code = record { id = b'K' ∷ b'7' ∷ b'Q' ∷ []; secret = b'M' ∷ b'2' ∷ b'X' ∷ b'P' ∷ b'D' ∷ [] }

abbrev typed : List ℕ
typed = b'k' ∷ b'7' ∷ b'q' ∷ b' ' ∷ b'm' ∷ b'2' ∷ b'x' ∷ b'p' ∷ b'd' ∷ []

parses_typed : from_str typed ≡ ok code
unfolding from_str normalize_char elem
parses_typed = refl

refuses_u : from_str (b'U' ∷ typed) ≡ err bad_invite_code
unfolding from_str normalize_char elem
refuses_u = refl

formats_partial :
    format_partial (b'k' ∷ b'7' ∷ b'q' ∷ b'm' ∷ []) ≡ b'K' ∷ b'7' ∷ b'Q' ∷ b'-' ∷ b'M' ∷ []
unfolding format_partial normalize normalize_char elem
formats_partial = refl

code-IsCode : IsCode code
unfolding elem
code-IsCode = ground arith

from_str-display_example : from_str (display code) ≡ ok code
from_str-display_example = from_str-display code code-IsCode

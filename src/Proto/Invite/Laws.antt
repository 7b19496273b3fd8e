-- ===== src/Proto/Invite/Laws.antt =====
-- Codes are read as they are shown, whatever the case, the dashes and the blanks.
use throcc.Prelude.{
  append-nil, ℕ, ◌≡◌, ◌<◌, refl, Bool, true, false, ◌&&◌, List, [], ◌∷◌, ◌++◌, Option, none, some,
  ok, ◌==◌, length, take, drop, bit_and, get_or, filter, All, All-append, All-take, All-drop, arith,
  passes_from, passes, passes_at, Option-cases, inl, inr, IsByte, length-append, length-take,
  length-drop, take-append, drop-append, length-map,
}
use throcc.Proto.Invite.{
  InviteCode, alphabet, elem, normalize_char, collect_chars, is_kept, from_str, display,
  from_random, encode,
}

-- A character of the alphabet.
abbrev pub IsChar : ℕ → Type 0
IsChar c = elem c alphabet ≡ true

-- Three characters of the alphabet, and five.
pub record IsCode (code : InviteCode) : Type 0 where
  pub id : length code.id ≡ 3
  pub secret : length code.secret ≡ 5
  pub id_chars : All IsChar code.id
  pub secret_chars : All IsChar code.secret

abbrev stands : ℕ → Option ℕ → Bool
stands x none = false
stands x (some y) = x == y

abbrev implies : Bool → Bool → Bool
implies true b = b
implies false b = true

char_table :
    passes (λ c. implies (elem c alphabet) (stands c (normalize_char c) && is_kept c)) 128 ≡ true
unfolding passes_from normalize_char is_kept elem
char_table = refl

IsChar-lt : (c : ℕ) → IsChar c → c < 128
unfolding elem
IsChar-lt c h = ground arith

-- A character of the alphabet stands for itself, and is not skipped.
pub normalize_char-IsChar : (c : ℕ) → IsChar c → (normalize_char c ≡ some c) × (is_kept c ≡ true)
normalize_char-IsChar c h = ground (
  arith,
  passes_at (λ c. implies (elem c alphabet) (stands c (normalize_char c) && is_kept c)) 128
      char_table c (IsChar-lt c h),
)

-- Whatever a character stands for is in the alphabet.
pub IsChar-normalize_char : (c d : ℕ) → normalize_char c ≡ some d → IsChar d
unfolding normalize_char elem
IsChar-normalize_char c d h = unfold elem in ground arith

filter-IsChar :
    (cs rest : List ℕ) → All IsChar cs → filter is_kept (cs ++ rest) ≡ cs ++ filter is_kept rest
filter-IsChar [] rest h = refl
filter-IsChar (c ∷ cs) rest h =
    ground (arith, normalize_char-IsChar c h.0, filter-IsChar cs rest h.1)

collect_chars-IsChar : (cs : List ℕ) → All IsChar cs → collect_chars cs ≡ some cs
unfolding collect_chars
collect_chars-IsChar [] h = refl
collect_chars-IsChar (c ∷ cs) h =
    ground (arith, normalize_char-IsChar c h.0, collect_chars-IsChar cs h.1)

IsChar-collect_chars : (cs ds : List ℕ) → collect_chars cs ≡ some ds → All IsChar ds
unfolding collect_chars
IsChar-collect_chars [] [] e = tt
IsChar-collect_chars [] (x ∷ xs) e = cc
IsChar-collect_chars (c ∷ cs) [] e = tt
IsChar-collect_chars (c ∷ cs) (x ∷ xs) e =
    ground (arith, IsChar-normalize_char c x, IsChar-collect_chars cs xs)

dash_skipped : is_kept b'-' ≡ false
unfolding is_kept
dash_skipped = refl

-- A code is read back from the text that shows it.
pub from_str-display : (code : InviteCode) → IsCode code → from_str (display code) ≡ ok code
unfolding from_str display
from_str-display code v = ground (
  arith,
  filter-IsChar code.id (b'-' ∷ code.secret) v.id_chars,
  filter-IsChar code.secret [] v.secret_chars,
  append-nil code.secret,
  dash_skipped,
  collect_chars-IsChar (code.id ++ code.secret)
      (All-append IsChar code.id code.secret v.id_chars v.secret_chars),
  length-append code.id code.secret,
  take-append 3 code.id code.secret v.id,
  drop-append 3 code.id code.secret v.id,
)

-- Whatever text is read gives a code: its parts have their lengths and its characters are of the
-- alphabet.
from_str-IsCode : (s : List ℕ) (code : InviteCode) → from_str s ≡ ok code → IsCode code
unfolding from_str
from_str-IsCode s code e = elim (Option-cases (collect_chars (filter is_kept s))) [
  | inl q ↦ ground arith
  | inr (cs, q) ↦ ground (
    arith,
    IsChar-collect_chars (filter is_kept s) cs q,
    length-take 3 cs,
    length-drop 3 cs,
    All-take IsChar 3 cs,
    All-drop IsChar 3 cs,
  )
]

random_table : passes (λ b. elem (get_or alphabet (bit_and b 31) 0) alphabet) 256 ≡ true
unfolding passes_from elem
random_table = refl

encode-IsChar : (bs : List ℕ) → All IsByte bs → All IsChar (encode bs)
unfolding encode
encode-IsChar [] h = tt
encode-IsChar (b ∷ bs) h = (
  passes_at (λ b. elem (get_or alphabet (bit_and b 31) 0) alphabet) 256 random_table b h.0,
  encode-IsChar bs h.1,
)

length-encode : (bs : List ℕ) → length (encode bs) ≡ length bs
unfolding encode
length-encode bs = length-map _ bs

-- Any 8 random bytes give a code.
pub from_random-IsCode :
    (bytes : List ℕ) → length bytes ≡ 8 → All IsByte bytes → IsCode (from_random bytes)
unfolding from_random
from_random-IsCode bytes n h = record {
  id = omega (arith, length-encode (take 3 bytes), length-take 3 bytes);
  secret = omega (arith, length-encode (drop 3 bytes), length-drop 3 bytes);
  id_chars = encode-IsChar (take 3 bytes) (All-take IsByte 3 bytes h);
  secret_chars = encode-IsChar (drop 3 bytes) (All-drop IsByte 3 bytes h);
}

-- ===== src/Proto/Fingerprint/Laws.antt =====
-- A fingerprint is read back from the text that shows it.
use throcc.Prelude.{
  is_ascii_whitespace, ℕ, ◌-◌, ◌*◌, ◌/◌, ◌%◌, ◌≡◌, ◌<◌, ◌≤◌, sym, ◌∙◌, refl, Bool, true, not, List,
  [], ◌∷◌, ◌++◌, Option, none, some, ok, err, length, take, filter, All, arith, Option-cases, inl,
  inr, IsByte,
}
use throcc.Proto.Fingerprint.{
  hex_digit, hex_byte, to_digit, show_pairs, display, short, collect_digits, pair_up, from_digits,
  from_str, parse_fingerprint_error,
}

abbrev is_kept : ℕ → Bool
is_kept c = not (is_ascii_whitespace c)

-- The two digits of each byte, high digit first.
digits : List ℕ → List ℕ
digits [] = []
digits (b ∷ bs) = b / 16 ∷ b % 16 ∷ digits bs

hex_digit_kept :
    (d : ℕ) → d < 16 → (is_kept (hex_digit d) ≡ true) × (to_digit (hex_digit d) ≡ some d)
unfolding hex_digit is_ascii_whitespace to_digit
hex_digit_kept d h = ground arith

-- `from_str` finds the digits `ds` in `s`.
abbrev Reads : List ℕ → List ℕ → Type 0
Reads s ds = collect_digits (filter is_kept s) ≡ some ds

Reads-blank : (s ds : List ℕ) → Reads s ds → Reads (b' ' ∷ s) ds
unfolding is_ascii_whitespace
Reads-blank s ds r = r

Reads-hex_byte :
    (b : ℕ) (s ds : List ℕ) → IsByte b → Reads s ds → Reads (hex_byte b ++ s) (b / 16 ∷ b % 16 ∷ ds)
unfolding hex_byte collect_digits
Reads-hex_byte b s ds h r = ground (arith, hex_digit_kept (b / 16), hex_digit_kept (b % 16))

Reads-show_pairs :
    (n : ℕ) (bytes : List ℕ)
    → length bytes ≡ 2 * n
    → All IsByte bytes
    → Reads (show_pairs bytes) (digits bytes)
unfolding show_pairs digits
Reads-show_pairs n [] e h = unfold collect_digits in refl
Reads-show_pairs n (a ∷ []) e h = absurd (omega arith)
Reads-show_pairs n (a ∷ b ∷ rest) e h = Reads-blank _ _ (
    Reads-hex_byte a _ _ h.0
      (Reads-hex_byte b _ _ h.1.0 (Reads-show_pairs (n - 1) rest (omega arith) h.1.1)))

Reads-display :
    (n : ℕ) (bytes : List ℕ)
    → length bytes ≡ 2 * n
    → All IsByte bytes
    → Reads (display bytes) (digits bytes)
unfolding display digits
Reads-display n [] e h = unfold collect_digits in refl
Reads-display n (a ∷ []) e h = absurd (omega arith)
Reads-display n (a ∷ b ∷ rest) e h =
    Reads-hex_byte a _ _ h.0
      (Reads-hex_byte b _ _ h.1.0 (Reads-show_pairs (n - 1) rest (omega arith) h.1.1))

length-digits : (bytes : List ℕ) → length (digits bytes) ≡ 2 * length bytes
unfolding digits
length-digits [] = omega arith
length-digits (b ∷ bs) = omega (arith, length-digits bs)

pair_up-digits : (bytes : List ℕ) → All IsByte bytes → pair_up (digits bytes) ≡ bytes
unfolding digits pair_up
pair_up-digits [] h = refl
pair_up-digits (b ∷ bs) h = ground (arith, pair_up-digits bs h.1)

-- The 32 bytes of a digest are read back from the text that shows them.
pub from_str-display_bytes :
    (bytes : List ℕ) → length bytes ≡ 32 → All IsByte bytes → from_str (display bytes) ≡ ok bytes
unfolding from_str
from_str-display_bytes bytes n h =
    rw (Reads-display 16 bytes n h) (ground (arith, length-digits bytes, pair_up-digits bytes h))

-- The short form shows the start of the text that shows the whole.
pub short-take : (bytes : List ℕ) → 4 ≤ length bytes → short bytes ≡ take 9 (display bytes)
unfolding short display show_pairs hex_byte
short-take (a ∷ b ∷ c ∷ d ∷ rest) h = refl
short-take _ h = absurd (omega arith)

to_digit-lt : (c d : ℕ) → to_digit c ≡ some d → d < 16
unfolding to_digit
to_digit-lt c d e = ground arith

collect_digits-lt : (cs ds : List ℕ) → collect_digits cs ≡ some ds → All (λ d. d < 16) ds
unfolding collect_digits
collect_digits-lt cs [] e = tt
collect_digits-lt [] (d ∷ ds) e = cc
collect_digits-lt (c ∷ cs) (d ∷ ds) e = ground (arith, to_digit-lt c d, collect_digits-lt cs ds)

IsByte-pair_up :
    (n : ℕ) (ds : List ℕ)
    → length ds ≡ 2 * n
    → All (λ d. d < 16) ds
    → All IsByte (pair_up ds) × (length (pair_up ds) ≡ n)
unfolding pair_up
IsByte-pair_up n [] e h = (tt, omega arith)
IsByte-pair_up n (a ∷ []) e h = absurd (omega arith)
IsByte-pair_up n (a ∷ b ∷ ds) e h = ground (arith, IsByte-pair_up (n - 1) ds)

from_digits_sound :
    (ds bytes : List ℕ)
    → All (λ d. d < 16) ds
    → from_digits ds ≡ ok bytes
    → (length bytes ≡ 32) × All IsByte bytes
unfolding from_digits
from_digits_sound ds bytes h e = ground (arith, IsByte-pair_up 32 ds)

from_str_cases :
    (s : List ℕ) (o : Option (List ℕ))
    → collect_digits (filter is_kept s) ≡ o
    → from_str s ≡ elim o [ none ↦ err parse_fingerprint_error | some ds ↦ from_digits ds ]
unfolding from_str
from_str_cases s none q = rw q
from_str_cases s (some ds) q = rw q

-- Whatever text is read gives 32 bytes.
pub from_str_sound :
    (s bytes : List ℕ) → from_str s ≡ ok bytes → (length bytes ≡ 32) × All IsByte bytes
from_str_sound s bytes e = elim (Option-cases (collect_digits (filter is_kept s))) [
  | inl q ↦ cc (from_str_cases s none q)
  | inr (ds, q) ↦
      from_digits_sound ds bytes (collect_digits-lt (filter is_kept s) ds q)
        (sym (from_str_cases s (some ds) q) ∙ e)
]

-- ===== src/Proto/Invite/Partial.antt =====
-- The code field: `normalize` and `format_partial`.
use throcc.Prelude.{
  append-nil, ℕ, ◌≡◌, ap, ◌∙◌, refl, false, List, [], ◌∷◌, ◌++◌, none, some, ok, take, drop, filter,
  All, All-take, All-drop, arith, Option-cases, inl, inr, length-take, take-append-drop,
  take-eq_of_le,
}
use throcc.Proto.Invite.{
  InviteCode, normalize_char, normalize, collect_chars, is_kept, from_str, display, format_partial,
  elem, insert_dash,
}
use throcc.Proto.Invite.Laws.{IsChar, normalize_char-IsChar, IsChar-normalize_char}

normalize-IsChar :
    (cs rest : List ℕ) → All IsChar cs → normalize (cs ++ rest) ≡ cs ++ normalize rest
unfolding normalize
normalize-IsChar [] rest h = refl
normalize-IsChar (c ∷ cs) rest h =
    ground (arith, normalize_char-IsChar c h.0, normalize-IsChar cs rest h.1)

IsChar-normalize : (s : List ℕ) → All IsChar (normalize s)
unfolding normalize
IsChar-normalize [] = tt
IsChar-normalize (c ∷ cs) = elim (Option-cases (normalize_char c)) [
  | inl q ↦ ground (arith, IsChar-normalize cs)
  | inr (d, q) ↦ ground (arith, IsChar-normalize_char c d q, IsChar-normalize cs)
]

dash_dropped : (cs : List ℕ) → normalize (b'-' ∷ cs) ≡ normalize cs
unfolding normalize normalize_char elem
dash_dropped cs = refl

normalize_self : (cs : List ℕ) → All IsChar cs → normalize cs ≡ cs
normalize_self cs h =
    ground
      (arith, normalize-IsChar cs [] h, append-nil cs, append-nil (normalize cs), normalize_nil)
  where
    normalize_nil : normalize [] ≡ []
    normalize_nil = unfold normalize in refl

normalize-insert_dash : (cs : List ℕ) → All IsChar cs → normalize (insert_dash cs) ≡ cs
unfolding insert_dash
normalize-insert_dash cs h = ground (
  arith,
  normalize_self cs h,
  normalize-IsChar (take 3 cs) (b'-' ∷ drop 3 cs) (All-take IsChar 3 cs h),
  dash_dropped (drop 3 cs),
  normalize_self (drop 3 cs) (All-drop IsChar 3 cs h),
  take-append-drop 3 cs,
)

-- A field's text is formatted once and for all: formatting it again, as each keystroke does,
-- changes nothing.
pub format_partial_idem : (s : List ℕ) → format_partial (format_partial s) ≡ format_partial s
unfolding format_partial
format_partial_idem s =
    ap insert_dash
      (ap (take 8) again ∙ take-eq_of_le 8 kept (omega (arith, length-take 8 (normalize s))))
  where
    kept : List ℕ
    kept = take 8 (normalize s)

    again : normalize (insert_dash kept) ≡ kept
    again = normalize-insert_dash kept (All-take IsChar 8 (normalize s) (IsChar-normalize s))

skipped-none : (c : ℕ) → is_kept c ≡ false → normalize_char c ≡ none
unfolding is_kept normalize_char elem
skipped-none c h = ground arith

normalize-collect_chars :
    (s ds : List ℕ) → collect_chars (filter is_kept s) ≡ some ds → normalize s ≡ ds
unfolding normalize collect_chars
normalize-collect_chars [] ds e = cc
normalize-collect_chars (c ∷ cs) [] e =
    ground (arith, skipped-none c, normalize-collect_chars cs [])
normalize-collect_chars (c ∷ cs) (x ∷ xs) e =
    ground
      (arith, skipped-none c, normalize-collect_chars cs xs, normalize-collect_chars cs (x ∷ xs))

-- Text that is read as a code is formatted, while it is typed, the way that code is shown.
format_partial-from_str :
    (s : List ℕ) (code : InviteCode) → from_str s ≡ ok code → format_partial s ≡ display code
unfolding format_partial from_str insert_dash display
format_partial-from_str s code e = elim (Option-cases (collect_chars (filter is_kept s))) [
  | inl q ↦ ground arith
  | inr (cs, q) ↦ ground (arith, normalize-collect_chars s cs q, take-eq_of_le 8 cs)
]

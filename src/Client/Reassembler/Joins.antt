-- ===== src/Client/Reassembler/Joins.antt =====
-- `join_spans` of media/fragment.rs, span by span.
use throcc.Prelude.{
  ℕ, zero, suc, ◌≤◌, ◌<◌, ◌≡◌, refl, ◌∙◌, inl, inr, Bool, false, [], ◌∷◌, none, arith, Bool-cases,
}
use throcc.Prelude.Map.{Map, get, insert, remove}
use throcc.Client.Reassembler.{map_or, joined_lo}
use throcc.Client.Reassembler.Spans.{
  Runs, span_of_before, span_of_after, span_of_absent, span_of_held,
}

pub get_absent : (b : ℕ → Bool) (lo k : ℕ) (w : Map ℕ) → Runs b lo w → b k ≡ false → get k w ≡ none
unfolding get
get_absent b lo k [] r p = refl
get_absent b lo k ((a, h) ∷ w) r p = ground (arith, r.1, r.3 k, get_absent b (suc h) k w r.5)

pub remove_absent :
    (b : ℕ → Bool) (lo k : ℕ) (w : Map ℕ) → Runs b lo w → b k ≡ false → remove k w ≡ w
unfolding remove
remove_absent b lo k [] r p = refl
remove_absent b lo k ((a, h) ∷ w) r p = ground (arith, r.1, r.3 k, remove_absent b (suc h) k w r.5)

pub remove_below : (b : ℕ → Bool) (lo k : ℕ) (w : Map ℕ) → Runs b lo w → k < lo → remove k w ≡ w
unfolding remove
remove_below b lo k [] r p = refl
remove_below b lo k ((a, h) ∷ w) r p = ground (arith, r.0, r.1, remove_below b (suc h) k w r.5)

pub insert_front :
    (b : ℕ → Bool) (lo k v : ℕ) (w : Map ℕ) → Runs b lo w → k < lo → insert k v w ≡ (k, v) ∷ w
unfolding insert
insert_front b lo k v [] r p = refl
insert_front b lo k v ((a, h) ∷ w) r p = ground (arith, r.0)

pub Runs-agree :
    (b b' : ℕ → Bool) (lo : ℕ) (w : Map ℕ)
    → ((k : ℕ) → lo ≤ k → b' k ≡ b k)
    → Runs b lo w
    → Runs b' lo w
Runs-agree b b' lo [] e r = λ k i. e k i ∙ r k i
Runs-agree b b' lo ((a, h) ∷ w) e r = (
  r.0,
  r.1,
  λ k i j. e k i ∙ r.2 k i j,
  λ k i j. e k (omega (arith, r.0)) ∙ r.3 k i j,
  e (suc h) (omega (arith, r.0, r.1)) ∙ r.4,
  Runs-agree b b' (suc h) w (λ k i. e k (omega (arith, r.0, r.1))) r.5,
)

pub Runs-raise :
    (b : ℕ → Bool) (lo lo' a h : ℕ) (w : Map ℕ)
    → lo ≤ lo'
    → lo' ≤ a
    → Runs b lo ((a, h) ∷ w)
    → Runs b lo' ((a, h) ∷ w)
Runs-raise b lo lo' a h w i j r = (j, r.1, λ k p q. r.2 k (omega arith) q, r.3, r.4, r.5)

pub joined_lo_before : (seq a h : ℕ) (w : Map ℕ) → seq < a → joined_lo seq ((a, h) ∷ w) ≡ seq
unfolding joined_lo
joined_lo_before zero a h w p = refl
joined_lo_before (suc before) a h w p = rw (span_of_before before a h w (omega arith)) refl

joined_lo_lower :
    (b : ℕ → Bool) (lo seq : ℕ) (w : Map ℕ) → Runs b lo w → lo < seq → lo ≤ joined_lo seq w
unfolding joined_lo
joined_lo_lower b lo zero w r p = absurd (omega arith)
joined_lo_lower b lo (suc before) w r p = elim (Bool-cases (b before)) [
  | inl q ↦ let found = span_of_held b lo before w r (omega arith) q in rw found.2 found.3.from_lo
  | inr q ↦ rw (span_of_absent b lo before w r (omega arith) q) (omega arith)
]

-- `join_spans`, but for its test of whether there is a next number.
unfoldable pub joined : ℕ → Map ℕ → Map ℕ
joined seq w =
    insert (joined_lo seq w) (map_or (get (suc seq) w) seq (λ hi. hi)) (remove (suc seq) w)

pub joined_after :
    (b : ℕ → Bool) (lo seq a h : ℕ) (w : Map ℕ)
    → Runs b lo ((a, h) ∷ w)
    → suc h < seq
    → joined seq ((a, h) ∷ w) ≡ (a, h) ∷ joined seq w
unfolding joined joined_lo get remove insert
joined_after b lo zero a h w r p = absurd (omega arith)
joined_after b lo (suc before) a h w r p =
    rw (span_of_after before a h w r.1 (omega arith))
      (ground (arith, joined_lo_lower b (suc h) (suc before) w r.5 p, r.1))

-- ===== src/Client/Fragment/Cut.antt =====
-- What `fragment` of media/fragment.rs cuts, put together again.
use throcc.Prelude.{
  ℕ, zero, suc, ◌/◌, ◌%◌, ◌^◌, ◌≤◌, ◌<◌, ◌≡◌, refl, ap, ap₂, ◌∙◌, bit_or, Bool, true, false, List,
  [], ◌∷◌, ◌++◌, some, length, take, drop, map, arith, take-append-drop, length-drop, if◌then◌else◌,
}
use throcc.Proto.Frame.{Flags, first, with, to_be_bytes, from_be_bytes}
use throcc.Client.Units.{AccessUnit}
use throcc.Client.Reassembler.{Received, bodies, assemble}
use throcc.Client.Fragment.{
  Fragment, plaintext, union, base_flags, cut, mark_last, first_len, fragment,
}

-- A fragment as the reassembler gets it.
abbrev pub received : Fragment → Received
received f = (f.flags, plaintext f)

bodies-cut :
    (fuel : ℕ) (base : Flags) (rest : List ℕ)
    → length rest ≤ fuel
    → bodies (map received (cut fuel base rest)) ≡ rest
unfolding cut bodies plaintext
bodies-cut fuel base [] h = refl
bodies-cut zero base (b ∷ rest) h = absurd (omega arith)
bodies-cut (suc fuel) base (b ∷ rest) h =
    ap (λ x. take 1133 (b ∷ rest) ++ x)
      (bodies-cut fuel base (drop 1133 (b ∷ rest)) (omega (arith, length-drop 1133 (b ∷ rest))))
    ∙ take-append-drop 1133 (b ∷ rest)

bodies-mark_last :
    (fs : List Fragment) → bodies (map received (mark_last fs)) ≡ bodies (map received fs)
unfolding mark_last bodies plaintext
bodies-mark_last [] = refl
bodies-mark_last (f ∷ []) = refl
bodies-mark_last (f ∷ g ∷ rest) = ap (λ x. plaintext f ++ x) (bodies-mark_last (g ∷ rest))

abbrev pub unit_flags : Bool → Flags
unit_flags is_keyframe = record { bits = if is_keyframe then 7 else 6 }

be_bytes :
    (x : ℕ)
    → x < 2 ^ 32
    → from_be_bytes (x / 2 ^ 24 % 256) (x / 2 ^ 16 % 256) (x / 2 ^ 8 % 256) (x % 256) ≡ x
be_bytes x h = omega arith

abbrev made : ℕ → ℕ → ℕ → ℕ → List ℕ → AccessUnit
made s l t bits bytes = record {
  first_seq = s;
  last_seq = l;
  timestamp = t;
  flags = record { bits = bits };
  bytes = bytes;
}

-- What is put together from the first fragment and the rest.
assemble-mark_last :
    (s l t bits : ℕ) (flags : Flags) (head : List ℕ) (rest : List Fragment)
    → t < 2 ^ 32
    → bit_or flags.bits 4 ≡ bits
    → bit_or bits 4 ≡ bits
    → assemble s l (
        map received (
          mark_last
            (record { flags = flags; timestamp = some (to_be_bytes t); body = head } ∷ rest)))
      ≡ some (made s l t bits (head ++ bodies (map received rest)))
unfolding mark_last assemble plaintext bodies
assemble-mark_last s l t bits flags head [] h e i =
    ap₂ (λ x b. some (made s l x b (head ++ []))) (be_bytes t h) (ap (λ b. bit_or b 4) e ∙ i)
assemble-mark_last s l t bits flags head (g ∷ rest) h e i =
    ap₂ (λ x b. some (made s l x b (head ++ bodies (map received (mark_last (g ∷ rest))))))
      (be_bytes t h) e
    ∙ ap (λ b. some (made s l t bits (head ++ b))) (bodies-mark_last (g ∷ rest))

first_bits : (k : Bool) → bit_or (union (base_flags k) first).bits 4 ≡ (unit_flags k).bits
unfolding with
first_bits true = refl
first_bits false = refl

last_bits : (k : Bool) → bit_or (unit_flags k).bits 4 ≡ (unit_flags k).bits
last_bits true = refl
last_bits false = refl

pub assemble-fragment :
    (s l t : ℕ) (unit : List ℕ) (k : Bool)
    → t < 2 ^ 32
    → assemble s l (map received (fragment unit t k))
      ≡ some (record {
        first_seq = s;
        last_seq = l;
        timestamp = t;
        flags = unit_flags k;
        bytes = unit;
      })
unfolding fragment
assemble-fragment s l t unit k h =
    let n = first_len unit in
    assemble-mark_last s l t (unit_flags k).bits (union (base_flags k) first) (take n unit)
      (cut (length (drop n unit)) (base_flags k) (drop n unit)) h (first_bits k) (last_bits k)
    ∙ ap (λ x. some (made s l t (unit_flags k).bits (take n unit ++ x)))
        (bodies-cut (length (drop n unit)) (base_flags k) (drop n unit) (omega arith))
    ∙ ap (λ x. some (made s l t (unit_flags k).bits x)) (take-append-drop n unit)

-- ===== src/Proto/Framing/Laws.antt =====
-- Frames on a stream: what is written is split off again, and never before it is complete.
use throcc.Prelude.{
  ℕ, ap, sym, ◌∙◌, ◌+◌, ◌/◌, ◌%◌, ◌^◌, ◌≤◌, ◌≡◌, refl, inl, inr, List, [], ◌∷◌, ◌++◌, Option, none,
  some, Option-cases, ok, length, take, take-append, drop-append, take-append-drop, length-append,
  length-take, arith,
}
use throcc.Proto.Frame.{to_be_bytes, from_be_bytes}
use throcc.Proto.Framing.{encode, decode, split, max_frame_bytes, len_bytes, split_at_checked}

len_read :
    (n : ℕ)
    → n ≤ max_frame_bytes
    → from_be_bytes (n / 2 ^ 24 % 256) (n / 2 ^ 16 % 256) (n / 2 ^ 8 % 256) (n % 256) ≡ n
len_read n h = omega arith

split-framed :
    (n : ℕ) (rest : List ℕ)
    → n ≤ max_frame_bytes
    → split (to_be_bytes n ++ rest) ≡ ok (split_at_checked rest n)
unfolding split
split-framed n rest h = ground (arith, len_read n)

split_at-append :
    (body rest : List ℕ) → split_at_checked (body ++ rest) (length body) ≡ some (body, rest)
unfolding split_at_checked
split_at-append body rest = ground (
  arith,
  length-append body rest,
  take-append (length body) body rest refl,
  drop-append (length body) body rest refl,
)

split_prefix :
    (n : ℕ) (body front back : List ℕ) (x : ℕ)
    → n ≤ max_frame_bytes
    → length body ≡ n
    → front ++ x ∷ back ≡ to_be_bytes n ++ body
    → split front ≡ ok none
unfolding split
split_prefix n body (a ∷ b ∷ c ∷ d ∷ r) back x fits len e =
    ground (arith, len_read n fits, ap length e, length-append r (x ∷ back))
split_prefix n body _ back x fits len e = refl

module _ {ℓ} {T : Type ℓ} (to_extend : T → Option (List ℕ)) where
  -- What a successful `encode` wrote: a body of at most a MiB behind its length.
  encode-eq_ok :
      (m : T) (frame : List ℕ)
      → encode to_extend m ≡ ok frame
      → (body : List ℕ) × (to_extend m ≡ some body)
        × (length body ≤ max_frame_bytes)
        × (frame ≡ to_be_bytes (length body) ++ body)
  unfolding encode
  encode-eq_ok m frame e = elim (Option-cases (to_extend m)) [
    | inl q ↦ ground arith
    | inr (body, q) ↦ (body, q, ground arith, ground arith)
  ]

  decode_read :
      (take_from_bytes : List ℕ → Option (T × List ℕ)) (m : T) (body : List ℕ)
      → take_from_bytes body ≡ some (m, [])
      → decode take_from_bytes body ≡ ok m
  unfolding decode
  decode_read take_from_bytes m body e = rw (e, decode)

  -- A frame that `encode` wrote splits off whole, in front of whatever follows it on the stream.
  -- The body is what `postcard` wrote, and it decodes to the message if `postcard` reads back
  -- what it wrote.
  pub decode-split-encode :
      (take_from_bytes : List ℕ → Option (T × List ℕ)) (m : T) (frame rest : List ℕ)
      → ((x : T) (body : List ℕ) → to_extend x ≡ some body → take_from_bytes body ≡ some (x, []))
      → encode to_extend m ≡ ok frame
      → (body : List ℕ) × (split (frame ++ rest) ≡ ok (some (body, rest)))
        × (decode take_from_bytes body ≡ ok m)
  decode-split-encode take_from_bytes m frame rest reads e =
      let (body, q, fits, shape) = encode-eq_ok m frame e in
      (
        body,
        rw (shape, split-framed (length body) (body ++ rest) fits)
            (ap ok (split_at-append body rest)),
        decode_read take_from_bytes m body (reads m body q),
      )

  -- A proper prefix of a frame is no error and no message: the reader waits for more.
  split_incomplete :
      (m : T) (frame front back : List ℕ) (x : ℕ)
      → encode to_extend m ≡ ok frame
      → frame ≡ front ++ x ∷ back
      → split front ≡ ok none
  split_incomplete m frame front back x e cut =
      let (body, q, fits, shape) = encode-eq_ok m frame e in
      split_prefix (length body) body front back x fits refl (sym cut ∙ shape)

-- What `split` returns is in the buffer, in order, with a body of at most a MiB behind a length
-- that states it.
pub split_sound :
    (buf body rest : List ℕ)
    → split buf ≡ ok (some (body, rest))
    → (length body ≤ max_frame_bytes)
      × (take len_bytes buf ++ body ++ rest ≡ buf)
      × (length body + length rest + len_bytes ≡ length buf)
unfolding split
split_sound (a ∷ b ∷ c ∷ d ∷ r) body rest e = ground (
  arith,
  take-append-drop (from_be_bytes a b c d) r,
  length-take (from_be_bytes a b c d) r,
  length-append body rest,
)
split_sound _ body rest e = cc

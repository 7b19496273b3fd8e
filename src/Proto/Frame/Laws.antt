-- ===== src/Proto/Frame/Laws.antt =====
-- The header's layout: round trips, the two readers and the nonce.
use throcc.Prelude.{
  ℕ, ◌/◌, ◌%◌, ◌^◌, ◌<◌, bit_and, ◌≡◌, refl, ◌↔◌, true, not, ◌&&◌, ◌||◌, List, [], ◌∷◌, ◌++◌, ok,
  err, ltb, leb, ◌==◌, if◌then◌else◌, take, arith, inl, inr, Result-cases, ◌∙◌, passes_from, passes,
  passes_at, IsByte, All, length,
}
use throcc.Proto.Frame.{
  Flags, Header, short, reserved_flags, has_reserved, encode, parse, parse_strict, nonce,
  to_be_bytes, from_be_bytes, header_bytes,
}

-- The fields fit their Rust types.
pub record IsHeader (h : Header) : Type 0 where
  pub media_id : h.media_id < 2 ^ 32
  pub epoch : h.epoch < 2 ^ 32
  pub seq : h.seq < 2 ^ 32
  pub flags : IsByte h.flags.bits

be_bytes :
    (x : ℕ)
    → x < 2 ^ 32
    → from_be_bytes (x / 2 ^ 24 % 256) (x / 2 ^ 16 % 256) (x / 2 ^ 8 % 256) (x % 256) ≡ x
be_bytes x h = omega arith

-- Whatever follows the encoding of a header whose fields fit their types, `parse` reads back
-- every field.
pub parse-encode : (h : Header) (rest : List ℕ) → IsHeader h → parse (encode h ++ rest) ≡ ok h
unfolding parse encode
parse-encode h rest v = ground (arith, be_bytes h.media_id, be_bytes h.epoch, be_bytes h.seq)

reserved_table :
    passes (λ x. ((not (bit_and x 248 == 0)) && ltb 7 x) || (bit_and x 248 == 0) && leb x 7) 256
    ≡ true
unfolding passes_from
reserved_table = refl

has_reserved-leb : (f : Flags) → IsByte f.bits → has_reserved f ≡ ltb 7 f.bits
unfolding has_reserved
has_reserved-leb f h = ground (arith, passes_at _ 256 reserved_table f.bits h)

-- On every input that holds a header, followed by anything, the strict reader gives that header
-- if its flags are below 8, and refuses it for its reserved bits if they are not.
pub parse_strict-encode :
    (h : Header) (rest : List ℕ)
    → IsHeader h
    → parse_strict (encode h ++ rest) ≡ (if leb h.flags.bits 7 then ok h else err reserved_flags)
unfolding parse_strict
parse_strict-encode h rest v =
    ground (arith, parse-encode h rest v, has_reserved-leb h.flags v.flags)

-- The strict reader gives what the other one gives.
pub parse_strict-parse : (d : List ℕ) (h : Header) → parse_strict d ≡ ok h → parse d ≡ ok h
unfolding parse_strict
parse_strict-parse d h e = elim (Result-cases (parse d)) [
  | inl p ↦ p.1 ∙ ground (arith, e, p.1)
  | inr p ↦ absurd (ground (arith, e, p.1))
]

word_bound : (a b c d : ℕ) → a < 256 → b < 256 → c < 256 → d < 256 → from_be_bytes a b c d < 2 ^ 32
word_bound a b c d p q r s = omega arith

bytes_word :
    (a b c d : ℕ)
    → a < 256
    → b < 256
    → c < 256
    → d < 256
    → to_be_bytes (from_be_bytes a b c d) ≡ a ∷ b ∷ c ∷ d ∷ []
bytes_word a b c d p q r s = ground arith

-- A successful `parse` of bytes gives fields in range, which encode to the first 13 of them.
pub encode-parse :
    (d : List ℕ) (h : Header)
    → All IsByte d
    → parse d ≡ ok h
    → IsHeader h × (encode h ≡ take header_bytes d)
unfolding parse encode
encode-parse (a ∷ b ∷ c ∷ d ∷ e ∷ f ∷ g ∷ h ∷ i ∷ j ∷ k ∷ l ∷ m ∷ r) x v p = ground (
  arith,
  word_bound a b c d,
  word_bound e f g h,
  word_bound i j k l,
  bytes_word a b c d,
  bytes_word e f g h,
  bytes_word i j k l,
)
encode-parse _ h v p = cc

be_bytes-injective : (x y : ℕ) → x < 2 ^ 32 → y < 2 ^ 32 → to_be_bytes x ≡ to_be_bytes y → x ≡ y
be_bytes-injective x y p q e = ground arith

-- Two headers whose fields fit their types and that have one nonce agree in the track, the epoch
-- and the sequence number.
pub nonce-injective :
    (h g : Header)
    → IsHeader h
    → IsHeader g
    → nonce h ≡ nonce g
    → (h.media_id ≡ g.media_id) × (h.epoch ≡ g.epoch) × (h.seq ≡ g.seq)
unfolding nonce encode
nonce-injective h g v w e = ground arith

-- Reading fails exactly on inputs shorter than a header.
pub parse-short : (d : List ℕ) → (parse d ≡ err short) ↔ (length d < header_bytes)
unfolding parse
parse-short (a ∷ b ∷ c ∷ d ∷ e ∷ f ∷ g ∷ h ∷ i ∷ j ∷ k ∷ l ∷ m ∷ r) =
    (λ e. cc, λ h. absurd (omega arith))
parse-short _ = (λ e. omega arith, λ h. refl)

-- ===== src/Crypto/Media/Laws.antt =====
-- What is sealed is opened, and what is opened was sealed: crates/throcc-crypto/src/media.rs.
use throcc.Prelude.{
  ℕ, zero, suc, ◌+◌, ◌≤◌, ◌≡◌, refl, sym, ap, ap₂, subst, ◌∙◌, inl, inr, true, false, List, [], ◌∷◌,
  ◌++◌, some, ok, ltb, leb, length, take, drop, arith, Bool-cases, Option-cases, Result-cases, All,
  IsByte, length-append, take-append, drop-append, take-append-drop, append_assoc, append-nil,
  length-take, length-drop,
}
use throcc.Proto.Frame.{
  Header, encode, parse_strict, nonce, header_bytes, tag_bytes, body_bytes, datagram_payload_floor,
}
use throcc.Proto.Frame.Laws.{IsHeader, parse_strict-encode, parse_strict-parse, encode-parse}
use throcc.Crypto.Media.{Cipher, concat, sealed, seal, tag_at, opened, open_datagram}

-- What AES-GCM promises: decryption inverts encryption, succeeds only on what encryption gives, and
-- a body keeps its length and has a tag of 16 bytes.
pub record IsCipher (c : Cipher) : Type 0 where
  pub decrypts :
      (key : ℕ) (n aad body out tag : List ℕ)
      → c.encrypt key n aad body ≡ some (out, tag)
      → c.decrypt key n aad out tag ≡ some body
  pub encrypts :
      (key : ℕ) (n aad body out tag : List ℕ)
      → c.decrypt key n aad out tag ≡ some body
      → length tag ≡ tag_bytes
      → c.encrypt key n aad body ≡ some (out, tag)
  pub sized :
      (key : ℕ) (n aad body out tag : List ℕ)
      → c.encrypt key n aad body ≡ some (out, tag)
      → (length out ≡ length body) × (length tag ≡ tag_bytes)

length-encode : (h : Header) → length (encode h) ≡ header_bytes
unfolding encode
length-encode h = refl

module _ (c : Cipher) (is_cipher : IsCipher c) (key : ℕ) where
  open_datagram-sealed :
      (h : Header) (body out tag : List ℕ)
      → IsHeader h
      → leb h.flags.bits 7 ≡ true
      → c.encrypt key (nonce h) (encode h) body ≡ some (out, tag)
      → open_datagram c key (sealed h (out, tag)) ≡ ok (h, body)
  unfolding open_datagram
  open_datagram-sealed h body out tag v f e =
      let size = is_cipher.sized key (nonce h) (encode h) body out tag e in
      let front : length (encode h ++ out) ≡ header_bytes + length out =
        length-append (encode h) out ∙ rw (length-encode h) refl in
      let whole : length (sealed h (out, tag)) ≡ (header_bytes + length out) + tag_bytes =
        length-append (encode h ++ out) tag ∙ rw (front, size.1) refl in
      let at : tag_at (length (sealed h (out, tag))) ≡ some (header_bytes + length out) =
        ground (arith, whole) in
      let header : parse_strict (sealed h (out, tag)) ≡ ok h =
        rw (append_assoc (encode h) out tag) (parse_strict-encode h (out ++ tag) v ∙ rw f refl) in
      let inner : opened c key h (encode h ++ out) tag ≡ some body =
        ap₂ (λ aad b. c.decrypt key (nonce h) aad b tag)
          (take-append header_bytes (encode h) out (length-encode h))
          (drop-append header_bytes (encode h) out (length-encode h))
        ∙ is_cipher.decrypts key (nonce h) (encode h) body out tag e in
      rw header (
        rw at (
          rw
            (
              take-append (header_bytes + length out) (encode h ++ out) tag front,
              drop-append (header_bytes + length out) (encode h ++ out) tag front,
            )
            (rw inner refl)))

  -- A datagram that is sealed under a header, whose fields fit their types and whose flags are
  -- defined ones, opens under the same key to that header and to the parts put together; and it
  -- has at most 1162 bytes.
  pub open_datagram-seal :
      (h : Header) (parts : List (List ℕ)) (d : List ℕ)
      → IsHeader h
      → leb h.flags.bits 7 ≡ true
      → seal c key h parts ≡ ok d
      → (open_datagram c key d ≡ ok (h, concat parts)) × (length d ≤ datagram_payload_floor)
  unfolding seal
  open_datagram-seal h parts d v f e = elim (Bool-cases (ltb body_bytes (length (concat parts)))) [
    | inl long ↦ absurd (ground (arith, e, long))
    | inr long ↦ elim (Option-cases (c.encrypt key (nonce h) (encode h) (concat parts))) [
      | inl n ↦ absurd (ground (arith, e, long, n))
      | inr out ↦
          let same : sealed h out.0 ≡ d = ground (arith, e, long, out.1) in
          let size =
            is_cipher.sized key (nonce h) (encode h) (concat parts) out.0.0 out.0.1 out.1 in
          let whole : length (sealed h out.0) ≡ (header_bytes + length out.0.0) + length out.0.1 =
            length-append (encode h ++ out.0.0) out.0.1
            ∙ ap (λ n. n + length out.0.1)
                (length-append (encode h) out.0.0
                  ∙ ap (λ n. n + length out.0.0) (length-encode h)) in
          (
            ap (open_datagram c key) (sym same)
                ∙ open_datagram-sealed h (concat parts) out.0.0 out.0.1 v f out.1,
            ground (arith, ap length same, whole, size, long),
          )
    ]
  ]

take-take : {A : Type 0} (n m : ℕ) (xs : List A) → n ≤ m → take n (take m xs) ≡ take n xs
take-take zero m xs l = refl
take-take (suc n) zero xs l = absurd (omega (arith, l))
take-take (suc n) (suc m) [] l = refl
take-take (suc n) (suc m) (x ∷ xs) l = ap (λ r. x ∷ r) (take-take n m xs (omega (arith, l)))

module _ (c : Cipher) (is_cipher : IsCipher c) (key : ℕ) where
  seal-opened :
      (d : List ℕ) (h : Header) (body : List ℕ) (at : ℕ)
      → encode h ≡ take header_bytes d
      → length d ≤ datagram_payload_floor
      → tag_at (length d) ≡ some at
      → opened c key h (take at d) (drop at d) ≡ some body
      → seal c key h (body ∷ []) ≡ ok d
  unfolding seal
  seal-opened d h body at front short t o =
      let place : (at + tag_bytes ≡ length d) × (header_bytes ≤ at) =
        (ground (arith, t), ground (arith, t)) in
      let aad : encode h ≡ take header_bytes (take at d) =
        front ∙ sym (take-take header_bytes at d place.1) in
      let tag : length (drop at d) ≡ tag_bytes = length-drop at d ∙ omega (arith, place.0) in
      let enc : c.encrypt key (nonce h) (encode h) body
          ≡ some (drop header_bytes (take at d), drop at d) =
        ap (λ a. c.encrypt key (nonce h) a body) aad
        ∙ is_cipher.encrypts key (nonce h) (take header_bytes (take at d)) body
            (drop header_bytes (take at d)) (drop at d) o tag in
      let size =
        is_cipher.sized key (nonce h) (encode h) body (drop header_bytes (take at d)) (drop at d)
          enc in
      let fits : ltb body_bytes (length body) ≡ false =
        ground
          (arith, short, size, place, length-drop header_bytes (take at d), length-take at d) in
      let whole : sealed h (drop header_bytes (take at d), drop at d) ≡ d =
        ap (λ a. (a ++ drop header_bytes (take at d)) ++ drop at d) aad
        ∙ (ap (λ a. a ++ drop at d) (take-append-drop header_bytes (take at d))
            ∙ take-append-drop at d) in
      rw (append-nil body) (rw fits (rw enc (ap ok whole)))

  -- The bytes of a datagram of at most 1162 bytes that open under a key to a header and a
  -- plaintext are what that header and plaintext are sealed to under the key.
  pub seal-open_datagram :
      (d : List ℕ) (h : Header) (body : List ℕ)
      → All IsByte d
      → length d ≤ datagram_payload_floor
      → open_datagram c key d ≡ ok (h, body)
      → seal c key h (body ∷ []) ≡ ok d
  unfolding open_datagram seal
  seal-open_datagram d h body bytes short e = elim (Result-cases (parse_strict d)) [
    | inr p ↦ absurd (ground (arith, e, p.1))
    | inl p ↦ elim (Option-cases (tag_at (length d))) [
      | inl t ↦ absurd (ground (arith, e, p.1, t))
      | inr t ↦ elim (Option-cases (opened c key p.0 (take t.0 d) (drop t.0 d))) [
        | inl o ↦ absurd (ground (arith, e, p.1, t.1, o))
        | inr o ↦
            let header : p.0 ≡ h = ground (arith, e, p.1, t.1, o.1) in
            let plain : o.0 ≡ body = ground (arith, e, p.1, t.1, o.1) in
            let parsed = encode-parse d p.0 bytes (parse_strict-parse d p.0 p.1) in
            subst (λ i. seal c key i (body ∷ []) ≡ ok d) header
              (seal-opened d p.0 body t.0 parsed.1 short t.1 (o.1 ∙ ap some plain))
      ]
    ]
  ]

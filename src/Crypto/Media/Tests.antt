-- ===== src/Crypto/Media/Tests.antt =====
-- Runs of the model of crates/throcc-crypto/src/media.rs, and the theorems at concrete inputs. The toy
-- cipher leaves the body as it is, with a sum for the tag.
use throcc.Prelude.{
  ℕ, ◌+◌, ◌≤◌, ◌≡◌, refl, sym, ap, ap₂, Bool, true, false, ◌&&◌, List, [], ◌∷◌, none, some, ok, err,
  ◌==◌, ==_iff, ==-refl, length, take, drop, if◌then◌else◌, arith,
}
use throcc.Proto.Frame.{
  Header, encode, parse, parse_strict, nonce, has_reserved, datagram_payload_floor,
}
use throcc.Proto.Frame.Laws.{IsHeader}
use throcc.Crypto.Media.{Cipher, too_short, not_authentic, concat, seal, open_datagram}
use throcc.Crypto.Media.Laws.{IsCipher, open_datagram-seal, seal-open_datagram}

abbrev same : List ℕ → List ℕ → Bool
same [] [] = true
same (x ∷ xs) (y ∷ ys) = (x == y) && same xs ys
same _ _ = false

same_refl : (xs : List ℕ) → same xs xs ≡ true
same_refl [] = refl
same_refl (x ∷ xs) = ground (arith, ==-refl x, same_refl xs)

same-eq : (xs ys : List ℕ) → same xs ys ≡ true → xs ≡ ys
same-eq [] [] e = refl
same-eq (x ∷ xs) (y ∷ ys) e =
    ap₂ (λ a b. a ∷ b) ((==_iff x y).0 (ground (arith, e))) (same-eq xs ys (ground (arith, e)))
same-eq [] (y ∷ ys) e = absurd (ground (arith, e))
same-eq (x ∷ xs) [] e = absurd (ground (arith, e))

abbrev sum : List ℕ → ℕ
sum [] = 0
sum (x ∷ xs) = x + sum xs

abbrev toy_tag : (key : ℕ) → (nonce aad body : List ℕ) → List ℕ
toy_tag key nonce aad body =
    key ∷ sum nonce ∷ sum aad ∷ sum body ∷ 0 ∷ 0 ∷ 0 ∷ 0 ∷ 0 ∷ 0 ∷ 0 ∷ 0 ∷ 0 ∷ 0 ∷ 0 ∷ 0 ∷ []

abbrev toy : Cipher
toy = record {
  encrypt = λ key nonce aad body. some (body, toy_tag key nonce aad body);
  decrypt =
      λ key nonce aad body tag. if same tag (toy_tag key nonce aad body) then some body else none;
}

toy-IsCipher : IsCipher toy
toy-IsCipher = record {
  decrypts = λ key n aad body out tag e.
      let b : body ≡ out = ground (arith, e) in
      let t : toy_tag key n aad body ≡ tag = ground (arith, e) in
      rw (sym t, sym b) (rw (same_refl (toy_tag key n aad body)) refl);
  encrypts = λ key n aad body out tag e l. ground (arith, e, same-eq tag (toy_tag key n aad out));
  sized = λ key n aad body out tag e.
      let b : body ≡ out = ground (arith, e) in
      let t : toy_tag key n aad body ≡ tag = ground (arith, e) in
      (ap length (sym b), ap length (sym t));
}

abbrev header : Header
header = record { media_id = 7; epoch = 3; seq = 9; flags = record { bits = 6 } }

header-IsHeader : IsHeader header
header-IsHeader = record {
  media_id = omega arith;
  epoch = omega arith;
  seq = omega arith;
  flags = omega arith;
}

-- What `header` and the bytes 1, 2 and 3 are sealed to with key 5.
abbrev datagram : List ℕ
datagram =
    0
    ∷ 0
    ∷ 0
    ∷ 7
    ∷ 0
    ∷ 0
    ∷ 0
    ∷ 3
    ∷ 0
    ∷ 0
    ∷ 0
    ∷ 9
    ∷ 6
    ∷ 1
    ∷ 2
    ∷ 3
    ∷ toy_tag 5 (7 ∷ 3 ∷ 9 ∷ []) (25 ∷ []) (6 ∷ [])

seals : seal toy 5 header ((1 ∷ []) ∷ (2 ∷ 3 ∷ []) ∷ []) ≡ ok datagram
unfolding seal encode nonce
seals = refl

-- Another header, another key and a datagram that is too short.
refuses :
    (open_datagram toy 5 (0 ∷ 0 ∷ 0 ∷ 8 ∷ drop 4 datagram) ≡ err not_authentic)
    × (open_datagram toy 6 datagram ≡ err not_authentic)
    × (open_datagram toy 5 (take 28 datagram) ≡ err too_short)
unfolding open_datagram parse_strict parse has_reserved nonce encode
refuses = (refl, refl, refl)

opens : open_datagram toy 5 datagram ≡ ok (header, 1 ∷ 2 ∷ 3 ∷ [])
unfolding open_datagram parse_strict parse has_reserved nonce encode
opens = refl

open_datagram-seal_example :
    (open_datagram toy 5 datagram ≡ ok (header, concat ((1 ∷ []) ∷ (2 ∷ 3 ∷ []) ∷ [])))
    × (length datagram ≤ datagram_payload_floor)
open_datagram-seal_example =
    open_datagram-seal toy toy-IsCipher 5 header ((1 ∷ []) ∷ (2 ∷ 3 ∷ []) ∷ []) datagram
      header-IsHeader refl seals

seal-open_datagram_example : seal toy 5 header ((1 ∷ 2 ∷ 3 ∷ []) ∷ []) ≡ ok datagram
seal-open_datagram_example =
    seal-open_datagram toy toy-IsCipher 5 datagram header (1 ∷ 2 ∷ 3 ∷ []) (ground arith)
      (omega arith) opens

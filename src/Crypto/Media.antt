-- ===== src/Crypto/Media.antt =====
-- `TrackKey` of crates/throcc-crypto/src/media.rs: sealing and opening a datagram. The cipher of the
-- crate aes-gcm is a parameter; keys are numbers. What is left in the output of a `seal` that fails is not
-- modelled.
pub mod Laws
mod Tests
use throcc.Prelude.{
  ℕ, ◌-◌, List, [], ◌∷◌, ◌++◌, Option, none, some, Result, ok, err, ltb, leb, length, take, drop,
  if◌then◌else◌, ok_or, ◌>>=◌,
}
use throcc.Proto.Frame.{
  Header, HeaderError, encode, parse_strict, nonce, header_bytes, tag_bytes, body_bytes,
}

-- Encryption under a key, a nonce and associated data, which gives the body and the tag apart, and
-- its inverse.
pub record Cipher : Type 0 where
  pub encrypt : (key : ℕ) → (nonce aad body : List ℕ) → Option (List ℕ × List ℕ)
  pub decrypt : (key : ℕ) → (nonce aad body tag : List ℕ) → Option (List ℕ)

pub data MediaError : Type 0 where
  header_error : HeaderError → MediaError
  too_long : ℕ → MediaError
  not_sealed too_short not_authentic : MediaError

abbrev pub concat : List (List ℕ) → List ℕ
concat [] = []
concat (part ∷ parts) = part ++ concat parts

abbrev pub sealed : Header → List ℕ × List ℕ → List ℕ
sealed h (body, tag) = (encode h ++ body) ++ tag

pub seal : Cipher → (key : ℕ) → Header → List (List ℕ) → Result MediaError (List ℕ)
seal c key h parts =
    if ltb body_bytes (length (concat parts))
    then err (too_long (length (concat parts)))
    else ok_or (c.encrypt key (nonce h) (encode h) (concat parts)) not_sealed >>= λ out.
        ok (sealed h out)

abbrev header_result : Result HeaderError Header → Result MediaError Header
header_result (ok h) = ok h
header_result (err e) = err (header_error e)

-- Where the tag begins.
abbrev pub tag_at : ℕ → Option ℕ
tag_at len =
    if ltb len tag_bytes
    then none
    else if leb header_bytes (len - tag_bytes)
    then some (len - tag_bytes)
    else none

abbrev pub opened : Cipher → (key : ℕ) → Header → (sealed tag : List ℕ) → Option (List ℕ)
opened c key h sealed tag =
    c.decrypt key (nonce h) (take header_bytes sealed) (drop header_bytes sealed) tag

pub open_datagram : Cipher → (key : ℕ) → List ℕ → Result MediaError (Header × List ℕ)
open_datagram c key datagram = header_result (parse_strict datagram) >>= λ h.
    ok_or (tag_at (length datagram)) too_short >>= λ at.
    ok_or (opened c key h (take at datagram) (drop at datagram)) not_authentic >>= λ body.
    ok (h, body)

-- ===== src/Proto/Framing/Tests.antt =====
-- Frames of a message that is its own bytes, as a coding that takes all it is given.
use throcc.Prelude.{ℕ, ◌≡◌, refl, List, [], ◌∷◌, ◌++◌, Option, some, ok, err, arith}
use throcc.Proto.Framing.{encode, decode, split, too_large}
use throcc.Proto.Framing.Laws.{decode-split-encode}

abbrev to_extend : List ℕ → Option (List ℕ)
to_extend bytes = some bytes

abbrev take_all : List ℕ → Option (List ℕ × List ℕ)
take_all bytes = some (bytes, [])

abbrev message : List ℕ
message = 7 ∷ 8 ∷ []

abbrev frame : List ℕ
frame = 0 ∷ 0 ∷ 0 ∷ 2 ∷ 7 ∷ 8 ∷ []

frames_message : encode to_extend message ≡ ok frame
unfolding encode
frames_message = refl

splits_frame : split (frame ++ 9 ∷ []) ≡ ok (some (message, 9 ∷ []))
unfolding split
splits_frame = refl

refuses_header : split (255 ∷ 255 ∷ 255 ∷ 255 ∷ []) ≡ err (too_large 0xffffffff)
unfolding split
refuses_header = refl

decode-split-encode_example :
    (body : List ℕ) × (split (frame ++ 9 ∷ []) ≡ ok (some (body, 9 ∷ [])))
    × (decode take_all body ≡ ok message)
decode-split-encode_example =
    decode-split-encode to_extend take_all message frame (9 ∷ []) (λ x body e. ground arith)
      frames_message

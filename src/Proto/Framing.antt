-- ===== src/Proto/Framing.antt =====
-- crates/throcc-proto/src/framing.rs: a control-stream frame is a big-endian u32 length and a
-- body. The body's coding is the crate postcard's: `to_extend` and `take_from_bytes` stand for
-- its `to_extend` (which appends) and `take_from_bytes`.
mod Laws
mod Tests
use throcc.Prelude.{
  ℕ, ◌^◌, List, [], ◌∷◌, ◌++◌, Option, none, some, Result, ok, err, ltb, leb, if◌then◌else◌, length,
  take, drop, ◌>>=◌,
}
use throcc.Proto.Frame.{to_be_bytes, from_be_bytes}

abbrev pub max_frame_bytes : ℕ
max_frame_bytes = 2 ^ 20

abbrev pub len_bytes : ℕ
len_bytes = 4

pub data FrameError : Type 0 where
  too_large : ℕ → FrameError
  malformed : FrameError
  trailing : ℕ → FrameError

framed : List ℕ → Result FrameError (List ℕ)
framed body =
    if ltb max_frame_bytes (length body)
    then err (too_large (length body))
    else ok (to_be_bytes (length body) ++ body)

pub encode {ℓ} : {T : Type ℓ} → (T → Option (List ℕ)) → T → Result FrameError (List ℕ)
unfolding framed
encode to_extend message = elim (to_extend message) [
  | none ↦ err malformed
  | some body ↦ framed body
]

pub body_len : ℕ → ℕ → ℕ → ℕ → Result FrameError ℕ
body_len a b c d =
    let len = from_be_bytes a b c d in
    if ltb max_frame_bytes len then err (too_large len) else ok len

check_rest {ℓ} : {T : Type ℓ} → T → List ℕ → Result FrameError T
check_rest message [] = ok message
check_rest message (b ∷ rest) = err (trailing (length (b ∷ rest)))

pub decode {ℓ} : {T : Type ℓ} → (List ℕ → Option (T × List ℕ)) → List ℕ → Result FrameError T
unfolding check_rest
decode take_from_bytes body = elim (take_from_bytes body) [
  | none ↦ err malformed
  | some (message, rest) ↦ check_rest message rest
]

-- `split_at_checked` of a slice.
split_at_checked : List ℕ → ℕ → Option (List ℕ × List ℕ)
split_at_checked xs n = if leb n (length xs) then some (take n xs, drop n xs) else none

-- The body of the first frame and what follows it; `none` while the frame is incomplete.
pub split : List ℕ → Result FrameError (Option (List ℕ × List ℕ))
unfolding body_len split_at_checked
split (a ∷ b ∷ c ∷ d ∷ rest) = do len ← body_len a b c d; ok (split_at_checked rest len)
split _ = ok none

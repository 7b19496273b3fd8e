-- ===== src/Client/Reassembler.antt =====
-- `Reassembler` of crates/throcc-client-core/src/media/fragment.rs: units from fragments that
-- arrive in any order. A BTreeMap or BTreeSet is a list in the order of its keys.
mod Spans
mod Joins
mod Inserted
mod Cuts
mod Ranges
mod Forgets
pub mod Kept
mod Buffer
mod Cap
pub mod Reached
pub mod Emits
pub mod Pushed
mod Tests
mod Delivery
pub mod Partial
use throcc.Prelude.{
  ℕ, zero, suc, ◌+◌, ◌-◌, ◌*◌, ◌^◌, min, max, bit_or, Bool, true, false, not, ◌&&◌, List, [], ◌∷◌,
  ◌++◌, Option, none, some, ltb, leb, length, if◌then◌else◌,
}
use throcc.Prelude.Map.{Map, Set, get, contains_key, insert, remove}
use throcc.Proto.Frame.{Flags, contains, from_be_bytes}
use throcc.Proto.Frame as Frame
use throcc.Client.Units.{AccessUnit}

abbrev pub most_buffered : ℕ
most_buffered = 4096

abbrev pub buffered_units : ℕ
buffered_units = 64

abbrev pub Received : Type 0
Received = Flags × List ℕ

pub record Reassembler : Type 0 where
  pub max_fragments : ℕ
  pub max_buffered : ℕ
  pub fragments : Map Received
  pub firsts : Set
  pub lasts : Set
  pub spans : Map ℕ

pub new : ℕ → Reassembler
new max_fragments = record {
  max_fragments = min (max max_fragments 1) (2 ^ 32 - 1);
  max_buffered = min most_buffered (min (max max_fragments 1 * buffered_units) (2 ^ 64 - 1));
  fragments = [];
  firsts = [];
  lasts = [];
  spans = [];
}

abbrev pub map_or {ℓ κ} : {A : Type ℓ} {B : Type κ} → Option A → B → (A → B) → B
map_or none b f = b
map_or (some a) b f = f a

-- `range(..=k).next_back()`.
pub last_upto {ℓ} : {V : Type ℓ} → ℕ → Map V → Option (ℕ × V)
last_upto k [] = none
last_upto k ((j, v) ∷ m) =
    let rest = last_upto k m in if leb j k then some (map_or rest (j, v) (λ e. e)) else none

-- `range(lo..=hi).next()`.
pub first_in : ℕ → ℕ → Set → Option ℕ
first_in lo hi [] = none
first_in lo hi ((j, _) ∷ s) =
    let rest = first_in lo hi s in if leb lo j then if leb j hi then some j else none else rest

-- `range(lo..=hi).next_back()`.
pub last_in : ℕ → ℕ → Set → Option ℕ
last_in lo hi s = map_or (last_upto hi s) none (λ e. if leb lo e.0 then some e.0 else none)

pub span_of : ℕ → Map ℕ → Option (ℕ × ℕ)
span_of seq spans = map_or (last_upto seq spans) none (λ e. if leb seq e.1 then some e else none)

-- The start of the span that ends before `seq`, or `seq` itself.
pub joined_lo : ℕ → Map ℕ → ℕ
joined_lo zero spans = 0
joined_lo (suc before) spans = map_or (span_of before spans) (suc before) (λ e. e.0)

pub join_spans : ℕ → Map ℕ → Map ℕ
join_spans seq spans =
    if ltb (suc seq) (2 ^ 32)
    then insert (joined_lo seq spans) (map_or (get (suc seq) spans) seq (λ hi. hi))
        (remove (suc seq) spans)
    else insert (joined_lo seq spans) seq spans

abbrev pub put_flag : Bool → ℕ → Set → Set
put_flag true seq set = insert seq tt set
put_flag false seq set = remove seq set

pub insert_fragment : ℕ → Flags → List ℕ → Reassembler → Reassembler
insert_fragment seq flags plaintext r = record r {
  fragments = insert seq (flags, plaintext) r.fragments;
  spans = if contains_key seq r.fragments then r.spans else join_spans seq r.spans;
  firsts = put_flag (contains flags Frame.first) seq r.firsts;
  lasts = put_flag (contains flags Frame.last) seq r.lasts;
}

-- `for seq in first..=last`, as a number of rounds.
abbrev pub rounds : ℕ → ℕ → ℕ
rounds first last = suc last - first

pub remove_range {ℓ} : {V : Type ℓ} → ℕ → ℕ → Map V → Map V
remove_range seq zero m = m
remove_range seq (suc n) m = remove_range (suc seq) n (remove seq m)

pub cut_left : ℕ → ℕ → Map ℕ → Map ℕ
cut_left lo first spans = if ltb lo first then insert lo (first - 1) spans else spans

pub cut_right : ℕ → ℕ → Map ℕ → Map ℕ
cut_right last hi spans = if ltb last hi then insert (last + 1) hi spans else spans

pub cut_spans : ℕ → ℕ → Map ℕ → Map ℕ
cut_spans first last spans =
    map_or (span_of first spans) spans
      (λ e. cut_right last e.1 (cut_left e.0 first (remove e.0 spans)))

pub unlink : ℕ → ℕ → Reassembler → Reassembler
unlink first last r = record r {
  spans = cut_spans first last r.spans;
  firsts = remove_range first (rounds first last) r.firsts;
  lasts = remove_range first (rounds first last) r.lasts;
}

pub drop_run : ℕ → ℕ → Reassembler → Reassembler
drop_run first last r = record (unlink first last r) {
  fragments = remove_range first (rounds first last) r.fragments;
}

pub drop_unfinishable : ℕ → ℕ → Reassembler → Reassembler
drop_unfinishable lo hi r =
    let after_last = map_or (last_in lo hi r.lasts) lo (λ l. l + 1) in
    if leb (r.max_fragments - 1) (hi - after_last)
    then drop_run after_last (hi - (r.max_fragments - 1)) r
    else r

-- `filter_map(|seq| fragments.remove(&seq))` over as many numbers.
pub taken : ℕ → ℕ → Map Received → List Received
taken seq zero m = []
taken seq (suc n) m =
    let rest = taken (suc seq) n (remove seq m) in map_or (get seq m) rest (λ f. f ∷ rest)

unfoldable pub bodies : List Received → List ℕ
bodies [] = []
bodies ((_, body) ∷ rest) = body ++ bodies rest

unfoldable pub assemble : ℕ → ℕ → List Received → Option AccessUnit
assemble first last ((flags, a ∷ b ∷ c ∷ d ∷ head) ∷ rest) = some (record {
  first_seq = first;
  last_seq = last;
  timestamp = from_be_bytes a b c d;
  flags = record { bits = bit_or flags.bits Frame.last.bits };
  bytes = head ++ bodies rest;
})
assemble first last _ = none

pub take_unit : ℕ → ℕ → Reassembler → Reassembler × Option AccessUnit
take_unit first last r =
    (drop_run first last r, assemble first last (taken first (rounds first last) r.fragments))

-- The branches of `push` once a last fragment is found in the span from `lo`.
pub finish : ℕ → Option ℕ → ℕ → Reassembler → Reassembler × Option AccessUnit
finish lo (some first) last r =
    if ltb (last - first) r.max_fragments
    then take_unit first last r
    else (drop_run first last r, none)
finish lo none last r =
    if leb (r.max_fragments - 1) (last - lo) then (drop_run lo last r, none) else (r, none)

-- The oldest fragment makes room.
abbrev pub drop_oldest : Map Received → Reassembler → Reassembler
drop_oldest [] r = r
drop_oldest ((oldest, _) ∷ m) r = drop_run oldest oldest r

pub make_room : ℕ → Reassembler → Reassembler
make_room seq r =
    if leb r.max_buffered (length r.fragments) && not (contains_key seq r.fragments)
    then drop_oldest r.fragments r
    else r

-- The branches of `push` after the fragment is in the buffer, in the span from `lo` to `hi`.
pub within : ℕ → ℕ → ℕ → Reassembler → Reassembler × Option AccessUnit
within seq lo hi r =
    map_or (first_in seq hi r.lasts) (drop_unfinishable lo hi r, none)
      (λ last. finish lo (last_in lo seq r.firsts) last r)

pub complete : ℕ → Reassembler → Reassembler × Option AccessUnit
complete seq r = map_or (span_of seq r.spans) (r, none) (λ e. within seq e.0 e.1 r)

pub push : ℕ → Flags → List ℕ → Reassembler → Reassembler × Option AccessUnit
push seq flags plaintext r = complete seq (insert_fragment seq flags plaintext (make_room seq r))

-- `split_off(&seq)`, what is at `seq` or after it.
pub split_off {ℓ} : {V : Type ℓ} → ℕ → Map V → Map V
split_off seq [] = []
split_off seq ((j, v) ∷ m) = let rest = split_off seq m in if leb seq j then (j, v) ∷ m else rest

pub straddle : ℕ → Map ℕ → Map ℕ
straddle seq spans =
    map_or (span_of seq spans) (split_off seq spans)
      (λ e. if ltb e.0 seq then insert seq e.1 (split_off seq spans) else split_off seq spans)

pub forget_before : ℕ → Reassembler → Reassembler
forget_before seq r = record r {
  fragments = split_off seq r.fragments;
  firsts = split_off seq r.firsts;
  lasts = split_off seq r.lasts;
  spans = straddle seq r.spans;
}

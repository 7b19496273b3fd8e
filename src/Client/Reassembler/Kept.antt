-- ===== src/Client/Reassembler/Kept.antt =====
-- What `Reassembler` (media/fragment.rs) keeps beside the fragments, and the operations on it.
use throcc.Prelude.{
  ℕ, ◌^◌, ◌≤◌, ◌<◌, ◌≡◌, refl, inl, inr, Bool, true, false, ◌&&◌, not, List, [], ◌∷◌, Option, none,
  some, leb, arith, Bool-cases, length,
}
use throcc.Prelude.Map.{
  Map, Set, get, contains_key, insert, get-insert, IsSorted, insert-IsSorted, remove-IsSorted,
}
use throcc.Prelude.Map as Map
use throcc.Proto.Frame.{Flags, contains}
use throcc.Proto.Frame as Frame
use throcc.Client.Reassembler.{
  Received, Reassembler, new, put_flag, insert_fragment, rounds, remove_range, unlink, drop_run,
  drop_oldest, make_room, split_off, forget_before,
}
use throcc.Client.Reassembler.Spans.{Runs}
use throcc.Client.Reassembler.Inserted.{Adds, join_spans-Runs}
use throcc.Client.Reassembler.Joins.{Runs-agree}
use throcc.Client.Reassembler.Cuts.{Removes, cut_spans-Runs}
use throcc.Client.Reassembler.Forgets.{Starts, straddle-Runs}
use throcc.Client.Reassembler.Ranges.{
  contains-put_flag, get-remove_range, remove_range-IsSorted, get-split_off, split_off-IsSorted,
  contains-remove_range, contains-split_off,
}

abbrev pub held : Map Received → ℕ → Bool
held m k = contains_key k m

abbrev pub flagged : Flags → Option Received → Bool
flagged flag none = false
flagged flag (some f) = contains f.0 flag

-- The spans are the unbroken runs of the fragments that are buffered, and the two sets are the
-- fragments with each flag.
pub record IsIndexed (r : Reassembler) : Type 0 where
  pub runs : Runs (held r.fragments) 0 r.spans
  pub firsts : (k : ℕ) → Map.contains k r.firsts ≡ flagged Frame.first (get k r.fragments)
  pub lasts : (k : ℕ) → Map.contains k r.lasts ≡ flagged Frame.last (get k r.fragments)
  pub sorted : IsSorted 0 r.fragments
  pub firsts_sorted : IsSorted 0 r.firsts
  pub lasts_sorted : IsSorted 0 r.lasts
  pub small : (k : ℕ) → 2 ^ 32 ≤ k → held r.fragments k ≡ false
  pub limit : 1 ≤ r.max_fragments

pub new-IsIndexed : (n : ℕ) → IsIndexed (new n)
unfolding new contains_key get Map.contains
new-IsIndexed n = record {
  runs = λ k i. refl;
  firsts = λ k. refl;
  lasts = λ k. refl;
  sorted = tt;
  firsts_sorted = tt;
  lasts_sorted = tt;
  small = λ k i. refl;
  limit = omega arith;
}

put_flag-IsSorted :
    (flag : Bool) (seq : ℕ) (s : Set) → IsSorted 0 s → IsSorted 0 (put_flag flag seq s)
put_flag-IsSorted true seq s i = insert-IsSorted 0 seq tt s (omega arith) i
put_flag-IsSorted false seq s i = remove-IsSorted 0 seq s i

held-insert :
    (seq : ℕ) (f : Received) (m : Map Received) → Adds seq (held m) (held (insert seq f m))
unfolding contains_key
held-insert seq f m k = ground (arith, get-insert k seq f m)

pub insert_fragment-IsIndexed :
    (seq : ℕ) (flags : Flags) (plaintext : List ℕ) (r : Reassembler)
    → seq < 2 ^ 32
    → IsIndexed r
    → IsIndexed (insert_fragment seq flags plaintext r)
unfolding insert_fragment
insert_fragment-IsIndexed seq flags plaintext r h w = record {
  runs = elim (Bool-cases (contains_key seq r.fragments)) [
    | inl p ↦ rw p (
        Runs-agree (held r.fragments) (held (insert seq (flags, plaintext) r.fragments)) 0 r.spans
          (λ k i. ground (arith, held-insert seq (flags, plaintext) r.fragments k)) w.runs)
    | inr p ↦ rw p (
        join_spans-Runs (held r.fragments) (held (insert seq (flags, plaintext) r.fragments)) seq
          r.spans w.runs (held-insert seq (flags, plaintext) r.fragments) p w.small)
  ];
  firsts = λ k. ground (
    arith,
    contains-put_flag k seq (contains flags Frame.first) r.firsts,
    get-insert k seq (flags, plaintext) r.fragments,
    w.firsts k,
  );
  lasts = λ k. ground (
    arith,
    contains-put_flag k seq (contains flags Frame.last) r.lasts,
    get-insert k seq (flags, plaintext) r.fragments,
    w.lasts k,
  );
  sorted = insert-IsSorted 0 seq (flags, plaintext) r.fragments (omega arith) w.sorted;
  firsts_sorted = put_flag-IsSorted (contains flags Frame.first) seq r.firsts w.firsts_sorted;
  lasts_sorted = put_flag-IsSorted (contains flags Frame.last) seq r.lasts w.lasts_sorted;
  small = λ k i. ground (arith, held-insert seq (flags, plaintext) r.fragments k, w.small k);
  limit = w.limit;
}

held-remove_range :
    (first last : ℕ) (m : Map Received)
    → first ≤ last
    → Removes first last (held m) (held (remove_range first (rounds first last) m))
unfolding contains_key
held-remove_range first last m h k = ground (arith, get-remove_range k first (rounds first last) m)

pub drop_run-IsIndexed :
    (first last : ℕ) (r : Reassembler)
    → first ≤ last
    → ((k : ℕ) → first ≤ k → k ≤ last → held r.fragments k ≡ true)
    → IsIndexed r
    → IsIndexed (drop_run first last r)
unfolding drop_run unlink
drop_run-IsIndexed first last r h all w = record {
  runs =
      cut_spans-Runs (held r.fragments) (held (remove_range first (rounds first last) r.fragments))
        0 first last r.spans w.runs (held-remove_range first last r.fragments h) (omega arith) h
        all;
  firsts = λ k. ground (
    arith,
    contains-remove_range k first (rounds first last) r.firsts,
    get-remove_range k first (rounds first last) r.fragments,
    w.firsts k,
  );
  lasts = λ k. ground (
    arith,
    contains-remove_range k first (rounds first last) r.lasts,
    get-remove_range k first (rounds first last) r.fragments,
    w.lasts k,
  );
  sorted = remove_range-IsSorted 0 first (rounds first last) r.fragments w.sorted;
  firsts_sorted = remove_range-IsSorted 0 first (rounds first last) r.firsts w.firsts_sorted;
  lasts_sorted = remove_range-IsSorted 0 first (rounds first last) r.lasts w.lasts_sorted;
  small = λ k i. ground (arith, held-remove_range first last r.fragments h k, w.small k);
  limit = w.limit;
}

held-split_off :
    (seq : ℕ) (m : Map Received) → IsSorted 0 m → Starts seq (held m) (held (split_off seq m))
unfolding contains_key
held-split_off seq m s k = ground (arith, get-split_off k 0 seq m s)

pub forget_before-IsIndexed :
    (seq : ℕ) (r : Reassembler) → IsIndexed r → IsIndexed (forget_before seq r)
unfolding forget_before
forget_before-IsIndexed seq r w = record {
  runs =
      straddle-Runs (held r.fragments) (held (split_off seq r.fragments)) 0 seq r.spans w.runs
        (held-split_off seq r.fragments w.sorted);
  firsts = λ k. ground (
    arith,
    contains-split_off k 0 seq r.firsts w.firsts_sorted,
    get-split_off k 0 seq r.fragments w.sorted,
    w.firsts k,
  );
  lasts = λ k. ground (
    arith,
    contains-split_off k 0 seq r.lasts w.lasts_sorted,
    get-split_off k 0 seq r.fragments w.sorted,
    w.lasts k,
  );
  sorted = split_off-IsSorted 0 seq r.fragments w.sorted;
  firsts_sorted = split_off-IsSorted 0 seq r.firsts w.firsts_sorted;
  lasts_sorted = split_off-IsSorted 0 seq r.lasts w.lasts_sorted;
  small = λ k i. ground (arith, held-split_off seq r.fragments w.sorted k, w.small k);
  limit = w.limit;
}

held_front : (k : ℕ) (f : Received) (m : Map Received) → held ((k, f) ∷ m) k ≡ true
unfolding contains_key get
held_front k f m = ground arith

drop_oldest-IsIndexed :
    (m : Map Received) (r : Reassembler)
    → r.fragments ≡ m
    → IsIndexed r
    → IsIndexed (drop_oldest m r)
drop_oldest-IsIndexed [] r q w = w
drop_oldest-IsIndexed ((k, f) ∷ m) r q w =
    drop_run-IsIndexed k k r (omega arith)
      (λ j a b. let same : j ≡ k = omega arith in rw (q, same) (held_front k f m)) w

pub make_room-IsIndexed : (seq : ℕ) (r : Reassembler) → IsIndexed r → IsIndexed (make_room seq r)
unfolding make_room
make_room-IsIndexed seq r w =
    elim (Bool-cases
      (leb r.max_buffered (length r.fragments) && not (contains_key seq r.fragments))) [
        | inl p ↦ rw (p, make_room) (drop_oldest-IsIndexed r.fragments r refl w)
        | inr p ↦ rw (p, make_room) w
      ]

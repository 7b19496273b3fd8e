-- ===== src/Client/Reassembler/Tests.antt =====
-- A `Reassembler` (media/fragment.rs) with a unit of three fragments, the middle one last.
use throcc.Prelude.{◌*◌, ◌≤◌, ◌≡◌, refl, [], ◌∷◌, some, min, max, arith, length}
use throcc.Prelude.Map.{get, contains_key, insert, remove}
use throcc.Proto.Frame.{Flags, contains}
use throcc.Client.Units.{AccessUnit}
use throcc.Client.Reassembler.{
  Reassembler, new, last_upto, first_in, last_in, span_of, joined_lo, join_spans, insert_fragment,
  make_room, remove_range, cut_left, cut_right, cut_spans, unlink, drop_run, drop_unfinishable,
  taken, bodies, assemble, take_unit, finish, within, complete, push, forget_before, rounds,
}
use throcc.Client.Reassembler.Kept.{IsIndexed}
use throcc.Client.Reassembler.Emits.{between, Emitted}
use throcc.Client.Reassembler.Reached.{
  Reach, starts, pushes, forgets, Reach-IsIndexed, Reach-length,
}
use throcc.Client.Reassembler.Pushed.{buffered, push-IsWhole, push-Emitted}

abbrev first_flag : Flags
first_flag = record { bits = 3 }

abbrev no_flag : Flags
no_flag = record { bits = 1 }

abbrev last_flag : Flags
last_flag = record { bits = 5 }

abbrev one : Reassembler
one = (push 9 last_flag (14 ∷ []) (new 8)).0

abbrev two : Reassembler
two = (push 7 first_flag (0 ∷ 0 ∷ 1 ∷ 2 ∷ 11 ∷ 12 ∷ []) one).0

reached : Reach 8 two
reached =
    pushes 7 first_flag (0 ∷ 0 ∷ 1 ∷ 2 ∷ 11 ∷ 12 ∷ [])
      (pushes 9 last_flag (14 ∷ []) starts (omega arith)) (omega arith)

abbrev whole_unit : AccessUnit
whole_unit = record {
  first_seq = 7;
  last_seq = 9;
  timestamp = 258;
  flags = record { bits = 7 };
  bytes = 11 ∷ 12 ∷ 13 ∷ 14 ∷ [];
}

emitted : (push 8 no_flag (13 ∷ []) two).1 ≡ some whole_unit
unfolding push make_room insert_fragment complete within finish take_unit drop_unfinishable drop_run
    unlink cut_spans cut_left cut_right remove_range taken bodies assemble span_of last_upto
    first_in last_in join_spans joined_lo new get contains_key insert remove contains
emitted = refl

Reach-IsIndexed_example : IsIndexed (forget_before 8 two)
Reach-IsIndexed_example = Reach-IsIndexed (forgets 8 reached)

Reach-length_example : length two.fragments ≤ min 4096 (max 8 1 * 64)
Reach-length_example = Reach-length reached

whole_unit-Emitted : Emitted (buffered 8 no_flag (13 ∷ []) two) two.max_fragments 8 whole_unit
whole_unit-Emitted = push-Emitted 8 no_flag (13 ∷ []) whole_unit reached (omega arith) emitted

push-Emitted_example : Emitted (buffered 8 no_flag (13 ∷ []) two) two.max_fragments 8 whole_unit
push-Emitted_example = push-Emitted 8 no_flag (13 ∷ []) whole_unit reached (omega arith) emitted

push-IsWhole_example :
    (push 8 no_flag (13 ∷ []) two).1
    ≡ assemble 7 9 (between 7 (rounds 7 9) (buffered 8 no_flag (13 ∷ []) two))
push-IsWhole_example =
    push-IsWhole 8 no_flag (13 ∷ []) 7 9 reached (omega arith) whole_unit-Emitted.whole
      whole_unit-Emitted.short

-- ===== src/Client/Reassembler/Delivery.antt =====
-- `Reassembler` (media/fragment.rs) with a unit that was cut in two, the second half delivered first.
use mathlib.Core.List.{Permᴰ}
use mathlib.Core.List.Permᴰ.{swap}
use throcc.Prelude.{◌+◌, ◌-◌, ◌≡◌, refl, true, List, [], ◌∷◌, arith, length}
use throcc.Client.Reassembler.{new}
use throcc.Client.Fragment.{plaintext, fragment}
use throcc.Client.Fragment.Cut.{unit_flags}
use throcc.Client.Fragment.Tests.{bytes, head, tail, is_cut_in_two}
use throcc.Client.Fragment.Arrivals.{Arrival, numbered, deliver}
use throcc.Client.Fragment.Arrived.{deliver-fragment}

abbrev arrivals : List Arrival
arrivals = (6, (record { bits = 5 }, tail)) ∷ (5, (record { bits = 3 }, head)) ∷ []

any_order : Permᴰ arrivals (numbered 5 (fragment bytes 258 true))
unfolding numbered plaintext
any_order = rw is_cut_in_two (swap refl refl)

count : length (fragment bytes 258 true) ≡ 2
count = rw is_cut_in_two refl

deliver-fragment_example :
    (deliver arrivals (new 8)).1
    ≡ record {
      first_seq = 5;
      last_seq = 5 + length (fragment bytes 258 true) - 1;
      timestamp = 258;
      flags = unit_flags true;
      bytes = bytes;
    }
      ∷ []
deliver-fragment_example =
    deliver-fragment 8 5 258 bytes true arrivals (omega (arith, count)) (omega (arith, count))
      (omega (arith, count)) (omega arith) any_order

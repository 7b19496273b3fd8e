-- ===== src/Client/Fragment/Tests.antt =====
-- `fragment` of media/fragment.rs on a unit of 1200 bytes, which is cut in two.
use throcc.Prelude.{ℕ, zero, suc, ◌≡◌, refl, true, List, [], ◌∷◌, some, none}
use throcc.Proto.Frame.{with}
use throcc.Client.Fragment.{Fragment, cut, mark_last, fragment}

abbrev pub repeated : ℕ → ℕ → List ℕ
repeated zero b = []
repeated (suc n) b = b ∷ repeated n b

abbrev pub bytes : List ℕ
bytes = repeated 1200 7

abbrev pub head : List ℕ
head = 0 ∷ 0 ∷ 1 ∷ 2 ∷ repeated 1129 7

abbrev pub tail : List ℕ
tail = repeated 71 7

abbrev pub fragments : List Fragment
fragments =
    record {
      flags = record { bits = 3 };
      timestamp = some (0 ∷ 0 ∷ 1 ∷ 2 ∷ []);
      body = repeated 1129 7;
    }
    ∷ record { flags = record { bits = 5 }; timestamp = none; body = tail }
    ∷ []

pub is_cut_in_two : fragment bytes 258 true ≡ fragments
unfolding fragment cut mark_last with
is_cut_in_two = refl

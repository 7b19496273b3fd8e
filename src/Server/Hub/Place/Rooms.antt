-- ===== src/Server/Hub/Place/Rooms.antt =====
-- Who is in which room, read off the members and off the sessions, and what each step makes of it.
use throcc.Prelude.{
  ℕ, ◌+◌, ◌≤◌, ◌≡◌, refl, ap, ◌∙◌, Bool, true, false, ◌&&◌, List, [], ◌∷◌, Option, none, some, ◌==◌,
  if◌then◌else◌, length, arith, Option-cases, inl, inr,
}
use throcc.Prelude.Map.{
  Map, get, contains, get-insert, contains-insert, contains-remove, length-insert, length-remove,
}
use throcc.Server.Hub.State.{RoomEntry, Session, write_epochs, write_epoch}
use throcc.Server.Hub.Place.{update, set_entry_epochs, remove_member, insert_member, same_room}

abbrev pub map_option {ℓ κ} : {A : Type ℓ} {B : Type κ} → (A → B) → Option A → Option B
map_option f none = none
map_option f (some a) = some (f a)

pub get-update {ℓ} :
    {V : Type ℓ} (j k : ℕ) (f : V → V) (m : Map V)
    → get j (update k f m) ≡ (if j == k then map_option f (get j m) else get j m)
unfolding update
get-update j k f m = elim (Option-cases (get k m)) [
  | inl e ↦ ground arith
  | inr (v, e) ↦ ground (arith, get-insert j k (f v) m)
]

-- Whether the members of `room` have `user`.
unfoldable pub member_in : Map RoomEntry → ℕ → ℕ → Bool
member_in rooms room user = elim (get room rooms) [
  | none ↦ false
  | some e ↦ contains user e.members
]

unfoldable pub size_in : Map RoomEntry → ℕ → ℕ
size_in rooms room = elim (get room rooms) [ none ↦ 0 | some e ↦ length e.members ]

unfoldable pub epoch_in : Map RoomEntry → ℕ → Option ℕ
epoch_in rooms room = elim (get room rooms) [ none ↦ none | some e ↦ some e.epoch ]

unfoldable pub has_room : Map RoomEntry → ℕ → Bool
has_room rooms room = elim (get room rooms) [ none ↦ false | some e ↦ true ]

-- Whether the session of `user` is in `room`.
unfoldable pub in_room : Map Session → ℕ → ℕ → Bool
in_room sessions user room = elim (get user sessions) [
  | none ↦ false
  | some s ↦ same_room s.room (some room)
]

pub member_in-remove :
    (rooms : Map RoomEntry) (k user room v : ℕ)
    → member_in (update k (remove_member user) rooms) room v
      ≡ (if room == k && v == user then false else member_in rooms room v)
unfolding member_in
member_in-remove rooms k user room v = elim (Option-cases (get room rooms)) [
  | inl e ↦ ground (arith, get-update room k (remove_member user) rooms)
  | inr (entry, e) ↦
      ground
        (arith, get-update room k (remove_member user) rooms, contains-remove v user entry.members)
]

pub member_in-insert :
    (rooms : Map RoomEntry) (k user room v : ℕ)
    → has_room rooms k ≡ true
    → member_in (update k (insert_member user) rooms) room v
      ≡ (if room == k && v == user then true else member_in rooms room v)
unfolding member_in has_room
member_in-insert rooms k user room v e = elim (Option-cases (get room rooms)) [
  | inl q ↦ ground (arith, get-update room k (insert_member user) rooms)
  | inr (entry', q) ↦
      ground
        (arith, get-update room k (insert_member user) rooms, contains-insert v user entry'.members)
]

pub size_in-remove :
    (rooms : Map RoomEntry) (k user room : ℕ)
    → size_in (update k (remove_member user) rooms) room ≤ size_in rooms room
unfolding size_in
size_in-remove rooms k user room = elim (Option-cases (get room rooms)) [
  | inl e ↦ ground (arith, get-update room k (remove_member user) rooms)
  | inr (entry, e) ↦
      ground (arith, get-update room k (remove_member user) rooms, length-remove user entry.members)
]

pub size_in-insert :
    (rooms : Map RoomEntry) (k user room : ℕ)
    → size_in (update k (insert_member user) rooms) room
      ≤ (if room == k then size_in rooms room + 1 else size_in rooms room)
unfolding size_in
size_in-insert rooms k user room = elim (Option-cases (get room rooms)) [
  | inl e ↦ ground (arith, get-update room k (insert_member user) rooms)
  | inr (entry, e) ↦
      ground
        (arith, get-update room k (insert_member user) rooms, length-insert user tt entry.members)
]

-- Only the epochs change, each to the last one listed for its room.
abbrev pub listed : List (ℕ × ℕ) → ℕ → Option ℕ → Option ℕ
listed [] room now = now
listed ((k, epoch) ∷ rest) room now =
    listed rest room (if room == k then map_option (λ e. epoch) now else now)

pub has_room-update :
    (rooms : Map RoomEntry) (k room : ℕ) (f : RoomEntry → RoomEntry)
    → has_room (update k f rooms) room ≡ has_room rooms room
unfolding has_room
has_room-update rooms k room f = elim (Option-cases (get room rooms)) [
  | inl e ↦ ground (arith, get-update room k f rooms)
  | inr (entry, e) ↦ ground (arith, get-update room k f rooms)
]

abbrev set_epoch : ℕ → RoomEntry → RoomEntry
set_epoch epoch entry = record entry { epoch = epoch }

set_epoch-views :
    (rooms : Map RoomEntry) (k epoch room v : ℕ)
    → (member_in (update k (set_epoch epoch) rooms) room v ≡ member_in rooms room v)
      × (size_in (update k (set_epoch epoch) rooms) room ≡ size_in rooms room)
      × (epoch_in (update k (set_epoch epoch) rooms) room ≡ (
          if room == k then map_option (λ e. epoch) (epoch_in rooms room) else epoch_in rooms room))
unfolding member_in size_in epoch_in
set_epoch-views rooms k epoch room v = elim (Option-cases (get room rooms)) [
  | inl e ↦ ground (arith, get-update room k (set_epoch epoch) rooms)
  | inr (entry, e) ↦ ground (arith, get-update room k (set_epoch epoch) rooms)
]

pub epoch_in-members :
    (rooms : Map RoomEntry) (k room : ℕ) (f : RoomEntry → RoomEntry)
    → ((e : RoomEntry) → (f e).epoch ≡ e.epoch)
    → epoch_in (update k f rooms) room ≡ epoch_in rooms room
unfolding epoch_in
epoch_in-members rooms k room f same = elim (Option-cases (get room rooms)) [
  | inl e ↦ ground (arith, get-update room k f rooms)
  | inr (entry, e) ↦ ground (arith, get-update room k f rooms, same entry)
]

pub set_entry_epochs-views :
    (changes : List (ℕ × ℕ)) (rooms : Map RoomEntry) (room v : ℕ)
    → (member_in (set_entry_epochs changes rooms) room v ≡ member_in rooms room v)
      × (has_room (set_entry_epochs changes rooms) room ≡ has_room rooms room)
      × (size_in (set_entry_epochs changes rooms) room ≡ size_in rooms room)
      × (epoch_in (set_entry_epochs changes rooms) room ≡ listed changes room (epoch_in rooms room))
unfolding set_entry_epochs
set_entry_epochs-views [] rooms room v = (refl, refl, refl, refl)
set_entry_epochs-views ((k, epoch) ∷ rest) rooms room v =
    let (m, z, e) = set_epoch-views rooms k epoch room v in
    let (m', x', z', e') = set_entry_epochs-views rest (update k (set_epoch epoch) rooms) room v in
    (
      m' ∙ m,
      x' ∙ has_room-update rooms k room (set_epoch epoch),
      z' ∙ z,
      e' ∙ ap (listed rest room) e,
    )

get-write_epoch :
    (epochs : Map ℕ) (k epoch room : ℕ)
    → get room (write_epoch epochs k epoch)
      ≡ (if room == k then map_option (λ e. epoch) (get room epochs) else get room epochs)
unfolding write_epoch
get-write_epoch epochs k epoch room = elim (Option-cases (get k epochs)) [
  | inl e ↦ ground arith
  | inr (old, e) ↦ ground (arith, get-insert room k epoch epochs)
]

-- The database keeps the same epochs.
pub get-write_epochs :
    (changes : List (ℕ × ℕ)) (epochs : Map ℕ) (room : ℕ)
    → get room (write_epochs changes epochs) ≡ listed changes room (get room epochs)
unfolding write_epochs
get-write_epochs [] epochs room = refl
get-write_epochs ((k, epoch) ∷ rest) epochs room =
    get-write_epochs rest (write_epoch epochs k epoch) room
    ∙ ap (listed rest room) (get-write_epoch epochs k epoch room)

-- ===== src/Proto/Permissions.antt =====
-- crates/throcc-proto/src/permissions.rs, with `Role` of ids.rs: who may do what.
mod Tests
use throcc.Prelude.{
  ℕ, zero, suc, ◌≡◌, Bool, not, ◌&&◌, Option, none, some, ltb, leb, ◌==◌, if◌then◌else◌, arith, ◌↔◌,
  ◌≢◌, true,
}

-- Also the values on the wire and in the database.
pub data Role : Type 0 where
  user manager admin : Role

unfoldable pub rank : Role → ℕ
rank user = 0
rank manager = 1
rank admin = 2

pub from_rank : ℕ → Option Role
from_rank zero = some user
from_rank (suc zero) = some manager
from_rank (suc (suc zero)) = some admin
from_rank _ = none

-- The derived order and equality, which go by the discriminant.
lt : Role → Role → Bool
unfolding rank
lt a b = ltb (rank a) (rank b)

ge : Role → Role → Bool
unfolding rank
ge a b = leb (rank b) (rank a)

unfoldable pub eq : Role → Role → Bool
unfolding rank
eq a b = rank a == rank b

abbrev pub daily_invites : ℕ
daily_invites = 3

unfoldable pub can_manage_rooms : Role → Bool
unfolding ge
can_manage_rooms actor = ge actor manager

pub can_list_users : Role → Bool
unfolding eq
can_list_users actor = eq actor admin

pub can_edit_server : Role → Bool
unfolding eq
can_edit_server actor = eq actor admin

pub invite_cap : Role → Option ℕ
unfolding eq
invite_cap actor = if not (eq actor admin) then some daily_invites else none

pub can_set_role : Role → Role → Role → Bool
unfolding eq lt
can_set_role actor target new = eq actor admin && lt target actor && lt new actor

unfoldable pub can_kick_from_room : Role → Role → Bool
unfolding ge lt
can_kick_from_room actor target = ge actor manager && lt target actor

pub can_remove : Role → Role → Bool
unfolding eq lt
can_remove actor target = eq actor admin && lt target actor

-- A rank is read back, and only the three ranks are read.
pub from_rank-eq : (n : ℕ) (r : Role) → (from_rank n ≡ some r) ↔ (n ≡ rank r)
unfolding from_rank rank
from_rank-eq zero r = ground arith
from_rank-eq (suc zero) r = ground arith
from_rank-eq (suc (suc zero)) r = ground arith
from_rank-eq (suc (suc (suc n))) r = ground arith

-- A role change is allowed exactly to admins, on someone who is none, to a role that is not
-- admin.
pub can_set_role_iff :
    (actor target new : Role)
    → (can_set_role actor target new ≡ true) ↔ ((actor ≡ admin) × (target ≢ admin) × (new ≢ admin))
unfolding can_set_role
can_set_role_iff user target new = ground arith
can_set_role_iff manager target new = ground arith
can_set_role_iff admin user new = ground arith
can_set_role_iff admin manager new = ground arith
can_set_role_iff admin admin new = ground arith

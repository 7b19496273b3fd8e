-- ===== src/Proto/Permissions/Tests.antt =====
-- The rules of permissions.rs at concrete roles.
use throcc.Prelude.{◌≡◌, refl, true, none}
use throcc.Proto.Permissions.{user, manager, admin, invite_cap, can_kick_from_room}

managers_kick_users : can_kick_from_room manager user ≡ true
unfolding can_kick_from_room
managers_kick_users = refl

admins_mint_freely : invite_cap admin ≡ none
unfolding invite_cap
admins_mint_freely = refl

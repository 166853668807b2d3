-- ===== src/Identity/Permissions.antt =====
-- What a user may do with the user's own keys, packages/core/src/identity/key-permissions.ts.
use molenkopf.Base.{Bool, true, Option, none, some}
use molenkopf.Identity.{KeyPermissions, User}

pub record ResolvedKeyPermissions : Type 0 where
  pub create : Bool
  pub revoke : Bool

-- `flag !== false`
abbrev pub unless_false : Option Bool → Bool
unless_false none = true
unless_false (some b) = b

abbrev resolve : Option KeyPermissions → ResolvedKeyPermissions
resolve none = record { create = true; revoke = true }
resolve (some p) = record { create = unless_false p.create; revoke = unless_false p.revoke }

abbrev no_permissions : Option User → Option KeyPermissions
no_permissions none = none
no_permissions (some u) = u.key_permissions

unfoldable pub resolve_key_permissions : Option User → ResolvedKeyPermissions
resolve_key_permissions user = resolve (no_permissions user)

unfoldable pub can_create_own_key : Option User → Bool
unfolding resolve_key_permissions
can_create_own_key user = (resolve_key_permissions user).create

unfoldable pub can_revoke_own_key : Option User → Bool
unfolding resolve_key_permissions
can_revoke_own_key user = (resolve_key_permissions user).revoke

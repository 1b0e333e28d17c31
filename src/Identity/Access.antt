-- ===== src/Identity/Access.antt =====
-- packages/identity/src/rbac/permission-check.ts
pub mod Laws
use kalen.Prelude.{String, Bool, true, false, not, ◌||◌, List, [], ◌∷◌, all, any, if◌then◌else◌}
use kalen.Prelude.StringSet.{has}
use kalen.Identity.Roles.{Role, Permission, role_permissions, has_permission}

-- `checkPermission`; the test for a role without an entry never holds
unfoldable pub check_permission : Role → Permission → Bool
unfolding role_permissions has_permission
check_permission role permission = has_permission (role_permissions role) permission

-- `checkPermissions`
unfoldable pub check_permissions : Role → List Permission → Bool
unfolding role_permissions has_permission
check_permissions role permissions = all (has_permission (role_permissions role)) permissions

-- `hasAnyPermission`
unfoldable pub has_any_permission : Role → List Permission → Bool
unfolding role_permissions has_permission
has_any_permission role permissions = any (has_permission (role_permissions role)) permissions

-- `getRolePermissions`
unfoldable pub get_role_permissions : Role → List Permission
unfolding role_permissions
get_role_permissions role = role_permissions role

-- `AgentScope`
pub record AgentScope : Type 0 where
  pub agent_id : String
  pub rooms : List String
  pub tools : List String
  pub humans : List String
  pub restricted : Bool

-- `ScopeResource`
pub data ScopeResource : Type 0 where
  room tool human : String → ScopeResource

abbrev is_empty : List String → Bool
is_empty [] = true
is_empty _ = false

-- `checkScope`
unfoldable pub check_scope : AgentScope → ScopeResource → Bool
unfolding has
check_scope scope (room id) =
    if not scope.restricted then true else is_empty scope.rooms || has id scope.rooms
check_scope scope (tool id) =
    if not scope.restricted then true else is_empty scope.tools || has id scope.tools
check_scope scope (human id) =
    if not scope.restricted then true else is_empty scope.humans || has id scope.humans

-- The result of `evaluateAccess`, with what the reasons are made from.
pub data Decision : Type 0 where
  allowed : Decision
  lacks_permission : Role → Permission → Decision
  out_of_scope : ScopeResource → Decision

-- `evaluateAccess`
unfoldable pub evaluate_access : Role → Permission → AgentScope → ScopeResource → Decision
evaluate_access role permission scope resource =
    if not (check_permission role permission)
    then lacks_permission role permission
    else if not (check_scope scope resource)
    then out_of_scope resource
    else allowed

-- ===== src/Identity/Access/Laws.antt =====
-- What the checks decide, and how the roles are ordered.
use kalen.Prelude.{
  String, ◌≡◌, refl, ◌↔◌, ◌⊎◌, inl, inr, true, false, List, [], ◌∷◌, All, all, any, arith,
  Bool-cases,
}
use kalen.Prelude.StringSet.{has}
use kalen.Identity.Roles.{
  Role, human_user, agent_basic, agent_privileged, admin, super_admin, Permission, message_send,
}
use kalen.Identity.Access.{
  check_permission, check_permissions, has_any_permission, AgentScope, ScopeResource, room, tool,
  human, check_scope, allowed, lacks_permission, out_of_scope, evaluate_access,
}

-- The order of the roles by what they may do.
pub data Below : Role → Role → Type 0 where
  basic-privileged : Below agent_basic agent_privileged
  privileged-admin : Below agent_privileged admin
  human-admin : Below human_user admin
  any-super : (r : Role) → Below r super_admin

super_admin_has : (p : Permission) → check_permission super_admin p ≡ true
unfolding check_permission
super_admin_has message_send = refl
super_admin_has _ = refl

basic_le_privileged :
    (p : Permission)
    → check_permission agent_basic p ≡ true
    → check_permission agent_privileged p ≡ true
unfolding check_permission
basic_le_privileged message_send h = refl
basic_le_privileged _ h = ground arith

privileged_le_admin :
    (p : Permission) → check_permission agent_privileged p ≡ true → check_permission admin p ≡ true
unfolding check_permission
privileged_le_admin message_send h = refl
privileged_le_admin _ h = ground arith

human_le_admin :
    (p : Permission) → check_permission human_user p ≡ true → check_permission admin p ≡ true
unfolding check_permission
human_le_admin message_send h = refl
human_le_admin _ h = ground arith

-- A role that stands above another (privileged agent above basic agent, admin above privileged
-- agent and above human user, super admin above all) has every permission that the other has.
pub check_permission_mono :
    (r s : Role) (p : Permission)
    → Below r s
    → check_permission r p ≡ true
    → check_permission s p ≡ true
check_permission_mono r s p basic-privileged h = basic_le_privileged p h
check_permission_mono r s p privileged-admin h = privileged_le_admin p h
check_permission_mono r s p human-admin h = human_le_admin p h
check_permission_mono r s p (any-super _) h = super_admin_has p

all_iff :
    (role : Role) (ps : List Permission)
    → (all (check_permission role) ps ≡ true) ↔ All (λ p. check_permission role p ≡ true) ps
all_iff role [] = (λ _. tt, λ _. refl)
all_iff role (p ∷ ps) = ground (arith, all_iff role ps)

-- some item of a list
abbrev pub Any : (Permission → Type 0) → List Permission → Type 0
Any P [] = ⊥
Any P (p ∷ ps) = P p ⊎ Any P ps

any_iff :
    (role : Role) (ps : List Permission)
    → (any (check_permission role) ps ≡ true) ↔ Any (λ p. check_permission role p ≡ true) ps
any_iff role [] = ((λ h. cc), absurd)
any_iff role (p ∷ ps) = ground (arith, any_iff role ps)

-- `checkPermissions` holds exactly when the role has every permission of the list, and
-- `hasAnyPermission` exactly when it has one of them.
pub check_permissions_iff :
    (role : Role) (ps : List Permission)
    → ((check_permissions role ps ≡ true) ↔ All (λ p. check_permission role p ≡ true) ps)
      × ((has_any_permission role ps ≡ true) ↔ Any (λ p. check_permission role p ≡ true) ps)
unfolding check_permissions has_any_permission check_permission
check_permissions_iff role ps = (all_iff role ps, any_iff role ps)

-- the list of a scope that speaks of a resource, and the id of the resource
abbrev pub listed : AgentScope → ScopeResource → List String
listed scope (room id) = scope.rooms
listed scope (tool id) = scope.tools
listed scope (human id) = scope.humans

abbrev pub id_of : ScopeResource → String
id_of (room id) = id
id_of (tool id) = id
id_of (human id) = id

-- When a scope lets an agent have a resource: it is not restricted, or it lists nothing of the
-- resource's type, or it lists the resource.
abbrev pub InScope : AgentScope → ScopeResource → Type 0
InScope scope resource =
    (scope.restricted ≡ false)
    ⊎ ((listed scope resource ≡ []) ⊎ (has (id_of resource) (listed scope resource) ≡ true))

check_scope_iff :
    (scope : AgentScope) (resource : ScopeResource)
    → (check_scope scope resource ≡ true) ↔ InScope scope resource
unfolding check_scope
check_scope_iff scope (room id) = ground arith
check_scope_iff scope (tool id) = ground arith
check_scope_iff scope (human id) = ground arith

-- The access decision in its three cases: allowed exactly when the role has the permission and
-- the scope covers the resource, refused for the permission exactly when the role lacks it, and
-- refused for the scope exactly when the role has it and the scope does not cover the resource.
pub evaluate_access_iff :
    (role : Role) (p : Permission) (scope : AgentScope) (resource : ScopeResource)
    → ((evaluate_access role p scope resource ≡ allowed)
        ↔ ((check_permission role p ≡ true) × InScope scope resource))
      × ((evaluate_access role p scope resource ≡ lacks_permission role p)
          ↔ (check_permission role p ≡ false))
      × ((evaluate_access role p scope resource ≡ out_of_scope resource)
          ↔ ((check_permission role p ≡ true) × ¬ InScope scope resource))
unfolding evaluate_access
evaluate_access_iff role p scope resource =
    let (sound, complete) = check_scope_iff scope resource in
    elim (Bool-cases (check_permission role p)) [
      | inr lacks ↦ (ground arith, ground arith, ground arith)
      | inl has' ↦ elim (Bool-cases (check_scope scope resource)) [
        | inl within ↦
            let granted = sound within in
            (
              ((λ _. (has', granted)), λ _. ground arith),
              ground arith,
              ((λ h. ground arith), λ h. absurd (h.1 granted)),
            )
        | inr outside ↦ (
          ((λ h. ground arith), λ h. cc (complete h.1)),
          ground arith,
          ((λ h. (has', λ g. cc (complete g))), λ h. ground arith),
        )
      ]
    ]

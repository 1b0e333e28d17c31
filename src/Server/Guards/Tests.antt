-- ===== src/Server/Guards/Tests.antt =====
-- The guards on small inputs, and the theorems applied to them.
use kalen.Prelude.{◌≡◌, refl, ◌↔◌, true, none, some, List, [], ◌∷◌, All, ok, err, arith}
use kalen.Identity.Roles.{human_user, Permission, message_send, room_delete}
use kalen.Identity.Access.{check_permission}
use kalen.Identity.Token.{human_payload, issue_agent_access_token}
use kalen.Identity.Token.Plain.{plain, plain-IsJose, named, scopes}
use kalen.Identity.Token.Trips.{agent_read}
use kalen.Server.Guards.{
  absent, parts, missing_header, bad_format, insufficient_scope, jwt_auth_guard, check_each,
  rbac_guard, resolve_role,
}
use kalen.Server.Guards.Admission.{agent_role, admit_agent}

abbrev asked : List Permission
asked = message_send ∷ room_delete ∷ []

guard_tests :
    (jwt_auth_guard plain absent "key" 2000 ≡ err missing_header)
    × (jwt_auth_guard plain (parts "Basic" none) "key" 2000 ≡ err bad_format)
    × (rbac_guard asked (some (human_payload "u1" "access"))
        ≡ err (insufficient_scope human_user room_delete))
unfolding jwt_auth_guard rbac_guard resolve_role check_each check_permission
guard_tests = (refl, refl, refl)

admit_agent_example :
    let token = issue_agent_access_token plain "u1" scopes "key" 1000 in
    let identity = agent_read "u1" scopes "access" in
    (jwt_auth_guard plain (parts "Bearer" (some token)) "key" 2000 ≡ ok identity)
    × ((rbac_guard asked (some identity) ≡ ok true)
        ↔ All (λ p. check_permission (agent_role scopes) p ≡ true) asked)
admit_agent_example =
    admit_agent plain plain-IsJose "key" "u1" scopes 1000 2000 asked named (omega arith)

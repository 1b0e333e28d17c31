-- ===== src/Server/Guards.antt =====
-- apps/server/src/common/guards: jwt-auth.guard.ts and rbac.guard.ts. An exception is a value; the
-- `Authorization` header comes split at its blanks, for the type of tokens is that of the library.
mod Tests
pub mod Admission
use kalen.Prelude.{
  ℕ, ◌+◌, String, Bool, true, false, not, Option, none, some, List, [], ◌∷◌, ◌==◌, ltb,
  if◌then◌else◌, Result, ok, err,
}
use kalen.Shared.Json.{Json, Items, nil, cons}
use kalen.Identity.Roles.{Role, human_user, agent_basic, agent_privileged, Permission}
use kalen.Identity.Access.{check_permission}
use kalen.Identity.Token.{Jose, TokenPayload, is_str, verify_token}

-- `request.headers?.authorization`: absent or empty, or its first two parts
pub data Header (Token : Type 0) : Type 0 where
  absent : Header Token
  parts : (scheme : String) → Option Token → Header Token

pub data Unauthorized : Type 0 where
  missing_header bad_format invalid_token access_token_required : Unauthorized

module _ {Token : Type 0} (j : Jose Token) where
  -- `JwtAuthGuard.canActivate` past the header
  unfoldable pub check_token : Token → String → ℕ → Result Unauthorized TokenPayload
  unfolding verify_token
  check_token token secret now = elim (verify_token j token secret now) [
    | none ↦ err invalid_token
    | some p ↦ if not (is_str p.token_type "access") then err access_token_required else ok p
  ]

  -- `JwtAuthGuard.canActivate`: what it puts on the request
  unfoldable pub jwt_auth_guard : Header Token → String → ℕ → Result Unauthorized TokenPayload
  unfolding check_token
  jwt_auth_guard absent secret now = err missing_header
  jwt_auth_guard (parts scheme none) secret now = err bad_format
  jwt_auth_guard (parts scheme (some token)) secret now =
      if not (scheme == "Bearer") then err bad_format else check_token token secret now

-- `identity.scopes?.length ?? 0`
unfoldable pub count_items : Items → ℕ
count_items nil = 0
count_items (cons v vs) = count_items vs + 1

unfoldable pub scope_count : Option Items → ℕ
unfolding count_items
scope_count none = 0
scope_count (some vs) = count_items vs

-- `resolveRole`
unfoldable pub resolve_role : TokenPayload → Role
unfolding scope_count
resolve_role identity =
    if is_str identity.kind "agent"
    then (if ltb 5 (scope_count identity.scopes) then agent_privileged else agent_basic)
    else human_user

pub data Forbidden : Type 0 where
  no_identity : Forbidden
  insufficient_scope : Role → Permission → Forbidden

-- the loop of `RbacGuard.canActivate`
unfoldable pub check_each : Role → List Permission → Result Forbidden Bool
unfolding check_permission
check_each role [] = ok true
check_each role (p ∷ ps) =
    let rest = check_each role ps in
    if not (check_permission role p) then err (insufficient_scope role p) else rest

-- `RbacGuard.canActivate`; no required permissions are an empty list
unfoldable pub rbac_guard : List Permission → Option TokenPayload → Result Forbidden Bool
unfolding check_each resolve_role
rbac_guard [] identity = ok true
rbac_guard (p ∷ ps) none = err no_identity
rbac_guard (p ∷ ps) (some identity) = check_each (resolve_role identity) (p ∷ ps)

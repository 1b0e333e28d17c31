-- ===== src/Server/Guards/Admission.antt =====
-- What the two guards let through, one after the other.
use kalen.Prelude.{
  ℕ, ◌+◌, ◌/◌, ◌<◌, ◌≤◌, String, ◌≡◌, refl, ◌≢◌, ◌↔◌, true, some, List, [], ◌∷◌, All, ok, err,
  arith, ltb, Bool-cases, inl, inr, if◌then◌else◌,
}
use kalen.Shared.Json.{Items, nil, cons}
use kalen.Identity.Roles.{Role, human_user, agent_basic, agent_privileged, Permission}
use kalen.Identity.Access.{check_permission}
use kalen.Identity.Token.{
  Jose, IsJose, TokenPayload, human_payload, agent_payload, human_access_token_ttl,
  human_refresh_token_ttl, agent_access_token_ttl, issue_human_access_token,
  issue_agent_access_token, issue_human_refresh_token, issue_agent_refresh_token,
}
use kalen.Identity.Token.Trips.{
  verify-create_late, agent_read, human_access_reads, human_refresh_reads, agent_access_reads,
  agent_refresh_reads,
}
use kalen.Server.Guards.{
  parts, access_token_required, invalid_token, check_token, jwt_auth_guard, count_items,
  scope_count, resolve_role, check_each, rbac_guard,
}

check_each_iff :
    (role : Role) (ps : List Permission)
    → (check_each role ps ≡ ok true) ↔ All (λ p. check_permission role p ≡ true) ps
unfolding check_each
check_each_iff role [] = (λ _. tt, λ _. refl)
check_each_iff role (p ∷ ps) =
    let (sound, complete) = check_each_iff role ps in
    elim (Bool-cases (check_permission role p)) [
      | inl yes' ↦ rw yes' (λ h. (refl, sound h), λ q. complete q.1)
      | inr no' ↦ rw no' (λ h. cc h, λ q. cc (q.0))
    ]

rbac_guard_iff :
    (ps : List Permission) (identity : TokenPayload)
    → (rbac_guard ps (some identity) ≡ ok true)
      ↔ All (λ p. check_permission (resolve_role identity) p ≡ true) ps
unfolding rbac_guard
rbac_guard_iff [] identity = (λ _. tt, λ _. refl)
rbac_guard_iff (p ∷ ps) identity = check_each_iff (resolve_role identity) (p ∷ ps)

-- the role of an agent with these scopes
unfoldable pub agent_role : Items → Role
unfolding count_items
agent_role scopes = if ltb 5 (count_items scopes) then agent_privileged else agent_basic

pub role_agent :
    (id : String) (scopes : Items)
    → resolve_role (agent_read id scopes "access") ≡ agent_role scopes
unfolding resolve_role scope_count agent_role
role_agent id nil = refl
role_agent id (cons v vs) = refl

module _ {Token : Type 0} (j : Jose Token) (law : IsJose j) (secret id : String) where
  -- With a library of tokens that keeps its word: for an agent whose id is not empty, an access
  -- token that was issued to it and has not expired passes the guard of routes, which reads the
  -- agent back with its scopes; and the guard of permissions then lets it through exactly when
  -- the role that follows from the number of its scopes has every required permission.
  pub admit_agent :
      (scopes : Items) (now later : ℕ) (ps : List Permission)
      → id ≢ ""
      → later / 1000 < now / 1000 + agent_access_token_ttl
      → let token = issue_agent_access_token j id scopes secret now in
        let identity = agent_read id scopes "access" in
        (jwt_auth_guard j (parts "Bearer" (some token)) secret later ≡ ok identity)
        × ((rbac_guard ps (some identity) ≡ ok true)
            ↔ All (λ p. check_permission (agent_role scopes) p ≡ true) ps)
  unfolding jwt_auth_guard
  admit_agent scopes now later ps n h = (
    rw (agent_access_reads j law secret id scopes now later n h, check_token) refl,
    rw⁻¹ (role_agent id scopes) (rbac_guard_iff ps (agent_read id scopes "access")),
  )

  -- With a library of tokens that keeps its word: for a human whose id is not empty, an access
  -- token that was issued to them and has not expired passes the guard of routes, which reads the
  -- human back; and the guard of permissions then lets them through exactly when the role
  -- HUMAN_USER has every required permission.
  pub admit_human :
      (now later : ℕ) (ps : List Permission)
      → id ≢ ""
      → later / 1000 < now / 1000 + human_access_token_ttl
      → let token = issue_human_access_token j id secret now in
        let identity = human_payload id "access" in
        (jwt_auth_guard j (parts "Bearer" (some token)) secret later ≡ ok identity)
        × ((rbac_guard ps (some identity) ≡ ok true)
            ↔ All (λ p. check_permission human_user p ≡ true) ps)
  unfolding jwt_auth_guard resolve_role
  admit_human now later ps n h = (
    rw (human_access_reads j law secret id now later n h, check_token) refl,
    rbac_guard_iff ps (human_payload id "access"),
  )

  -- With a library of tokens that keeps its word: for an id that is not empty, the refresh tokens
  -- that were issued to a human or an agent do not pass the guard of routes within the life of
  -- the human's; it asks for an access token.
  pub refresh_tokens_not_admitted :
      (scopes : Items) (now later : ℕ)
      → id ≢ ""
      → later / 1000 < now / 1000 + human_refresh_token_ttl
      → (jwt_auth_guard j
            (parts "Bearer" (some (issue_human_refresh_token j id secret now)))
            secret
            later
          ≡ err access_token_required)
        × (jwt_auth_guard j
              (parts "Bearer" (some (issue_agent_refresh_token j id scopes secret now)))
              secret
              later
            ≡ err access_token_required)
  unfolding jwt_auth_guard
  refresh_tokens_not_admitted scopes now later n h = (
    rw (human_refresh_reads j law secret id now later n h, check_token) refl,
    rw (agent_refresh_reads j law secret id scopes now later n (omega (arith, h)), check_token)
        refl,
  )

  -- With a library of tokens that keeps its word: from the end of the life of an agent's access
  -- token on, neither that token nor a human's access token that was issued with it passes the
  -- guard of routes.
  pub expired_not_admitted :
      (scopes : Items) (now later : ℕ)
      → now / 1000 + agent_access_token_ttl ≤ later / 1000
      → (jwt_auth_guard j
            (parts "Bearer" (some (issue_human_access_token j id secret now)))
            secret
            later
          ≡ err invalid_token)
        × (jwt_auth_guard j
              (parts "Bearer" (some (issue_agent_access_token j id scopes secret now)))
              secret
              later
            ≡ err invalid_token)
  unfolding jwt_auth_guard issue_human_access_token issue_agent_access_token
  expired_not_admitted scopes now later h =
      let late = verify-create_late j law secret in
      (
        rw
            (
              late (human_payload id "access") human_access_token_ttl now later (omega (arith, h)),
              check_token,
            )
            refl,
        rw (late (agent_payload id scopes "access") agent_access_token_ttl now later h, check_token)
            refl,
      )

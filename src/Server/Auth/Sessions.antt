-- ===== src/Server/Auth/Sessions.antt =====
-- The tokens of an agent in the service: what its refresh token and its access token give.
use kalen.Prelude.{
  ℕ, ◌+◌, ◌/◌, ◌<◌, String, ◌≡◌, ◌≢◌, refl, Option, none, some, Option-cases, inl, inr, ok,
}
use kalen.Prelude.Dict.{Dict, lookup}
use kalen.Shared.Json.{Items, str}
use kalen.Identity.Token.{
  Jose, IsJose, issue_agent_access_token, issue_agent_refresh_token, agent_access_token_ttl,
  agent_refresh_token_ttl,
}
use kalen.Identity.Token.Trips.{agent_read, agent_access_reads, agent_refresh_reads, refresh_agent}
use kalen.Server.Guards.{parts, check_token, jwt_auth_guard}
use kalen.Server.Accounts.{User, Agent}
use kalen.Server.Auth.{
  Session, Identity, Answer, known, unknown, agent_identity, refresh, verify_access_token,
}

module _ {Token : Type 0} (j : Jose Token) (law : IsJose j) (users : Dict User)
    (agents : Dict Agent) where
  -- what the service says of an agent's id
  abbrev pub agent_answer : String → Option Agent → Answer
  agent_answer id none = unknown id (str "agent")
  agent_answer id (some a) = known (agent_identity a)

  -- With a library of tokens that keeps its word: while an access token of an agent lives, the service
  -- answers that it is valid, with what the table has of the agent, whatever its status, and with the
  -- id alone where the table has no such agent any more.
  pub verify_access_token_lem :
      (id secret : String) (scopes : Items) (now later : ℕ)
      → id ≢ ""
      → later / 1000 < now / 1000 + agent_access_token_ttl
      → verify_access_token j users agents
          (issue_agent_access_token j id scopes secret now)
          secret
          later
        ≡ agent_answer id (lookup id agents)
  unfolding verify_access_token
  verify_access_token_lem id secret scopes now later named alive =
      rw (agent_access_reads j law secret id scopes now later named alive, verify_access_token)
        (elim (Option-cases (lookup id agents)) [
          | inl missing ↦ rw missing refl
          | inr (a, found) ↦ rw found refl
        ])

  -- the identity in a refreshed session of an agent
  abbrev pub row_identity : Option Agent → Option Identity
  row_identity none = none
  row_identity (some a) = some (agent_identity a)

  -- With a library of tokens that keeps its word: while a refresh token of an agent lives, it
  -- gives a session, with what the table has of the agent, whatever its status, and also where
  -- the table has no such agent any more; and the access token of that session passes the guard
  -- of routes while it lives, which reads the agent back with the scopes of the token that was
  -- refreshed.
  pub refresh_session :
      (id secret : String) (scopes : Items) (now later last : ℕ)
      → id ≢ ""
      → later / 1000 < now / 1000 + agent_refresh_token_ttl
      → last / 1000 < later / 1000 + agent_access_token_ttl
      → (s : Session Token) × (refresh j users agents
            (issue_agent_refresh_token j id scopes secret now)
            secret
            later
          ≡ some s)
        × (s.expires_in ≡ 86400)
        × (s.identity ≡ row_identity (lookup id agents))
        × (jwt_auth_guard j (parts "Bearer" (some s.access_token)) secret last
            ≡ ok (agent_read id scopes "access"))
  unfolding refresh jwt_auth_guard
  refresh_session id secret scopes now later last named alive alive' =
      let (a, r, gives, reads, _) =
        refresh_agent j law secret id scopes now later last named alive alive' in
      let p = agent_refresh_reads j law secret id scopes now later named alive in
      (
        record {
          access_token = a;
          refresh_token = r;
          expires_in = 86400;
          identity = row_identity (lookup id agents);
        },
        rw (gives, refresh)
            (rw p (elim (Option-cases (lookup id agents)) [
              | inl missing ↦ rw missing refl
              | inr (b, found) ↦ rw found refl
            ])),
        refl,
        refl,
        rw (reads, check_token) refl,
      )

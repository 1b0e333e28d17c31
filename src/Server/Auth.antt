-- ===== src/Server/Auth.antt =====
-- apps/server/src/auth/auth.service.ts: the agents' sign-in and the tokens. `parse_date` is the
-- language's reader of dates, in milliseconds; a time before 1970 is far from any now.
pub mod Agents
pub mod Sessions
pub mod Passkeys
mod Tests
use kalen.Prelude.{
  ℕ, ◌+◌, ◌-◌, ◌*◌, String, Bool, true, false, not, Option, none, some, List, [], ◌∷◌, ◌++◌, ◌==◌,
  ltb, if◌then◌else◌, Result, ok, err,
}
use kalen.Prelude.Dict.{Dict, lookup, insert}
use kalen.Shared.Json.{Json}
use kalen.Shared.Text.{Units, units}
use kalen.Identity.Token.{
  Jose, TokenPayload, is_str, strings, verify_token, refresh_tokens, issue_agent_access_token,
  issue_agent_refresh_token,
}
use kalen.Identity.Keys.{Noble, verify}
use kalen.Server.Accounts.{
  User, Agent, AgentRole, AgentStatus, active, suspended, deactivated, AgentUpdate, no_update,
  update_agent,
}

-- the role in an answer
pub data AnyRole : Type 0 where
  user_role : String → AnyRole
  agent_role : AgentRole → AnyRole

-- the `identity` of an answer; the agents' sign-in gives their scopes too
pub record Identity : Type 0 where
  pub id : String
  pub suffix : Units
  pub entity_type : String
  pub display_name : Units
  pub role : AnyRole
  pub scope : Option (List String)

abbrev pub user_identity : User → String → Identity
user_identity u entity_type = record {
  id = u.id;
  suffix = u.suffix;
  entity_type = entity_type;
  display_name = u.display_name;
  role = user_role u.role;
  scope = none;
}

abbrev pub agent_identity : Agent → Identity
agent_identity a = record {
  id = a.id;
  suffix = a.suffix;
  entity_type = "agent";
  display_name = a.display_name;
  role = agent_role a.role;
  scope = none;
}

-- what a sign-in answers; the type of the tokens is always "Bearer"
pub record Session (Token : Type 0) : Type 0 where
  pub access_token : Token
  pub refresh_token : Token
  pub expires_in : ℕ
  pub identity : Option Identity

pub data AgentRefusal : Type 0 where
  stale_timestamp agent_not_found bad_signature : AgentRefusal
  agent_is : AgentStatus → AgentRefusal

abbrev pub max_skew : ℕ
max_skew = 30000

-- `Math.abs(a - b)`
abbrev pub distance : ℕ → ℕ → ℕ
distance a b = (a - b) + (b - a)

-- `isNaN(ts) || Math.abs(now - ts) > 30_000`, not so
abbrev pub is_fresh : Option ℕ → ℕ → Bool
is_fresh none now = false
is_fresh (some ts) now = not (ltb max_skew (distance now ts))

abbrev is_active : AgentStatus → Bool
is_active active = true
is_active suspended = false
is_active deactivated = false

module _ {Token : Type 0} (ed : Noble) (j : Jose Token) (parse_date : Units → Option ℕ) where
  -- the end of `authenticateAgent`: the agent's times and its two tokens
  abbrev pub sign_in : Dict Agent → Agent → (id secret : String) → ℕ → Dict Agent × Session Token
  sign_in agents a id secret now = (
    (update_agent agents a.id
        (record no_update { last_active_at = some now; last_seen_at = some now })).0,
    record {
      access_token = issue_agent_access_token j id (strings a.scopes) secret now;
      refresh_token = issue_agent_refresh_token j id (strings a.scopes) secret now;
      expires_in = 86400;
      identity = some (record (agent_identity a) { scope = some a.scopes });
    },
  )

  -- `authenticateAgent`, where one reading of the clock stands for all
  unfoldable pub authenticate_agent :
      Dict Agent
      → (id : String) → (timestamp signature : Units) → (secret : String) → ℕ
      → Dict Agent × Result AgentRefusal (Session Token)
  authenticate_agent agents id timestamp signature secret now =
      if not (is_fresh (parse_date timestamp) now)
      then (agents, err stale_timestamp)
      else elim (lookup id agents) [
        | none ↦ (agents, err agent_not_found)
        | some a ↦
            if not (is_active a.status)
            then (agents, err (agent_is a.status))
            else if not (verify ed (units id ++ timestamp) signature a.public_key)
            then (agents, err bad_signature)
            else let (agents', session) = sign_in agents a id secret now in (agents', ok session)
      ]

-- the answer of `verifyAccessToken`: not valid; or valid, with an identity of the tables, or with
-- what the token says where they have none
pub data Answer : Type 0 where
  not_valid : Answer
  known : Identity → Answer
  unknown : (id : String) (entity_type : Json) → Answer

abbrev found_or : TokenPayload → Option Identity → Answer
found_or p none = unknown p.sub p.kind
found_or p (some i) = known i

module _ {Token : Type 0} (j : Jose Token) (users : Dict User) (agents : Dict Agent) where
  -- the identity of a payload in the tables; `verifyAccessToken` reads a user's kind there
  abbrev identity_of : (User → String) → TokenPayload → Option Identity
  identity_of kind_of p =
      if is_str p.kind "human"
      then elim (lookup p.sub users) [ none ↦ none | some u ↦ some (user_identity u (kind_of u)) ]
      else elim (lookup p.sub agents) [ none ↦ none | some a ↦ some (agent_identity a) ]

  -- the payload of the token that was refreshed, in the answer
  abbrev answer_of : Option TokenPayload → Token × Token → Session Token
  answer_of none (access, refresh) = record {
    access_token = access;
    refresh_token = refresh;
    expires_in = 900;
    identity = none;
  }
  answer_of (some p) (access, refresh) = record {
    access_token = access;
    refresh_token = refresh;
    expires_in = if is_str p.kind "agent" then 86400 else 900;
    identity = identity_of (λ u. "human") p;
  }

  -- `refresh`: `none` is the refusal
  unfoldable pub refresh : Token → (secret : String) → ℕ → Option (Session Token)
  refresh token secret now = elim (refresh_tokens j token secret now) [
    | none ↦ none
    | some tokens ↦ some (answer_of (verify_token j token secret now) tokens)
  ]

  -- `verifyAccessToken`
  unfoldable pub verify_access_token : Token → (secret : String) → ℕ → Answer
  verify_access_token token secret now = elim (verify_token j token secret now) [
    | none ↦ not_valid
    | some p ↦
        if not (is_str p.token_type "access")
        then not_valid
        else found_or p (identity_of (λ u. u.kind) p)
  ]

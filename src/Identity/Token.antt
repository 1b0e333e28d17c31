-- ===== src/Identity/Token.antt =====
-- packages/identity/src/token/jwt.ts. A signed token is of a type that only the library `jose` reads;
-- claims that the source casts without a check are values of any shape. `now` is in milliseconds.
pub mod Trips
pub mod Plain
mod Tests
use kalen.Prelude.{
  ℕ, ◌+◌, ◌/◌, ◌<◌, ◌≤◌, String, ◌≡◌, Bool, true, false, not, ◌||◌, Option, none, some, List, [],
  ◌∷◌, ◌==◌, if◌then◌else◌,
}
use kalen.Shared.Json.{Json, str, arr, Items, nil, cons, truthy, or_default}

abbrev pub jwt_issuer : String
jwt_issuer = "kalen"

abbrev pub jwt_audience : String
jwt_audience = "kalen-api"

abbrev pub human_access_token_ttl : ℕ
human_access_token_ttl = 900

abbrev pub human_refresh_token_ttl : ℕ
human_refresh_token_ttl = 604800

abbrev pub agent_access_token_ttl : ℕ
agent_access_token_ttl = 86400

abbrev pub agent_refresh_token_ttl : ℕ
agent_refresh_token_ttl = 2592000

-- what a token says; times are in seconds
pub record Claims : Type 0 where
  pub iss : String
  pub aud : String
  pub sub : Option String
  pub iat : ℕ
  pub exp : ℕ
  pub kind : Option Json
  pub token_type : Option Json
  pub suffix : Option Json
  pub scopes : Option Json

-- `SignJWT` with `HS256`, and `jwtVerify` with an issuer and an audience: `none` where it throws
pub record Jose (Token : Type 0) : Type 0 where
  pub sign : Claims → (secret : String) → Token
  pub jwt_verify : Token → (secret issuer audience : String) → (now : ℕ) → Option Claims

-- What the library says of itself: a token that it has signed is verified with the same secret, the
-- issuer and the audience of the token, before it expires, and not from then on.
pub record IsJose {Token : Type 0} (j : Jose Token) : Type 0 where
  pub signed :
      (c : Claims) (secret : String) (now : ℕ)
      → now < c.exp
      → j.jwt_verify (j.sign c secret) secret c.iss c.aud now ≡ some c
  pub expired :
      (c : Claims) (secret issuer audience : String) (now : ℕ)
      → c.exp ≤ now
      → j.jwt_verify (j.sign c secret) secret issuer audience now ≡ none

-- `TokenPayload`
pub record TokenPayload : Type 0 where
  pub kind : Json
  pub sub : String
  pub suffix : Option Json
  pub scopes : Option Items
  pub token_type : Json

abbrev pub strings : List String → Items
strings [] = nil
strings (s ∷ ss) = cons (str s) (strings ss)

-- `payload.suffix` where it counts as true
abbrev set_suffix : Option Json → Option Json
set_suffix suffix = if truthy suffix then suffix else none

-- `payload.scopes` where there are any
abbrev set_scopes : Option Items → Option Json
set_scopes none = none
set_scopes (some nil) = none
set_scopes (some (cons v vs)) = some (arr (cons v vs))

-- what `createToken` signs
abbrev pub claims_of : TokenPayload → ℕ → ℕ → Claims
claims_of p ttl_seconds now = record {
  iss = jwt_issuer;
  aud = jwt_audience;
  sub = some p.sub;
  iat = now / 1000;
  exp = now / 1000 + ttl_seconds;
  kind = some p.kind;
  token_type = some p.token_type;
  suffix = set_suffix p.suffix;
  scopes = set_scopes p.scopes;
}

abbrev pub human_payload : String → String → TokenPayload
human_payload user_id token_type = record {
  kind = str "human";
  sub = user_id;
  suffix = none;
  scopes = none;
  token_type = str token_type;
}

abbrev pub agent_payload : String → Items → String → TokenPayload
agent_payload agent_id scopes token_type = record {
  kind = str "agent";
  sub = agent_id;
  suffix = some (str "(ai)");
  scopes = some scopes;
  token_type = str token_type;
}

-- `payload.scopes && Array.isArray(payload.scopes)`
abbrev read_scopes : Option Json → Option Items
read_scopes (some (arr vs)) = some vs
read_scopes _ = none

-- `verifyToken` from the claims on
unfoldable pub payload_of : Claims → Option TokenPayload
payload_of c = elim c.sub [
  | none ↦ none
  | some sub ↦ elim c.kind [
    | none ↦ none
    | some kind ↦
        if sub == "" || not (truthy (some kind))
        then none
        else some (record {
          kind = kind;
          sub = sub;
          suffix = set_suffix c.suffix;
          scopes = read_scopes c.scopes;
          token_type = or_default c.token_type (str "access");
        })
  ]
]

-- `=== "…"` of a value
abbrev pub is_str : Json → String → Bool
is_str (str s) t = s == t
is_str _ t = false

abbrev pub scopes_or_none : Option Items → Items
scopes_or_none none = nil
scopes_or_none (some vs) = vs

module _ {Token : Type 0} (j : Jose Token) where
  -- `createToken`
  unfoldable pub create_token : TokenPayload → String → ℕ → ℕ → Token
  create_token p secret ttl_seconds now = j.sign (claims_of p ttl_seconds now) secret

  -- `issueHumanAccessToken`, `issueHumanRefreshToken`
  unfoldable pub issue_human_access_token : String → String → ℕ → Token
  unfolding create_token
  issue_human_access_token user_id secret now =
      create_token (human_payload user_id "access") secret human_access_token_ttl now

  unfoldable pub issue_human_refresh_token : String → String → ℕ → Token
  unfolding create_token
  issue_human_refresh_token user_id secret now =
      create_token (human_payload user_id "refresh") secret human_refresh_token_ttl now

  -- `issueAgentAccessToken`, `issueAgentRefreshToken`
  unfoldable pub issue_agent_access_token : String → Items → String → ℕ → Token
  unfolding create_token
  issue_agent_access_token agent_id scopes secret now =
      create_token (agent_payload agent_id scopes "access") secret agent_access_token_ttl now

  unfoldable pub issue_agent_refresh_token : String → Items → String → ℕ → Token
  unfolding create_token
  issue_agent_refresh_token agent_id scopes secret now =
      create_token (agent_payload agent_id scopes "refresh") secret agent_refresh_token_ttl now

  -- `verifyToken`
  unfoldable pub verify_token : Token → String → ℕ → Option TokenPayload
  unfolding payload_of
  verify_token token secret now =
      elim (j.jwt_verify token secret jwt_issuer jwt_audience (now / 1000)) [
        | none ↦ none
        | some c ↦ payload_of c
      ]

  -- the two tokens of `refreshTokens`, by the kind of the payload
  unfoldable pub reissue : TokenPayload → String → ℕ → Token × Token
  unfolding issue_human_access_token issue_human_refresh_token issue_agent_access_token
      issue_agent_refresh_token
  reissue p secret now =
      if is_str p.kind "human"
      then (issue_human_access_token p.sub secret now, issue_human_refresh_token p.sub secret now)
      else (
        issue_agent_access_token p.sub (scopes_or_none p.scopes) secret now,
        issue_agent_refresh_token p.sub (scopes_or_none p.scopes) secret now,
      )

  -- `refreshTokens`: the access token and the refresh token
  unfoldable pub refresh_tokens : Token → String → ℕ → Option (Token × Token)
  unfolding verify_token reissue
  refresh_tokens token secret now = elim (verify_token token secret now) [
    | none ↦ none
    | some p ↦ if not (is_str p.token_type "refresh") then none else some (reissue p secret now)
  ]

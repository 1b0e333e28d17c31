-- ===== src/Identity/Token/Trips.antt =====
-- What becomes of a payload that is signed, verified and refreshed.
use kalen.Prelude.{
  ℕ, ◌+◌, ◌/◌, ◌<◌, ◌≤◌, String, ◌≡◌, refl, ap, ◌∙◌, ◌≢◌, true, Option, none, some, arith, eq_iff,
}
use kalen.Shared.Json.{Items, nil, cons}
use kalen.Identity.Token.{
  jwt_issuer, jwt_audience, Jose, IsJose, TokenPayload, claims_of, payload_of, human_payload,
  agent_payload, create_token, verify_token, reissue, refresh_tokens, is_str,
  human_access_token_ttl, human_refresh_token_ttl, agent_access_token_ttl, agent_refresh_token_ttl,
  issue_human_access_token, issue_human_refresh_token, issue_agent_access_token,
  issue_agent_refresh_token, scopes_or_none,
}

-- a payload as it is read back: with no scopes in place of an empty list
abbrev pub read_back : Items → Option Items
read_back nil = none
read_back (cons v vs) = some (cons v vs)

abbrev pub agent_read : String → Items → String → TokenPayload
agent_read agent_id scopes token_type = record (agent_payload agent_id scopes token_type) {
  scopes = read_back scopes;
}

module _ {Token : Type 0} (j : Jose Token) (law : IsJose j) (secret : String) where
  verify-create :
      (p : TokenPayload) (ttl now later : ℕ)
      → later / 1000 < now / 1000 + ttl
      → verify_token j (create_token j p secret ttl now) secret later
        ≡ payload_of (claims_of p ttl now)
  unfolding verify_token create_token
  verify-create p ttl now later h =
      let c = claims_of p ttl now in
      let e : j.jwt_verify (j.sign c secret) secret jwt_issuer jwt_audience (later / 1000)
          ≡ some c =
        law.signed c secret (later / 1000) h in
      rw (e, verify_token) refl

  pub verify-create_late :
      (p : TokenPayload) (ttl now later : ℕ)
      → now / 1000 + ttl ≤ later / 1000
      → verify_token j (create_token j p secret ttl now) secret later ≡ none
  unfolding verify_token create_token
  verify-create_late p ttl now later h =
      let c = claims_of p ttl now in
      rw (law.expired c secret jwt_issuer jwt_audience (later / 1000) h, verify_token) refl

  human_reads :
      (id type : String) (ttl now : ℕ)
      → id ≢ ""
      → payload_of (claims_of (human_payload id type) ttl now) ≡ some (human_payload id type)
  unfolding payload_of
  human_reads id type ttl now n = ground (arith, eq_iff id "")

  agent_reads :
      (id type : String) (scopes : Items) (ttl now : ℕ)
      → id ≢ ""
      → payload_of (claims_of (agent_payload id scopes type) ttl now)
        ≡ some (agent_read id scopes type)
  unfolding payload_of
  agent_reads id type nil ttl now n = ground (arith, eq_iff id "")
  agent_reads id type (cons v vs) ttl now n = ground (arith, eq_iff id "")

  pub human_access_reads :
      (id : String) (now later : ℕ)
      → id ≢ ""
      → later / 1000 < now / 1000 + human_access_token_ttl
      → verify_token j (issue_human_access_token j id secret now) secret later
        ≡ some (human_payload id "access")
  unfolding issue_human_access_token
  human_access_reads id now later n h =
      verify-create (human_payload id "access") human_access_token_ttl now later h
      ∙ human_reads id "access" human_access_token_ttl now n

  pub human_refresh_reads :
      (id : String) (now later : ℕ)
      → id ≢ ""
      → later / 1000 < now / 1000 + human_refresh_token_ttl
      → verify_token j (issue_human_refresh_token j id secret now) secret later
        ≡ some (human_payload id "refresh")
  unfolding issue_human_refresh_token
  human_refresh_reads id now later n h =
      verify-create (human_payload id "refresh") human_refresh_token_ttl now later h
      ∙ human_reads id "refresh" human_refresh_token_ttl now n

  pub agent_access_reads :
      (id : String) (scopes : Items) (now later : ℕ)
      → id ≢ ""
      → later / 1000 < now / 1000 + agent_access_token_ttl
      → verify_token j (issue_agent_access_token j id scopes secret now) secret later
        ≡ some (agent_read id scopes "access")
  unfolding issue_agent_access_token
  agent_access_reads id scopes now later n h =
      verify-create (agent_payload id scopes "access") agent_access_token_ttl now later h
      ∙ agent_reads id "access" scopes agent_access_token_ttl now n

  pub agent_refresh_reads :
      (id : String) (scopes : Items) (now later : ℕ)
      → id ≢ ""
      → later / 1000 < now / 1000 + agent_refresh_token_ttl
      → verify_token j (issue_agent_refresh_token j id scopes secret now) secret later
        ≡ some (agent_read id scopes "refresh")
  unfolding issue_agent_refresh_token
  agent_refresh_reads id scopes now later n h =
      verify-create (agent_payload id scopes "refresh") agent_refresh_token_ttl now later h
      ∙ agent_reads id "refresh" scopes agent_refresh_token_ttl now n

  reissued :
      (t : Token) (p : TokenPayload) (later : ℕ)
      → verify_token j t secret later ≡ some p
      → is_str p.token_type "refresh" ≡ true
      → refresh_tokens j t secret later ≡ some (reissue j p secret later)
  unfolding refresh_tokens
  reissued t p later e h = rw (e, refresh_tokens) (rw h refl)

  -- the scopes of a reissued token are those of the first
  same_scopes : (scopes : Items) → scopes_or_none (read_back scopes) ≡ scopes
  same_scopes nil = refl
  same_scopes (cons v vs) = refl

  -- With a library of tokens that keeps its word: for a human whose id is not empty, the refresh
  -- token gives two new tokens while it lives, and while the new access token lives, both are
  -- verified, as an access and a refresh token of the same human.
  pub refresh_human :
      (id : String) (now later last : ℕ)
      → id ≢ ""
      → later / 1000 < now / 1000 + human_refresh_token_ttl
      → last / 1000 < later / 1000 + human_access_token_ttl
      → (a : Token) × (r : Token) × (refresh_tokens j
            (issue_human_refresh_token j id secret now)
            secret
            later
          ≡ some (a, r))
        × (verify_token j a secret last ≡ some (human_payload id "access"))
        × (verify_token j r secret last ≡ some (human_payload id "refresh"))
  unfolding reissue
  refresh_human id now later last n h h' = (
    issue_human_access_token j id secret later,
    issue_human_refresh_token j id secret later,
    reissued (issue_human_refresh_token j id secret now) (human_payload id "refresh") later
        (human_refresh_reads id now later n h) refl,
    human_access_reads id later last n h',
    human_refresh_reads id later last n (omega (arith, h')),
  )

  -- With a library of tokens that keeps its word: for an agent whose id is not empty, its refresh
  -- token gives two new tokens while it lives, and while the new access token lives, both are
  -- verified, as an access and a refresh token of the same agent with the same scopes.
  pub refresh_agent :
      (id : String) (scopes : Items) (now later last : ℕ)
      → id ≢ ""
      → later / 1000 < now / 1000 + agent_refresh_token_ttl
      → last / 1000 < later / 1000 + agent_access_token_ttl
      → (a : Token) × (r : Token) × (refresh_tokens j
            (issue_agent_refresh_token j id scopes secret now)
            secret
            later
          ≡ some (a, r))
        × (verify_token j a secret last ≡ some (agent_read id scopes "access"))
        × (verify_token j r secret last ≡ some (agent_read id scopes "refresh"))
  unfolding reissue
  refresh_agent id scopes now later last n h h' = (
    issue_agent_access_token j id scopes secret later,
    issue_agent_refresh_token j id scopes secret later,
    reissued (issue_agent_refresh_token j id scopes secret now) (agent_read id scopes "refresh")
          later (agent_refresh_reads id scopes now later n h) refl
        ∙ ap
            (λ vs. some (
              issue_agent_access_token j id vs secret later,
              issue_agent_refresh_token j id vs secret later,
            ))
            (same_scopes scopes),
    agent_access_reads id scopes later last n h',
    agent_refresh_reads id scopes later last n (omega (arith, h')),
  )

  -- With a library of tokens that keeps its word: for an id that is not empty, the access tokens
  -- that were issued to a human or an agent give no new tokens within the life of the human's.
  pub access_tokens_do_not_refresh :
      (id : String) (scopes : Items) (now later : ℕ)
      → id ≢ ""
      → later / 1000 < now / 1000 + human_access_token_ttl
      → (refresh_tokens j (issue_human_access_token j id secret now) secret later ≡ none)
        × (refresh_tokens j (issue_agent_access_token j id scopes secret now) secret later ≡ none)
  unfolding refresh_tokens
  access_tokens_do_not_refresh id scopes now later n h = (
    rw (human_access_reads id now later n h, refresh_tokens) refl,
    rw (agent_access_reads id scopes now later n (omega (arith, h)), refresh_tokens) refl,
  )

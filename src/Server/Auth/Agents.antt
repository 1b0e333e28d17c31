-- ===== src/Server/Auth/Agents.antt =====
-- The agents' sign-in: who gets a session, and what the same request does a second time.
use kalen.Prelude.{
  ℕ, ◌+◌, ◌/◌, ◌<◌, ◌≤◌, String, ◌≡◌, ◌≢◌, ◌↔◌, refl, subst, Bool, true, false, Option, none, some,
  arith, ◌&&◌, ◌==◌, eq_refl, Option-cases, inl, inr, if◌then◌else◌, ◌++◌, Result, ok, err,
}
use kalen.Prelude.Dict.{Dict, lookup, insert, lookup-insert}
use kalen.Shared.Text.{Units, units}
use kalen.Identity.Token.{Jose, IsJose, strings, issue_agent_access_token, agent_access_token_ttl}
use kalen.Identity.Token.Trips.{agent_read, agent_access_reads}
use kalen.Identity.Keys.{Noble, verify}
use kalen.Server.Accounts.{
  Agent, AgentStatus, no_update, active, suspended, deactivated, update_agent,
}
use kalen.Server.Guards.{parts, check_token, jwt_auth_guard}
use kalen.Server.Auth.{AgentRefusal, Session, max_skew, distance, is_active, authenticate_agent}

abbrev pub is_ok {ℓ} : {E A : Type ℓ} → Result E A → Bool
is_ok (ok a) = true
is_ok (err e) = false

-- the row of an agent that signs in
abbrev pub signed_in : Agent → ℕ → Agent
signed_in a now = record a { last_active_at = some now; last_seen_at = some now }

signed_in_written :
    (agents : Dict Agent) (id : String) (a : Agent) (now : ℕ)
    → lookup id agents ≡ some a
    → (update_agent agents id
        (record no_update { last_active_at = some now; last_seen_at = some now })).0
      ≡ insert id (signed_in a now) agents
unfolding update_agent
signed_in_written agents id a now found = rw (found, update_agent) refl

active_iff : (s : AgentStatus) → (is_active s ≡ true) ↔ (s ≡ active)
active_iff active = (λ _. refl, λ _. refl)
active_iff suspended = (λ h. absurd (ground (arith, h)), λ h. absurd (ground (arith, h)))
active_iff deactivated = (λ h. absurd (ground (arith, h)), λ h. absurd (ground (arith, h)))

module _ {Token : Type 0} (ed : Noble) (j : Jose Token) (parse_date : Units → Option ℕ)
    (agents : Dict Agent) (id secret : String) (timestamp signature : Units) where
  -- what the sign-in asks of the time that was read and of the agent that was found
  pub MaySignIn : Option ℕ → Option Agent → ℕ → Type 0
  MaySignIn none row now = ⊥
  MaySignIn (some ts) none now = ⊥
  MaySignIn (some ts) (some a) now =
      (a.status ≡ active)
      × (verify ed (units id ++ timestamp) signature a.public_key ≡ true)
      × (distance now ts ≤ max_skew)

  -- An agent signs in exactly when the timestamp of its request is a date at most 30 seconds from
  -- the clock, the id is that of an agent, that agent is active, and the signature of the id with
  -- the timestamp is verified under its public key.
  pub authenticate_agent_iff :
      (now : ℕ)
      → (is_ok (authenticate_agent ed j parse_date agents id timestamp signature secret now).1
          ≡ true)
        ↔ MaySignIn (parse_date timestamp) (lookup id agents) now
  unfolding authenticate_agent MaySignIn
  authenticate_agent_iff now = elim (Option-cases (parse_date timestamp)) [
    | inl no_time ↦
        rw (no_time, authenticate_agent) (λ h. absurd (ground (arith, h)), λ h. absurd h)
    | inr (ts, read) ↦
        rw (read, authenticate_agent)
          (elim (Option-cases (lookup id agents)) [
            | inl missing ↦ rw missing (λ h. absurd (ground (arith, h)), λ h. absurd h)
            | inr (a, found) ↦ rw found (ground (arith, active_iff a.status))
          ])
  ]

  -- A refused sign-in writes nothing, and one that succeeds writes the clock to the two times of the
  -- agent and nothing else.
  pub authenticate_agent_writes :
      (a : Agent) (now : ℕ) (k : String)
      → lookup id agents ≡ some a
      → a.id ≡ id
      → let (agents', r) =
          authenticate_agent ed j parse_date agents id timestamp signature secret now in
        lookup k agents'
        ≡ (if is_ok r && (id == k) then some (signed_in a now) else lookup k agents)
  unfolding authenticate_agent
  authenticate_agent_writes a now k found same =
      rw (found, authenticate_agent)
        (rw same (
          rw (signed_in_written agents id a now found)
            (ground (arith, lookup-insert id k (signed_in a now) agents))))

  -- the same, for an agent that is there
  pub found_iff :
      (a : Agent) (ts now : ℕ)
      → lookup id agents ≡ some a
      → parse_date timestamp ≡ some ts
      → (is_ok (authenticate_agent ed j parse_date agents id timestamp signature secret now).1
          ≡ true)
        ↔ ((a.status ≡ active)
            × (verify ed (units id ++ timestamp) signature a.public_key ≡ true)
            × (distance now ts ≤ max_skew))
  unfolding MaySignIn
  found_iff a ts now found read =
      let r : Result AgentRefusal (Session Token) =
        (authenticate_agent ed j parse_date agents id timestamp signature secret now).1 in
      subst (λ t. (is_ok r ≡ true) ↔ MaySignIn t (some a) now) read
        (subst (λ row. (is_ok r ≡ true) ↔ MaySignIn (parse_date timestamp) row now) found
          (authenticate_agent_iff now))

module _ {Token : Type 0} (ed : Noble) (j : Jose Token) (parse_date : Units → Option ℕ)
    (agents : Dict Agent) (id secret : String) (timestamp signature : Units) (a : Agent)
    (ts now later : ℕ) (found : lookup id agents ≡ some a) (same : a.id ≡ id)
    (read : parse_date timestamp ≡ some ts)
    (first : is_ok (authenticate_agent ed j parse_date agents id timestamp signature secret now).1
      ≡ true) where
  signed_in_row :
      lookup id (authenticate_agent ed j parse_date agents id timestamp signature secret now).0
      ≡ some (signed_in a now)
  signed_in_row = ground (
    arith,
    first,
    eq_refl id,
    authenticate_agent_writes ed j parse_date agents id secret timestamp signature a now id found
        same,
  )

  -- A request that signed an agent in signs it in once more, the very same request, exactly while
  -- the clock is at most 30 seconds from the time in it.
  pub replay_iff :
      let agents' =
        (authenticate_agent ed j parse_date agents id timestamp signature secret now).0 in
      (is_ok (authenticate_agent ed j parse_date agents' id timestamp signature secret later).1
        ≡ true)
      ↔ (distance later ts ≤ max_skew)
  replay_iff =
      let agents' : Dict Agent =
        (authenticate_agent ed j parse_date agents id timestamp signature secret now).0 in
      let was =
        (found_iff ed j parse_date agents id secret timestamp signature a ts now found read).0
          first in
      let (sound, complete) =
        found_iff ed j parse_date agents' id secret timestamp signature (signed_in a now) ts later
          signed_in_row read in
      (λ h. (sound h).2, λ h. complete (was.0, was.1, h))

  -- Two sign-ins with the same request are at most a minute apart.
  pub replays_are_close :
      let agents' =
        (authenticate_agent ed j parse_date agents id timestamp signature secret now).0 in
      is_ok (authenticate_agent ed j parse_date agents' id timestamp signature secret later).1
        ≡ true
      → distance now later ≤ 60000
  replays_are_close again =
      let was =
        (found_iff ed j parse_date agents id secret timestamp signature a ts now found read).0
          first in
      omega (arith, was.2, replay_iff.0 again)

session_token :
    {Token : Type 0} (ed : Noble) (j : Jose Token) (parse_date : Units → Option ℕ)
    (agents agents' : Dict Agent) (id secret : String) (timestamp signature : Units) (a : Agent)
    (session : Session Token) (now : ℕ)
    → lookup id agents ≡ some a
    → authenticate_agent ed j parse_date agents id timestamp signature secret now
      ≡ (agents', ok session)
    → issue_agent_access_token j id (strings a.scopes) secret now ≡ session.access_token
unfolding authenticate_agent
session_token ed j parse_date agents agents' id secret timestamp signature a session now found =
    rw (found, authenticate_agent) (λ h. ground (arith, h))

-- With a library of tokens that keeps its word: the access token of a session passes the guard of
-- routes while it lives, which reads the agent back with the scopes of its row, whatever the status
-- of the agent is by then.
pub session_admits :
    {Token : Type 0} (ed : Noble) (j : Jose Token) (parse_date : Units → Option ℕ)
    (agents agents' : Dict Agent) (id secret : String) (timestamp signature : Units) (a : Agent)
    (session : Session Token) (now later : ℕ)
    → IsJose j
    → id ≢ ""
    → lookup id agents ≡ some a
    → authenticate_agent ed j parse_date agents id timestamp signature secret now
      ≡ (agents', ok session)
    → later / 1000 < now / 1000 + agent_access_token_ttl
    → jwt_auth_guard j (parts "Bearer" (some session.access_token)) secret later
      ≡ ok (agent_read id (strings a.scopes) "access")
unfolding jwt_auth_guard
session_admits ed j parse_date agents agents' id secret timestamp signature a session now later law
      named found h alive =
    rw
      (← session_token ed j parse_date agents agents' id secret timestamp signature a session now
        found h)
      (rw (agent_access_reads j law secret id (strings a.scopes) now later named alive, check_token)
        refl)

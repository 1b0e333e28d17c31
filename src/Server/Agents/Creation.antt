-- ===== src/Server/Agents/Creation.antt =====
-- A new agent: its row, and its first sign-in.
use kalen.Prelude.{
  ℕ, ◌≤◌, String, ◌≡◌, refl, subst, ◌∙◌, true, Option, none, some, ◌++◌, ◌==◌, arith, eq_refl,
  Option-cases, Bool-cases, inl, inr, Result, ok, err,
}
use kalen.Prelude.Dict.{Dict, lookup, insert, lookup-insert}
use kalen.Shared.Text.{Units, units}
use kalen.Shared.Validation.{
  Verdict, valid, invalid, NameError, KeyError, validate_agent_name, validate_public_key,
}
use kalen.Identity.Token.{Jose}
use kalen.Identity.Keys.{Bytes, Noble, sign, from_private_key, get_public_key_base64url}
use kalen.Identity.Keys.Signatures.{IsNoble, verify-sign}
use kalen.Identity.Manifest.{CreationError}
use kalen.Identity.Agents.{Fresh, Created, create_agent_identity}
use kalen.Server.Accounts.{User, Agent, AgentStatus, active}
use kalen.Server.Accounts as Accounts
use kalen.Server.Auth.{distance, max_skew, authenticate_agent}
use kalen.Server.Auth.Agents.{is_ok, found_iff}
use kalen.Server.Agents.{Capabilities, request_of, row_of, store_agent, create_agent}

inserted :
    (agents agents' : Dict Agent) (a : Agent)
    → Accounts.create_agent agents a ≡ some agents'
    → insert a.id a agents ≡ agents'
unfolding Accounts.create_agent
inserted agents agents' a h = ground (arith, h)

module _ {Token : Type 0} (ed : Noble) (j : Jose Token) (users : Dict User)
    (agents agents' : Dict Agent) (owner_id secret : String) (name key hex : Units)
    (capabilities : Option Capabilities) (fresh : Fresh) (a : Agent) (token : Token) where
  -- what a creation has stored
  abbrev Stored : Type 0
  Stored = (lookup a.id agents' ≡ some a) × (a.public_key ≡ key) × (a.status ≡ active)

  store_agent-Stored :
      (r : Result CreationError (Created Token))
      → store_agent ed j agents owner_id name key hex capabilities r ≡ (agents', ok (a, token))
      → Stored
  store_agent-Stored (err e) = λ h. absurd (ground (arith, h))
  store_agent-Stored (ok c) =
      elim (Option-cases
        (Accounts.create_agent agents (row_of c owner_id name key hex capabilities))) [
          | inl refused ↦ rw (refused, store_agent) (λ h. absurd (ground (arith, h)))
          | inr (t, stored) ↦
              rw (stored, store_agent)
                (λ h.
                  let same_row : row_of c owner_id name key hex capabilities ≡ a =
                    ground (arith, h) in
                  let same_table : t ≡ agents' = ground (arith, h) in
                  let put_in : insert (row_of c owner_id name key hex capabilities).id
                        (row_of c owner_id name key hex capabilities) agents
                      ≡ agents' =
                    inserted agents t (row_of c owner_id name key hex capabilities) stored
                    ∙ same_table in
                  subst
                    (λ b.
                      (lookup b.id agents' ≡ some b) × (b.public_key ≡ key) × (b.status ≡ active))
                    same_row
                    (
                      subst
                          (λ d.
                            lookup c.identity.agent_id d
                            ≡ some (row_of c owner_id name key hex capabilities))
                          put_in
                          (ground (
                            arith,
                            eq_refl c.identity.agent_id,
                            lookup-insert c.identity.agent_id c.identity.agent_id
                                (row_of c owner_id name key hex capabilities) agents,
                          )),
                      refl,
                      refl,
                    ))
        ]

  create_agent-Stored :
      create_agent ed j users agents owner_id name key hex capabilities secret fresh
        ≡ (agents', ok (a, token))
      → Stored
  unfolding create_agent
  create_agent-Stored =
      go (validate_agent_name name) (validate_public_key key) (lookup owner_id users) refl refl refl
    where
      go :
          (v : Verdict NameError) (w : Verdict KeyError) (o : Option User)
          → validate_agent_name name ≡ v
          → validate_public_key key ≡ w
          → lookup owner_id users ≡ o
          → create_agent ed j users agents owner_id name key hex capabilities secret fresh
            ≡ (agents', ok (a, token))
          → Stored
      go (invalid e) w o p q r = rw (p, create_agent) (λ h. absurd (ground (arith, h)))
      go valid (invalid e) o p q r = rw (p, create_agent) (rw q (λ h. absurd (ground (arith, h))))
      go valid valid none p q r =
          rw (p, create_agent) (rw q (rw r (λ h. absurd (ground (arith, h)))))
      go valid valid (some owner) p q r =
          rw (p, create_agent)
            (rw q (
              rw r (elim (Bool-cases (owner.kind == "human")) [
                | inl human ↦ rw human (
                    store_agent-Stored (
                      create_agent_identity ed j (request_of owner_id name capabilities) secret
                        fresh))
                | inr other ↦ rw other (λ h. absurd (ground (arith, h)))
              ])))

-- With a library of signatures that keeps its word: once an agent has been created with the
-- public key of a private key, whoever has the private key signs in as it, by signing its id with
-- a timestamp that is at most 30 seconds from the clock.
pub created_agent_signs_in :
    {Token : Type 0} (ed : Noble) (j : Jose Token) (parse_date : Units → Option ℕ)
    (users : Dict User) (agents agents' : Dict Agent) (owner_id secret : String)
    (name hex timestamp signature : Units) (capabilities : Option Capabilities) (fresh : Fresh)
    (secret_key : Bytes) (a : Agent) (token : Token) (ts now : ℕ)
    → IsNoble ed
    → create_agent ed j users agents owner_id name
        (get_public_key_base64url (from_private_key ed secret_key))
        hex
        capabilities
        secret
        fresh
      ≡ (agents', ok (a, token))
    → sign ed (from_private_key ed secret_key) (units a.id ++ timestamp) ≡ some signature
    → parse_date timestamp ≡ some ts
    → distance now ts ≤ max_skew
    → is_ok (authenticate_agent ed j parse_date agents' a.id timestamp signature secret now).1
      ≡ true
created_agent_signs_in ed j parse_date users agents agents' owner_id secret name hex timestamp
      signature capabilities fresh secret_key a token ts now noble created signed read near =
    let (found, same_key, is_on) =
      create_agent-Stored ed j users agents agents' owner_id secret name
        (get_public_key_base64url (from_private_key ed secret_key)) hex capabilities fresh a token
        created in
    (found_iff ed j parse_date agents' a.id secret timestamp signature a ts now found read).1 (
      is_on,
      rw same_key (verify-sign ed secret_key (units a.id ++ timestamp) signature noble signed),
      near,
    )

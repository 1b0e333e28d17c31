-- ===== src/Server/Auth/Tests.antt =====
-- The sign-in on small inputs, and the theorems applied to them.
use kalen.Prelude.{
  ℕ, String, ◌≡◌, ◌↔◌, ◌≤◌, refl, true, Option, none, some, [], ◌∷◌, ◌++◌, arith, ok, err,
}
use kalen.Prelude.Dict.{Dict, lookup, values}
use kalen.Shared.Validation.Email.{validate_email}
use kalen.Shared.Json.{Json, str}
use kalen.Shared.Text.{Units, units}
use kalen.Identity.Token.{Claims}
use kalen.Identity.Token.Plain as Tokens
use kalen.Identity.Keys.{encode, bytes_to_base64url, base64url_to_bytes, verify}
use kalen.Identity.Keys.Plain as Keys
use kalen.Identity.WebAuthn.{Library, RelyingParty, refuses, generate_registration_options}
use kalen.Identity.WebAuthn.Stores.{in_memory_store}
use kalen.Server.Accounts.{Agent, agent_basic, active, suspended, find_by_email}
use kalen.Server.Auth.{
  Session, sign_in, stale_timestamp, agent_not_found, distance, max_skew, authenticate_agent,
}
use kalen.Server.Auth.Agents.{is_ok, MaySignIn, authenticate_agent_iff, replay_iff}
use kalen.Server.Auth.Passkeys.{
  Assertion, register_begin, register_finish, login_begin, login_finish, type_error,
}
use kalen.Server.Auth.Passkeys.Failures.{Fails, no_passkey_operation_succeeds}

abbrev bob : Agent
bob = record {
  id = "u1";
  name = units "Bob";
  display_name = units "Bob";
  suffix = units "@bob.agent#0001";
  public_key = bytes_to_base64url (Keys.plain.get_public_key []);
  capabilities = str "";
  manifest = none;
  scopes = "message:send" ∷ [];
  role = agent_basic;
  status = active;
  owner_id = "u9";
  created_at = 0;
  last_active_at = none;
  last_seen_at = none;
}

abbrev agents : Dict Agent
agents = ("u1", bob) ∷ []

abbrev read_time : Units → Option ℕ
read_time s = some 40000

abbrev signature : Units
signature = bytes_to_base64url (Keys.plain.sign (encode (units "u1" ++ units "t")) [])

abbrev session : Session (Claims × String)
session = (sign_in Keys.plain Tokens.plain read_time agents bob "u1" "key" 50000).1

abbrev agents' : Dict Agent
agents' = (sign_in Keys.plain Tokens.plain read_time agents bob "u1" "key" 50000).0

bob_signs_in :
    authenticate_agent Keys.plain Tokens.plain read_time agents "u1"
      (units "t")
      signature
      "key"
      50000
    ≡ (agents', ok session)
unfolding authenticate_agent lookup verify units base64url_to_bytes bytes_to_base64url
bob_signs_in = refl

bob_is_ok :
    is_ok
      (authenticate_agent Keys.plain Tokens.plain read_time agents "u1"
        (units "t")
        signature
        "key"
        50000).1
    ≡ true
unfolding authenticate_agent lookup verify units base64url_to_bytes bytes_to_base64url
bob_is_ok = refl

bob_found : lookup "u1" agents ≡ some bob
unfolding lookup
bob_found = refl

sign_in_tests :
    (authenticate_agent Keys.plain Tokens.plain read_time agents "u1"
        (units "t")
        signature
        "key"
        70001
      ≡ (agents, err stale_timestamp))
    × (authenticate_agent Keys.plain Tokens.plain read_time agents "u2"
          (units "t")
          signature
          "key"
          50000
        ≡ (agents, err agent_not_found))
unfolding authenticate_agent lookup
sign_in_tests = (refl, refl)

authenticate_agent_iff_example :
    (is_ok
        (authenticate_agent Keys.plain Tokens.plain read_time agents "u1"
          (units "t")
          signature
          "key"
          50000).1
      ≡ true)
    ↔ MaySignIn Keys.plain Tokens.plain read_time agents "u1" "key"
        (units "t")
        signature
        (read_time (units "t"))
        (lookup "u1" agents)
        50000
authenticate_agent_iff_example =
    authenticate_agent_iff Keys.plain Tokens.plain read_time agents "u1" "key" (units "t") signature
      50000

replay_iff_example :
    (is_ok
        (authenticate_agent Keys.plain Tokens.plain read_time
          (authenticate_agent Keys.plain Tokens.plain read_time agents "u1"
            (units "t")
            signature
            "key"
            50000).0
          "u1"
          (units "t")
          signature
          "key"
          60000).1
      ≡ true)
    ↔ (distance 60000 40000 ≤ max_skew)
replay_iff_example =
    replay_iff Keys.plain Tokens.plain read_time agents "u1" "key" (units "t") signature bob 40000
      50000 60000 bob_found refl refl bob_is_ok

bob_again :
    is_ok
      (authenticate_agent Keys.plain Tokens.plain read_time
        (authenticate_agent Keys.plain Tokens.plain read_time agents "u1"
          (units "t")
          signature
          "key"
          50000).0
        "u1"
        (units "t")
        signature
        "key"
        60000).1
    ≡ true
bob_again = replay_iff_example.1 (omega arith)

abbrev suspended_agents : Dict Agent
suspended_agents = ("u1", record bob { status = suspended }) ∷ []

abbrev library : Library String Json
library = record {
  verify_registration = λ r challenge origin rp_id. refuses;
  verify_authentication = λ r challenge origin rp_id credential bytes. refuses;
}

abbrev party : RelyingParty
party = record { rp_id = "localhost"; origin = "http://localhost:3000" }

abbrev assertion : Assertion String
assertion = record { id = "c1"; key = none; client_data = "x"; response = "r" }

no_passkey_operation_succeeds_example :
    (Fails [] (register_begin in_memory_store [] [] "a@b.co" "u1" "x" 0))
    × (Fails
        ([], [])
        (register_finish in_memory_store library party Tokens.plain [] [] "a@b.co" "u1" [] "r"))
    × (Fails [] (login_begin in_memory_store [] [] "a@b.co" "x" 0))
    × (Fails
        ([], [])
        (login_finish in_memory_store library party Tokens.plain [] [] "a@b.co" assertion "key" 0))
no_passkey_operation_succeeds_example =
    no_passkey_operation_succeeds library party Tokens.plain [] [] "a@b.co" "u1" "x" "key" [] "r"
      assertion 0

type_error_test : register_begin in_memory_store [] [] "a@b.co" "u1" "x" 0 ≡ ([], err type_error)
unfolding register_begin validate_email units find_by_email values generate_registration_options
type_error_test = refl

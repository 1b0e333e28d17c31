-- ===== src/Server/Auth/Passkeys.antt =====
-- apps/server/src/auth/auth.service.ts: the four WebAuthn operations, on the table of users and the
-- store in memory. `store` is the store as the ceremonies call it; `user_id`, `challenge` and `hex`
-- stand for what is drawn at random.
pub mod Failures
use kalen.Prelude.{
  ℕ, String, ◌≡◌, refl, false, not, Option, none, some, List, [], ◌∷◌, ◌++◌, ◌==◌, get_or, is_some,
  eqb, length, Option-cases, inl, inr, arith, if◌then◌else◌, Result, ok, err,
}
use Prim.Native.String.{◌++◌ as ◌^◌}
use kalen.Prelude.Dict.{Dict}
use kalen.Shared.Json.{Json}
use kalen.Shared.Text.{Units, units}
use kalen.Shared.Validation.{is_valid}
use kalen.Shared.Validation.Email.{validate_email}
use kalen.Identity.Token.{Jose, issue_human_access_token, issue_human_refresh_token}
use kalen.Identity.WebAuthn.{
  StoredCredential, ChallengeStore, Library, RelyingParty, WebAuthnError, challenge_key,
  generate_registration_options, generate_authentication_options, verify_registration_response,
  verify_authentication_response,
}
use kalen.Identity.WebAuthn.Stores.{Entry, set, in_memory_store}
use kalen.Server.Accounts.{
  User, first_of, find_by_email, create_user, update_credentials, suffix_base,
}
use kalen.Server.Auth.{Session, user_identity}
use kalen.Server.Auth.Agents.{is_ok}

pub data PasskeyError : Type 0 where
  bad_email email_taken no_account no_credentials credential_not_found : PasskeyError
  not_registered not_authenticated : WebAuthnError → PasskeyError
  -- an error that no code of the service expects: of a method that is missing, or of the database
  type_error not_created : PasskeyError

-- what the client sends to finish a sign-in: the id of its credential, the key that it was given,
-- `clientDataJSON`, and all of it as the library reads it
pub record Assertion (Response : Type 0) : Type 0 where
  pub id : String
  pub key : Option String
  pub client_data : String
  pub response : Response

-- `email.split('@')[0]`
unfoldable pub local_part : Units → Units
local_part [] = []
local_part (c ∷ cs) = let rest = local_part cs in if eqb c 64 then [] else c ∷ rest

-- `generateSuffix('human', name)`
unfoldable pub generate_suffix : Units → (hex : Units) → Units
generate_suffix name hex = (64 ∷ suffix_base name) ++ (35 ∷ hex)

-- the counter of the first credential with the id
unfoldable pub set_counter :
    String → ℕ → List (StoredCredential Json) → List (StoredCredential Json)
set_counter id counter [] = []
set_counter id counter (c ∷ cs) =
    let rest = set_counter id counter cs in
    if c.id == id then record c { counter = counter } ∷ cs else c ∷ rest

module _ (store : ChallengeStore (Dict Entry)) where
  -- `registerBegin`
  unfoldable pub register_begin :
      Dict User
      → Dict Entry
      → (email user_id challenge : String) → ℕ
      → Dict Entry × Result PasskeyError String
  register_begin users memory email user_id challenge now =
      if not (is_valid (validate_email (units email)))
      then (memory, err bad_email)
      else if is_some (find_by_email users email)
      then (memory, err email_taken)
      else elim (generate_registration_options store memory user_id challenge) [
        | err e ↦ (memory, err type_error)
        | ok memory' ↦ (set now memory' ("register:" ^ user_id) email 120, ok user_id)
      ]

  -- `loginBegin`: the challenge and its key
  unfoldable pub login_begin :
      Dict User
      → Dict Entry
      → (email challenge : String) → ℕ
      → Dict Entry × Result PasskeyError (String × String)
  login_begin users memory email challenge now = elim (find_by_email users email) [
    | none ↦ (memory, err no_account)
    | some u ↦ elim (generate_authentication_options store memory challenge) [
      | err e ↦ (memory, err type_error)
      | ok (memory', key) ↦
          (set now memory' ("userForChallenge:" ^ challenge) u.id 120, ok (challenge, key))
    ]
  ]

module _ {Token Response : Type 0} (store : ChallengeStore (Dict Entry))
    (lib : Library Response Json) (rp : RelyingParty) (j : Jose Token) where
  -- the new user of `registerFinish`; the defaults are those of the table
  abbrev pub registered : (email user_id : String) → (hex : Units) → StoredCredential Json → User
  registered email user_id hex credential = record {
    id = user_id;
    username = local_part (units email);
    display_name = local_part (units email);
    email = email;
    suffix = generate_suffix (local_part (units email)) hex;
    kind = "human";
    credentials = credential ∷ [];
    role = "human_user";
    status = "active";
    last_auth_at = none;
  }

  -- `registerFinish`, with the id that the client sends or a new one
  unfoldable pub register_finish :
      Dict User
      → Dict Entry
      → (email user_id : String) → (hex : Units) → Response
      → (Dict User × Dict Entry) × Result PasskeyError User
  register_finish users memory email user_id hex response =
      if is_some (find_by_email users email)
      then ((users, memory), err email_taken)
      else elim (verify_registration_response store lib rp memory user_id response) [
        | err e ↦ ((users, memory), err type_error)
        | ok (memory', err e) ↦ ((users, memory'), err (not_registered e))
        | ok (memory', ok credential) ↦
            elim (create_user users (registered email user_id hex credential)) [
              | none ↦ ((users, memory'), err not_created)
              | some users' ↦ ((users', memory'), ok (registered email user_id hex credential))
            ]
      ]

  abbrev pub session_of : User → (secret : String) → ℕ → Session Token
  session_of u secret now = record {
    access_token = issue_human_access_token j u.id secret now;
    refresh_token = issue_human_refresh_token j u.id secret now;
    expires_in = 900;
    identity = some (user_identity u "human");
  }

  -- `loginFinish` past the user
  unfoldable pub login_with :
      Dict User
      → Dict Entry
      → User
      → Assertion Response
      → (secret : String) → ℕ
      → (Dict User × Dict Entry) × Result PasskeyError (Session Token)
  login_with users memory u a secret now = elim (first_of (λ c. c.id == a.id) u.credentials) [
    | none ↦ ((users, memory), err credential_not_found)
    | some c ↦
        elim (verify_authentication_response store lib rp memory
          (get_or a.key (challenge_key a.client_data)) a.response c) [
            | err e ↦ ((users, memory), err type_error)
            | ok (memory', err e) ↦ ((users, memory'), err (not_authenticated e))
            | ok (memory', ok counter) ↦ (
              (update_credentials users u.id (set_counter c.id counter u.credentials) now, memory'),
              ok (session_of u secret now),
            )
          ]
  ]

  -- `loginFinish`
  unfoldable pub login_finish :
      Dict User
      → Dict Entry
      → (email : String) → Assertion Response
      → (secret : String) → ℕ
      → (Dict User × Dict Entry) × Result PasskeyError (Session Token)
  login_finish users memory email a secret now = elim (find_by_email users email) [
    | none ↦ ((users, memory), err no_account)
    | some u ↦
        if eqb (length u.credentials) 0
        then ((users, memory), err no_credentials)
        else login_with users memory u a secret now
  ]

-- ===== src/Identity/Agents.antt =====
-- packages/identity/src/agent-identity: creation.ts and verification.ts. A random key, a random id and
-- a time are arguments.
pub mod Lifetime
mod Tests
use Prim.Native.String.{String}
use kalen.Prelude.{
  ℕ, zero, suc, ◌+◌, ◌/◌, ◌%◌, Bool, true, false, not, ◌&&◌, ◌||◌, Option, none, some, List, [],
  ◌∷◌, ◌++◌, ◌==◌, ltb, leb, eqb, get_or, length, map, if◌then◌else◌, Result, ok, err,
}
use kalen.Shared.Json.{Json, str}
use kalen.Shared.Json.Print.{decimal}
use kalen.Shared.Text.{Units, units, trim, ends_with}
use kalen.Shared.Validation.{
  Verdict, valid, invalid, NameError, KeyError, validate_agent_name, validate_public_key,
  agent_display_suffix,
}
use kalen.Identity.Token.{
  Jose, TokenPayload, is_str, strings, agent_payload, create_token, verify_token,
  agent_access_token_ttl,
}
use kalen.Identity.Manifest.{
  Manifest, ManifestInput, CreationError, invalid_name, owner_required, invalid_generated_key,
  ManifestError, create_manifest, validate_manifest,
}
use kalen.Identity.Keys.{
  Bytes, Noble, Signer, from_private_key, sign, verify, get_public_key_base64url,
}

abbrev pub agent_suffix : String
agent_suffix = "(ai)"

-- `AgentIdentity`
pub record AgentIdentity : Type 0 where
  pub agent_id : String
  pub name : Units
  pub suffix : String
  pub keypair_public_key : Units
  pub manifest : Manifest
  pub owner : String
  pub scopes : List String
  pub created_at : ℕ

-- what is chosen at random, and the time in its two forms
pub record Fresh : Type 0 where
  pub secret_key : Bytes
  pub uuid : String
  pub now : ℕ
  pub now_text : Units

-- `CreateAgentIdentityResult`
pub record Created (Token : Type 0) : Type 0 where
  pub identity : AgentIdentity
  pub signer : Signer
  pub access_token : Token

-- the arguments of `createAgentIdentity` but for the secret
pub record AgentRequest : Type 0 where
  pub name : Units
  pub description : Units
  pub owner_id : String
  pub tools : List Units
  pub capabilities : List Units
  pub scopes : List String

abbrev pub manifest_input : AgentRequest → ManifestInput
manifest_input r = record {
  name = r.name;
  description = r.description;
  tools = r.tools;
  capabilities = r.capabilities;
  rate_limit = none;
}

module _ {Token : Type 0} (ed : Noble) (j : Jose Token) where
  -- the end of `createAgentIdentity`
  abbrev pub identity_of : AgentRequest → String → Fresh → Manifest → Created Token
  identity_of r secret f m =
      let signer = from_private_key ed f.secret_key in
      record {
        identity = record {
          agent_id = f.uuid;
          name = r.name;
          suffix = agent_suffix;
          keypair_public_key = get_public_key_base64url signer;
          manifest = m;
          owner = r.owner_id;
          scopes = r.scopes;
          created_at = f.now;
        };
        signer = signer;
        access_token =
            create_token j (agent_payload f.uuid (strings r.scopes) "access") secret
              agent_access_token_ttl f.now;
      }

  -- `createAgentIdentity`
  unfoldable pub create_agent_identity :
      AgentRequest → String → Fresh → Result CreationError (Created Token)
  unfolding create_manifest
  create_agent_identity r secret f = elim (validate_agent_name r.name) [
    | invalid e ↦ err (invalid_name e)
    | valid ↦
        let signer = from_private_key ed f.secret_key in
        if eqb (length (trim (units r.owner_id))) 0
        then err owner_required
        else elim (validate_public_key (get_public_key_base64url signer)) [
          | invalid e ↦ err (invalid_generated_key e)
          | valid ↦ elim (create_manifest ed (manifest_input r) signer f.now_text) [
            | err e ↦ err e
            | ok m ↦ ok (identity_of r secret f m)
          ]
        ]
  ]

abbrev pub is_agent_suffix : Option Json → Bool
is_agent_suffix none = false
is_agent_suffix (some v) = is_str v agent_suffix

pub data IdentityError : Type 0 where
  bad_suffix bad_name bad_manifest_name : IdentityError
  bad_manifest : ManifestError → IdentityError
  bad_token wrong_subject wrong_token_suffix : IdentityError

-- `checkSuffixEnforcement`; an identity has a manifest
unfoldable pub check_suffix_enforcement : AgentIdentity → Verdict IdentityError
check_suffix_enforcement i =
    if not (i.suffix == agent_suffix)
    then invalid bad_suffix
    else if not (ends_with i.name agent_display_suffix)
    then invalid bad_name
    else if not (ends_with i.manifest.name agent_display_suffix)
    then invalid bad_manifest_name
    else valid

abbrev errors_of {ℓ} : {E : Type ℓ} → (E → IdentityError) → Verdict E → List IdentityError
errors_of f valid = []
errors_of f (invalid e) = f e ∷ []

abbrev unless : Bool → IdentityError → List IdentityError
unless true e = []
unless false e = e ∷ []

module _ {Token : Type 0} (ed : Noble) (j : Jose Token) where
  -- `verifyAgentToken`
  unfoldable pub verify_agent_token : Token → String → ℕ → Option TokenPayload
  unfolding verify_token
  verify_agent_token token secret now = elim (verify_token j token secret now) [
    | none ↦ none
    | some p ↦
        if not (is_str p.kind "agent")
        then none
        else if not (is_agent_suffix p.suffix)
        then none
        else some p
  ]

  -- what `verifyAgentIdentity` asks of the token
  unfoldable pub token_errors : AgentIdentity → Token → String → ℕ → List IdentityError
  unfolding verify_agent_token
  token_errors i token secret now = elim (verify_agent_token token secret now) [
    | none ↦ bad_token ∷ []
    | some p ↦
        unless (p.sub == i.agent_id) wrong_subject
        ++ unless (is_agent_suffix p.suffix) wrong_token_suffix
  ]

  -- `verifyAgentIdentity`: its errors, of which a valid identity has none
  unfoldable pub verify_agent_identity :
      (Units → Option ℕ) → AgentIdentity → Token → String → ℕ → List IdentityError
  unfolding check_suffix_enforcement validate_manifest token_errors
  verify_agent_identity parse_date i token secret now =
      errors_of (λ e. e) (check_suffix_enforcement i)
      ++ (errors_of bad_manifest (validate_manifest ed parse_date i.manifest i.keypair_public_key)
          ++ token_errors i token secret now)

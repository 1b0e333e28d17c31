-- ===== src/Server/Agents/Tests.antt =====
-- The creation of an agent on small inputs, and the theorems applied to it.
use kalen.Prelude.{
  ◌≤◌, String, ◌≡◌, ◌↔◌, refl, true, Option, none, some, [], ◌∷◌, ◌++◌, length, arith, ok, err,
}
use kalen.Prelude.Dict.{Dict, lookup, insert, values}
use kalen.Shared.Json.{str}
use kalen.Shared.Text.{Units, units, lower}
use kalen.Shared.Validation.{validate_agent_name, validate_public_key, no_suffix}
use kalen.Identity.Token.{Claims, strings}
use kalen.Identity.Token.Trips.{agent_read}
use kalen.Identity.Token.Plain as Tokens
use kalen.Identity.Keys.{
  encode, bytes_to_base64url, from_private_key, sign, get_public_key_base64url,
}
use kalen.Identity.Keys.Plain as Keys
use kalen.Identity.Manifest.{Manifest, manifest_payload, unsigned_manifest}
use kalen.Identity.Agents.{Fresh, Created, manifest_input, identity_of, create_agent_identity}
use kalen.Server.Accounts.{
  User, Agent, agent_privileged, suspended, suffix_base, create_agent as store,
}
use kalen.Server.Guards.{resolve_role}
use kalen.Server.Auth.{authenticate_agent}
use kalen.Server.Auth.Agents.{is_ok}
use kalen.Server.Agents.{
  Capabilities, bad_name, owner_not_found, agent_not_found, request_of, row_of, requested_skills,
  create_agent, change_agent, generate_agent_suffix, remove_first,
}
use kalen.Server.Agents.Scopes.{writes_code, guard_role, new_agent_role}
use kalen.Server.Agents.Creation.{created_agent_signs_in}

abbrev owner : User
owner = record {
  id = "u9";
  username = units "ann";
  display_name = units "Ann";
  email = "ann@b.co";
  suffix = units "@ann#0000";
  kind = "human";
  credentials = [];
  role = "human_user";
  status = "active";
  last_auth_at = none;
}

abbrev users : Dict User
users = ("u9", owner) ∷ []

abbrev capabilities : Option Capabilities
capabilities = some (record { skills = units "code.go" ∷ []; tools = []; stored = str "go" })

abbrev fresh : Fresh
fresh = record { secret_key = 1 ∷ 2 ∷ []; uuid = "a1"; now = 1000; now_text = units "1970" }

abbrev name : Units
name = units "Bob (ai)"

abbrev key : Units
key = get_public_key_base64url (from_private_key Keys.plain (9 ∷ []))

abbrev unsigned : Manifest
unsigned = unsigned_manifest (manifest_input (request_of "u9" name capabilities)) fresh.now_text

abbrev manifest : Manifest
manifest = record unsigned {
  signature =
      bytes_to_base64url (Keys.plain.sign (encode (manifest_payload unsigned)) fresh.secret_key);
}

abbrev created : Created (Claims × String)
created =
    identity_of Keys.plain Tokens.plain (request_of "u9" name capabilities) "key" fresh manifest

abbrev row : Agent
row = row_of created "u9" name key (units "0001") capabilities

bob_created :
    create_agent Keys.plain Tokens.plain users [] "u9" name key
      (units "0001")
      capabilities
      "key"
      fresh
    ≡ (("a1", row) ∷ [], ok (row, created.access_token))
unfolding create_agent create_agent_identity validate_agent_name validate_public_key
    from_private_key get_public_key_base64url sign units store lookup insert values
bob_created = refl

created_agent_signs_in_example :
    is_ok
      (authenticate_agent Keys.plain Tokens.plain
        (λ s. some 40000)
        (("a1", row) ∷ [])
        "a1"
        (units "t")
        (bytes_to_base64url (Keys.plain.sign (encode (units "a1" ++ units "t")) (9 ∷ [])))
        "key"
        50000).1
    ≡ true
unfolding sign from_private_key units
created_agent_signs_in_example =
    created_agent_signs_in Keys.plain Tokens.plain (λ s. some 40000) users [] (("a1", row) ∷ [])
      "u9" "key" name (units "0001") (units "t")
      (bytes_to_base64url (Keys.plain.sign (encode (units "a1" ++ units "t")) (9 ∷ [])))
      capabilities fresh (9 ∷ []) row created.access_token 40000 50000 Keys.plain-IsNoble
      bob_created refl refl (omega arith)

new_agent_role_example :
    (length row.scopes ≤ 6)
    × ((row.role ≡ agent_privileged) ↔ (writes_code (requested_skills capabilities) ≡ true))
    × (resolve_role (agent_read row.id (strings row.scopes) "access") ≡ guard_role row.role)
new_agent_role_example = new_agent_role created "u9" name key (units "0001") capabilities

agent_tests :
    (create_agent Keys.plain Tokens.plain users [] "u9" (units "Robert") key [] none "key" fresh
      ≡ ([], err (bad_name no_suffix)))
    × (create_agent Keys.plain Tokens.plain [] [] "u9" name key [] none "key" fresh
        ≡ ([], err owner_not_found))
    × (change_agent [] "a1" none none (some suspended) ≡ ([], err agent_not_found))
    × (generate_agent_suffix (units "Bob 2 (ai)") (units "ab") ≡ units "@bob2.agent#ab")
unfolding create_agent validate_agent_name validate_public_key units lookup change_agent
    generate_agent_suffix get_public_key_base64url from_private_key suffix_base remove_first lower
agent_tests = (refl, refl, refl, refl)

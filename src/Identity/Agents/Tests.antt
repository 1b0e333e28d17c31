-- ===== src/Identity/Agents/Tests.antt =====
-- Identities of agents on small inputs, and the theorem applied to them.
use kalen.Prelude.{
  String, ◌≡◌, ◌≢◌, refl, none, some, [], ◌∷◌, arith, eq_iff, if◌then◌else◌, ok, err,
}
use kalen.Shared.Text.{units, trim, ends_with}
use kalen.Shared.Validation.{
  validate_agent_name, validate_public_key, agent_display_suffix, no_suffix,
}
use kalen.Identity.Token.{Claims, create_token}
use kalen.Shared.Json.Print.{decimal}
use kalen.Identity.Token.Plain as Tokens
use kalen.Identity.Keys.{
  encode, bytes_to_base64url, from_private_key, sign, get_public_key_base64url,
}
use kalen.Identity.Keys.Plain as Keys
use kalen.Identity.Manifest.{
  Manifest, invalid_name, owner_required, manifest_payload, unsigned_manifest,
}
use kalen.Identity.Agents.{
  Fresh, Created, AgentRequest, manifest_input, identity_of, create_agent_identity, bad_name,
  verify_agent_identity, verify_agent_token,
}
use kalen.Identity.Agents.Lifetime.{create-verify}

abbrev request : AgentRequest
request = record {
  name = units "Bob (ai) ";
  description = units "helps";
  owner_id = "u1";
  tools = units "a" ∷ [];
  capabilities = [];
  scopes = "message:read" ∷ [];
}

abbrev fresh : Fresh
fresh = record { secret_key = 1 ∷ 2 ∷ []; uuid = "a1"; now = 1000; now_text = units "1970" }

abbrev unsigned : Manifest
unsigned = unsigned_manifest (manifest_input request) fresh.now_text

abbrev manifest : Manifest
manifest = record unsigned {
  signature =
      bytes_to_base64url (Keys.plain.sign (encode (manifest_payload unsigned)) fresh.secret_key);
}

abbrev created : Created (Claims × String)
created = identity_of Keys.plain Tokens.plain request "key" fresh manifest

created_ok : create_agent_identity Keys.plain Tokens.plain request "key" fresh ≡ ok created
unfolding create_agent_identity validate_agent_name validate_public_key from_private_key
    get_public_key_base64url sign units
created_ok = refl

payload_test :
    manifest_payload unsigned
    ≡ units
        "{\"name\":\"Bob (ai)\",\"description\":\"helps\",\"tools\":[\"a\"],\"capabilities\":[],\"rateLimit\":60,\"version\":1,\"issuedAt\":\"1970\"}"
unfolding manifest_payload units trim decimal
payload_test = refl

creation_tests :
    (create_agent_identity Keys.plain Tokens.plain
        (record request { name = units "Robert" })
        "key"
        fresh
      ≡ err (invalid_name no_suffix))
    × (create_agent_identity Keys.plain Tokens.plain (record request { owner_id = " " }) "key" fresh
        ≡ err owner_required)
    × (verify_agent_token Keys.plain Tokens.plain created.access_token "other" 2000 ≡ none)
unfolding create_agent_identity validate_agent_name units verify_agent_token create_token trim
creation_tests = (refl, refl, refl)

uuid_named : ◌≢◌ {A = String} "a1" ""
uuid_named = ground (arith, eq_iff "a1" "")

create-verify_example :
    verify_agent_identity Keys.plain Tokens.plain
      (λ s. some 0)
      created.identity
      created.access_token
      "key"
      2000
    ≡ (if ends_with (units "Bob (ai) ") agent_display_suffix then [] else bad_name ∷ [])
unfolding units
create-verify_example =
    create-verify Keys.plain Tokens.plain Keys.plain-IsNoble (λ s. some 0) request "key" fresh
      created 0 2000 Tokens.plain-IsJose uuid_named refl (omega arith) (omega arith) created_ok

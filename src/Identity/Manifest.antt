-- ===== src/Identity/Manifest.antt =====
-- packages/identity/src/agent-identity/manifest.ts. `parse_date` is the language's reader of dates,
-- `none` where the date is not valid. Arrays are arrays by their type.
use kalen.Prelude.{
  ℕ, suc, ◌+◌, ◌/◌, ◌%◌, Bool, not, ◌&&◌, ◌||◌, Option, none, some, List, [], ◌∷◌, ◌++◌, ltb, leb,
  eqb, get_or, length, if◌then◌else◌, Result, ok, err,
}
use kalen.Shared.Json.Print.{decimal}
use kalen.Shared.Text.{Units, units, trim}
use kalen.Shared.Validation.{Verdict, valid, invalid, NameError, KeyError, validate_agent_name}
use kalen.Identity.Keys.{Noble, Signer, sign, verify}

-- `AgentManifest`
pub record Manifest : Type 0 where
  pub name : Units
  pub description : Units
  pub tools : List Units
  pub capabilities : List Units
  pub rate_limit : ℕ
  pub version : ℕ
  pub issued_at : Units
  pub signature : Units

abbrev pub default_agent_rate_limit : ℕ
default_agent_rate_limit = 60

-- one code unit in a quoted text of JSON; four hexadecimal digits where it needs them
abbrev hex : ℕ → ℕ
hex n = if ltb n 10 then n + 48 else n + 87

abbrev hexadecimal : ℕ → Units
hexadecimal c =
    92 ∷ 117 ∷ hex (c / 4096) ∷ hex (c / 256 % 16) ∷ hex (c / 16 % 16) ∷ hex (c % 16) ∷ []

abbrev escaped : ℕ → Units
escaped c =
    if eqb c 34 || eqb c 92
    then 92 ∷ c ∷ []
    else if eqb c 8
    then 92 ∷ 98 ∷ []
    else if eqb c 9
    then 92 ∷ 116 ∷ []
    else if eqb c 10
    then 92 ∷ 110 ∷ []
    else if eqb c 12
    then 92 ∷ 102 ∷ []
    else if eqb c 13
    then 92 ∷ 114 ∷ []
    else if ltb c 32
    then hexadecimal c
    else c ∷ []

-- the text without its quotes; a half of a pair that stands alone is escaped
unfoldable pub escape : Units → Units
escape [] = []
escape (c ∷ []) = if leb 55296 c && leb c 57343 then hexadecimal c else escaped c
escape (c ∷ d ∷ s) =
    let paired = c ∷ d ∷ escape s in
    let alone = hexadecimal c ++ escape (d ∷ s) in
    let plain = escaped c ++ escape (d ∷ s) in
    if leb 55296 c && leb c 56319
    then (if leb 56320 d && leb d 57343 then paired else alone)
    else if leb 56320 c && leb c 57343
    then alone
    else plain

abbrev quote : Units → Units
quote s = 34 ∷ (escape s ++ 34 ∷ [])

-- the items of an array, with commas between them
unfoldable pub commas : List Units → Units
unfolding escape
commas [] = []
commas (s ∷ []) = quote s
commas (s ∷ t ∷ ss) = quote s ++ 44 ∷ commas (t ∷ ss)

abbrev number : ℕ → Units
number n = units (decimal (suc n) n)

-- `manifestPayload`: every field but the signature, in the order of the list
unfoldable pub manifest_payload : Manifest → Units
unfolding commas
manifest_payload m =
    units "{\"name\":"
    ++ (quote m.name
        ++ (units ",\"description\":"
            ++ (quote m.description
                ++ (units ",\"tools\":["
                    ++ (commas m.tools
                        ++ (units "],\"capabilities\":["
                            ++ (commas m.capabilities
                                ++ (units "],\"rateLimit\":"
                                    ++ (number m.rate_limit
                                        ++ (units ",\"version\":"
                                            ++ (number m.version
                                                ++ (units ",\"issuedAt\":"
                                                    ++ (quote m.issued_at ++ units "}")))))))))))))

-- `CreateManifestInput`
pub record ManifestInput : Type 0 where
  pub name : Units
  pub description : Units
  pub tools : List Units
  pub capabilities : List Units
  pub rate_limit : Option ℕ

pub data CreationError : Type 0 where
  invalid_name : NameError → CreationError
  empty_description no_private_key owner_required : CreationError
  invalid_generated_key : KeyError → CreationError

pub data ManifestError : Type 0 where
  invalid_manifest_name : NameError → ManifestError
  no_description bad_rate_limit bad_version no_issue_date bad_issue_date unsigned bad_signature :
      ManifestError

-- the manifest before it is signed
abbrev pub unsigned_manifest : ManifestInput → Units → Manifest
unsigned_manifest input issued_at = record {
  name = trim input.name;
  description = trim input.description;
  tools = input.tools;
  capabilities = input.capabilities;
  rate_limit = get_or input.rate_limit default_agent_rate_limit;
  version = 1;
  issued_at = issued_at;
  signature = [];
}

module _ (ed : Noble) where
  -- `signManifest`
  unfoldable pub sign_manifest : Manifest → Signer → Option Units
  sign_manifest m signer = sign ed signer (manifest_payload m)

  -- `verifyManifestSignature`
  unfoldable pub verify_manifest_signature : Manifest → Units → Bool
  verify_manifest_signature m public_key = verify ed (manifest_payload m) m.signature public_key

  -- the end of `createManifest`
  unfoldable pub sign_new : Manifest → Signer → Result CreationError Manifest
  unfolding sign_manifest
  sign_new m signer = elim (sign_manifest m signer) [
    | none ↦ err no_private_key
    | some signature ↦ ok (record m { signature = signature })
  ]

  -- `createManifest`
  unfoldable pub create_manifest : ManifestInput → Signer → Units → Result CreationError Manifest
  unfolding sign_new
  create_manifest input signer issued_at = elim (validate_agent_name input.name) [
    | invalid e ↦ err (invalid_name e)
    | valid ↦
        if eqb (length (trim input.description)) 0
        then err empty_description
        else sign_new (unsigned_manifest input issued_at) signer
  ]

  -- `validateManifest` past the name
  unfoldable pub check_fields : (Units → Option ℕ) → Manifest → Units → Verdict ManifestError
  unfolding verify_manifest_signature
  check_fields parse_date m public_key =
      if eqb (length (trim m.description)) 0
      then invalid no_description
      else if ltb m.rate_limit 1
      then invalid bad_rate_limit
      else if ltb m.version 1
      then invalid bad_version
      else if eqb (length m.issued_at) 0
      then invalid no_issue_date
      else elim (parse_date m.issued_at) [
        | none ↦ invalid bad_issue_date
        | some t ↦
            if eqb (length m.signature) 0
            then invalid unsigned
            else if not (verify_manifest_signature m public_key)
            then invalid bad_signature
            else valid
      ]

  -- `validateManifest`, and `verifyAgentManifest`
  unfoldable pub validate_manifest : (Units → Option ℕ) → Manifest → Units → Verdict ManifestError
  unfolding check_fields
  validate_manifest parse_date m public_key = elim (validate_agent_name m.name) [
    | invalid e ↦ invalid (invalid_manifest_name e)
    | valid ↦ check_fields parse_date m public_key
  ]

-- ===== src/Identity/Agents/Lifetime.antt =====
-- packages/identity/src/agent-identity: an identity that was created is verified.
use kalen.Prelude.{
  ℕ, ◌+◌, ◌/◌, ◌<◌, String, ◌≡◌, ◌≢◌, refl, ap, ◌∙◌, true, false, inl, inr, Option, none, some, [],
  ◌∷◌, eq_refl, eqb, length, arith, Option-cases, if◌then◌else◌, Result, ok, err,
}
use kalen.Shared.Text.{Units, trim, ends_with}
use kalen.Shared.Text.Trim.{trim_idem, ends_with-append}
use kalen.Shared.Validation.{
  Verdict, valid, invalid, is_valid, NameError, KeyError, validate_agent_name, validate_public_key,
  agent_display_suffix,
}
use kalen.Shared.Validation.Names.{validate_agent_name_iff}
use kalen.Identity.Token.{
  Jose, IsJose, strings, create_token, issue_agent_access_token, agent_access_token_ttl,
}
use kalen.Identity.Token.Trips.{agent_read, agent_access_reads}
use kalen.Identity.Keys.{
  Bytes, Noble, Signer, from_private_key, sign, verify, get_public_key_base64url,
}
use kalen.Identity.Keys.Signatures.{IsNoble, verify-sign, sign-length}
use kalen.Identity.Manifest.{
  Manifest, ManifestInput, CreationError, manifest_payload, unsigned_manifest, sign_manifest,
  verify_manifest_signature, sign_new, create_manifest, check_fields, validate_manifest,
}
use kalen.Identity.Agents.{
  AgentIdentity, Fresh, Created, AgentRequest, manifest_input, identity_of, create_agent_identity,
  bad_name, check_suffix_enforcement, verify_agent_token, token_errors, verify_agent_identity,
}

module _ (ed : Noble) (law : IsNoble ed) (secret_key : Bytes) where
  abbrev signer : Signer
  signer = from_private_key ed secret_key

  -- A manifest that was made has a name that is valid, a description, and what it was signed with.
  create_manifest_made :
      (input : ManifestInput) (issued_at : Units) (m : Manifest)
      → create_manifest ed input signer issued_at ≡ ok m
      → (validate_agent_name input.name ≡ valid)
        × (eqb (length (trim input.description)) 0 ≡ false)
        × (sign_new ed (unsigned_manifest input issued_at) signer ≡ ok m)
  unfolding create_manifest
  create_manifest_made input issued_at m h = split (validate_agent_name input.name) refl
    where
      split :
          (v : Verdict NameError)
          → validate_agent_name input.name ≡ v
          → (validate_agent_name input.name ≡ valid)
            × (eqb (length (trim input.description)) 0 ≡ false)
            × (sign_new ed (unsigned_manifest input issued_at) signer ≡ ok m)
      split (invalid e) v = absurd (ground (arith, v, h))
      split valid v = (v, ground (arith, v, h), ground (arith, v, h))

  sign_new_made :
      (u m : Manifest)
      → sign_new ed u signer ≡ ok m
      → (signature : Units) × (sign ed signer (manifest_payload u) ≡ some signature)
        × (m ≡ record u { signature = signature })
  unfolding sign_new sign_manifest
  sign_new_made u m h = elim (Option-cases (sign ed signer (manifest_payload u))) [
    | inl e ↦ absurd (ground (arith, e, h))
    | inr (s, e) ↦ (s, e, ground (arith, e, h))
  ]

  payload_same :
      (u : Manifest) (s : Units)
      → manifest_payload (record u { signature = s }) ≡ manifest_payload u
  unfolding manifest_payload
  payload_same u s = refl

  -- A manifest that was made is valid under the key that signed it, if its date is one.
  pub create_manifest-valid :
      (parse_date : Units → Option ℕ) (input : ManifestInput) (issued_at : Units) (t : ℕ)
      (m : Manifest)
      → parse_date issued_at ≡ some t
      → 0 < length issued_at
      → input.rate_limit ≡ none
      → create_manifest ed input signer issued_at ≡ ok m
      → validate_manifest ed parse_date m (get_public_key_base64url signer) ≡ valid
  unfolding validate_manifest check_fields verify_manifest_signature
  create_manifest-valid parse_date input issued_at t m d filled limit h =
      let a = create_manifest_made input issued_at m h in
      let b = sign_new_made (unsigned_manifest input issued_at) m a.2 in
      let u : Manifest = unsigned_manifest input issued_at in
      let named : validate_agent_name (trim input.name) ≡ valid =
        (validate_agent_name_iff input.name).1 ∙ a.0 in
      let described : eqb (length (trim (trim input.description))) 0 ≡ false =
        rw (trim_idem input.description) a.1 in
      let sized = sign-length ed secret_key (manifest_payload u) b.0 law b.1 in
      let proved : verify ed (manifest_payload (record u { signature = b.0 })) b.0
            (get_public_key_base64url signer)
          ≡ true =
        rw (payload_same u b.0) (verify-sign ed secret_key (manifest_payload u) b.0 law b.1) in
      rw b.2
        (rw (named, validate_manifest) (ground (arith, described, limit, filled, d, sized, proved)))

module _ {Token : Type 0} (ed : Noble) (j : Jose Token) (law : IsNoble ed) where
  -- An identity that was made has a name that is valid and a manifest that was made of it.
  create_agent_identity_made :
      (r : AgentRequest) (secret : String) (f : Fresh) (c : Created Token)
      → create_agent_identity ed j r secret f ≡ ok c
      → (m : Manifest) × (create_manifest ed
            (manifest_input r)
            (from_private_key ed f.secret_key)
            f.now_text
          ≡ ok m)
        × (c ≡ identity_of ed j r secret f m)
  unfolding create_agent_identity
  create_agent_identity_made r secret f c h =
      named (validate_agent_name r.name) refl
        (validate_public_key (get_public_key_base64url (from_private_key ed f.secret_key))) refl
        (create_manifest ed (manifest_input r) (from_private_key ed f.secret_key) f.now_text) refl
    where
      named :
          (v : Verdict NameError)
          → validate_agent_name r.name ≡ v
          → (k : Verdict KeyError)
          → validate_public_key (get_public_key_base64url (from_private_key ed f.secret_key)) ≡ k
          → (x : Result CreationError Manifest)
          → create_manifest ed (manifest_input r) (from_private_key ed f.secret_key) f.now_text ≡ x
          → (m : Manifest) × (create_manifest ed
                (manifest_input r)
                (from_private_key ed f.secret_key)
                f.now_text
              ≡ ok m)
            × (c ≡ identity_of ed j r secret f m)
      named (invalid e) v k kv x xv = absurd (ground (arith, v, h))
      named valid v (invalid e) kv x xv = absurd (ground (arith, v, kv, h))
      named valid v valid kv (err e) xv = absurd (ground (arith, v, kv, xv, h))
      named valid v valid kv (ok m) xv = (m, xv, ground (arith, v, kv, xv, h))

  trimmed_ends :
      (name : Units)
      → validate_agent_name name ≡ valid
      → ends_with (trim name) agent_display_suffix ≡ true
  trimmed_ends name v =
      let n = (validate_agent_name_iff name).0.0 (ap is_valid v) in
      rw n.parts (ends_with-append n.body agent_display_suffix)

  token_known :
      (r : AgentRequest) (secret : String) (f : Fresh) (m : Manifest) (later : ℕ)
      → IsJose j
      → f.uuid ≢ ""
      → later / 1000 < f.now / 1000 + agent_access_token_ttl
      → token_errors ed j
          (identity_of ed j r secret f m).identity
          (identity_of ed j r secret f m).access_token
          secret
          later
        ≡ []
  unfolding token_errors verify_agent_token create_token issue_agent_access_token
  token_known r secret f m later jose named alive =
      let token =
        agent_access_reads j jose secret f.uuid (strings r.scopes) f.now later named alive in
      let seen : verify_agent_token ed j (identity_of ed j r secret f m).access_token secret later
          ≡ some (agent_read f.uuid (strings r.scopes) "access") =
        rw (token, verify_agent_token) (ground (arith, eq_refl "agent", eq_refl "(ai)")) in
      rw (seen, token_errors) (ground (arith, eq_refl f.uuid, eq_refl "(ai)"))

  -- With libraries that keep their words: an identity that was created, under an id that is not
  -- empty and at a time whose text is read as a date, is verified with its access token while
  -- that lives, and has no error, if the name that was asked for ends with the suffix as it is;
  -- if it has white space after the suffix, the name is the one error.
  pub create-verify :
      (parse_date : Units → Option ℕ) (r : AgentRequest) (secret : String) (f : Fresh)
      (c : Created Token) (t later : ℕ)
      → IsJose j
      → f.uuid ≢ ""
      → parse_date f.now_text ≡ some t
      → 0 < length f.now_text
      → later / 1000 < f.now / 1000 + agent_access_token_ttl
      → create_agent_identity ed j r secret f ≡ ok c
      → verify_agent_identity ed j parse_date c.identity c.access_token secret later
        ≡ (if ends_with r.name agent_display_suffix then [] else bad_name ∷ [])
  unfolding verify_agent_identity check_suffix_enforcement
  create-verify parse_date r secret f c t later jose named dated filled alive h =
      let a = create_agent_identity_made r secret f c h in
      let made = create_manifest_made ed law f.secret_key (manifest_input r) f.now_text a.0 a.1 in
      let signed =
        sign_new_made ed law f.secret_key (unsigned_manifest (manifest_input r) f.now_text) a.0
          made.2 in
      let name : ends_with a.0.name agent_display_suffix ≡ true =
        rw signed.2 (trimmed_ends r.name made.0) in
      let manifest =
        create_manifest-valid ed law f.secret_key parse_date (manifest_input r) f.now_text t a.0
          dated filled refl a.1 in
      let i : AgentIdentity = (identity_of ed j r secret f a.0).identity in
      let suffix : check_suffix_enforcement i
          ≡ (if ends_with r.name agent_display_suffix then valid else invalid bad_name) =
        ground (arith, name, eq_refl "(ai)") in
      rw a.2 (
        rw suffix
          (rw manifest (rw (token_known r secret f a.0 later jose named alive) (ground arith))))

-- ===== src/Identity/WebAuthn.antt =====
-- packages/identity/src/webauthn: registration.ts, authentication.ts and challenge-store.ts. What a
-- browser sends is of a type that only the library @simplewebauthn/server reads; a store of
-- challenges is an object, of which a method may be missing.
pub mod Stores
pub mod Once
mod Tests
use Prim.Native.String.{◌++◌}
use kalen.Prelude.{
  ℕ, ◌+◌, ◌*◌, ◌<◌, String, Bool, true, false, not, ◌||◌, Option, none, some, List, [], ◌∷◌, ◌==◌,
  map, if◌then◌else◌, Result, ok, err,
}
use kalen.Shared.Text.{Units}
use kalen.Identity.Keys.{Bytes, bytes_to_base64url, base64url_to_bytes}

-- `StoredCredential`; `transports` and the hints on the device are as the library gave them
pub record StoredCredential (Hints : Type 0) : Type 0 where
  pub id : String
  pub public_key : Units
  pub counter : ℕ
  pub hints : Hints

-- a `ChallengeStore` on a state: each method, if the object has it, may throw (`none`)
pub record ChallengeStore (S : Type 0) : Type 0 where
  pub set_challenge : Option (S → (id challenge : String) → (ttl_seconds : ℕ) → S)
  pub get_challenge : Option (S → (id : String) → S × Option String)
  pub delete_challenge : Option (S → (id : String) → S)

abbrev pub challenge_ttl : ℕ
challenge_ttl = 120

-- what the library reads in a registration
pub record RegistrationInfo (Hints : Type 0) : Type 0 where
  pub id : String
  pub public_key : Bytes
  pub counter : ℕ
  pub hints : Hints

-- What a call of the library gives: it throws, it says no, or it says yes, with what it has read.
pub data Verification {ℓ} (A : Type ℓ) : Type ℓ where
  throws : Verification A
  refuses : Verification A
  verifies : A → Verification A

-- The library. `verify_registration` and `verify_authentication` are given the challenge that is
-- expected.
pub record Library (Response Hints : Type 0) : Type 0 where
  pub verify_registration :
      Response → (challenge origin rp_id : String) → Verification (RegistrationInfo Hints)
  pub verify_authentication :
      Response → (challenge origin rp_id : String) → StoredCredential Hints → Bytes → Verification ℕ

-- `WebAuthnConfig` and `AuthenticationConfig`, without the store
pub record RelyingParty : Type 0 where
  pub rp_id : String
  pub origin : String

pub data WebAuthnError : Type 0 where
  no_challenge not_verified threw : WebAuthnError

-- `ok` is what a call resolves to, and `err type_error` a call of a method that is missing
pub data Rejected : Type 0 where
  type_error : Rejected

-- whether a text counts as false
abbrev pub is_empty : Option String → Bool
is_empty none = true
is_empty (some s) = s == ""

abbrev pub text_of : Option String → String
text_of none = ""
text_of (some s) = s

abbrev pub challenge_key : String → String
challenge_key challenge = "auth:" ++ challenge

module _ {S : Type 0} (store : ChallengeStore S) where
  -- the end of `generateRegistrationOptions`, with the challenge of the library's options
  unfoldable pub generate_registration_options :
      S → (user_id challenge : String) → Result Rejected S
  generate_registration_options s user_id challenge = elim store.set_challenge [
    | none ↦ err type_error
    | some set ↦ ok (set s user_id challenge challenge_ttl)
  ]

  -- the end of `generateAuthenticationOptions`: the key of the challenge comes back too
  unfoldable pub generate_authentication_options :
      S → (challenge : String) → Result Rejected (S × String)
  generate_authentication_options s challenge = elim store.set_challenge [
    | none ↦ err type_error
    | some set ↦
        ok (set s (challenge_key challenge) challenge challenge_ttl, challenge_key challenge)
  ]

  -- a call of `deleteChallenge` inside a `try`: without the method, the error is what is given back
  abbrev pub forget {ℓ} : {A : Type ℓ} → S → String → A → S × Result WebAuthnError A
  forget s id a = elim store.delete_challenge [
    | none ↦ (s, err threw)
    | some del ↦ (del s id, ok a)
  ]

module _ {S Response Hints : Type 0} (store : ChallengeStore S) (lib : Library Response Hints)
    (rp : RelyingParty) where
  -- `verifyRegistrationResponse` past the challenge
  abbrev pub check_registration :
      S → String → Response → String → S × Result WebAuthnError (StoredCredential Hints)
  check_registration s user_id response challenge =
      elim (lib.verify_registration response challenge rp.origin rp.rp_id) [
        | throws ↦ (s, err threw)
        | refuses ↦ (s, err not_verified)
        | verifies i ↦ forget store s user_id (record {
          id = i.id;
          public_key = bytes_to_base64url i.public_key;
          counter = i.counter;
          hints = i.hints;
        })
      ]

  -- `verifyRegistrationResponse`
  unfoldable pub verify_registration_response :
      S
      → (user_id : String) → Response
      → Result Rejected (S × Result WebAuthnError (StoredCredential Hints))
  unfolding bytes_to_base64url
  verify_registration_response s user_id response = elim store.get_challenge [
    | none ↦ err type_error
    | some get ↦
        let (s', expected) = get s user_id in
        if is_empty expected
        then ok (s', err no_challenge)
        else ok (check_registration s' user_id response (text_of expected))
  ]

  -- `verifyAuthenticationResponse` past the challenge: `atob` may throw, inside the `try`
  abbrev pub check_authentication :
      S → String → Response → StoredCredential Hints → String → S × Result WebAuthnError ℕ
  check_authentication s key response credential challenge =
      elim (base64url_to_bytes credential.public_key) [
        | none ↦ (s, err threw)
        | some bytes ↦
            elim (lib.verify_authentication response challenge rp.origin rp.rp_id credential
              bytes) [
                | throws ↦ (s, err threw)
                | refuses ↦ (s, err not_verified)
                | verifies counter ↦ forget store s key counter
              ]
      ]

  -- `verifyAuthenticationResponse`
  unfoldable pub verify_authentication_response :
      S
      → (key : String) → Response
      → StoredCredential Hints
      → Result Rejected (S × Result WebAuthnError ℕ)
  unfolding base64url_to_bytes
  verify_authentication_response s key response credential = elim store.get_challenge [
    | none ↦ err type_error
    | some get ↦
        let (s', expected) = get s key in
        if is_empty expected
        then ok (s', err no_challenge)
        else ok (check_authentication s' key response credential (text_of expected))
  ]

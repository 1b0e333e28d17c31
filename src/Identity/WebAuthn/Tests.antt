-- ===== src/Identity/WebAuthn/Tests.antt =====
-- The ceremonies on small inputs, and the theorems applied to them.
use kalen.Prelude.{ℕ, String, ◌≡◌, refl, [], ◌∷◌, ◌==◌, ◌+◌, arith, eq_refl, if◌then◌else◌, ok, err}
use kalen.Prelude.Dict.{Dict, lookup, insert, erase, lookup-erase}
use kalen.Identity.Keys.{bytes_to_base64url, base64url_to_bytes}
use kalen.Identity.WebAuthn.{
  StoredCredential, Library, RelyingParty, refuses, verifies, not_verified,
  verify_registration_response, verify_authentication_response, generate_registration_options,
}
use kalen.Identity.WebAuthn.Stores.{RedisClient, redis_store}
use kalen.Identity.WebAuthn.Once.{IsRedis}

-- a client that keeps no time
abbrev redis : RedisClient (Dict String)
redis = record {
  set = λ s key value ttl. insert key value s;
  get = λ s key. (s, lookup key s);
  del = λ s key. erase key s;
}

redis-IsRedis : IsRedis redis
redis-IsRedis = record { get_del = λ s key. ground (arith, eq_refl key, lookup-erase key key s) }

-- a library that verifies a response that is the challenge
abbrev library : Library String ℕ
library = record {
  verify_registration = λ r challenge origin rp_id.
      if r == challenge
      then verifies (record { id = "c1"; public_key = 1 ∷ 2 ∷ []; counter = 0; hints = 0 })
      else refuses;
  verify_authentication = λ r challenge origin rp_id credential bytes.
      if r == challenge then verifies (credential.counter + 1) else refuses;
}

abbrev party : RelyingParty
party = record { rp_id = "localhost"; origin = "http://localhost:3000" }

abbrev pending : Dict String
pending = ("kalen:challenge:u1", "x") ∷ []

abbrev credential : StoredCredential ℕ
credential = record {
  id = "c1";
  public_key = bytes_to_base64url (1 ∷ 2 ∷ []);
  counter = 0;
  hints = 0;
}

webauthn_tests :
    (generate_registration_options (redis_store redis) [] "u1" "x" ≡ ok pending)
    × (verify_registration_response (redis_store redis) library party pending "u1" "y"
        ≡ ok (pending, err not_verified))
unfolding generate_registration_options verify_registration_response lookup insert
webauthn_tests = (refl, refl)

verified :
    verify_registration_response (redis_store redis) library party pending "u1" "x"
    ≡ ok ([], ok credential)
unfolding verify_registration_response lookup erase
verified = refl

authenticated :
    verify_authentication_response (redis_store redis) library party pending "u1" "x" credential
    ≡ ok ([], ok 1)
unfolding verify_authentication_response base64url_to_bytes bytes_to_base64url lookup erase
authenticated = refl

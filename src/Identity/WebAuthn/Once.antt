-- ===== src/Identity/WebAuthn/Once.antt =====
-- packages/identity/src/webauthn: a challenge serves once, and for a time.
use Prim.Native.String.{◌++◌}
use kalen.Prelude.{
  ℕ, ◌+◌, ◌*◌, String, ◌≡◌, refl, sym, ◌∙◌, inl, inr, Option, none, some, ◌==◌, ltb, arith,
  Bool-cases, Option-cases, if◌then◌else◌, ok, err,
}
use kalen.Prelude.Dict.{Dict, lookup, lookup-insert}
use kalen.Identity.Keys.{Bytes, base64url_to_bytes}
use kalen.Identity.WebAuthn.{
  StoredCredential, Library, RelyingParty, Verification, throws, refuses, verifies,
  RegistrationInfo, no_challenge, text_of, is_empty, check_registration, check_authentication,
  verify_registration_response, verify_authentication_response,
}
use kalen.Identity.WebAuthn.Stores.{
  RedisClient, redis_store, redis_challenge_prefix, Entry, set, get,
}

-- What the client says of itself: a key that was deleted has no value.
pub record IsRedis {S : Type 0} (redis : RedisClient S) : Type 0 where
  pub get_del : (s : S) (key : String) → (redis.get (redis.del s key) key).1 ≡ none

module _ {S Response Hints : Type 0} (redis : RedisClient S) (law : IsRedis redis)
    (lib : Library Response Hints) (rp : RelyingParty) where
  abbrev key_of : String → String
  key_of id = redis_challenge_prefix ++ id

  unknown_challenge :
      (s : S) (id : String) (response : Response)
      → (redis.get s (key_of id)).1 ≡ none
      → verify_registration_response (redis_store redis) lib rp s id response
        ≡ ok ((redis.get s (key_of id)).0, err no_challenge)
  unfolding verify_registration_response
  unknown_challenge s id response e = rw e refl

  deleted_by_registration :
      (s s' : S) (id challenge : String) (response : Response) (credential : StoredCredential Hints)
      → check_registration (redis_store redis) lib rp s id response challenge ≡ (s', ok credential)
      → s' ≡ redis.del s (key_of id)
  deleted_by_registration s s' id challenge response credential h =
      go (lib.verify_registration response challenge rp.origin rp.rp_id) refl
    where
      go :
          (v : Verification (RegistrationInfo Hints))
          → lib.verify_registration response challenge rp.origin rp.rp_id ≡ v
          → s' ≡ redis.del s (key_of id)
      go throws v = absurd (ground (arith, v, h))
      go refuses v = absurd (ground (arith, v, h))
      go (verifies i) v = ground (arith, v, h)

  -- With a client that keeps its word: once a registration is verified, no other response for the
  -- user is, until a new challenge is set.
  pub registration_once :
      (s s' : S) (id : String) (response other : Response) (credential : StoredCredential Hints)
      → verify_registration_response (redis_store redis) lib rp s id response
        ≡ ok (s', ok credential)
      → verify_registration_response (redis_store redis) lib rp s' id other
        ≡ ok ((redis.get s' (key_of id)).0, err no_challenge)
  unfolding verify_registration_response
  registration_once s s' id response other credential h =
      let got = redis.get s (key_of id) in
      elim (Bool-cases (is_empty got.1)) [
        | inl e ↦ absurd (ground (arith, e, h))
        | inr e ↦
            let checked : check_registration (redis_store redis) lib rp got.0 id response
                  (text_of got.1)
                ≡ (s', ok credential) =
              ground (arith, e, h) in
            let gone =
              deleted_by_registration got.0 s' id (text_of got.1) response credential checked in
            unknown_challenge s' id other (rw gone (law.get_del got.0 (key_of id)))
      ]

  unknown_key :
      (s : S) (key : String) (response : Response) (credential : StoredCredential Hints)
      → (redis.get s (key_of key)).1 ≡ none
      → verify_authentication_response (redis_store redis) lib rp s key response credential
        ≡ ok ((redis.get s (key_of key)).0, err no_challenge)
  unfolding verify_authentication_response
  unknown_key s key response credential e = rw e refl

  deleted_by_authentication :
      (s s' : S) (key challenge : String) (response : Response)
      (credential : StoredCredential Hints) (counter : ℕ)
      → check_authentication (redis_store redis) lib rp s key response credential challenge
        ≡ (s', ok counter)
      → s' ≡ redis.del s (key_of key)
  deleted_by_authentication s s' key challenge response credential counter h =
      elim (Option-cases (base64url_to_bytes credential.public_key)) [
        | inl b ↦ absurd (ground (arith, b, h))
        | inr (bytes, b) ↦
            go bytes b
              (lib.verify_authentication response challenge rp.origin rp.rp_id credential bytes)
              refl
      ]
    where
      go :
          (bytes : Bytes)
          → base64url_to_bytes credential.public_key ≡ some bytes
          → (v : Verification ℕ)
          → lib.verify_authentication response challenge rp.origin rp.rp_id credential bytes ≡ v
          → s' ≡ redis.del s (key_of key)
      go bytes b throws v = absurd (ground (arith, b, v, h))
      go bytes b refuses v = absurd (ground (arith, b, v, h))
      go bytes b (verifies n) v = ground (arith, b, v, h)

  -- With a client that keeps its word: once an authentication is verified under a key, none is
  -- verified under it, with whatever response and credential, until a new challenge is set.
  pub authentication_once :
      (s s' : S) (key : String) (response other : Response)
      (credential held : StoredCredential Hints) (counter : ℕ)
      → verify_authentication_response (redis_store redis) lib rp s key response credential
        ≡ ok (s', ok counter)
      → verify_authentication_response (redis_store redis) lib rp s' key other held
        ≡ ok ((redis.get s' (key_of key)).0, err no_challenge)
  unfolding verify_authentication_response
  authentication_once s s' key response other credential held counter h =
      let got = redis.get s (key_of key) in
      elim (Bool-cases (is_empty got.1)) [
        | inl e ↦ absurd (ground (arith, e, h))
        | inr e ↦
            let checked : check_authentication (redis_store redis) lib rp got.0 key response
                  credential (text_of got.1)
                ≡ (s', ok counter) =
              ground (arith, e, h) in
            let gone =
              deleted_by_authentication got.0 s' key (text_of got.1) response credential counter
                checked in
            unknown_key s' key other held (rw gone (law.get_del got.0 (key_of key)))
      ]

-- what an entry is worth at a time
abbrev live : ℕ → Option Entry → Option String
live now none = none
live now (some e) = if ltb e.expires_at now then none else some e.challenge

get-eq-live :
    (now : ℕ) (store : Dict Entry) (key : String)
    → (get now store key).1 ≡ live now (lookup key store)
unfolding get
get-eq-live now store key = elim (Option-cases (lookup key store)) [
  | inl e ↦ rw (e, get) refl
  | inr (x, e) ↦ elim (Bool-cases (ltb x.expires_at now)) [
    | inl l ↦ rw (e, get) (rw l refl)
    | inr l ↦ rw (e, get) (rw l refl)
  ]
]

-- A challenge that is set in memory is there for its time to live, the last millisecond included,
-- and not after; the other keys are as they were.
pub get-set :
    (store : Dict Entry) (key other challenge : String) (ttl now later : ℕ)
    → (get later (set now store key challenge ttl) other).1 ≡ (
        if key == other
        then (if ltb (now + ttl * 1000) later then none else some challenge)
        else (get later store other).1)
unfolding set
get-set store key other challenge ttl now later =
    let e : Entry = record { challenge = challenge; expires_at = now + ttl * 1000 } in
    let l =
      lookup-insert key other (record { challenge = challenge; expires_at = now + ttl * 1000 })
        store in
    get-eq-live later (set now store key challenge ttl) other ∙ elim (Bool-cases (key == other)) [
      | inl k ↦ rw l (rw k refl)
      | inr k ↦ rw l (rw k (sym (get-eq-live later store other)))
    ]

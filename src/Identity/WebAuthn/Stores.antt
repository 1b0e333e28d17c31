-- ===== src/Identity/WebAuthn/Stores.antt =====
-- packages/identity/src/webauthn/challenge-store.ts, on a client of Redis; and the store in memory of
-- apps/server/src/auth/auth.service.ts, which has the methods of such a client.
use Prim.Native.String.{◌++◌}
use kalen.Prelude.{ℕ, ◌+◌, ◌*◌, String, Option, none, some, ltb, if◌then◌else◌}
use kalen.Prelude.Dict.{Dict, lookup, insert, erase}
use kalen.Identity.WebAuthn.{ChallengeStore}

abbrev pub redis_challenge_prefix : String
redis_challenge_prefix = "kalen:challenge:"

-- `RedisClient` on a state: a set with a time to live in seconds, a get and a delete
pub record RedisClient (S : Type 0) : Type 0 where
  pub set : S → (key value : String) → (ttl_seconds : ℕ) → S
  pub get : S → (key : String) → S × Option String
  pub del : S → (key : String) → S

-- the class `ChallengeStore`: every method is there
abbrev pub redis_store : {S : Type 0} → RedisClient S → ChallengeStore S
redis_store redis = record {
  set_challenge =
      some (λ s id challenge ttl. redis.set s (redis_challenge_prefix ++ id) challenge ttl);
  get_challenge = some (λ s id. redis.get s (redis_challenge_prefix ++ id));
  delete_challenge = some (λ s id. redis.del s (redis_challenge_prefix ++ id));
}

-- an entry of `InMemoryChallengeStore`
pub record Entry : Type 0 where
  pub challenge : String
  pub expires_at : ℕ

-- `InMemoryChallengeStore.set`
unfoldable pub set : ℕ → Dict Entry → String → String → ℕ → Dict Entry
set now store key challenge ttl_seconds =
    insert key (record { challenge = challenge; expires_at = now + ttl_seconds * 1000 }) store

-- `InMemoryChallengeStore.get`
unfoldable pub get : ℕ → Dict Entry → String → Dict Entry × Option String
get now store key = elim (lookup key store) [
  | none ↦ (store, none)
  | some e ↦ if ltb e.expires_at now then (erase key store, none) else (store, some e.challenge)
]

-- `InMemoryChallengeStore.del`
unfoldable pub del : Dict Entry → String → Dict Entry
del store key = erase key store

-- the store in memory where the ceremonies expect a `ChallengeStore`: it has none of the methods
abbrev pub in_memory_store : {S : Type 0} → ChallengeStore S
in_memory_store = record { set_challenge = none; get_challenge = none; delete_challenge = none }

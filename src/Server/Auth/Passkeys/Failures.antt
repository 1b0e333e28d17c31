-- ===== src/Server/Auth/Passkeys/Failures.antt =====
-- The operations of a passkey with the store in memory.
use kalen.Prelude.{ℕ, String, ◌≡◌, refl, false, ◌==◌, Option-cases, inl, inr, arith, Result}
use kalen.Prelude.Dict.{Dict}
use kalen.Shared.Json.{Json}
use kalen.Shared.Text.{Units}
use kalen.Identity.Token.{Jose}
use kalen.Identity.WebAuthn.{
  Library, RelyingParty, generate_registration_options, generate_authentication_options,
  verify_registration_response, verify_authentication_response,
}
use kalen.Identity.WebAuthn.Stores.{Entry, in_memory_store}
use kalen.Server.Accounts.{User, first_of, find_by_email}
use kalen.Server.Auth.Agents.{is_ok}
use kalen.Server.Auth.Passkeys.{
  Assertion, PasskeyError, login_begin, login_finish, login_with, register_begin, register_finish,
}

-- a call that gave an error and left the state as it was
abbrev pub Fails : {S A : Type 0} → S → S × Result PasskeyError A → Type 0
Fails s (s', r) = (s' ≡ s) × (is_ok r ≡ false)

register_begin-Fails :
    (users : Dict User) (memory : Dict Entry) (email user_id challenge : String) (now : ℕ)
    → Fails memory (register_begin in_memory_store users memory email user_id challenge now)
unfolding register_begin generate_registration_options
register_begin-Fails users memory email user_id challenge now = ground arith

register_finish-Fails :
    {Token Response : Type 0} (lib : Library Response Json) (rp : RelyingParty) (j : Jose Token)
    (users : Dict User) (memory : Dict Entry) (email user_id : String) (hex : Units)
    (response : Response)
    → Fails
        (users, memory)
        (register_finish in_memory_store lib rp j users memory email user_id hex response)
unfolding register_finish verify_registration_response
register_finish-Fails lib rp j users memory email user_id hex response = ground arith

login_begin-Fails :
    (users : Dict User) (memory : Dict Entry) (email challenge : String) (now : ℕ)
    → Fails memory (login_begin in_memory_store users memory email challenge now)
unfolding login_begin generate_authentication_options
login_begin-Fails users memory email challenge now =
    elim (Option-cases (find_by_email users email)) [
      | inl no_user ↦ rw (no_user, login_begin) (refl, refl)
      | inr (u, found) ↦ rw (found, login_begin) (refl, refl)
    ]

module _ {Token Response : Type 0} (lib : Library Response Json) (rp : RelyingParty)
    (j : Jose Token) where
  login_with-Fails :
      (users : Dict User) (memory : Dict Entry) (u : User) (a : Assertion Response)
      (secret : String) (now : ℕ)
      → Fails (users, memory) (login_with in_memory_store lib rp j users memory u a secret now)
  unfolding login_with verify_authentication_response
  login_with-Fails users memory u a secret now =
      elim (Option-cases (first_of (λ c. c.id == a.id) u.credentials)) [
        | inl missing ↦ rw (missing, login_with) (refl, refl)
        | inr (c, found) ↦ rw (found, login_with) (refl, refl)
      ]

  login_finish-Fails :
      (users : Dict User) (memory : Dict Entry) (email : String) (a : Assertion Response)
      (secret : String) (now : ℕ)
      → Fails
          (users, memory)
          (login_finish in_memory_store lib rp j users memory email a secret now)
  unfolding login_finish
  login_finish-Fails users memory email a secret now =
      elim (Option-cases (find_by_email users email)) [
        | inl no_user ↦ rw (no_user, login_finish) (refl, refl)
        | inr (u, found) ↦
            rw (found, login_finish) (ground (arith, login_with-Fails users memory u a secret now))
      ]

-- With the store in memory, which is what the service has: whatever the users, the store and what
-- the client sends, none of the four operations of a passkey succeeds, and all of them leave the
-- users and the store as they are.
pub no_passkey_operation_succeeds :
    {Token Response : Type 0} (lib : Library Response Json) (rp : RelyingParty) (j : Jose Token)
    (users : Dict User) (memory : Dict Entry) (email user_id challenge secret : String)
    (hex : Units) (response : Response) (a : Assertion Response) (now : ℕ)
    → (Fails memory (register_begin in_memory_store users memory email user_id challenge now))
      × (Fails
          (users, memory)
          (register_finish in_memory_store lib rp j users memory email user_id hex response))
      × (Fails memory (login_begin in_memory_store users memory email challenge now))
      × (Fails
          (users, memory)
          (login_finish in_memory_store lib rp j users memory email a secret now))
no_passkey_operation_succeeds lib rp j users memory email user_id challenge secret hex response a
      now =
    (
      register_begin-Fails users memory email user_id challenge now,
      register_finish-Fails lib rp j users memory email user_id hex response,
      login_begin-Fails users memory email challenge now,
      login_finish-Fails lib rp j users memory email a secret now,
    )

-- ===== src/Server/Events/Tracking.antt =====
-- apps/server/src/gateway/events.gateway.ts: which sockets are kept for a user.
use kalen.Prelude.{
  ℕ, String, ◌≡◌, true, some, List, [], ◌∷◌, inl, inr, arith, eq_iff, Bool-cases, Option-cases,
}
use kalen.Prelude.Dict.{lookup, lookup-insert, lookup-erase}
use kalen.Prelude.StringSet.{StringSet, has}
use kalen.Prelude.SetMap.{set_of, has-add_to, has-remove_from}
use kalen.Identity.Token.{Jose, TokenPayload, is_str, verify_token}
use kalen.Server.Events.{Gateway, new_gateway, handle_disconnect, accept, handle_auth}
use kalen.Server.Events.Steps.{
  Call, disconnects, auths, subscribes, unsubscribes, types, types_no_more, sets_presence, step,
  run,
}

-- Every socket that has an identity is among the sockets of its user, and the property on the
-- socket says the same.
pub record IsTracked (g : Gateway) : Type 0 where
  pub listed :
      (c : String) (p : TokenPayload)
      → lookup c g.socket_identities ≡ some p
      → has c (set_of g.user_sockets p.sub) ≡ true
  pub marked :
      (c : String) (p : TokenPayload)
      → lookup c g.socket_identities ≡ some p
      → lookup c g.identity ≡ some p

new_gateway-IsTracked : IsTracked new_gateway
unfolding lookup
new_gateway-IsTracked = record { listed = λ c p h. cc; marked = λ c p h. cc }

accept-IsTracked :
    (g : Gateway) (id : String) (p : TokenPayload) → IsTracked g → IsTracked (accept g id p).0
unfolding accept
accept-IsTracked g id p t = record {
  listed = λ c q h. ground (
    arith,
    h,
    eq_iff id c,
    eq_iff p.sub q.sub,
    lookup-insert id c p g.socket_identities,
    has-add_to g.user_sockets p.sub id q.sub c,
    t.listed c q,
  );
  marked = λ c q h. ground (
    arith,
    h,
    lookup-insert id c p g.socket_identities,
    lookup-insert id c p g.identity,
    t.marked c q,
  );
}

handle_auth-IsTracked :
    {Token : Type 0} (j : Jose Token) (g : Gateway) (id : String) (token : Token) (secret : String)
    (now : ℕ)
    → IsTracked g
    → IsTracked (handle_auth j g id token secret now).0
unfolding handle_auth
handle_auth-IsTracked j g id token secret now t =
    elim (Option-cases (verify_token j token secret now)) [
      | inl e ↦ rw (e, handle_auth) t
      | inr (p, e) ↦ elim (Bool-cases (is_str p.token_type "access")) [
        | inl a ↦ rw (e, handle_auth) (rw a (accept-IsTracked g id p t))
        | inr a ↦ rw (e, handle_auth) (rw a t)
      ]
    ]

handle_disconnect-IsTracked :
    (g : Gateway) (id : String) (rooms : StringSet)
    → IsTracked g
    → IsTracked (handle_disconnect g id rooms).0
unfolding handle_disconnect
handle_disconnect-IsTracked g id rooms t = elim (Option-cases (lookup id g.socket_identities)) [
  | inl e ↦ rw (e, handle_disconnect) t
  | inr (p, e) ↦
      rw (e, handle_disconnect)
        (record {
          listed = λ c q h. ground (
            arith,
            h,
            eq_iff id c,
            lookup-erase id c g.socket_identities,
            has-remove_from g.user_sockets p.sub id q.sub c,
            t.listed c q,
          );
          marked = λ c q h. ground (arith, h, lookup-erase id c g.socket_identities, t.marked c q);
        })
]

step-IsTracked :
    {Token : Type 0} (j : Jose Token) (secret : String) (g : Gateway) (c : Call Token)
    → IsTracked g
    → IsTracked (step j secret g c).0
unfolding step
step-IsTracked j secret g (disconnects id rooms) t = handle_disconnect-IsTracked g id rooms t
step-IsTracked j secret g (auths id token now) t = handle_auth-IsTracked j g id token secret now t
step-IsTracked j secret g (subscribes id c) t = t
step-IsTracked j secret g (unsubscribes id c) t = t
step-IsTracked j secret g (types id c) t = t
step-IsTracked j secret g (types_no_more id c) t = t
step-IsTracked j secret g (sets_presence id status rooms) t = t

run-IsTracked :
    {Token : Type 0} (j : Jose Token) (secret : String) (g : Gateway) (cs : List (Call Token))
    → IsTracked g
    → IsTracked (run j secret g cs)
unfolding run
run-IsTracked j secret g [] t = t
run-IsTracked j secret g (c ∷ cs) t =
    run-IsTracked j secret (step j secret g c).0 cs (step-IsTracked j secret g c t)

-- After any calls of the handlers, in any order, a socket with an identity is kept among the
-- sockets of that identity's user, and the property on the socket is that identity.
pub run-new_gateway-IsTracked :
    {Token : Type 0} (j : Jose Token) (secret : String) (cs : List (Call Token))
    → IsTracked (run j secret new_gateway cs)
run-new_gateway-IsTracked j secret cs = run-IsTracked j secret new_gateway cs new_gateway-IsTracked

-- ===== src/Server/Events/Offline.antt =====
-- apps/server/src/gateway/events.gateway.ts: who is told that a user is gone, and the socket that
-- changes its user.
use kalen.Prelude.{
  ℕ, String, ◌≡◌, ◌≢◌, sym, subst, true, none, some, [], ◌∷◌, arith, eq_iff, eq_refl,
}
use kalen.Prelude.Dict.{lookup, lookup-insert, lookup-erase}
use kalen.Prelude.StringSet.{StringSet, has}
use kalen.Prelude.SetMap.{set_of, has-add_to, has-remove_from}
use kalen.Identity.Token.{Jose, TokenPayload, is_str, verify_token}
use kalen.Server.Events.{Gateway, handle_disconnect, accept, handle_auth}
use kalen.Server.Events.Steps.{disconnects, auths, step, run}
use kalen.Server.Events.Stale.{handle_auth-eq-accept}

-- Another socket has an identity of the user.
abbrev pub Others : Gateway → String → String → Type 0
Others g id sub =
    (c : String) × (q : TokenPayload) × (c ≢ id)
    × (lookup c g.socket_identities ≡ some q)
    × (q.sub ≡ sub)

-- A disconnection touches only the sockets of the user that the socket has the identity of.
handle_disconnect_other :
    (g : Gateway) (id u : String) (rooms : StringSet) (q : TokenPayload)
    → lookup id g.socket_identities ≡ some q
    → q.sub ≢ u
    → has id (set_of g.user_sockets u) ≡ true
    → let g' = (handle_disconnect g id rooms).0 in
      (has id (set_of g'.user_sockets u) ≡ true) × (lookup id g'.socket_identities ≡ none)
unfolding handle_disconnect
handle_disconnect_other g id u rooms q e ne h =
    rw (e, handle_disconnect)
      (
        ground (arith, h, eq_iff q.sub u, ne, has-remove_from g.user_sockets q.sub id u id),
        ground (arith, eq_refl id, lookup-erase id id g.socket_identities),
      )

-- A socket that authenticates as one user and then as another stays among the first user's
-- sockets when it disconnects and has no identity left.
pub change_of_user_leaves_socket :
    {Token : Type 0} (j : Jose Token) (secret : String) (g : Gateway) (id : String)
    (token other : Token) (now later : ℕ) (rooms : StringSet) (p q : TokenPayload)
    → verify_token j token secret now ≡ some p
    → is_str p.token_type "access" ≡ true
    → verify_token j other secret later ≡ some q
    → is_str q.token_type "access" ≡ true
    → p.sub ≢ q.sub
    → let g' =
        run j secret g (auths id token now ∷ auths id other later ∷ disconnects id rooms ∷ []) in
      (has id (set_of g'.user_sockets p.sub) ≡ true) × (lookup id g'.socket_identities ≡ none)
unfolding run step accept
change_of_user_leaves_socket j secret g id token other now later rooms p q e a f b ne =
    let g1 : Gateway = (accept g id p).0 in
    let first : has id (set_of g1.user_sockets p.sub) ≡ true =
      ground (arith, eq_refl id, eq_refl p.sub, has-add_to g.user_sockets p.sub id p.sub id) in
    let second : has id (set_of (accept g1 id q).0.user_sockets p.sub) ≡ true =
      ground (arith, first, eq_refl id, has-add_to g1.user_sockets q.sub id p.sub id) in
    subst
      (λ r. LeftBehind (handle_disconnect (handle_auth j r.0 id other secret later).0 id rooms).0)
      (sym (handle_auth-eq-accept j g id token secret now p e a))
      (subst (λ r. LeftBehind (handle_disconnect r.0 id rooms).0)
        (sym (handle_auth-eq-accept j g1 id other secret later q f b))
        (handle_disconnect_other (accept g1 id q).0 id p.sub rooms q
          (ground (arith, eq_refl id, lookup-insert id id q g1.socket_identities)) (λ w. ne (sym w))
          second))
  where
    LeftBehind : Gateway → Type 0
    LeftBehind g' =
        (has id (set_of g'.user_sockets p.sub) ≡ true) × (lookup id g'.socket_identities ≡ none)

-- ===== src/Server/Events/Access.antt =====
-- apps/server/src/gateway/events.gateway.ts: who may join a room or speak to one.
use kalen.Prelude.{
  String, ◌≡◌, true, ◌⊎◌, inl, inr, Option, none, some, List, [], ◌∷◌, ◌==◌, arith, eq_iff,
  Bool-cases, Option-cases, All,
}
use kalen.Prelude.Dict.{lookup, lookup-insert}
use kalen.Prelude.StringSet.{StringSet}
use kalen.Shared.Json.{Json}
use kalen.Identity.Token.{Jose, TokenPayload, is_str, verify_token}
use kalen.Server.Events.{
  Gateway, new_gateway, client, room_of, room, everyone, Effect, emit, join, leave, timeout,
  update_presence, is_last, handle_disconnect, accept, handle_auth, handle_subscribe,
  handle_unsubscribe, handle_typing, stop_typing, handle_presence,
}
use kalen.Server.Events.Steps.{
  Call, disconnects, auths, subscribes, unsubscribes, types, types_no_more, sets_presence, step,
  run,
}
use kalen.Server.Events.Tracking.{run-new_gateway-IsTracked}

-- the socket that an effect joins to a room, or that speaks to a room
abbrev pub actor : Effect → Option String
actor (emit (room_of id r) e) = some id
actor (emit (client id) e) = none
actor (emit (room r) e) = none
actor (emit everyone e) = none
actor (join id r) = some id
actor (leave id r) = none
actor (timeout id c) = some id

module _ {Token : Type 0} (j : Jose Token) (secret : String) where
  -- The call authenticates the socket with an access token of the payload.
  abbrev pub Proves : Call Token → String → TokenPayload → Type 0
  Proves (auths i token now) id p =
      (i ≡ id) × (verify_token j token secret now ≡ some p) × (is_str p.token_type "access" ≡ true)
  Proves _ id p = ⊥

  abbrev pub HasProof : List (Call Token) → String → TokenPayload → Type 0
  HasProof [] id p = ⊥
  HasProof (c ∷ cs) id p = Proves c id p ⊎ HasProof cs id p

  step_identity :
      (g : Gateway) (c : Call Token) (id : String) (p : TokenPayload)
      → lookup id (step j secret g c).0.identity ≡ some p
      → (lookup id g.identity ≡ some p) ⊎ Proves c id p
  unfolding step handle_auth handle_disconnect accept
  step_identity g (disconnects i rooms) id p h =
      elim (Option-cases (lookup i g.socket_identities)) [
        | inl e ↦ inl (ground (arith, e, h))
        | inr (q, e) ↦ inl (ground (arith, e, h))
      ]
  step_identity g (auths i token now) id p h =
      elim (Option-cases (verify_token j token secret now)) [
        | inl e ↦ inl (ground (arith, e, h))
        | inr (q, e) ↦ elim (Bool-cases (is_str q.token_type "access")) [
          | inl a ↦ elim (Bool-cases (i == id)) [
            | inl s ↦
                let same : q ≡ p = ground (arith, e, a, h, s, lookup-insert i id q g.identity) in
                inr ((eq_iff i id).0 s, ground (e, same, arith), ground (a, same, arith))
            | inr s ↦ inl (ground (arith, e, a, h, s, lookup-insert i id q g.identity))
          ]
          | inr a ↦ inl (ground (arith, e, a, h))
        ]
      ]
  step_identity g (subscribes i c) id p h = inl h
  step_identity g (unsubscribes i c) id p h = inl h
  step_identity g (types i c) id p h = inl h
  step_identity g (types_no_more i c) id p h = inl h
  step_identity g (sets_presence i status rooms) id p h = inl h

  run_identity :
      (g : Gateway) (cs : List (Call Token)) (id : String) (p : TokenPayload)
      → lookup id (run j secret g cs).identity ≡ some p
      → (lookup id g.identity ≡ some p) ⊎ HasProof cs id p
  unfolding run
  run_identity g [] id p h = inl h
  run_identity g (c ∷ cs) id p h = elim (run_identity (step j secret g c).0 cs id p h) [
    | inr later ↦ inr (inr later)
    | inl l ↦ elim (step_identity g c id p l) [ inl old ↦ inl old | inr now ↦ inr (inl now) ]
  ]

  -- Nobody acts, or one who has proved an identity.
  abbrev pub Entitled : List (Call Token) → Option String → Type 0
  Entitled cs none = Unit
  Entitled cs (some id) = (p : TokenPayload) × HasProof cs id p

  abbrev pub AreEntitled : List (Call Token) → List Effect → Type 0
  AreEntitled cs = All (λ e. Entitled cs (actor e))

  proved :
      (cs : List (Call Token)) (id : String) (p : TokenPayload)
      → lookup id (run j secret new_gateway cs).identity ≡ some p
      → HasProof cs id p
  unfolding lookup
  proved cs id p h = elim (run_identity new_gateway cs id p h) [ inl e ↦ cc | inr w ↦ w ]

  update_presence-AreEntitled :
      (cs : List (Call Token)) (id : String) (p : TokenPayload) (suffix : Option Json)
      (status : String) (rooms : StringSet)
      → HasProof cs id p
      → AreEntitled cs (update_presence id suffix status rooms)
  unfolding update_presence
  update_presence-AreEntitled cs id p suffix status [] h = tt
  update_presence-AreEntitled cs id p suffix status (r ∷ rs) h = elim (Bool-cases (r == id)) [
    | inl e ↦ rw e (update_presence-AreEntitled cs id p suffix status rs h)
    | inr e ↦ rw e ((p, h), update_presence-AreEntitled cs id p suffix status rs h)
  ]

  -- Whatever calls of the handlers came before, a socket that a call joins to a room, or in whose
  -- name it speaks to a room or sets a timer to do so, has authenticated with an access token in
  -- one of the calls before.
  pub step-AreEntitled :
      (cs : List (Call Token)) (c : Call Token)
      → AreEntitled cs (step j secret (run j secret new_gateway cs) c).1
  unfolding step handle_auth handle_disconnect handle_subscribe handle_unsubscribe handle_typing
      stop_typing handle_presence accept
  step-AreEntitled cs (disconnects id rooms) =
      elim (Option-cases (lookup id (run j secret new_gateway cs).socket_identities)) [
        | inl e ↦ rw (e, handle_disconnect) tt
        | inr (p, e) ↦
            let h = proved cs id p ((run-new_gateway-IsTracked j secret cs).marked id p e) in
            rw (e, handle_disconnect)
              (elim (Bool-cases (is_last (run j secret new_gateway cs).user_sockets p.sub id)) [
                | inl gone ↦
                    rw gone (update_presence-AreEntitled cs id p p.suffix "offline" rooms h)
                | inr stays ↦ rw stays tt
              ])
      ]
  step-AreEntitled cs (auths id token now) = elim (Option-cases (verify_token j token secret now)) [
    | inl e ↦ rw (e, handle_auth) (tt, tt)
    | inr (q, e) ↦ elim (Bool-cases (is_str q.token_type "access")) [
      | inl a ↦ rw (e, handle_auth) (rw a (tt, tt))
      | inr a ↦ rw (e, handle_auth) (rw a (tt, tt))
    ]
  ]
  step-AreEntitled cs (subscribes id c) =
      elim (Option-cases (lookup id (run j secret new_gateway cs).identity)) [
        | inl e ↦ rw (e, handle_subscribe) (tt, tt)
        | inr (p, e) ↦ rw (e, handle_subscribe) ((p, proved cs id p e), tt)
      ]
  step-AreEntitled cs (unsubscribes id c) = (tt, tt)
  step-AreEntitled cs (types id c) =
      elim (Option-cases (lookup id (run j secret new_gateway cs).identity)) [
        | inl e ↦ rw (e, handle_typing) tt
        | inr (p, e) ↦ rw (e, handle_typing) ((p, proved cs id p e), ((p, proved cs id p e), tt))
      ]
  step-AreEntitled cs (types_no_more id c) =
      elim (Option-cases (lookup id (run j secret new_gateway cs).socket_identities)) [
        | inl e ↦ rw (e, stop_typing) tt
        | inr (p, e) ↦
            rw (e, stop_typing)
              ((p, proved cs id p ((run-new_gateway-IsTracked j secret cs).marked id p e)), tt)
      ]
  step-AreEntitled cs (sets_presence id status rooms) =
      elim (Option-cases (lookup id (run j secret new_gateway cs).identity)) [
        | inl e ↦ rw (e, handle_presence) tt
        | inr (p, e) ↦
            rw (e, handle_presence)
              (update_presence-AreEntitled cs id p p.suffix status rooms (proved cs id p e))
      ]

-- ===== src/Server/Events/Stale.antt =====
-- apps/server/src/gateway/events.gateway.ts: when a user counts as gone.
use kalen.Prelude.{
  ℕ, String, ◌≡◌, refl, true, some, [], ◌∷◌, ◌==◌, inl, inr, arith, eq_iff, eq_refl, Bool-cases,
  Option-cases,
}
use kalen.Prelude.Dict.{Dict, lookup, insert, erase, lookup-insert, lookup-erase}
use kalen.Prelude.StringSet.{StringSet, has, delete, has-nil, has-delete}
use kalen.Prelude.SetMap.{set_of, remove_from, has-add_to, has-remove_from}
use kalen.Identity.Token.{Jose, TokenPayload, is_str, verify_token}
use kalen.Server.Events.{Gateway, new_gateway, is_last, handle_disconnect, accept, handle_auth}
use kalen.Server.Events.Steps.{
  Call, disconnects, auths, subscribes, unsubscribes, types, types_no_more, sets_presence, step,
}
use kalen.Server.Events.Tracking.{IsTracked}

-- Every socket that is kept for a user has an identity of that user.
pub record IsExact (g : Gateway) : Type 0 where
  pub kept :
      (u c : String)
      → has c (set_of g.user_sockets u) ≡ true
      → (p : TokenPayload) × (lookup c g.socket_identities ≡ some p) × (p.sub ≡ u)

-- The call is not a socket's change to another user.
abbrev pub KeepsUser :
    {Token : Type 0} → Jose Token → (secret : String) → Gateway → Call Token → Type 0
KeepsUser j secret g (auths id token now) =
    (p q : TokenPayload)
    → verify_token j token secret now ≡ some p
    → lookup id g.socket_identities ≡ some q
    → q.sub ≡ p.sub
KeepsUser j secret g _ = Unit

has-head : (x : String) (s : StringSet) → has x (x ∷ s) ≡ true
unfolding has
has-head x s = rw (eq_refl x)

-- A user who is gone had no socket but this one.
pub is_last_only :
    (users : Dict StringSet) (sub id c : String)
    → is_last users sub id ≡ true
    → has c (set_of users sub) ≡ true
    → id ≡ c
unfolding is_last
is_last_only users sub id c g h = elim (Option-cases (lookup sub users)) [
  | inl e ↦ ground (arith, e, has-nil c)
  | inr (s, e) ↦ split s e (delete id s) refl
]
  where
    split : (s : StringSet) → lookup sub users ≡ some s → (t : StringSet) → delete id s ≡ t → id ≡ c
    split s e [] d = ground (arith, e, d, h, eq_iff id c, has-delete id c s, has-nil c)
    split s e (x ∷ t) d = ground (arith, e, d, g)

-- A user whose only socket is this one is gone.
pub is_last_alone :
    (g : Gateway) (id : String) (p : TokenPayload)
    → IsTracked g
    → IsExact g
    → lookup id g.socket_identities ≡ some p
    → ((c : String) (q : TokenPayload)
        → lookup c g.socket_identities ≡ some q
        → q.sub ≡ p.sub
        → c ≡ id)
    → is_last g.user_sockets p.sub id ≡ true
unfolding is_last
is_last_alone g id p t x e alone = elim (Option-cases (lookup p.sub g.user_sockets)) [
  | inl n ↦ ground (arith, n, t.listed id p e, has-nil id)
  | inr (s, n) ↦ split s n (delete id s) refl
]
  where
    split :
        (s : StringSet)
        → lookup p.sub g.user_sockets ≡ some s
        → (r : StringSet) → delete id s ≡ r
        → is_last g.user_sockets p.sub id ≡ true
    split s n [] d = rw (n, is_last) (rw d refl)
    split s n (c ∷ r) d =
        let there : has c (delete id s) ≡ true = rw d (has-head c r) in
        let other : has c (set_of g.user_sockets p.sub) ≡ true =
          ground (arith, n, there, has-delete id c s) in
        let k = x.kept p.sub c other in
        ground (arith, there, eq_iff id c, has-delete id c s, alone c k.0 k.1 k.2)

new_gateway-IsExact : IsExact new_gateway
unfolding lookup has
new_gateway-IsExact = record { kept = λ u c h. absurd (ground arith) }

pub handle_auth-eq-accept :
    {Token : Type 0} (j : Jose Token) (g : Gateway) (id : String) (token : Token) (secret : String)
    (now : ℕ) (p : TokenPayload)
    → verify_token j token secret now ≡ some p
    → is_str p.token_type "access" ≡ true
    → handle_auth j g id token secret now ≡ accept g id p
unfolding handle_auth
handle_auth-eq-accept j g id token secret now p e a = rw (e, handle_auth) (rw a refl)

-- where a socket that is kept for a user has its identity, if not from `p`
abbrev Kept : Dict TokenPayload → String → String → Type 0
Kept identities u c = (p : TokenPayload) × (lookup c identities ≡ some p) × (p.sub ≡ u)

accept-IsExact :
    (g : Gateway) (id : String) (p : TokenPayload)
    → ((q : TokenPayload) → lookup id g.socket_identities ≡ some q → q.sub ≡ p.sub)
    → IsExact g
    → IsExact (accept g id p).0
unfolding accept
accept-IsExact g id p same x = record { kept = keeps }
  where
    keeps :
        (u c : String)
        → has c (set_of (accept g id p).0.user_sockets u) ≡ true
        → Kept (insert id p g.socket_identities) u c
    keeps u c h = elim (Bool-cases (id == c)) [
      | inl i ↦ elim (Bool-cases (p.sub == u)) [
        | inl s ↦ (
          p,
          ground (arith, i, lookup-insert id c p g.socket_identities),
          ground (arith, s, eq_iff p.sub u),
        )
        | inr s ↦
            let k = x.kept u c (ground (arith, h, i, s, has-add_to g.user_sockets p.sub id u c)) in
            absurd (ground (arith, i, s, eq_iff id c, eq_iff p.sub u, k, same k.0))
      ]
      | inr i ↦
          let k = x.kept u c (ground (arith, h, i, has-add_to g.user_sockets p.sub id u c)) in
          (k.0, ground (arith, i, k.1, lookup-insert id c p g.socket_identities), k.2)
    ]

handle_disconnect-IsExact :
    (g : Gateway) (id : String) (rooms : StringSet)
    → IsTracked g
    → IsExact g
    → IsExact (handle_disconnect g id rooms).0
unfolding handle_disconnect
handle_disconnect-IsExact g id rooms t x = elim (Option-cases (lookup id g.socket_identities)) [
  | inl e ↦ rw (e, handle_disconnect) x
  | inr (p, e) ↦ rw (e, handle_disconnect) (record { kept = λ u c h. keeps p e u c h })
]
  where
    keeps :
        (p : TokenPayload)
        → lookup id g.socket_identities ≡ some p
        → (u c : String) → has c (set_of (remove_from g.user_sockets p.sub id) u) ≡ true
        → Kept (erase id g.socket_identities) u c
    keeps p e u c h =
        let old : has c (set_of g.user_sockets u) ≡ true =
          ground (arith, h, has-remove_from g.user_sockets p.sub id u c) in
        let k = x.kept u c old in
        (
          k.0,
          ground (
            arith,
            e,
            h,
            k,
            eq_iff id c,
            eq_iff p.sub u,
            lookup-erase id c g.socket_identities,
            has-remove_from g.user_sockets p.sub id u c,
          ),
          k.2,
        )

-- A call that is no socket's change to another user keeps every kept socket an identity of the
-- user that it is kept for.
pub step-IsExact :
    {Token : Type 0} (j : Jose Token) (secret : String) (g : Gateway) (c : Call Token)
    → KeepsUser j secret g c
    → IsTracked g
    → IsExact g
    → IsExact (step j secret g c).0
unfolding step handle_auth
step-IsExact j secret g (disconnects id rooms) k t x = handle_disconnect-IsExact g id rooms t x
step-IsExact j secret g (auths id token now) k t x =
    elim (Option-cases (verify_token j token secret now)) [
      | inl e ↦ rw (e, handle_auth) x
      | inr (p, e) ↦ elim (Bool-cases (is_str p.token_type "access")) [
        | inl a ↦
            rw (handle_auth-eq-accept j g id token secret now p e a)
              (accept-IsExact g id p (λ q l. k p q e l) x)
        | inr a ↦ rw (e, handle_auth) (rw a x)
      ]
    ]
step-IsExact j secret g (subscribes id c) k t x = x
step-IsExact j secret g (unsubscribes id c) k t x = x
step-IsExact j secret g (types id c) k t x = x
step-IsExact j secret g (types_no_more id c) k t x = x
step-IsExact j secret g (sets_presence id status rooms) k t x = x

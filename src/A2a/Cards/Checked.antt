-- ===== src/A2a/Cards/Checked.antt =====
-- The checks of packages/a2a-router/src/agent-card/agent-card-service.ts on the stored cards.
use kalen.Prelude.{
  ℕ, ◌+◌, ◌*◌, String, ◌≡◌, refl, sym, ap, ◌∙◌, true, Option, none, some, List, [], ◌∷◌, arith,
  ◌==◌, is_some, ends_with, Option-cases, Bool-cases, inl, inr, subst, ltb,
}
use kalen.Prelude.Dict.{lookup, insert, lookup-insert, lookup-erase}
use kalen.Prelude.StringSet.{has}
use kalen.Shared.Card.{A2aAuthentication, AgentCard}
use kalen.A2a.Cards.{
  Platform, Response, unreachable, not_ok, body, CardEntry, CardService, no_cards, CardUpdates,
  merge, validate_agent_card, validate_rest, store_card, register_card, commit_update,
  sign_and_commit, get_card_by_url, update_card, unregister_card, fetch_card, fetch_and_cache_card,
  valid_schemes, agent_suffix, build_well_known_url,
}

-- all checks of `validateAgentCard` but that of the signature
pub record IsWellFormed (p : Platform) (card : AgentCard) : Type 0 where
  pub named : ends_with card.name agent_suffix ≡ true
  pub located : is_some (p.url_origin card.url) ≡ true
  pub capable : is_some card.capabilities ≡ true
  pub listed : is_some card.endpoints ≡ true
  pub authenticated :
      (a : A2aAuthentication) × (card.authentication ≡ some a) × (has a.scheme valid_schemes ≡ true)

valid-IsWellFormed :
    (p : Platform) (card : AgentCard) → validate_agent_card p card ≡ none → IsWellFormed p card
unfolding validate_agent_card validate_rest
valid-IsWellFormed p card v = record {
  named = ground arith;
  located = ground arith;
  capable = ground arith;
  listed = ground arith;
  authenticated = elim (Option-cases card.authentication) [
    | inl e ↦ absurd ground arith
    | inr (a, e) ↦ (a, e, ground arith)
  ];
}

-- a new signature and key change none of these
resigned :
    (p : Platform) (card : AgentCard) (sig key : Option String)
    → IsWellFormed p card
    → IsWellFormed p (record card { signature = sig; public_key = key })
resigned p card sig key h = record {
  named = h.named;
  located = h.located;
  capable = h.capable;
  listed = h.listed;
  authenticated = h.authenticated;
}

pub record AreWellFormed (p : Platform) (s : CardService) : Type 0 where
  pub at : (url : String) (e : CardEntry) → lookup url s.cards ≡ some e → IsWellFormed p e.card

-- where the entry that is written is well-formed, so is the table
insert-AreWellFormed :
    (p : Platform) (s s' : CardService) (url : String) (e : CardEntry)
    → s'.cards ≡ insert url e s.cards
    → IsWellFormed p e.card
    → AreWellFormed p s
    → AreWellFormed p s'
insert-AreWellFormed p s s' url e written new old = record {
  at = λ j f h. elim (Bool-cases (url == j)) [
    | inl here ↦
        let same : e ≡ f = ground (arith, written, lookup-insert url j e s.cards) in
        subst (λ (x : CardEntry). IsWellFormed p x.card) same new
    | inr other ↦
        old.at j f
          (sym (rw other at (lookup-insert url j e s.cards)) ∙ sym (ap (lookup j) written) ∙ h)
  ];
}

-- the calls that change the service; `answer` is what the network gives to any request
pub data CardCall : Type 0 where
  register : AgentCard → ℕ → CardCall
  update : (url : String) → CardUpdates → (key : Option String) → ℕ → CardCall
  fetch : (url : String) → (cache_ttl now : ℕ) → Response → CardCall
  unregister : (url : String) → CardCall

unfoldable pub after_call : Platform → CardService → CardCall → CardService
after_call p s (register card now) = (register_card p s card now).1
after_call p s (update url u key now) = (update_card p s url u key now).1
after_call p s (fetch url ttl now answer) = (fetch_and_cache_card p (λ _. answer) s url ttl now).1
after_call p s (unregister url) = (unregister_card s url).1

unfoldable pub after_calls : Platform → CardService → List CardCall → CardService
after_calls p s [] = s
after_calls p s (c ∷ cs) = after_calls p (after_call p s c) cs

store_card-AreWellFormed :
    (p : Platform) (s : CardService) (url : String) (card : AgentCard) (now : ℕ)
    → validate_agent_card p card ≡ none
    → AreWellFormed p s
    → AreWellFormed p (store_card p s url card now)
unfolding store_card
store_card-AreWellFormed p s url card now v h =
    insert-AreWellFormed p s (store_card p s url card now) url _ refl (valid-IsWellFormed p card v)
      h

register_card-AreWellFormed :
    (p : Platform) (s : CardService) (card : AgentCard) (now : ℕ)
    → AreWellFormed p s
    → AreWellFormed p (register_card p s card now).1
unfolding register_card
register_card-AreWellFormed p s card now h = elim (Option-cases (validate_agent_card p card)) [
  | inr (e, v) ↦ rw (v, register_card) h
  | inl v ↦
      rw (v, register_card)
        (elim (Bool-cases (is_some (lookup card.url s.cards))) [
          | inl taken ↦ rw taken h
          | inr free ↦ rw free (elim (Bool-cases (is_some (lookup card.name s.name_index))) [
            | inl taken ↦ rw taken h
            | inr free' ↦ rw free' (store_card-AreWellFormed p s card.url card now v h)
          ])
        ])
]

commit_update-AreWellFormed :
    (p : Platform) (s : CardService) (url : String) (entry : CardEntry) (card : AgentCard) (now : ℕ)
    → IsWellFormed p card
    → AreWellFormed p s
    → AreWellFormed p (commit_update p s url entry card now).1
unfolding commit_update
commit_update-AreWellFormed p s url entry card now new h =
    insert-AreWellFormed p s _ url (record entry { card = card; updated_at = now }) refl new h

update_card-AreWellFormed :
    (p : Platform) (s : CardService) (url : String) (u : CardUpdates) (key : Option String)
    (now : ℕ)
    → AreWellFormed p s
    → AreWellFormed p (update_card p s url u key now).1
unfolding update_card sign_and_commit
update_card-AreWellFormed p s url u key now h = elim (Option-cases (lookup url s.cards)) [
  | inl gone ↦ rw (gone, update_card) h
  | inr (entry, found) ↦
      let card = merge entry.card u url in
      rw (found, update_card)
        (elim (Option-cases (validate_agent_card p card)) [
          | inr (e, v) ↦ rw v h
          | inl v ↦ rw v (signed entry card (valid-IsWellFormed p card v) key)
        ])
]
  where
    signed :
        (entry : CardEntry) (card : AgentCard)
        → IsWellFormed p card
        → (key : Option String) → AreWellFormed p (sign_and_commit p s url entry card key now).1
    signed entry card w none = commit_update-AreWellFormed p s url entry card now w h
    signed entry card w (some k) = elim (Bool-cases (k == "")) [
      | inl e ↦ rw e (commit_update-AreWellFormed p s url entry card now w h)
      | inr n ↦ rw n (elim (Option-cases (p.sign_agent_card card k)) [
        | inl e ↦ rw e h
        | inr (sig, e) ↦ rw e (
            commit_update-AreWellFormed p s url entry _ now
              (resigned p card (some sig) entry.card.public_key w) h)
      ])
    ]

fetch_card-AreWellFormed :
    (p : Platform) (answer : String → Response) (s : CardService) (url : String) (now : ℕ)
    → AreWellFormed p s
    → AreWellFormed p (fetch_card p answer s url now).1
unfolding fetch_card
fetch_card-AreWellFormed p answer s url now h = go (answer (build_well_known_url p url)) refl
  where
    go :
        (r : Response)
        → answer (build_well_known_url p url) ≡ r
        → AreWellFormed p (fetch_card p answer s url now).1
    go unreachable e = rw (e, fetch_card) h
    go (not_ok status) e = rw (e, fetch_card) h
    go (body card) e =
        rw (e, fetch_card)
          (elim (Option-cases (validate_agent_card p card)) [
            | inr (x, v) ↦ rw v h
            | inl v ↦ rw v (store_card-AreWellFormed p s url card now v h)
          ])

fetch_and_cache_card-AreWellFormed :
    (p : Platform) (answer : String → Response) (s : CardService) (url : String) (ttl now : ℕ)
    → AreWellFormed p s
    → AreWellFormed p (fetch_and_cache_card p answer s url ttl now).1
unfolding fetch_and_cache_card
fetch_and_cache_card-AreWellFormed p answer s url ttl now h =
    elim (Option-cases (lookup url s.cards)) [
      | inl gone ↦ rw (gone, fetch_and_cache_card) (fetch_card-AreWellFormed p answer s url now h)
      | inr (e, found) ↦
          rw (found, fetch_and_cache_card)
            (elim (Bool-cases (ltb now (e.updated_at + ttl * 1000))) [
              | inl fresh ↦ rw fresh h
              | inr stale ↦ rw stale (fetch_card-AreWellFormed p answer s url now h)
            ])
    ]

unregister_card-AreWellFormed :
    (p : Platform) (s : CardService) (url : String)
    → AreWellFormed p s
    → AreWellFormed p (unregister_card s url).1
unfolding unregister_card
unregister_card-AreWellFormed p s url h = elim (Option-cases (lookup url s.cards)) [
  | inl gone ↦ rw (gone, unregister_card) h
  | inr (e, found) ↦
      rw (found, unregister_card)
        (record { at = λ j f at. h.at j f (ground (arith, lookup-erase url j s.cards)) })
]

after_call-AreWellFormed :
    (p : Platform) (s : CardService) (c : CardCall)
    → AreWellFormed p s
    → AreWellFormed p (after_call p s c)
unfolding after_call
after_call-AreWellFormed p s (register card now) h = register_card-AreWellFormed p s card now h
after_call-AreWellFormed p s (update url u key now) h =
    update_card-AreWellFormed p s url u key now h
after_call-AreWellFormed p s (fetch url ttl now answer) h =
    fetch_and_cache_card-AreWellFormed p (λ _. answer) s url ttl now h
after_call-AreWellFormed p s (unregister url) h = unregister_card-AreWellFormed p s url h

after_calls-AreWellFormed :
    (p : Platform) (s : CardService) (cs : List CardCall)
    → AreWellFormed p s
    → AreWellFormed p (after_calls p s cs)
unfolding after_calls
after_calls-AreWellFormed p s [] h = h
after_calls-AreWellFormed p s (c ∷ cs) h =
    after_calls-AreWellFormed p (after_call p s c) cs (after_call-AreWellFormed p s c h)

no_cards-AreWellFormed : (p : Platform) → AreWellFormed p no_cards
unfolding lookup
no_cards-AreWellFormed p = record { at = λ u e f. cc }

-- Whatever registrations, updates, fetches and removals an empty service has had, every card that
-- it gives has passed all the checks but that of its signature, which an update may have replaced
-- since.
pub get_card_by_url-IsWellFormed :
    (p : Platform) (cs : List CardCall) (url : String) (card : AgentCard)
    → get_card_by_url (after_calls p no_cards cs) url ≡ some card
    → IsWellFormed p card
unfolding get_card_by_url
get_card_by_url-IsWellFormed p cs url card h =
    elim (Option-cases (lookup url (after_calls p no_cards cs).cards)) [
      | inl gone ↦ absurd ground arith
      | inr (e, found) ↦
          let same : e.card ≡ card = ground arith in
          subst (IsWellFormed p) same
            ((after_calls-AreWellFormed p no_cards cs (no_cards-AreWellFormed p)).at url e found)
    ]

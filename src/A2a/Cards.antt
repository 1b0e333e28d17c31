-- ===== src/A2a/Cards.antt =====
-- packages/a2a-router/src/agent-card/agent-card-service.ts. What a method throws is a value of
-- `CardError`, and the service comes back beside it. `now` is the time in milliseconds.
pub mod Lookups
pub mod Checked
mod Tests
use Prim.Native.String
use Prim.Native.String.{String}
use kalen.Prelude.{
  ℕ, ◌+◌, ◌*◌, Bool, true, false, not, ◌&&◌, Option, none, some, List, [], ◌∷◌, ◌==◌, ends_with,
  is_some, ltb, if◌then◌else◌, Result, ok, err, map,
}
use kalen.Prelude.Dict.{Dict, lookup, insert, erase, values}
use kalen.Prelude.StringSet.{has}
use kalen.Shared.Card.{AgentCapabilities, A2aEndpoint, A2aAuthentication, AgentCard}

-- What the service uses and the file does not define: the signer of cards, and `new URL(u).origin`
-- of the platform, which is `none` where the constructor throws.
pub record Platform : Type 0 where
  pub sign_agent_card : AgentCard → String → Option String
  pub verify_agent_card_signature : AgentCard → Bool
  pub url_origin : String → Option String

-- the answer of the network to one request: none, a status that is not ok, or a card
pub data Response : Type 0 where
  unreachable : Response
  not_ok : ℕ → Response
  body : AgentCard → Response

pub data InvalidCard : Type 0 where
  no_name bad_suffix no_url bad_url no_capabilities no_endpoints no_authentication : InvalidCard
  bad_scheme : String → InvalidCard
  bad_signature : InvalidCard

pub data CardError : Type 0 where
  invalid updated_invalid fetched_invalid : InvalidCard → CardError
  url_taken name_taken not_found : String → CardError
  signing_failed no_answer : CardError
  http_error : ℕ → CardError

-- `CardEntry`
pub record CardEntry : Type 0 where
  pub card : AgentCard
  pub registered_at : ℕ
  pub updated_at : ℕ
  pub verified : Bool

-- `cards` is keyed by url, `name_index` takes a name to a url
pub record CardService : Type 0 where
  pub cards : Dict CardEntry
  pub name_index : Dict String

abbrev pub no_cards : CardService
no_cards = record { cards = []; name_index = [] }

-- `!!s` of an optional string
abbrev pub truthy : Option String → Bool
truthy none = false
truthy (some s) = not (s == "")

abbrev pub agent_suffix : String
agent_suffix = "(ai)"

abbrev pub valid_schemes : List String
valid_schemes = "none" ∷ "bearer" ∷ "oauth2" ∷ "mtls" ∷ []

-- `Partial<AgentCard>`; the url of an update is not read
pub record CardUpdates : Type 0 where
  pub name : Option String
  pub description : Option String
  pub capabilities : Option AgentCapabilities
  pub endpoints : Option (List A2aEndpoint)
  pub authentication : Option A2aAuthentication
  pub version : Option String
  pub public_key : Option String
  pub signature : Option String

abbrev override {ℓ} : {A : Type ℓ} → Option A → Option A → Option A
override (some new) old = some new
override none old = old

abbrev override_name : Option String → String → String
override_name (some new) old = new
override_name none old = old

-- `{ ...entry.card, ...updates, url }`
unfoldable pub merge : AgentCard → CardUpdates → String → AgentCard
merge card u url = record {
  name = override_name u.name card.name;
  url = url;
  description = override u.description card.description;
  capabilities = override u.capabilities card.capabilities;
  endpoints = override u.endpoints card.endpoints;
  authentication = override u.authentication card.authentication;
  version = override u.version card.version;
  public_key = override u.public_key card.public_key;
  signature = override u.signature card.signature;
}

-- `getCardByUrl`
unfoldable pub get_card_by_url : CardService → String → Option AgentCard
unfolding lookup
get_card_by_url s url = elim (lookup url s.cards) [ none ↦ none | some entry ↦ some entry.card ]

-- `getCardByName`
unfoldable pub get_card_by_name : CardService → String → Option AgentCard
unfolding get_card_by_url
get_card_by_name s name = elim (lookup name s.name_index) [
  | none ↦ none
  | some url ↦ if url == "" then none else get_card_by_url s url
]

-- `listCards`
pub list_cards : CardService → List AgentCard
list_cards s = map (λ (e : CardEntry). e.card) (values s.cards)

-- `serveWellKnown`
unfoldable pub serve_well_known : CardService → String → Option AgentCard
unfolding get_card_by_url
serve_well_known s base_url = get_card_by_url s base_url

-- `unregisterCard`
unfoldable pub unregister_card : CardService → String → Bool × CardService
unfolding erase
unregister_card s url = elim (lookup url s.cards) [
  | none ↦ (false, s)
  | some entry ↦
      (true, record { cards = erase url s.cards; name_index = erase entry.card.name s.name_index })
]

module _ (p : Platform) where
  -- the checks of `validateAgentCard` from the url on
  validate_rest : AgentCard → A2aAuthentication → Option InvalidCard
  validate_rest card auth =
      if not (has auth.scheme valid_schemes)
      then some (bad_scheme auth.scheme)
      else if truthy card.signature && truthy card.public_key
      then (if p.verify_agent_card_signature card then none else some bad_signature)
      else none

  -- `validateAgentCard`: `none` is valid
  unfoldable pub validate_agent_card : AgentCard → Option InvalidCard
  unfolding has ends_with validate_rest
  validate_agent_card card =
      if card.name == ""
      then some no_name
      else if not (ends_with card.name agent_suffix)
      then some bad_suffix
      else if card.url == ""
      then some no_url
      else if not (is_some (p.url_origin card.url))
      then some bad_url
      else if not (is_some card.capabilities)
      then some no_capabilities
      else if not (is_some card.endpoints)
      then some no_endpoints
      else elim card.authentication [
        | none ↦ some no_authentication
        | some auth ↦ validate_rest card auth
      ]

  -- `this.cards.set(url, …)` and `this.nameIndex.set(card.name, card.url)`
  store_card : CardService → String → AgentCard → ℕ → CardService
  unfolding insert
  store_card s url card now = record {
    cards =
        insert url
          (record {
            card = card;
            registered_at = now;
            updated_at = now;
            verified = truthy card.signature;
          })
          s.cards;
    name_index = insert card.name card.url s.name_index;
  }

  -- `registerCard`
  unfoldable pub register_card :
      CardService → AgentCard → ℕ → Result CardError AgentCard × CardService
  unfolding lookup store_card
  register_card s card now = elim (validate_agent_card card) [
    | some e ↦ (err (invalid e), s)
    | none ↦
        if is_some (lookup card.url s.cards)
        then (err (url_taken card.url), s)
        else if is_some (lookup card.name s.name_index)
        then (err (name_taken card.name), s)
        else (ok card, store_card s card.url card now)
  ]

  -- the end of `updateCard`: only the entry is written
  commit_update :
      CardService → String → CardEntry → AgentCard → ℕ → Result CardError AgentCard × CardService
  commit_update s url entry card now = (
    ok card,
    record s { cards = insert url (record entry { card = card; updated_at = now }) s.cards },
  )

  -- `updateCard` past its checks: the card is signed where there is a key, and written
  sign_and_commit :
      CardService
      → String
      → CardEntry
      → AgentCard
      → Option String
      → ℕ
      → Result CardError AgentCard × CardService
  unfolding commit_update
  sign_and_commit s url entry updated none now = commit_update s url entry updated now
  sign_and_commit s url entry updated (some k) now =
      if k == ""
      then commit_update s url entry updated now
      else elim (p.sign_agent_card updated k) [
        | none ↦ (err signing_failed, s)
        | some sig ↦
            commit_update s url entry
              (record updated { signature = some sig; public_key = entry.card.public_key }) now
      ]

  -- `updateCard`
  unfoldable pub update_card :
      CardService
      → String
      → CardUpdates
      → Option String
      → ℕ
      → Result CardError AgentCard × CardService
  unfolding merge commit_update sign_and_commit
  update_card s url updates key now = elim (lookup url s.cards) [
    | none ↦ (err (not_found url), s)
    | some entry ↦
        let updated = merge entry.card updates url in
        elim (validate_agent_card updated) [
          | some e ↦ (err (updated_invalid e), s)
          | none ↦ sign_and_commit s url entry updated key now
        ]
  ]

  -- `buildWellKnownUrl`
  unfoldable pub build_well_known_url : String → String
  build_well_known_url agent_url = elim (p.url_origin agent_url) [
    | none ↦ String.◌++◌ agent_url "/.well-known/agent.json"
    | some origin ↦ String.◌++◌ origin "/.well-known/agent.json"
  ]

  -- `fetchAndCacheCard` past its cache; `answer` is what the network answers to each url
  fetch_card :
      (String → Response) → CardService → String → ℕ → Result CardError AgentCard × CardService
  fetch_card answer s agent_url now = elim (answer (build_well_known_url agent_url)) [
    | unreachable ↦ (err no_answer, s)
    | not_ok status ↦ (err (http_error status), s)
    | body card ↦ elim (validate_agent_card card) [
      | some e ↦ (err (fetched_invalid e), s)
      | none ↦ (ok card, store_card s agent_url card now)
    ]
  ]

  -- `fetchAndCacheCard`: an entry is fresh while its age, `(now - updated) / 1000`, is below the limit
  unfoldable pub fetch_and_cache_card :
      (String → Response) → CardService → String → ℕ → ℕ → Result CardError AgentCard × CardService
  unfolding fetch_card store_card
  fetch_and_cache_card answer s agent_url cache_ttl now = elim (lookup agent_url s.cards) [
    | none ↦ fetch_card answer s agent_url now
    | some entry ↦
        if ltb now (entry.updated_at + cache_ttl * 1000)
        then (ok entry.card, s)
        else fetch_card answer s agent_url now
  ]

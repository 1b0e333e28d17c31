-- ===== src/Server/Accounts.antt =====
-- The tables of users and agents below apps/server/src/database: user.repository.ts and
-- agent.repository.ts with the unique columns of their tables. Columns that no service of the model
-- reads are left out.
use kalen.Prelude.{
  map, filter, take, eqb, leb, ◌&&◌, ℕ, String, Bool, ◌||◌, Option, none, some, List, [], ◌∷◌, ◌==◌,
  any, get_or, if◌then◌else◌,
}
use kalen.Prelude.Dict.{Dict, lookup, insert, values}
use kalen.Shared.Json.{Json}
use kalen.Shared.Text.{Units, same, lower}
use kalen.Identity.WebAuthn.{StoredCredential}
use kalen.Identity.Manifest.{Manifest}

-- `UserEntity`
pub record User : Type 0 where
  pub id : String
  pub username : Units
  pub display_name : Units
  pub email : String
  pub suffix : Units
  pub kind : String
  pub credentials : List (StoredCredential Json)
  pub role : String
  pub status : String
  pub last_auth_at : Option ℕ

pub data AgentRole : Type 0 where
  agent_basic agent_privileged : AgentRole

pub data AgentStatus : Type 0 where
  active suspended deactivated : AgentStatus

-- `AgentEntity`
pub record Agent : Type 0 where
  pub id : String
  pub name : Units
  pub display_name : Units
  pub suffix : Units
  pub public_key : Units
  pub capabilities : Json
  pub manifest : Option Manifest
  pub scopes : List String
  pub role : AgentRole
  pub status : AgentStatus
  pub owner_id : String
  pub created_at : ℕ
  pub last_active_at : Option ℕ
  pub last_seen_at : Option ℕ

-- the first row that passes a test
abbrev pub first_of {ℓ} : {A : Type ℓ} → (A → Bool) → List A → Option A
first_of p [] = none
first_of p (a ∷ as') = let rest = first_of p as' in if p a then some a else rest

-- `UserRepository.findByEmail`
unfoldable pub find_by_email : Dict User → String → Option User
find_by_email users email = first_of (λ u. u.email == email) (values users)

-- `UserRepository.create`: `none` where a unique column has the value already
unfoldable pub create_user : Dict User → User → Option (Dict User)
create_user users u =
    if any (λ v. same v.username u.username || (v.email == u.email || same v.suffix u.suffix))
      (values users)
    then none
    else some (insert u.id u users)

-- `UserRepository.update`, of the credentials and the time of authentication; it finds the user
unfoldable pub update_credentials :
    Dict User → String → List (StoredCredential Json) → ℕ → Dict User
update_credentials users id credentials now = elim (lookup id users) [
  | none ↦ users
  | some u ↦ insert id (record u { credentials = credentials; last_auth_at = some now }) users
]

-- `UpdateAgentParams`, as far as a service gives them
pub record AgentUpdate : Type 0 where
  pub display_name : Option Units
  pub capabilities : Option Json
  pub status : Option AgentStatus
  pub last_active_at : Option ℕ
  pub last_seen_at : Option ℕ

abbrev pub no_update : AgentUpdate
no_update = record {
  display_name = none;
  capabilities = none;
  status = none;
  last_active_at = none;
  last_seen_at = none;
}

abbrev or_old {ℓ} : {A : Type ℓ} → Option A → Option A → Option A
or_old none old = old
or_old (some a) old = some a

abbrev pub updated_agent : Agent → AgentUpdate → Agent
updated_agent a u = record a {
  display_name = get_or u.display_name a.display_name;
  capabilities = get_or u.capabilities a.capabilities;
  status = get_or u.status a.status;
  last_active_at = or_old u.last_active_at a.last_active_at;
  last_seen_at = or_old u.last_seen_at a.last_seen_at;
}

-- `AgentRepository.update`
unfoldable pub update_agent : Dict Agent → String → AgentUpdate → Dict Agent × Option Agent
update_agent agents id u = elim (lookup id agents) [
  | none ↦ (agents, none)
  | some a ↦ (insert id (updated_agent a u) agents, some (updated_agent a u))
]

-- `AgentRepository.create`: `none` where a unique column has the value already
unfoldable pub create_agent : Dict Agent → Agent → Option (Dict Agent)
create_agent agents a =
    if any (λ b. same b.name a.name || same b.suffix a.suffix) (values agents)
    then none
    else some (insert a.id a agents)

-- a unit that `/[^a-z0-9]/g` leaves
abbrev is_base : ℕ → Bool
is_base c = (leb 97 c && leb c 122) || (leb 48 c && leb c 57)

-- what a unit becomes in lower case, less what `/[^a-z0-9]/g` takes out: U+0130 becomes two, of which
-- an `i` is left
abbrev base_unit : ℕ → ℕ
base_unit c = if eqb c 304 then 105 else lower c

-- the name in a suffix: `toLowerCase`, `replace` and `slice`, as both services do them
unfoldable pub suffix_base : Units → Units
suffix_base name = take 20 (filter is_base (map base_unit name))

-- ===== src/Server/Agents.antt =====
-- apps/server/src/identity/agent.service.ts: the agents of the service, over the tables of users and
-- agents. The key that the identity of a new agent is made with is random, and so are its id and the
-- end of its suffix.

pub mod Scopes
pub mod Creation
mod Tests
use kalen.Prelude.{
  ℕ, String, Bool, true, false, not, ◌&&◌, ◌||◌, Option, none, some, List, [], ◌∷◌, ◌++◌, ◌==◌, eqb,
  ltb, length, take, drop, any, filter, if◌then◌else◌, Result, ok, err,
}
use kalen.Prelude.Dict.{Dict, lookup, values}
use kalen.Shared.Json.{Json, obj, end}
use kalen.Shared.Text.{Units, units, same}
use kalen.Shared.Validation.{
  Verdict, valid, invalid, NameError, KeyError, validate_agent_name, validate_public_key,
  agent_display_suffix,
}
use kalen.Identity.Roles.{
  permission_value, mcp_tool_call, mcp_tool_list, message_send, room_create, message_read,
  identity_read,
}
use kalen.Identity.Token.{Jose}
use kalen.Identity.Keys.{Noble}
use kalen.Identity.Manifest.{CreationError, Manifest}
use kalen.Identity.Agents.{Fresh, Created, AgentRequest, create_agent_identity}
use kalen.Server.Accounts.{
  User, Agent, AgentRole, agent_basic, agent_privileged, AgentStatus, active, suspended,
  deactivated, AgentUpdate, no_update, update_agent, suffix_base,
}
use kalen.Server.Accounts as Accounts
use kalen.Server.Pages.{page_number, page_limit, cut, Pagination, pagination}

-- the capabilities of a request: the two lists that the service reads, and the value as it is stored
pub record Capabilities : Type 0 where
  pub skills : List Units
  pub tools : List Units
  pub stored : Json

pub data AgentError : Type 0 where
  bad_name : NameError → AgentError
  bad_key : KeyError → AgentError
  owner_not_found owner_not_human agent_not_found : AgentError
  identity_failed : CreationError → AgentError
  -- an error of the database
  not_created : AgentError

-- `s.startsWith(prefix)`
abbrev pub starts_with : Units → Units → Bool
starts_with s prefix = same (take (length prefix) s) prefix

-- `s.replace(pattern, '')`, for a pattern that is a text: its first occurrence goes
unfoldable pub remove_first : Units → Units → Units
remove_first pattern [] = []
remove_first pattern (c ∷ cs) =
    let rest = remove_first pattern cs in
    if starts_with (c ∷ cs) pattern then drop (length pattern) (c ∷ cs) else c ∷ rest

-- `generateAgentSuffix`
unfoldable pub generate_agent_suffix : Units → (hex : Units) → Units
generate_agent_suffix name hex =
    (64 ∷ suffix_base (remove_first agent_display_suffix name)) ++ (units ".agent#" ++ hex)

abbrev pub is_some_row : List Units → Bool
is_some_row [] = false
is_some_row (s ∷ ss) = true

-- `inferScopesFromCapabilities`; no scope is pushed twice, so that the set at its end takes none out
unfoldable pub infer_scopes : (skills tools : List Units) → List String
infer_scopes skills tools =
    (if is_some_row skills || is_some_row tools
      then permission_value mcp_tool_call ∷ permission_value mcp_tool_list ∷ []
      else [])
    ++ ((if any (λ s. starts_with s (units "code.")) skills
          then permission_value message_send ∷ permission_value room_create ∷ []
          else [])
        ++ (permission_value message_read ∷ permission_value identity_read ∷ []))

abbrev pub requested_skills : Option Capabilities → List Units
requested_skills none = []
requested_skills (some c) = c.skills

abbrev pub requested_tools : Option Capabilities → List Units
requested_tools none = []
requested_tools (some c) = c.tools

-- what `createAgent` asks of `createAgentIdentity`
abbrev pub request_of : (owner_id : String) → Units → Option Capabilities → AgentRequest
request_of owner_id display_name capabilities = record {
  name = display_name;
  description = units "Agent " ++ display_name;
  owner_id = owner_id;
  tools = requested_tools capabilities;
  capabilities = requested_skills capabilities;
  scopes = infer_scopes (requested_skills capabilities) (requested_tools capabilities);
}

-- `capabilities ?? {}`
abbrev pub stored_of : Option Capabilities → Json
stored_of none = obj end
stored_of (some c) = c.stored

-- the row of a new agent, with the key that the client sent
abbrev pub row_of :
    {Token : Type 0}
    → Created Token
    → (owner_id : String) → (display_name public_key hex : Units) → Option Capabilities
    → Agent
row_of c owner_id display_name public_key hex capabilities = record {
  id = c.identity.agent_id;
  name = display_name;
  display_name = display_name;
  suffix = generate_agent_suffix display_name hex;
  public_key = public_key;
  capabilities = stored_of capabilities;
  manifest = some c.identity.manifest;
  scopes = infer_scopes (requested_skills capabilities) (requested_tools capabilities);
  role =
      if ltb 5
        (length (infer_scopes (requested_skills capabilities) (requested_tools capabilities)))
      then agent_privileged
      else agent_basic;
  status = active;
  owner_id = owner_id;
  created_at = c.identity.created_at;
  last_active_at = none;
  last_seen_at = none;
}

module _ {Token : Type 0} (ed : Noble) (j : Jose Token) where
  -- the end of `createAgent`: the identity, and the row of the agent. The answer has the row and the
  -- access token of the identity.
  abbrev pub store_agent :
      Dict Agent
      → (owner_id : String) → (display_name public_key hex : Units) → Option Capabilities
      → Result CreationError (Created Token)
      → Dict Agent × Result AgentError (Agent × Token)
  store_agent agents owner_id display_name public_key hex capabilities (err e) =
      (agents, err (identity_failed e))
  store_agent agents owner_id display_name public_key hex capabilities (ok c) =
      elim (Accounts.create_agent agents
        (row_of c owner_id display_name public_key hex capabilities)) [
          | none ↦ (agents, err not_created)
          | some agents' ↦ (
            agents',
            ok (row_of c owner_id display_name public_key hex capabilities, c.access_token),
          )
        ]

  -- `createAgent`
  unfoldable pub create_agent :
      Dict User
      → Dict Agent
      → (owner_id : String) → (display_name public_key hex : Units) → Option Capabilities
      → (secret : String) → Fresh
      → Dict Agent × Result AgentError (Agent × Token)
  create_agent users agents owner_id display_name public_key hex capabilities secret fresh =
      elim (validate_agent_name display_name) [
        | invalid e ↦ (agents, err (bad_name e))
        | valid ↦ elim (validate_public_key public_key) [
          | invalid e ↦ (agents, err (bad_key e))
          | valid ↦ elim (lookup owner_id users) [
            | none ↦ (agents, err owner_not_found)
            | some owner ↦
                if not (owner.kind == "human")
                then (agents, err owner_not_human)
                else store_agent agents owner_id display_name public_key hex capabilities (
                    create_agent_identity ed j (request_of owner_id display_name capabilities)
                      secret fresh)
          ]
        ]
      ]

-- `getAgent`
unfoldable pub get_agent : Dict Agent → String → Result AgentError Agent
get_agent agents id = elim (lookup id agents) [ none ↦ err agent_not_found | some a ↦ ok a ]

-- `getAgentManifest`
unfoldable pub get_agent_manifest : Dict Agent → String → Result AgentError (Option Manifest)
get_agent_manifest agents id = elim (lookup id agents) [
  | none ↦ err agent_not_found
  | some a ↦ ok a.manifest
]

-- whether a new name of an update is refused, and why
abbrev pub check_update : Option Units → Verdict NameError
check_update none = valid
check_update (some name) = validate_agent_name name

abbrev pub update_of : Option Units → Option Json → Option AgentStatus → AgentUpdate
update_of display_name capabilities status = record no_update {
  display_name = display_name;
  capabilities = capabilities;
  status = status;
}

-- `updateAgent`
unfoldable pub change_agent :
    Dict Agent
    → String
    → Option Units
    → Option Json
    → Option AgentStatus
    → Dict Agent × Result AgentError Agent
change_agent agents id display_name capabilities status = elim (lookup id agents) [
  | none ↦ (agents, err agent_not_found)
  | some a ↦ elim (check_update display_name) [
    | invalid e ↦ (agents, err (bad_name e))
    | valid ↦
        let (agents', row) = update_agent agents id (update_of display_name capabilities status) in
        elim row [ none ↦ (agents', err agent_not_found) | some b ↦ (agents', ok b) ]
  ]
]

abbrev pub same_status : AgentStatus → AgentStatus → Bool
same_status active active = true
same_status suspended suspended = true
same_status deactivated deactivated = true
same_status _ _ = false

-- the filters of `list` in the repository, where they are set
abbrev pub passes_filters : Option String → Option AgentStatus → Agent → Bool
passes_filters owner_id status a =
    (elim owner_id [ none ↦ true | some o ↦ (o == "") || (a.owner_id == o) ])
    && (elim status [ none ↦ true | some s ↦ same_status a.status s ])

-- `listAgents`, where the database has put what it found in an order; `none`: a negative offset
unfoldable pub list_agents :
    (List Agent → List Agent)
    → Dict Agent
    → Option String
    → Option AgentStatus
    → (page limit : Option ℕ) → Option (List Agent × Pagination)
list_agents order agents owner_id status page limit =
    let found = order (filter (passes_filters owner_id status) (values agents)) in
    elim (cut (page_number page) (page_limit limit) found) [
      | none ↦ none
      | some rows ↦ some (rows, pagination (page_number page) (page_limit limit) (length found))
    ]

-- ===== src/Mcp/Gateway.antt =====
-- packages/mcp-gateway/src/gateway/gateway-service.ts. Times are in milliseconds. `routeToolCall`
-- waits once, for the tool: `begin` is the code before that and `finish` the code after, and other
-- calls may run between them.
pub mod Servers
pub mod Guards
pub mod Listings
pub mod Calls
pub mod Audit
pub mod Registry
pub mod Courses
pub mod Names
mod Tests
use Prim.Native.String
use kalen.Prelude.{
  ℕ, ◌+◌, ◌-◌, String, Bool, true, false, not, ◌&&◌, Option, none, some, List, [], ◌∷◌, ◌++◌, map,
  any, filter, get_or, is_some, leb, ◌==◌, if◌then◌else◌, Result, ok, err,
}
use kalen.Prelude.Numbers.{ℤ, pos, difference}
use kalen.Prelude.Dict.{Dict, lookup, insert, erase, values}
use kalen.Prelude.StringSet.{has, add}
use kalen.Shared.Json.{Fields}
use kalen.Shared.Tool.{McpTool, McpResource, ContentBlock, CallResult, CallerKind}
use kalen.Identity.Roles.{Role, Permission}
use kalen.Identity.Access.{check_permission}
use kalen.Mcp.AllowList.{AllowList, is_allowed}
use kalen.Mcp.AllowList
use kalen.Mcp.Server.{
  Thrown, message_of, McpServer, text_block, failed, list_tools, list_resources, call_tool,
}
use kalen.Mcp.Server.Builtins.{new_server}
use kalen.Mcp.Client.{
  ClientState, connected, Transport, sse, ClientConfig, ServerInfo, Client, disconnect,
}
use kalen.Mcp.Invocation.{
  Denial, too_many_calls, lacks_permission, not_in_allowlist, no_server_for, not_connected,
  AccessDecision, allowed, denied, Invocation, AuditLogEntry, joined, error_of, entry_of,
}

-- `GatewayConfig`
pub record Config : Type 0 where
  pub max_concurrent_calls : ℕ
  pub default_timeout : ℕ
  pub rbac_enabled : Bool

-- `DEFAULT_GATEWAY_CONFIG`
abbrev pub default_config : Config
default_config = record { max_concurrent_calls = 10; default_timeout = 30000; rbac_enabled = true }

-- `RegisteredServer`
pub record RegisteredServer : Type 0 where
  pub server_id : String
  pub client : Client
  pub config : ClientConfig
  pub tools : List McpTool

-- an entry of `toolRegistry`
pub record Route : Type 0 where
  pub server_id : String
  pub tool : McpTool

-- `GatewayService`
pub record Gateway : Type 0 where
  pub config : Config
  pub servers : Dict RegisteredServer
  pub tool_registry : Dict Route
  pub local_server : McpServer
  pub allow_list : AllowList
  pub audit_log : List AuditLogEntry
  pub active_calls : Dict ℕ

-- the constructor
unfoldable pub new_gateway : Config → Result Thrown Gateway
unfolding new_server
new_gateway config = elim new_server [
  | err e ↦ err e
  | ok server ↦ ok (record {
    config = config;
    servers = [];
    tool_registry = [];
    local_server = server;
    allow_list = AllowList.empty;
    audit_log = [];
    active_calls = [];
  })
]

-- `recordAudit`
unfoldable pub record_audit : Gateway → Invocation → ℤ → Gateway
record_audit g i duration_ms = record g { audit_log = g.audit_log ++ entry_of i duration_ms ∷ [] }

-- the arguments of a call, with the random id and the time that it begins with
pub record ToolCall : Type 0 where
  pub tool_name : String
  pub arguments : Fields
  pub caller_id : String
  pub caller_kind : CallerKind
  pub role : Role
  pub required_permission : Permission
  pub invocation_id : String
  pub started_at : ℕ

abbrev pub invocation_of : ToolCall → Invocation
invocation_of c = record {
  invocation_id = c.invocation_id;
  tool_name = c.tool_name;
  arguments = c.arguments;
  caller_id = c.caller_id;
  caller_kind = c.caller_kind;
  server_id = "unknown";
  started_at = c.started_at;
  completed_at = none;
  duration_ms = none;
  result = none;
  access_decision = allowed;
}

-- `this.activeCalls.get(callerId) ?? 0`
unfoldable pub active_count : Gateway → String → ℕ
unfolding lookup
active_count g caller_id = get_or (lookup caller_id g.active_calls) 0

unfoldable pub set_active : Gateway → String → ℕ → Gateway
unfolding insert
set_active g caller_id n = record g { active_calls = insert caller_id n g.active_calls }

-- the block `finally`
unfoldable pub release : Gateway → String → Gateway
unfolding active_count set_active
release g caller_id = set_active g caller_id (active_count g caller_id - 1)

-- how far `begin` has come: the invocation is given back, or the tool runs
pub data Begun : Type 0 where
  returned : Invocation → Begun
  running : Invocation → Begun

unfoldable pub deny : Gateway → Invocation → Denial → Gateway × Begun
unfolding record_audit
deny g i d =
    let i' = record i { access_decision = denied d } in (record_audit g i' (pos 0), returned i')

-- a denial inside `try`
unfoldable pub deny_and_release : Gateway → Invocation → Denial → Gateway × Begun
unfolding deny release
deny_and_release g i d = let (g', b) = deny g i d in (release g' i.caller_id, b)

-- the choice of the server, inside `try`
unfoldable pub dispatch : Gateway → Invocation → Gateway × Begun
unfolding lookup list_tools deny_and_release
dispatch g i =
    if any (λ (t : McpTool). t.name == i.tool_name) (list_tools g.local_server)
    then (g, running (record i { server_id = "local" }))
    else elim (lookup i.tool_name g.tool_registry) [
      | none ↦ deny_and_release g i (no_server_for i.tool_name)
      | some route ↦
          let i' = record i { server_id = route.server_id } in
          elim (lookup route.server_id g.servers) [
            | none ↦ deny_and_release g i' (not_connected route.server_id)
            | some server ↦ (g, running i')
          ]
    ]

-- `routeToolCall` up to the call of the tool
unfoldable pub begin : Gateway → ToolCall → Gateway × Begun
unfolding active_count set_active is_allowed check_permission deny dispatch
begin g c =
    let i = invocation_of c in
    let count = active_count g c.caller_id in
    if leb g.config.max_concurrent_calls count
    then deny g i too_many_calls
    else if g.config.rbac_enabled && not (check_permission c.role c.required_permission)
    then deny g i (lacks_permission c.role c.required_permission)
    else if not (is_allowed g.allow_list c.caller_id c.tool_name)
    then deny g i (not_in_allowlist c.tool_name c.caller_id)
    else dispatch (set_active g c.caller_id (count + 1)) i

abbrev pub result_of : Result Thrown CallResult → CallResult
result_of (ok r) = r
result_of (err e) = failed (message_of e "Unknown error during tool call")

-- `routeToolCall` from the answer of the tool on
unfoldable pub finish : Gateway → Invocation → Result Thrown CallResult → ℕ → Gateway × Invocation
unfolding record_audit release
finish g i answer completed_at =
    let duration = difference completed_at i.started_at in
    let i' = record i {
      result = some (result_of answer);
      completed_at = some completed_at;
      duration_ms = some duration;
    } in
    (release (record_audit g i' duration) i.caller_id, i')

-- what is left of the call once it has begun
unfoldable pub complete : Result Thrown CallResult → ℕ → Gateway × Begun → Gateway × Invocation
unfolding finish
complete answer completed_at (g, returned i) = (g, i)
complete answer completed_at (g, running i) = finish g i answer completed_at

-- `routeToolCall` where nothing else runs while the tool does
unfoldable pub route_tool_call :
    Gateway → ToolCall → Result Thrown CallResult → ℕ → Gateway × Invocation
unfolding begin complete
route_tool_call g c answer completed_at = complete answer completed_at (begin g c)

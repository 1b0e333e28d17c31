-- ===== src/Mcp/Gateway/Listings.antt =====
-- The methods of packages/mcp-gateway/src/gateway/gateway-service.ts that only read.
use kalen.Prelude.{
  ℕ, zero, suc, String, Bool, true, false, none, List, [], ◌∷◌, ◌++◌, map, filter, ◌==◌,
  if◌then◌else◌,
}
use kalen.Prelude.Dict.{values}
use kalen.Prelude.StringSet.{StringSet, has, add}
use kalen.Shared.Tool.{McpTool}
use kalen.Mcp.Server.{list_tools, list_resources}
use kalen.Mcp.Client.{ClientState, connected, sse}
use kalen.Mcp.Gateway.Servers.{connected_status, error_status, McpServerInfo, name_of, version_of}
use kalen.Mcp.Gateway.{Gateway, Route, RegisteredServer}
use kalen.Mcp.Invocation.{AuditLogEntry}

-- the loop of `listAllTools` on the tools that are not seen
unfoldable pub unseen : StringSet → List McpTool → List McpTool
unfolding has add
unseen seen [] = []
unseen seen (t ∷ ts) =
    let skipped = unseen seen ts in
    let taken = unseen (add t.name seen) ts in if has t.name seen then skipped else t ∷ taken

-- `listAllTools`: the two loops go on with the same set
unfoldable pub list_all_tools : Gateway → List McpTool
unfolding unseen values list_tools
list_all_tools g =
    unseen [] (map (λ (r : Route). r.tool) (values g.tool_registry) ++ list_tools g.local_server)

abbrev pub is_connected : ClientState → Bool
is_connected connected = true
is_connected _ = false

abbrev info_of : String × RegisteredServer → McpServerInfo
info_of (server_id, server) = record {
  server_id = server_id;
  name = name_of server.client.server_info server.config.server_name;
  version = version_of server.client.server_info;
  transport = server.config.transport;
  endpoint = server.config.endpoint;
  tools = server.tools;
  resources = [];
  status = if is_connected server.client.state then connected_status else error_status;
  last_health_check = none;
}

-- `listServers`
unfoldable pub list_servers : Gateway → List McpServerInfo
unfolding list_tools list_resources
list_servers g =
    map info_of g.servers
    ++ record {
      server_id = "local";
      name = "kalen-mcp-server";
      version = "0.1.0";
      transport = sse;
      endpoint = "local";
      tools = list_tools g.local_server;
      resources = list_resources g.local_server;
      status = connected_status;
      last_health_check = none;
    }
      ∷ []

-- `healthCheck`
unfoldable pub health_check : Gateway → List (String × Bool)
health_check g =
    map (λ (x : String × RegisteredServer). (x.0, is_connected x.1.client.state)) g.servers
    ++ ("local", true) ∷ []

-- `xs.slice(0, n)` and `xs.slice(n)`
abbrev pub take {ℓ} : {A : Type ℓ} → ℕ → List A → List A
take zero xs = []
take (suc n) [] = []
take (suc n) (x ∷ xs) = x ∷ take n xs

abbrev pub drop {ℓ} : {A : Type ℓ} → ℕ → List A → List A
drop zero xs = xs
drop (suc n) [] = []
drop (suc n) (x ∷ xs) = drop n xs

-- `getAuditLog`
unfoldable pub get_audit_log : Gateway → ℕ → ℕ → List AuditLogEntry
get_audit_log g limit offset = take limit (drop offset g.audit_log)

-- `getAuditLogForCaller`
unfoldable pub get_audit_log_for_caller : Gateway → String → ℕ → List AuditLogEntry
get_audit_log_for_caller g caller_id limit =
    take limit (filter (λ (e : AuditLogEntry). e.caller_id == caller_id) g.audit_log)

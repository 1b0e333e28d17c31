-- ===== src/Mcp/Gateway/Servers.antt =====
-- The registration of servers, of packages/mcp-gateway/src/gateway/gateway-service.ts.
use Prim.Native.String
use kalen.Prelude.{
  ℕ, String, Bool, Option, none, some, List, [], ◌∷◌, is_some, ◌==◌, if◌then◌else◌, Result, ok, err,
}
use kalen.Prelude.Dict.{Dict, lookup, insert, erase}
use kalen.Shared.Tool.{McpTool, McpResource}
use kalen.Mcp.Server.{Thrown, error}
use kalen.Mcp.Client.{Transport, ClientConfig, ServerInfo, Client}
use kalen.Mcp.Gateway.{Route, Gateway}

-- `${serverId}:${tool.name}`
abbrev pub qualified : String → String → String
qualified server_id name = String.◌++◌ server_id (String.◌++◌ ":" name)

-- the two entries of a tool
unfoldable pub add_route : String → McpTool → Dict Route → Dict Route
unfolding lookup insert
add_route server_id tool routes =
    let route : Route = record { server_id = server_id; tool = tool } in
    let routes' = insert (qualified server_id tool.name) route routes in
    if is_some (lookup tool.name routes') then routes' else insert tool.name route routes'

unfoldable pub add_routes : String → List McpTool → Dict Route → Dict Route
unfolding add_route
add_routes server_id [] routes = routes
add_routes server_id (t ∷ ts) routes = add_routes server_id ts (add_route server_id t routes)

-- `registerServer` from the client's answers on: the client that has connected, and its tools
unfoldable pub store_server : Gateway → String → Client → List McpTool → Gateway
unfolding insert add_routes
store_server g server_id client tools = record g {
  tool_registry = add_routes server_id tools g.tool_registry;
  servers =
      insert server_id
        (record { server_id = server_id; client = client; config = client.config; tools = tools })
        g.servers;
}

-- the test at the start of `registerServer`; true where it throws
unfoldable pub is_registered : Gateway → String → Bool
unfolding lookup
is_registered g server_id = is_some (lookup server_id g.servers)

pub data ServerStatus : Type 0 where
  connected_status disconnected_status error_status : ServerStatus

-- `MCPServerInfo`
pub record McpServerInfo : Type 0 where
  pub server_id : String
  pub name : String
  pub version : String
  pub transport : Transport
  pub endpoint : String
  pub tools : List McpTool
  pub resources : List McpResource
  pub status : ServerStatus
  pub last_health_check : Option ℕ

abbrev pub name_of : Option ServerInfo → String → String
name_of none d = d
name_of (some i) d = i.name

abbrev pub version_of : Option ServerInfo → String
version_of none = "unknown"
version_of (some i) = i.version

-- `registerServer`. `outcome` is what the connection and the lists of the client gave, or threw; the
-- gateway is as it is when they have.
unfoldable pub register_server :
    Gateway
    → String
    → ClientConfig
    → Result Thrown (Client × List McpTool × List McpResource)
    → ℕ
    → Result Thrown McpServerInfo × Gateway
unfolding is_registered store_server
register_server g server_id config outcome now =
    if is_registered g server_id
    then (
      err (error (String.◌++◌ "Server \"" (String.◌++◌ server_id "\" is already registered"))),
      g,
    )
    else elim outcome [
      | err e ↦ (err e, g)
      | ok (client, tools, resources) ↦ (
        ok (record {
          server_id = server_id;
          name = name_of client.server_info config.server_name;
          version = version_of client.server_info;
          transport = config.transport;
          endpoint = config.endpoint;
          tools = tools;
          resources = resources;
          status = connected_status;
          last_health_check = some now;
        }),
        store_server g server_id client tools,
      )
    ]

unfoldable pub remove_routes : String → Dict Route → Dict Route
remove_routes server_id [] = []
remove_routes server_id ((k, r) ∷ d) =
    let rest = remove_routes server_id d in if r.server_id == server_id then rest else (k, r) ∷ rest

-- `unregisterServer`; the client disconnects first, and is dropped
unfoldable pub unregister_server : Gateway → String → Gateway
unfolding lookup erase remove_routes
unregister_server g server_id = elim (lookup server_id g.servers) [
  | none ↦ g
  | some server ↦ record g {
    tool_registry = remove_routes server_id g.tool_registry;
    servers = erase server_id g.servers;
  }
]

-- `shutdown`
unfoldable pub shutdown : Gateway → Gateway
shutdown g = record g { servers = []; tool_registry = []; active_calls = [] }

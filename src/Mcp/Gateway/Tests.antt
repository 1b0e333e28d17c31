-- ===== src/Mcp/Gateway/Tests.antt =====
-- The server and the gateway on small inputs, and the theorems applied to them.
use kalen.Prelude.{◌≤◌, String, ◌≡◌, ◌≢◌, ◌==◌, refl, false, length, some, none, [], ◌∷◌, ok, arith}
use kalen.Prelude.Dict.{lookup, insert, erase}
use kalen.Prelude.StringSet.{has, add, delete}
use kalen.Shared.Json.{str, Fields, end, field, get}
use kalen.Shared.Json.Print.{stringify, decimal, escape}
use kalen.Shared.Tool.{McpTool, agent}
use kalen.Identity.Roles.{agent_basic, mcp_tool_call}
use kalen.Identity.Access.{check_permission}
use kalen.Mcp.AllowList.{AllowList, is_allowed, deny_tool}
use kalen.Mcp.AllowList
use kalen.Mcp.Server.{ToolCallContext, text_block, call_tool, list_tools}
use kalen.Mcp.Server.Handlers.{handle_send_message}
use kalen.Mcp.Server.Builtins.{new_server}
use kalen.Mcp.Server.Laws.{built}
use kalen.Mcp.Client.{sse, Client, new_client}
use kalen.Mcp.Gateway.{
  default_config, RegisteredServer, Gateway, ToolCall, new_gateway, invocation_of, active_count,
  running, begin, finish, complete, route_tool_call,
}
use kalen.Mcp.Gateway.Servers.{store_server, add_routes, unregister_server, shutdown}
use kalen.Mcp.Gateway.Guards.{Begins, begin-Begins, MayRun, there}
use kalen.Mcp.Gateway.Calls.{
  World, idle, Steps, start, and_then, starts, registers, running_of, calls_begun,
  active_count_is_running,
}
use kalen.Mcp.Gateway.Courses.{
  Course, begun, moves, shuts, lost_server, routes_lead, no_call_is_lost, unregister_server_lem,
}
use kalen.Mcp.Gateway.Registry.{AllRoutes}
use kalen.Mcp.Gateway.Names.{denied_tool_runs_qualified}

abbrev context : ToolCallContext
context = record { caller_id = "bot"; caller_kind = agent; request_id = "r1" }

abbrev hello : Fields
hello = field "roomId" (str "lobby") (field "content" (str "say \"hi\"") end)

opened : Unit {0}
unfolding lookup insert erase has add delete get stringify decimal escape call_tool list_tools
    handle_send_message new_server check_permission is_allowed deny_tool new_gateway active_count
    begin finish complete route_tool_call store_server add_routes unregister_server running_of
    calls_begun shutdown
opened = tt

handle_send_message_test :
    handle_send_message hello context "now"
    ≡ ok (record {
      is_error = false;
      content =
          text_block
            "{\"action\":\"message_sent\",\"roomId\":\"lobby\",\"content\":\"say \\\"hi\\\"\",\"contentType\":\"text\",\"senderId\":\"bot\",\"senderKind\":\"agent\",\"timestamp\":\"now\"}"
          ∷ [];
    })
unfolding opened
handle_send_message_test = refl

abbrev fresh_gateway : Gateway
fresh_gateway = record {
  config = default_config;
  servers = [];
  tool_registry = [];
  local_server = built;
  allow_list = AllowList.empty;
  audit_log = [];
  active_calls = [];
}

new_gateway_test : new_gateway default_config ≡ ok fresh_gateway
unfolding opened
new_gateway_test = refl

abbrev call : ToolCall
call = record {
  tool_name = "send_message";
  arguments = hello;
  caller_id = "bot";
  caller_kind = agent;
  role = agent_basic;
  required_permission = mcp_tool_call;
  invocation_id = "i1";
  started_at = 10;
}

abbrev search : McpTool
search = record {
  name = "search";
  description = "";
  input_schema = record { properties = none; required = none };
}

abbrev client : Client
client = new_client (record {
  endpoint = "https://x";
  transport = sse;
  connection_timeout = 10000;
  tool_call_timeout = 30000;
  server_name = "x";
})

abbrev with_search : Gateway
with_search = store_server fresh_gateway "x" client (search ∷ [])

abbrev busy : World
busy = record (idle fresh_gateway) {
  gateway = (begin fresh_gateway call).0;
  in_flight = record (invocation_of call) { server_id = "local" } ∷ [];
}

to_busy : Steps (idle fresh_gateway) busy
unfolding opened
to_busy = and_then start (starts (idle fresh_gateway) call)

begin-Begins_example : Begins fresh_gateway call (begin fresh_gateway call)
begin-Begins_example = begin-Begins fresh_gateway call

active_count_is_running_example :
    (active_count busy.gateway "bot" ≡ running_of "bot" busy.in_flight)
    × (running_of "bot" busy.in_flight ≤ 10)
active_count_is_running_example =
    active_count_is_running default_config fresh_gateway busy "bot" new_gateway_test to_busy

-- the call of the busy gateway has its answer
abbrev rested : World
rested = record {
  gateway =
      (finish busy.gateway (record (invocation_of call) { server_id = "local" })
        (ok (record { is_error = false; content = [] })) 20).0;
  in_flight = [];
}

audit_log_test :
    (length busy.gateway.audit_log ≡ 0)
    × (length busy.in_flight ≡ 1)
    × (length rested.gateway.audit_log ≡ 1)
unfolding opened
audit_log_test = (refl, refl, refl)

abbrev search_call : ToolCall
search_call = record call { tool_name = "x:search" }

-- shut down, and then with a server again
abbrev reopened : Gateway
reopened = store_server (shutdown with_search) "x" client (search ∷ [])

to_reopened : Course (idle fresh_gateway) (idle reopened)
unfolding opened
to_reopened =
    moves (shuts (moves begun (registers (idle fresh_gateway) "x" client (search ∷ []))))
      (registers (idle (shutdown with_search)) "x" client (search ∷ []))

routes_lead_example : (s : RegisteredServer) × (lookup "x" reopened.servers ≡ some s)
unfolding opened
routes_lead_example =
    routes_lead default_config fresh_gateway (idle reopened) "x:search"
      (record { server_id = "x"; tool = search }) new_gateway_test to_reopened refl

no_call_is_lost_example : lost_server (begin reopened search_call).1 ≡ false
no_call_is_lost_example =
    no_call_is_lost default_config fresh_gateway (idle reopened) search_call new_gateway_test
      to_reopened

unregister_server_lem_example :
    AllRoutes (λ r. r.server_id == "x" ≡ false) (unregister_server reopened "x").tool_registry
    × (lookup "x" (unregister_server reopened "x").servers ≡ none)
    × ((j : String)
        → j ≢ "x"
        → lookup j (unregister_server reopened "x").servers ≡ lookup j reopened.servers)
unregister_server_lem_example =
    unregister_server_lem default_config fresh_gateway (idle reopened) "x" new_gateway_test
      to_reopened

search-MayRun : MayRun with_search search_call "x"
unfolding opened
search-MayRun = record {
  few = omega arith;
  permitted = refl;
  listed = refl;
  served =
      there (record { server_id = "x"; tool = search })
        (record { server_id = "x"; client = client; config = client.config; tools = search ∷ [] })
        refl refl refl;
}

denied_tool_runs_qualified_example :
    let l = deny_tool with_search.allow_list "bot" "search" in
    (is_allowed l "bot" "search" ≡ false)
    × ((s' : String) × ((begin (record with_search { allow_list = l }) search_call).1
          ≡ running (record (invocation_of search_call) { server_id = s' })))
denied_tool_runs_qualified_example =
    denied_tool_runs_qualified with_search search_call "x" "search" "x" refl search-MayRun

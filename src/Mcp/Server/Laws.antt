-- ===== src/Mcp/Server/Laws.antt =====
-- The built-in tools against their schemas.
use kalen.Prelude.{
  String, ◌≡◌, refl, Bool, false, not, [], all, get_or, All, ok, err, ◌==◌, if◌then◌else◌, arith,
}
use kalen.Prelude.Dict.{lookup}
use kalen.Shared.Json.{Fields, truthy, get}
use kalen.Shared.Tool.{McpTool}
use kalen.Mcp.Server.{ToolHandler, ToolCallContext, McpServer, call_tool}
use kalen.Mcp.Server.Handlers.{
  handle_send_message, handle_create_room, handle_list_rooms, handle_invite_user,
  handle_search_messages, handle_manage_agent,
}
use kalen.Mcp.Server.Builtins.{builtin_tools, new_server}

-- the server that the constructor makes
abbrev pub built : McpServer
unfolding new_server
built = elim new_server [ ok s ↦ s | err e ↦ record { tools = []; resources = [] } ]

-- Whether every argument that a tool's schema requires is there and counts as true.
abbrev pub has_required : McpTool → Fields → Bool
has_required t args = all (λ k. truthy (get k args)) (get_or t.input_schema.required [])

-- what the tools refuse
abbrev pub refuses : McpTool → Fields → Bool
refuses t args = if t.name == "create_room" then false else not (has_required t args)

-- The constructor of the MCP server does not throw, and each built-in tool of the server that it
-- makes, called by its name, gives an error exactly where an argument that its schema requires is
-- missing or counts as false; but for `create_room`, which never gives one.
pub call_tool-required :
    (args : Fields) (context : ToolCallContext) (now : String)
    → (new_server ≡ ok built)
      × All
          (λ (x : McpTool × ToolHandler).
            (call_tool built x.0.name args context now).is_error ≡ refuses x.0 args)
          builtin_tools
unfolding new_server call_tool lookup handle_send_message handle_create_room handle_list_rooms
    handle_invite_user handle_search_messages handle_manage_agent
call_tool-required args context now =
    (refl, (ground arith, (refl, (refl, (ground arith, (ground arith, (ground arith, tt)))))))

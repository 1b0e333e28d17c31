-- ===== src/Mcp/Server/Builtins.antt =====
-- The constructor of packages/mcp-gateway/src/server/mcp-server.ts: the built-in tools with their
-- schemas, and the built-in resources.
use kalen.Prelude.{String, Option, none, some, List, [], ◌∷◌, Result, ok, err}
use kalen.Shared.Json.{str, arr, obj, Items, nil, cons, Fields, end, field}
use kalen.Shared.Tool.{McpTool, McpResource}
use kalen.Mcp.Server.{
  Thrown, ToolHandler, ResourceHandler, McpServer, register_tool, register_resource,
}
use kalen.Mcp.Server.Handlers.{
  handle_send_message, handle_create_room, handle_list_rooms, handle_invite_user,
  handle_search_messages, handle_manage_agent, handle_read_recent_rooms, handle_read_my_identity,
}

-- `{ type, description }` of a property
abbrev described : String → String → Fields
described t d = field "type" (str t) (field "description" (str d) end)

abbrev strings : List String → Items
strings [] = nil
strings (s ∷ ss) = cons (str s) (strings ss)

-- `{ type: "string", enum, description }`
abbrev one_of : List String → String → Fields
one_of ss d =
    field "type" (str "string") (field "enum" (arr (strings ss)) (field "description" (str d) end))

-- `{ type: "array", items: { type: "string" }, description }`
abbrev list_of_strings : String → Fields
list_of_strings d =
    field "type" (str "array")
      (field "items" (obj (field "type" (str "string") end)) (field "description" (str d) end))

abbrev properties : List (String × Fields) → Fields
properties [] = end
properties ((k, f) ∷ ps) = field k (obj f) (properties ps)

abbrev tool : String → String → List (String × Fields) → Option (List String) → McpTool
tool name description ps required = record {
  name = name;
  description = description;
  input_schema = record { properties = some (properties ps); required = required };
}

-- the arguments of the calls of `registerTool` in `registerBuiltinTools`
abbrev pub builtin_tools : List (McpTool × ToolHandler)
builtin_tools =
    (
      tool "send_message" "Send a message to a room in KALEN"
          (("roomId", described "string" "Target room ID")
            ∷ ("content", described "string" "Message content")
            ∷ ("contentType", one_of ("text" ∷ "markdown" ∷ []) "Content format")
            ∷ [])
          (some ("roomId" ∷ "content" ∷ [])),
      handle_send_message,
    )
    ∷ (
      tool "create_room" "Create a new room in KALEN"
          (("type", one_of ("direct" ∷ "group" ∷ "agent-workspace" ∷ []) "Room type")
            ∷ ("name", described "string" "Room name (required for group/agent-workspace)")
            ∷ ("memberIds", list_of_strings "Initial member IDs to invite")
            ∷ [])
          (some ("type" ∷ [])),
      handle_create_room,
    )
    ∷ (
      tool "list_rooms" "List rooms accessible to the caller"
          ((
            "type",
            one_of ("direct" ∷ "group" ∷ "agent-workspace" ∷ "system" ∷ []) "Filter by room type",
          )
            ∷ ("limit", described "number" "Maximum rooms to return (default 50)")
            ∷ ("offset", described "number" "Pagination offset")
            ∷ [])
          none,
      handle_list_rooms,
    )
    ∷ (
      tool "invite_user" "Invite a user or agent to a room"
          (("roomId", described "string" "Room ID")
            ∷ ("userId", described "string" "User or agent ID to invite")
            ∷ ("userKind", one_of ("human" ∷ "agent" ∷ []) "Kind of entity being invited")
            ∷ [])
          (some ("roomId" ∷ "userId" ∷ "userKind" ∷ [])),
      handle_invite_user,
    )
    ∷ (
      tool "search_messages" "Search messages across accessible rooms"
          (("query", described "string" "Search query string")
            ∷ ("roomId", described "string" "Limit search to a specific room")
            ∷ ("limit", described "number" "Maximum results (default 20)")
            ∷ [])
          (some ("query" ∷ [])),
      handle_search_messages,
    )
    ∷ (
      tool "manage_agent" "Manage agent identity and scopes (admin only)"
          ((
            "action",
            one_of ("update_scope" ∷ "deactivate" ∷ "reactivate" ∷ []) "Management action",
          )
            ∷ ("agentId", described "string" "Target agent ID")
            ∷ ("scopes", list_of_strings "New scopes (for update_scope)")
            ∷ [])
          (some ("action" ∷ "agentId" ∷ [])),
      handle_manage_agent,
    )
    ∷ []

abbrev json_resource : String → String → String → McpResource
json_resource uri name description = record {
  uri = uri;
  name = name;
  description = some description;
  mime_type = some "application/json";
}

-- those of `registerResource` in `registerBuiltinResources`
abbrev pub builtin_resources : List (McpResource × ResourceHandler)
builtin_resources =
    (
      json_resource "kalen://rooms/recent" "Recent Rooms"
          "List of recently active rooms for the caller",
      handle_read_recent_rooms,
    )
    ∷ (
      json_resource "kalen://identity/me" "My Identity" "The caller's identity information",
      handle_read_my_identity,
    )
    ∷ []

unfoldable register_tools : McpServer → List (McpTool × ToolHandler) → Result Thrown McpServer
unfolding register_tool
register_tools s [] = ok s
register_tools s ((t, h) ∷ ts) = elim (register_tool s t h) [
  | err e ↦ err e
  | ok s' ↦ register_tools s' ts
]

unfoldable register_resources :
    McpServer → List (McpResource × ResourceHandler) → Result Thrown McpServer
unfolding register_resource
register_resources s [] = ok s
register_resources s ((r, h) ∷ rs) = elim (register_resource s r h) [
  | err e ↦ err e
  | ok s' ↦ register_resources s' rs
]

-- the constructor
unfoldable pub new_server : Result Thrown McpServer
unfolding register_tools register_resources
new_server = elim (register_tools (record { tools = []; resources = [] }) builtin_tools) [
  | err e ↦ err e
  | ok s ↦ register_resources s builtin_resources
]

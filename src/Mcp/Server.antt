-- ===== src/Mcp/Server.antt =====
-- packages/mcp-gateway/src/server/mcp-server.ts: the tables of tools and resources. A handler is a
-- function of its arguments, its context and the time `new Date().toISOString()` that it reads.
pub mod Handlers
pub mod Builtins
pub mod Laws
use Prim.Native.String
use kalen.Prelude.{
  String, true, Option, none, some, List, [], ◌∷◌, map, is_some, if◌then◌else◌, Result, ok, err,
}
use kalen.Prelude.Dict.{Dict, lookup, insert, values}
use kalen.Shared.Json.{Json, Fields}
use kalen.Shared.Tool.{McpTool, McpResource, text, ContentBlock, CallResult, CallerKind}

-- what is thrown: an `Error` with its message, or something else
pub data Thrown : Type 0 where
  error : String → Thrown
  other : Thrown

-- `ToolCallContext`
pub record ToolCallContext : Type 0 where
  pub caller_id : String
  pub caller_kind : CallerKind
  pub request_id : String

-- `ResourceReadContext`
pub record ResourceReadContext : Type 0 where
  pub caller_id : String
  pub caller_kind : CallerKind

-- `ToolHandler`
abbrev pub ToolHandler : Type 0
ToolHandler = Fields → ToolCallContext → String → Result Thrown CallResult

-- `ResourceHandler`
abbrev pub ResourceHandler : Type 0
ResourceHandler = String → ResourceReadContext → Result Thrown Json

-- `RegisteredTool`
pub record RegisteredTool : Type 0 where
  pub definition : McpTool
  pub handler : ToolHandler

-- `RegisteredResource`
pub record RegisteredResource : Type 0 where
  pub definition : McpResource
  pub handler : ResourceHandler

-- `MCPServer`
pub record McpServer : Type 0 where
  pub tools : Dict RegisteredTool
  pub resources : Dict RegisteredResource

abbrev pub text_block : String → ContentBlock
text_block s = record {
  block_type = text;
  content = some s;
  data_ = none;
  mime_type = none;
  attachment = none;
}

-- a result with one text that reports an error
abbrev pub failed : String → CallResult
failed s = record { is_error = true; content = text_block s ∷ [] }

-- `registerTool`
unfoldable pub register_tool : McpServer → McpTool → ToolHandler → Result Thrown McpServer
unfolding lookup insert
register_tool s definition handler =
    if is_some (lookup definition.name s.tools)
    then err
        (error (String.◌++◌ "Tool \"" (String.◌++◌ definition.name "\" is already registered")))
    else ok (record s {
      tools =
          insert definition.name (record { definition = definition; handler = handler }) s.tools;
    })

-- `registerResource`
unfoldable pub register_resource :
    McpServer → McpResource → ResourceHandler → Result Thrown McpServer
unfolding lookup insert
register_resource s definition handler =
    if is_some (lookup definition.uri s.resources)
    then err
        (error (String.◌++◌ "Resource \"" (String.◌++◌ definition.uri "\" is already registered")))
    else ok (record s {
      resources =
          insert definition.uri (record { definition = definition; handler = handler }) s.resources;
    })

-- `listTools`
unfoldable pub list_tools : McpServer → List McpTool
unfolding values
list_tools s = map (λ (t : RegisteredTool). t.definition) (values s.tools)

-- `listResources`
unfoldable pub list_resources : McpServer → List McpResource
unfolding values
list_resources s = map (λ (r : RegisteredResource). r.definition) (values s.resources)

-- `err instanceof Error ? err.message : …`
abbrev pub message_of : Thrown → String → String
message_of (error m) d = m
message_of other d = d

-- `callTool`
unfoldable pub call_tool : McpServer → String → Fields → ToolCallContext → String → CallResult
unfolding lookup
call_tool s tool_name args context now = elim (lookup tool_name s.tools) [
  | none ↦ failed (String.◌++◌ "Unknown tool: " tool_name)
  | some tool ↦ elim (tool.handler args context now) [
    | ok result ↦ result
    | err e ↦
        failed (String.◌++◌ "Tool execution error: " (message_of e "Unknown tool execution error"))
  ]
]

-- `readResource`
unfoldable pub read_resource : McpServer → String → ResourceReadContext → Result Thrown Json
unfolding lookup
read_resource s uri context = elim (lookup uri s.resources) [
  | none ↦ err (error (String.◌++◌ "Unknown resource: " uri))
  | some resource ↦ resource.handler uri context
]

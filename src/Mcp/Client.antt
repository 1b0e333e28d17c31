-- ===== src/Mcp/Client.antt =====
-- packages/mcp-gateway/src/client/mcp-client.ts: the JSON-RPC client, one step for each piece of
-- code that runs without waiting. A promise is known by the id of its request, and a step gives
-- the promises that it settles. The event source, `fetch` and the timers are the environment: they
-- call the steps.
pub mod Runs
pub mod Promises
mod Tests
use Prim.Native.String
use kalen.Prelude.{
  ℕ, ◌+◌, String, Bool, true, false, not, Option, none, some, List, [], ◌∷◌, ◌++◌, map, filter, any,
  eqb, ◌==◌, if◌then◌else◌, get_or, Result, ok, err,
}
use kalen.Prelude.Numbers.{ℤ}
use kalen.Shared.Json.{Json}
use kalen.Shared.Tool.{McpTool, McpResource}

-- `MCPClientState`
pub data ClientState : Type 0 where
  disconnected connecting connected error : ClientState

pub data Transport : Type 0 where
  sse stdio websocket : Transport

-- `MCPClientConfig`, with the defaults that the constructor puts in
pub record ClientConfig : Type 0 where
  pub endpoint : String
  pub transport : Transport
  pub connection_timeout : ℕ
  pub tool_call_timeout : ℕ
  pub server_name : String

pub record ServerInfo : Type 0 where
  pub name : String
  pub version : String

-- an id of a message: the client's are numbers, and a response may have any
pub data MessageId : Type 0 where
  number : ℕ → MessageId
  text : String → MessageId

-- `JSONRPCRequest`
pub record Request : Type 0 where
  pub id : ℕ
  pub method : String
  pub params : Json

-- `JSONRPCResponse`; of an error the code and the message
pub record Response : Type 0 where
  pub id : MessageId
  pub result : Option Json
  pub error : Option (ℤ × String)

-- `MCPClient`
pub record Client : Type 0 where
  pub config : ClientConfig
  pub state : ClientState
  pub next_id : ℕ
  pub pending : List ℕ
  pub server_capabilities : Option Json
  pub server_info : Option ServerInfo
  pub message_endpoint : Option String
  pub cached_tools : Option (List McpTool)
  pub cached_resources : Option (List McpResource)

-- what happens to the promise of a request
pub data Settled : Type 0 where
  resolved : ℕ → Response → Settled
  rejected : ℕ → String → Settled

-- the constructor
abbrev pub new_client : ClientConfig → Client
new_client config = record {
  config = config;
  state = disconnected;
  next_id = 1;
  pending = [];
  server_capabilities = none;
  server_info = none;
  message_endpoint = none;
  cached_tools = none;
  cached_resources = none;
}

-- `pendingRequests.delete`
abbrev pub without : ℕ → List ℕ → List ℕ
without id = filter (λ j. not (eqb j id))

-- `postMessage` up to `fetch`: whether there is an endpoint to post to; `!""` is true
abbrev pub can_post : Option String → Bool
can_post none = false
can_post (some e) = not (e == "")

-- `sendRequest`: a throw rejects the promise, and the request stays in the table
unfoldable pub send_request : Client → String → Json → Client × Option Request × List Settled
send_request c method params =
    let id = c.next_id in
    let c' = record c { next_id = id + 1; pending = c.pending ++ id ∷ [] } in
    if can_post c.message_endpoint
    then (c', some (record { id = id; method = method; params = params }), [])
    else (c', none, rejected id "No message endpoint available — not connected" ∷ [])

-- the timer of a request
unfoldable pub time_out : Client → ℕ → String → Client × List Settled
time_out c id method = (
  record c { pending = without id c.pending },
  rejected id (String.◌++◌ "Request timeout: " method) ∷ [],
)

-- `handleMessage`; `none` is a message that is malformed
unfoldable pub handle_message : Client → Option Response → Client × List Settled
handle_message c none = (c, [])
handle_message c (some response) = elim response.id [
  | text s ↦ (c, [])
  | number id ↦
      if any (eqb id) c.pending
      then (record c { pending = without id c.pending }, resolved id response ∷ [])
      else (c, [])
]

-- `cleanup`
unfoldable pub cleanup : Client → Client × List Settled
cleanup c = (
  record c {
    pending = [];
    message_endpoint = none;
    cached_tools = none;
    cached_resources = none;
    server_capabilities = none;
    server_info = none;
  },
  map (λ id. rejected id "Connection closed") c.pending,
)

-- `disconnect`
unfoldable pub disconnect : Client → Client × List Settled
unfolding cleanup
disconnect c = let (c', out) = cleanup c in (record c' { state = disconnected }, out)

-- `connectToServer` up to its first wait: false where it returns at once
unfoldable pub begin_connect : Client → Bool × Client
begin_connect c = elim c.state [
  | connected ↦ (false, c)
  | _ ↦ (true, record c { state = connecting })
]

-- the event `endpoint` of the source
unfoldable pub set_endpoint : Client → String → Client
set_endpoint c endpoint = record c { message_endpoint = some endpoint }

-- the block `catch` of `connectToServer`
unfoldable pub fail_connect : Client → Client × List Settled
unfolding cleanup
fail_connect c = cleanup (record c { state = error })

-- `connectToServer` from the answer to `initialize` on. `none` stands for all that throws before the
-- answer is read; else the capabilities and the name of the server are given. True where it returns.
unfoldable pub finish_connect :
    Client → Option (Option Json × Option ServerInfo) → Bool × Client × List Settled
unfolding fail_connect
finish_connect c none = let (c', out) = fail_connect c in (false, c', out)
finish_connect c (some (capabilities, info)) =
    let c' = record c { server_capabilities = capabilities; server_info = info } in
    if can_post c.message_endpoint
    then (true, record c' { state = connected }, [])
    else (let (c'', out) = fail_connect c' in (false, c'', out))

abbrev state_name : ClientState → String
state_name disconnected = "disconnected"
state_name connecting = "connecting"
state_name connected = "connected"
state_name error = "error"

-- the message that `ensureConnected` throws
abbrev not_ready : Client → String
not_ready c =
    String.◌++◌ "MCP client is not connected (state: " (String.◌++◌ (state_name c.state) ")")

-- `ensureConnected`
unfoldable pub is_ready : Client → Bool
is_ready c = elim c.state [ connected ↦ true | _ ↦ false ]

-- the start of `listTools`: an error, the cached list, or a request to be sent
unfoldable pub cached_tool_list : Client → Result String (Option (List McpTool))
unfolding is_ready
cached_tool_list c = if is_ready c then ok c.cached_tools else err (not_ready c)

-- the end of `listTools`, with the list of the answer; `none` is an answer without one
unfoldable pub keep_tools : Client → Option (List McpTool) → List McpTool × Client
keep_tools c tools = let list = get_or tools [] in (list, record c { cached_tools = some list })

-- `listResources`, as `listTools`
unfoldable pub cached_resource_list : Client → Result String (Option (List McpResource))
unfolding is_ready
cached_resource_list c = if is_ready c then ok c.cached_resources else err (not_ready c)

unfoldable pub keep_resources : Client → Option (List McpResource) → List McpResource × Client
keep_resources c resources =
    let list = get_or resources [] in (list, record c { cached_resources = some list })

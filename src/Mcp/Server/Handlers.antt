-- ===== src/Mcp/Server/Handlers.antt =====
-- The built-in handlers of packages/mcp-gateway/src/server/mcp-server.ts. An argument is cast to
-- its type without a check, so a handler is given any value.
use Prim.Native.String
use kalen.Prelude.{String, Bool, false, not, ◌||◌, Option, none, some, [], ◌∷◌, if◌then◌else◌, ok}
use kalen.Shared.Json.{Json, null, str, arr, obj, nil, Fields, end, field, get, truthy, or_default}
use kalen.Shared.Json.Print.{stringify, to_text}
use kalen.Shared.Tool.{CallResult, CallerKind, human, agent}
use kalen.Mcp.Server.{ToolHandler, ResourceHandler, text_block, failed}

abbrev kind : CallerKind → Json
kind human = str "human"
kind agent = str "agent"

-- a result whose text is an object
abbrev answered : Fields → CallResult
answered fields = record { is_error = false; content = text_block (stringify (obj fields)) ∷ [] }

-- a field that `JSON.stringify` leaves out where it is undefined
abbrev optional : String → Option Json → Fields → Fields
optional k none rest = rest
optional k (some v) rest = field k v rest

abbrev missing : String → Fields → Bool
missing k args = not (truthy (get k args))

-- `handleSendMessage`
unfoldable pub handle_send_message : ToolHandler
unfolding get stringify
handle_send_message args context now =
    if missing "roomId" args || missing "content" args
    then ok (failed "roomId and content are required")
    else ok (
        answered (
          field "action" (str "message_sent") (
            optional "roomId" (get "roomId" args) (
              optional "content" (get "content" args) (
                field "contentType" (or_default (get "contentType" args) (str "text")) (
                  field "senderId" (str context.caller_id) (
                    field "senderKind" (kind context.caller_kind)
                      (field "timestamp" (str now) end))))))))

-- `handleCreateRoom`
unfoldable pub handle_create_room : ToolHandler
unfolding get stringify
handle_create_room args context now = ok (
    answered (
      field "action" (str "room_created") (
        optional "type" (get "type" args) (
          field "name" (or_default (get "name" args) null) (
            field "memberIds" (or_default (get "memberIds" args) (arr nil))
              (field "createdBy" (str context.caller_id) (field "timestamp" (str now) end)))))))

-- `handleListRooms`
unfoldable pub handle_list_rooms : ToolHandler
unfolding get stringify
handle_list_rooms args context now = ok (
    answered (
      field "action" (str "rooms_listed") (
        field "filter" (or_default (get "type" args) null)
          (field "rooms" (arr nil) (field "callerId" (str context.caller_id) end)))))

-- `handleInviteUser`
unfoldable pub handle_invite_user : ToolHandler
unfolding get stringify
handle_invite_user args context now =
    if missing "roomId" args || missing "userId" args || missing "userKind" args
    then ok (failed "roomId, userId, and userKind are required")
    else ok (
        answered (
          field "action" (str "user_invited") (
            optional "roomId" (get "roomId" args) (
              optional "userId" (get "userId" args) (
                optional "userKind" (get "userKind" args)
                  (field "invitedBy" (str context.caller_id) (field "timestamp" (str now) end)))))))

-- `handleSearchMessages`
unfoldable pub handle_search_messages : ToolHandler
unfolding get stringify
handle_search_messages args context now =
    if missing "query" args
    then ok (failed "query is required")
    else ok (
        answered (
          field "action" (str "messages_searched") (
            optional "query" (get "query" args) (
              field "roomId" (or_default (get "roomId" args) null)
                (field "results" (arr nil) (field "callerId" (str context.caller_id) end))))))

-- `${v}`
abbrev shown : Option Json → String
shown none = "undefined"
shown (some v) = to_text v

-- `handleManageAgent`
unfoldable pub handle_manage_agent : ToolHandler
unfolding get stringify
handle_manage_agent args context now =
    if missing "action" args || missing "agentId" args
    then ok (failed "action and agentId are required")
    else ok (
        answered (
          field "action" (str (String.◌++◌ "agent_" (shown (get "action" args)))) (
            optional "agentId" (get "agentId" args) (
              field "scopes" (or_default (get "scopes" args) null)
                (field "performedBy" (str context.caller_id) (field "timestamp" (str now) end))))))

-- `handleReadRecentRooms`
unfoldable pub handle_read_recent_rooms : ResourceHandler
handle_read_recent_rooms uri context = ok (
    obj (
      field "uri" (str uri)
        (field "rooms" (arr nil) (field "callerId" (str context.caller_id) end))))

-- `handleReadMyIdentity`
unfoldable pub handle_read_my_identity : ResourceHandler
handle_read_my_identity uri context = ok (
    obj (
      field "uri" (str uri)
        (field "id" (str context.caller_id) (field "kind" (kind context.caller_kind) end))))

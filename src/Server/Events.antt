-- ===== src/Server/Events.antt =====
-- apps/server/src/gateway/events.gateway.ts. What the library socket.io does to its rooms is an
-- effect that a handler gives back; `rooms` is what it holds for the socket when the handler runs.
pub mod Steps
pub mod Tracking
pub mod Stale
pub mod Offline
pub mod Access
mod Tests
use kalen.Prelude.{
  ℕ, String, Bool, true, false, not, ◌||◌, Option, none, some, List, [], ◌∷◌, ◌++◌, ◌==◌, is_some,
  get_or, if◌then◌else◌,
}
use kalen.Prelude.Dict.{Dict, lookup, insert, erase}
use kalen.Prelude.StringSet.{StringSet, delete}
use kalen.Prelude.SetMap.{add_to, remove_from}
use kalen.Shared.Json.{Json, str, or_default}
use kalen.Identity.Token.{Jose, TokenPayload, is_str, verify_token}

-- Whom an event goes to: a socket, a room but for the socket, a room, or all.
pub data Target : Type 0 where
  client : (id : String) → Target
  room_of : (id room : String) → Target
  room : String → Target
  everyone : Target

pub data Event : Type 0 where
  auth_failure : Event
  auth_success : (id : String) (kind : Json) (suffix : Option Json) → Event
  unauthorized : Event
  presence_update : (user_suffix : Option Json) (status : String) → Event
  typing_start typing_stop : (conversation_id : String) (user_suffix : Option Json) → Event
  message_created message_updated : (message : Json) → Event
  message_deleted : (message_id : String) → Event
  agent_action : (agent_suffix action target : String) (timestamp : ℕ) → Event

pub data Effect : Type 0 where
  emit : Target → Event → Effect
  join leave : (id room : String) → Effect
  -- `setTimeout` of the end of a typing indicator, three seconds later
  timeout : (id conversation_id : String) → Effect

-- `EventsGateway`; `identity` is the property that it keeps on the sockets themselves
pub record Gateway : Type 0 where
  pub identity : Dict TokenPayload
  pub socket_identities : Dict TokenPayload
  pub user_sockets : Dict StringSet

abbrev pub new_gateway : Gateway
new_gateway = record { identity = []; socket_identities = []; user_sockets = [] }

-- an update of the presence, to every room of the socket but its own
unfoldable pub update_presence : String → Option Json → String → StringSet → List Effect
update_presence id suffix status [] = []
update_presence id suffix status (r ∷ rs) =
    let rest = update_presence id suffix status rs in
    if r == id then rest else emit (room_of id r) (presence_update suffix status) ∷ rest

-- whether the socket is the only one that is kept for the user
unfoldable pub is_last : Dict StringSet → String → String → Bool
is_last users sub id = elim (lookup sub users) [
  | none ↦ false
  | some sockets ↦ elim (delete id sockets) [ [] ↦ true | s ∷ ss ↦ false ]
]

-- `handleDisconnect`; `rooms` is what the socket library gives as the rooms of the socket, which it may
-- have emptied by then
unfoldable pub handle_disconnect : Gateway → String → StringSet → Gateway × List Effect
unfolding is_last update_presence
handle_disconnect g id rooms = elim (lookup id g.socket_identities) [
  | none ↦ (g, [])
  | some p ↦ (
    record g {
      socket_identities = erase id g.socket_identities;
      user_sockets = remove_from g.user_sockets p.sub id;
    },
    if is_last g.user_sockets p.sub id then update_presence id p.suffix "offline" rooms else [],
  )
]

-- `handleAuth` on a payload that is that of an access token
unfoldable pub accept : Gateway → String → TokenPayload → Gateway × List Effect
accept g id p = (
  record {
    identity = insert id p g.identity;
    socket_identities = insert id p g.socket_identities;
    user_sockets = add_to g.user_sockets p.sub id;
  },
  emit (client id) (auth_success p.sub p.kind p.suffix) ∷ [],
)

module _ {Token : Type 0} (j : Jose Token) where
  -- `handleAuth`
  unfoldable pub handle_auth : Gateway → String → Token → String → ℕ → Gateway × List Effect
  unfolding verify_token accept
  handle_auth g id token secret now = elim (verify_token j token secret now) [
    | none ↦ (g, emit (client id) auth_failure ∷ [])
    | some p ↦
        if not (is_str p.token_type "access")
        then (g, emit (client id) auth_failure ∷ [])
        else accept g id p
  ]

-- `handleSubscribe`
unfoldable pub handle_subscribe : Gateway → String → String → List Effect
handle_subscribe g id conversation_id = elim (lookup id g.identity) [
  | none ↦ emit (client id) unauthorized ∷ []
  | some p ↦ join id conversation_id ∷ []
]

-- `handleUnsubscribe`
unfoldable pub handle_unsubscribe : Gateway → String → String → List Effect
handle_unsubscribe g id conversation_id = leave id conversation_id ∷ []

-- `handleTyping`
unfoldable pub handle_typing : Gateway → String → String → List Effect
handle_typing g id conversation_id = elim (lookup id g.identity) [
  | none ↦ []
  | some p ↦
      emit (room_of id conversation_id) (typing_start conversation_id p.suffix)
      ∷ timeout id conversation_id
      ∷ []
]

-- `client.identity?.suffix ?? 'unknown'`
abbrev suffix_of : Option TokenPayload → Json
suffix_of none = str "unknown"
suffix_of (some p) = or_default p.suffix (str "unknown")

-- the function that `handleTyping` gives to `setTimeout`
unfoldable pub stop_typing : Gateway → String → String → List Effect
stop_typing g id conversation_id =
    if is_some (lookup id g.socket_identities)
    then emit (room_of id conversation_id)
        (typing_stop conversation_id (some (suffix_of (lookup id g.identity))))
      ∷ []
    else []

-- `handlePresence`
unfoldable pub handle_presence : Gateway → String → String → StringSet → List Effect
unfolding update_presence
handle_presence g id status rooms = elim (lookup id g.identity) [
  | none ↦ []
  | some p ↦ update_presence id p.suffix status rooms
]

-- `broadcastMessageCreated`, `broadcastMessageUpdated`, `broadcastMessageDeleted`,
-- `broadcastAgentAction`
unfoldable pub broadcast_message_created : String → Json → List Effect
broadcast_message_created room_id message = emit (room room_id) (message_created message) ∷ []

unfoldable pub broadcast_message_updated : String → Json → List Effect
broadcast_message_updated room_id message = emit (room room_id) (message_updated message) ∷ []

unfoldable pub broadcast_message_deleted : String → String → List Effect
broadcast_message_deleted room_id message_id = emit (room room_id) (message_deleted message_id) ∷ []

unfoldable pub broadcast_agent_action : String → String → String → ℕ → List Effect
broadcast_agent_action agent_suffix action target now =
    emit everyone (agent_action agent_suffix action target now) ∷ []

-- ===== src/Server/Messages.antt =====
-- apps/server/src/messaging/message.service.ts, with the table of messages below
-- apps/server/src/database: message.repository.ts.
pub mod Sending
pub mod Reactions
mod Tests
use kalen.Prelude.{
  ℕ, ◌+◌, ◌-◌, ◌<◌, String, Bool, true, false, not, ◌&&◌, ◌||◌, Option, none, some, List, [], ◌∷◌,
  ◌++◌, ◌==◌, ltb, is_some, get_or, length, filter, any, map, if◌then◌else◌, Result, ok, err,
}
use kalen.Prelude.Dict.{Dict, lookup, insert, values}
use kalen.Prelude.StringSet.{StringSet, has, add}
use kalen.Prelude.SetMap.{add_to, remove_from}
use kalen.Server.Pages.{page_number, page_limit, cut, Pagination, pagination}
use kalen.Server.RoomTables.{Room, Tables, is_member}

-- `MessageEntity` without its metadata, its time of update and the columns that repeat others
pub record Message : Type 0 where
  pub id : String
  pub room_id : String
  pub sender_id : String
  pub sender_type : String
  pub content : String
  pub content_type : String
  pub reply_to_id : Option String
  pub sender_suffix : Option String
  pub mentions : List String
  pub reactions : Dict StringSet
  pub read_by : StringSet
  pub deleted : Bool
  pub created_at : ℕ
  pub edited_at : Option ℕ

pub record Store : Type 0 where
  pub tables : Tables
  pub messages : Dict Message

-- `SendMessageDto`
pub record SendMessageDto : Type 0 where
  pub content : String
  pub kind : Option String
  pub mentions : Option (List String)
  pub reply_to : Option String

pub data MessageError : Type 0 where
  room_not_found not_a_member refused_by_database : MessageError

-- `create`
abbrev pub new_message :
    (id room_id sender_id sender_type : String) → Option String → SendMessageDto → ℕ → Message
new_message id room_id sender_id sender_type suffix dto now = record {
  id = id;
  room_id = room_id;
  sender_id = sender_id;
  sender_type = sender_type;
  content = dto.content;
  content_type = get_or dto.kind "text";
  reply_to_id = dto.reply_to;
  sender_suffix = suffix;
  mentions = get_or dto.mentions [];
  reactions = [];
  read_by = sender_id ∷ [];
  deleted = false;
  created_at = now;
  edited_at = none;
}

-- what `sendMessage` and `listMessages` ask first: a row of members, or the room's old column
unfoldable pub check_access : Tables → (room_id user_id : String) → Result MessageError Room
unfolding is_member
check_access t room_id user_id = elim (lookup room_id t.rooms) [
  | none ↦ err room_not_found
  | some r ↦
      if is_member t room_id user_id || any (λ w. w.id == user_id) r.legacy
      then ok r
      else err not_a_member
]

-- `RoomRepository.update` of the time of the last activity
unfoldable pub touch_room : Tables → String → ℕ → Tables
touch_room t room_id now = elim (lookup room_id t.rooms) [
  | none ↦ t
  | some r ↦ record t { rooms = insert room_id (record r { last_activity_at = some now }) t.rooms }
]

-- the foreign key of a reply: to a message of the table, of any room
abbrev pub reply_exists : Option String → Dict Message → Bool
reply_exists none messages = true
reply_exists (some id) messages = is_some (lookup id messages)

-- `sendMessage`, under a new id; the row comes before the update of the room
unfoldable pub send_message :
    Store
    → (id room_id sender_id sender_kind : String) → Option String
    → SendMessageDto
    → ℕ
    → Store × Result MessageError Message
unfolding check_access touch_room
send_message s id room_id sender_id sender_kind suffix dto now =
    elim (check_access s.tables room_id sender_id) [
      | err e ↦ (s, err e)
      | ok r ↦
          let m = new_message id room_id sender_id sender_kind suffix dto now in
          if reply_exists dto.reply_to s.messages
          then (
            record { tables = touch_room s.tables room_id now; messages = insert id m s.messages },
            ok m,
          )
          else (s, err refused_by_database)
    ]

-- whether a message is from before that of a cursor, of which there may be none
unfoldable pub is_before : Dict Message → Option String → Message → Bool
is_before messages none m = true
is_before messages (some b) m =
    (b == "") || elim (lookup b messages) [ none ↦ false | some c ↦ ltb m.created_at c.created_at ]

-- the rows that `findByRoom` finds, before their order and their page
unfoldable pub messages_of : Dict Message → String → Option String → List Message
unfolding is_before
messages_of messages room_id before =
    filter (λ m. (m.room_id == room_id) && (not m.deleted && is_before messages before m))
      (values messages)

-- `listMessages`, where the database has put what it found in an order; the inner `none` is a
-- negative offset
unfoldable pub list_messages :
    (List Message → List Message)
    → Store
    → (room_id user_id : String) → (page limit : Option ℕ) (before : Option String)
    → Result MessageError (Option (List Message × Pagination))
unfolding check_access messages_of cut pagination
list_messages order s room_id user_id page limit before =
    elim (check_access s.tables room_id user_id) [
      | err e ↦ err e
      | ok r ↦
          let found = order (messages_of s.messages room_id before) in
          elim (cut (page_number page) (page_limit limit) found) [
            | none ↦ ok none
            | some ms ↦
                ok (some (ms, pagination (page_number page) (page_limit limit) (length found)))
          ]
    ]

-- `softDelete`, and whether the message was there
unfoldable pub soft_delete : Dict Message → String → Dict Message × Bool
soft_delete messages id = elim (lookup id messages) [
  | none ↦ (messages, false)
  | some m ↦ (insert id (record m { deleted = true }) messages, true)
]

-- `edit`
unfoldable pub edit : Dict Message → String → String → ℕ → Dict Message × Option Message
edit messages id content now = elim (lookup id messages) [
  | none ↦ (messages, none)
  | some m ↦
      let edited = record m { content = content; edited_at = some now } in
      (insert id edited messages, some edited)
]

-- the names that every object has by inheritance, and that read as something which is no list
abbrev inherited_names : List String
inherited_names =
    "constructor" ∷ "hasOwnProperty" ∷ "isPrototypeOf" ∷ "propertyIsEnumerable" ∷ "toLocaleString"
    ∷ "toString" ∷ "valueOf" ∷ "__proto__" ∷ "__defineGetter__" ∷ "__defineSetter__"
    ∷ "__lookupGetter__" ∷ "__lookupSetter__" ∷ []

unfoldable pub is_inherited : String → Bool
is_inherited name = any (λ n. n == name) inherited_names

pub data TypeError : Type 0 where
  type_error : TypeError

-- A write to the reactions of a message. Where the sign is no key of their object but a name that it
-- inherits, the call of `includes` or `filter` throws before anything is saved.
abbrev react :
    Dict Message
    → (id emoji : String) → (Dict StringSet → Dict StringSet)
    → Dict Message × Result TypeError (Option Message)
react messages id emoji f = elim (lookup id messages) [
  | none ↦ (messages, ok none)
  | some m ↦
      if is_inherited emoji && not (is_some (lookup emoji m.reactions))
      then (messages, err type_error)
      else (
        insert id (record m { reactions = f m.reactions }) messages,
        ok (some (record m { reactions = f m.reactions })),
      )
]

-- `addReaction`
unfoldable pub add_reaction :
    Dict Message → (id emoji user_id : String) → Dict Message × Result TypeError (Option Message)
unfolding add_to
add_reaction messages id emoji user_id = react messages id emoji (λ r. add_to r emoji user_id)

-- `removeReaction`
unfoldable pub remove_reaction :
    Dict Message → (id emoji user_id : String) → Dict Message × Result TypeError (Option Message)
unfolding remove_from
remove_reaction messages id emoji user_id =
    react messages id emoji (λ r. remove_from r emoji user_id)

-- `markAsRead`
unfoldable pub mark_as_read : Dict Message → (id user_id : String) → Dict Message × Option Message
unfolding add
mark_as_read messages id user_id = elim (lookup id messages) [
  | none ↦ (messages, none)
  | some m ↦
      let seen = record m { read_by = add user_id m.read_by } in
      (insert id seen messages, some seen)
]

-- `countByRoom`
unfoldable pub count_by_room : Dict Message → String → ℕ
count_by_room messages room_id =
    length (filter (λ m. (m.room_id == room_id) && not m.deleted) (values messages))

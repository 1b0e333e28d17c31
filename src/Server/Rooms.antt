-- ===== src/Server/Rooms.antt =====
-- apps/server/src/messaging/room.service.ts, over the tables of Server/RoomTables.
pub mod Refusals
pub mod Listing
mod Tests
use kalen.Prelude.{
  ℕ, ◌+◌, String, Bool, true, false, not, ◌&&◌, ◌||◌, Option, none, some, List, [], ◌∷◌, ◌++◌, ◌==◌,
  ltb, is_some, get_or, length, filter, any, map, if◌then◌else◌, Result, ok, err,
}
use kalen.Prelude.Dict.{Dict, lookup, insert, values}
use kalen.Server.Pages.{page_number, page_limit, cut, Pagination, pagination}
use kalen.Server.RoomTables.{
  Member, MemberRole, MemberView, Room, RoomStatus, Tables, active, admin, archived, deleted, find,
  get_member_role, get_members, in_room, is_member, member, migration_references, new_member,
  new_room, owner, remove_member, same_member, soft_delete, update_first, update_member_last_read,
  update_member_role,
}

abbrev pub max_room_members : ℕ
max_room_members = 256

pub data RoomError : Type 0 where
  too_many_members refused_by_database room_not_found not_a_member : RoomError

-- `MemberDto`
pub record MemberDto : Type 0 where
  pub id : String
  pub kind : String

-- `CreateRoomDto`
pub record CreateRoomDto : Type 0 where
  pub kind : String
  pub name : Option String
  pub description : Option String
  pub members : List MemberDto
  pub visibility : Option String

pub record RoomView : Type 0 where
  pub id : String
  pub kind : String
  pub name : Option String
  pub description : Option String
  pub members : List MemberView
  pub visibility : String
  pub created_by : String
  pub created_at : ℕ
  pub last_activity_at : Option ℕ

abbrev pub view_member : Member → MemberView
view_member m = record { id = m.member_id; kind = m.member_type; role = m.role }

-- `formatRoom`; the rows of members are there if the query has joined them
unfoldable pub format_room : Room → Option (List Member) → RoomView
format_room r joined = record {
  id = r.id;
  kind = r.kind;
  name = r.name;
  description = r.description;
  members = elim joined [ none ↦ r.legacy | some ms ↦ map view_member ms ];
  visibility = r.visibility;
  created_by = r.created_by_id;
  created_at = r.created_at;
  last_activity_at = r.last_activity_at;
}

-- `references` is what the database asks of the id of a member
module _ (references : String → Bool) where
  -- `addMember`: `none` where the database refuses the row
  unfoldable pub add_member : Tables → Member → Option Tables
  add_member t m =
      if any (same_member m) t.members || not (references m.member_id)
      then none
      else some (record t { members = t.members ++ m ∷ [] })

  -- the loop of `createRoom`, and whether it came to its end
  unfoldable pub add_members : Tables → String → String → ℕ → List MemberDto → Tables × Bool
  unfolding add_member
  add_members t room_id creator now [] = (t, true)
  add_members t room_id creator now (m ∷ ms) =
      let skipped = add_members t room_id creator now ms in
      if m.id == creator
      then skipped
      else elim (add_member t (new_member room_id m.id m.kind member now)) [
        | none ↦ (t, false)
        | some u ↦ add_members u room_id creator now ms
      ]

  -- `createRoom` past its guard: the room, its owner and its members
  unfoldable pub fill_room :
      Tables → (room_id creator kind : String) → ℕ → CreateRoomDto → Tables × Bool
  unfolding add_members
  fill_room t room_id creator kind now dto =
      let r = new_room room_id dto.kind dto.name creator kind dto.visibility now in
      let stored : Tables = record t { rooms = insert room_id r t.rooms } in
      elim (add_member stored (new_member room_id creator kind owner now)) [
        | none ↦ (stored, false)
        | some u ↦ add_members u room_id creator now dto.members
      ]

  -- what `createRoom` reads, the members in the order of the database, and gives back at its end
  unfoldable pub answer :
      (List Member → List Member) → Tables × Bool → String → Tables × Result RoomError RoomView
  unfolding format_room get_members
  answer order (t, false) room_id = (t, err refused_by_database)
  answer order (t, true) room_id = elim (lookup room_id t.rooms) [
    | none ↦ (t, err room_not_found)
    | some r ↦ (t, ok (format_room r (some (get_members order t room_id))))
  ]

  -- `createRoom`
  unfoldable pub create_room :
      (List Member → List Member)
      → Tables
      → (room_id creator kind : String) → ℕ
      → CreateRoomDto
      → Tables × Result RoomError RoomView
  unfolding fill_room answer
  create_room order t room_id creator kind now dto =
      if ltb max_room_members (length dto.members)
      then (t, err too_many_members)
      else answer order (fill_room t room_id creator kind now dto) room_id

-- whether a text is there and not empty
abbrev set_text : Option String → Bool
set_text none = false
set_text (some s) = not (s == "")

-- `getRoom`, where the database has put the members in an order
unfoldable pub get_room :
    (List Member → List Member) → Tables → String → Option String → Result RoomError RoomView
unfolding format_room get_members is_member
get_room order t id user_id = elim (lookup id t.rooms) [
  | none ↦ err room_not_found
  | some r ↦
      if (r.visibility == "private")
        && (set_text user_id && not (is_member t id (get_or user_id "")))
      then err not_a_member
      else ok (format_room r (some (get_members order t id)))
]

abbrev pub is_active : RoomStatus → Bool
is_active active = true
is_active archived = false
is_active deleted = false

-- `options?.type`, where it is set
abbrev pub of_kind : Option String → Room → Bool
of_kind none r = true
of_kind (some k) r = (k == "") || (r.kind == k)

-- the rows that `findByMember` finds, before their order and their page
unfoldable pub rooms_of : Tables → String → Option String → List Room
unfolding is_member
rooms_of t member_id kind =
    filter (λ r. is_member t r.id member_id && (is_active r.status && of_kind kind r))
      (values t.rooms)

-- `listRooms`, where the database has put what it found in an order; no members are joined, so the
-- views show the legacy ones. `none`: a negative offset
unfoldable pub list_rooms :
    (List Room → List Room)
    → Tables
    → (user_id : String) (kind : Option String) → (page limit : Option ℕ)
    → Option (List RoomView × Pagination)
unfolding rooms_of cut pagination format_room
list_rooms order t user_id kind page limit =
    let found = order (rooms_of t user_id kind) in
    elim (cut (page_number page) (page_limit limit) found) [
      | none ↦ none
      | some rs ↦ some (
        map (λ r. format_room r none) rs,
        pagination (page_number page) (page_limit limit) (length found),
      )
    ]

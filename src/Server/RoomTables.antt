-- ===== src/Server/RoomTables.antt =====
-- The tables of rooms and members below apps/server/src/database: room.repository.ts, the entities and
-- the constraints of the tables. The id of a row of members, which is random and which nothing reads,
-- is left out.
use kalen.Prelude.{
  ℕ, String, Bool, true, false, not, ◌&&◌, Option, none, some, List, [], ◌∷◌, ◌==◌, is_some, get_or,
  filter, any, if◌then◌else◌,
}
use kalen.Prelude.Dict.{Dict, lookup, insert}

pub data MemberRole : Type 0 where
  owner admin member : MemberRole

-- `RoomMemberEntity`
pub record Member : Type 0 where
  pub room_id : String
  pub member_id : String
  pub member_type : String
  pub role : MemberRole
  pub joined_at : ℕ
  pub last_read_at : Option ℕ

pub data RoomStatus : Type 0 where
  active archived deleted : RoomStatus

-- A member in the answer to a request, and in the column `members` of a room.
pub record MemberView : Type 0 where
  pub id : String
  pub kind : String
  pub role : MemberRole

-- `RoomEntity` without its metadata and its time of update; `legacy` is its column `members`
pub record Room : Type 0 where
  pub id : String
  pub kind : String
  pub name : Option String
  pub description : Option String
  pub created_by_id : String
  pub creator_type : String
  pub visibility : String
  pub status : RoomStatus
  pub legacy : List MemberView
  pub created_at : ℕ
  pub last_activity_at : Option ℕ

pub record Tables : Type 0 where
  pub rooms : Dict Room
  pub members : List Member

-- the columns of the unique index of members
abbrev pub same_member : Member → Member → Bool
same_member m n =
    (m.room_id == n.room_id) && ((m.member_id == n.member_id) && (m.member_type == n.member_type))

abbrev pub in_room : String → String → Member → Bool
in_room room_id member_id m = (m.room_id == room_id) && (m.member_id == member_id)

-- `isMember`
unfoldable pub is_member : Tables → String → String → Bool
is_member t room_id member_id = any (in_room room_id member_id) t.members

-- `getMembers`, in the order that the database gives: the query asks for none
unfoldable pub get_members : (List Member → List Member) → Tables → String → List Member
get_members order t room_id = order (filter (λ m. m.room_id == room_id) t.members)

-- the first row that passes a test
abbrev pub find : (Member → Bool) → List Member → Option Member
find p [] = none
find p (m ∷ ms) = let rest = find p ms in if p m then some m else rest

-- `getMemberRole`
unfoldable pub get_member_role : Tables → String → String → Option MemberRole
get_member_role t room_id member_id = elim (find (in_room room_id member_id) t.members) [
  | none ↦ none
  | some m ↦ some m.role
]

-- a write to the first row that passes a test
unfoldable pub update_first : (Member → Bool) → (Member → Member) → List Member → List Member
update_first p f [] = []
update_first p f (m ∷ ms) = let rest = update_first p f ms in if p m then f m ∷ ms else m ∷ rest

-- `updateMemberRole`, and whether it found the member
unfoldable pub update_member_role : Tables → String → String → MemberRole → Tables × Bool
unfolding update_first is_member
update_member_role t room_id member_id role = (
  record t {
    members = update_first (in_room room_id member_id) (λ m. record m { role = role }) t.members;
  },
  is_member t room_id member_id,
)

-- `updateMemberLastRead`
unfoldable pub update_member_last_read : Tables → String → String → ℕ → Tables × Bool
unfolding update_first is_member
update_member_last_read t room_id member_id now = (
  record t {
    members =
        update_first (in_room room_id member_id) (λ m. record m { last_read_at = some now })
          t.members;
  },
  is_member t room_id member_id,
)

-- `removeMember`, and whether a row was there
unfoldable pub remove_member : Tables → String → String → Tables × Bool
unfolding is_member
remove_member t room_id member_id = (
  record t { members = filter (λ m. not (in_room room_id member_id m)) t.members },
  is_member t room_id member_id,
)

-- `softDelete`
unfoldable pub soft_delete : Tables → String → Tables × Bool
soft_delete t id = elim (lookup id t.rooms) [
  | none ↦ (t, false)
  | some r ↦ (record t { rooms = insert id (record r { status = deleted }) t.rooms }, true)
]

-- `create`
abbrev pub new_room : String → String → Option String → String → String → Option String → ℕ → Room
new_room id kind name created_by_id creator_type visibility now = record {
  id = id;
  kind = kind;
  name = name;
  description = none;
  created_by_id = created_by_id;
  creator_type = creator_type;
  visibility = get_or visibility "private";
  status = active;
  legacy = [];
  created_at = now;
  last_activity_at = some now;
}

abbrev pub new_member : String → String → String → MemberRole → ℕ → Member
new_member room_id member_id member_type role now = record {
  room_id = room_id;
  member_id = member_id;
  member_type = member_type;
  role = role;
  joined_at = now;
  last_read_at = none;
}

-- the foreign keys of a member's row after the migration: its id is one of a user and one of an agent
unfoldable pub migration_references {ℓ κ} :
    {U : Type ℓ} {A : Type κ} → Dict U → Dict A → String → Bool
migration_references users agents id = is_some (lookup id users) && is_some (lookup id agents)

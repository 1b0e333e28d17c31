-- ===== src/Server/Rooms/Tests.antt =====
-- Rooms on small inputs, and the theorems applied to them.
use kalen.Prelude.{
  ℕ, String, ◌≡◌, refl, Bool, true, none, some, List, [], ◌∷◌, arith, eq_iff, length, ok, err,
}
use kalen.Prelude.Dict.{Dict, lookup, insert, values}
use kalen.Server.RoomTables.{
  owner, Member, Tables, new_room, get_members, is_member, get_member_role, migration_references,
  soft_delete,
}
use kalen.Server.Rooms.{
  CreateRoomDto, RoomView, not_a_member, refused_by_database, format_room, get_room, create_room,
  fill_room, answer, add_member, add_members, rooms_of,
}
use kalen.Server.Rooms.Refusals.{Disjoint, create_room_on_migration}

abbrev empty : Tables
empty = record { rooms = []; members = [] }

-- two members, of whom one is the creator
abbrev dto : CreateRoomDto
dto = record {
  kind = "direct";
  name = none;
  description = none;
  members = record { id = "u1"; kind = "human" } ∷ record { id = "a1"; kind = "agent" } ∷ [];
  visibility = none;
}

-- a database that refers to nothing else
abbrev free : String → Bool
free id = true

-- the order in which the rows have been stored
abbrev as_stored : List Member → List Member
as_stored ms = ms

abbrev made : Tables
made = (fill_room free empty "r1" "u1" "human" 5 dto).0

abbrev view : RoomView
view =
    format_room (new_room "r1" "direct" none "u1" "human" none 5)
      (some (get_members as_stored made "r1"))

made_ok : create_room free as_stored empty "r1" "u1" "human" 5 dto ≡ (made, ok view)
unfolding create_room fill_room answer add_members add_member get_members lookup insert
made_ok = refl

room_tests :
    (get_member_role made "r1" "u1" ≡ some owner)
    × (get_room as_stored made "r1" (some "u2") ≡ err not_a_member)
    × (get_room as_stored made "r1" (some "a1") ≡ ok view)
    × (length (rooms_of (soft_delete made "r1").0 "u1" none) ≡ 0)
unfolding fill_room add_members add_member get_members get_member_role get_room is_member rooms_of
    soft_delete lookup insert values format_room
room_tests = (refl, refl, refl, refl)

abbrev users : Dict ℕ
users = ("u1", 0) ∷ []

abbrev agents : Dict ℕ
agents = ("a1", 0) ∷ []

apart : Disjoint users agents
unfolding lookup
apart id h = ground (arith, h, eq_iff "u1" id, eq_iff "a1" id, eq_iff "u1" "a1")

create_room_on_migration_example :
    create_room (migration_references users agents) as_stored empty "r1" "u1" "human" 5 dto ≡ (
      record empty { rooms = insert "r1" (new_room "r1" "direct" none "u1" "human" none 5) [] },
      err refused_by_database,
    )
create_room_on_migration_example =
    create_room_on_migration users agents as_stored empty "r1" "u1" "human" 5 dto apart
      (omega arith)

-- ===== src/Server/Rooms/Refusals.antt =====
-- apps/server/src/messaging/room.service.ts on the tables of
-- apps/server/src/database/migrations/1700000000000-InitialSchema.ts.
use kalen.Prelude.{
  ℕ, ◌≤◌, String, ◌≡◌, refl, Bool, true, false, none, arith, ltb, length, is_some, err, List,
}
use kalen.Prelude.Dict.{Dict, lookup, insert}
use kalen.Server.RoomTables.{Member, owner, Tables, new_room, new_member, migration_references}
use kalen.Server.Rooms.{
  CreateRoomDto, refused_by_database, max_room_members, add_member, fill_room, answer, create_room,
}

-- No user has the id of an agent.
abbrev pub Disjoint {ℓ κ} : {U : Type ℓ} {A : Type κ} → Dict U → Dict A → Type 0
Disjoint users agents =
    (id : String) → is_some (lookup id users) ≡ true → is_some (lookup id agents) ≡ false

migration_refuses {ℓ κ} :
    {U : Type ℓ} {A : Type κ} (users : Dict U) (agents : Dict A)
    → Disjoint users agents
    → (t : Tables) (m : Member) → add_member (migration_references users agents) t m ≡ none
unfolding add_member migration_references
migration_refuses users agents apart t m = ground (arith, apart m.member_id)

-- On the tables of the migration, where no user has the id of an agent, nobody creates a room: a
-- request within the limit is refused, after the room has been stored, and no member is.
pub create_room_on_migration {ℓ κ} :
    {U : Type ℓ} {A : Type κ} (users : Dict U) (agents : Dict A) (order : List Member → List Member)
    (t : Tables) (room_id creator kind : String) (now : ℕ) (dto : CreateRoomDto)
    → Disjoint users agents
    → length dto.members ≤ max_room_members
    → create_room (migration_references users agents) order t room_id creator kind now dto ≡ (
      record t {
        rooms =
            insert room_id
              (new_room room_id dto.kind dto.name creator kind dto.visibility now)
              t.rooms;
      },
      err refused_by_database,
    )
unfolding create_room fill_room answer
create_room_on_migration users agents order t room_id creator kind now dto apart small =
    let references : String → Bool = migration_references users agents in
    let room = new_room room_id dto.kind dto.name creator kind dto.visibility now in
    let stored : Tables = record t { rooms = insert room_id room t.rooms } in
    let first =
      migration_refuses users agents apart stored (new_member room_id creator kind owner now) in
    let filled : fill_room references t room_id creator kind now dto ≡ (stored, false) =
      rw (first, fill_room) refl in
    let short : ltb max_room_members (length dto.members) ≡ false = ground arith in
    rw (short, create_room) (rw filled refl)

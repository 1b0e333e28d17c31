-- ===== src/Server/Messages/Tests.antt =====
-- Messages on small inputs, and the theorems applied to them.
use kalen.Prelude.{
  ◌≡◌, refl, ◌↔◌, true, false, ◌||◌, none, some, List, [], ◌∷◌, ◌==◌, arith, any, ok, err, Result,
  Bool,
}
use kalen.Prelude.Dict.{lookup, insert, values}
use kalen.Prelude.StringSet.{has, add}
use kalen.Prelude.SetMap.{add_to}
use kalen.Server.RoomTables.{Room, new_room, new_member, owner, is_member}
use kalen.Server.Messages.{
  Message, Store, SendMessageDto, room_not_found, not_a_member, refused_by_database, type_error,
  is_inherited, add_reaction, remove_reaction, new_message, send_message, messages_of, mark_as_read,
  soft_delete,
}
use kalen.Server.Messages.Sending.{send_message_access}
use kalen.Server.Messages.Reactions.{Reaction, adds, removes, View, Shows, run, run_view, run-Shows}

abbrev store : Store
store = record {
  tables = record {
    rooms = ("r1", new_room "r1" "direct" none "u1" "human" none 5) ∷ [];
    members = new_member "r1" "u1" "human" owner 5 ∷ [];
  };
  messages = [];
}

abbrev dto : SendMessageDto
dto = record { content = "hello"; kind = none; mentions = none; reply_to = none }

abbrev message : Message
message = new_message "m1" "r1" "u1" "human" none dto 9

abbrev after : Store
after = (send_message store "m1" "r1" "u1" "human" none dto 9).0

message_tests :
    ((send_message store "m1" "r1" "u2" "human" none dto 9).1 ≡ err not_a_member)
    × ((send_message store "m1" "r2" "u1" "human" none dto 9).1 ≡ err room_not_found)
    × (messages_of after.messages "r1" (some "m1") ≡ [])
    × (messages_of (soft_delete after.messages "m1").0 "r1" none ≡ [])
    × ((mark_as_read after.messages "m1" "u1").1 ≡ some message)
unfolding send_message messages_of soft_delete mark_as_read lookup insert values is_member has add
message_tests = (refl, refl, refl, refl, refl)

abbrev is_ok {ℓ κ} : {A : Type ℓ} → {B : Type κ} → Result A B → Bool
is_ok (ok b) = true
is_ok (err a) = false

abbrev reply : SendMessageDto
reply = record dto { reply_to = some "m1" }

-- A reply to a message that is not there is refused, and one to a message that is there is not.
reply_tests :
    (send_message store "m2" "r1" "u1" "human" none reply 9 ≡ (store, err refused_by_database))
    × (is_ok (send_message after "m2" "r1" "u1" "human" none reply 10).1 ≡ true)
unfolding send_message lookup insert is_member
reply_tests = (refl, refl)

send_message_access_example :
    (((send_message store "m1" "r1" "u1" "human" none dto 9).1 ≡ ok message) ↔ (
      (r : Room) × (lookup "r1" store.tables.rooms ≡ some r)
      × ((is_member store.tables "r1" "u1" || any (λ w. w.id == "u1") r.legacy) ≡ true)
      × (true ≡ true)))
    × (((send_message store "m1" "r1" "u1" "human" none dto 9).1 ≡ err room_not_found)
        ↔ (lookup "r1" store.tables.rooms ≡ none))
send_message_access_example = send_message_access store "m1" "r1" "u1" "human" none dto 9

abbrev nobody : View
nobody emoji user_id = false

shown : Shows after.messages "m1" nobody
unfolding send_message lookup insert has is_member
shown = record {
  message = message;
  stored = refl;
  agrees = λ e u. refl;
  clean = record { filled = λ k s h. absurd (ground (arith, h)) };
  own = λ k h. refl;
}

abbrev reactions : List Reaction
reactions = adds "+" "u1" ∷ adds "constructor" "u1" ∷ adds "+" "u2" ∷ removes "+" "u1" ∷ []

-- a reaction under a name that every object inherits
reaction_tests :
    (add_reaction after.messages "m1" "constructor" "u1" ≡ (after.messages, err type_error))
    × (remove_reaction after.messages "m1" "toString" "u1" ≡ (after.messages, err type_error))
    × ((add_reaction after.messages "m1" "+" "u1").1
        ≡ ok (some (record message { reactions = ("+", "u1" ∷ []) ∷ [] })))
unfolding add_reaction remove_reaction is_inherited send_message lookup insert is_member add_to add
    has
reaction_tests = (refl, refl, refl)

run-Shows_example : Shows (run after.messages "m1" reactions) "m1" (run_view reactions nobody)
run-Shows_example = run-Shows after.messages "m1" nobody reactions shown

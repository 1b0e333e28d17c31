-- ===== src/Server/Messages/Sending.antt =====
-- apps/server/src/messaging/message.service.ts: what a message that is sent changes, and who may send.
use kalen.Prelude.{
  ℕ, String, ◌≡◌, refl, ◌↔◌, Bool, true, false, ◌||◌, Option, none, some, ◌==◌, inl, inr, arith,
  any, Bool-cases, Option-cases, Result, ok, err,
}
use kalen.Prelude.Dict.{lookup, insert}
use kalen.Server.RoomTables.{Room, is_member}
use kalen.Server.Messages.{
  Message, Store, SendMessageDto, MessageError, room_not_found, not_a_member, refused_by_database,
  reply_exists, new_message, check_access, touch_room, send_message,
}

module _ (s : Store) (id room_id sender_id sender_kind : String) (suffix : Option String)
    (dto : SendMessageDto) (now : ℕ) where
  abbrev sent : Store × Result MessageError Message
  sent = send_message s id room_id sender_id sender_kind suffix dto now

  abbrev message : Message
  message = new_message id room_id sender_id sender_kind suffix dto now

  abbrev in_room : Room → Bool
  in_room r = is_member s.tables room_id sender_id || any (λ w. w.id == sender_id) r.legacy

  sent_ok :
      (r : Room)
      → lookup room_id s.tables.rooms ≡ some r
      → in_room r ≡ true
      → reply_exists dto.reply_to s.messages ≡ true
      → sent ≡ (
        record {
          tables = touch_room s.tables room_id now;
          messages = insert id message s.messages;
        },
        ok message,
      )
  unfolding send_message check_access
  sent_ok r e m there = rw (e, send_message) (rw m (rw there refl))

  sent_astray :
      (r : Room)
      → lookup room_id s.tables.rooms ≡ some r
      → in_room r ≡ true
      → reply_exists dto.reply_to s.messages ≡ false
      → sent ≡ (s, err refused_by_database)
  unfolding send_message check_access
  sent_astray r e m gone = rw (e, send_message) (rw m (rw gone refl))

  sent_missing : lookup room_id s.tables.rooms ≡ none → sent ≡ (s, err room_not_found)
  unfolding send_message check_access
  sent_missing e = rw (e, send_message) refl

  sent_outside :
      (r : Room)
      → lookup room_id s.tables.rooms ≡ some r
      → in_room r ≡ false
      → sent ≡ (s, err not_a_member)
  unfolding send_message check_access
  sent_outside r e m = rw (e, send_message) (rw m refl)

  -- A message is taken exactly from those who are in a room that is there, by a row of members or
  -- by its old column, and, where it is a reply, only to a message that is there; it is refused
  -- for the room exactly if the room is not there.
  pub send_message_access :
      ((sent.1 ≡ ok message) ↔ (
        (r : Room) × (lookup room_id s.tables.rooms ≡ some r)
        × ((is_member s.tables room_id sender_id || any (λ w. w.id == sender_id) r.legacy) ≡ true)
        × (reply_exists dto.reply_to s.messages ≡ true)))
      × ((sent.1 ≡ err room_not_found) ↔ (lookup room_id s.tables.rooms ≡ none))
  send_message_access = elim (Option-cases (lookup room_id s.tables.rooms)) [
    | inl e ↦
        let out = sent_missing e in
        (
          (λ h. absurd (ground (arith, out, h)), λ h. absurd (ground (arith, e, h.1))),
          (λ h. e, λ h. ground (arith, out)),
        )
    | inr (r, e) ↦ elim (Bool-cases (in_room r)) [
      | inl m ↦ elim (Bool-cases (reply_exists dto.reply_to s.messages)) [
        | inl there ↦
            let out = sent_ok r e m there in
            (
              (λ h. (r, e, m, there), λ h. ground (arith, out)),
              (λ h. absurd (ground (arith, out, h)), λ h. absurd (ground (arith, e, h))),
            )
        | inr gone ↦
            let out = sent_astray r e m gone in
            (
              (λ h. absurd (ground (arith, out, h)), λ h. absurd (ground (arith, gone, h.3))),
              (λ h. absurd (ground (arith, out, h)), λ h. absurd (ground (arith, e, h))),
            )
      ]
      | inr m ↦
          let out = sent_outside r e m in
          (
            (λ h. absurd (ground (arith, out, h)), λ h. absurd (ground (arith, e, m, h.1, h.2))),
            (λ h. absurd (ground (arith, out, h)), λ h. absurd (ground (arith, e, h))),
          )
    ]
  ]

  -- A message that is refused changes nothing.
  pub send_message_refused : {e : MessageError} → sent.1 ≡ err e → sent.0 ≡ s
  send_message_refused h = elim (Option-cases (lookup room_id s.tables.rooms)) [
    | inl e ↦ ground (arith, sent_missing e)
    | inr (r, e) ↦ elim (Bool-cases (in_room r)) [
      | inl m ↦ elim (Bool-cases (reply_exists dto.reply_to s.messages)) [
        | inl there ↦ absurd (ground (arith, sent_ok r e m there, h))
        | inr gone ↦ ground (arith, sent_astray r e m gone)
      ]
      | inr m ↦ ground (arith, sent_outside r e m)
    ]
  ]

  -- the room of a message that has been sent
  abbrev pub touched : Option Room → Option Room
  touched none = none
  touched (some r) = some (record r { last_activity_at = some now })

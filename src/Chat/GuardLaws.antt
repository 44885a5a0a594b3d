-- ===== src/Chat/GuardLaws.antt =====
-- Who may change a message.
use swift_chat_backend.Base.{
  ℕ, ◌≡◌, inl, inr, true, false, some, String, arith, ok, find, Option-cases,
}
use swift_chat_backend.Base.Rows.{find_holds}
use swift_chat_backend.Conversations.{is_participant}
use swift_chat_backend.Messages.{
  Message, World, has_id, is_editable, pinned, edit_message, pin_message,
}
use swift_chat_backend.Chat.{chat_edit, chat_pin}

module _ (now a c id : ℕ) (w : World) where
  -- An edit that succeeds was made by a member of the conversation that the request names, on a message
  -- that the account itself sent and had not unsent, and the message has the new content.
  pub chat_edit-own :
      (content : String) (m : Message)
      → (chat_edit now a c id content w).0 ≡ ok m
      → (is_participant a c w.db ≡ true)
        × ((m.id ≡ id)
            × ((m.sender_id ≡ a)
                × ((m.is_unsent ≡ false) × ((m.content ≡ content) × (m.is_edited ≡ true)))))
  unfolding chat_edit edit_message
  chat_edit-own content m done = elim (Option-cases (find (is_editable id a) w.messages)) [
    | inr (x, e) ↦ ground (arith, e, done, find_holds (is_editable id a) w.messages x e)
    | inl e ↦ elim (Option-cases (find (is_editable id a) w.archive)) [
      | inr (x, e') ↦ ground (arith, e, e', done, find_holds (is_editable id a) w.archive x e')
      | inl e' ↦ ground (arith, e, e', done)
    ]
  ]

  -- A member of one conversation pins a recent message by its id alone: the call succeeds whatever
  -- conversation the message is of.
  pub chat_pin-any_conversation :
      (m : Message)
      → is_participant a c w.db ≡ true
      → find (has_id id) w.messages ≡ some m
      → (chat_pin now a c id w).0 ≡ ok (pinned now a m)
  unfolding chat_pin pin_message
  chat_pin-any_conversation m there e = ground (arith, there, e)

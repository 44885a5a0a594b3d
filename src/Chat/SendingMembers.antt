-- ===== src/Chat/SendingMembers.antt =====
-- A message that is sent (`sendMessage`, src/chat/chat.service.ts) leaves the members of every
-- conversation, and hands nothing to the emitter of notifications.
use swift_chat_backend.Base.{
  ℕ, suc, refl, ap, Option-cases, inl, inr, Bool, List, [], ◌∷◌, String, arith, Action, pure, find,
  ◌>>=◌, ◌>>◌, is_some, ◌&&◌,
}
use swift_chat_backend.Base.Rows.{any-update_same}
use swift_chat_backend.Db.{Db, Event, Conversation, ConversationType, direct, group}
use swift_chat_backend.Group.{is_key, in_conversation}
use swift_chat_backend.Notifications
use swift_chat_backend.Conversations.{
  is_participant, is_conversation, update_timestamp, reset_hidden_at, shown,
}
use swift_chat_backend.Messages.{Message, World}
use swift_chat_backend.Messages.Sending.{CreateMessage}
use swift_chat_backend.Messages.Sending
use swift_chat_backend.Chat.{on_db, send_message, notify_mentioned, reset_hidden_if_direct}
use swift_chat_backend.Chat.SendingLaws.{create-db}
use swift_chat_backend.Chat.Membership.{Keeps, KeepsIn, bind-Keeps, KeepsMembers}

-- The parts of `send_message` that write the tables.
update_timestamp-KeepsIn : (a d now c : ℕ) → KeepsIn (is_participant a d) (update_timestamp now c)
unfolding update_timestamp
update_timestamp-KeepsIn a d now c db = ground arith

reset_hidden-KeepsIn :
    (a d c : ℕ) (t : ConversationType) → KeepsIn (is_participant a d) (reset_hidden_if_direct c t)
unfolding reset_hidden_at
reset_hidden-KeepsIn a d c group db = refl
reset_hidden-KeepsIn a d c direct db =
    any-update_same (is_key d a) (λ p. in_conversation c p && is_some p.hidden_at) shown
      db.participants (λ r e. refl)

abbrev events : Db → List Event
events db = db.events

update_timestamp-events : (now c : ℕ) → KeepsIn events (update_timestamp now c)
unfolding update_timestamp
update_timestamp-events now c db = ground arith

reset_hidden-events : (c : ℕ) (t : ConversationType) → KeepsIn events (reset_hidden_if_direct c t)
unfolding reset_hidden_at
reset_hidden-events c group db = refl
reset_hidden-events c direct db = refl

module _ {X : Type 0} (view : Db → X)
    (stamped : (now c : ℕ) → KeepsIn view (update_timestamp now c))
    (shown_again : (c : ℕ) (t : ConversationType) → KeepsIn view (reset_hidden_if_direct c t)) where
  -- No notification of a mention is stored, so none is sent.
  notify_mentioned-KeepsIn :
      (now actor message : ℕ) (ids : ℕ → ℕ) (mentions : List ℕ)
      → KeepsIn view (notify_mentioned now actor message ids mentions)
  unfolding notify_mentioned Notifications.create
  notify_mentioned-KeepsIn now actor message ids [] db = refl
  notify_mentioned-KeepsIn now actor message ids (m ∷ mentions) db =
      notify_mentioned-KeepsIn now actor message (λ k. ids (suc k)) mentions db

  module _ (accepts : String → Bool) (now id : ℕ) (ids : ℕ → ℕ) (a : ℕ) (dto : CreateMessage) where
    abbrev written : Conversation → Message → Action World Message
    written c saved = do
      on_db (update_timestamp now c.id)
      on_db (reset_hidden_if_direct c.id c.type)
      on_db (notify_mentioned now a saved.id ids dto.mentions)
      pure saved

    written-Keeps : (c : Conversation) (saved : Message) → Keeps view (written c saved)
    written-Keeps c saved =
        let stamp = on_db (update_timestamp now c.id) in
        let show = on_db (reset_hidden_if_direct c.id c.type) in
        let notify = on_db (notify_mentioned now a saved.id ids dto.mentions) in
        bind-Keeps view stamp (λ _. show >> (notify >> pure saved)) (λ w. stamped now c.id w.db)
          (λ _.
            bind-Keeps view show (λ _. notify >> pure saved) (λ w. shown_again c.id c.type w.db)
              (λ _.
                bind-Keeps view notify (λ _. pure saved)
                  (λ w. notify_mentioned-KeepsIn now a saved.id ids dto.mentions w.db)
                  (λ _ w. refl)))

    stored-Keeps :
        (c : Conversation) → Keeps view (Sending.create accepts now id a dto >>= written c)
    stored-Keeps c =
        bind-Keeps view (Sending.create accepts now id a dto) (written c)
          (λ w. ap view (create-db accepts now id a dto w)) (written-Keeps c)

    send_message-Keeps : Keeps view (send_message accepts now id ids a dto)
    unfolding send_message
    send_message-Keeps w =
        elim (Option-cases (find (is_conversation dto.conversation_id) w.db.conversations)) [
          | inl e ↦ ground (arith, e)
          | inr (c, e) ↦ ground (arith, e, stored-Keeps c w)
        ]

module _ (accepts : String → Bool) (now id : ℕ) (ids : ℕ → ℕ) (a : ℕ) (dto : CreateMessage) where
  pub send_message-KeepsMembers : KeepsMembers (send_message accepts now id ids a dto)
  send_message-KeepsMembers w b d =
      send_message-Keeps (is_participant b d) (update_timestamp-KeepsIn b d)
        (reset_hidden-KeepsIn b d) accepts now id ids a dto w

  pub send_message-events : Keeps (λ db. db.events) (send_message accepts now id ids a dto)
  send_message-events w =
      send_message-Keeps events update_timestamp-events reset_hidden-events accepts now id ids a dto
        w

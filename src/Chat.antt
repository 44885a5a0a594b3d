-- ===== src/Chat.antt =====
-- src/chat/chat.service.ts: what a client asks for over its socket. The push message that `sendMessage`
-- starts, and does not wait for, follows in Gateway/Handlers (`push_message`).
pub mod Broadcasting
pub mod GuardLaws
pub mod Membership
pub mod Presence
pub mod PresenceLaws
pub mod SendingLaws
pub mod SendingMembers
mod Tests
use swift_chat_backend.Base.{
  ℕ, suc, Bool, true, false, not, ◌&&◌, Option, none, some, List, [], ◌∷◌, String, Action, Result,
  ok, err, pure, raise, raise_if, gets, or_raise, ◌>>=◌, ◌>>◌, ◌==◌, any, find,
}
use swift_chat_backend.Http.{
  Error, ws_exception, conversation_not_found, permission_denied, blocked_by_user,
  message_not_found,
}
use swift_chat_backend.Db.{
  Db, Conversation, Participant, NotificationType, Reference, object_id, ConversationType, direct,
  group,
}
use swift_chat_backend.Block.{is_blocked_either_direction}
use swift_chat_backend.Notifications
use swift_chat_backend.Group.{in_conversation}
use swift_chat_backend.Conversations
use swift_chat_backend.Conversations.{
  is_participant, is_conversation, update_timestamp, reset_hidden_at,
}
use swift_chat_backend.Messages.{
  Message, World, IdText, unsend_message, delete_for_me, edit_message, pin_message, unpin_message,
}
use swift_chat_backend.Messages.Sending.{CreateMessage}
use swift_chat_backend.Messages.Sending
use swift_chat_backend.Messages.Reacting.{toggle_reaction}

-- A call of a service that knows only the tables.
abbrev pub on_db : {A : Type 0} → Action Db A → Action World A
on_db m w = let (r, db) = m w.db in (r, record w { db = db })

-- The other of two in a direct conversation: `participants.find(p => p.accountId !== accountId)`.
abbrev pub is_other_of : (conversation account : ℕ) → Participant → Bool
is_other_of c a p = p.conversation_id == c && not (p.account_id == a)

abbrev pub blocks_with : (account : ℕ) → Option Participant → Db → Bool
blocks_with a none db = false
blocks_with a (some p) db = is_blocked_either_direction a p.account_id db

abbrev pub is_refused : (account conversation : ℕ) → ConversationType → Db → Bool
is_refused a c group db = false
is_refused a c direct db = blocks_with a (find (is_other_of c a) db.participants) db

-- The notification of everyone who is mentioned. `Promise.all` starts them all and throws what the
-- first that fails throws; `ids k` is the id that the database draws for the row number `k`.
unfoldable pub notify_mentioned :
    (now actor message : ℕ) → (ids : ℕ → ℕ) → (mentions : List ℕ) → Action Db (Unit {0})
notify_mentioned now actor message ids [] db = (ok tt, db)
notify_mentioned now actor message ids (m ∷ mentions) db =
    let (r, db') =
      Notifications.create now (ids 0) m actor NotificationType.mention (some (object_id message))
        db in
    let (rest, db'') = notify_mentioned now actor message (λ k. ids (suc k)) mentions db' in
    (elim r [ ok _ ↦ rest | err e ↦ err e ], db'')

abbrev pub reset_hidden_if_direct : (conversation : ℕ) → ConversationType → Action Db (Unit {0})
reset_hidden_if_direct c direct = reset_hidden_at c
reset_hidden_if_direct c group = pure tt

-- `sendMessage`; `id` is the ObjectId of the message.
unfoldable pub send_message :
    (accepts : String → Bool)
    → (now id : ℕ) → (ids : ℕ → ℕ) → (account : ℕ) → CreateMessage
    → Action World Message
send_message accepts now id ids a dto = do
  found ← gets (λ w. find (is_conversation dto.conversation_id) w.db.conversations)
  c ← or_raise found (ws_exception conversation_not_found)
  there ← gets (λ w. is_participant a c.id w.db)
  raise_if (not there) (ws_exception permission_denied)
  refused ← gets (λ w. is_refused a c.id c.type w.db)
  raise_if refused (ws_exception blocked_by_user)
  saved ← Sending.create accepts now id a dto
  on_db (update_timestamp now c.id)
  on_db (reset_hidden_if_direct c.id c.type)
  on_db (notify_mentioned now a saved.id ids dto.mentions)
  pure saved

-- `assertParticipant`
abbrev pub assert_participant : (account conversation : ℕ) → Action World (Unit {0})
assert_participant a c = do
  there ← gets (λ w. is_participant a c w.db)
  raise_if (not there) (ws_exception permission_denied)

-- The conversation of the request is checked, and then the message is looked for by its own id.
abbrev pub guarded :
    (account conversation : ℕ) → Action World (Option Message) → Action World Message
guarded a c change = do
  assert_participant a c
  result ← change
  or_raise result (ws_exception message_not_found)

-- `joinRoom`
unfoldable pub join_room : (account conversation : ℕ) → Action World Bool
join_room a c = do assert_participant a c; pure true

-- `unsendMessage`
unfoldable pub chat_unsend : (now account conversation : ℕ) → IdText → Action World Message
chat_unsend now a c raw = guarded a c (unsend_message now raw a)

-- `deleteForMe`
unfoldable pub chat_delete_for_me : (now account conversation message : ℕ) → Action World Message
chat_delete_for_me now a c id = guarded a c (delete_for_me now id a)

-- `editMessage`
unfoldable pub chat_edit : (now account conversation message : ℕ) → String → Action World Message
chat_edit now a c id content = guarded a c (edit_message now id a content)

-- `markRead`
unfoldable pub mark_read : (account conversation message : ℕ) → Action World (Unit {0})
mark_read a c message = on_db (Conversations.mark_as_read a c message)

-- `reactMessage`
unfoldable pub react_message : (now account conversation message emoji : ℕ) → Action World Message
react_message now a c id emoji = guarded a c (toggle_reaction now id a emoji)

-- `pinMessage`
unfoldable pub chat_pin : (now account conversation message : ℕ) → Action World Message
chat_pin now a c id = guarded a c (pin_message now id a)

-- `unpinMessage`
unfoldable pub chat_unpin : (now account conversation message : ℕ) → Action World Message
chat_unpin now a c id = guarded a c (unpin_message now id)

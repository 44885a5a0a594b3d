-- ===== src/Gateway/Handlers.antt =====
-- The handlers of the messages of a socket (src/chat/chat.gateway.ts). Outside the repository are
-- `accepts` (Mongoose), and `ready` and `respond` (Firebase).
use swift_chat_backend.Base.{
  ℕ, Bool, Option, none, List, [], ◌∷◌, ◌++◌, String, Action, pure, modify, ◌>>=◌, ◌>>◌,
}
use swift_chat_backend.Messages.{IdText}
use swift_chat_backend.Messages.Sending.{CreateMessage}
use swift_chat_backend.Chat.{
  send_message, join_room, chat_unsend, chat_delete_for_me, chat_edit, mark_read, react_message,
  chat_pin, chat_unpin,
}
use swift_chat_backend.Chat.Presence.{is_online}
use swift_chat_backend.Conversations.Pages.{get_user_conversations}
use swift_chat_backend.Conversations.Listing.{ListItem}
use swift_chat_backend.Push.{PushResponse, send_push_to_offline_participants}
use swift_chat_backend.Gateway.{
  Hub, Socket, conversation_room, socket_join, socket_leave, emit_to, emit_to_others, emit_back,
  on_world, user_typing, user_stop_typing, receive_message, message_unsent, message_deleted_for_me,
  message_edited, read_receipt, reaction_updated, message_pinned, message_unpinned,
}

-- `handleJoinRoom`
unfoldable pub handle_join_room : (conversation : ℕ) → Socket → Action Hub (Unit {0})
handle_join_room c s = do
  _ ← on_world (join_room s.account_id c)
  socket_join s (conversation_room c)

-- `MAX_CONVERSATIONS_TO_REJOIN`
abbrev pub max_conversations_to_rejoin : ℕ
max_conversations_to_rejoin = 200

abbrev pub join_all : Socket → List ListItem → Action Hub (Unit {0})
join_all s [] = pure tt
join_all s (c ∷ rows) = socket_join s (conversation_room c.id) >> join_all s rows

-- `handleRejoinRooms`
unfoldable pub handle_rejoin_rooms : (now : ℕ) → Socket → Action Hub (Unit {0})
handle_rejoin_rooms now s = do
  page ← (λ h.
      on_world
        (get_user_conversations (λ a. is_online now (h.presences a)) now s.account_id
          max_conversations_to_rejoin none none)
        h)
  join_all s page.items

-- `handleLeaveRoom`
unfoldable pub handle_leave_room : (conversation : ℕ) → Socket → Action Hub (Unit {0})
handle_leave_room c s = socket_leave s (conversation_room c)

-- `handleTyping`
unfoldable pub handle_typing : (conversation : ℕ) → Socket → Action Hub (Unit {0})
handle_typing c s = emit_to_others s (conversation_room c) (user_typing c s.account_id)

-- `handleStopTyping`
unfoldable pub handle_stop_typing : (conversation : ℕ) → Socket → Action Hub (Unit {0})
handle_stop_typing c s = emit_to_others s (conversation_room c) (user_stop_typing c s.account_id)

-- The push that `sendMessage` starts at its end, which is not waited for.
abbrev pub push_message :
    (ready : Bool)
    → (respond : ℕ → List ℕ → Option (List PushResponse)) → (now conversation sender : ℕ)
    → Action Hub (Unit {0})
push_message ready respond now c sender = modify (λ h.
    let (tokens, db) =
      send_push_to_offline_participants ready respond (λ a. is_online now (h.presences a)) now c
        sender h.world.db in
    record h { world = record h.world { db = db }; pushes = tokens ++ h.pushes })

-- `handleSendMessage`
unfoldable pub handle_send_message :
    (accepts : String → Bool)
    → (ready : Bool) → (respond : ℕ → List ℕ → Option (List PushResponse)) → (now id : ℕ)
    → (ids : ℕ → ℕ) → CreateMessage
    → Socket
    → Action Hub (Unit {0})
handle_send_message accepts ready respond now id ids dto s = do
  saved ← on_world (send_message accepts now id ids s.account_id dto)
  push_message ready respond now dto.conversation_id s.account_id
  emit_to (conversation_room dto.conversation_id) (receive_message saved)

-- `handleUnsendMessage`
unfoldable pub handle_unsend_message :
    (now conversation : ℕ) → IdText → Socket → Action Hub (Unit {0})
handle_unsend_message now c raw s = do
  _ ← on_world (chat_unsend now s.account_id c raw)
  emit_to (conversation_room c) (message_unsent c raw.id s.account_id)

-- `handleDeleteForMe`
unfoldable pub handle_delete_for_me :
    (now conversation message : ℕ) → Socket → Action Hub (Unit {0})
handle_delete_for_me now c id s = do
  _ ← on_world (chat_delete_for_me now s.account_id c id)
  emit_back s (message_deleted_for_me c id)

-- `handleEditMessage`
unfoldable pub handle_edit_message :
    (now conversation message : ℕ) → String → Socket → Action Hub (Unit {0})
handle_edit_message now c id content s = do
  _ ← on_world (chat_edit now s.account_id c id content)
  emit_to (conversation_room c) (message_edited c id content s.account_id)

-- `handleMarkRead`
unfoldable pub handle_mark_read : (conversation message : ℕ) → Socket → Action Hub (Unit {0})
handle_mark_read c id s = do
  on_world (mark_read s.account_id c id)
  emit_to_others s (conversation_room c) (read_receipt c s.account_id id)

-- `handleReactMessage`
unfoldable pub handle_react_message :
    (now conversation message emoji : ℕ) → Socket → Action Hub (Unit {0})
handle_react_message now c id emoji s = do
  message ← on_world (react_message now s.account_id c id emoji)
  emit_to (conversation_room c) (reaction_updated c id message.reactions)

-- `handlePinMessage`
unfoldable pub handle_pin_message : (now conversation message : ℕ) → Socket → Action Hub (Unit {0})
handle_pin_message now c id s = do
  _ ← on_world (chat_pin now s.account_id c id)
  emit_to (conversation_room c) (message_pinned c id s.account_id)

-- `handleUnpinMessage`
unfoldable pub handle_unpin_message :
    (now conversation message : ℕ) → Socket → Action Hub (Unit {0})
handle_unpin_message now c id s = do
  _ ← on_world (chat_unpin now s.account_id c id)
  emit_to (conversation_room c) (message_unpinned c id)

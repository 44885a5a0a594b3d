-- ===== src/Gateway/RoomLaws.antt =====
-- Who hears a message (src/chat/chat.gateway.ts, src/conversations/group-member.service.ts).
use swift_chat_backend.Base.{
  ℕ, ◌≡◌, ap, ◌∙◌, inl, inr, Bool, true, false, ◌&&◌, List, [], ◌∷◌, ◌++◌, map, arith, ok,
  Value-cases, ◌==◌, any, select,
}
use swift_chat_backend.Base.Rows.{any-append, any-remove_covered}
use swift_chat_backend.Messages.{Message}
use swift_chat_backend.Messages.Sending.{CreateMessage}
use swift_chat_backend.Group.{is_key, delete_participant, ensure_group_conversation}
use swift_chat_backend.Group.Members.{kick_member}
use swift_chat_backend.Conversations.{is_participant}
use swift_chat_backend.Chat.{send_message}
use swift_chat_backend.Gateway.{
  Hub, Socket, Joined, Delivery, SocketEvent, Room, conversation_room, is_joined, is_in, to_socket,
  receive_message, user_typing, user_stop_typing, message_unsent, message_deleted_for_me,
  message_edited, read_receipt, reaction_updated, message_pinned, message_unpinned, presence_status,
}
use swift_chat_backend.Gateway.Handlers.{handle_send_message}
use swift_chat_backend.Gateway.Requests.{Outside, handle_request, sending}

abbrev pub is_receive : SocketEvent → Bool
is_receive (receive_message m) = true
is_receive (user_typing _ _) = false
is_receive (user_stop_typing _ _) = false
is_receive (message_unsent _ _ _) = false
is_receive (message_deleted_for_me _ _) = false
is_receive (message_edited _ _ _ _) = false
is_receive (read_receipt _ _ _) = false
is_receive (reaction_updated _ _ _) = false
is_receive (message_pinned _ _ _) = false
is_receive (message_unpinned _ _) = false
is_receive (presence_status _ _) = false

abbrev pub hears : (socket : ℕ) → Delivery → Bool
hears s d = d.socket == s && is_receive d.event

any-delivered :
    (s : ℕ) (room : Room) (m : Message) (rows : List Joined)
    → any (is_joined s room) rows ≡ true
    → any (hears s) (map (to_socket (receive_message m)) (select (is_in room) rows)) ≡ true
any-delivered s room m [] e = cc
any-delivered s room m (j ∷ rows) e = ground (arith, e, any-delivered s room m rows)

-- The hub after a member was removed over the API.
abbrev pub kicked : (actor conversation target : ℕ) → Hub → Hub
kicked actor c target h = record h {
  world = record h.world { db = (kick_member actor c target h.world.db).1 };
}

kick_member-gone :
    (actor c target : ℕ) (h : Hub)
    → (kick_member actor c target h.world.db).0 ≡ ok tt
    → is_participant target c (kicked actor c target h).world.db ≡ false
unfolding kick_member delete_participant ensure_group_conversation
kick_member-gone actor c target h done = ground (
  arith,
  done,
  any-remove_covered (is_key c target) (is_key c target) h.world.db.participants (λ r e. e),
)

sent-heard :
    (s : ℕ) (room : Room) (m : Message) (h : Hub)
    → any (is_joined s room) h.joined ≡ true
    → any
        (hears s)
        (map (to_socket (receive_message m)) (select (is_in room) h.joined) ++ h.deliveries)
      ≡ true
sent-heard s room m h e = ground (
  arith,
  any-append (hears s) (map (to_socket (receive_message m)) (select (is_in room) h.joined))
      h.deliveries,
  any-delivered s room m h.joined e,
)

-- What a message that is sent adds to the deliveries.
sent-deliveries :
    (o : Outside) (now id : ℕ) (ids : ℕ → ℕ) (dto : CreateMessage) (s : Socket) (h : Hub)
    (m : Message)
    → (send_message o.accepts now id ids s.account_id dto h.world).0 ≡ ok m
    → (handle_request o now (sending id ids dto) s h).1.deliveries
      ≡ map
          (to_socket (receive_message m))
          (select (is_in (conversation_room dto.conversation_id)) h.joined)
        ++ h.deliveries
unfolding handle_request handle_send_message
sent-deliveries o now id ids dto s h m e = ground (arith, e)

-- A member who was removed from a group still hears it: his socket stays in the room of the conversation,
-- and a message that is sent after the removal is delivered to it, though he is no participant any more.
pub kicked-hears :
    (o : Outside) (now id actor target : ℕ) (ids : ℕ → ℕ) (dto : CreateMessage)
    (listener sender : Socket) (h : Hub)
    → any (is_joined listener.id (conversation_room dto.conversation_id)) h.joined ≡ true
    → (kick_member actor dto.conversation_id target h.world.db).0 ≡ ok tt
    → let h' = kicked actor dto.conversation_id target h in
      (handle_request o now (sending id ids dto) sender h').0 ≡ ok tt
      → (is_participant target dto.conversation_id h'.world.db ≡ false)
        × (any
              (hears listener.id)
              (handle_request o now (sending id ids dto) sender h').1.deliveries
            ≡ true)
unfolding handle_request handle_send_message
kicked-hears o now id actor target ids dto listener sender h there gone sent = (
  kick_member-gone actor dto.conversation_id target h gone,
  elim (Value-cases
      (send_message o.accepts now id ids sender.account_id dto
        (kicked actor dto.conversation_id target h).world).0) [
          | inl (m, e) ↦
              ap (any (hears listener.id)) (
                sent-deliveries o now id ids dto sender (kicked actor dto.conversation_id target h)
                  m e)
              ∙ sent-heard listener.id (conversation_room dto.conversation_id) m h there
          | inr (x, e) ↦ ground (arith, sent, e)
        ],
)

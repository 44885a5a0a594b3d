-- ===== src/Gateway.antt =====
-- `ChatGateway` (src/chat/chat.gateway.ts): the sockets, the rooms that they are in, and what is sent to
-- them (src/common/socket-emitter/socket-emitter.service.ts).
pub mod Connecting
pub mod Handlers
pub mod Membership
pub mod Requests
pub mod Quiet
pub mod RoomLaws
mod Tests
use swift_chat_backend.Base.{
  ℕ, Bool, true, false, not, ◌&&◌, Option, none, some, List, [], ◌∷◌, ◌++◌, map, String, Action,
  modify, ◌==◌, if◌then◌else◌, any, select, remove,
}
use swift_chat_backend.Messages.{Message, Reaction, World}
use swift_chat_backend.Chat.Presence.{Presence, PresenceStatus}

-- A socket with what the middleware keeps in its `data`.
pub record Socket : Type 0 where
  pub id : ℕ
  pub account_id : ℕ

pub data Room : Type 0 where
  account_room conversation_room : ℕ → Room

abbrev pub is_same_room : Room → Room → Bool
is_same_room (account_room a) (account_room b) = a == b
is_same_room (account_room a) (conversation_room b) = false
is_same_room (conversation_room a) (account_room b) = false
is_same_room (conversation_room a) (conversation_room b) = a == b

pub record Joined : Type 0 where
  pub socket : Socket
  pub room : Room

-- The events, without the times in them.
pub data SocketEvent : Type 0 where
  user_typing user_stop_typing : (conversation account : ℕ) → SocketEvent
  receive_message : Message → SocketEvent
  message_unsent : (conversation message unsent_by : ℕ) → SocketEvent
  message_deleted_for_me : (conversation message : ℕ) → SocketEvent
  message_edited : (conversation message : ℕ) → String → (edited_by : ℕ) → SocketEvent
  read_receipt : (conversation account message : ℕ) → SocketEvent
  reaction_updated : (conversation message : ℕ) → List Reaction → SocketEvent
  message_pinned : (conversation message pinned_by : ℕ) → SocketEvent
  message_unpinned : (conversation message : ℕ) → SocketEvent
  presence_status : (account : ℕ) → PresenceStatus → SocketEvent

pub record Delivery : Type 0 where
  pub socket : ℕ
  pub event : SocketEvent

pub record Hub : Type 0 where
  pub world : World
  -- of each account
  pub presences : ℕ → Presence
  pub joined : List Joined
  -- newest first
  pub deliveries : List Delivery
  -- the tokens that Firebase was handed, newest first
  pub pushes : List ℕ

abbrev pub is_in : Room → Joined → Bool
is_in room j = is_same_room j.room room

abbrev pub is_joined : (socket : ℕ) → Room → Joined → Bool
is_joined s room j = j.socket.id == s && is_in room j

-- `client.join`
abbrev pub socket_join : Socket → Room → Action Hub (Unit {0})
socket_join s room = modify (λ h.
    if any (is_joined s.id room) h.joined
    then h
    else record h { joined = record { socket = s; room = room } ∷ h.joined })

-- `client.leave`
abbrev pub socket_leave : Socket → Room → Action Hub (Unit {0})
socket_leave s room = modify (λ h. record h { joined = remove (is_joined s.id room) h.joined })

abbrev pub to_socket : SocketEvent → Joined → Delivery
to_socket event j = record { socket = j.socket.id; event = event }

-- `server.to(room).emit`
abbrev pub emit_to : Room → SocketEvent → Action Hub (Unit {0})
emit_to room event = modify (λ h. record h {
  deliveries = map (to_socket event) (select (is_in room) h.joined) ++ h.deliveries;
})

-- `client.to(room).emit`: to all but the caller.
abbrev pub emit_to_others : Socket → Room → SocketEvent → Action Hub (Unit {0})
emit_to_others s room event = modify (λ h. record h {
  deliveries =
      map (to_socket event) (select (λ j. is_in room j && not (j.socket.id == s.id)) h.joined)
      ++ h.deliveries;
})

-- `client.emit`
abbrev pub emit_back : Socket → SocketEvent → Action Hub (Unit {0})
emit_back s event =
    modify (λ h. record h { deliveries = record { socket = s.id; event = event } ∷ h.deliveries })

-- A call of a service that knows only the databases.
abbrev pub on_world : {A : Type 0} → Action World A → Action Hub A
on_world m h = let (r, w) = m h.world in (r, record h { world = w })

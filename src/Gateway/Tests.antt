-- ===== src/Gateway/Tests.antt =====
-- Examples for the properties of the gateway.
use swift_chat_backend.Base.{ℕ, ◌≡◌, refl, true, false, none, [], ◌∷◌, ok, err, any}
use swift_chat_backend.Http.{ws_exception, permission_denied}
use swift_chat_backend.Samples.{chats}
use swift_chat_backend.Samples.Mail.{accepts_text}
use swift_chat_backend.Group.{delete_participant, ensure_group_conversation}
use swift_chat_backend.Group.Members.{kick_member}
use swift_chat_backend.Conversations.{is_participant, update_timestamp, reset_hidden_at}
use swift_chat_backend.Messages.Sending.{CreateMessage, create}
use swift_chat_backend.Chat.{send_message, join_room, notify_mentioned}
use swift_chat_backend.Gateway.{Hub, Socket, Joined, conversation_room}
use swift_chat_backend.Gateway.Handlers.{handle_join_room, handle_send_message}
use swift_chat_backend.Gateway.Membership.{AreMembers, handle_request-AreMembers}
use swift_chat_backend.Gateway.Quiet.{IsQuiet, handle_request-IsQuiet}
use swift_chat_backend.Gateway.Requests.{Outside, handle_request, joining, sending}
use swift_chat_backend.Gateway.RoomLaws.{hears, kicked, kicked-hears}

abbrev socket_of : ℕ → Socket
socket_of a = record { id = a; account_id = a }

abbrev in_room : ℕ → Joined
in_room a = record { socket = socket_of a; room = conversation_room 7 }

-- 1 and 3 have the group 7 open.
abbrev hub : Hub
hub = record {
  world = record { db = chats; messages = []; archive = [] };
  presences = λ a. record { conn_count = none; presence = none };
  joined = in_room 1 ∷ in_room 3 ∷ [];
  deliveries = [];
  pushes = [];
}

abbrev outside : Outside
outside = record { accepts = accepts_text; ready = false; respond = λ a tokens. none }

abbrev hello : CreateMessage
hello = record {
  conversation_id = 7;
  content = "hello";
  type = none;
  reply_to_message_id = none;
  attachments = [];
  mentions = [];
  forward_from_message_id = none;
}

refused :
    (handle_request outside 50 (joining 8) (socket_of 3) hub).0
    ≡ err (ws_exception permission_denied)
unfolding handle_request handle_join_room join_room
refused = refl

handle_request-IsQuiet_example :
    IsQuiet hub (handle_request outside 50 (joining 8) (socket_of 3) hub).1
handle_request-IsQuiet_example =
    handle_request-IsQuiet outside 50 (joining 8) (socket_of 3) hub (ws_exception permission_denied)
      refused

handle_request-AreMembers_example :
    AreMembers (handle_request outside 50 (joining 8) (socket_of 2) hub).1
handle_request-AreMembers_example =
    handle_request-AreMembers outside 50 (joining 8) (socket_of 2) hub (refl, (refl, tt))

removed : (kick_member 1 7 3 chats).0 ≡ ok tt
unfolding kick_member delete_participant ensure_group_conversation
removed = refl

sent :
    (handle_request outside 50 (sending 100 (λ k. k) hello) (socket_of 1) (kicked 1 7 3 hub)).0
    ≡ ok tt
unfolding handle_request handle_send_message send_message create update_timestamp reset_hidden_at
    notify_mentioned kick_member delete_participant ensure_group_conversation
sent = refl

kicked-hears_example :
    (is_participant 3 7 (kicked 1 7 3 hub).world.db ≡ false)
    × (any
          (hears 3)
          (handle_request outside 50
            (sending 100 (λ k. k) hello)
            (socket_of 1)
            (kicked 1 7 3 hub)).1.deliveries
        ≡ true)
kicked-hears_example =
    kicked-hears outside 50 100 1 3 (λ k. k) hello (socket_of 3) (socket_of 1) hub refl removed sent

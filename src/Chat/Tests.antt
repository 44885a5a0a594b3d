-- ===== src/Chat/Tests.antt =====
-- Examples for the properties of the chat.
use swift_chat_backend.Base.{
  ℕ, ◌≡◌, refl, ◌+◌, true, false, not, Option, none, some, List, [], ◌∷◌, ◌++◌, map, arith, ok, err,
  select, ◌==◌, leb, if◌then◌else◌,
}
use swift_chat_backend.Http.{Error, PrismaCode}
use swift_chat_backend.Db.{ConversationType, ParticipantRole}
use swift_chat_backend.Block.{is_blocked_either_direction}
use swift_chat_backend.Friends.Listing.{involves, other_end}
use swift_chat_backend.Conversations.{is_participant, update_timestamp, reset_hidden_at}
use swift_chat_backend.Samples.{chats, conversation, participant}
use swift_chat_backend.Samples.Mail.{message, accepts_text}
use swift_chat_backend.Messages.{Message, World, edited}
use swift_chat_backend.Messages.Sending.{CreateMessage, create}
use swift_chat_backend.Chat.{send_message, notify_mentioned}
use swift_chat_backend.Chat.Presence.{
  Presence, online, offline, on_client_connected, on_client_disconnected, is_online,
  presence_targets, shares,
}
use swift_chat_backend.Chat.PresenceLaws.{start, connect, presence-Sockets}
use swift_chat_backend.Chat.Broadcasting.{presence_targets-all}
use swift_chat_backend.Chat.SendingLaws.{send_message-unblocked, send_message-mention}

abbrev world : World
world = record { db = chats; messages = message 100 7 1 "tea?" ∷ []; archive = [] }

abbrev text_to : (conversation : ℕ) → List ℕ → Option ℕ → CreateMessage
text_to c mentions reply = record {
  conversation_id = c;
  content = "hello";
  type = none;
  reply_to_message_id = reply;
  attachments = [];
  mentions = mentions;
  forward_from_message_id = none;
}

sends :
    (send_message accepts_text 60 101 (λ k. k) 1 (text_to 8 [] none) world).0
    ≡ ok (record (message 101 8 1 "hello") { created_at = 60; updated_at = 60 })
unfolding send_message create update_timestamp reset_hidden_at notify_mentioned
sends = refl

send_message-unblocked_example :
    (is_participant 1 8 chats ≡ true) × (is_blocked_either_direction 1 2 chats ≡ false)
send_message-unblocked_example =
    send_message-unblocked accepts_text 60 101 (λ k. k) 1 (text_to 8 [] none) world
      (record (message 101 8 1 "hello") { created_at = 60; updated_at = 60 })
      (conversation 8 ConversationType.direct) (participant 8 2 ParticipantRole.member) sends refl
      refl refl

created :
    (create accepts_text 60 101 1 (text_to 7 (2 ∷ []) none) world).0
    ≡ ok (record (message 101 7 1 "hello") { mentions = 2 ∷ []; created_at = 60; updated_at = 60 })
unfolding create
created = refl

send_message-mention_example :
    let r = send_message accepts_text 60 101 (λ k. 80 + k) 1 (text_to 7 (2 ∷ []) none) world in
    (r.0 ≡ err (Error.prisma PrismaCode.inconsistent_column))
    × (r.1.messages ≡ (create accepts_text 60 101 1 (text_to 7 (2 ∷ []) none) world).1.messages)
send_message-mention_example =
    send_message-mention accepts_text 60 101 (λ k. 80 + k) 1 (text_to 7 (2 ∷ []) none) world
      (record (message 101 7 1 "hello") { mentions = 2 ∷ []; created_at = 60; updated_at = 60 })
      (conversation 7 ConversationType.group) 2 [] refl refl refl created refl

abbrev unsent_message : Message
unsent_message = record (message 100 7 1 "tea?") { is_unsent = true }

abbrev edited_message : Message
edited_message = edited 60 "coffee?" (message 100 7 1 "tea?")

abbrev presence : Presence
presence = (on_client_connected 50 (record { conn_count = none; presence = none })).1

presence-Sockets_example :
    (is_online 60 presence ≡ not (1 == 0))
    × (((on_client_connected 60 presence).0 ≡ (if 1 == 0 then some online else none))
        × ((on_client_disconnected 60 presence).0 ≡ (if leb 1 1 then some offline else none)))
presence-Sockets_example =
    presence-Sockets 1 50 60 presence
      (connect 0 0 50 (record { conn_count = none; presence = none }) (start 0) (omega arith))
      (omega arith)

presence_targets-all_example :
    presence_targets 1 chats
    ≡ some (
        map (other_end 1) (select (involves 1) chats.friends)
        ++ map (λ p. p.account_id) (select (shares 1 chats) chats.participants))
presence_targets-all_example = presence_targets-all 1 chats

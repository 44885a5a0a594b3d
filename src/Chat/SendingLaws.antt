-- ===== src/Chat/SendingLaws.antt =====
-- What `ChatService.sendMessage` and `MessagesService.create` refuse, and what a failed call leaves.
use swift_chat_backend.Base.{
  ℕ, ◌≡◌, refl, inl, inr, Bool, true, false, Option, none, some, List, ◌∷◌, String, arith, ok, err,
  find, Option-cases, Bool-cases, ==_refl,
}
use swift_chat_backend.Base.Rows.{find_holds, find-any}
use swift_chat_backend.Http.{Error, PrismaCode, plain, validation_failed}
use swift_chat_backend.Db.{Conversation, direct, Participant}
use swift_chat_backend.Block.{is_blocked_either_direction}
use swift_chat_backend.Notifications
use swift_chat_backend.Conversations.{
  is_participant, is_conversation, update_timestamp, reset_hidden_at,
}
use swift_chat_backend.Messages.{Message, World, has_id, is_deleted_by}
use swift_chat_backend.Messages.Sending.{CreateMessage, create, reply_target, forward_source}
use swift_chat_backend.Chat.{is_other_of, is_refused, notify_mentioned, send_message}

reply_target-world : (sender c : ℕ) (o : Option ℕ) (w : World) → (reply_target sender c o w).1 ≡ w
reply_target-world sender c none w = refl
reply_target-world sender c (some id) w = elim (Option-cases (find (has_id id) w.messages)) [
  | inl e ↦ rw e
  | inr (m, e) ↦ ground (arith, e)
]

forward_source-world :
    (content : String) (o : Option ℕ) (w : World) → (forward_source content o w).1 ≡ w
forward_source-world content none w = refl
forward_source-world content (some id) w = elim (Option-cases (find (has_id id) w.messages)) [
  | inr (m, e) ↦ ground (arith, e)
  | inl e ↦ elim (Option-cases (find (has_id id) w.archive)) [
    | inr (m, e') ↦ ground (arith, e, e')
    | inl e' ↦ ground (arith, e, e')
  ]
]

-- The tables are only read by `create`.
pub create-db :
    (accepts : String → Bool) (now id sender : ℕ) (dto : CreateMessage) (w : World)
    → (create accepts now id sender dto w).1.db ≡ w.db
unfolding create
create-db accepts now id sender dto w = ground (
  arith,
  reply_target-world sender dto.conversation_id dto.reply_to_message_id w,
  forward_source-world dto.content dto.forward_from_message_id w,
)

module _ (accepts : String → Bool) (now id : ℕ) (ids : ℕ → ℕ) (a : ℕ) (dto : CreateMessage)
    (w : World) where
  -- A message of a direct conversation is sent only where neither of the two blocks the other.
  pub send_message-unblocked :
      (m : Message) (c : Conversation) (p : Participant)
      → (send_message accepts now id ids a dto w).0 ≡ ok m
      → find (is_conversation dto.conversation_id) w.db.conversations ≡ some c
      → c.type ≡ direct
      → find (is_other_of c.id a) w.db.participants ≡ some p
      → (is_participant a c.id w.db ≡ true)
        × (is_blocked_either_direction a p.account_id w.db ≡ false)
  unfolding send_message
  send_message-unblocked m c p done found type other =
      let blocked = is_blocked_either_direction a p.account_id w.db in
      elim (Bool-cases (is_participant a c.id w.db)) [
        | inr out ↦ ground (arith, found, out, done)
        | inl there ↦ elim (Bool-cases blocked) [
          | inl y ↦ ground (arith, found, there, type, other, y, done)
          | inr n ↦ (there, n)
        ]
      ]

  -- A message with a mention is stored and then the call throws: the id of a message is an ObjectId,
  -- which the column of the notification's reference, a UUID, cannot hold. This is so for every member of
  -- the conversation whose message `create` accepts, where nobody blocks.
  pub send_message-mention :
      (m : Message) (c : Conversation) (b : ℕ) (mentions : List ℕ)
      → find (is_conversation dto.conversation_id) w.db.conversations ≡ some c
      → is_participant a c.id w.db ≡ true
      → is_refused a c.id c.type w.db ≡ false
      → (create accepts now id a dto w).0 ≡ ok m
      → dto.mentions ≡ b ∷ mentions
      → let r = send_message accepts now id ids a dto w in
        (r.0 ≡ err (Error.prisma PrismaCode.inconsistent_column))
        × (r.1.messages ≡ (create accepts now id a dto w).1.messages)
  unfolding send_message update_timestamp reset_hidden_at notify_mentioned Notifications.create
  send_message-mention m c b mentions found there free saved mention = ground (
    arith,
    found,
    there,
    free,
    saved,
    mention,
    create-db accepts now id a dto w,
    find-any (is_conversation dto.conversation_id) w.db.conversations c found,
    find_holds (is_conversation dto.conversation_id) w.db.conversations c found,
  )

-- Where a required text must not be empty, as Mongoose has it, an answer to a message of the same
-- conversation that is unsent is refused with an error of the schema, and nothing is stored.
pub create-reply_unsent :
    (accepts : String → Bool) (now id sender k : ℕ) (dto : CreateMessage) (w : World) (m : Message)
    → accepts "" ≡ false
    → dto.reply_to_message_id ≡ some k
    → dto.forward_from_message_id ≡ none
    → find (has_id k) w.messages ≡ some m
    → m.conversation_id ≡ dto.conversation_id
    → m.is_unsent ≡ true
    → is_deleted_by sender m ≡ false
    → create accepts now id sender dto w ≡ (err (plain validation_failed), w)
unfolding create
create-reply_unsent accepts now id sender k dto w m strict reply forward found same unsent kept =
    ground (arith, strict, reply, forward, found, same, unsent, kept, ==_refl dto.conversation_id)

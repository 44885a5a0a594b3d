-- ===== src/Messages/Sending.antt =====
-- `MessagesService.create`. Mongoose, which is not part of the repository, checks the paths that the
-- schema calls required: `accepts` says of a text whether it passes for a required one.
use swift_chat_backend.Base.{
  ℕ, Bool, true, false, not, ◌&&◌, Option, none, some, List, [], ◌∷◌, String, Action, pure, raise,
  raise_if, ◌>>=◌, ◌>>◌, ◌==◌, if◌then◌else◌,
}
use swift_chat_backend.Http.{bad_request, reply_deleted, cannot_forward, validation_failed, plain}
use swift_chat_backend.Messages.{
  Message, MessageType, text, ReplyTarget, ForwardedFrom, World, hot, has_id, is_deleted_by,
  find_one, find_in_both,
}

-- `CreateMessageDto`, without the client's own id. The texts and lists that are left out are empty.
pub record CreateMessage : Type 0 where
  pub conversation_id : ℕ
  pub content : String
  pub type : Option MessageType
  pub reply_to_message_id : Option ℕ
  pub attachments : List String
  pub mentions : List ℕ
  pub forward_from_message_id : Option ℕ

abbrev pub snapshot : Message → ReplyTarget
snapshot m = record {
  message_id = m.id;
  sender_id = m.sender_id;
  content = if m.is_unsent then "" else m.content;
  type = m.type;
}

-- The message that is replied to counts only when it is of the same conversation.
abbrev reply_target_of :
    (sender conversation : ℕ) → Option Message → Action World (Option ReplyTarget)
reply_target_of sender c none = pure none
reply_target_of sender c (some m) = do
  raise_if (m.conversation_id == c && is_deleted_by sender m) (bad_request reply_deleted)
  pure (if m.conversation_id == c then some (snapshot m) else none)

abbrev pub reply_target : (sender conversation : ℕ) → Option ℕ → Action World (Option ReplyTarget)
reply_target sender c none = pure none
reply_target sender c (some id) = do
  original ← find_one hot (has_id id)
  reply_target_of sender c original

-- What a message is forwarded from, and the content.
abbrev forward_of : Option Message → Action World (Option ForwardedFrom × String)
forward_of none = raise (bad_request cannot_forward)
forward_of (some m) = do
  raise_if m.is_unsent (bad_request cannot_forward)
  pure (some (record { message_id = m.id; sender_id = m.sender_id }), m.content)

abbrev pub forward_source : String → Option ℕ → Action World (Option ForwardedFrom × String)
forward_source content none = pure (none, content)
forward_source content (some id) = do original ← find_in_both (has_id id); forward_of original

-- `dto.type || MessageType.TEXT`
abbrev pub type_or_text : Option MessageType → MessageType
type_or_text none = text
type_or_text (some t) = t

abbrev pub is_valid_reply : (accepts : String → Bool) → Option ReplyTarget → Bool
is_valid_reply accepts none = true
is_valid_reply accepts (some r) = accepts r.content

-- `save`: a document that breaks the schema is refused.
abbrev save : (accepts : String → Bool) → Message → Action World Message
save accepts m = do
  raise_if (not (is_valid_reply accepts m.reply_to)) (plain validation_failed)
  (λ w. pure m (record w { messages = m ∷ w.messages }))

-- `create`; `id` is the ObjectId that the document gets.
unfoldable pub create :
    (accepts : String → Bool) → (now id sender : ℕ) → CreateMessage → Action World Message
create accepts now id sender dto = do
  reply_to ← reply_target sender dto.conversation_id dto.reply_to_message_id
  (forwarded_from, content) ← forward_source dto.content dto.forward_from_message_id
  save accepts (record {
    id = id;
    conversation_id = dto.conversation_id;
    sender_id = sender;
    content = content;
    type = type_or_text dto.type;
    attachments = dto.attachments;
    reactions = [];
    reply_to = reply_to;
    is_deleted = false;
    is_unsent = false;
    deleted_by = [];
    is_edited = false;
    deleted_at = none;
    is_pinned = false;
    pinned_by = none;
    pinned_at = none;
    mentions = dto.mentions;
    forwarded_from = forwarded_from;
    created_at = now;
    updated_at = now;
  })

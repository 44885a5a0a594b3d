-- ===== src/Samples/Mail.antt =====
-- Messages for the examples.
use swift_chat_backend.Base.{ℕ, Bool, true, false, none, some, [], String}
use swift_chat_backend.Messages.{Message, text}

-- The check of Mongoose for a required text: it has a character.
abbrev pub accepts_text : String → Bool
accepts_text String.[] = false
accepts_text (String.◌∷◌ c s) = true

abbrev pub message : (id conversation sender : ℕ) → String → Message
message id c sender content = record {
  id = id;
  conversation_id = c;
  sender_id = sender;
  content = content;
  type = text;
  attachments = [];
  reactions = [];
  reply_to = none;
  is_deleted = false;
  is_unsent = false;
  deleted_by = [];
  is_edited = false;
  deleted_at = none;
  is_pinned = false;
  pinned_by = none;
  pinned_at = none;
  mentions = [];
  forwarded_from = none;
  created_at = 0;
  updated_at = 0;
}

abbrev pub reply_to : (id : ℕ) → Message → Message
reply_to id m = record m {
  reply_to = some (record { message_id = id; sender_id = 1; content = "tea?"; type = text });
}

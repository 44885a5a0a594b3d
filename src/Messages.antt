-- ===== src/Messages.antt =====
-- src/messages/messages.service.ts and src/messages/schemas/message.schema.ts: the two collections of
-- messages, the recent ones ("hot") and the archive, and the changes of one message. A message id is
-- a MongoDB ObjectId, read as the number of its twelve bytes, which has its order. An emoji stands by
-- a number, of which only equality is used.
pub mod Archiving
pub mod Reacting
pub mod Reading
pub mod Sending
mod Tests
pub mod Finality
pub mod OldPages
pub mod Unsending
pub mod Keeping
pub mod ReactingLaws
pub mod ArchivingLaws
pub mod ReadingLaws
use swift_chat_backend.Base.{
  ℕ, Bool, true, false, not, ◌&&◌, Option, none, some, List, [], ◌∷◌, String, Action, pure,
  raise_if, gets, ◌>>=◌, ◌>>◌, ◌==◌, ltb, is_some, any, find, update, ◌*◌, ◌-◌, ◌++◌, if◌then◌else◌,
}
use swift_chat_backend.Base.Rows.{mapped, update_first}
use swift_chat_backend.Http.{Error, plain, too_late_to_unsend}
use swift_chat_backend.Db.{Db}
use swift_chat_backend.Friends.{hour_ms}

pub data MessageType : Type 0 where
  text image video file : MessageType

pub record Reaction : Type 0 where
  pub emoji : ℕ
  pub account_id : ℕ
  pub created_at : ℕ

pub record ReplyTarget : Type 0 where
  pub message_id : ℕ
  pub sender_id : ℕ
  pub content : String
  pub type : MessageType

pub record ForwardedFrom : Type 0 where
  pub message_id : ℕ
  pub sender_id : ℕ

pub record Message : Type 0 where
  pub id : ℕ
  pub conversation_id : ℕ
  pub sender_id : ℕ
  pub content : String
  pub type : MessageType
  pub attachments : List String
  pub reactions : List Reaction
  pub reply_to : Option ReplyTarget
  pub is_deleted : Bool
  pub is_unsent : Bool
  pub deleted_by : List ℕ
  pub is_edited : Bool
  pub deleted_at : Option ℕ
  pub is_pinned : Bool
  pub pinned_by : Option ℕ
  pub pinned_at : Option ℕ
  pub mentions : List ℕ
  pub forwarded_from : Option ForwardedFrom
  pub created_at : ℕ
  pub updated_at : ℕ

-- The two databases.
pub record World : Type 0 where
  pub db : Db
  -- `messageModel`
  pub messages : List Message
  -- `messageArchiveModel`
  pub archive : List Message

-- A model: which of the two collections it is.
pub data Model : Type 0 where
  hot archived : Model

abbrev pub rows_of : Model → World → List Message
rows_of hot w = w.messages
rows_of archived w = w.archive

abbrev pub with_rows : Model → List Message → World → World
with_rows hot rows w = record w { messages = rows }
with_rows archived rows w = record w { archive = rows }

abbrev pub has_id : ℕ → Message → Bool
has_id id m = m.id == id

-- `deleted_by.includes`
abbrev pub is_deleted_by : ℕ → Message → Bool
is_deleted_by a m = any (λ b. b == a) m.deleted_by

-- `findOne`
abbrev pub find_one : Model → (Message → Bool) → Action World (Option Message)
find_one c q = gets (λ w. find q (rows_of c w))

-- `findOneAndUpdate` with `new: true`: the first document that matches is changed and answered.
abbrev pub find_one_and_update :
    Model → (Message → Bool) → (Message → Message) → Action World (Option Message)
find_one_and_update c q f = do
  found ← find_one c q
  _ ← (λ w. pure tt (with_rows c (update_first q f (rows_of c w)) w))
  pure (mapped f found)

-- `updateMany`
abbrev pub update_many : Model → (Message → Bool) → (Message → Message) → Action World (Unit {0})
update_many c q f w = pure tt (with_rows c (update q f (rows_of c w)) w)

abbrev pub or_else : Option Message → Action World (Option Message) → Action World (Option Message)
or_else none next = next
or_else (some m) next = pure (some m)

-- `findInBothCollections`
abbrev pub find_in_both : (Message → Bool) → Action World (Option Message)
find_in_both q = do result ← find_one hot q; or_else result (find_one archived q)

-- `updateInBothCollections`
abbrev pub update_in_both : (Message → Bool) → (Message → Message) → Action World (Option Message)
update_in_both q f = do
  result ← find_one_and_update hot q f
  or_else result (find_one_and_update archived q f)

abbrev pub day_ms : ℕ
day_ms = 24 * hour_ms

abbrev pub is_sent_by : (id sender : ℕ) → Message → Bool
is_sent_by id sender m = m.id == id && m.sender_id == sender

abbrev pub unsent : (now : ℕ) → Message → Message
unsent now m = record m { is_unsent = true; deleted_at = some now; updated_at = now }

-- The text that a client names a message by: the ObjectId that its hex digits spell
-- (`new Types.ObjectId(messageId)`), and whether all its letters are small, as in the text that
-- `toString` gives. The two texts are equal exactly then.
pub record IdText : Type 0 where
  pub id : ℕ
  pub is_lower_case : Bool

-- `'reply_to.messageId': messageId`, where `create` stores what `toString` gives
abbrev pub replies_to : IdText → Message → Bool
replies_to raw m = is_reply m.reply_to
  where
    is_reply : Option ReplyTarget → Bool
    is_reply none = false
    is_reply (some r) = raw.is_lower_case && r.message_id == raw.id

abbrev pub cleared : ReplyTarget → ReplyTarget
cleared r = record r { content = "" }

-- `$set: { 'reply_to.content': '' }`
abbrev pub without_snapshot : (now : ℕ) → Message → Message
without_snapshot now m = record m { reply_to = mapped cleared m.reply_to; updated_at = now }

-- The snapshots of a message that is unsent are cleared in both collections.
abbrev pub clear_snapshots : (now : ℕ) → IdText → Option Message → Action World (Option Message)
clear_snapshots now raw none = pure none
clear_snapshots now raw (some m) = do
  update_many hot (replies_to raw) (without_snapshot now)
  update_many archived (replies_to raw) (without_snapshot now)
  pure (some m)

abbrev pub unsend_found : (now : ℕ) → IdText → Option Message → Action World (Option Message)
unsend_found now raw none = pure none
unsend_found now raw (some m) = do
  raise_if (ltb day_ms (now - m.created_at)) (plain too_late_to_unsend)
  result ← update_in_both (has_id raw.id) (unsent now)
  clear_snapshots now raw result

-- `unsendMessage`. A clock that goes back makes a difference below 0, which is not above a day.
unfoldable pub unsend_message : (now : ℕ) → IdText → (sender : ℕ) → Action World (Option Message)
unsend_message now raw sender = do
  target ← find_in_both (is_sent_by raw.id sender)
  unsend_found now raw target

-- `$addToSet`
abbrev pub deleted_for : (now a : ℕ) → Message → Message
deleted_for now a m = record m {
  deleted_by = if is_deleted_by a m then m.deleted_by else m.deleted_by ++ (a ∷ []);
  updated_at = now;
}

-- `deleteForMe`
unfoldable pub delete_for_me : (now id account : ℕ) → Action World (Option Message)
delete_for_me now id a = update_in_both (has_id id) (deleted_for now a)

abbrev pub is_editable : (id sender : ℕ) → Message → Bool
is_editable id sender m = m.id == id && (m.sender_id == sender && not m.is_unsent)

abbrev pub edited : (now : ℕ) → String → Message → Message
edited now content m = record m { content = content; is_edited = true; updated_at = now }

-- `editMessage`
unfoldable pub edit_message : (now id sender : ℕ) → String → Action World (Option Message)
edit_message now id sender content = update_in_both (is_editable id sender) (edited now content)

abbrev pub pinned : (now a : ℕ) → Message → Message
pinned now a m = record m {
  is_pinned = true;
  pinned_by = some a;
  pinned_at = some now;
  updated_at = now;
}

abbrev pub unpinned : (now : ℕ) → Message → Message
unpinned now m = record m {
  is_pinned = false;
  pinned_by = none;
  pinned_at = none;
  updated_at = now;
}

-- `pinMessage`
unfoldable pub pin_message : (now id account : ℕ) → Action World (Option Message)
pin_message now id a = update_in_both (has_id id) (pinned now a)

-- `unpinMessage`
unfoldable pub unpin_message : (now id : ℕ) → Action World (Option Message)
unpin_message now id = update_in_both (has_id id) (unpinned now)

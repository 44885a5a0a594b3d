-- ===== src/Conversations.antt =====
-- src/conversations/conversations.service.ts: the life of a conversation and of a participant in it.
-- A participant is named by its unique key, where the code has the row's own id at hand.
pub mod Creating
pub mod CreatingLaws
pub mod Deleting
pub mod DeletingLaws
pub mod Listing
pub mod MutingLaws
pub mod Ownership
pub mod Pages
pub mod PagingLaws
mod Tests
use swift_chat_backend.Base.{
  ℕ, ◌+◌, ◌*◌, Bool, true, false, not, ◌&&◌, Option, none, some, List, [], ◌∷◌, map, Action, pure,
  gets, modify, raise_if, or_raise, ◌>>=◌, ◌>>◌, ◌==◌, ltb, is_some, any, find, select, update,
}
use swift_chat_backend.Http.{
  Error, PrismaCode, forbidden, not_found, not_a_member, conversation_not_found,
}
use swift_chat_backend.Db.{Db, Conversation, ConversationType, Participant}
use swift_chat_backend.Friends.{hour_ms}
use swift_chat_backend.Group.{is_key, in_conversation, is_group}

-- `isParticipant`
abbrev pub is_participant : (account conversation : ℕ) → Db → Bool
is_participant a c db = any (is_key c a) db.participants

abbrev pub is_conversation : ℕ → Conversation → Bool
is_conversation id c = c.id == id

-- `getConversationType`
unfoldable pub get_conversation_type : ℕ → Action Db ConversationType
get_conversation_type id = do
  found ← gets (λ db. find (is_conversation id) db.conversations)
  c ← or_raise found (not_found conversation_not_found)
  pure c.type

-- A write to one participant, which the caller has to be.
abbrev pub update_own :
    (account conversation : ℕ) → (Participant → Participant) → Action Db (Unit {0})
update_own a c f = do
  there ← gets (is_participant a c)
  raise_if (not there) (forbidden not_a_member)
  modify (λ db. record db { participants = update (is_key c a) f db.participants })

abbrev pub hidden : (now : ℕ) → Participant → Participant
hidden now p = record p { hidden_at = some now }

abbrev pub shown : Participant → Participant
shown p = record p { hidden_at = none }

-- `hideDirectConversation`
unfoldable pub hide_direct_conversation : (now account conversation : ℕ) → Action Db (Unit {0})
hide_direct_conversation now a c = update_own a c (hidden now)

-- `resetHiddenAt`
unfoldable pub reset_hidden_at : (conversation : ℕ) → Action Db (Unit {0})
reset_hidden_at c = modify (λ db. record db {
  participants = update (λ p. in_conversation c p && is_some p.hidden_at) shown db.participants;
})

-- `updateTimestamp`
unfoldable pub update_timestamp : (now conversation : ℕ) → Action Db (Unit {0})
update_timestamp now id = do
  there ← gets (λ db. any (is_conversation id) db.conversations)
  raise_if (not there) (Error.prisma PrismaCode.record_not_found)
  modify (λ db. record db { conversations = update (is_conversation id) touched db.conversations })
  where
    touched : Conversation → Conversation
    touched c = record c { updated_at = now }

abbrev pub read_to : (message : ℕ) → Participant → Participant
read_to message p = record p { last_read_message_id = some message }

-- `markAsRead`: an unknown participant is an error of the database.
unfoldable pub mark_as_read : (account conversation message : ℕ) → Action Db (Unit {0})
mark_as_read a c message = do
  there ← gets (is_participant a c)
  raise_if (not there) (Error.prisma PrismaCode.record_not_found)
  modify (λ db. record db { participants = update (is_key c a) (read_to message) db.participants })

pub data MuteDuration : Type 0 where
  one_hour eight_hours one_day forever : MuteDuration

-- `new Date('9999-01-01T00:00:00.000Z')`
abbrev pub year_9999 : ℕ
year_9999 = 253370764800000

abbrev pub muted_until_of : (now : ℕ) → MuteDuration → ℕ
muted_until_of now one_hour = now + 1 * hour_ms
muted_until_of now eight_hours = now + 8 * hour_ms
muted_until_of now one_day = now + 24 * hour_ms
muted_until_of now forever = year_9999

abbrev pub with_mute : Option ℕ → Participant → Participant
with_mute until p = record p { muted_until = until }

-- `muteConversation`
unfoldable pub mute_conversation : (now account conversation : ℕ) → MuteDuration → Action Db ℕ
mute_conversation now a c duration =
    update_own a c (with_mute (some (muted_until_of now duration)))
    >> pure (muted_until_of now duration)

-- `unmuteConversation`
unfoldable pub unmute_conversation : (account conversation : ℕ) → Action Db (Unit {0})
unmute_conversation a c = update_own a c (with_mute none)

abbrev pub is_later : (now : ℕ) → Option ℕ → Bool
is_later now none = false
is_later now (some t) = ltb now t

abbrev pub mutes_at : (now : ℕ) → Option Participant → Bool
mutes_at now none = false
mutes_at now (some p) = is_later now p.muted_until

-- `isConversationMuted`
unfoldable pub is_conversation_muted : (now account conversation : ℕ) → Db → Bool
is_conversation_muted now a c db = mutes_at now (find (is_key c a) db.participants)

-- `conversation: { deletedAt: null }`
abbrev pub is_undeleted : ℕ → Db → Bool
is_undeleted id db = any (λ c. is_conversation id c && not (is_some c.deleted_at)) db.conversations

-- A row that `getUserConversationIds` selects.
abbrev pub is_listed : (account : ℕ) → Db → Participant → Bool
is_listed a db p =
    p.account_id == a && (not (is_some p.hidden_at) && is_undeleted p.conversation_id db)

-- `getUserConversationIds`
unfoldable pub get_user_conversation_ids : (account : ℕ) → Db → List ℕ
get_user_conversation_ids a db =
    map (λ p. p.conversation_id) (select (is_listed a db) db.participants)

-- ===== src/Messages/Reading.antt =====
-- The queries of `MessagesService`: pages of a conversation, the search, the unread counts and the last
-- messages. `timestamp` is the time that an ObjectId carries, and `matches` the `$regex` of MongoDB.
use swift_chat_backend.Base.{
  ℕ, ◌-◌, Bool, true, false, not, ◌&&◌, ◌||◌, Option, none, some, List, [], ◌∷◌, ◌++◌, String, map,
  Action, pure, raise_if, gets, ◌>>=◌, ◌>>◌, ◌==◌, ltb, if◌then◌else◌, any, find, select, count,
  take, length,
}
use swift_chat_backend.Base.Rows.{mapped}
use swift_chat_backend.Base.Sorting.{sort_desc}
use swift_chat_backend.Http.{forbidden, not_a_member}
use swift_chat_backend.Conversations.{is_participant, get_user_conversation_ids}
use swift_chat_backend.Messages.{Message, ReplyTarget, World, is_deleted_by, cleared}
use swift_chat_backend.Messages.Archiving.{cutoff_of}

abbrev pub is_before : Option ℕ → Message → Bool
is_before none m = true
is_before (some cursor) m = ltb m.id cursor

-- A query with its `_id: { $lt: cursor }`.
abbrev pub before : (Message → Bool) → Option ℕ → Message → Bool
before q cursor m = q m && is_before cursor m

-- A message that the account must not read where it is replied to.
abbrev pub is_withheld : (account id : ℕ) → Message → Bool
is_withheld a id m = m.id == id && (is_deleted_by a m || m.is_unsent)

abbrev pub is_withheld_in : (account : ℕ) → World → ReplyTarget → Bool
is_withheld_in a w r =
    any (is_withheld a r.message_id) w.messages || any (is_withheld a r.message_id) w.archive

abbrev pub mask_reply : (account : ℕ) → World → ReplyTarget → ReplyTarget
mask_reply a w r = if is_withheld_in a w r then cleared r else r

abbrev pub mask : (account : ℕ) → World → Message → Message
mask a w m = record m {
  content = if m.is_unsent then "" else m.content;
  reply_to = mapped (mask_reply a w) m.reply_to;
}

-- `maskDeletedReplies`
abbrev pub mask_deleted_replies : (account : ℕ) → World → List Message → List Message
mask_deleted_replies a w rows = map (mask a w) rows

-- `.sort({ _id: -1 }).limit(limit)`; the DTO leaves no limit of 0, which MongoDB reads as no limit.
abbrev pub page : (Message → Bool) → (limit : ℕ) → List Message → List Message
page q limit rows = take limit (sort_desc (λ m. m.id) (select q rows))

-- Whether a cursor is so old that only the archive is read.
abbrev pub is_archive_cursor : (timestamp : ℕ → ℕ) → (now days : ℕ) → Option ℕ → Bool
is_archive_cursor timestamp now days none = false
is_archive_cursor timestamp now days (some cursor) = ltb (timestamp cursor) (cutoff_of now days)

-- The `_id` of the last result.
abbrev pub last_id : Option ℕ → List Message → Option ℕ
last_id cursor [] = cursor
last_id cursor (m ∷ rows) = last_id (some m.id) rows

-- What the archive adds where the first collection gave less than a page.
abbrev pub fill :
    (q : Message → Bool)
    → (cursor : Option ℕ) → (limit : ℕ) → List Message
    → List Message
    → List Message
fill q cursor limit archive results =
    if ltb (length results) limit
    then results ++ page (before q (last_id cursor results)) (limit - length results) archive
    else results

abbrev pub read_page :
    (timestamp : ℕ → ℕ)
    → (now days : ℕ) → (q : Message → Bool) → (cursor : Option ℕ) → (limit : ℕ) → World
    → List Message
read_page timestamp now days q cursor limit w =
    if is_archive_cursor timestamp now days cursor
    then page (before q cursor) limit w.archive
    else fill q cursor limit w.archive (page (before q cursor) limit w.messages)

abbrev pub is_visible : (conversation account : ℕ) → Message → Bool
is_visible c a m = m.conversation_id == c && not (is_deleted_by a m)

-- `findByConversation`
unfoldable pub find_by_conversation :
    (timestamp : ℕ → ℕ)
    → (now days conversation account : ℕ) → Option ℕ
    → (limit : ℕ) → Action World (List Message)
find_by_conversation timestamp now days c a cursor limit = do
  is_member ← gets (λ w. is_participant a c w.db)
  raise_if (not is_member) (forbidden not_a_member)
  results ← gets (read_page timestamp now days (is_visible c a) cursor limit)
  gets (λ w. mask_deleted_replies a w results)

abbrev pub is_found :
    (matches : String → Bool) → (conversations : List ℕ) → (account : ℕ) → Message → Bool
is_found matches ids a m =
    any (λ c. m.conversation_id == c) ids
    && (not (is_deleted_by a m) && (not m.is_unsent && matches m.content))

-- The conversations that are searched.
abbrev pub searched : (account : ℕ) → Option ℕ → Action World (List ℕ)
searched a none = gets (λ w. get_user_conversation_ids a w.db)
searched a (some c) = do
  is_member ← gets (λ w. is_participant a c w.db)
  raise_if (not is_member) (forbidden not_a_member)
  pure (c ∷ [])

-- `globalSearch`; without a conversation there is no query, and nothing is found.
unfoldable pub global_search :
    (timestamp : ℕ → ℕ)
    → (now days : ℕ) → (matches : String → Bool) → (account : ℕ) → (conversation cursor : Option ℕ)
    → (limit : ℕ) → Action World (List Message)
global_search timestamp now days matches a conversation cursor limit = do
  ids ← searched a conversation
  results ← gets (read_page timestamp now days (is_found matches ids a) cursor limit)
  gets (λ w. mask_deleted_replies a w (elim ids [ [] ↦ [] | _ ∷ _ ↦ results ]))

abbrev pub is_after : Option ℕ → Message → Bool
is_after none m = true
is_after (some last) m = ltb last m.id

abbrev pub is_unread : (account conversation : ℕ) → (last : Option ℕ) → Message → Bool
is_unread a c last m =
    (m.conversation_id == c && is_after last m)
    && (not (m.sender_id == a) && (not (is_deleted_by a m) && not m.is_unsent))

-- `countUnreadInConversations`: the conversations with the last message that was read in each.
abbrev pub count_unread_in_conversations :
    (account : ℕ) → List (ℕ × Option ℕ) → World → List (ℕ × ℕ)
count_unread_in_conversations a last_read w =
    map (λ (c, last). (c, count (is_unread a c last) w.messages)) last_read

-- `getLastMessagesForConversations`: no message is left out for being unsent.
abbrev pub get_last_messages_for_conversations :
    (account : ℕ) → List ℕ → World → List (Option Message)
get_last_messages_for_conversations a ids w =
    map (λ c. find (is_visible c a) (sort_desc (λ m. m.id) w.messages)) ids

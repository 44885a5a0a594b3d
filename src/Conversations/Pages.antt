-- ===== src/Conversations/Pages.antt =====
-- `mapToListItem` and `getUserConversations`, and the two lists of a conversation's participants
-- (src/conversations/conversations.service.ts, src/conversations/conversation-list.helpers.ts).
use swift_chat_backend.Base.{
  ℕ, Bool, true, false, not, Option, none, some, List, [], ◌∷◌, map, Action, pure, gets, raise,
  raise_if, ◌>>=◌, ◌>>◌, ltb, any, find, select, take, length,
}
use swift_chat_backend.Base.Descending.{last}
use swift_chat_backend.Base.Sorting.{sort_asc}
use swift_chat_backend.Http.{forbidden, plain, not_a_member, undefined_property}
use swift_chat_backend.Db.{Db, Account, Conversation, Participant, ParticipantRole, Profile}
use swift_chat_backend.Users.{is_account}
use swift_chat_backend.Group.{is_key, in_conversation}
use swift_chat_backend.Conversations.{is_participant, is_conversation}
use swift_chat_backend.Conversations.Listing.{
  Query, RawConversation, raw, fetch_conversation_page, get_online_user_ids, get_unread_counts,
  unread_in, display_info, current_participant, last_message, ListItem, profile_in, avatar_in,
}
use swift_chat_backend.Messages.{Message, World}
use swift_chat_backend.Messages.Reading.{get_last_messages_for_conversations}

abbrev pub map_to_list_item :
    (now : ℕ)
    → RawConversation
    → (me : Option Participant) → (online : List ℕ) → (unread : List (ℕ × ℕ)) → Db
    → Option Message
    → ListItem
map_to_list_item now c me online unread db message = record {
  id = c.conversation.id;
  type = c.conversation.type;
  display_info = display_info c.conversation.type online me db c;
  created_at = c.conversation.created_at;
  updated_at = c.conversation.updated_at;
  unread_count = unread_in c.conversation.id unread;
  current_participant = current_participant now me;
  participant_preview = map (λ p. p.account_id) c.participants;
  total_participants = c.total;
  last_message = last_message db message;
}

-- `conversations.map`, each with the last message of it.
abbrev pub list_items :
    (now account : ℕ)
    → (online : List ℕ) → (unread : List (ℕ × ℕ)) → Db
    → List RawConversation
    → List (Option Message)
    → List ListItem
list_items now a online unread db (c ∷ rows) (m ∷ messages) =
    map_to_list_item now c (find (is_key c.conversation.id a) db.participants) online unread db m
    ∷ list_items now a online unread db rows messages
list_items now a online unread db _ _ = []

abbrev pub items_of :
    (is_online : ℕ → Bool) → (now account : ℕ) → List Conversation → World → List ListItem
items_of is_online now a conversations w =
    let rows = map (raw a w.db) conversations in
    list_items now a (get_online_user_ids is_online a rows) (get_unread_counts a rows w) w.db rows
      (get_last_messages_for_conversations a (map (λ c. c.id) conversations) w)

-- `CursorPaginatedResponse`
pub record ConversationPage : Type 0 where
  pub items : List ListItem
  pub next_cursor : Option ℕ
  pub has_more : Bool

-- With a limit of 0 there is no last conversation to take the cursor from.
abbrev pub cursor_after : (has_more : Bool) → Option Conversation → Action World (Option ℕ)
cursor_after false c = pure none
cursor_after true none = raise (plain undefined_property)
cursor_after true (some c) = pure (some c.updated_at)

-- The answer for the rows of a page and the one that follows them, if any.
abbrev pub page_answer :
    (is_online : ℕ → Bool)
    → (now account limit : ℕ) → List Conversation
    → Action World ConversationPage
page_answer is_online now a limit rows = do
  items ← gets (items_of is_online now a (take limit rows))
  next ← cursor_after (ltb limit (length rows)) (last (take limit rows))
  pure (record { items = items; next_cursor = next; has_more = ltb limit (length rows) })

-- `getUserConversations`
unfoldable pub get_user_conversations :
    (is_online : ℕ → Bool)
    → (now account limit : ℕ) → (cursor : Option ℕ) → Option Query
    → Action World ConversationPage
get_user_conversations is_online now a limit cursor q = do
  rows ← gets (λ w. fetch_conversation_page a limit cursor q w.db)
  page_answer is_online now a limit rows

-- `conversationExists`
unfoldable pub conversation_exists : (conversation : ℕ) → Db → Bool
conversation_exists id db = any (is_conversation id) db.conversations

pub record ReadReceipt : Type 0 where
  pub account_id : ℕ
  pub last_read_message_id : Option ℕ
  pub last_seen : Option ℕ
  pub profile : Option Profile

abbrev pub seen_of : Option Account → Option ℕ
seen_of none = none
seen_of (some a) = a.last_seen

abbrev pub receipt : Db → Participant → ReadReceipt
receipt db p = record {
  account_id = p.account_id;
  last_read_message_id = p.last_read_message_id;
  last_seen = seen_of (find (is_account p.account_id) db.accounts);
  profile = profile_in db p.account_id;
}

-- `getReadReceipts`
unfoldable pub get_read_receipts : (account conversation : ℕ) → Action Db (List ReadReceipt)
get_read_receipts a c = do
  there ← gets (is_participant a c)
  raise_if (not there) (forbidden not_a_member)
  gets (λ db. map (receipt db) (select (in_conversation c) db.participants))

pub record Member : Type 0 where
  pub account_id : ℕ
  pub role : ParticipantRole
  pub join_at : ℕ
  pub handle : Option ℕ
  pub display_name : Option ℕ
  pub avatar_url : Option ℕ

abbrev pub handle_in : Option Profile → Option ℕ
handle_in none = none
handle_in (some p) = some p.handle

abbrev pub display_name_in : Option Profile → Option ℕ
display_name_in none = none
display_name_in (some p) = p.display_name

abbrev pub member_of : Db → Participant → Member
member_of db p = record {
  account_id = p.account_id;
  role = p.role;
  join_at = p.join_at;
  handle = handle_in (profile_in db p.account_id);
  display_name = display_name_in (profile_in db p.account_id);
  avatar_url = avatar_in (profile_in db p.account_id);
}

-- `getMembers`
unfoldable pub get_members : (account conversation : ℕ) → Action Db (List Member)
get_members a c = do
  there ← gets (is_participant a c)
  raise_if (not there) (forbidden not_a_member)
  gets (λ db.
      map (member_of db) (sort_asc (λ p. p.join_at) (select (in_conversation c) db.participants)))

-- ===== src/Conversations/Listing.antt =====
-- The list of conversations, the read receipts and the members of a conversation
-- (src/conversations/conversations.service.ts, src/conversations/conversation-list.helpers.ts).
-- `is_online` says whether the `presence:` key of an account is there.
use swift_chat_backend.Base.{
  ℕ, suc, Bool, true, false, not, ◌&&◌, ◌||◌, Option, none, some, List, [], ◌∷◌, ◌++◌, map, String,
  ◌==◌, ltb, is_some, if◌then◌else◌, any, find, select, take, count,
}
use swift_chat_backend.Base.Sorting.{sort_desc}
use swift_chat_backend.Db.{
  Db, Profile, Conversation, ConversationType, direct, group, Participant, ParticipantRole, member,
}
use swift_chat_backend.Users.{is_account, is_profile_of}
use swift_chat_backend.Group.{is_key, in_conversation}
use swift_chat_backend.Conversations.{is_later}
use swift_chat_backend.Messages.{Message, MessageType, World}
use swift_chat_backend.Messages.Reading.{count_unread_in_conversations}

-- A search `q`: the titles, and the usernames and display names, that contain it.
pub record Query : Type 0 where
  pub titles : String → Bool
  pub names : ℕ → Bool

abbrev pub holds_maybe : {A : Type 0} → (A → Bool) → Option A → Bool
holds_maybe p none = false
holds_maybe p (some x) = p x

abbrev pub has_name : Query → Db → Participant → Bool
has_name q db p =
    any (λ a. is_account p.account_id a && q.names a.username) db.accounts
    || any (λ r. is_profile_of p.account_id r && holds_maybe q.names r.display_name) db.profiles

-- An empty `q` is none.
abbrev pub is_match : Option Query → Db → Conversation → Bool
is_match none db c = true
is_match (some q) db c =
    holds_maybe q.titles c.title
    || any (λ p. in_conversation c.id p && has_name q db p) db.participants

-- The `where` object, but for the cursor.
abbrev pub is_shown : (account : ℕ) → Option Query → Db → Conversation → Bool
is_shown a q db c =
    any (λ p. is_key c.id a p && not (is_some p.hidden_at)) db.participants
    && (not (is_some c.deleted_at) && is_match q db c)

abbrev pub is_before_cursor : Option ℕ → Conversation → Bool
is_before_cursor none c = true
is_before_cursor (some t) c = ltb c.updated_at t

pub record RawConversation : Type 0 where
  pub conversation : Conversation
  -- three of the others
  pub participants : List Participant
  pub total : ℕ

abbrev pub raw : (account : ℕ) → Db → Conversation → RawConversation
raw a db c = record {
  conversation = c;
  participants =
      take 3 (select (λ p. in_conversation c.id p && not (p.account_id == a)) db.participants);
  total = count (in_conversation c.id) db.participants;
}

-- `fetchConversationPage`, without what it includes.
unfoldable pub fetch_conversation_page :
    (account limit : ℕ) → (cursor : Option ℕ) → Option Query → Db → List Conversation
fetch_conversation_page a limit cursor q db = take (suc limit) (
    sort_desc (λ c. c.updated_at)
      (select (λ c. is_shown a q db c && is_before_cursor cursor c) db.conversations))

abbrev pub participant_ids : (account : ℕ) → List RawConversation → List ℕ
participant_ids a [] = []
participant_ids a (c ∷ rows) =
    map (λ p. p.account_id) (select (λ p. not (p.account_id == a)) c.participants)
    ++ participant_ids a rows

-- `getOnlineUserIds`
abbrev pub get_online_user_ids :
    (is_online : ℕ → Bool) → (account : ℕ) → List RawConversation → List ℕ
get_online_user_ids is_online a rows = select is_online (participant_ids a rows)

abbrev pub last_read_in : (account : ℕ) → Db → (conversation : ℕ) → Option ℕ
last_read_in a db c = elim (find (is_key c a) db.participants) [
  | none ↦ none
  | some p ↦ p.last_read_message_id
]

-- `getUnreadCounts`
abbrev pub get_unread_counts : (account : ℕ) → List RawConversation → World → List (ℕ × ℕ)
get_unread_counts a rows w =
    count_unread_in_conversations a
      (map (λ c. (c.conversation.id, last_read_in a w.db c.conversation.id)) rows) w

abbrev pub unread_in : (conversation : ℕ) → List (ℕ × ℕ) → ℕ
unread_in c [] = 0
unread_in c ((k, n) ∷ rows) = let rest = unread_in c rows in if k == c then n else rest

-- A name of a profile, or the title of a group.
pub data Title : Type 0 where
  name_of : ℕ → Title
  title_of : String → Title

abbrev pub shown_name : Option Profile → Option ℕ
shown_name none = none
shown_name (some p) = elim p.display_name [ none ↦ some p.handle | some name ↦ some name ]

abbrev pub profile_in : Db → (account : ℕ) → Option Profile
profile_in db a = find (is_profile_of a) db.profiles

pub record DisplayInfo : Type 0 where
  pub title : Option Title
  pub avatar : Option Title
  pub is_online : Option Bool

abbrev pub as_name : Option ℕ → Option Title
as_name none = none
as_name (some n) = some (name_of n)

abbrev pub as_title : Option String → Option Title
as_title none = none
as_title (some t) = some (title_of t)

abbrev pub avatar_in : Option Profile → Option ℕ
avatar_in none = none
avatar_in (some p) = p.avatar_url

abbrev pub partner_info : (online : List ℕ) → Db → Option Participant → DisplayInfo
partner_info online db none = record { title = none; avatar = none; is_online = some false }
partner_info online db (some p) = record {
  title = as_name (shown_name (profile_in db p.account_id));
  avatar = as_name (avatar_in (profile_in db p.account_id));
  is_online = some (any (λ id. id == p.account_id) online);
}

abbrev pub is_me : Option Participant → Participant → Bool
is_me none p = false
is_me (some me) p = p.account_id == me.account_id

abbrev pub display_info :
    ConversationType
    → (online : List ℕ) → (me : Option Participant) → Db
    → RawConversation
    → DisplayInfo
display_info direct online me db c =
    partner_info online db (find (λ p. not (is_me me p)) c.participants)
display_info group online me db c = record {
  title = as_title c.conversation.title;
  avatar = as_title c.conversation.avatar_url;
  is_online = none;
}

pub record CurrentParticipant : Type 0 where
  pub role : ParticipantRole
  pub is_muted : Bool
  pub muted_until : Option ℕ
  pub last_read_message_id : Option ℕ

abbrev pub current_participant : (now : ℕ) → Option Participant → CurrentParticipant
current_participant now none = record {
  role = member;
  is_muted = false;
  muted_until = none;
  last_read_message_id = none;
}
current_participant now (some p) = record {
  role = p.role;
  is_muted = is_later now p.muted_until;
  muted_until = p.muted_until;
  last_read_message_id = p.last_read_message_id;
}

pub record LastMessage : Type 0 where
  pub id : ℕ
  pub sender_id : ℕ
  pub sender_name : Option ℕ
  pub content : String
  pub type : MessageType
  pub created_at : ℕ
  pub is_unsent : Bool

abbrev pub last_message : Db → Option Message → Option LastMessage
last_message db none = none
last_message db (some m) = some (record {
  id = m.id;
  sender_id = m.sender_id;
  sender_name = shown_name (profile_in db m.sender_id);
  content = m.content;
  type = m.type;
  created_at = m.created_at;
  is_unsent = m.is_unsent;
})

pub record ListItem : Type 0 where
  pub id : ℕ
  pub type : ConversationType
  pub display_info : DisplayInfo
  pub created_at : ℕ
  pub updated_at : ℕ
  pub unread_count : ℕ
  pub current_participant : CurrentParticipant
  -- their ids
  pub participant_preview : List ℕ
  pub total_participants : ℕ
  pub last_message : Option LastMessage

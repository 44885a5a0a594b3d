-- ===== src/Conversations/Creating.antt =====
-- `ConversationsService.createConversation`, `createOrGetDirectConversation` and
-- `createGroupConversation`. The answer is the id of the conversation.
use Prim.Native.String.{String}
use swift_chat_backend.Base.{
  ℕ, Bool, not, ◌&&◌, Option, none, some, List, [], ◌∷◌, ◌++◌, map, Action, pure, raise, gets,
  modify, raise_if, transaction, ◌>>=◌, ◌>>◌, ◌==◌, any, find, remove, update,
}
use swift_chat_backend.Http.{
  Error, PrismaCode, bad_request, not_found, forbidden, partner_required, self_conversation,
  members_required, partner_not_found, cannot_start,
}
use swift_chat_backend.Db.{
  Db, Conversation, ConversationType, direct, group, Participant, leader, member, account_exists,
}
use swift_chat_backend.Block.{is_blocked_either_direction}
use swift_chat_backend.Group.{is_key, is_group, new_participant, distinct}
use swift_chat_backend.Conversations.{is_conversation, shown}

-- `CreateConversationDto`; no members and an empty list are refused alike.
pub record CreateConversation : Type 0 where
  pub type : ConversationType
  pub partner_id : Option ℕ
  pub member_ids : List ℕ
  pub title : Option String

-- `title || 'New Group'`
abbrev pub group_title : Option String → String
group_title none = "New Group"
group_title (some String.[]) = "New Group"
group_title (some (String.◌∷◌ c s)) = String.◌∷◌ c s

abbrev new_conversation : (now id : ℕ) → ConversationType → Option String → Conversation
new_conversation now id type title = record {
  id = id;
  type = type;
  title = title;
  avatar_url = none;
  created_at = now;
  updated_at = now;
  deleted_at = none;
}

-- `participant.createMany`: foreign keys to the accounts.
abbrev create_participants : List Participant → Action Db (Unit {0})
create_participants rows = do
  known ← gets (λ db. not (any (λ p. not (account_exists db p.account_id)) rows))
  raise_if (not known) (Error.prisma PrismaCode.foreign_key)
  modify (λ db. record db { participants = rows ++ db.participants })

abbrev pub is_direct_of : (a partner : ℕ) → Db → Participant → Bool
is_direct_of a partner db p =
    p.account_id == a
    && (any (λ c. is_conversation p.conversation_id c && not (is_group c.type)) db.conversations
        && any (is_key p.conversation_id partner) db.participants)

-- The conversation that two already have is shown again; otherwise one is made.
unfoldable pub reopen_or_create : (now id a partner : ℕ) → Option Participant → Action Db ℕ
reopen_or_create now id a partner (some p) = do
  modify (λ db. record db {
    participants = update (is_key p.conversation_id a) shown db.participants;
    conversations = update (is_conversation p.conversation_id) touched db.conversations;
  })
  pure p.conversation_id
  where
    touched : Conversation → Conversation
    touched c = record c { updated_at = now }
reopen_or_create now id a partner none = transaction (do
  modify
      (λ db. record db { conversations = new_conversation now id direct none ∷ db.conversations })
  create_participants (new_participant now id a member ∷ new_participant now id partner member ∷ [])
  pure id)

-- `createOrGetDirectConversation`
unfoldable pub create_or_get_direct_conversation : (now id a partner : ℕ) → Action Db ℕ
create_or_get_direct_conversation now id a partner = do
  known ← gets (λ db. account_exists db partner)
  raise_if (not known) (not_found partner_not_found)
  blocked ← gets (is_blocked_either_direction a partner)
  raise_if blocked (forbidden cannot_start)
  existing ← gets (λ db. find (is_direct_of a partner db) db.participants)
  reopen_or_create now id a partner existing

-- The members that are asked for, without the creator.
abbrev pub other_members : (creator : ℕ) → List ℕ → List ℕ
other_members creator ids = remove (λ a. a == creator) (distinct ids)

-- `createGroupConversation`
unfoldable pub create_group_conversation :
    (now id creator : ℕ) → List ℕ → Option String → Action Db ℕ
create_group_conversation now id creator ids title = transaction (do
  modify (λ db. record db {
    conversations = new_conversation now id group (some (group_title title)) ∷ db.conversations;
  })
  create_participants (
      new_participant now id creator leader
      ∷ map (λ a. new_participant now id a member) (other_members creator ids))
  pure id)

unfoldable pub create_direct : (now id creator : ℕ) → Option ℕ → Action Db ℕ
create_direct now id creator none = raise (bad_request partner_required)
create_direct now id creator (some partner) = do
  raise_if (creator == partner) (bad_request self_conversation)
  create_or_get_direct_conversation now id creator partner

unfoldable pub create_group : (now id creator : ℕ) → List ℕ → Option String → Action Db ℕ
create_group now id creator [] title = raise (bad_request members_required)
create_group now id creator (a ∷ ids) title =
    create_group_conversation now id creator (a ∷ ids) title

unfoldable pub create_by_type :
    (now id creator : ℕ) → CreateConversation → ConversationType → Action Db ℕ
create_by_type now id creator dto direct = create_direct now id creator dto.partner_id
create_by_type now id creator dto group = create_group now id creator dto.member_ids dto.title

-- `createConversation`
unfoldable pub create_conversation : (now id creator : ℕ) → CreateConversation → Action Db ℕ
create_conversation now id creator dto = create_by_type now id creator dto dto.type

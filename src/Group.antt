-- ===== src/Group.antt =====
-- src/conversations/group-member.service.ts: the checks that its methods share, and the rows of
-- the participants that they read and write. The methods are in the children.
pub mod Members
pub mod Leaders
pub mod Leadership
pub mod Counting
pub mod Invariant
pub mod Calls
pub mod Cases
pub mod SelfDemotion
mod Tests
use swift_chat_backend.Base.{
  ℕ, Bool, true, false, not, ◌&&◌, Option, none, some, List, [], ◌∷◌, Action, pure, gets, modify,
  raise_if, or_raise, ◌>>=◌, ◌>>◌, ◌==◌, is_some, any, find, remove, update,
}
use swift_chat_backend.Http.{
  Error, PrismaCode, bad_request, not_found, conversation_not_found, disbanded, group_only,
}
use swift_chat_backend.Db.{
  Db, Conversation, ConversationType, Participant, ParticipantRole, leader, deputy, member, direct,
  group,
}

abbrev pub is_group : ConversationType → Bool
is_group direct = false
is_group group = true

abbrev pub is_leader : ParticipantRole → Bool
is_leader leader = true
is_leader deputy = false
is_leader member = false

abbrev pub is_deputy : ParticipantRole → Bool
is_deputy leader = false
is_deputy deputy = true
is_deputy member = false

abbrev pub is_member : ParticipantRole → Bool
is_member leader = false
is_member deputy = false
is_member member = true

-- The unique key of a participant.
abbrev pub is_key : (conversation account : ℕ) → Participant → Bool
is_key c a p = p.conversation_id == c && p.account_id == a

abbrev pub in_conversation : ℕ → Participant → Bool
in_conversation c p = p.conversation_id == c

abbrev pub role_of : Option Participant → Option ParticipantRole
role_of none = none
role_of (some p) = some p.role

-- `getParticipantRole`
abbrev pub get_participant_role : (account conversation : ℕ) → Db → Option ParticipantRole
get_participant_role a c db = role_of (find (is_key c a) db.participants)

-- `ensureGroupConversation`
unfoldable pub ensure_group_conversation : ℕ → Action Db (Unit {0})
ensure_group_conversation id = do
  found ← gets (λ db. find (λ c. c.id == id) db.conversations)
  conversation ← or_raise found (not_found conversation_not_found)
  raise_if (is_some conversation.deleted_at) (bad_request disbanded)
  raise_if (not (is_group conversation.type)) (bad_request group_only)

-- `participant.delete` by the unique key
unfoldable pub delete_participant : (conversation account : ℕ) → Action Db (Unit {0})
delete_participant c a = do
  found ← gets (λ db. any (is_key c a) db.participants)
  raise_if (not found) (Error.prisma PrismaCode.record_not_found)
  modify (λ db. record db { participants = remove (is_key c a) db.participants })

abbrev pub with_role : ParticipantRole → Participant → Participant
with_role role p = record p { role = role }

-- `participant.update({ data: { role } })` by the unique key
unfoldable pub set_role : (conversation account : ℕ) → ParticipantRole → Action Db (Unit {0})
set_role c a role = do
  found ← gets (λ db. any (is_key c a) db.participants)
  raise_if (not found) (Error.prisma PrismaCode.record_not_found)
  modify (λ db. record db { participants = update (is_key c a) (with_role role) db.participants })

abbrev pub new_participant : (now conversation account : ℕ) → ParticipantRole → Participant
new_participant now c a role = record {
  conversation_id = c;
  account_id = a;
  role = role;
  join_at = now;
  last_read_message_id = none;
  hidden_at = none;
  muted_until = none;
}

-- `Array.from(new Set(ids))`: the first of each.
unfoldable pub distinct : List ℕ → List ℕ
distinct [] = []
distinct (x ∷ xs) = x ∷ remove (λ y. y == x) (distinct xs)

-- ===== src/Samples.antt =====
-- Data for the examples: three accounts, of which 1 and 2 are friends.
pub mod Mail
use swift_chat_backend.Base.{ℕ, Bool, true, false, Option, none, some, List, [], ◌∷◌, String}
use swift_chat_backend.Db.{
  Db, Account, Friend, FriendRequest, RequestStatus, Block, Conversation, ConversationType,
  Participant, ParticipantRole, Notification, CachedFriends,
}
use swift_chat_backend.Friends.{Fresh}

abbrev account : ℕ → Account
account a = record {
  id = a;
  username = a;
  email = a;
  password_hash = none;
  is_email_verified = true;
  email_verified_at = none;
  created_at = 0;
  last_seen = none;
}

abbrev pub fresh_ids : ℕ → Fresh
fresh_ids n = record { request = n; friend = n; notification = n }

abbrev pub friendship : (id a b : ℕ) → Friend
friendship id a b = record { id = id; account_id1 = a; account_id2 = b; created_at = 5 }

abbrev pub request : (id sender receiver : ℕ) → RequestStatus → FriendRequest
request id s r status = record {
  id = id;
  sender_id = s;
  receiver_id = r;
  status = status;
  created_at = 10;
  updated_at = 10;
  expired_at = some 1000;
}

abbrev pub tables : List Friend → List FriendRequest → List CachedFriends → Db
tables friends requests cache = record {
  accounts = account 1 ∷ account 2 ∷ account 3 ∷ [];
  profiles = [];
  providers = [];
  refresh_tokens = [];
  reset_tokens = [];
  otps = [];
  device_tokens = [];
  friends = friends;
  friend_requests = requests;
  blocks = [];
  conversations = [];
  participants = [];
  notifications = [];
  friends_cache = cache;
  profile_cache = [];
  events = [];
}

abbrev pub conversation : (id : ℕ) → ConversationType → Conversation
conversation id type = record {
  id = id;
  type = type;
  title = none;
  avatar_url = none;
  created_at = 0;
  updated_at = 0;
  deleted_at = none;
}

abbrev pub participant : (conversation account : ℕ) → ParticipantRole → Participant
participant c a role = record {
  conversation_id = c;
  account_id = a;
  role = role;
  join_at = 0;
  last_read_message_id = none;
  hidden_at = none;
  muted_until = none;
}

-- Conversation 7 is a group that 1 leads, conversation 8 one of 1 and 2 alone.
abbrev pub chats : Db
chats = record (tables (friendship 4 1 2 ∷ []) [] []) {
  conversations =
      conversation 7 ConversationType.group ∷ conversation 8 ConversationType.direct ∷ [];
  participants =
      participant 7 1 ParticipantRole.leader
      ∷ participant 7 2 ParticipantRole.deputy
      ∷ participant 7 3 ParticipantRole.member
      ∷ participant 8 1 ParticipantRole.member
      ∷ participant 8 2 ParticipantRole.member
      ∷ [];
}

-- ===== src/Db.antt =====
-- The PostgreSQL tables (prisma/schema.prisma), the Redis keys and the socket events that the
-- services share. An id is a UUID, of which only its order is used: the order of two UUIDs as
-- lower-case texts is that of the numbers they write. A time is a number of milliseconds.
use swift_chat_backend.Base.{
  ℕ, Bool, true, false, Option, List, ◌∷◌, String, Action, modify, ◌==◌, ◌&&◌, ◌||◌, any,
}

pub data RequestStatus : Type 0 where
  pending accepted rejected : RequestStatus

pub data ConversationType : Type 0 where
  direct group : ConversationType

pub data ParticipantRole : Type 0 where
  leader deputy member : ParticipantRole

pub data NotificationType : Type 0 where
  friend_request_received friend_request_accepted added_to_group : NotificationType
  removed_from_group group_role_changed new_message mention : NotificationType

pub data Provider : Type 0 where
  password : Provider
  -- with its user id
  google : ℕ → Provider

pub record AuthProvider : Type 0 where
  pub account_id : ℕ
  pub provider : Provider

-- An email, a username, the hash of a password, a handle and every other text of a profile is a
-- number.
pub record Account : Type 0 where
  pub id : ℕ
  pub username : ℕ
  pub email : ℕ
  pub password_hash : Option ℕ
  pub is_email_verified : Bool
  pub email_verified_at : Option ℕ
  pub created_at : ℕ
  pub last_seen : Option ℕ

pub record Profile : Type 0 where
  pub account_id : ℕ
  pub handle : ℕ
  pub display_name : Option ℕ
  pub avatar_url : Option ℕ
  pub cover_url : Option ℕ
  pub bio : Option ℕ

pub record RefreshToken : Type 0 where
  pub account_id : ℕ
  pub token : ℕ
  pub expires_at : ℕ

pub record PasswordResetToken : Type 0 where
  pub id : ℕ
  pub account_id : ℕ
  -- the hash of the token
  pub token : ℕ
  pub expires_at : ℕ
  pub used_at : Option ℕ

-- `EmailVerificationOtp`, one to an account
pub record Otp : Type 0 where
  pub account_id : ℕ
  pub otp_hash : ℕ
  pub attempts : ℕ
  pub expires_at : ℕ
  pub used_at : Option ℕ
  pub updated_at : ℕ

pub record DeviceToken : Type 0 where
  pub account_id : ℕ
  pub token : ℕ
  pub platform : ℕ

pub record Friend : Type 0 where
  pub id : ℕ
  pub account_id1 : ℕ
  pub account_id2 : ℕ
  pub created_at : ℕ

pub record FriendRequest : Type 0 where
  pub id : ℕ
  pub sender_id : ℕ
  pub receiver_id : ℕ
  pub status : RequestStatus
  pub created_at : ℕ
  pub updated_at : ℕ
  pub expired_at : Option ℕ

pub record Block : Type 0 where
  pub blocker_id : ℕ
  pub blocked_id : ℕ
  pub created_at : ℕ

pub record Conversation : Type 0 where
  pub id : ℕ
  pub type : ConversationType
  pub title : Option String
  pub avatar_url : Option String
  pub created_at : ℕ
  pub updated_at : ℕ
  pub deleted_at : Option ℕ

pub record Participant : Type 0 where
  pub conversation_id : ℕ
  pub account_id : ℕ
  pub role : ParticipantRole
  pub join_at : ℕ
  pub last_read_message_id : Option ℕ
  pub hidden_at : Option ℕ
  pub muted_until : Option ℕ

-- What a caller passes as `referenceId`: the id of a row of a table, or of a message, which is a
-- MongoDB ObjectId.
pub data Reference : Type 0 where
  uuid object_id : ℕ → Reference

pub record Notification : Type 0 where
  pub id : ℕ
  pub account_id : ℕ
  pub actor_id : ℕ
  pub type : NotificationType
  -- a column of type `Uuid`
  pub reference_id : Option ℕ
  pub is_read : Bool
  pub created_at : ℕ

-- One `friends_list:` key: the page that it holds, and when it expires.
pub record CachedFriends : Type 0 where
  pub account_id : ℕ
  pub ids : List ℕ
  pub total : ℕ
  pub expires_at : ℕ

-- `UserResponseDto`
pub record UserResponse : Type 0 where
  pub id : ℕ
  pub username : ℕ
  pub handle : ℕ
  pub display_name : Option ℕ
  pub avatar_url : Option ℕ
  pub cover_url : Option ℕ
  pub bio : Option ℕ
  pub email : ℕ
  pub is_email_verified : Bool
  pub created_at : ℕ
  pub last_seen : Option ℕ

-- One `user_profile:` key: the answer that it holds, and when it expires.
pub record CachedProfile : Type 0 where
  pub account_id : ℕ
  pub response : UserResponse
  pub expires_at : ℕ

-- What `SocketEmitterService` is handed.
pub data Event : Type 0 where
  friend_updated : ℕ → Event
  notification_new : ℕ → ℕ → Event
  group_info_updated group_disbanded : (conversation actor : ℕ) → Event
  group_member_added : (conversation : ℕ) → List ℕ → (actor : ℕ) → Event
  group_you_added : (user conversation actor : ℕ) → Event
  group_member_removed : (conversation user actor : ℕ) → Event
  group_role_changed : (conversation user : ℕ) → ParticipantRole → (actor : ℕ) → Event

pub record Db : Type 0 where
  pub accounts : List Account
  pub profiles : List Profile
  pub providers : List AuthProvider
  pub refresh_tokens : List RefreshToken
  pub reset_tokens : List PasswordResetToken
  pub otps : List Otp
  pub device_tokens : List DeviceToken
  pub friends : List Friend
  pub friend_requests : List FriendRequest
  pub blocks : List Block
  pub conversations : List Conversation
  pub participants : List Participant
  pub notifications : List Notification
  -- Redis: the `friends_list:` and the `user_profile:` keys
  pub friends_cache : List CachedFriends
  pub profile_cache : List CachedProfile
  -- newest first
  pub events : List Event

abbrev pub is_pending : RequestStatus → Bool
is_pending pending = true
is_pending accepted = false
is_pending rejected = false

abbrev pub is_rejected : RequestStatus → Bool
is_rejected pending = false
is_rejected accepted = false
is_rejected rejected = true

abbrev pub account_exists : Db → ℕ → Bool
account_exists db a = any (λ r. r.id == a) db.accounts

-- `OR: [{ x: a, y: b }, { x: b, y: a }]`
abbrev pub is_pair : ℕ → ℕ → ℕ → ℕ → Bool
is_pair x y a b = (x == a && y == b) || (x == b && y == a)

-- `SocketEmitterService.emitToUser` and `emitToRoom`
abbrev pub emit : Event → Action Db (Unit {0})
emit e = modify (λ db. record db { events = e ∷ db.events })

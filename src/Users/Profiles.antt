-- ===== src/Users/Profiles.antt =====
-- `UserService` (src/user/user.service.ts): the profiles with the `user_profile:` keys, and the change of
-- a password. `compare` is the comparison of bcrypt; the hash of a new password comes with the call.
use swift_chat_backend.Base.{
  ℕ, ◌+◌, ◌*◌, Bool, true, false, not, ◌&&◌, Option, none, some, ◌∷◌, Action, pure, gets, modify,
  raise_if, or_raise, ◌>>=◌, ◌>>◌, ◌==◌, ltb, is_some, any, find, update, remove,
}
use swift_chat_backend.Http.{
  Error, PrismaCode, bad_request, unauthorized, not_found, plain, user_not_found, account_not_found,
  no_password_login, no_password_set, wrong_password, validation_failed,
}
use swift_chat_backend.Db.{Db, Account, Profile, UserResponse, CachedProfile}
use swift_chat_backend.Users.{
  is_account, is_profile_of, has_handle, has_password_provider, is_right, clear_profile_cache,
}

-- `mapToProfileResponse`
abbrev pub map_to_profile_response : Account → Profile → UserResponse
map_to_profile_response a p = record {
  id = a.id;
  username = a.username;
  handle = p.handle;
  display_name = p.display_name;
  avatar_url = p.avatar_url;
  cover_url = p.cover_url;
  bio = p.bio;
  email = a.email;
  is_email_verified = a.is_email_verified;
  created_at = a.created_at;
  last_seen = a.last_seen;
}

abbrev pub profile_response : Option Account → Option Profile → Option UserResponse
profile_response none p = none
profile_response (some a) none = none
profile_response (some a) (some p) = some (map_to_profile_response a p)

-- What the tables say of an account.
unfoldable pub profile_of : (account : ℕ) → Db → Option UserResponse
profile_of id db =
    profile_response (find (is_account id) db.accounts) (find (is_profile_of id) db.profiles)

-- A field of `UpdateProfileDto`: not sent, `null`, or a value.
pub data Field : Type 0 where
  keep clear : Field
  put : ℕ → Field

pub record UpdateProfile : Type 0 where
  pub handle : Field
  pub display_name : Field
  pub avatar_url : Field
  pub cover_url : Field
  pub bio : Field

abbrev pub field_or : Field → Option ℕ → Option ℕ
field_or keep old = old
field_or clear old = none
field_or (put new) old = some new

abbrev pub required : Field → ℕ → ℕ
required keep old = old
required clear old = old
required (put new) old = new

abbrev pub is_cleared : Field → Bool
is_cleared keep = false
is_cleared clear = true
is_cleared (put _) = false

abbrev pub with_changes : UpdateProfile → Profile → Profile
with_changes dto p = record p {
  handle = required dto.handle p.handle;
  display_name = field_or dto.display_name p.display_name;
  avatar_url = field_or dto.avatar_url p.avatar_url;
  cover_url = field_or dto.cover_url p.cover_url;
  bio = field_or dto.bio p.bio;
}

-- The handle is that of the profile of another account.
abbrev pub is_handle_taken : (account : ℕ) → Field → Db → Bool
is_handle_taken a keep db = false
is_handle_taken a clear db = false
is_handle_taken a (put h) db = any (λ p. has_handle h p && not (is_profile_of a p)) db.profiles

-- `updateProfile`: Prisma refuses `null` for the handle, which has to be there.
unfoldable pub update_profile : (account : ℕ) → UpdateProfile → Action Db UserResponse
update_profile a dto = do
  raise_if (is_cleared dto.handle) (plain validation_failed)
  there ← gets (λ db. any (is_profile_of a) db.profiles)
  raise_if (not there) (Error.prisma PrismaCode.record_not_found)
  taken ← gets (is_handle_taken a dto.handle)
  raise_if taken (Error.prisma PrismaCode.unique_constraint)
  modify (λ db. record db { profiles = update (is_profile_of a) (with_changes dto) db.profiles })
  clear_profile_cache a
  response ← gets (profile_of a)
  or_raise response (Error.prisma PrismaCode.foreign_key)

abbrev pub seen_now : (now : ℕ) → Account → Account
seen_now now a = record a { last_seen = some now }

-- `updateLastSeen`
unfoldable pub update_last_seen : (now account : ℕ) → Action Db (Unit {0})
update_last_seen now a = do
  there ← gets (λ db. any (is_account a) db.accounts)
  raise_if (not there) (Error.prisma PrismaCode.record_not_found)
  modify (λ db. record db { accounts = update (is_account a) (seen_now now) db.accounts })
  clear_profile_cache a

-- `CACHE_TTL.USER_PROFILE`, in milliseconds
abbrev pub user_profile_cache_ttl : ℕ
user_profile_cache_ttl = 3600 * 1000

abbrev pub is_cached_profile : (now account : ℕ) → CachedProfile → Bool
is_cached_profile now a k = k.account_id == a && ltb now k.expires_at

abbrev pub cached_profile : (now account : ℕ) → UserResponse → CachedProfile
cached_profile now a response = record {
  account_id = a;
  response = response;
  expires_at = now + user_profile_cache_ttl;
}

-- `SET` with `EX`, which replaces the key.
abbrev pub store_profile : (now account : ℕ) → UserResponse → Action Db (Unit {0})
store_profile now a response =
    clear_profile_cache a
    >> modify (λ db. record db { profile_cache = cached_profile now a response ∷ db.profile_cache })

abbrev pub load_profile : (now account : ℕ) → Option CachedProfile → Action Db UserResponse
load_profile now a (some k) = pure k.response
load_profile now a none = do
  found ← gets (profile_of a)
  response ← or_raise found (not_found user_not_found)
  store_profile now a response
  pure response

-- `getUserProfile`
unfoldable pub get_user_profile : (now account : ℕ) → Action Db UserResponse
get_user_profile now a = do
  cached ← gets (λ db. find (is_cached_profile now a) db.profile_cache)
  load_profile now a cached

abbrev pub response_of : Db → Option Profile → Option UserResponse
response_of db none = none
response_of db (some p) = profile_response (find (is_account p.account_id) db.accounts) (some p)

-- `getUserProfileByHandle`
unfoldable pub get_user_profile_by_handle : (handle : ℕ) → Action Db UserResponse
get_user_profile_by_handle handle = do
  found ← gets (λ db. response_of db (find (has_handle handle) db.profiles))
  or_raise found (not_found user_not_found)

abbrev pub with_hash : (password_hash : ℕ) → Account → Account
with_hash password_hash a = record a { password_hash = some password_hash }

-- `changePassword`
unfoldable pub change_password :
    (compare : ℕ → ℕ → Bool) → (account current new_hash : ℕ) → Action Db (Unit {0})
change_password compare a current new_hash = do
  found ← gets (λ db. find (is_account a) db.accounts)
  account ← or_raise found (not_found account_not_found)
  has_password ← gets (has_password_provider a)
  raise_if (not has_password) (bad_request no_password_login)
  raise_if (not (is_some account.password_hash)) (bad_request no_password_set)
  raise_if (not (is_right compare current account.password_hash)) (unauthorized wrong_password)
  modify (λ db. record db {
    accounts = update (is_account a) (with_hash new_hash) db.accounts;
    refresh_tokens = remove (λ r. r.account_id == a) db.refresh_tokens;
  })
  clear_profile_cache a

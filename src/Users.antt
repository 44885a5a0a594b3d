-- ===== src/Users.antt =====
-- `UserService` (src/user/user.service.ts): the accounts with their profiles.
pub mod Calls
pub mod Cases
pub mod Freshness
pub mod Handles
pub mod PasswordLaws
pub mod Profiles
pub mod SearchLaws
pub mod Searching
mod Tests
use swift_chat_backend.Base.{
  ℕ, ◌+◌, ◌*◌, Bool, true, false, not, ◌&&◌, ◌||◌, Option, none, some, List, [], ◌∷◌, ◌++◌, map,
  Action, pure, gets, modify, raise_if, or_raise, transaction, ◌>>=◌, ◌>>◌, ◌==◌, ltb, is_some,
  if◌then◌else◌, any, find, update, remove,
}
use swift_chat_backend.Http.{
  Error, PrismaCode, bad_request, unauthorized, not_found, plain, user_not_found, account_not_found,
  no_password_login, no_password_set, wrong_password, validation_failed,
}
use swift_chat_backend.Db.{
  Db, Account, Profile, Provider, password, google, AuthProvider, UserResponse, CachedProfile,
}

abbrev pub has_email : ℕ → Account → Bool
has_email email a = a.email == email

abbrev pub has_username : ℕ → Account → Bool
has_username name a = a.username == name

abbrev pub is_account : ℕ → Account → Bool
is_account id a = a.id == id

abbrev pub is_profile_of : ℕ → Profile → Bool
is_profile_of a p = p.account_id == a

abbrev pub has_handle : ℕ → Profile → Bool
has_handle handle p = p.handle == handle

abbrev pub is_password : Provider → Bool
is_password password = true
is_password (google _) = false

-- `authProviders.some((p) => p.provider === 'password')`
abbrev pub has_password_provider : (account : ℕ) → Db → Bool
has_password_provider a db = any (λ p. p.account_id == a && is_password p.provider) db.providers

abbrev pub is_sub : ℕ → Provider → Bool
is_sub sub password = false
is_sub sub (google s) = s == sub

abbrev pub is_google_of : ℕ → AuthProvider → Bool
is_google_of sub p = is_sub sub p.provider

abbrev pub is_right : (compare : ℕ → ℕ → Bool) → (pass : ℕ) → Option ℕ → Bool
is_right compare pass none = false
is_right compare pass (some hash) = compare pass hash

-- `redis.del` of a `user_profile:` key
abbrev pub clear_profile_cache : ℕ → Action Db (Unit {0})
clear_profile_cache a =
    modify (λ db. record db { profile_cache = remove (λ k. k.account_id == a) db.profile_cache })

-- What `create` is given, but for the handle; no `isEmailVerified` is `false`.
pub record NewAccount : Type 0 where
  pub email : ℕ
  pub username : ℕ
  pub display_name : Option ℕ
  pub password_hash : Option ℕ
  pub avatar_url : Option ℕ
  pub is_email_verified : Bool
  pub providers : List Provider

-- `@@unique([provider, providerUserId])`: a password login has no user id.
abbrev pub is_linked : Db → Provider → Bool
is_linked db password = false
is_linked db (google sub) = any (is_google_of sub) db.providers

-- The unique keys of the rows that `create` writes.
abbrev pub clashes : (id handle : ℕ) → NewAccount → Db → Bool
clashes id handle dto db =
    any (is_account id) db.accounts
    || (any (has_username dto.username) db.accounts
        || (any (has_email dto.email) db.accounts
            || (any (is_profile_of id) db.profiles
                || (any (has_handle handle) db.profiles || any (is_linked db) dto.providers))))

abbrev pub new_account : (now id : ℕ) → NewAccount → Account
new_account now id dto = record {
  id = id;
  username = dto.username;
  email = dto.email;
  password_hash = dto.password_hash;
  is_email_verified = dto.is_email_verified;
  email_verified_at = none;
  created_at = now;
  last_seen = none;
}

abbrev pub new_profile : (id handle : ℕ) → NewAccount → Profile
new_profile id handle dto = record {
  account_id = id;
  handle = handle;
  display_name = dto.display_name;
  avatar_url = dto.avatar_url;
  cover_url = none;
  bio = none;
}

abbrev pub provider_of : (id : ℕ) → Provider → AuthProvider
provider_of id p = record { account_id = id; provider = p }

-- `create`, with the handle of the call or the one that its loop ends with: the id of the account.
unfoldable pub create : (now id handle : ℕ) → NewAccount → Action Db ℕ
create now id handle dto = do
  taken ← gets (clashes id handle dto)
  raise_if taken (Error.prisma PrismaCode.unique_constraint)
  modify (λ db. record db {
    accounts = new_account now id dto ∷ db.accounts;
    profiles = new_profile id handle dto ∷ db.profiles;
    providers = map (provider_of id) dto.providers ++ db.providers;
  })
  pure id

-- The loop of `create` on the handles that are drawn in turn: none where all of them are taken.
unfoldable pub draw_handle : (draws : List ℕ) → Db → Option ℕ
draw_handle [] db = none
draw_handle (h ∷ draws) db =
    let rest = draw_handle draws db in if any (has_handle h) db.profiles then rest else some h

-- `AccountWithProfile`
pub record AccountWithProfile : Type 0 where
  pub account : Account
  pub profile : Option Profile

abbrev pub with_profile : Db → Option Account → Option AccountWithProfile
with_profile db none = none
with_profile db (some a) =
    some (record { account = a; profile = find (is_profile_of a.id) db.profiles })

-- `findByEmail`
unfoldable pub find_by_email : (email : ℕ) → Db → Option AccountWithProfile
find_by_email email db = with_profile db (find (has_email email) db.accounts)

-- `findByUsername`
unfoldable pub find_by_username : (username : ℕ) → Db → Option AccountWithProfile
find_by_username name db = with_profile db (find (has_username name) db.accounts)

-- `findById`
unfoldable pub find_by_id : (id : ℕ) → Action Db AccountWithProfile
find_by_id id = do
  found ← gets (λ db. with_profile db (find (is_account id) db.accounts))
  or_raise found (not_found user_not_found)

abbrev pub account_of : Db → Option AuthProvider → Option Account
account_of db none = none
account_of db (some p) = find (is_account p.account_id) db.accounts

-- `findByProvider`, for Google
unfoldable pub find_by_provider : (sub : ℕ) → Db → Option AccountWithProfile
find_by_provider sub db = with_profile db (account_of db (find (is_google_of sub) db.providers))

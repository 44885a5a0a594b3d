-- ===== src/Users/Tests.antt =====
-- Examples for the properties of the users.
use swift_chat_backend.Base.{
  ℕ, ◌+◌, ◌≤◌, ◌≡◌, refl, Bool, true, false, none, some, [], ◌∷◌, arith, ok, or_raise, ◌==◌, any,
  find, length, All,
}
use swift_chat_backend.Http.{not_found, user_not_found}
use swift_chat_backend.Db.{Db, Account, Profile, AuthProvider, password}
use swift_chat_backend.Samples.{tables, friendship}
use swift_chat_backend.Friends.Listing.{default_take}
use swift_chat_backend.Users.{draw_handle, has_handle, is_account, is_right, has_password_provider}
use swift_chat_backend.Users.Profiles.{
  UpdateProfile, keep, clear, put, get_user_profile, profile_of, change_password,
}
use swift_chat_backend.Users.Calls.{edit, leave, read, run}
use swift_chat_backend.Users.Freshness.{get_user_profile-run}
use swift_chat_backend.Users.Handles.{draw_handle-ends}
use swift_chat_backend.Users.PasswordLaws.{change_password-ok}
use swift_chat_backend.Users.Searching.{all, search_by_handle}
use swift_chat_backend.Users.SearchLaws.{IsTold, search_by_handle-IsTold}

abbrev profile : (account handle : ℕ) → Profile
profile a handle = record {
  account_id = a;
  handle = handle;
  display_name = some (handle + 1);
  avatar_url = none;
  cover_url = none;
  bio = none;
}

abbrev owner : Account
owner = record {
  id = 1;
  username = 11;
  email = 12;
  password_hash = some 41;
  is_email_verified = true;
  email_verified_at = some 5;
  created_at = 0;
  last_seen = none;
}

abbrev login_of : ℕ → AuthProvider
login_of a = record { account_id = a; provider = password }

-- 1 and 2 are friends, and have profiles; 1 has a session.
abbrev people : Db
people = record (tables (friendship 4 1 2 ∷ []) [] []) {
  accounts = owner ∷ record owner { id = 2; username = 21; email = 22 } ∷ [];
  profiles = profile 1 70 ∷ profile 2 80 ∷ [];
  providers = login_of 1 ∷ [];
  refresh_tokens = record { account_id = 1; token = 90; expires_at = 900 } ∷ [];
}

abbrev new_name : UpdateProfile
new_name = record {
  handle = put 75;
  display_name = clear;
  avatar_url = keep;
  cover_url = keep;
  bio = put 5;
}

get_user_profile-run_example :
    let after = run (read 10 1 ∷ edit 1 new_name ∷ read 20 1 ∷ leave 30 1 ∷ []) people in
    (get_user_profile 40 1 after).0
    ≡ (or_raise (profile_of 1 after) (not_found user_not_found) after).0
get_user_profile-run_example =
    get_user_profile-run (read 10 1 ∷ edit 1 new_name ∷ read 20 1 ∷ leave 30 1 ∷ []) 40 1 people tt

draw_handle-ends_example :
    (h : ℕ) × (draw_handle (70 ∷ 80 ∷ 81 ∷ []) people ≡ some h)
    × (any (has_handle h) people.profiles ≡ false)
draw_handle-ends_example =
    draw_handle-ends (70 ∷ 80 ∷ 81 ∷ []) people (refl, (refl, (refl, tt))) (omega arith)

-- Passwords are compared with a hash that is 40 more.
abbrev compare : ℕ → ℕ → Bool
compare pass hash = pass + 40 == hash

changes : (change_password compare 1 1 49 people).0 ≡ ok tt
unfolding change_password
changes = refl

change_password-ok_example :
    let r = change_password compare 1 1 49 people in
    (l : Account) × (find (is_account 1) people.accounts ≡ some l)
    × (is_right compare 1 l.password_hash ≡ true)
    × (has_password_provider 1 people ≡ true)
    × (find (is_account 1) r.1.accounts ≡ some (record l { password_hash = some 49 }))
    × (any (λ t. t.account_id == 1) r.1.refresh_tokens ≡ false)
change_password-ok_example = change_password-ok compare 1 1 49 people changes

-- 2 searches among all accounts, and 1, a friend, is found.
search_by_handle-IsTold_example :
    let answers = search_by_handle (λ text q. text == q) 70 all 2 people in
    All (IsTold all 2 people) answers × (length answers ≤ default_take)
search_by_handle-IsTold_example = search_by_handle-IsTold (λ text q. text == q) 70 all 2 people

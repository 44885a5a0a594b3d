-- ===== src/Auth/Tests.antt =====
-- Examples for the properties of the sign-in.
use swift_chat_backend.Base.{
  ℕ, ◌+◌, ◌≡◌, ◌≢◌, refl, Bool, true, false, List, Option, none, some, [], ◌∷◌, arith, ok, ◌==◌,
  any, find,
}
use swift_chat_backend.Db.{Db, Account, AuthProvider, password, google, PasswordResetToken, Otp}
use swift_chat_backend.Samples.{tables}
use swift_chat_backend.Users.{is_right, has_email, has_username, has_password_provider}
use swift_chat_backend.Auth.{generate_token_pair, put_otp}
use swift_chat_backend.Auth.Registration.{verify_email, register}
use swift_chat_backend.Samples.{tables}
use swift_chat_backend.Users.{is_right, is_right}
use swift_chat_backend.Auth.Sessions.{login, refresh_token, google_login, GooglePayload}
use swift_chat_backend.Auth.Passwords.{reset_password}
use swift_chat_backend.Auth.CodeLaws.{Guess, guess_all, HasFailed, guess_all-locked}
use swift_chat_backend.Auth.Calls.{Call, signing_up, google_signing_in, purging_accounts, run}
use swift_chat_backend.Auth.Cleanup.{purge_unverified_accounts}
use swift_chat_backend.Auth.CleanupLaws.{register-purged}
use swift_chat_backend.Auth.Purging.{IsPurged, IsClosed, purge_unverified_accounts-IsPurged}
use swift_chat_backend.Auth.Identity.{HasIdentities, run-HasIdentities}
use swift_chat_backend.Auth.SessionLaws.{
  login-verified, refresh_token-rotates, reset_password-once, google_login-upgrade,
  register-google_account,
}

abbrev login_of : (id : ℕ) → Option ℕ → (is_verified : Bool) → Account
login_of id hash is_verified = record {
  id = id;
  username = id;
  email = id;
  password_hash = hash;
  is_email_verified = is_verified;
  email_verified_at = none;
  created_at = 0;
  last_seen = none;
}

abbrev by_password : ℕ → AuthProvider
by_password a = record { account_id = a; provider = password }

abbrev by_google : ℕ → AuthProvider
by_google a = record { account_id = a; provider = google (a + 900) }

abbrev code : Otp
code = record {
  account_id = 1;
  otp_hash = 55;
  attempts = 3;
  expires_at = 600;
  used_at = none;
  updated_at = 0;
}

abbrev reset_token : PasswordResetToken
reset_token = record { id = 70; account_id = 2; token = 71; expires_at = 900; used_at = none }

-- 1 has not verified the email, 2 has a password login, 3 signs in with Google.
abbrev db : Db
db = record (tables [] [] []) {
  accounts = login_of 1 (some 41) false ∷ login_of 2 (some 42) true ∷ login_of 3 none true ∷ [];
  providers = by_password 1 ∷ by_password 2 ∷ by_google 3 ∷ [];
  refresh_tokens = record { account_id = 2; token = 80; expires_at = 900 } ∷ [];
  reset_tokens = reset_token ∷ [];
  otps = code ∷ [];
}

abbrev wrong_guess : ℕ → Guess
wrong_guess otp = record { now = 100; token = 81; otp = otp }

db-HasFailed : HasFailed (λ x. x) 1 (login_of 1 (some 41) false) 55 600 3 db
db-HasFailed = record {
  code = code;
  account = refl;
  found = refl;
  unverified = refl;
  unused = refl;
  hash = refl;
  expiry = refl;
  failed = omega arith;
}

guess_all-locked_example :
    (verify_email
      (λ x. x)
      100
      81
      1
      55
      (guess_all (λ x. x) 1 (wrong_guess 53 ∷ wrong_guess 54 ∷ []) db)).0
    ≢ ok (record { refresh_token = 81; account_id = 1 })
guess_all-locked_example =
    guess_all-locked (λ x. x) 1 (login_of 1 (some 41) false) 55 600 3
      (wrong_guess 53 ∷ wrong_guess 54 ∷ []) db (wrong_guess 55)
      (record { refresh_token = 81; account_id = 1 }) db-HasFailed
      (refl, (refl, (refl, (refl, tt)))) (omega arith)

-- Passwords are compared with a hash that is 40 more.
abbrev compare : ℕ → ℕ → Bool
compare pass hash = pass + 40 == hash

signs_in : (login compare 100 81 2 2 db).0 ≡ ok (record { refresh_token = 81; account_id = 2 })
unfolding login generate_token_pair
signs_in = refl

login-verified_example :
    (l : Account) × (find (has_username 2) db.accounts ≡ some l)
    × (2 ≡ l.id)
    × (l.is_email_verified ≡ true)
    × (has_password_provider l.id db ≡ true)
    × (is_right compare 2 l.password_hash ≡ true)
login-verified_example =
    login-verified compare 100 81 2 2 db (record { refresh_token = 81; account_id = 2 }) signs_in

refreshes :
    (refresh_token 100 (some 2) 80 82 db).0 ≡ ok (record { refresh_token = 82; account_id = 2 })
unfolding refresh_token generate_token_pair
refreshes = refl

refresh_token-rotates_example :
    let db' = (refresh_token 100 (some 2) 80 82 db).1 in
    ((refresh_token 200 (some 2) 80 83 db').0 ≢ ok (record { refresh_token = 83; account_id = 2 }))
    × ((refresh_token 200 (some 2) 82 83 db').0
        ≡ ok (record { refresh_token = 83; account_id = 2 }))
refresh_token-rotates_example =
    refresh_token-rotates 100 200 2 80 82 83 db (record { refresh_token = 82; account_id = 2 })
      (record { refresh_token = 83; account_id = 2 }) refreshes (λ h. ground (arith, h))
      (λ h. ground (arith, h)) refl

resets : (reset_password (λ x. x) 100 71 49 db).0 ≡ ok tt
unfolding reset_password
resets = refl

reset_password-once_example :
    let db' = (reset_password (λ x. x) 100 71 49 db).1 in
    (any (λ r. r.account_id == 2) db'.refresh_tokens ≡ false)
    × ((reset_password (λ x. x) 200 71 50 db').0 ≢ ok tt)
reset_password-once_example =
    reset_password-once (λ x. x) 100 200 71 49 50 reset_token db refl resets

-- The owner of the email 1; 2 is the account that signs in afterwards.
abbrev owner : GooglePayload
owner = record { email = 1; sub = 950; name = none; picture = none }

abbrev taken_over : Db
taken_over = (google_login 100 84 9 19 1 8 (some owner) db).1

takes_over :
    (google_login 100 84 9 19 1 8 (some owner) db).0
    ≡ ok (record { refresh_token = 84; account_id = 1 })
unfolding google_login generate_token_pair
takes_over = refl

signs_in_later :
    (login compare 200 85 2 2 taken_over).0 ≡ ok (record { refresh_token = 85; account_id = 2 })
unfolding google_login login generate_token_pair
signs_in_later = refl

google_login-upgrade_example :
    let l = login_of 1 (some 41) false in (l.id ≡ l.id) × ((login_of 2 (some 42) true).id ≢ l.id)
google_login-upgrade_example =
    google_login-upgrade compare 100 200 84 85 9 19 1 8 2 2 owner (login_of 1 (some 41) false) db
      (record { refresh_token = 84; account_id = 1 })
      (record { refresh_token = 85; account_id = 2 }) refl refl refl takes_over signs_in_later

register-google_account_example :
    let r = register 100 9 19 3 7 48 56 true db in
    (r.0 ≡ ok 3)
    × (find (has_email 3) r.1.accounts
        ≡ some (record (login_of 3 none true) { username = 7; password_hash = some 48 }))
register-google_account_example =
    register-google_account 100 9 19 3 7 48 56 (login_of 3 none true) db refl refl refl refl

db-HasIdentities : HasIdentities db
db-HasIdentities = record {
  ids = (refl, (refl, (refl, tt)));
  usernames = (refl, (refl, (refl, tt)));
  emails = (refl, (refl, (refl, tt)));
  owners = tt;
  handles = tt;
}

abbrev calls : List Call
calls =
    signing_up 100 9 70 6 16 46 56 true
    ∷ signing_up 110 10 71 7 16 46 56 true
    ∷ google_signing_in 120 84 11 72 1 8 (some owner)
    ∷ purging_accounts 130
    ∷ []

run-HasIdentities_example : HasIdentities (run calls db)
run-HasIdentities_example = run-HasIdentities calls db db-HasIdentities

db-IsClosed : IsClosed db
db-IsClosed = record {
  profiles = tt;
  providers = (refl, (refl, (refl, tt)));
  refresh_tokens = (refl, tt);
  reset_tokens = (refl, tt);
  otps = (refl, tt);
  device_tokens = tt;
  friends = tt;
  friend_requests = tt;
  blocks = tt;
  participants = tt;
  notifications = tt;
}

-- 2 is verified and keeps its token, however old the account is.
purge_unverified_accounts-IsPurged_example :
    let db' = (purge_unverified_accounts 90000000 db).1 in
    IsPurged 90000000 2 (login_of 2 (some 42) true) db db' × IsClosed db'
purge_unverified_accounts-IsPurged_example =
    purge_unverified_accounts-IsPurged 90000000 2 (login_of 2 (some 42) true) db
      db-HasIdentities.ids db-IsClosed refl

-- 1 registers again, a second before the job runs.
registers_again : (register 89999000 9 70 1 17 46 56 true db).0 ≡ ok 1
unfolding register put_otp
registers_again = refl

register-purged_example :
    find
      (has_email 1)
      (purge_unverified_accounts 90000000 (register 89999000 9 70 1 17 46 56 true db).1).1.accounts
    ≡ none
register-purged_example =
    register-purged 89999000 90000000 9 70 1 17 46 56 true 1 (login_of 1 (some 41) false) db
      db-HasIdentities refl refl refl registers_again

-- ===== src/Auth/Registration.antt =====
-- `AuthService.register`, `resendVerificationOtp` and `verifyEmail` (src/auth/auth.service.ts).
-- `digest` is the keyed hash of a code; the hash of a password comes with the call, since bcrypt draws
-- a salt; `mailed` says whether the mail went out.
use swift_chat_backend.Base.{
  ℕ, suc, ◌-◌, Bool, true, false, not, ◌&&◌, Option, none, some, [], ◌∷◌, transaction, Action, pure,
  raise, gets, modify, raise_if, ◌>>=◌, ◌>>◌, ◌==◌, ltb, leb, is_some, if◌then◌else◌, any, find,
  update,
}
use swift_chat_backend.Http.{
  bad_request, plain, email_in_use, username_taken, mail_failed, already_verified, wait_a_minute,
  invalid_request, invalid_code, otp_locked, attempts_left,
}
use swift_chat_backend.Db.{Db, Account, Otp, password}
use swift_chat_backend.Users
use swift_chat_backend.Users.{
  NewAccount, has_email, has_username, is_account, has_password_provider,
}
use swift_chat_backend.Auth.{TokenPair, is_otp_of, minute_ms, generate_token_pair, put_otp}

abbrev pub is_other_named : (username account : ℕ) → Account → Bool
is_other_named username a l = l.username == username && not (l.id == a)

abbrev pub overwritten : (username password_hash : ℕ) → Account → Account
overwritten username password_hash a = record a {
  password_hash = some password_hash;
  username = username;
}

-- The branch for an email that has an account.
abbrev pub register_over :
    (now username password_hash otp_hash : ℕ) → (mailed : Bool) → Account → Action Db ℕ
register_over now username password_hash otp_hash mailed l = do
  has_password ← gets (has_password_provider l.id)
  raise_if (l.is_email_verified && has_password) (bad_request email_in_use)
  taken ← gets (λ db. any (is_other_named username l.id) db.accounts)
  raise_if taken (bad_request username_taken)
  modify (λ db. record db {
    accounts = update (is_account l.id) (overwritten username password_hash) db.accounts;
  })
  put_otp now l.id otp_hash
  raise_if (not mailed) (plain mail_failed)
  pure l.id

abbrev pub password_account : (email username password_hash : ℕ) → NewAccount
password_account email username password_hash = record {
  email = email;
  username = username;
  display_name = none;
  password_hash = some password_hash;
  avatar_url = none;
  is_email_verified = false;
  providers = password ∷ [];
}

-- The branch for a new email; `handle` is what the loop of `create` ends with. A mail that fails is
-- logged.
abbrev register_new : (now id handle email username password_hash otp_hash : ℕ) → Action Db ℕ
register_new now id handle email username password_hash otp_hash = do
  taken ← gets (λ db. any (has_username username) db.accounts)
  raise_if taken (bad_request username_taken)
  transaction (do
    created ← Users.create now id handle (password_account email username password_hash)
    put_otp now created otp_hash
    pure created)

abbrev pub register_with :
    (now id handle email username password_hash otp_hash : ℕ)
    → (mailed : Bool) → Option Account
    → Action Db ℕ
register_with now id handle email username password_hash otp_hash mailed (some l) =
    register_over now username password_hash otp_hash mailed l
register_with now id handle email username password_hash otp_hash mailed none =
    register_new now id handle email username password_hash otp_hash

-- `register`: the id of the account.
unfoldable pub register :
    (now id handle email username password_hash otp_hash : ℕ) → (mailed : Bool) → Action Db ℕ
register now id handle email username password_hash otp_hash mailed = do
  existing ← gets (λ db. find (has_email email) db.accounts)
  register_with now id handle email username password_hash otp_hash mailed existing

-- Less than a minute after the last code, except where the account is locked.
abbrev pub is_too_soon : (now : ℕ) → Option Otp → Bool
is_too_soon now none = false
is_too_soon now (some o) = ltb (now - o.updated_at) minute_ms && ltb o.attempts 5

abbrev resend_to : (now otp_hash : ℕ) → (mailed : Bool) → Option Account → Action Db (Unit {0})
resend_to now otp_hash mailed none = pure tt
resend_to now otp_hash mailed (some l) = do
  raise_if l.is_email_verified (bad_request already_verified)
  record_of ← gets (λ db. find (is_otp_of l.id) db.otps)
  raise_if (is_too_soon now record_of) (bad_request wait_a_minute)
  put_otp now l.id otp_hash
  raise_if (not mailed) (bad_request mail_failed)

-- `resendVerificationOtp`; for an unknown email nothing happens.
unfoldable pub resend_verification_otp :
    (now email otp_hash : ℕ) → (mailed : Bool) → Action Db (Unit {0})
resend_verification_otp now email otp_hash mailed = do
  account ← gets (λ db. find (has_email email) db.accounts)
  resend_to now otp_hash mailed account

-- A code that can still be tried: not used, and not expired.
abbrev pub is_open : (now : ℕ) → Otp → Bool
is_open now o = not (is_some o.used_at) && not (ltb o.expires_at now)

abbrev pub failed_once : (now : ℕ) → Otp → Otp
failed_once now o = record o { attempts = suc o.attempts; updated_at = now }

abbrev used : (now : ℕ) → Otp → Otp
used now o = record o { used_at = some now; updated_at = now }

abbrev pub verified : (now : ℕ) → Account → Account
verified now a = record a { is_email_verified = true; email_verified_at = some now }

-- The password provider, where it is missing.
abbrev with_password : (account : ℕ) → Db → Db
with_password a db =
    if has_password_provider a db
    then db
    else record db { providers = record { account_id = a; provider = password } ∷ db.providers }

-- A code that is wrong counts as an attempt; the right one verifies the account and signs it in.
abbrev pub check_code : (now token otp_hash : ℕ) → Account → Otp → Action Db TokenPair
check_code now token otp_hash l o = do
  raise_if (not (is_open now o)) (bad_request invalid_code)
  raise_if (leb 5 o.attempts) (bad_request otp_locked)
  modify (λ db. if o.otp_hash == otp_hash then db else record db {
    otps = update (λ x. is_otp_of l.id x && ltb x.attempts 5) (failed_once now) db.otps;
  })
  raise_if (not (o.otp_hash == otp_hash)) (bad_request (attempts_left (5 - suc o.attempts)))
  modify (λ db. with_password l.id (record db {
    otps = update (is_otp_of l.id) (used now) db.otps;
    accounts = update (is_account l.id) (verified now) db.accounts;
  }))
  generate_token_pair now token l.id

abbrev pub verify_code : (now token otp_hash : ℕ) → Account → Option Otp → Action Db TokenPair
verify_code now token otp_hash l none = raise (bad_request invalid_code)
verify_code now token otp_hash l (some o) = check_code now token otp_hash l o

abbrev pub verify_account : (now token otp_hash : ℕ) → Option Account → Action Db TokenPair
verify_account now token otp_hash none = raise (bad_request invalid_request)
verify_account now token otp_hash (some l) = do
  raise_if l.is_email_verified (bad_request already_verified)
  record_of ← gets (λ db. find (is_otp_of l.id) db.otps)
  verify_code now token otp_hash l record_of

-- `verifyEmail`
unfoldable pub verify_email : (digest : ℕ → ℕ) → (now token email otp : ℕ) → Action Db TokenPair
verify_email digest now token email otp = do
  account ← gets (λ db. find (has_email email) db.accounts)
  verify_account now token (digest otp) account

-- ===== src/Auth/Passwords.antt =====
-- `AuthPasswordService` (src/auth/auth-password.service.ts). `hash` is the SHA-256 of a token.
use swift_chat_backend.Base.{
  ℕ, ◌+◌, ◌*◌, Bool, not, ◌&&◌, Option, none, some, ◌∷◌, Action, pure, gets, modify, raise_if,
  or_raise, ◌>>=◌, ◌>>◌, ◌==◌, ltb, is_some, any, find, update, remove,
}
use swift_chat_backend.Http.{bad_request, no_password_login, mail_failed, invalid_reset_token}
use swift_chat_backend.Db.{Db, Account, PasswordResetToken}
use swift_chat_backend.Users.{has_email, is_account, has_password_provider}
use swift_chat_backend.Users.Profiles.{with_hash}
use swift_chat_backend.Auth.{minute_ms}

abbrev is_unused_of : ℕ → PasswordResetToken → Bool
is_unused_of a t = t.account_id == a && not (is_some t.used_at)

abbrev forgot_for :
    (now id token_hash : ℕ) → (mailed : Bool) → Option Account → Action Db (Unit {0})
forgot_for now id token_hash mailed none = pure tt
forgot_for now id token_hash mailed (some l) = do
  has_password ← gets (has_password_provider l.id)
  raise_if (not has_password) (bad_request no_password_login)
  modify (λ db. record db { reset_tokens = row ∷ remove (is_unused_of l.id) db.reset_tokens })
  raise_if (not mailed) (bad_request mail_failed)
  where
    row : PasswordResetToken
    row = record {
      id = id;
      account_id = l.id;
      token = token_hash;
      expires_at = now + 15 * minute_ms;
      used_at = none;
    }

-- `forgotPassword`; for an unknown email nothing happens.
unfoldable pub forgot_password :
    (now id email token_hash : ℕ) → (mailed : Bool) → Action Db (Unit {0})
forgot_password now id email token_hash mailed = do
  found ← gets (λ db. find (has_email email) db.accounts)
  forgot_for now id token_hash mailed found

abbrev pub is_reset_of : ℕ → PasswordResetToken → Bool
is_reset_of token_hash t = t.token == token_hash

abbrev pub is_usable : (now : ℕ) → PasswordResetToken → Bool
is_usable now t = not (is_some t.used_at) && not (ltb t.expires_at now)

abbrev pub used_up : (now : ℕ) → PasswordResetToken → PasswordResetToken
used_up now t = record t { used_at = some now }

abbrev pub is_unused : ℕ → PasswordResetToken → Bool
is_unused id t = t.id == id && not (is_some t.used_at)

-- `resetPassword`; `password_hash` is what bcrypt makes of the new password.
unfoldable pub reset_password :
    (hash : ℕ → ℕ) → (now token password_hash : ℕ) → Action Db (Unit {0})
reset_password hash now token password_hash = do
  found ← gets (λ db. find (is_reset_of (hash token)) db.reset_tokens)
  t ← or_raise found (bad_request invalid_reset_token)
  raise_if (not (is_usable now t)) (bad_request invalid_reset_token)
  there ← gets (λ db. any (is_unused t.id) db.reset_tokens)
  modify (λ db. record db { reset_tokens = update (is_unused t.id) (used_up now) db.reset_tokens })
  raise_if (not there) (bad_request invalid_reset_token)
  modify (λ db. record db {
    accounts = update (is_account t.account_id) (with_hash password_hash) db.accounts;
    refresh_tokens = remove (λ r. r.account_id == t.account_id) db.refresh_tokens;
  })

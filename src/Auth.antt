-- ===== src/Auth.antt =====
-- src/auth: the steps that the services of the sign-in share. A password, a code and a token are
-- numbers, of which only equality is used.
pub mod Passwords
pub mod Calls
pub mod Cases
pub mod Cleanup
pub mod CleanupLaws
pub mod Purging
pub mod CodeLaws
pub mod Identity
pub mod Registration
pub mod SessionLaws
pub mod Sessions
mod Tests
use swift_chat_backend.Base.{
  ℕ, ◌+◌, ◌*◌, Bool, true, false, not, ◌&&◌, Option, none, some, List, [], ◌∷◌, Action, pure, gets,
  modify, raise_if, ◌>>=◌, ◌>>◌, ◌==◌, any, update, remove,
}
use swift_chat_backend.Db.{Db, RefreshToken, Otp}
use swift_chat_backend.Http.{Error, PrismaCode}

abbrev pub is_otp_of : ℕ → Otp → Bool
is_otp_of a o = o.account_id == a

abbrev pub minute_ms : ℕ
minute_ms = 60 * 1000

-- The token pair: the refresh token and the account that it is for.
pub record TokenPair : Type 0 where
  pub refresh_token : ℕ
  pub account_id : ℕ

abbrev week_ms : ℕ
week_ms = 7 * 24 * 60 * minute_ms

-- `generateTokenPair`; `token` is the signed refresh token, which a random id makes new.
unfoldable pub generate_token_pair : (now token account : ℕ) → Action Db TokenPair
generate_token_pair now token a = do
  taken ← gets (λ db. any (λ t. t.token == token) db.refresh_tokens)
  raise_if taken (Error.prisma PrismaCode.unique_constraint)
  modify (λ db. record db { refresh_tokens = row ∷ db.refresh_tokens })
  pure (record { refresh_token = token; account_id = a })
  where
    row : RefreshToken
    row = record { account_id = a; token = token; expires_at = now + week_ms }

-- `emailVerificationOtp.upsert`: a new code, with no failed attempt; it is good for ten minutes.
unfoldable pub put_otp : (now account otp_hash : ℕ) → Action Db (Unit {0})
put_otp now a otp_hash = modify (λ db. record db { otps = fresh ∷ remove (is_otp_of a) db.otps })
  where
    fresh : Otp
    fresh = record {
      account_id = a;
      otp_hash = otp_hash;
      attempts = 0;
      expires_at = now + 10 * minute_ms;
      used_at = none;
      updated_at = now;
    }

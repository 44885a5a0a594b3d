-- ===== src/Auth/Calls.antt =====
-- All calls that change accounts, those of `UserService` included, and sequences of them.
use swift_chat_backend.Base.{ℕ, Bool, Option, List, [], ◌∷◌, Action, pure, ◌>>=◌}
use swift_chat_backend.Db.{Db}
use swift_chat_backend.Users.Calls
use swift_chat_backend.Auth.Registration.{register, resend_verification_otp, verify_email}
use swift_chat_backend.Auth.Sessions.{login, refresh_token, logout, google_login, GooglePayload}
use swift_chat_backend.Auth.Passwords.{forgot_password, reset_password}
use swift_chat_backend.Auth.Cleanup.{purge_expired_refresh_tokens, purge_unverified_accounts}

-- A hash or a comparison stands with the call that makes it.
pub data Call : Type 0 where
  user : Calls.Call → Call
  signing_up : (now id handle email username password_hash otp_hash : ℕ) → (mailed : Bool) → Call
  resending : (now email otp_hash : ℕ) → (mailed : Bool) → Call
  verifying : (digest : ℕ → ℕ) → (now token email otp : ℕ) → Call
  signing_in : (compare : ℕ → ℕ → Bool) → (now token username pass : ℕ) → Call
  refreshing : (now : ℕ) → (payload : Option ℕ) → (token new_token : ℕ) → Call
  google_signing_in : (now token id handle base drawn : ℕ) → (payload : Option GooglePayload) → Call
  signing_out : (now account : ℕ) → (token : Option ℕ) → Call
  forgetting : (now id email token_hash : ℕ) → (mailed : Bool) → Call
  resetting : (hash : ℕ → ℕ) → (now token password_hash : ℕ) → Call
  purging_tokens purging_accounts : (now : ℕ) → Call

-- A call, with its value left out.
unfoldable pub call : Call → Action Db (Unit {0})
call (user c) = Calls.call c
call (signing_up now id handle email username password_hash otp_hash mailed) =
    register now id handle email username password_hash otp_hash mailed >>= λ _. pure tt
call (resending now email otp_hash mailed) = resend_verification_otp now email otp_hash mailed
call (verifying digest now token email otp) =
    verify_email digest now token email otp >>= λ _. pure tt
call (signing_in compare now token username pass) =
    login compare now token username pass >>= λ _. pure tt
call (refreshing now payload token new_token) =
    refresh_token now payload token new_token >>= λ _. pure tt
call (google_signing_in now token id handle base drawn payload) =
    google_login now token id handle base drawn payload >>= λ _. pure tt
call (signing_out now a token) = logout now a token
call (forgetting now id email token_hash mailed) = forgot_password now id email token_hash mailed
call (resetting hash now token password_hash) = reset_password hash now token password_hash
call (purging_tokens now) = purge_expired_refresh_tokens now
call (purging_accounts now) = purge_unverified_accounts now

-- The state after a call, whether it returned or threw.
abbrev pub step : Call → Db → Db
step c db = (call c db).1

unfoldable pub run : List Call → Db → Db
run [] db = db
run (c ∷ calls) db = run calls (step c db)

-- ===== src/Auth/Identity.antt =====
-- No two accounts have the same id, username, email or handle, and none has two profiles, whatever calls
-- are made (src/auth, src/user/user.service.ts).
use swift_chat_backend.Base.{ℕ, ◌≡◌, refl, Bool, false, List, [], ◌∷◌, arith, any, update, remove}
use swift_chat_backend.Base.Keys.{HasKey, HasKey-update, HasKey-remove, HasKey-assign}
use swift_chat_backend.Db.{Db, Account, Profile}
use swift_chat_backend.Users.{
  NewAccount, is_account, is_profile_of, clashes, new_account, new_profile,
}
use swift_chat_backend.Users.Profiles.{
  UpdateProfile, Field, keep, clear, put, with_changes, is_handle_taken, seen_now, with_hash,
}
use swift_chat_backend.Users.Calls
use swift_chat_backend.Users.Cases.{
  create_cases, update_profile_cases, update_last_seen_cases, change_password_cases,
  get_user_profile_cases,
}
use swift_chat_backend.Auth.Calls.{
  Call, user, signing_up, resending, verifying, signing_in, refreshing, google_signing_in,
  signing_out, forgetting, resetting, purging_tokens, purging_accounts, call, step, run,
}
use swift_chat_backend.Auth.Cases.{
  KeepsKeys, register_cases, verify_email_cases, google_login_cases, reset_password_cases,
  logout_cases, resend_verification_otp_cases, login_cases, refresh_token_cases,
  forgot_password_cases,
}
use swift_chat_backend.Auth.Registration.{register, is_other_named, overwritten}
use swift_chat_backend.Auth.Cleanup.{
  purge_expired_refresh_tokens, purge_unverified_accounts, is_stale, goes,
}

pub record IsIdentified (accounts : List Account) (profiles : List Profile) : Type 0 where
  pub ids : HasKey (λ a. a.id) accounts
  pub usernames : HasKey (λ a. a.username) accounts
  pub emails : HasKey (λ a. a.email) accounts
  pub owners : HasKey (λ p. p.account_id) profiles
  pub handles : HasKey (λ p. p.handle) profiles

abbrev pub HasIdentities : Db → Type 0
HasIdentities db = IsIdentified db.accounts db.profiles

touched-IsIdentified :
    (a : ℕ) (f : Account → Account) (accounts : List Account) (profiles : List Profile)
    → KeepsKeys f
    → IsIdentified accounts profiles
    → IsIdentified (update (is_account a) f accounts) profiles
touched-IsIdentified a f accounts profiles k i = record {
  ids = HasKey-update (λ r. r.id) (is_account a) f accounts (λ r. (k r).0) i.ids;
  usernames = HasKey-update (λ r. r.username) (is_account a) f accounts (λ r. (k r).1) i.usernames;
  emails = HasKey-update (λ r. r.email) (is_account a) f accounts (λ r. (k r).2) i.emails;
  owners = i.owners;
  handles = i.handles;
}

touched-db :
    (db : Db)
    → HasIdentities db
    → (a : ℕ) (f : Account → Account) → KeepsKeys f
    → IsIdentified (update (is_account a) f db.accounts) db.profiles
touched-db db i a f k = touched-IsIdentified a f db.accounts db.profiles k i

added-IsIdentified :
    (now id handle : ℕ) (dto : NewAccount) (db : Db)
    → HasIdentities db
    → clashes id handle dto db ≡ false
    → IsIdentified (new_account now id dto ∷ db.accounts) (new_profile id handle dto ∷ db.profiles)
added-IsIdentified now id handle dto db i free = record {
  ids = (ground (arith, free), i.ids);
  usernames = (ground (arith, free), i.usernames);
  emails = (ground (arith, free), i.emails);
  owners = (ground (arith, free), i.owners);
  handles = (ground (arith, free), i.handles);
}

overwritten-IsIdentified :
    (username password_hash : ℕ) (l : Account) (db : Db)
    → HasIdentities db
    → any (is_other_named username l.id) db.accounts ≡ false
    → IsIdentified
        (update (is_account l.id) (overwritten username password_hash) db.accounts)
        db.profiles
overwritten-IsIdentified username password_hash l db i free =
    let f = overwritten username password_hash in
    record {
      ids = HasKey-update (λ r. r.id) (is_account l.id) f db.accounts (λ r. refl) i.ids;
      usernames =
          HasKey-assign (λ r. r.username) (λ r. r.id) f l.id username db.accounts (λ r. refl) i.ids
            free i.usernames;
      emails = HasKey-update (λ r. r.email) (is_account l.id) f db.accounts (λ r. refl) i.emails;
      owners = i.owners;
      handles = i.handles;
    }

updated-handles :
    (a : ℕ) (dto : UpdateProfile) (field : Field) (db : Db)
    → dto.handle ≡ field
    → HasIdentities db
    → is_handle_taken a field db ≡ false
    → HasKey (λ p. p.handle) (update (is_profile_of a) (with_changes dto) db.profiles)
updated-handles a dto keep db e i free =
    HasKey-update (λ p. p.handle) (is_profile_of a) (with_changes dto) db.profiles (λ r. rw e refl)
      i.handles
updated-handles a dto clear db e i free =
    HasKey-update (λ p. p.handle) (is_profile_of a) (with_changes dto) db.profiles (λ r. rw e refl)
      i.handles
updated-handles a dto (put v) db e i free =
    HasKey-assign (λ p. p.handle) (λ p. p.account_id) (with_changes dto) a v db.profiles
      (λ r. rw e refl) i.owners free i.handles

updated-IsIdentified :
    (a : ℕ) (dto : UpdateProfile) (db : Db)
    → HasIdentities db
    → is_handle_taken a dto.handle db ≡ false
    → IsIdentified db.accounts (update (is_profile_of a) (with_changes dto) db.profiles)
updated-IsIdentified a dto db i free = record {
  ids = i.ids;
  usernames = i.usernames;
  emails = i.emails;
  owners =
      HasKey-update (λ p. p.account_id) (is_profile_of a) (with_changes dto) db.profiles (λ r. refl)
        i.owners;
  handles = updated-handles a dto dto.handle db refl i free;
}

removed-IsIdentified :
    (p : Account → Bool) (q : Profile → Bool) (db : Db)
    → HasIdentities db
    → IsIdentified (remove p db.accounts) (remove q db.profiles)
removed-IsIdentified p q db i = record {
  ids = HasKey-remove (λ a. a.id) p db.accounts i.ids;
  usernames = HasKey-remove (λ a. a.username) p db.accounts i.usernames;
  emails = HasKey-remove (λ a. a.email) p db.accounts i.emails;
  owners = HasKey-remove (λ r. r.account_id) q db.profiles i.owners;
  handles = HasKey-remove (λ r. r.handle) q db.profiles i.handles;
}

pub register-HasIdentities :
    (now id handle email username hash otp : ℕ) (mailed : Bool) (db : Db)
    → HasIdentities db
    → HasIdentities (register now id handle email username hash otp mailed db).1
register-HasIdentities now id handle email username hash otp mailed db i =
    register_cases IsIdentified db i now id handle email username hash otp mailed
      (λ now id handle dto. added-IsIdentified now id handle dto db i)
      (λ l. overwritten-IsIdentified username hash l db i)

user-HasIdentities : (c : Calls.Call) (db : Db) → HasIdentities db → HasIdentities (Calls.step c db)
unfolding Calls.call
user-HasIdentities (Calls.sign_up now id handle dto) db i = ground (
  arith,
  create_cases HasIdentities now id handle dto db i (added-IsIdentified now id handle dto db i),
)
user-HasIdentities (Calls.edit a dto) db i =
    ground (arith, update_profile_cases HasIdentities a dto db i (updated-IsIdentified a dto db i))
user-HasIdentities (Calls.leave now a) db i =
    update_last_seen_cases HasIdentities now a db i
      (touched-IsIdentified a (seen_now now) db.accounts db.profiles (λ r. (refl, refl, refl)) i)
user-HasIdentities (Calls.read now a) db i =
    ground (arith, get_user_profile_cases HasIdentities now a db i (λ _ _. i))
user-HasIdentities (Calls.new_password compare a current new_hash) db i =
    change_password_cases HasIdentities compare a current new_hash db i (
      touched-IsIdentified a (with_hash new_hash) db.accounts db.profiles (λ r. (refl, refl, refl))
        i)

step-HasIdentities : (c : Call) (db : Db) → HasIdentities db → HasIdentities (step c db)
unfolding call purge_expired_refresh_tokens purge_unverified_accounts
step-HasIdentities (user c) db i = user-HasIdentities c db i
step-HasIdentities (signing_up now id handle email username hash otp mailed) db i =
    ground (arith, register-HasIdentities now id handle email username hash otp mailed db i)
step-HasIdentities (resending now email otp_hash mailed) db i =
    resend_verification_otp_cases IsIdentified db i now email otp_hash mailed
step-HasIdentities (verifying digest now token email otp) db i =
    ground
      (arith, verify_email_cases IsIdentified db i digest now token email otp (touched-db db i))
step-HasIdentities (signing_in compare now token username pass) db i =
    ground (arith, login_cases IsIdentified db i compare now token username pass)
step-HasIdentities (refreshing now payload token new_token) db i =
    ground (arith, refresh_token_cases IsIdentified db i now payload token new_token)
step-HasIdentities (google_signing_in now token id handle base drawn payload) db i = ground (
  arith,
  google_login_cases IsIdentified db i now token id handle base drawn payload
      (λ now id handle dto. added-IsIdentified now id handle dto db i) (touched-db db i),
)
step-HasIdentities (signing_out now a token) db i =
    logout_cases IsIdentified db i now a token (touched-db db i)
step-HasIdentities (forgetting now id email token_hash mailed) db i =
    forgot_password_cases IsIdentified db i now id email token_hash mailed
step-HasIdentities (resetting hash now token password_hash) db i =
    reset_password_cases IsIdentified db i hash now token password_hash (touched-db db i)
step-HasIdentities (purging_tokens now) db i = i
step-HasIdentities (purging_accounts now) db i =
    removed-IsIdentified (is_stale now) (λ r. goes now db r.account_id) db i

-- After any sequence of calls of the sign-in, of the user service and of the cleaning jobs that starts
-- where it holds: no two accounts have the same id, username or email, no two profiles the same handle,
-- and no account has two profiles. The calls may fail.
pub run-HasIdentities :
    (calls : List Call) (db : Db) → HasIdentities db → HasIdentities (run calls db)
unfolding run
run-HasIdentities [] db i = i
run-HasIdentities (c ∷ calls) db i = run-HasIdentities calls (step c db) (step-HasIdentities c db i)

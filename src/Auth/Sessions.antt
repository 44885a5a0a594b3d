-- ===== src/Auth/Sessions.antt =====
-- `AuthService.login`, `refreshToken`, `googleLogin` and `logout` (src/auth/auth.service.ts). `compare` is the comparison of bcrypt; a token that the
-- library has verified comes as the account in its payload.
use swift_chat_backend.Base.{
  ℕ, Bool, true, not, ◌&&◌, Option, none, some, [], ◌∷◌, Action, pure, gets, modify, raise_if,
  or_raise, transaction, ◌>>=◌, ◌>>◌, ◌==◌, is_some, if◌then◌else◌, any, find, update, remove,
}
use swift_chat_backend.Http.{
  bad_request, unauthorized, forbidden, invalid_credentials, use_google, email_not_verified,
  invalid_token, revoked_token, account_not_found, invalid_google,
}
use swift_chat_backend.Db.{Db, Account, AuthProvider, google, RefreshToken}
use swift_chat_backend.Users
use swift_chat_backend.Users.{
  NewAccount, is_right, is_google_of, has_email, has_username, is_account, is_password,
  has_password_provider,
}
use swift_chat_backend.Users.Profiles.{update_last_seen}
use swift_chat_backend.Auth.{TokenPair, generate_token_pair}

-- `login`
unfoldable pub login :
    (compare : ℕ → ℕ → Bool) → (now token username pass : ℕ) → Action Db TokenPair
login compare now token username pass = do
  found ← gets (λ db. find (has_username username) db.accounts)
  l ← or_raise found (unauthorized invalid_credentials)
  has_password ← gets (has_password_provider l.id)
  raise_if (not has_password) (bad_request use_google)
  raise_if (not (is_some l.password_hash)) (unauthorized invalid_credentials)
  raise_if (not l.is_email_verified) (forbidden email_not_verified)
  raise_if (not (is_right compare pass l.password_hash)) (unauthorized invalid_credentials)
  generate_token_pair now token l.id

abbrev pub is_token : ℕ → RefreshToken → Bool
is_token token t = t.token == token

-- `refreshToken`: `payload` is the account of the token, if its signature and its time are good.
unfoldable pub refresh_token :
    (now : ℕ) → (payload : Option ℕ) → (token new_token : ℕ) → Action Db TokenPair
refresh_token now payload token new_token = do
  sub ← or_raise payload (unauthorized invalid_token)
  stored ← gets (λ db. any (is_token token) db.refresh_tokens)
  raise_if (not stored) (unauthorized revoked_token)
  modify (λ db. record db { refresh_tokens = remove (is_token token) db.refresh_tokens })
  known ← gets (λ db. any (is_account sub) db.accounts)
  raise_if (not known) (unauthorized account_not_found)
  generate_token_pair now new_token sub

abbrev revoke : (account : ℕ) → (token : Option ℕ) → Action Db (Unit {0})
revoke a none =
    modify (λ db. record db { refresh_tokens = remove (λ t. t.account_id == a) db.refresh_tokens })
revoke a (some token) = modify (λ db. record db {
  refresh_tokens = remove (λ t. t.account_id == a && t.token == token) db.refresh_tokens;
})

-- `logout`: of one session, or of all.
unfoldable pub logout : (now account : ℕ) → (token : Option ℕ) → Action Db (Unit {0})
logout now a token = revoke a token >> update_last_seen now a

-- What `verifyIdToken` of the Google library answers.
pub record GooglePayload : Type 0 where
  pub email : ℕ
  pub sub : ℕ
  pub name : Option ℕ
  pub picture : Option ℕ

-- `name || username`
abbrev name_or : Option ℕ → ℕ → ℕ
name_or none y = y
name_or (some x) _ = x

abbrev link_google : (account sub : ℕ) → Action Db (Unit {0})
link_google a sub = modify (λ db. record db {
  providers = record { account_id = a; provider = google sub } ∷ db.providers;
})

abbrev pub upgraded : (now : ℕ) → Account → Account
upgraded now l = record l {
  password_hash = none;
  is_email_verified = true;
  email_verified_at = some now;
}

-- An account that is not verified loses its password, which its owner may not have chosen.
abbrev pub upgrade : (now account : ℕ) → Action Db (Unit {0})
upgrade now a = modify (λ db. record db {
  accounts = update (is_account a) (upgraded now) db.accounts;
  providers = remove (λ p. p.account_id == a && is_password p.provider) db.providers;
})

abbrev pub google_account : (name : ℕ) → GooglePayload → NewAccount
google_account name payload = record {
  email = payload.email;
  username = name;
  display_name = some (name_or payload.name name);
  password_hash = none;
  avatar_url = payload.picture;
  is_email_verified = true;
  providers = google payload.sub ∷ [];
}

-- `resolveGoogleAccount`; `id`, `handle` and `name` are the id, the handle and the username of a new
-- account.
abbrev pub resolve_google_account :
    (now id handle name : ℕ) → GooglePayload → Option Account → Action Db ℕ
resolve_google_account now id handle name payload (some l) = do
  modify (λ db. if l.is_email_verified then db else (upgrade now l.id db).1)
  link_google l.id payload.sub
  pure l.id
resolve_google_account now id handle name payload none =
    Users.create now id handle (google_account name payload)

-- `generateGoogleUsername`: the part before the `@`, or one with drawn digits.
abbrev pub google_username : (base drawn : ℕ) → Db → ℕ
google_username base drawn db = if any (has_username base) db.accounts then drawn else base

abbrev google_sign_in :
    (now token id handle name : ℕ) → GooglePayload → Option AuthProvider → Action Db TokenPair
google_sign_in now token id handle name payload (some p) =
    generate_token_pair now token p.account_id
google_sign_in now token id handle name payload none = transaction (do
  found ← gets (λ db. find (has_email payload.email) db.accounts)
  a ← resolve_google_account now id handle name payload found
  generate_token_pair now token a)

-- `googleLogin`; `payload` is none for a token that the library refuses. `base` and `drawn` are the
-- usernames that are made of the email.
unfoldable pub google_login :
    (now token id handle base drawn : ℕ) → (payload : Option GooglePayload) → Action Db TokenPair
google_login now token id handle base drawn payload = do
  user ← or_raise payload (unauthorized invalid_google)
  existing ← gets (λ db. find (is_google_of user.sub) db.providers)
  name ← gets (google_username base drawn)
  google_sign_in now token id handle name user existing

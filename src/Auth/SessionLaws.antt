-- ===== src/Auth/SessionLaws.antt =====
-- Who is signed in, and for how long a refresh token or a reset token is good.
use swift_chat_backend.Base.{
  ℕ, ◌≡◌, ◌≢◌, refl, sym, ap, ◌∙◌, inl, inr, Bool, true, false, ◌&&◌, none, some, arith, ok, ◌==◌,
  any, find, remove, Option-cases, ==_refl,
}
use swift_chat_backend.Base.Rows.{any-remove_covered, find-update_if, any-remove_none}
use swift_chat_backend.Db.{Db, Account, PasswordResetToken}
use swift_chat_backend.Users.{
  is_right, is_google_of, has_email, has_username, is_account, has_password_provider, is_password,
}
use swift_chat_backend.Auth.{TokenPair, generate_token_pair, put_otp}
use swift_chat_backend.Users.{is_right, is_google_of, is_right, is_google_of}
use swift_chat_backend.Auth.Sessions.{login, refresh_token, is_token, google_login, GooglePayload}
use swift_chat_backend.Auth.Registration.{register, is_other_named}
use swift_chat_backend.Auth.Passwords.{reset_password, is_reset_of, is_unused, used_up}

-- A login that returns is one to a verified account with that username, which has a password login,
-- and whose stored hash the password matches.
pub login-verified :
    (compare : ℕ → ℕ → Bool) (now token username pass : ℕ) (db : Db) (pair : TokenPair)
    → (login compare now token username pass db).0 ≡ ok pair
    → (l : Account) × (find (has_username username) db.accounts ≡ some l)
      × (pair.account_id ≡ l.id)
      × (l.is_email_verified ≡ true)
      × (has_password_provider l.id db ≡ true)
      × (is_right compare pass l.password_hash ≡ true)
unfolding login generate_token_pair
login-verified compare now token username pass db pair done =
    elim (Option-cases (find (has_username username) db.accounts)) [
      | inl e ↦ ground (arith, e, done)
      | inr (l, e) ↦ (
        l,
        e,
        ground (arith, e, done),
        ground (arith, e, done),
        ground (arith, e, done),
        ground (arith, e, done),
      )
    ]

-- Rotation: a refresh token is good once. After a refresh that returns the old token is refused at
-- every later time, and the new one is accepted. Condition: the new tokens are not stored yet.
pub refresh_token-rotates :
    (now later sub token new_token newer : ℕ) (db : Db) (pair other : TokenPair)
    → (refresh_token now (some sub) token new_token db).0 ≡ ok pair
    → token ≢ new_token
    → newer ≢ new_token
    → any (is_token newer) db.refresh_tokens ≡ false
    → let db' = (refresh_token now (some sub) token new_token db).1 in
      ((refresh_token later (some sub) token newer db').0 ≢ ok other)
      × ((refresh_token later (some sub) new_token newer db').0
          ≡ ok (record { refresh_token = newer; account_id = sub }))
unfolding refresh_token generate_token_pair
refresh_token-rotates now later sub token new_token newer db pair other done ne ne' free =
    let rows = remove (is_token token) db.refresh_tokens in
    let gone = any-remove_covered (is_token token) (is_token token) db.refresh_tokens (λ r h. h) in
    let still_free = any-remove_none (is_token newer) (is_token token) db.refresh_tokens free in
    (
      λ h. ground (arith, done, ne, gone, h),
      ground (
        arith,
        done,
        ne,
        ne',
        gone,
        ==_refl new_token,
        still_free,
        any-remove_none (is_token newer) (is_token new_token) rows still_free,
      ),
    )

-- When a token resets a password, no session of its account is left, and no other password can be set
-- with it at any time.
pub reset_password-once :
    (hash : ℕ → ℕ) (now later token password_hash again : ℕ) (t : PasswordResetToken) (db : Db)
    → find (is_reset_of (hash token)) db.reset_tokens ≡ some t
    → (reset_password hash now token password_hash db).0 ≡ ok tt
    → let db' = (reset_password hash now token password_hash db).1 in
      (any (λ r. r.account_id == t.account_id) db'.refresh_tokens ≡ false)
      × ((reset_password hash later token again db').0 ≢ ok tt)
unfolding reset_password
reset_password-once hash now later token password_hash again t db e done = (
  ground (
    arith,
    e,
    done,
    any-remove_covered (λ r. r.account_id == t.account_id) (λ r. r.account_id == t.account_id)
        db.refresh_tokens (λ r h. h),
  ),
  λ h. ground (
    arith,
    e,
    done,
    h,
    find-update_if (is_reset_of (hash token)) (is_unused t.id) (used_up now) db.reset_tokens t
        (λ x u. refl) e,
  ),
)

google_login-unlinks :
    (now token id handle base drawn : ℕ) (payload : GooglePayload) (l : Account) (db : Db)
    (pair : TokenPair)
    → find (has_email payload.email) db.accounts ≡ some l
    → l.is_email_verified ≡ false
    → find (is_google_of payload.sub) db.providers ≡ none
    → let r = google_login now token id handle base drawn (some payload) db in
      r.0 ≡ ok pair → (pair.account_id ≡ l.id) × (has_password_provider l.id r.1 ≡ false)
unfolding google_login generate_token_pair
google_login-unlinks now token id handle base drawn payload l db pair found new unknown done = (
  ground (arith, found, new, unknown, done),
  ground (
    arith,
    found,
    new,
    unknown,
    done,
    any-remove_covered (λ p. p.account_id == l.id && is_password p.provider)
        (λ p. p.account_id == l.id && is_password p.provider) db.providers (λ r h. h),
  ),
)

-- The owner of an email who signs in with Google takes over an account that somebody made for that
-- email and did not verify: after it, no password signs in to that account.
pub google_login-upgrade :
    (compare : ℕ → ℕ → Bool) (now later token token' id handle base drawn username pass : ℕ)
    (payload : GooglePayload) (l : Account) (db : Db) (pair other : TokenPair)
    → find (has_email payload.email) db.accounts ≡ some l
    → l.is_email_verified ≡ false
    → find (is_google_of payload.sub) db.providers ≡ none
    → (google_login now token id handle base drawn (some payload) db).0 ≡ ok pair
    → let db' = (google_login now token id handle base drawn (some payload) db).1 in
      (login compare later token' username pass db').0 ≡ ok other
      → (pair.account_id ≡ l.id) × (other.account_id ≢ l.id)
google_login-upgrade compare now later token token' id handle base drawn username pass payload l db
      pair other found new unknown done in_again =
    let db' = (google_login now token id handle base drawn (some payload) db).1 in
    let (out, none_left) =
      google_login-unlinks now token id handle base drawn payload l db pair found new unknown
        done in
    let (x, _, same, _, has, _) =
      login-verified compare later token' username pass db' other in_again in
    (out, λ h. cc (sym none_left, ap (λ i. has_password_provider i db') (sym same ∙ h), has))

-- `register` with the email of a verified account that signs in with Google gives that account the
-- username and the password of the request, though nobody showed that the email is theirs.
pub register-google_account :
    (now id handle email username password_hash otp_hash : ℕ) (l : Account) (db : Db)
    → find (has_email email) db.accounts ≡ some l
    → l.is_email_verified ≡ true
    → has_password_provider l.id db ≡ false
    → any (is_other_named username l.id) db.accounts ≡ false
    → let r = register now id handle email username password_hash otp_hash true db in
      (r.0 ≡ ok l.id)
      × (find (has_email email) r.1.accounts
          ≡ some (record l { username = username; password_hash = some password_hash }))
unfolding register put_otp
register-google_account now id handle email username password_hash otp_hash l db found is_verified
      plain free =
    (
      ground (arith, found, is_verified, plain, free),
      ground (
        arith,
        found,
        is_verified,
        plain,
        free,
        ==_refl l.id,
        find-update_if (has_email email) (is_account l.id)
            (λ a. record a { password_hash = some password_hash; username = username }) db.accounts
            l (λ x u. refl) found,
      ),
    )

-- ===== src/Auth/Cases.antt =====
-- The accounts and profiles that a call of the sign-in can leave: what holds of each of them holds after
-- the call.
use swift_chat_backend.Base.{
  ℕ, ◌≡◌, refl, inl, inr, Bool, false, Option, none, some, List, ◌∷◌, arith, any, find, update,
  Option-cases,
}
use swift_chat_backend.Db.{Db, Account, Profile}
use swift_chat_backend.Users.{
  NewAccount, create, is_google_of, is_account, has_email, has_username, clashes, new_account,
  new_profile,
}
use swift_chat_backend.Users.Profiles.{seen_now, update_last_seen, with_hash}
use swift_chat_backend.Auth.{generate_token_pair, put_otp}
use swift_chat_backend.Auth.Registration.{
  register, resend_verification_otp, verify_email, is_other_named, overwritten, verified,
  password_account,
}
use swift_chat_backend.Auth.Sessions.{
  login, refresh_token, logout, google_login, GooglePayload, upgraded, google_account,
  google_username,
}
use swift_chat_backend.Auth.Passwords.{forgot_password, reset_password, is_reset_of}

-- What is kept of a row where a call changes something else.
abbrev pub KeepsKeys : (Account → Account) → Type 0
KeepsKeys f =
    (r : Account) → ((f r).id ≡ r.id) × ((f r).username ≡ r.username) × ((f r).email ≡ r.email)

module _ (P : List Account → List Profile → Type 0) (db : Db)
    (same : P db.accounts db.profiles) where
  abbrev Touched : Type 0
  Touched =
      (a : ℕ) (f : Account → Account)
      → KeepsKeys f
      → P (update (is_account a) f db.accounts) db.profiles

  abbrev Added : Type 0
  Added =
      (now id handle : ℕ) (dto : NewAccount)
      → clashes id handle dto db ≡ false
      → P (new_account now id dto ∷ db.accounts) (new_profile id handle dto ∷ db.profiles)

  pub register_cases :
      (now id handle email username password_hash otp_hash : ℕ) (mailed : Bool)
      → Added
      → ((l : Account)
          → any (is_other_named username l.id) db.accounts ≡ false
          → P
              (update (is_account l.id) (overwritten username password_hash) db.accounts)
              db.profiles)
      → let db' = (register now id handle email username password_hash otp_hash mailed db).1 in
        P db'.accounts db'.profiles
  unfolding register create put_otp
  register_cases now id handle email username password_hash otp_hash mailed added over =
      elim (Option-cases (find (has_email email) db.accounts)) [
        | inl e ↦
            ground
              (arith, e, same, added now id handle (password_account email username password_hash))
        | inr (l, e) ↦ ground (arith, e, same, over l)
      ]

  pub verify_email_cases :
      (digest : ℕ → ℕ) (now token email otp : ℕ)
      → Touched
      → let db' = (verify_email digest now token email otp db).1 in P db'.accounts db'.profiles
  unfolding verify_email generate_token_pair
  verify_email_cases digest now token email otp touched =
      elim (Option-cases (find (has_email email) db.accounts)) [
        | inl e ↦ ground (arith, e, same)
        | inr (l, e) ↦
            ground (arith, e, same, touched l.id (verified now) (λ r. (refl, refl, refl)))
      ]

  pub google_login_cases :
      (now token id handle base drawn : ℕ) (payload : Option GooglePayload)
      → Added
      → Touched
      → let db' = (google_login now token id handle base drawn payload db).1 in
        P db'.accounts db'.profiles
  unfolding google_login create generate_token_pair
  google_login_cases now token id handle base drawn none added touched = same
  google_login_cases now token id handle base drawn (some payload) added touched =
      elim (Option-cases (find (is_google_of payload.sub) db.providers)) [
        | inr (p, e) ↦ ground (arith, e, same)
        | inl n ↦ elim (Option-cases (find (has_email payload.email) db.accounts)) [
          | inl e ↦ ground (
            arith,
            n,
            e,
            same,
            added now id handle (google_account (google_username base drawn db) payload),
          )
          | inr (l, e) ↦
              ground (arith, n, e, same, touched l.id (upgraded now) (λ r. (refl, refl, refl)))
        ]
      ]

  pub reset_password_cases :
      (hash : ℕ → ℕ) (now token password_hash : ℕ)
      → Touched
      → let db' = (reset_password hash now token password_hash db).1 in P db'.accounts db'.profiles
  unfolding reset_password
  reset_password_cases hash now token password_hash touched =
      elim (Option-cases (find (is_reset_of (hash token)) db.reset_tokens)) [
        | inl e ↦ ground (arith, e, same)
        | inr (t, e) ↦ ground (
          arith,
          e,
          same,
          touched t.account_id (with_hash password_hash) (λ r. (refl, refl, refl)),
        )
      ]

  pub logout_cases :
      (now a : ℕ) (token : Option ℕ)
      → Touched
      → let db' = (logout now a token db).1 in P db'.accounts db'.profiles
  unfolding logout update_last_seen
  logout_cases now a none touched =
      ground (arith, same, touched a (seen_now now) (λ r. (refl, refl, refl)))
  logout_cases now a (some token) touched =
      ground (arith, same, touched a (seen_now now) (λ r. (refl, refl, refl)))

  -- Calls that leave both tables.
  pub resend_verification_otp_cases :
      (now email otp_hash : ℕ) (mailed : Bool)
      → let db' = (resend_verification_otp now email otp_hash mailed db).1 in
        P db'.accounts db'.profiles
  unfolding resend_verification_otp put_otp
  resend_verification_otp_cases now email otp_hash mailed =
      elim (Option-cases (find (has_email email) db.accounts)) [
        | inl e ↦ ground (arith, e, same)
        | inr (l, e) ↦ ground (arith, e, same)
      ]

  pub login_cases :
      (compare : ℕ → ℕ → Bool) (now token username pass : ℕ)
      → let db' = (login compare now token username pass db).1 in P db'.accounts db'.profiles
  unfolding login generate_token_pair
  login_cases compare now token username pass =
      elim (Option-cases (find (has_username username) db.accounts)) [
        | inl e ↦ ground (arith, e, same)
        | inr (l, e) ↦ ground (arith, e, same)
      ]

  pub refresh_token_cases :
      (now : ℕ) (payload : Option ℕ) (token new_token : ℕ)
      → let db' = (refresh_token now payload token new_token db).1 in P db'.accounts db'.profiles
  unfolding refresh_token generate_token_pair
  refresh_token_cases now none token new_token = same
  refresh_token_cases now (some sub) token new_token = ground (arith, same)

  pub forgot_password_cases :
      (now id email token_hash : ℕ) (mailed : Bool)
      → let db' = (forgot_password now id email token_hash mailed db).1 in
        P db'.accounts db'.profiles
  unfolding forgot_password
  forgot_password_cases now id email token_hash mailed =
      elim (Option-cases (find (has_email email) db.accounts)) [
        | inl e ↦ ground (arith, e, same)
        | inr (l, e) ↦ ground (arith, e, same)
      ]

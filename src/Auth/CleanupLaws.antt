-- ===== src/Auth/CleanupLaws.antt =====
-- Whom the purge of unverified accounts hits (src/auth/token-cleanup.service.ts).
use swift_chat_backend.Base.{
  ℕ, ◌≡◌, refl, Bool, true, false, none, some, List, [], ◌∷◌, arith, ok, ◌==◌, ltb, any, find,
  remove, ==_refl,
}
use swift_chat_backend.Base.Keys.{HasKey}
use swift_chat_backend.Base.Rows.{any-remove_none, any-none, find-update_if}
use swift_chat_backend.Db.{Db, Account}
use swift_chat_backend.Users.{is_account, has_email}
use swift_chat_backend.Auth.{put_otp}
use swift_chat_backend.Auth.Cleanup.{purge_unverified_accounts, is_stale, yesterday}
use swift_chat_backend.Auth.Registration.{register, overwritten}
use swift_chat_backend.Auth.Identity.{HasIdentities, register-HasIdentities}

-- With a unique key, removing the row that has it leaves none that has it.
remove-HasKey :
    {A : Type 0} (key : A → ℕ) (v : ℕ) (q : A → Bool) (rows : List A) (r : A)
    → HasKey key rows
    → find (λ x. key x == v) rows ≡ some r
    → q r ≡ true
    → any (λ x. key x == v) (remove q rows) ≡ false
remove-HasKey key v q [] r u e h = cc
remove-HasKey key v q (x ∷ rows) r u e h =
    ground
      (arith, u.0, e, h, any-remove_none (λ y. key y == v) q rows, remove-HasKey key v q rows r u.1)

-- The account after a registration over it.
register-over :
    (now id handle email username password_hash otp_hash : ℕ) (mailed : Bool) (a : ℕ) (l : Account)
    (db : Db)
    → find (has_email email) db.accounts ≡ some l
    → let r = register now id handle email username password_hash otp_hash mailed db in
      r.0 ≡ ok a → find (has_email email) r.1.accounts ≡ some (overwritten username password_hash l)
unfolding register put_otp
register-over now id handle email username password_hash otp_hash mailed a l db found done =
    ground (
      arith,
      found,
      done,
      ==_refl l.id,
      find-update_if (has_email email) (is_account l.id) (overwritten username password_hash)
          db.accounts l (λ x u. refl) found,
    )

-- A registration over an unverified account does not make it younger: if the account that has the email is
-- older than a day when the job runs, it is deleted, however short ago the owner registered again and
-- was sent a code.
pub register-purged :
    (now later id handle email username password_hash otp_hash : ℕ) (mailed : Bool) (a : ℕ)
    (l : Account) (db : Db)
    → HasIdentities db
    → find (has_email email) db.accounts ≡ some l
    → l.is_email_verified ≡ false
    → ltb l.created_at (yesterday later) ≡ true
    → let r = register now id handle email username password_hash otp_hash mailed db in
      r.0 ≡ ok a → find (has_email email) (purge_unverified_accounts later r.1).1.accounts ≡ none
unfolding purge_unverified_accounts
register-purged now later id handle email username password_hash otp_hash mailed a l db i found new
      old done =
    let r = register now id handle email username password_hash otp_hash mailed db in
    let identified =
      register-HasIdentities now id handle email username password_hash otp_hash mailed db i in
    any-none (has_email email) (remove (is_stale later) r.1.accounts) (
      remove-HasKey (λ x. x.email) email (is_stale later) r.1.accounts
        (overwritten username password_hash l) identified.emails
        (register-over now id handle email username password_hash otp_hash mailed a l db found done)
        (ground (arith, new, old)))

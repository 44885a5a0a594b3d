-- ===== src/Users/PasswordLaws.antt =====
-- What a change of a password does (`UserService.changePassword`, src/user/user.service.ts).
use swift_chat_backend.Base.{
  ℕ, ◌≡◌, refl, inl, inr, Bool, true, false, some, arith, ok, ◌==◌, any, find, Option-cases,
}
use swift_chat_backend.Base.Rows.{find_holds, any-remove_covered, find-update_if}
use swift_chat_backend.Db.{Db, Account}
use swift_chat_backend.Users.{is_account, is_right, has_password_provider}
use swift_chat_backend.Users.Profiles.{change_password, with_hash}

-- A change that returns was asked for with the right password of an account that has a password login;
-- afterwards the account has the new hash and no session, whatever sessions it had: no refresh token of
-- it is stored.
pub change_password-ok :
    (compare : ℕ → ℕ → Bool) (a current new_hash : ℕ) (db : Db)
    → let r = change_password compare a current new_hash db in
      r.0 ≡ ok tt
      → (l : Account) × (find (is_account a) db.accounts ≡ some l)
        × (is_right compare current l.password_hash ≡ true)
        × (has_password_provider a db ≡ true)
        × (find (is_account a) r.1.accounts ≡ some (record l { password_hash = some new_hash }))
        × (any (λ t. t.account_id == a) r.1.refresh_tokens ≡ false)
unfolding change_password
change_password-ok compare a current new_hash db done =
    elim (Option-cases (find (is_account a) db.accounts)) [
      | inl e ↦ ground (arith, e, done)
      | inr (l, e) ↦ (
        l,
        e,
        ground (arith, e, done),
        ground (arith, e, done),
        ground (
          arith,
          e,
          done,
          find_holds (is_account a) db.accounts l e,
          find-update_if (is_account a) (is_account a) (with_hash new_hash) db.accounts l
              (λ x u. refl) e,
        ),
        ground (
          arith,
          e,
          done,
          any-remove_covered (λ t. t.account_id == a) (λ t. t.account_id == a) db.refresh_tokens
              (λ r h. h),
        ),
      )
    ]

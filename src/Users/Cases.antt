-- ===== src/Users/Cases.antt =====
-- The states that a call of `UserService` can leave: what holds in each of them holds after the call.
use swift_chat_backend.Base.{
  ℕ, ◌≡◌, inl, inr, Bool, false, some, ◌∷◌, ◌++◌, map, arith, ◌==◌, find, update, remove,
  Bool-cases, Option-cases,
}
use swift_chat_backend.Db.{Db, UserResponse}
use swift_chat_backend.Users.{
  NewAccount, create, is_account, is_profile_of, clashes, new_account, new_profile, provider_of,
}
use swift_chat_backend.Users.Profiles.{
  UpdateProfile, update_profile, with_changes, update_last_seen, get_user_profile, change_password,
  profile_of, is_cached_profile, seen_now, with_hash, cached_profile, is_handle_taken,
}

module _ (P : Db → Type 0) where
  pub create_cases :
      (now id handle : ℕ) (dto : NewAccount) (db : Db)
      → P db
      → (clashes id handle dto db ≡ false
          → P (record db {
            accounts = new_account now id dto ∷ db.accounts;
            profiles = new_profile id handle dto ∷ db.profiles;
            providers = map (provider_of id) dto.providers ++ db.providers;
          }))
      → P (create now id handle dto db).1
  unfolding create
  create_cases now id handle dto db h k = elim (Bool-cases (clashes id handle dto db)) [
    | inl e ↦ rw e h
    | inr e ↦ rw e (k e)
  ]

  pub update_profile_cases :
      (a : ℕ) (dto : UpdateProfile) (db : Db)
      → P db
      → (is_handle_taken a dto.handle db ≡ false
          → P (record db {
            profiles = update (is_profile_of a) (with_changes dto) db.profiles;
            profile_cache = remove (λ k. k.account_id == a) db.profile_cache;
          }))
      → P (update_profile a dto db).1
  unfolding update_profile
  update_profile_cases a dto db h k = ground (arith, h, k)

  pub update_last_seen_cases :
      (now a : ℕ) (db : Db)
      → P db
      → P (record db {
        accounts = update (is_account a) (seen_now now) db.accounts;
        profile_cache = remove (λ k. k.account_id == a) db.profile_cache;
      })
      → P (update_last_seen now a db).1
  unfolding update_last_seen
  update_last_seen_cases now a db h k = ground (arith, h, k)

  pub change_password_cases :
      (compare : ℕ → ℕ → Bool) (a current new_hash : ℕ) (db : Db)
      → P db
      → P (record db {
        accounts = update (is_account a) (with_hash new_hash) db.accounts;
        refresh_tokens = remove (λ r. r.account_id == a) db.refresh_tokens;
        profile_cache = remove (λ k. k.account_id == a) db.profile_cache;
      })
      → P (change_password compare a current new_hash db).1
  unfolding change_password
  change_password_cases compare a current new_hash db h k =
      elim (Option-cases (find (is_account a) db.accounts)) [
        | inl e ↦ ground (arith, e, h)
        | inr (l, e) ↦ ground (arith, e, h, k)
      ]

  pub get_user_profile_cases :
      (now a : ℕ) (db : Db)
      → P db
      → ((response : UserResponse)
          → profile_of a db ≡ some response
          → P (record db {
            profile_cache =
                cached_profile now a response ∷ remove (λ k. k.account_id == a) db.profile_cache;
          }))
      → P (get_user_profile now a db).1
  unfolding get_user_profile
  get_user_profile_cases now a db h k =
      elim (Option-cases (find (is_cached_profile now a) db.profile_cache)) [
        | inr (c, e) ↦ rw e h
        | inl e ↦ elim (Option-cases (profile_of a db)) [
          | inl n ↦ rw (e, n) h
          | inr (r, s) ↦ rw (e, s) (k r s)
        ]
      ]

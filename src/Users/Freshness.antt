-- ===== src/Users/Freshness.antt =====
-- The cached profiles against the tables: `getUserProfile` is a read-through cache.
use swift_chat_backend.Base.{
  ℕ, ◌≡◌, ◌≢◌, refl, ap, inl, inr, Bool, true, false, some, List, ◌++◌, map, [], ◌∷◌, arith,
  or_raise, ◌==◌, any, find, update, remove, All, Bool-cases, Option-cases,
}
use swift_chat_backend.Base.Rows.{find-All, find_holds, All-remove, any-none}
use swift_chat_backend.Http.{not_found, user_not_found}
use swift_chat_backend.Db.{Db, Account, Profile, UserResponse, CachedProfile}
use swift_chat_backend.Users.{
  NewAccount, is_account, is_profile_of, clashes, new_account, new_profile, provider_of,
}
use swift_chat_backend.Users.Profiles.{
  UpdateProfile, with_changes, get_user_profile, profile_of, cached_profile, is_cached_profile,
  seen_now, with_hash,
}
use swift_chat_backend.Users.Cases.{
  create_cases, update_profile_cases, update_last_seen_cases, change_password_cases,
  get_user_profile_cases,
}
use swift_chat_backend.Users.Calls.{Call, sign_up, edit, leave, read, new_password, call, step, run}

-- What a key holds is what the tables say.
abbrev pub IsFreshKey : Db → CachedProfile → Type 0
IsFreshKey db k = profile_of k.account_id db ≡ some k.response

abbrev pub IsFresh : Db → Type 0
IsFresh db = All (IsFreshKey db) db.profile_cache

-- An update of the rows of one account is not seen by another one.
find-update_apart :
    {A : Type 0} (p q : A → Bool) (f : A → A) (rows : List A)
    → ((r : A) → q r ≡ true → p r ≡ false)
    → ((r : A) → q r ≡ true → p (f r) ≡ false)
    → find p (update q f rows) ≡ find p rows
find-update_apart p q f [] h k = refl
find-update_apart p q f (x ∷ rows) h k = ground (arith, h x, k x, find-update_apart p q f rows h k)

-- A call that changes what the tables say of one account, and drops its key.
remove-IsFresh :
    (a : ℕ) (db db' : Db) (keys : List CachedProfile)
    → ((b : ℕ) → b ≢ a → profile_of b db' ≡ profile_of b db)
    → All (IsFreshKey db) keys
    → All (IsFreshKey db') (remove (λ k. k.account_id == a) keys)
remove-IsFresh a db db' [] same fresh = tt
remove-IsFresh a db db' (k ∷ keys) same fresh = elim (Bool-cases (k.account_id == a)) [
  | inl e ↦ rw e (remove-IsFresh a db db' keys same fresh.1)
  | inr e ↦ rw e (
    rw (same k.account_id (λ h. ground (arith, e, h))) fresh.0,
    remove-IsFresh a db db' keys same fresh.1,
  )
]

accounts-apart :
    (a b : ℕ) (f : Account → Account) (rows : List Account)
    → ((r : Account) → (f r).id ≡ r.id)
    → b ≢ a
    → find (is_account b) (update (is_account a) f rows) ≡ find (is_account b) rows
accounts-apart a b f rows same ne =
    find-update_apart (is_account b) (is_account a) f rows (λ r h. ground (arith, h, ne))
      (λ r h. ground (arith, h, ne, same r))

profiles-apart :
    (a b : ℕ) (dto : UpdateProfile) (rows : List Profile)
    → b ≢ a
    → find (is_profile_of b) (update (is_profile_of a) (with_changes dto) rows)
      ≡ find (is_profile_of b) rows
profiles-apart a b dto rows ne =
    find-update_apart (is_profile_of b) (is_profile_of a) (with_changes dto) rows
      (λ r h. ground (arith, h, ne)) (λ r h. ground (arith, h, ne))

accounts-IsFresh :
    (a : ℕ) (f : Account → Account) (db : Db)
    → ((r : Account) → (f r).id ≡ r.id)
    → IsFresh db
    → All
        (IsFreshKey (record db { accounts = update (is_account a) f db.accounts }))
        (remove (λ k. k.account_id == a) db.profile_cache)
unfolding profile_of
accounts-IsFresh a f db same fresh =
    remove-IsFresh a db (record db { accounts = update (is_account a) f db.accounts })
      db.profile_cache (λ b ne. rw (accounts-apart a b f db.accounts same ne) refl) fresh

profiles-IsFresh :
    (a : ℕ) (dto : UpdateProfile) (db : Db)
    → IsFresh db
    → All
        (IsFreshKey
          (record db { profiles = update (is_profile_of a) (with_changes dto) db.profiles }))
        (remove (λ k. k.account_id == a) db.profile_cache)
unfolding profile_of
profiles-IsFresh a dto db fresh =
    remove-IsFresh a db
      (record db { profiles = update (is_profile_of a) (with_changes dto) db.profiles })
      db.profile_cache (λ b ne. rw (profiles-apart a b dto db.profiles ne) refl) fresh

read-IsFresh :
    (now a : ℕ) (response : UserResponse) (db : Db)
    → profile_of a db ≡ some response
    → IsFresh db
    → All
        (IsFreshKey db)
        (cached_profile now a response ∷ remove (λ k. k.account_id == a) db.profile_cache)
read-IsFresh now a response db e fresh =
    (e, All-remove (IsFreshKey db) (λ k. k.account_id == a) db.profile_cache fresh)

-- With such keys a read answers what the tables say.
IsFresh-answer :
    (now a : ℕ) (db : Db)
    → IsFresh db
    → (get_user_profile now a db).0 ≡ (or_raise (profile_of a db) (not_found user_not_found) db).0
unfolding get_user_profile
IsFresh-answer now a db fresh =
    elim (Option-cases (find (is_cached_profile now a) db.profile_cache)) [
      | inl e ↦ elim (Option-cases (profile_of a db)) [
        | inl n ↦ rw (e, n) refl
        | inr (r, s) ↦ rw (e, s) refl
      ]
      | inr (k, e) ↦
          let right =
            find-All (is_cached_profile now a) (IsFreshKey db) db.profile_cache k fresh e in
          let same : k.account_id ≡ a =
            ground (arith, find_holds (is_cached_profile now a) db.profile_cache k e) in
          rw (e, ← same, right) refl
    ]

-- An account that has a key is not the one that is made.
known-apart :
    (id handle : ℕ) (dto : NewAccount) (db : Db) (k : CachedProfile)
    → clashes id handle dto db ≡ false
    → IsFreshKey db k
    → k.account_id ≢ id
unfolding profile_of
known-apart id handle dto db k free fresh h =
    elim (Bool-cases (any (is_account k.account_id) db.accounts)) [
      | inl e ↦
          let unknown : any (is_account id) db.accounts ≡ false = ground (arith, free) in
          cc (ap (λ i. any (is_account i) db.accounts) h, e, unknown)
      | inr e ↦ ground (arith, fresh, any-none (is_account k.account_id) db.accounts e)
    ]

add-IsFresh :
    (now id handle : ℕ) (dto : NewAccount) (db : Db) (keys : List CachedProfile)
    → clashes id handle dto db ≡ false
    → All (IsFreshKey db) keys
    → All
        (IsFreshKey (record db {
          accounts = new_account now id dto ∷ db.accounts;
          profiles = new_profile id handle dto ∷ db.profiles;
          providers = map (provider_of id) dto.providers ++ db.providers;
        }))
        keys
unfolding profile_of
add-IsFresh now id handle dto db [] free fresh = tt
add-IsFresh now id handle dto db (k ∷ keys) free fresh = (
  ground (arith, fresh.0, known-apart id handle dto db k free fresh.0),
  add-IsFresh now id handle dto db keys free fresh.1,
)

step-IsFresh : (c : Call) (db : Db) → IsFresh db → IsFresh (step c db)
unfolding call profile_of
step-IsFresh (sign_up now id handle dto) db fresh = ground (
  arith,
  create_cases IsFresh now id handle dto db fresh
      (λ free. add-IsFresh now id handle dto db db.profile_cache free fresh),
)
step-IsFresh (edit a dto) db fresh =
    ground
      (arith, update_profile_cases IsFresh a dto db fresh (λ _. profiles-IsFresh a dto db fresh))
step-IsFresh (leave now a) db fresh =
    update_last_seen_cases IsFresh now a db fresh
      (accounts-IsFresh a (seen_now now) db (λ r. refl) fresh)
step-IsFresh (read now a) db fresh = ground (
  arith,
  get_user_profile_cases IsFresh now a db fresh
      (λ response e. read-IsFresh now a response db e fresh),
)
step-IsFresh (new_password compare a current new_hash) db fresh =
    change_password_cases IsFresh compare a current new_hash db fresh
      (accounts-IsFresh a (with_hash new_hash) db (λ r. refl) fresh)

run-IsFresh : (calls : List Call) (db : Db) → IsFresh db → IsFresh (run calls db)
unfolding run
run-IsFresh [] db fresh = fresh
run-IsFresh (c ∷ calls) db fresh = run-IsFresh calls (step c db) (step-IsFresh c db fresh)

-- The cache is not seen: after any sequence of calls of `UserService` that starts with keys that agree
-- with the tables (or with none), `getUserProfile` answers what the tables say at that moment, whether
-- it finds a key or not, and "not found" where they have no account or no profile.
pub get_user_profile-run :
    (calls : List Call) (now a : ℕ) (db : Db)
    → IsFresh db
    → let after = run calls db in
      (get_user_profile now a after).0
      ≡ (or_raise (profile_of a after) (not_found user_not_found) after).0
get_user_profile-run calls now a db fresh =
    IsFresh-answer now a (run calls db) (run-IsFresh calls db fresh)

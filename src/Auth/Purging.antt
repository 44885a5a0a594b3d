-- ===== src/Auth/Purging.antt =====
-- What the purge of unverified accounts spares, and what it takes with it
-- (src/auth/token-cleanup.service.ts).
use swift_chat_backend.Base.{
  ℕ, ◌≡◌, refl, inl, inr, Bool, true, false, not, ◌&&◌, ◌||◌, none, some, List, [], ◌∷◌, arith, ◌+◌,
  ◌*◌, ◌==◌, ==_iff, ◌∙◌, leb, select, if◌then◌else◌, any, find, remove, All, Bool-cases,
}
use swift_chat_backend.Base.Keys.{HasKey}
use swift_chat_backend.Db.{Db, Account}
use swift_chat_backend.Users.{is_account}
use swift_chat_backend.Auth.{minute_ms}
use swift_chat_backend.Auth.Cleanup.{purge_unverified_accounts, is_stale, goes}

abbrev pub Exists : List Account → ℕ → Type 0
Exists accounts id = any (is_account id) accounts ≡ true

-- The foreign keys of the tables.
pub record IsClosed (db : Db) : Type 0 where
  pub profiles : All (λ r. Exists db.accounts r.account_id) db.profiles
  pub providers : All (λ r. Exists db.accounts r.account_id) db.providers
  pub refresh_tokens : All (λ r. Exists db.accounts r.account_id) db.refresh_tokens
  pub reset_tokens : All (λ r. Exists db.accounts r.account_id) db.reset_tokens
  pub otps : All (λ r. Exists db.accounts r.account_id) db.otps
  pub device_tokens : All (λ r. Exists db.accounts r.account_id) db.device_tokens
  pub friends :
      All (λ r. Exists db.accounts r.account_id1 × Exists db.accounts r.account_id2) db.friends
  pub friend_requests :
      All
        (λ r. Exists db.accounts r.sender_id × Exists db.accounts r.receiver_id)
        db.friend_requests
  pub blocks :
      All (λ r. Exists db.accounts r.blocker_id × Exists db.accounts r.blocked_id) db.blocks
  pub participants : All (λ r. Exists db.accounts r.account_id) db.participants
  pub notifications :
      All (λ r. Exists db.accounts r.account_id × Exists db.accounts r.actor_id) db.notifications

any-remove_kept :
    {A : Type 0} (p q : A → Bool) (rows : List A)
    → any p rows ≡ true
    → any (λ r. p r && q r) rows ≡ false
    → any p (remove q rows) ≡ true
any-remove_kept p q [] e h = cc
any-remove_kept p q (r ∷ rows) e h = ground (arith, e, h, any-remove_kept p q rows)

module _ (now : ℕ) (db : Db) where
  abbrev left : List Account
  left = remove (is_stale now) db.accounts

  Exists-left : (id : ℕ) → Exists db.accounts id → goes now db id ≡ false → Exists left id
  Exists-left id e h = any-remove_kept (is_account id) (is_stale now) db.accounts e h

  cascade :
      {A : Type 0} (key : A → ℕ) (rows : List A)
      → All (λ r. Exists db.accounts (key r)) rows
      → All (λ r. Exists left (key r)) (remove (λ r. goes now db (key r)) rows)
  cascade key [] a = tt
  cascade key (r ∷ rows) a = elim (Bool-cases (goes now db (key r))) [
    | inl e ↦ rw e (cascade key rows a.1)
    | inr e ↦ rw e (Exists-left (key r) a.0 e, cascade key rows a.1)
  ]

  -- A row that names two accounts.
  cascade_both :
      {A : Type 0} (key key' : A → ℕ) (rows : List A)
      → All (λ r. Exists db.accounts (key r) × Exists db.accounts (key' r)) rows
      → All
          (λ r. Exists left (key r) × Exists left (key' r))
          (remove (λ r. goes now db (key r) || goes now db (key' r)) rows)
  cascade_both key key' [] a = tt
  cascade_both key key' (r ∷ rows) a = elim (Bool-cases (goes now db (key r))) [
    | inl e ↦ rw e (cascade_both key key' rows a.1)
    | inr e ↦ elim (Bool-cases (goes now db (key' r))) [
      | inl e' ↦ rw (e, e') (cascade_both key key' rows a.1)
      | inr e' ↦
          rw (e, e')
            (
              (Exists-left (key r) a.0.0 e, Exists-left (key' r) a.0.1 e'),
              cascade_both key key' rows a.1,
            )
    ]
  ]

purge-IsClosed : (now : ℕ) (db : Db) → IsClosed db → IsClosed (purge_unverified_accounts now db).1
unfolding purge_unverified_accounts
purge-IsClosed now db c = record {
  profiles = cascade now db (λ r. r.account_id) db.profiles c.profiles;
  providers = cascade now db (λ r. r.account_id) db.providers c.providers;
  refresh_tokens = cascade now db (λ r. r.account_id) db.refresh_tokens c.refresh_tokens;
  reset_tokens = cascade now db (λ r. r.account_id) db.reset_tokens c.reset_tokens;
  otps = cascade now db (λ r. r.account_id) db.otps c.otps;
  device_tokens = cascade now db (λ r. r.account_id) db.device_tokens c.device_tokens;
  friends = cascade_both now db (λ r. r.account_id1) (λ r. r.account_id2) db.friends c.friends;
  friend_requests =
      cascade_both now db (λ r. r.sender_id) (λ r. r.receiver_id) db.friend_requests
        c.friend_requests;
  blocks = cascade_both now db (λ r. r.blocker_id) (λ r. r.blocked_id) db.blocks c.blocks;
  participants = cascade now db (λ r. r.account_id) db.participants c.participants;
  notifications =
      cascade_both now db (λ r. r.account_id) (λ r. r.actor_id) db.notifications c.notifications;
}

-- Verified, or no older than a day.
abbrev pub is_spared : (now : ℕ) → Account → Bool
is_spared now a = a.is_email_verified || leb now (a.created_at + 24 * 60 * minute_ms)

is_stale-is_spared : (now : ℕ) (a : Account) → is_stale now a ≡ not (is_spared now a)
is_stale-is_spared now a = ground arith

-- With unique ids, the account that has the id decides whether a row with it goes.
module _ (id : ℕ) (q : Account → Bool) where
  none-chosen :
      (k : ℕ) (rows : List Account)
      → (k == id) ≡ true
      → any (λ x. x.id == k) rows ≡ false
      → any (λ x. x.id == id && q x) rows ≡ false
  none-chosen k [] i e = refl
  none-chosen k (x ∷ rows) i e = ground (arith, i, e, none-chosen k rows i)

  chosen :
      (rows : List Account) (l : Account)
      → HasKey (λ a. a.id) rows
      → find (is_account id) rows ≡ some l
      → any (λ a. a.id == id && q a) rows ≡ q l
  chosen [] l u e = cc
  chosen (a ∷ rows) l u e = elim (Bool-cases (is_account id a)) [
    | inl same ↦ ground (arith, same, e, none-chosen a.id rows same u.0)
    | inr not_same ↦ ground (arith, not_same, e, chosen rows l u.1)
  ]

  none-left :
      (k : ℕ) (rows : List Account)
      → (k == id) ≡ true
      → any (λ x. x.id == k) rows ≡ false
      → find (is_account id) (remove q rows) ≡ none
  none-left k [] i e = refl
  none-left k (x ∷ rows) i e = ground (arith, i, e, none-left k rows i)

  left-account :
      (rows : List Account) (l : Account)
      → HasKey (λ a. a.id) rows
      → find (is_account id) rows ≡ some l
      → find (is_account id) (remove q rows) ≡ (if q l then none else some l)
  left-account [] l u e = cc
  left-account (a ∷ rows) l u e = elim (Bool-cases (is_account id a)) [
    | inl same ↦ ground (arith, same, e, none-left a.id rows same u.0)
    | inr not_same ↦ ground (arith, not_same, e, left-account rows l u.1)
  ]

-- The rows of an account, where it is spared.
abbrev pub own_if : {A : Type 0} → (spared : Bool) → (A → ℕ) → (id : ℕ) → List A → List A
own_if true key id rows = select (λ r. key r == id) rows
own_if false key id rows = []

own-left :
    {A : Type 0} (now id : ℕ) (db : Db) (spared : Bool) (key : A → ℕ) (rows : List A)
    → goes now db id ≡ not spared
    → select (λ r. key r == id) (remove (λ r. goes now db (key r)) rows) ≡ own_if spared key id rows
own-left now id db true key [] e = refl
own-left now id db true key (r ∷ rows) e = elim (Bool-cases (key r == id)) [
  | inl same ↦
      let stays : goes now db (key r) ≡ false = rw ((==_iff (key r) id).0 same) e in
      ground (arith, same, stays, own-left now id db true key rows e)
  | inr other ↦ ground (arith, other, own-left now id db true key rows e)
]
own-left now id db false key [] e = refl
own-left now id db false key (r ∷ rows) e = elim (Bool-cases (key r == id)) [
  | inl same ↦
      let leaves : goes now db (key r) ≡ true = rw ((==_iff (key r) id).0 same) e in
      ground (arith, same, leaves, own-left now id db false key rows e)
  | inr other ↦ ground (arith, other, own-left now id db false key rows e)
]

-- What the purge leaves of the account `id`: it is spared exactly if it is verified or no older than a
-- day. Then it stays as it is, with all its own rows, and otherwise it goes with all of them.
pub record IsPurged (now id : ℕ) (l : Account) (db db' : Db) : Type 0 where
  pub account : find (is_account id) db'.accounts ≡ (if is_spared now l then some l else none)
  pub profiles :
      select (λ r. r.account_id == id) db'.profiles
      ≡ own_if (is_spared now l) (λ r. r.account_id) id db.profiles
  pub providers :
      select (λ r. r.account_id == id) db'.providers
      ≡ own_if (is_spared now l) (λ r. r.account_id) id db.providers
  pub refresh_tokens :
      select (λ r. r.account_id == id) db'.refresh_tokens
      ≡ own_if (is_spared now l) (λ r. r.account_id) id db.refresh_tokens
  pub reset_tokens :
      select (λ r. r.account_id == id) db'.reset_tokens
      ≡ own_if (is_spared now l) (λ r. r.account_id) id db.reset_tokens
  pub otps :
      select (λ r. r.account_id == id) db'.otps
      ≡ own_if (is_spared now l) (λ r. r.account_id) id db.otps
  pub device_tokens :
      select (λ r. r.account_id == id) db'.device_tokens
      ≡ own_if (is_spared now l) (λ r. r.account_id) id db.device_tokens
  pub participants :
      select (λ r. r.account_id == id) db'.participants
      ≡ own_if (is_spared now l) (λ r. r.account_id) id db.participants

-- The purge, where the ids of the accounts are unique and every foreign key names an account: an
-- account is spared exactly if it is verified or no older than a day; then it keeps its profile, sign-in
-- methods, tokens, codes, devices and memberships, and otherwise it goes with all of them. No row is
-- left that names an account which is gone.
pub purge_unverified_accounts-IsPurged :
    (now id : ℕ) (l : Account) (db : Db)
    → HasKey (λ a. a.id) db.accounts
    → IsClosed db
    → find (is_account id) db.accounts ≡ some l
    → let db' = (purge_unverified_accounts now db).1 in IsPurged now id l db db' × IsClosed db'
unfolding purge_unverified_accounts
purge_unverified_accounts-IsPurged now id l db u c found =
    let spared = is_spared now l in
    let gone : goes now db id ≡ not spared =
      chosen id (is_stale now) db.accounts l u found ∙ is_stale-is_spared now l in
    (
      record {
        account =
            ground (
              arith,
              left-account id (is_stale now) db.accounts l u found,
              is_stale-is_spared now l,
            );
        profiles = own-left now id db spared (λ r. r.account_id) db.profiles gone;
        providers = own-left now id db spared (λ r. r.account_id) db.providers gone;
        refresh_tokens = own-left now id db spared (λ r. r.account_id) db.refresh_tokens gone;
        reset_tokens = own-left now id db spared (λ r. r.account_id) db.reset_tokens gone;
        otps = own-left now id db spared (λ r. r.account_id) db.otps gone;
        device_tokens = own-left now id db spared (λ r. r.account_id) db.device_tokens gone;
        participants = own-left now id db spared (λ r. r.account_id) db.participants gone;
      },
      purge-IsClosed now db c,
    )

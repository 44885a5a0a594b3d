-- ===== src/Auth/Cleanup.antt =====
-- The jobs of `TokenCleanupService` (src/auth/token-cleanup.service.ts), with the rows that PostgreSQL
-- deletes with an account (`onDelete: Cascade` in prisma/schema.prisma).
use swift_chat_backend.Base.{
  ℕ, ◌-◌, ◌*◌, Bool, not, ◌&&◌, ◌||◌, Action, modify, ◌==◌, ltb, any, remove,
}
use swift_chat_backend.Db.{Db, Account}
use swift_chat_backend.Auth.{minute_ms}

-- `purgeExpiredRefreshTokens`
unfoldable pub purge_expired_refresh_tokens : (now : ℕ) → Action Db (Unit {0})
purge_expired_refresh_tokens now =
    modify
      (λ db. record db { refresh_tokens = remove (λ t. ltb t.expires_at now) db.refresh_tokens })

abbrev pub yesterday : (now : ℕ) → ℕ
yesterday now = now - 24 * 60 * minute_ms

abbrev pub is_stale : (now : ℕ) → Account → Bool
is_stale now a = not a.is_email_verified && ltb a.created_at (yesterday now)

-- Whether an account with this id goes.
abbrev pub goes : (now : ℕ) → Db → ℕ → Bool
goes now db id = any (λ a. a.id == id && is_stale now a) db.accounts

-- `purgeUnverifiedAccounts`
unfoldable pub purge_unverified_accounts : (now : ℕ) → Action Db (Unit {0})
purge_unverified_accounts now = modify (λ db.
    let gone = goes now db in
    record db {
      accounts = remove (is_stale now) db.accounts;
      profiles = remove (λ r. gone r.account_id) db.profiles;
      providers = remove (λ r. gone r.account_id) db.providers;
      refresh_tokens = remove (λ r. gone r.account_id) db.refresh_tokens;
      reset_tokens = remove (λ r. gone r.account_id) db.reset_tokens;
      otps = remove (λ r. gone r.account_id) db.otps;
      device_tokens = remove (λ r. gone r.account_id) db.device_tokens;
      friends = remove (λ r. gone r.account_id1 || gone r.account_id2) db.friends;
      friend_requests = remove (λ r. gone r.sender_id || gone r.receiver_id) db.friend_requests;
      blocks = remove (λ r. gone r.blocker_id || gone r.blocked_id) db.blocks;
      participants = remove (λ r. gone r.account_id) db.participants;
      notifications = remove (λ r. gone r.account_id || gone r.actor_id) db.notifications;
    })

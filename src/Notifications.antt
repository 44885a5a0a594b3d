-- ===== src/Notifications.antt =====
-- src/notifications/notifications.service.ts: the rows of the table, without the actor's profile that
-- the responses carry.
pub mod ReadingLaws
mod Tests
use swift_chat_backend.Base.{
  ℕ, Bool, true, false, not, ◌&&◌, Option, none, some, List, ◌∷◌, Action, pure, raise, gets, modify,
  raise_if, or_raise, ◌>>=◌, ◌>>◌, ◌==◌, find, select, update, count, take, drop,
}
use swift_chat_backend.Base.Sorting.{sort_desc}
use swift_chat_backend.Http.{Error, PrismaCode, not_found, notification_not_found}
use swift_chat_backend.Db.{
  Db, Notification, NotificationType, Reference, uuid, object_id, account_exists, emit,
  notification_new,
}

-- The column `reference_id` has the type `Uuid`: another id in it is an error of the database.
unfoldable pub reference_column : Option Reference → Action Db (Option ℕ)
reference_column none = pure none
reference_column (some (uuid n)) = pure (some n)
reference_column (some (object_id n)) = raise (Error.prisma PrismaCode.inconsistent_column)

-- `create`; `id` is the id that the database draws.
unfoldable pub create :
    (now id account actor : ℕ) → NotificationType → Option Reference → Action Db ℕ
unfolding reference_column
create now id account actor type reference = do
  column ← reference_column reference
  known ← gets (λ db. account_exists db account && account_exists db actor)
  raise_if (not known) (Error.prisma PrismaCode.foreign_key)
  modify (λ db. record db { notifications = row column ∷ db.notifications })
  emit (notification_new account id)
  pure id
  where
    row : Option ℕ → Notification
    row column = record {
      id = id;
      account_id = account;
      actor_id = actor;
      type = type;
      reference_id = column;
      is_read = false;
      created_at = now;
    }

abbrev pub belongs_to : ℕ → Notification → Bool
belongs_to account n = n.account_id == account

abbrev pub is_unread_of : ℕ → Notification → Bool
is_unread_of account n = n.account_id == account && not n.is_read

abbrev pub read_now : Notification → Notification
read_now n = record n { is_read = true }

unfoldable pub get_user_notifications : (account limit offset : ℕ) → Db → List Notification
get_user_notifications account limit offset db =
    take limit
      (drop offset (sort_desc (λ n. n.created_at) (select (belongs_to account) db.notifications)))

abbrev pub is_own : (id account : ℕ) → Notification → Bool
is_own id account n = n.id == id && n.account_id == account

unfoldable pub mark_as_read : (id account : ℕ) → Action Db Notification
mark_as_read id account = do
  found ← gets (λ db. find (is_own id account) db.notifications)
  n ← or_raise found (not_found notification_not_found)
  modify (λ db. record db { notifications = update (is_own id account) read_now db.notifications })
  pure (read_now n)

unfoldable pub mark_all_as_read : (account : ℕ) → Action Db ℕ
mark_all_as_read account = do
  n ← gets (λ db. count (is_unread_of account) db.notifications)
  modify
      (λ db. record db { notifications = update (is_unread_of account) read_now db.notifications })
  pure n

unfoldable pub get_unread_count : (account : ℕ) → Db → ℕ
get_unread_count account db = count (is_unread_of account) db.notifications

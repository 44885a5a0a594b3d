-- ===== src/Notifications/ReadingLaws.antt =====
-- What the calls of `NotificationsService` do to the unread notifications.
use swift_chat_backend.Base.{
  ℕ, suc, ◌≡◌, ◌≢◌, refl, false, some, List, [], ◌∷◌, arith, ◌==◌, ok, any, select, update, count,
}
use swift_chat_backend.Db.{Db, Notification, NotificationType, uuid}
use swift_chat_backend.Notifications

read_rows :
    (a : ℕ) (rows : List Notification)
    → count
        (Notifications.is_unread_of a)
        (update (Notifications.is_unread_of a) Notifications.read_now rows)
      ≡ 0
read_rows a [] = refl
read_rows a (n ∷ rows) = ground (arith, read_rows a rows)

others_rows :
    (a b : ℕ) (rows : List Notification)
    → a ≢ b
    → select
        (Notifications.belongs_to b)
        (update (Notifications.is_unread_of a) Notifications.read_now rows)
      ≡ select (Notifications.belongs_to b) rows
others_rows a b [] ne = refl
others_rows a b (n ∷ rows) ne = ground (arith, others_rows a b rows ne)

-- `markAllAsRead` answers how many notifications of the account were unread, leaves none unread, and
-- changes no notification of another account.
pub mark_all_as_read_lem :
    (a b : ℕ) (db : Db)
    → a ≢ b
    → let r = Notifications.mark_all_as_read a db in
      (r.0 ≡ ok (Notifications.get_unread_count a db))
      × ((Notifications.get_unread_count a r.1 ≡ 0)
          × (select (Notifications.belongs_to b) r.1.notifications
              ≡ select (Notifications.belongs_to b) db.notifications))
unfolding Notifications.mark_all_as_read Notifications.get_unread_count
mark_all_as_read_lem a b db ne =
    (refl, (read_rows a db.notifications, others_rows a b db.notifications ne))

read_none :
    (id a : ℕ) (rows : List Notification)
    → any (λ n. n.id == id) rows ≡ false
    → update (Notifications.is_own id a) Notifications.read_now rows ≡ rows
read_none id a [] e = refl
read_none id a (n ∷ rows) e = ground (arith, read_none id a rows)

-- A notification that is created under a new id counts as one more unread for its account, and reading
-- it takes that one away again.
pub create-mark_as_read :
    (now id a actor : ℕ) (type : NotificationType) (k : ℕ) (db : Db)
    → any (λ n. n.id == id) db.notifications ≡ false
    → (Notifications.create now id a actor type (some (uuid k)) db).0 ≡ ok id
    → let db' = (Notifications.create now id a actor type (some (uuid k)) db).1 in
      (Notifications.get_unread_count a db' ≡ suc (Notifications.get_unread_count a db))
      × (Notifications.get_unread_count a (Notifications.mark_as_read id a db').1
          ≡ Notifications.get_unread_count a db)
unfolding Notifications.create Notifications.mark_as_read Notifications.get_unread_count
create-mark_as_read now id a actor type k db new done =
    ground (arith, done, read_none id a db.notifications new)

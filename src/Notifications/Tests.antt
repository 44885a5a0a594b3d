-- ===== src/Notifications/Tests.antt =====
-- Examples for the properties of notifications.
use swift_chat_backend.Base.{suc, ◌≡◌, refl, false, some, [], ◌∷◌, ok}
use swift_chat_backend.Db.{Db, NotificationType, uuid}
use swift_chat_backend.Samples.{chats}
use swift_chat_backend.Notifications
use swift_chat_backend.Notifications.ReadingLaws.{create-mark_as_read}

abbrev notified : Db
notified = record chats {
  notifications =
      record {
        id = 90;
        account_id = 1;
        actor_id = 2;
        type = NotificationType.added_to_group;
        reference_id = some 7;
        is_read = false;
        created_at = 0;
      }
      ∷ record {
        id = 91;
        account_id = 2;
        actor_id = 1;
        type = NotificationType.added_to_group;
        reference_id = some 7;
        is_read = false;
        created_at = 0;
      }
      ∷ [];
}

created :
    (Notifications.create 50 92 1 3 NotificationType.added_to_group (some (uuid 7)) notified).0
    ≡ ok 92
unfolding Notifications.create
created = refl

create-mark_as_read_example :
    let db' =
      (Notifications.create 50 92 1 3 NotificationType.added_to_group (some (uuid 7)) notified).1 in
    (Notifications.get_unread_count 1 db' ≡ suc (Notifications.get_unread_count 1 notified))
    × (Notifications.get_unread_count 1 (Notifications.mark_as_read 92 1 db').1
        ≡ Notifications.get_unread_count 1 notified)
create-mark_as_read_example =
    create-mark_as_read 50 92 1 3 NotificationType.added_to_group 7 notified refl created

-- ===== src/Friends/Effects.antt =====
-- What the steps of `FriendsService` do to the tables, whether they return or throw.
use swift_chat_backend.Base.{
  ℕ, ◌≡◌, ◌⊎◌, inl, inr, false, none, some, ◌∷◌, arith, ◌==◌, any, update, find, Option-cases,
}
use swift_chat_backend.Db.{Db, Friend, FriendRequest, RequestStatus, accepted}
use swift_chat_backend.Notifications
use swift_chat_backend.Friends.Sending.{send_new}
use swift_chat_backend.Friends.{
  Fresh, first, second, is_request, accept_request, upsert_request, new_request, renewed,
  is_ordered_pair,
}

-- A notification leaves the tables of friends alone.
pub create_notification-tables :
    (now id account actor : ℕ) (type : _) (reference : _) (db : Db)
    → let db' = (Notifications.create now id account actor type reference db).1 in
      (db'.blocks ≡ db.blocks)
      × (db'.friends ≡ db.friends)
      × (db'.friend_requests ≡ db.friend_requests)
unfolding Notifications.create
create_notification-tables now id account actor type none db = ground arith
create_notification-tables now id account actor type (some r) db = ground arith

abbrev pub friend_row : (now id a b : ℕ) → Friend
friend_row now id a b = record {
  id = id;
  account_id1 = first a b;
  account_id2 = second a b;
  created_at = now;
}

abbrev pub marked : (now : ℕ) → RequestStatus → FriendRequest → FriendRequest
marked now status r = record r { status = status; updated_at = now }

-- An acceptance changes nothing, or makes a friendship that was not there and marks the request.
pub accept_request-tables :
    (now : ℕ) (fresh : Fresh) (req : FriendRequest) (acceptor : ℕ) (db : Db)
    → let db' = (accept_request now fresh req acceptor db).1 in
      (db'.blocks ≡ db.blocks)
      × (((db'.friends ≡ db.friends) × (db'.friend_requests ≡ db.friend_requests))
          ⊎ ((any (is_ordered_pair req.sender_id req.receiver_id) db.friends ≡ false)
              × (db'.friends
                  ≡ friend_row now fresh.friend req.sender_id req.receiver_id ∷ db.friends)
              × (db'.friend_requests
                  ≡ update (λ r. r.id == req.id) (marked now accepted) db.friend_requests)))
unfolding accept_request Notifications.create
accept_request-tables now fresh req acceptor db = ground arith

-- A sent request leaves blocks and friendships alone, and renews the request or makes one, or
-- changes nothing.
pub send_new-tables :
    (now : ℕ) (fresh : Fresh) (s r : ℕ) (db : Db)
    → let db' = (send_new now fresh s r db).1 in
      (db'.blocks ≡ db.blocks)
      × (db'.friends ≡ db.friends)
      × ((db'.friend_requests ≡ db.friend_requests)
          ⊎ (db'.friend_requests ≡ update (is_request s r) (renewed now) db.friend_requests)
          ⊎ (db'.friend_requests ≡ new_request now fresh.request s r ∷ db.friend_requests))
unfolding send_new upsert_request Notifications.create
send_new-tables now fresh s r db = elim (Option-cases (find (is_request s r) db.friend_requests)) [
  | inl e ↦ ground (arith, e)
  | inr (q, e) ↦ ground (arith, e)
]

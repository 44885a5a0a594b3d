-- ===== src/Friends.antt =====
-- src/friends/friends.service.ts: the rows that its methods read and write, and the steps that they
-- share. The methods are in the children.
pub mod Sending
pub mod Answering
pub mod Listing
pub mod Effects
pub mod Separation
pub mod Calls
pub mod Safety
pub mod Uniqueness
pub mod Atomicity
pub mod Cooldown
pub mod Acceptance
pub mod Cache
pub mod Cases
mod Tests
use swift_chat_backend.Base.{
  ℕ, ◌+◌, ◌-◌, ◌*◌, ◌/◌, Bool, true, false, not, ◌&&◌, ◌||◌, Option, none, some, List, [], ◌∷◌,
  Action, pure, raise, gets, modify, raise_if, or_raise, transaction, ◌>>=◌, ◌>>◌, ◌==◌, ltb, leb,
  if◌then◌else◌, any, find, select, remove, update,
}
use swift_chat_backend.Http.{
  Error, PrismaCode, bad_request, not_found, forbidden, self_request, receiver_not_found,
  already_friends, cannot_send_request, pending_exists, wait_hours, request_not_found,
  already_processed, not_receiver, not_sender, friendship_not_found,
}
use swift_chat_backend.Db.{
  Db, Friend, FriendRequest, RequestStatus, pending, accepted, rejected, is_pending, is_rejected,
  uuid, friend_request_received, friend_request_accepted, is_pair, account_exists, emit,
  friend_updated,
}
use swift_chat_backend.Block.{is_blocked_either_direction, is_friendship}
use swift_chat_backend.Notifications

-- The ids that the database draws for the rows of one call.
pub record Fresh : Type 0 where
  pub request : ℕ
  pub friend : ℕ
  pub notification : ℕ

abbrev pub hour_ms : ℕ
hour_ms = 60 * 60 * 1000

-- `FRIEND_REQUEST_TTL_MS`: 7 days
abbrev pub friend_request_ttl_ms : ℕ
friend_request_ttl_ms = 7 * 24 * 60 * 60 * 1000

-- `REJECTION_COOLDOWN_MS`: 24 hours
abbrev pub rejection_cooldown_ms : ℕ
rejection_cooldown_ms = 24 * 60 * 60 * 1000

-- `OR: [{ expiredAt: null }, { expiredAt: { gt: now } }]`
abbrev pub is_live : ℕ → Option ℕ → Bool
is_live now none = true
is_live now (some t) = ltb now t

-- A pending request that has not expired, in either direction.
abbrev pub is_live_between : (now x y : ℕ) → FriendRequest → Bool
is_live_between now x y r =
    is_pair r.sender_id r.receiver_id x y && (is_pending r.status && is_live now r.expired_at)

-- The unique key of a request.
abbrev pub is_request : (sender receiver : ℕ) → FriendRequest → Bool
is_request sender receiver r = r.sender_id == sender && r.receiver_id == receiver

-- The two ids in order: `[a, b].sort()`.
abbrev pub first : ℕ → ℕ → ℕ
first a b = if leb a b then a else b

abbrev pub second : ℕ → ℕ → ℕ
second a b = if leb a b then b else a

-- The unique key of a friendship.
abbrev pub is_ordered_pair : (a b : ℕ) → Friend → Bool
is_ordered_pair a b r = r.account_id1 == first a b && r.account_id2 == second a b

-- `friend.create`: foreign keys, and the unique pair.
unfoldable pub create_friend : (now id a b : ℕ) → Action Db (Unit {0})
create_friend now id a b = do
  known ← gets (λ db. account_exists db (first a b) && account_exists db (second a b))
  raise_if (not known) (Error.prisma PrismaCode.foreign_key)
  taken ← gets (λ db. any (is_ordered_pair a b) db.friends)
  raise_if taken (Error.prisma PrismaCode.unique_constraint)
  modify (λ db. record db { friends = row ∷ db.friends })
  where
    row : Friend
    row = record { id = id; account_id1 = first a b; account_id2 = second a b; created_at = now }

-- `friendRequest.update({ where: { id }, data: { status } })`
unfoldable pub set_status : (now id : ℕ) → RequestStatus → Action Db (Unit {0})
set_status now id status = do
  found ← gets (λ db. any (λ r. r.id == id) db.friend_requests)
  raise_if (not found) (Error.prisma PrismaCode.record_not_found)
  modify (λ db. record db { friend_requests = update (λ r. r.id == id) marked db.friend_requests })
  where
    marked : FriendRequest → FriendRequest
    marked r = record r { status = status; updated_at = now }

-- `redis.del` of the friends lists of both.
abbrev clear_friends_cache : (a b : ℕ) → Action Db (Unit {0})
clear_friends_cache a b = modify (λ db. record db {
  friends_cache =
      remove (λ c. c.account_id == b) (remove (λ c. c.account_id == a) db.friends_cache);
})

abbrev emit_both : (a b : ℕ) → Action Db (Unit {0})
emit_both a b = emit (friend_updated a) >> emit (friend_updated b)

-- The transaction of an acceptance, and what follows it. `autoAccept` and the acceptance in
-- `respondToRequest` hold the same statements.
unfoldable pub accept_request :
    (now : ℕ) → Fresh → FriendRequest → (acceptor : ℕ) → Action Db (Unit {0})
unfolding create_friend set_status
accept_request now fresh req acceptor = do
  transaction (do
    set_status now req.id accepted
    create_friend now fresh.friend req.sender_id req.receiver_id)
  clear_friends_cache req.sender_id req.receiver_id
  _ ←
      Notifications.create now fresh.notification req.sender_id acceptor friend_request_accepted
        (some (uuid req.id))
  emit_both req.sender_id req.receiver_id

-- `Math.ceil((REJECTION_COOLDOWN_MS - elapsed) / hour)`, where `elapsed` is `now - updated_at`.
abbrev pub remaining_hours : (now updated_at : ℕ) → ℕ
remaining_hours now updated_at =
    (updated_at + rejection_cooldown_ms - now + (hour_ms - 1)) / hour_ms

-- Whether the last request was rejected less than the cooldown ago, on either side of 0.
abbrev pub check_cooldown : (now : ℕ) → Option FriendRequest → Action Db (Unit {0})
check_cooldown now none = pure tt
check_cooldown now (some r) =
    raise_if (is_rejected r.status && ltb now (r.updated_at + rejection_cooldown_ms))
      (bad_request (wait_hours (remaining_hours now r.updated_at)))

abbrev pub renewed : (now : ℕ) → FriendRequest → FriendRequest
renewed now r = record r {
  status = pending;
  updated_at = now;
  expired_at = some (now + friend_request_ttl_ms);
}

-- The row that `friendRequest.upsert` makes.
abbrev pub new_request : (now id sender receiver : ℕ) → FriendRequest
new_request now id sender receiver = record {
  id = id;
  sender_id = sender;
  receiver_id = receiver;
  status = pending;
  created_at = now;
  updated_at = now;
  expired_at = some (now + friend_request_ttl_ms);
}

put_request : (now id sender receiver : ℕ) → Option FriendRequest → Action Db ℕ
put_request now id sender receiver (some r) = do
  modify (λ db. record db {
    friend_requests = update (is_request sender receiver) (renewed now) db.friend_requests;
  })
  pure r.id
put_request now id sender receiver none = do
  known ← gets (λ db. account_exists db sender && account_exists db receiver)
  raise_if (not known) (Error.prisma PrismaCode.foreign_key)
  modify (λ db. record db {
    friend_requests = new_request now id sender receiver ∷ db.friend_requests;
  })
  pure id

-- `friendRequest.upsert`: the id of the row that it renews or makes.
unfoldable pub upsert_request : (now id sender receiver : ℕ) → Action Db ℕ
unfolding put_request
upsert_request now id sender receiver = do
  previous ← gets (λ db. find (is_request sender receiver) db.friend_requests)
  put_request now id sender receiver previous

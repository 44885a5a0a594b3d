-- ===== src/Friends/Answering.antt =====
-- `FriendsService.respondToRequest`, `cancelRequest`, `removeFriend` and `cleanupExpiredRequests`.
use swift_chat_backend.Base.{
  ℕ, Bool, false, not, ◌&&◌, Option, none, some, Action, pure, gets, modify, raise_if, or_raise,
  transaction, ◌>>=◌, ◌>>◌, ◌==◌, leb, any, find, remove, count,
}
use swift_chat_backend.Http.{
  Error, PrismaCode, bad_request, not_found, forbidden, request_not_found, already_processed,
  not_receiver, not_sender, friendship_not_found,
}
use swift_chat_backend.Db.{Db, FriendRequest, rejected, is_pending, is_pair}
use swift_chat_backend.Block.{is_friendship}
use swift_chat_backend.Friends.{Fresh, set_status, accept_request, clear_friends_cache, emit_both}

-- `FriendRequestAction`
pub data FriendRequestAction : Type 0 where
  accept reject : FriendRequestAction

-- What `respondToRequest` does once it has found that the request may be answered.
unfoldable pub answer :
    (now : ℕ) → Fresh → FriendRequest → (me : ℕ) → FriendRequestAction → Action Db (Unit {0})
answer now fresh req me reject = do
  set_status now req.id rejected
  emit_both req.sender_id req.receiver_id
answer now fresh req me accept = accept_request now fresh req me

-- `respondToRequest`
unfoldable pub respond_to_request :
    (now : ℕ) → Fresh → (request_id me : ℕ) → FriendRequestAction → Action Db (Unit {0})
respond_to_request now fresh request_id me action = do
  found ← gets (λ db. find (λ r. r.id == request_id) db.friend_requests)
  req ← or_raise found (not_found request_not_found)
  raise_if (not (is_pending req.status)) (bad_request already_processed)
  raise_if (not (req.receiver_id == me)) (forbidden not_receiver)
  answer now fresh req me action

-- `cancelRequest`
unfoldable pub cancel_request : (request_id me : ℕ) → Action Db (Unit {0})
cancel_request request_id me = do
  found ← gets (λ db. find (λ r. r.id == request_id) db.friend_requests)
  req ← or_raise found (not_found request_not_found)
  raise_if (not (is_pending req.status)) (bad_request already_processed)
  raise_if (not (req.sender_id == me)) (forbidden not_sender)
  modify (λ db. record db { friend_requests = remove (λ r. r.id == request_id) db.friend_requests })
  emit_both req.sender_id req.receiver_id

-- `friend.delete({ where: { id } })`
abbrev pub delete_friend : ℕ → Action Db (Unit {0})
delete_friend id = do
  found ← gets (λ db. any (λ r. r.id == id) db.friends)
  raise_if (not found) (Error.prisma PrismaCode.record_not_found)
  modify (λ db. record db { friends = remove (λ r. r.id == id) db.friends })

abbrev pub is_request_between : (x y : ℕ) → FriendRequest → Bool
is_request_between x y r = is_pair r.sender_id r.receiver_id x y

-- `removeFriend`
unfoldable pub remove_friend : (me friend : ℕ) → Action Db (Unit {0})
remove_friend me friend = do
  found ← gets (λ db. find (is_friendship me friend) db.friends)
  friendship ← or_raise found (not_found friendship_not_found)
  transaction (do
    delete_friend friendship.id
    modify (λ db. record db {
      friend_requests = remove (is_request_between me friend) db.friend_requests;
    }))
  clear_friends_cache me friend
  emit_both me friend

-- `expiredAt: { lte: now }`, which a null does not meet.
abbrev pub has_expired : ℕ → Option ℕ → Bool
has_expired now none = false
has_expired now (some t) = leb t now

abbrev pub is_expired_pending : (now : ℕ) → FriendRequest → Bool
is_expired_pending now r = is_pending r.status && has_expired now r.expired_at

-- `cleanupExpiredRequests`: the number of requests that it deletes.
unfoldable pub cleanup_expired_requests : (now : ℕ) → Action Db ℕ
cleanup_expired_requests now = do
  n ← gets (λ db. count (is_expired_pending now) db.friend_requests)
  modify (λ db. record db { friend_requests = remove (is_expired_pending now) db.friend_requests })
  pure n

-- ===== src/Friends/Sending.antt =====
-- `FriendsService.sendRequest` and `autoAccept`.
use swift_chat_backend.Base.{
  ℕ, not, ◌&&◌, Option, none, some, Action, pure, raise, gets, raise_if, ◌>>=◌, ◌>>◌, ◌==◌,
  if◌then◌else◌, any, find,
}
use swift_chat_backend.Http.{
  bad_request, not_found, forbidden, self_request, receiver_not_found, already_friends,
  cannot_send_request, pending_exists,
}
use swift_chat_backend.Db.{Db, FriendRequest, uuid, friend_request_received, account_exists}
use swift_chat_backend.Block.{is_blocked_either_direction, is_friendship}
use swift_chat_backend.Notifications
use swift_chat_backend.Friends.{
  Fresh, is_live_between, is_request, check_cooldown, upsert_request, accept_request, emit_both,
}

-- `SendRequestResponseDto`: the result, and the id of the request.
pub data SendResult : Type 0 where
  friend_request_sent auto_accepted : ℕ → SendResult

-- `autoAccept`
unfoldable pub auto_accept :
    (now : ℕ) → Fresh → FriendRequest → (acceptor : ℕ) → Action Db SendResult
auto_accept now fresh existing acceptor = do
  accept_request now fresh existing acceptor
  pure (auto_accepted existing.id)

-- The rest of `sendRequest` where no live request is pending.
unfoldable pub send_new : (now : ℕ) → Fresh → (sender receiver : ℕ) → Action Db SendResult
send_new now fresh sender receiver = do
  previous ← gets (λ db. find (is_request sender receiver) db.friend_requests)
  check_cooldown now previous
  id ← upsert_request now fresh.request sender receiver
  _ ←
      Notifications.create now fresh.notification receiver sender friend_request_received
        (some (uuid id))
  emit_both sender receiver
  pure (friend_request_sent id)

-- What `sendRequest` does with the live pending request of the two, if there is one: a request from
-- the other side is accepted, one from this side is a duplicate.
unfoldable pub send_with :
    (now : ℕ) → Fresh → (sender receiver : ℕ) → Option FriendRequest → Action Db SendResult
send_with now fresh sender receiver (some existing) =
    if existing.sender_id == receiver && existing.receiver_id == sender
    then auto_accept now fresh existing sender
    else raise (bad_request pending_exists)
send_with now fresh sender receiver none = send_new now fresh sender receiver

-- `sendRequest`
unfoldable pub send_request : (now : ℕ) → Fresh → (sender receiver : ℕ) → Action Db SendResult
send_request now fresh sender receiver = do
  raise_if (sender == receiver) (bad_request self_request)
  known ← gets (λ db. account_exists db receiver)
  raise_if (not known) (not_found receiver_not_found)
  friends ← gets (λ db. any (is_friendship sender receiver) db.friends)
  raise_if friends (bad_request already_friends)
  blocked ← gets (is_blocked_either_direction sender receiver)
  raise_if blocked (forbidden cannot_send_request)
  existing ← gets (λ db. find (is_live_between now sender receiver) db.friend_requests)
  send_with now fresh sender receiver existing

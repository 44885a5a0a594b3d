-- ===== src/Friends/Calls.antt =====
-- The calls that change friendships, requests and blocks, and sequences of them.
use swift_chat_backend.Base.{ℕ, List, [], ◌∷◌, Action, pure, ◌>>=◌}
use swift_chat_backend.Db.{Db}
use swift_chat_backend.Block.{block_user, unblock_user}
use swift_chat_backend.Friends.{Fresh}
use swift_chat_backend.Friends.Sending.{send_request}
use swift_chat_backend.Friends.Answering.{
  FriendRequestAction, respond_to_request, cancel_request, remove_friend, cleanup_expired_requests,
}

pub data Call : Type 0 where
  send : (now : ℕ) → Fresh → (sender receiver : ℕ) → Call
  respond : (now : ℕ) → Fresh → (request me : ℕ) → FriendRequestAction → Call
  cancel : (request me : ℕ) → Call
  unfriend : (me friend : ℕ) → Call
  cleanup : (now : ℕ) → Call
  block : (now blocker blocked : ℕ) → Call
  unblock : (blocker blocked : ℕ) → Call

-- A call, with its value left out.
unfoldable pub call : Call → Action Db (Unit {0})
call (send now fresh s r) = send_request now fresh s r >>= λ _. pure tt
call (respond now fresh q me action) = respond_to_request now fresh q me action
call (cancel q me) = cancel_request q me
call (unfriend me friend) = remove_friend me friend
call (cleanup now) = cleanup_expired_requests now >>= λ _. pure tt
call (block now x y) = block_user now x y
call (unblock x y) = unblock_user x y

-- The state after a call, whether it returned or threw.
abbrev pub step : Call → Db → Db
step c db = (call c db).1

unfoldable pub run : List Call → Db → Db
run [] db = db
run (c ∷ calls) db = run calls (step c db)

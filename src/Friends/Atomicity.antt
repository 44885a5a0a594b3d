-- ===== src/Friends/Atomicity.antt =====
-- A call that throws leaves the tables, the cache and the events as they were.
use swift_chat_backend.Base.{
  ℕ, ◌≡◌, refl, inl, inr, Bool, true, false, List, [], ◌∷◌, arith, ◌==◌, any, find, remove,
  Option-cases, err, find,
}
use swift_chat_backend.Http.{Error}
use swift_chat_backend.Db.{Db, FriendRequest, account_exists}
use swift_chat_backend.Block.{is_friendship, is_block, block_user, unblock_user}
use swift_chat_backend.Notifications
use swift_chat_backend.Friends.{
  Fresh, accept_request, set_status, is_request, upsert_request, is_live_between,
}
use swift_chat_backend.Friends.Sending.{send_request, send_with, send_new, auto_accept}
use swift_chat_backend.Friends.Answering.{
  FriendRequestAction, accept, reject, answer, respond_to_request, cancel_request, remove_friend,
  cleanup_expired_requests,
}
use swift_chat_backend.Friends.Calls.{
  Call, send, respond, cancel, unfriend, cleanup, block, unblock, call, step,
}

-- The caller of a request is logged in, so the account is there.
abbrev pub KnowsSender : Call → Db → Type 0
KnowsSender (send now fresh s r) db = account_exists db s ≡ true
KnowsSender _ db = Unit

remove-none {ℓ} :
    {A : Type ℓ} (p : A → Bool) (rows : List A) → any p rows ≡ false → remove p rows ≡ rows
remove-none p [] h = refl
remove-none p (x ∷ rows) h = ground (arith, remove-none p rows)

accept_request_error :
    (now : ℕ) (fresh : Fresh) (req : FriendRequest) (me : ℕ) (db : Db) (e : Error)
    → account_exists db me ≡ true
    → (accept_request now fresh req me db).0 ≡ err e
    → (accept_request now fresh req me db).1 ≡ db
unfolding accept_request Notifications.create
accept_request_error now fresh req me db e known h = ground arith

send_new_error :
    (now : ℕ) (fresh : Fresh) (s r : ℕ) (db : Db) (e : Error)
    → account_exists db s ≡ true
    → account_exists db r ≡ true
    → (send_new now fresh s r db).0 ≡ err e
    → (send_new now fresh s r db).1 ≡ db
unfolding send_new upsert_request Notifications.create
send_new_error now fresh s r db e ks kr h =
    elim (Option-cases (find (is_request s r) db.friend_requests)) [
      | inl q ↦ ground (arith, q)
      | inr (x, q) ↦ ground (arith, q)
    ]

send_error :
    (now : ℕ) (fresh : Fresh) (s r : ℕ) (db : Db) (e : Error)
    → account_exists db s ≡ true
    → (call (send now fresh s r) db).0 ≡ err e
    → step (send now fresh s r) db ≡ db
unfolding call send_request send_with auto_accept
send_error now fresh s r db e ks h =
    elim (Option-cases (find (is_live_between now s r) db.friend_requests)) [
      | inl q ↦ ground (arith, q, send_new_error now fresh s r db e ks)
      | inr (x, q) ↦ ground (arith, q, accept_request_error now fresh x s db e ks)
    ]

-- Needs no known account: the acceptance checks the foreign keys before it writes.
respond_error :
    (now : ℕ) (fresh : Fresh) (id me : ℕ) (action : FriendRequestAction) (db : Db) (e : Error)
    → (respond_to_request now fresh id me action db).0 ≡ err e
    → (respond_to_request now fresh id me action db).1 ≡ db
unfolding respond_to_request answer accept_request set_status Notifications.create
respond_error now fresh id me accept db e h =
    elim (Option-cases (find (λ r. r.id == id) db.friend_requests)) [
      | inl q ↦ ground (arith, q)
      | inr (x, q) ↦ ground (arith, q)
    ]
respond_error now fresh id me reject db e h =
    elim (Option-cases (find (λ r. r.id == id) db.friend_requests)) [
      | inl q ↦ ground (arith, q)
      | inr (x, q) ↦ ground (arith, q)
    ]

-- A call of a logged-in caller that throws leaves everything as it was: no request, friendship or
-- block is half made, and no cache key or event is lost or sent.
pub step_error_unchanged :
    (c : Call) (db : Db) (e : Error) → KnowsSender c db → (call c db).0 ≡ err e → step c db ≡ db
unfolding call cleanup_expired_requests cancel_request remove_friend block_user unblock_user
step_error_unchanged (send now fresh s r) db e k h = send_error now fresh s r db e k h
step_error_unchanged (respond now fresh q me action) db e k h =
    respond_error now fresh q me action db e h
step_error_unchanged (cancel q me) db e k h = ground arith
step_error_unchanged (unfriend me friend) db e k h =
    elim (Option-cases (find (is_friendship me friend) db.friends)) [
      | inl q ↦ ground (arith, q)
      | inr (x, q) ↦ ground (arith, q)
    ]
step_error_unchanged (cleanup now) db e k h = ground arith
step_error_unchanged (block now x y) db e k h = ground arith
step_error_unchanged (unblock x y) db e k h = ground (arith, remove-none (is_block x y) db.blocks)

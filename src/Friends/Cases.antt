-- ===== src/Friends/Cases.antt =====
-- What a sent request and an answer may come to, for a proof about the state that is left.
use swift_chat_backend.Base.{ℕ, ◌≡◌, inl, inr, true, false, some, arith, ◌==◌, find, Option-cases}
use swift_chat_backend.Base.Rows.{find_holds}
use swift_chat_backend.Db.{Db, FriendRequest, is_pair, is_pending}
use swift_chat_backend.Friends.{Fresh, is_live_between, accept_request}
use swift_chat_backend.Friends.Sending.{send_request, send_with, send_new, auto_accept}
use swift_chat_backend.Friends.Answering.{FriendRequestAction, answer, respond_to_request}
use swift_chat_backend.Friends.Separation.{has_block}

-- What a sent request may come to.
pub send_request_cases {ℓ} :
    (P : Db → Type ℓ) (now : ℕ) (fresh : Fresh) (s r : ℕ) (db : Db)
    → P db
    → ((req : FriendRequest)
        → is_pair req.sender_id req.receiver_id s r ≡ true
        → has_block s r db.blocks ≡ false
        → P (accept_request now fresh req s db).1)
    → (has_block s r db.blocks ≡ false → P (send_new now fresh s r db).1)
    → P (send_request now fresh s r db).1
unfolding send_request send_with auto_accept
send_request_cases P now fresh s r db same accepts sends =
    elim (Option-cases (find (is_live_between now s r) db.friend_requests)) [
      | inl e ↦ ground (arith, e, sends)
      | inr (q, e) ↦
          ground (arith, e, accepts q, find_holds (is_live_between now s r) db.friend_requests q e)
    ]

pub respond_to_request_cases {ℓ} :
    (P : Db → Type ℓ) (now : ℕ) (fresh : Fresh) (id me : ℕ) (action : FriendRequestAction) (db : Db)
    → P db
    → ((req : FriendRequest)
        → find (λ r. r.id == id) db.friend_requests ≡ some req
        → is_pending req.status ≡ true
        → P (answer now fresh req me action db).1)
    → P (respond_to_request now fresh id me action db).1
unfolding respond_to_request
respond_to_request_cases P now fresh id me action db same answers =
    elim (Option-cases (find (λ r. r.id == id) db.friend_requests)) [
      | inl e ↦ ground (arith, e)
      | inr (q, e) ↦ ground (arith, e, answers q e)
    ]

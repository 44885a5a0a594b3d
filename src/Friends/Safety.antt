-- ===== src/Friends/Safety.antt =====
-- Every call keeps the tables separated.
use swift_chat_backend.Base.{
  false_of, ℕ, ◌≡◌, refl, sym, inl, inr, Bool, true, false, some, List, [], ◌∷◌, arith, ◌==◌, find,
  remove, update, Option-cases,
}
use swift_chat_backend.Base.Rows.{any-remove_le, any-update_le, find-any_other}
use swift_chat_backend.Db.{
  Db, FriendRequest, is_pair, is_pending, RequestStatus, accepted, rejected,
}
use swift_chat_backend.Block.{is_friendship, is_pending_between, is_block, block_user, unblock_user}
use swift_chat_backend.Friends.{Fresh, accept_request, set_status}
use swift_chat_backend.Friends.Sending.{send_request, send_new}
use swift_chat_backend.Friends.Answering.{
  FriendRequestAction, accept, reject, answer, respond_to_request, cancel_request, remove_friend,
  cleanup_expired_requests, is_expired_pending, is_request_between,
}
use swift_chat_backend.Friends.Effects.{accept_request-tables, send_new-tables, friend_row, marked}
use swift_chat_backend.Friends.Separation.{
  IsSeparated, has_block, IsSeparated-weaken, IsSeparated-befriend, IsSeparated-send,
  IsSeparated-resend, IsSeparated-block, has_block-transfer,
}
use swift_chat_backend.Friends.Cases.{send_request_cases, respond_to_request_cases}
use swift_chat_backend.Friends.Calls.{
  Call, send, respond, cancel, unfriend, cleanup, block, unblock, call, step, run,
}

abbrev pub IsSafe : Db → Type 0
IsSafe db = IsSeparated db.blocks db.friends db.friend_requests

-- An acceptance of a request between two whom no block parts.
accept_request-IsSafe :
    (now : ℕ) (fresh : Fresh) (req : FriendRequest) (me : ℕ) (db : Db)
    → has_block req.sender_id req.receiver_id db.blocks ≡ false
    → IsSafe db
    → IsSafe (accept_request now fresh req me db).1
accept_request-IsSafe now fresh req me db free safe =
    elim (accept_request-tables now fresh req me db).1 [
      | inl (f, r) ↦ rw ((accept_request-tables now fresh req me db).0, f, r) safe
      | inr (_, f, r) ↦
          rw ((accept_request-tables now fresh req me db).0, f, r)
            (IsSeparated-weaken
              (IsSeparated-befriend safe req.sender_id req.receiver_id
                (friend_row now fresh.friend req.sender_id req.receiver_id) (ground arith) free)
              _ _ _ (λ x y e. e) (λ x y e. e)
              (λ x y.
                any-update_le (is_pending_between x y) (λ r. r.id == req.id) (marked now accepted)
                  db.friend_requests (λ r q p. ground arith)))
    ]

send_request-IsSafe :
    (now : ℕ) (fresh : Fresh) (s r : ℕ) (db : Db)
    → IsSafe db
    → IsSafe (send_request now fresh s r db).1
send_request-IsSafe now fresh s r db safe =
    send_request_cases IsSafe now fresh s r db safe accepts sends
  where
    accepts :
        (req : FriendRequest)
        → is_pair req.sender_id req.receiver_id s r ≡ true
        → has_block s r db.blocks ≡ false
        → IsSafe (accept_request now fresh req s db).1
    accepts req e free =
        accept_request-IsSafe now fresh req s db
          (false_of _ (λ h. cc (
            sym free,
            has_block-transfer s r req.sender_id req.receiver_id db.blocks (ground arith) h,
          )))
          safe

    sends : has_block s r db.blocks ≡ false → IsSafe (send_new now fresh s r db).1
    sends free = elim (send_new-tables now fresh s r db).2 [
      | inl e ↦
          rw ((send_new-tables now fresh s r db).0, (send_new-tables now fresh s r db).1, e) safe
      | inr t ↦ elim t [
        | inl e ↦
            rw ((send_new-tables now fresh s r db).0, (send_new-tables now fresh s r db).1, e)
              (IsSeparated-resend safe now s r free)
        | inr e ↦
            rw ((send_new-tables now fresh s r db).0, (send_new-tables now fresh s r db).1, e)
              (IsSeparated-send safe now fresh.request s r free)
      ]
    ]

-- Updating statuses to one that is not pending, and removing rows, keeps the tables separated.
mark-IsSafe :
    (now id : ℕ) (status : RequestStatus) (db : Db)
    → is_pending status ≡ false
    → IsSafe db
    → IsSeparated db.blocks db.friends
        (update (λ r. r.id == id) (marked now status) db.friend_requests)
mark-IsSafe now id status db closed safe =
    IsSeparated-weaken safe _ _ _ (λ x y e. e) (λ x y e. e)
      (λ x y.
        any-update_le (is_pending_between x y) (λ r. r.id == id) (marked now status)
          db.friend_requests (λ r q p. ground arith))

withdraw-IsSafe :
    (p : FriendRequest → Bool) (db : Db)
    → IsSafe db
    → IsSeparated db.blocks db.friends (remove p db.friend_requests)
withdraw-IsSafe p db safe =
    IsSeparated-weaken safe _ _ _ (λ x y e. e) (λ x y e. e)
      (λ x y. any-remove_le (is_pending_between x y) p db.friend_requests)

-- A request that can be answered is pending, so no block parts its two.
pending-free :
    (id : ℕ) (req : FriendRequest) (db : Db)
    → IsSafe db
    → find (λ r. r.id == id) db.friend_requests ≡ some req
    → is_pending req.status ≡ true
    → has_block req.sender_id req.receiver_id db.blocks ≡ false
pending-free id req db safe found open_still = false_of _ λ h. cc (
  sym (safe.no_pending req.sender_id req.receiver_id h),
  find-any_other (λ r. r.id == id) (is_pending_between req.sender_id req.receiver_id)
      db.friend_requests req found (ground arith),
)

reject-IsSafe :
    (now : ℕ) (fresh : Fresh) (req : FriendRequest) (me : ℕ) (db : Db)
    → IsSafe db
    → IsSafe (answer now fresh req me reject db).1
unfolding answer set_status
reject-IsSafe now fresh req me db safe =
    ground (arith, mark-IsSafe now req.id rejected db refl safe)

answer-IsSafe :
    (now : ℕ) (fresh : Fresh) (req : FriendRequest) (me : ℕ) (action : FriendRequestAction)
    (db : Db)
    → has_block req.sender_id req.receiver_id db.blocks ≡ false
    → IsSafe db
    → IsSafe (answer now fresh req me action db).1
unfolding answer
answer-IsSafe now fresh req me accept db free safe =
    accept_request-IsSafe now fresh req me db free safe
answer-IsSafe now fresh req me reject db free safe = reject-IsSafe now fresh req me db safe

respond_to_request-IsSafe :
    (now : ℕ) (fresh : Fresh) (id me : ℕ) (action : FriendRequestAction) (db : Db)
    → IsSafe db
    → IsSafe (respond_to_request now fresh id me action db).1
respond_to_request-IsSafe now fresh id me action db safe =
    respond_to_request_cases IsSafe now fresh id me action db safe λ req found open_still.
      answer-IsSafe now fresh req me action db (pending-free id req db safe found open_still) safe

cancel_request-IsSafe : (id me : ℕ) (db : Db) → IsSafe db → IsSafe (cancel_request id me db).1
unfolding cancel_request
cancel_request-IsSafe id me db safe =
    elim (Option-cases (find (λ r. r.id == id) db.friend_requests)) [
      | inl e ↦ rw e safe
      | inr (q, e) ↦ ground (arith, e, withdraw-IsSafe (λ r. r.id == id) db safe)
    ]

remove_friend-IsSafe : (me friend : ℕ) (db : Db) → IsSafe db → IsSafe (remove_friend me friend db).1
unfolding remove_friend
remove_friend-IsSafe me friend db safe =
    elim (Option-cases (find (is_friendship me friend) db.friends)) [
      | inl e ↦ rw e safe
      | inr (q, e) ↦ ground (arith, e, unfriended q.id)
    ]
  where
    unfriended :
        (id : ℕ)
        → IsSeparated db.blocks
            (remove (λ r. r.id == id) db.friends)
            (remove (is_request_between me friend) db.friend_requests)
    unfriended id =
        IsSeparated-weaken safe _ _ _ (λ x y e. e)
          (λ x y. any-remove_le (is_friendship x y) (λ r. r.id == id) db.friends)
          (λ x y.
            any-remove_le (is_pending_between x y) (is_request_between me friend)
              db.friend_requests)

block_user-IsSafe : (now a b : ℕ) (db : Db) → IsSafe db → IsSafe (block_user now a b db).1
unfolding block_user
block_user-IsSafe now a b db safe = ground (arith, IsSeparated-block safe now a b)

unblock_user-IsSafe : (a b : ℕ) (db : Db) → IsSafe db → IsSafe (unblock_user a b db).1
unfolding unblock_user
unblock_user-IsSafe a b db safe = ground (arith, fewer)
  where
    fewer : IsSeparated (remove (is_block a b) db.blocks) db.friends db.friend_requests
    fewer =
        IsSeparated-weaken safe _ _ _
          (λ x y.
            any-remove_le (λ r. is_pair r.blocker_id r.blocked_id x y) (is_block a b) db.blocks)
          (λ x y e. e) (λ x y e. e)

pub step-IsSafe : (c : Call) (db : Db) → IsSafe db → IsSafe (step c db)
unfolding call cleanup_expired_requests
step-IsSafe (send now fresh s r) db safe = ground (arith, send_request-IsSafe now fresh s r db safe)
step-IsSafe (respond now fresh q me action) db safe =
    respond_to_request-IsSafe now fresh q me action db safe
step-IsSafe (cancel q me) db safe = cancel_request-IsSafe q me db safe
step-IsSafe (unfriend me friend) db safe = remove_friend-IsSafe me friend db safe
step-IsSafe (cleanup now) db safe = withdraw-IsSafe (is_expired_pending now) db safe
step-IsSafe (block now x y) db safe = block_user-IsSafe now x y db safe
step-IsSafe (unblock x y) db safe = unblock_user-IsSafe x y db safe

-- After any sequence of calls that starts where it holds, whether they return or throw: two
-- accounts of which one blocks the other are not friends, and no pending request joins them.
pub run-IsSafe : (calls : List Call) (db : Db) → IsSafe db → IsSafe (run calls db)
unfolding run
run-IsSafe [] db safe = safe
run-IsSafe (c ∷ calls) db safe = run-IsSafe calls (step c db) (step-IsSafe c db safe)

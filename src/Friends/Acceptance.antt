-- ===== src/Friends/Acceptance.antt =====
-- An accepted request, by its receiver's answer or by a request the other way.
use swift_chat_backend.Base.{
  ℕ, ◌≡◌, ◌≢◌, refl, sym, Bool, true, false, ◌&&◌, some, List, [], ◌∷◌, arith, ◌==◌, any, find,
  update, remove, length, ok, false_of,
}
use swift_chat_backend.Base.Rows.{any_mono, find-any_other, find-any, find_holds, length-update}
use swift_chat_backend.Db.{Db, FriendRequest, CachedFriends, is_pending, accepted, account_exists}
use swift_chat_backend.Block.{is_friendship}
use swift_chat_backend.Notifications
use swift_chat_backend.Friends.{Fresh, is_ordered_pair, is_live_between, accept_request}
use swift_chat_backend.Friends.Sending.{send_request, send_with, auto_accept, auto_accepted}
use swift_chat_backend.Friends.Answering.{accept, answer, respond_to_request}
use swift_chat_backend.Friends.Effects.{marked}
use swift_chat_backend.Friends.Separation.{has_block}

abbrev pub is_list_of : ℕ → CachedFriends → Bool
is_list_of a c = c.account_id == a

-- What an acceptance has done: the two are friends, the request is no longer pending, and neither's
-- cached friends list is kept.
pub record IsAccepted (s r id : ℕ) (db : Db) : Type 0 where
  pub friends : any (is_friendship s r) db.friends ≡ true
  pub friends_back : any (is_friendship r s) db.friends ≡ true
  pub not_pending : any (λ q. q.id == id && is_pending q.status) db.friend_requests ≡ false
  pub list_gone : any (is_list_of s) db.friends_cache ≡ false
  pub list_gone_back : any (is_list_of r) db.friends_cache ≡ false

no_pending_left :
    (now id : ℕ) (rows : List FriendRequest)
    → any
        (λ q. q.id == id && is_pending q.status)
        (update (λ q. q.id == id) (marked now accepted) rows)
      ≡ false
no_pending_left now id [] = refl
no_pending_left now id (q ∷ rows) = ground (arith, no_pending_left now id rows)

lists_gone :
    (s r : ℕ) (cache : List CachedFriends)
    → (any (is_list_of s) (remove (is_list_of r) (remove (is_list_of s) cache)) ≡ false)
      × (any (is_list_of r) (remove (is_list_of r) (remove (is_list_of s) cache)) ≡ false)
lists_gone s r [] = (refl, refl)
lists_gone s r (c ∷ cache) = ground (arith, lists_gone s r cache)

accept_request_lem :
    (now : ℕ) (fresh : Fresh) (req : FriendRequest) (me : ℕ) (db : Db)
    → any (λ q. q.id == req.id) db.friend_requests ≡ true
    → account_exists db req.sender_id ≡ true
    → account_exists db req.receiver_id ≡ true
    → account_exists db me ≡ true
    → any (is_friendship req.sender_id req.receiver_id) db.friends ≡ false
    → ((accept_request now fresh req me db).0 ≡ ok tt)
      × IsAccepted req.sender_id req.receiver_id req.id (accept_request now fresh req me db).1
      × (length (accept_request now fresh req me db).1.friend_requests ≡ length db.friend_requests)
unfolding accept_request Notifications.create
accept_request_lem now fresh req me db found ks kr km nf =
    let free : any (is_ordered_pair req.sender_id req.receiver_id) db.friends ≡ false =
      false_of _ (λ h. cc (
        sym nf,
        any_mono (is_ordered_pair req.sender_id req.receiver_id)
            (is_friendship req.sender_id req.receiver_id) db.friends (λ q e. ground arith) h,
      )) in
    ground (
      arith,
      free,
      no_pending_left now req.id db.friend_requests,
      lists_gone req.sender_id req.receiver_id db.friends_cache,
      length-update (λ q. q.id == req.id) (marked now accepted) db.friend_requests,
    )

-- The receiver `r` of a pending request from `s` accepts it at any time, also after it has expired:
-- the call returns and the two are friends. Conditions: both have accounts and are not friends yet.
pub respond-accept :
    (now : ℕ) (fresh : Fresh) (id s r : ℕ) (req : FriendRequest) (db : Db)
    → find (λ q. q.id == id) db.friend_requests ≡ some req
    → is_pending req.status ≡ true
    → req.sender_id ≡ s
    → req.receiver_id ≡ r
    → account_exists db s ≡ true
    → account_exists db r ≡ true
    → any (is_friendship s r) db.friends ≡ false
    → let (result, db') = respond_to_request now fresh id r accept db in
      (result ≡ ok tt) × IsAccepted s r id db'
unfolding respond_to_request answer
respond-accept now fresh id s r req db found open_still from to ks kr nf = ground (
  arith,
  found,
  find_holds (λ q. q.id == id) db.friend_requests req found,
  find-any (λ q. q.id == id) db.friend_requests req found,
  accept_request_lem now fresh req r db,
)

-- A request from `s` to `r` while a live request of `r` to `s` waits is an acceptance of that one: no
-- second request is made. Conditions: both have accounts, are not friends, and no block parts them.
pub send_request-cross :
    (now : ℕ) (fresh : Fresh) (s r : ℕ) (req : FriendRequest) (db : Db)
    → find (is_live_between now s r) db.friend_requests ≡ some req
    → req.sender_id ≡ r
    → req.receiver_id ≡ s
    → s ≢ r
    → account_exists db s ≡ true
    → account_exists db r ≡ true
    → any (is_friendship s r) db.friends ≡ false
    → has_block s r db.blocks ≡ false
    → let (result, db') = send_request now fresh s r db in
      (result ≡ ok (auto_accepted req.id))
      × IsAccepted r s req.id db'
      × (length db'.friend_requests ≡ length db.friend_requests)
unfolding send_request send_with auto_accept
send_request-cross now fresh s r req db found from to ne ks kr nf nb = ground (
  arith,
  found,
  find-any_other (is_live_between now s r) (λ q. q.id == req.id) db.friend_requests req found,
  false_of (any (is_friendship r s) db.friends) (λ h. cc (
    sym nf,
    any_mono (is_friendship r s) (is_friendship s r) db.friends (λ q e. ground arith) h,
  )),
  accept_request_lem now fresh req s db,
)

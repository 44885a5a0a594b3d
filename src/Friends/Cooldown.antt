-- ===== src/Friends/Cooldown.antt =====
-- A rejected sender has to wait: `respondToRequest` and then `sendRequest`.
use swift_chat_backend.Base.{
  ℕ, ◌+◌, ◌≤◌, ◌<◌, ◌≡◌, ◌≢◌, refl, inl, inr, Bool, true, false, not, ◌&&◌, none, some, List, [],
  ◌∷◌, arith, ◌==◌, any, find, update, Bool-cases, ok, err,
}
use swift_chat_backend.Base.Rows.{find-any_other, find-any, find_holds, any-none}
use swift_chat_backend.Http.{bad_request, wait_hours}
use swift_chat_backend.Db.{Db, FriendRequest, is_pending, rejected, account_exists}
use swift_chat_backend.Block.{is_friendship}
use swift_chat_backend.Friends.{
  Fresh, is_request, is_live, is_live_between, set_status, remaining_hours, rejection_cooldown_ms,
}
use swift_chat_backend.Friends.Sending.{send_request, send_with, send_new}
use swift_chat_backend.Friends.Answering.{reject, answer, respond_to_request}
use swift_chat_backend.Friends.Effects.{marked}
use swift_chat_backend.Friends.Separation.{has_block}

-- A row of the pair (s, r) with another id. The unique key rules it out.
abbrev pub is_second_row : (s r id : ℕ) → FriendRequest → Bool
is_second_row s r id q = is_request s r q && not (q.id == id)

-- A live pending request from `s` to `r`.
abbrev pub is_live_request : (now s r : ℕ) → FriendRequest → Bool
is_live_request now s r q = is_request s r q && (is_pending q.status && is_live now q.expired_at)

abbrev rejected_rows : (now id : ℕ) → List FriendRequest → List FriendRequest
rejected_rows now id = update (λ r. r.id == id) (marked now rejected)

module _ (now later id s r : ℕ) where
  no_live_left :
      (rows : List FriendRequest)
      → any (is_second_row s r id) rows ≡ false
      → any (is_live_request later r s) rows ≡ false
      → any (is_live_between later s r) (rejected_rows now id rows) ≡ false
  no_live_left [] u c = refl
  no_live_left (q ∷ rows) u c = ground (arith, no_live_left rows)

  -- The row that the unique key finds afterwards is the rejected one.
  find_rejected :
      (rows : List FriendRequest)
      → any (is_second_row s r id) rows ≡ false
      → any (is_request s r) rows ≡ true
      → (q : FriendRequest) × (find (is_request s r) (rejected_rows now id rows) ≡ some q)
        × (q.status ≡ rejected)
        × (q.updated_at ≡ now)
  find_rejected [] u h = cc
  find_rejected (q ∷ rows) u h = elim (Bool-cases (is_request s r q)) [
    | inl e ↦ (marked now rejected q, ground (arith, e), refl, refl)
    | inr e ↦ ground (arith, e, find_rejected rows)
  ]

remaining_bounds :
    (now later : ℕ)
    → now ≤ later
    → later < now + rejection_cooldown_ms
    → (1 ≤ remaining_hours later now) × (remaining_hours later now ≤ 24)
remaining_bounds now later h k = omega arith

-- What a rejection leaves: the statuses, and the events.
reject_outcome :
    (now : ℕ) (fresh : Fresh) (id s r : ℕ) (req : FriendRequest) (db : Db)
    → find (λ q. q.id == id) db.friend_requests ≡ some req
    → is_pending req.status ≡ true
    → req.receiver_id ≡ r
    → let db' = (respond_to_request now fresh id r reject db).1 in
      ((respond_to_request now fresh id r reject db).0 ≡ ok tt)
      × (db'.friend_requests ≡ rejected_rows now id db.friend_requests)
      × (db'.friends ≡ db.friends)
      × (db'.blocks ≡ db.blocks)
      × (db'.accounts ≡ db.accounts)
unfolding respond_to_request answer set_status
reject_outcome now fresh id s r req db found open_still mine = ground (
  arith,
  found,
  find_holds (λ q. q.id == id) db.friend_requests req found,
  find-any (λ q. q.id == id) db.friend_requests req found,
)

cooled_down :
    (now later : ℕ) (fresh : Fresh) (s r : ℕ) (q : FriendRequest) (db : Db)
    → s ≢ r
    → account_exists db r ≡ true
    → any (is_friendship s r) db.friends ≡ false
    → has_block s r db.blocks ≡ false
    → find (is_live_between later s r) db.friend_requests ≡ none
    → find (is_request s r) db.friend_requests ≡ some q
    → q.status ≡ rejected
    → q.updated_at ≡ now
    → later < now + rejection_cooldown_ms
    → send_request later fresh s r db
      ≡ (err (bad_request (wait_hours (remaining_hours later now))), db)
unfolding send_request send_with send_new
cooled_down now later fresh s r q db ne known nf nb live prev rej at soon = ground arith

-- After the receiver `r` rejects the pending request of `s` at time `now`, a request from `s` to `r`
-- at a time `later` within the next 24 hours is refused and changes nothing; the message asks for
-- between 1 and 24 more hours. Conditions: the two differ, `r` has an account, they are not friends,
-- no block parts them, `r` has no live request to `s`, and the unique key holds for the row.
resend-within_cooldown :
    (now later : ℕ) (fresh fresh' : Fresh) (id s r : ℕ) (req : FriendRequest) (db : Db)
    → find (λ q. q.id == id) db.friend_requests ≡ some req
    → is_pending req.status ≡ true
    → req.sender_id ≡ s
    → req.receiver_id ≡ r
    → any (is_second_row s r id) db.friend_requests ≡ false
    → s ≢ r
    → account_exists db r ≡ true
    → any (is_friendship s r) db.friends ≡ false
    → has_block s r db.blocks ≡ false
    → any (is_live_request later r s) db.friend_requests ≡ false
    → now ≤ later
    → later < now + rejection_cooldown_ms
    → let db' = (respond_to_request now fresh id r reject db).1 in
      (hours : ℕ) × (send_request later fresh' s r db'
        ≡ (err (bad_request (wait_hours hours)), db'))
      × (1 ≤ hours)
      × (hours ≤ 24)
resend-within_cooldown now later fresh fresh' id s r req db found open_still from to unique ne known
      nf nb counter h soon =
    let out = reject_outcome now fresh id s r req db found open_still to in
    let left = no_live_left now later id s r db.friend_requests unique counter in
    let row = find_rejected now later id s r db.friend_requests unique (
      find-any_other (λ q. q.id == id) (is_request s r) db.friend_requests req found
        (ground arith)) in
    let bounds = remaining_bounds now later h soon in
    (
      remaining_hours later now,
      cooled_down now later fresh' s r row.0 (respond_to_request now fresh id r reject db).1 ne
          (rw out.4 known) (rw out.2 nf) (rw out.3 nb)
          (any-none (is_live_between later s r)
            (respond_to_request now fresh id r reject db).1.friend_requests (rw out.1 left))
          (rw out.1 row.1) row.2 row.3 soon,
      bounds.0,
      bounds.1,
    )

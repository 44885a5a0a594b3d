-- ===== src/Friends/Uniqueness.antt =====
-- There is one row for two friends, with its ids in order.
use swift_chat_backend.Base.{
  ℕ, ◌≤◌, ◌≡◌, refl, sym, inl, inr, Bool, true, false, List, [], ◌∷◌, arith, ◌==◌, any, find,
  remove, All, count, Bool-cases, Option-cases, false_of,
}
use swift_chat_backend.Base.Rows.{All-remove}
use swift_chat_backend.Db.{Db, Friend, FriendRequest, is_pair}
use swift_chat_backend.Block.{is_friendship, block_user, unblock_user}
use swift_chat_backend.Friends.{Fresh, accept_request, set_status, first, second, is_ordered_pair}
use swift_chat_backend.Friends.Answering.{
  FriendRequestAction, accept, reject, answer, cancel_request, remove_friend,
  cleanup_expired_requests,
}
use swift_chat_backend.Friends.Effects.{accept_request-tables, send_new-tables, friend_row}
use swift_chat_backend.Friends.Cases.{send_request_cases, respond_to_request_cases}
use swift_chat_backend.Friends.Calls.{
  Call, send, respond, cancel, unfriend, cleanup, block, unblock, call, step, run,
}

count-remove_le {ℓ} :
    {A : Type ℓ} (p q : A → Bool) (rows : List A) → count p (remove q rows) ≤ count p rows
count-remove_le p q [] = omega arith
count-remove_le p q (x ∷ rows) = ground (arith, count-remove_le p q rows)

count-none {ℓ} : {A : Type ℓ} (p : A → Bool) (rows : List A) → any p rows ≡ false → count p rows ≡ 0
count-none p [] h = refl
count-none p (x ∷ rows) h = ground (arith, count-none p rows)

abbrev IsOrdered : Friend → Type 0
IsOrdered r = r.account_id1 ≤ r.account_id2

-- Where every row has its ids in order, the unique key finds a friendship in either direction.
any-is_ordered_pair :
    (a b x y : ℕ) (rows : List Friend)
    → All IsOrdered rows
    → is_pair (first a b) (second a b) x y ≡ true
    → any (is_friendship x y) rows ≡ true
    → any (is_ordered_pair a b) rows ≡ true
any-is_ordered_pair a b x y [] o e h = cc
any-is_ordered_pair a b x y (r ∷ rows) o e h = ground (arith, any-is_ordered_pair a b x y rows o.1)

pub record IsUnique (friends : List Friend) : Type 0 where
  pub ordered : All IsOrdered friends
  pub once : (x y : ℕ) → count (is_friendship x y) friends ≤ 1

IsUnique-remove :
    (p : Friend → Bool) (rows : List Friend) → IsUnique rows → IsUnique (remove p rows)
IsUnique-remove p rows u = record {
  ordered = All-remove IsOrdered p rows u.ordered;
  once = λ x y. omega (arith, count-remove_le (is_friendship x y) p rows, u.once x y);
}

IsUnique-create :
    (now id a b : ℕ) (rows : List Friend)
    → any (is_ordered_pair a b) rows ≡ false
    → IsUnique rows
    → IsUnique (friend_row now id a b ∷ rows)
IsUnique-create now id a b rows free u = record {
  ordered = ground (arith, u.ordered);
  once = λ x y. elim (Bool-cases (is_friendship x y (friend_row now id a b))) [
    | inl same ↦ ground (
      arith,
      same,
      count-none (is_friendship x y) rows
          (false_of _ (λ h. cc (sym free, any-is_ordered_pair a b x y rows u.ordered same h))),
    )
    | inr other ↦ ground (arith, other, u.once x y)
  ];
}

abbrev pub HasUniqueFriends : Db → Type 0
HasUniqueFriends db = IsUnique db.friends

accept_request-HasUniqueFriends :
    (now : ℕ) (fresh : Fresh) (req : FriendRequest) (me : ℕ) (db : Db)
    → HasUniqueFriends db
    → HasUniqueFriends (accept_request now fresh req me db).1
accept_request-HasUniqueFriends now fresh req me db u =
    elim (accept_request-tables now fresh req me db).1 [
      | inl (f, _) ↦ rw f u
      | inr (free, f, _) ↦
          rw f (IsUnique-create now fresh.friend req.sender_id req.receiver_id db.friends free u)
    ]

answer-HasUniqueFriends :
    (now : ℕ) (fresh : Fresh) (req : FriendRequest) (me : ℕ) (action : FriendRequestAction)
    (db : Db)
    → HasUniqueFriends db
    → HasUniqueFriends (answer now fresh req me action db).1
unfolding answer set_status
answer-HasUniqueFriends now fresh req me accept db u =
    accept_request-HasUniqueFriends now fresh req me db u
answer-HasUniqueFriends now fresh req me reject db u = ground (arith, u)

step-HasUniqueFriends : (c : Call) (db : Db) → HasUniqueFriends db → HasUniqueFriends (step c db)
unfolding call cleanup_expired_requests cancel_request remove_friend block_user unblock_user
step-HasUniqueFriends (send now fresh s r) db u = ground (
  arith,
  send_request_cases HasUniqueFriends now fresh s r db u
      (λ req _ _. accept_request-HasUniqueFriends now fresh req s db u)
      (λ _. rw ((send_new-tables now fresh s r db).1) u),
)
step-HasUniqueFriends (respond now fresh q me action) db u =
    respond_to_request_cases HasUniqueFriends now fresh q me action db u
      (λ req _ _. answer-HasUniqueFriends now fresh req me action db u)
step-HasUniqueFriends (cancel q me) db u = ground (arith, u)
step-HasUniqueFriends (unfriend me friend) db u =
    elim (Option-cases (find (is_friendship me friend) db.friends)) [
      | inl e ↦ ground (arith, e, u)
      | inr (f, e) ↦ ground (arith, e, IsUnique-remove (λ r. r.id == f.id) db.friends u)
    ]
step-HasUniqueFriends (cleanup now) db u = u
step-HasUniqueFriends (block now x y) db u =
    ground (arith, u, IsUnique-remove (is_friendship x y) db.friends u)
step-HasUniqueFriends (unblock x y) db u = ground (arith, u)

-- After any sequence of calls that starts where it holds: every friendship is stored with its two
-- ids in order, and two accounts share at most one row, whichever of them is named first.
pub run-HasUniqueFriends :
    (calls : List Call) (db : Db) → HasUniqueFriends db → HasUniqueFriends (run calls db)
unfolding run
run-HasUniqueFriends [] db u = u
run-HasUniqueFriends (c ∷ calls) db u =
    run-HasUniqueFriends calls (step c db) (step-HasUniqueFriends c db u)

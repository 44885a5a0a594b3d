-- ===== src/Friends/Cache.antt =====
-- The cached friends list against the table: `getFriends` and what each change does to the cache.
use swift_chat_backend.Base.{
  ℕ, ◌≡◌, ◌≢◌, refl, inl, inr, true, false, not, ◌&&◌, none, some, List, [], ◌∷◌, arith, ◌==◌, any,
  find, select, remove, All, Option-cases, ok,
}
use swift_chat_backend.Base.Rows.{
  find-All, find_holds, All-remove, find-any_other, any-remove_covered,
}
use swift_chat_backend.Db.{Db, Friend, FriendRequest, CachedFriends}
use swift_chat_backend.Block.{is_friendship, block_user}
use swift_chat_backend.Notifications
use swift_chat_backend.Friends.{Fresh, accept_request}
use swift_chat_backend.Friends.Answering.{remove_friend}
use swift_chat_backend.Friends.Effects.{friend_row}
use swift_chat_backend.Friends.Acceptance.{is_list_of}
use swift_chat_backend.Friends.Listing.{
  FriendsPage, query_friends, involves, is_cached, load_first_page, get_friends, default_take,
}

-- The cached page is the one that the database would give.
pub record IsCurrent (friends : List Friend) (c : CachedFriends) : Type 0 where
  pub ids : c.ids ≡ (query_friends c.account_id default_take 0 friends).ids
  pub total : c.total ≡ (query_friends c.account_id default_take 0 friends).total

abbrev pub IsCoherent : Db → Type 0
IsCoherent db = All (IsCurrent db.friends) db.friends_cache

IsCoherent-page :
    (now a : ℕ) (c : CachedFriends) (db : Db)
    → IsCoherent db
    → find (is_cached now a) db.friends_cache ≡ some c
    → (c.ids ≡ (query_friends a default_take 0 db.friends).ids)
      × (c.total ≡ (query_friends a default_take 0 db.friends).total)
IsCoherent-page now a c db coherent found =
    let current =
      find-All (is_cached now a) (IsCurrent db.friends) db.friends_cache c coherent found in
    let same : c.account_id ≡ a =
      ground (arith, find_holds (is_cached now a) db.friends_cache c found) in
    (rw (← same) current.ids, rw (← same) current.total)

-- While the cache agrees with the table, `getFriends` answers as the table does, from the cache or
-- not, on every page, and the cache still agrees afterwards.
pub get_friends-IsCoherent :
    (now a limit offset : ℕ) (db : Db)
    → IsCoherent db
    → let (result, db') = get_friends now a limit offset db in
      (result ≡ ok (query_friends a limit offset db.friends)) × IsCoherent db'
unfolding get_friends load_first_page
get_friends-IsCoherent now a limit offset db coherent =
    elim (Option-cases (find (is_cached now a) db.friends_cache)) [
      | inl e ↦ ground (arith, e, coherent, stored)
      | inr (c, e) ↦ ground (arith, e, coherent, IsCoherent-page now a c db coherent e)
    ]
  where
    stored : IsCoherent (load_first_page now a none db).1
    stored = (
      record { ids = refl; total = refl },
      All-remove (IsCurrent db.friends) (λ c. c.account_id == a) db.friends_cache coherent,
    )

-- A change of the table that other accounts do not see.
IsCurrent-select :
    (friends friends' : List Friend) (c : CachedFriends)
    → select (involves c.account_id) friends' ≡ select (involves c.account_id) friends
    → IsCurrent friends c
    → IsCurrent friends' c
unfolding query_friends
IsCurrent-select friends friends' c e current = record {
  ids = rw e current.ids;
  total = rw e current.total;
}

others-IsCurrent :
    (s r : ℕ) (friends friends' : List Friend) (cache : List CachedFriends)
    → ((z : ℕ) → z ≢ s → z ≢ r → select (involves z) friends' ≡ select (involves z) friends)
    → All (IsCurrent friends) cache
    → All (IsCurrent friends') (remove (is_list_of r) (remove (is_list_of s) cache))
others-IsCurrent s r friends friends' [] same a = tt
others-IsCurrent s r friends friends' (c ∷ cache) same a = ground (
  arith,
  λ (p : c.account_id ≢ s) (q : c.account_id ≢ r).
      IsCurrent-select friends friends' c (same c.account_id p q) a.0,
  others-IsCurrent s r friends friends' cache same a.1,
)

-- The rows of a third account, when the friendship of two others is deleted by its id.
select-involves_other :
    (s r id z : ℕ)
    → z ≢ s
    → z ≢ r
    → (rows : List Friend) → any (λ f. f.id == id && not (is_friendship s r f)) rows ≡ false
    → select (involves z) (remove (λ f. f.id == id) rows) ≡ select (involves z) rows
select-involves_other s r id z p q [] u = refl
select-involves_other s r id z p q (f ∷ rows) u =
    ground (arith, select-involves_other s r id z p q rows)

-- `removeFriend` keeps the cache in agreement with the table. Condition: its id names one row.
pub remove_friend-IsCoherent :
    (me friend : ℕ) (f : Friend) (db : Db)
    → find (is_friendship me friend) db.friends ≡ some f
    → any (λ r. r.id == f.id && not (is_friendship me friend r)) db.friends ≡ false
    → IsCoherent db
    → IsCoherent (remove_friend me friend db).1
unfolding remove_friend
remove_friend-IsCoherent me friend f db found one coherent = ground (
  arith,
  found,
  find-any_other (is_friendship me friend) (λ r. r.id == f.id) db.friends f found,
  others-IsCurrent me friend db.friends (remove (λ r. r.id == f.id) db.friends) db.friends_cache
      (λ z p q. select-involves_other me friend f.id z p q db.friends one) coherent,
)

-- The acceptance of a request keeps the cache in agreement with the table.
pub accept_request-IsCoherent :
    (now : ℕ) (fresh : Fresh) (req : FriendRequest) (me : ℕ) (db : Db)
    → IsCoherent db
    → IsCoherent (accept_request now fresh req me db).1
unfolding accept_request Notifications.create
accept_request-IsCoherent now fresh req me db coherent = ground (
  arith,
  coherent,
  others-IsCurrent req.sender_id req.receiver_id db.friends
      (friend_row now fresh.friend req.sender_id req.receiver_id ∷ db.friends) db.friends_cache
      (λ z p q. ground arith) coherent,
)

-- A block ends a friendship and leaves the cached list: while the key of `a` has not expired,
-- `getFriends` still gives `a` the page with the blocked `b` in it, though the two are not friends.
pub block_user-stale_list :
    (now later a b : ℕ) (c : CachedFriends) (db : Db)
    → find (is_cached later a) db.friends_cache ≡ some c
    → any (λ i. i == b) c.ids ≡ true
    → (block_user now a b db).0 ≡ ok tt
    → let db' = (block_user now a b db).1 in
      (any (is_friendship a b) db'.friends ≡ false)
      × (page : FriendsPage) × ((get_friends later a default_take 0 db').0 ≡ ok page)
      × (any (λ i. i == b) page.ids ≡ true)
unfolding block_user get_friends load_first_page
block_user-stale_list now later a b c db found listed done = (
  ground (arith, any-remove_covered (is_friendship a b) (is_friendship a b) db.friends (λ r e. e)),
  record { ids = c.ids; total = c.total },
  ground (arith, found),
  listed,
)

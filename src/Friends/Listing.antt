-- ===== src/Friends/Listing.antt =====
-- `FriendsService.getPendingRequests`, `getFriends` and `getFriendIdsBatch`: the ids of the answers.
use swift_chat_backend.Base.{
  ℕ, ◌+◌, ◌*◌, Bool, ◌&&◌, ◌||◌, Option, none, some, List, ◌∷◌, map, Action, pure, gets, modify,
  ◌>>=◌, ◌>>◌, ◌==◌, ltb, if◌then◌else◌, find, select, remove, take, drop, length,
}
use swift_chat_backend.Base.Sorting.{sort_desc}
use swift_chat_backend.Db.{Db, Friend, FriendRequest, CachedFriends, is_pending}
use swift_chat_backend.Friends.{is_live}

-- `getPendingRequests`
unfoldable pub get_pending_requests : (now account : ℕ) → Db → List FriendRequest
get_pending_requests now account db =
    sort_desc (λ r. r.created_at)
      (select
        (λ r.
          (r.receiver_id == account || r.sender_id == account)
          && (is_pending r.status && is_live now r.expired_at))
        db.friend_requests)

-- `OR: [{ accountId1: a }, { accountId2: a }]`
abbrev pub involves : ℕ → Friend → Bool
involves a r = r.account_id1 == a || r.account_id2 == a

-- The account at the other end.
abbrev pub other_end : ℕ → Friend → ℕ
other_end a r = if r.account_id1 == a then r.account_id2 else r.account_id1

abbrev pub default_take : ℕ
default_take = 20

-- `FRIENDS_CACHE_TTL`, 300 seconds
abbrev pub friends_cache_ttl_ms : ℕ
friends_cache_ttl_ms = 300 * 1000

pub record FriendsPage : Type 0 where
  pub ids : List ℕ
  pub total : ℕ

-- The page as the database has it.
unfoldable pub query_friends : (account limit offset : ℕ) → List Friend → FriendsPage
query_friends account limit offset friends = record {
  ids = map (other_end account) (
      take limit (drop offset (sort_desc (λ r. r.created_at) (select (involves account) friends))));
  total = length (select (involves account) friends);
}

-- `redis.get` of the friends list: a key is there until it expires.
abbrev pub is_cached : (now account : ℕ) → CachedFriends → Bool
is_cached now account c = c.account_id == account && ltb now c.expires_at

-- `redis.set` of the friends list.
abbrev pub store_friends : (now account : ℕ) → FriendsPage → Action Db (Unit {0})
store_friends now account page = modify (λ db. record db {
  friends_cache = entry ∷ remove (λ c. c.account_id == account) db.friends_cache;
})
  where
    entry : CachedFriends
    entry = record {
      account_id = account;
      ids = page.ids;
      total = page.total;
      expires_at = now + friends_cache_ttl_ms;
    }

-- The page from the cache, if one is given, or from the database, which the cache then holds.
unfoldable pub load_first_page : (now account : ℕ) → Option CachedFriends → Action Db FriendsPage
load_first_page now account (some c) = pure (record { ids = c.ids; total = c.total })
load_first_page now account none = do
  page ← gets (λ db. query_friends account default_take 0 db.friends)
  store_friends now account page
  pure page

-- `getFriends`, without the presence that is attached to the page; only the first page of the
-- default size goes through the cache.
unfoldable pub get_friends : (now account limit offset : ℕ) → Action Db FriendsPage
get_friends now account limit offset =
    if offset == 0 && limit == default_take
    then (gets (λ db. find (is_cached now account) db.friends_cache)
        >>= load_first_page now account)
    else gets (λ db. query_friends account limit offset db.friends)

-- `getFriendIdsBatch`
unfoldable pub get_friend_ids_batch : (account skip batch : ℕ) → Db → List ℕ
get_friend_ids_batch account skip batch db =
    map (other_end account) (take batch (drop skip (select (involves account) db.friends)))

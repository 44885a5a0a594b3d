-- ===== src/Friends/Tests.antt =====
-- Examples for the properties of friends and blocks.
use swift_chat_backend.Base.{
  ℕ, ◌≡◌, refl, true, false, List, [], ◌∷◌, arith, ok, err, any, length, ◌==◌,
}
use swift_chat_backend.Http.{conflict, already_blocked}
use swift_chat_backend.Db.{Db, RequestStatus, CachedFriends}
use swift_chat_backend.Block.{block_user, is_friendship}
use swift_chat_backend.Samples.{tables, friendship, request, fresh_ids}
use swift_chat_backend.Friends.Sending.{send_request, auto_accepted}
use swift_chat_backend.Friends.Answering.{accept}
use swift_chat_backend.Friends.Listing.{get_friends, query_friends, default_take, FriendsPage}
use swift_chat_backend.Friends.Calls.{Call, send, respond, block, call, step, run}
use swift_chat_backend.Friends.Safety.{IsSafe, run-IsSafe}
use swift_chat_backend.Friends.Uniqueness.{HasUniqueFriends, run-HasUniqueFriends}
use swift_chat_backend.Friends.Atomicity.{step_error_unchanged}
use swift_chat_backend.Friends.Acceptance.{IsAccepted, send_request-cross}
use swift_chat_backend.Friends.Cache.{IsCoherent, get_friends-IsCoherent, block_user-stale_list}

abbrev friends : Db
friends = tables (friendship 4 1 2 ∷ []) [] []

abbrev calls : List Call
calls =
    send 50 (fresh_ids 20) 1 3
    ∷ respond 60 (fresh_ids 21) 20 3 accept
    ∷ block 70 1 2
    ∷ send 80 (fresh_ids 22) 2 1
    ∷ []

friends-IsSafe : IsSafe friends
friends-IsSafe = record { no_friendship = λ x y e. cc; no_pending = λ x y e. cc }

run-IsSafe_example : IsSafe (run calls friends)
run-IsSafe_example = run-IsSafe calls friends friends-IsSafe

friends-HasUniqueFriends : HasUniqueFriends friends
friends-HasUniqueFriends = record { ordered = ground arith; once = λ x y. ground arith }

run-HasUniqueFriends_example : HasUniqueFriends (run calls friends)
run-HasUniqueFriends_example = run-HasUniqueFriends calls friends friends-HasUniqueFriends

abbrev blocked : Db
blocked = record friends { blocks = record { blocker_id = 1; blocked_id = 2; created_at = 0 } ∷ [] }

block_again : (call (block 70 1 2) blocked).0 ≡ err (conflict already_blocked)
unfolding call block_user
block_again = refl

step_error_unchanged_example : step (block 70 1 2) blocked ≡ blocked
step_error_unchanged_example =
    step_error_unchanged (block 70 1 2) blocked (conflict already_blocked) tt block_again

-- 2 asked 1 before 1 asks 2.
abbrev waiting : Db
waiting = tables [] (request 20 2 1 RequestStatus.pending ∷ []) []

send_request-cross_example :
    let (result, db') = send_request 50 (fresh_ids 30) 1 2 waiting in
    (result ≡ ok (auto_accepted 20)) × IsAccepted 2 1 20 db' × (length db'.friend_requests ≡ 1)
send_request-cross_example =
    send_request-cross 50 (fresh_ids 30) 1 2 (request 20 2 1 RequestStatus.pending) waiting refl
      refl refl (λ h. ground (arith, h)) refl refl refl refl

abbrev cached : List ℕ → CachedFriends
cached ids = record { account_id = 1; ids = ids; total = 1; expires_at = 900 }

abbrev with_cache : Db
with_cache = tables (friendship 4 1 2 ∷ []) [] (cached (2 ∷ []) ∷ [])

with_cache-IsCoherent : IsCoherent with_cache
unfolding query_friends
with_cache-IsCoherent = (record { ids = refl; total = refl }, tt)

get_friends-IsCoherent_example :
    let (result, db') = get_friends 50 1 default_take 0 with_cache in
    (result ≡ ok (query_friends 1 default_take 0 with_cache.friends)) × IsCoherent db'
get_friends-IsCoherent_example =
    get_friends-IsCoherent 50 1 default_take 0 with_cache with_cache-IsCoherent

blocks : (block_user 50 1 2 with_cache).0 ≡ ok tt
unfolding block_user
blocks = refl

block_user-stale_list_example :
    let db' = (block_user 50 1 2 with_cache).1 in
    (any (is_friendship 1 2) db'.friends ≡ false)
    × (page : FriendsPage) × ((get_friends 60 1 default_take 0 db').0 ≡ ok page)
    × (any (λ i. i == 2) page.ids ≡ true)
block_user-stale_list_example =
    block_user-stale_list 50 60 1 2 (cached (2 ∷ [])) with_cache refl refl blocks

-- ===== src/Block.antt =====
-- src/block/block.service.ts: blocks between accounts, and what a block takes away.
use swift_chat_backend.Base.{
  ℕ, Bool, not, ◌&&◌, List, ◌∷◌, map, Action, gets, modify, raise_if, transaction, ◌>>=◌, ◌>>◌,
  ◌==◌, any, select, remove,
}
use swift_chat_backend.Base.Sorting.{sort_desc}
use swift_chat_backend.Http.{
  Error, PrismaCode, bad_request, not_found, conflict, self_block, user_not_found, already_blocked,
  block_not_found,
}
use swift_chat_backend.Users.{clear_profile_cache}
use swift_chat_backend.Db.{Db, Block, Friend, FriendRequest, is_pending, is_pair, account_exists}

abbrev pub is_block : (blocker blocked : ℕ) → Block → Bool
is_block blocker blocked r = r.blocker_id == blocker && r.blocked_id == blocked

-- `isBlocked`: one direction.
abbrev pub is_blocked : (blocker blocked : ℕ) → Db → Bool
is_blocked blocker blocked db = any (is_block blocker blocked) db.blocks

-- `isBlockedEitherDirection`
abbrev pub is_blocked_either_direction : (x y : ℕ) → Db → Bool
is_blocked_either_direction x y db = any (λ r. is_pair r.blocker_id r.blocked_id x y) db.blocks

-- `where` objects over both directions of a pair.
abbrev pub is_pending_between : (x y : ℕ) → FriendRequest → Bool
is_pending_between x y r = is_pair r.sender_id r.receiver_id x y && is_pending r.status

abbrev pub is_friendship : (x y : ℕ) → Friend → Bool
is_friendship x y r = is_pair r.account_id1 r.account_id2 x y

create_block : (now blocker blocked : ℕ) → Action Db (Unit {0})
create_block now blocker blocked = do
  known ← gets (λ db. account_exists db blocker && account_exists db blocked)
  raise_if (not known) (Error.prisma PrismaCode.foreign_key)
  taken ← gets (is_blocked blocker blocked)
  raise_if taken (Error.prisma PrismaCode.unique_constraint)
  modify (λ db. record db { blocks = row ∷ db.blocks })
  where
    row : Block
    row = record { blocker_id = blocker; blocked_id = blocked; created_at = now }

unfoldable pub block_user : (now blocker blocked : ℕ) → Action Db (Unit {0})
unfolding create_block
block_user now blocker blocked = do
  raise_if (blocker == blocked) (bad_request self_block)
  known ← gets (λ db. account_exists db blocked)
  raise_if (not known) (not_found user_not_found)
  taken ← gets (is_blocked blocker blocked)
  raise_if taken (conflict already_blocked)
  transaction (do
    create_block now blocker blocked
    modify (λ db. record db {
      friend_requests = remove (is_pending_between blocker blocked) db.friend_requests;
    })
    modify (λ db. record db { friends = remove (is_friendship blocker blocked) db.friends }))
  clear_profile_cache blocker
  clear_profile_cache blocked

unfoldable pub unblock_user : (blocker blocked : ℕ) → Action Db (Unit {0})
unblock_user blocker blocked = do
  found ← gets (is_blocked blocker blocked)
  modify (λ db. record db { blocks = remove (is_block blocker blocked) db.blocks })
  raise_if (not found) (not_found block_not_found)
  clear_profile_cache blocker
  clear_profile_cache blocked

-- `getBlockedUsers`: the ids of the answer.
pub get_blocked_users : ℕ → Db → List ℕ
get_blocked_users a db =
    map (λ r. r.blocked_id)
      (sort_desc (λ r. r.created_at) (select (λ r. r.blocker_id == a) db.blocks))

-- `getBlockStatus`: whether the first blocks the second, and the other way round.
pub get_block_status : (account target : ℕ) → Db → Bool × Bool
get_block_status account target db = (is_blocked account target db, is_blocked target account db)

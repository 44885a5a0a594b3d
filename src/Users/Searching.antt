-- ===== src/Users/Searching.antt =====
-- `UserService.searchByHandle` (src/user/user.service.ts). `contains` is the test of PostgreSQL whether
-- a text contains another one, in capitals or not. The rows come in the order of the table.
use swift_chat_backend.Base.{
  ℕ, Bool, true, false, not, ◌&&◌, ◌||◌, Option, none, some, List, [], ◌∷◌, map, ◌==◌, any, select,
  take, if◌then◌else◌,
}
use swift_chat_backend.Db.{Db, Friend, Profile, FriendRequest, is_pending}
use swift_chat_backend.Users.{is_profile_of}
use swift_chat_backend.Friends.Listing.{involves, other_end, default_take}

pub data RequestDirection : Type 0 where
  sent received : RequestDirection

-- `SearchUserResponseDto`
pub record SearchUserResponse : Type 0 where
  pub id : ℕ
  pub handle : ℕ
  pub display_name : Option ℕ
  pub avatar_url : Option ℕ
  pub is_friend : Bool
  pub friend_request_status : Option RequestDirection

pub data Scope : Type 0 where
  all friends : Scope

-- `friendIds`
abbrev pub friend_ids : (account : ℕ) → Db → List ℕ
friend_ids a db = map (other_end a) (select (involves a) db.friends)

-- `friendships`: the rows of the caller with one of the accounts that were found.
abbrev pub friendships_with : (me : ℕ) → (ids : List ℕ) → Db → List Friend
friendships_with me ids db =
    select
      (λ f.
        (f.account_id1 == me && any (λ id. f.account_id2 == id) ids)
        || (any (λ id. f.account_id1 == id) ids && f.account_id2 == me))
      db.friends

-- `friendSet`
abbrev pub friend_set : (me : ℕ) → List Friend → List ℕ
friend_set me friendships = map (other_end me) friendships

-- `friendRequests`
abbrev pub requests_with : (me : ℕ) → (ids : List ℕ) → Db → List FriendRequest
requests_with me ids db =
    select
      (λ r.
        (r.sender_id == me && (any (λ id. r.receiver_id == id) ids && is_pending r.status))
        || (any (λ id. r.sender_id == id) ids && (r.receiver_id == me && is_pending r.status)))
      db.friend_requests

-- `requestMap`: the entries in the order of the rows
abbrev pub request_map : (me : ℕ) → List FriendRequest → List (ℕ × RequestDirection)
request_map me requests =
    map (λ r. if r.sender_id == me then (r.receiver_id, sent) else (r.sender_id, received)) requests

-- `requestMap.get`: the last entry of a key counts.
abbrev pub get_direction : (key : ℕ) → List (ℕ × RequestDirection) → Option RequestDirection
get_direction key [] = none
get_direction key ((k, direction) ∷ entries) =
    let later = get_direction key entries in
    elim later [ some d ↦ some d | none ↦ if k == key then some direction else none ]

abbrev pub friend_answer : Profile → SearchUserResponse
friend_answer p = record {
  id = p.account_id;
  handle = p.handle;
  display_name = p.display_name;
  avatar_url = p.avatar_url;
  is_friend = true;
  friend_request_status = none;
}

abbrev pub search_answer :
    (friend_set : List ℕ)
    → (request_map : List (ℕ × RequestDirection)) → Profile
    → SearchUserResponse
search_answer friend_set request_map p = record {
  id = p.account_id;
  handle = p.handle;
  display_name = p.display_name;
  avatar_url = p.avatar_url;
  is_friend = any (λ id. id == p.account_id) friend_set;
  friend_request_status = get_direction p.account_id request_map;
}

abbrev pub in_scope : Scope → (account : ℕ) → Db → Profile → Bool
in_scope friends a db p = any (λ id. p.account_id == id) (friend_ids a db)
in_scope all a db p = not (is_profile_of a p)

module _ (contains : (text q : ℕ) → Bool) where
  abbrev pub contains_maybe : (q : ℕ) → Option ℕ → Bool
  contains_maybe q none = false
  contains_maybe q (some text) = contains text q

  abbrev pub is_hit : (q : ℕ) → Profile → Bool
  is_hit q p = contains p.handle q || contains_maybe q p.display_name

  abbrev pub hits : (q : ℕ) → Scope → (account : ℕ) → Db → List Profile
  hits q scope a db =
      take default_take (select (λ p. in_scope scope a db p && is_hit q p) db.profiles)

  -- `searchByHandle`
  unfoldable pub search_by_handle : (q : ℕ) → Scope → (account : ℕ) → Db → List SearchUserResponse
  search_by_handle q friends a db = map friend_answer (hits q friends a db)
  search_by_handle q all a db =
      let profiles = hits q all a db in
      let ids = map (λ p. p.account_id) profiles in
      map
        (search_answer (friend_set a (friendships_with a ids db))
          (request_map a (requests_with a ids db)))
        profiles

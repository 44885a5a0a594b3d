-- ===== src/Users/SearchLaws.antt =====
-- What a search answers (`UserService.searchByHandle`, src/user/user.service.ts).
use swift_chat_backend.Base.{
  ℕ, ◌≤◌, ◌≡◌, refl, inl, inr, Bool, true, false, ◌&&◌, ◌||◌, Option, none, some, List, [], ◌∷◌,
  map, arith, ◌==◌, ==_iff, ==_refl, any, select, length, All, Bool-cases, if◌then◌else◌,
}
use swift_chat_backend.Base.Slices.{length-map, length-take, All-take}
use swift_chat_backend.Db.{Db, Friend, FriendRequest, Profile, is_pending}
use swift_chat_backend.Block.{is_friendship, is_pending_between}
use swift_chat_backend.Friends.Listing.{involves, other_end, default_take}
use swift_chat_backend.Users.Searching.{
  SearchUserResponse, RequestDirection, sent, received, Scope, all, friends, is_hit, in_scope, hits,
  friend_set, friendships_with, requests_with, request_map, get_direction, friend_answer,
  search_answer, search_by_handle,
}

-- A pending request of the one to the other.
abbrev pub asks : (sender receiver : ℕ) → FriendRequest → Bool
asks s r f = f.sender_id == s && (f.receiver_id == r && is_pending f.status)

-- A direction that the tables bear out.
abbrev pub IsDirection : (account other : ℕ) → List FriendRequest → Option RequestDirection → Type 0
IsDirection a x rows none = any (is_pending_between a x) rows ≡ false
IsDirection a x rows (some sent) = any (asks a x) rows ≡ true
IsDirection a x rows (some received) = any (asks x a) rows ≡ true

-- What is said of a request.
abbrev pub IsToldRequest : Scope → (account other : ℕ) → Db → Option RequestDirection → Type 0
IsToldRequest all a x db direction = IsDirection a x db.friend_requests direction
IsToldRequest friends a x db direction = direction ≡ none

abbrev pub IsTold : Scope → (account : ℕ) → Db → SearchUserResponse → Type 0
IsTold scope a db r =
    (r.is_friend ≡ any (is_friendship a r.id) db.friends)
    × IsToldRequest scope a r.id db r.friend_request_status

friend_ids-any :
    (a x : ℕ) (rows : List Friend)
    → any (λ id. x == id) (map (other_end a) (select (involves a) rows)) ≡ true
    → any (is_friendship a x) rows ≡ true
friend_ids-any a x [] e = cc
friend_ids-any a x (r ∷ rows) e = elim (Bool-cases (involves a r)) [
  | inl h ↦ ground (arith, h, e, friend_ids-any a x rows)
  | inr h ↦ ground (arith, h, e, friend_ids-any a x rows)
]

module _ (a x : ℕ) (ids : List ℕ) (listed : any (λ id. x == id) ids ≡ true)
    (other : (x == a) ≡ false) where
  listed-same : (k : ℕ) → (k == x) ≡ true → any (λ id. k == id) ids ≡ true
  listed-same k e = rw ((==_iff k x).0 e) listed

  friend_set-any :
      (rows : List Friend)
      → any
          (λ id. id == x)
          (map (other_end a) (
            select
              (λ f.
                (f.account_id1 == a && any (λ id. f.account_id2 == id) ids)
                || (any (λ id. f.account_id1 == id) ids && f.account_id2 == a))
              rows))
        ≡ any (is_friendship a x) rows
  friend_set-any [] = refl
  friend_set-any (f ∷ rows) =
      ground
        (arith, other, friend_set-any rows, listed-same f.account_id1, listed-same f.account_id2)

  abbrev is_asked : FriendRequest → Bool
  is_asked r =
      (r.sender_id == a && (any (λ id. r.receiver_id == id) ids && is_pending r.status))
      || (any (λ id. r.sender_id == id) ids && (r.receiver_id == a && is_pending r.status))

  abbrev next : FriendRequest → Option RequestDirection → Option RequestDirection
  next r later = elim later [
    | some d ↦ some d
    | none ↦
        if r.sender_id == a
        then if r.receiver_id == x then some sent else none
        else if r.sender_id == x
        then some received
        else none
  ]

  next-asked :
      (r : FriendRequest) (rows : List FriendRequest) (later : Option RequestDirection)
      → is_asked r ≡ true
      → IsDirection a x rows later
      → IsDirection a x (r ∷ rows) (next r later)
  next-asked r rows (some sent) e d = ground (arith, d)
  next-asked r rows (some received) e d = ground (arith, d)
  next-asked r rows none e d = ground (arith, e, d, other)

  next-skipped :
      (r : FriendRequest) (rows : List FriendRequest) (later : Option RequestDirection)
      → is_asked r ≡ false
      → IsDirection a x rows later
      → IsDirection a x (r ∷ rows) later
  next-skipped r rows (some sent) e d = ground (arith, d)
  next-skipped r rows (some received) e d = ground (arith, d)
  next-skipped r rows none e d =
      ground (arith, e, d, listed-same r.sender_id, listed-same r.receiver_id)

  get_direction-next :
      (r : FriendRequest) (rows : List FriendRequest)
      → get_direction x (request_map a (r ∷ rows)) ≡ next r (get_direction x (request_map a rows))
  get_direction-next r rows = ground arith

  request_map-any :
      (rows : List FriendRequest)
      → IsDirection a x rows (get_direction x (request_map a (select is_asked rows)))
  request_map-any [] = refl
  request_map-any (r ∷ rows) =
      let later = get_direction x (request_map a (select is_asked rows)) in
      elim (Bool-cases (is_asked r)) [
        | inl e ↦
            rw (e, get_direction-next r (select is_asked rows))
              (next-asked r rows later e (request_map-any rows))
        | inr e ↦ rw e (next-skipped r rows later e (request_map-any rows))
      ]

-- Each profile's account is among the accounts of the profiles.
listed-cons :
    (k : ℕ) (ids : List ℕ) (rows : List Profile)
    → All (λ p. any (λ id. p.account_id == id) ids ≡ true) rows
    → All (λ p. any (λ id. p.account_id == id) (k ∷ ids) ≡ true) rows
listed-cons k ids [] a = tt
listed-cons k ids (p ∷ rows) a = ground (arith, a, listed-cons k ids rows a.1)

listed-all :
    (rows : List Profile)
    → All (λ p. any (λ id. p.account_id == id) (map (λ r. r.account_id) rows) ≡ true) rows
listed-all [] = tt
listed-all (p ∷ rows) = (
  ground (arith, ==_refl p.account_id),
  listed-cons p.account_id (map (λ r. r.account_id) rows) rows (listed-all rows),
)

select-All :
    (p q : Profile → Bool) (rows : List Profile)
    → All (λ r. p r ≡ true) (select (λ r. p r && q r) rows)
select-All p q [] = tt
select-All p q (r ∷ rows) = ground (arith, select-All p q rows)

module _ (contains : (text q : ℕ) → Bool) where
  hits-All :
      (q : ℕ) (scope : Scope) (a : ℕ) (db : Db)
      → All (λ p. in_scope scope a db p ≡ true) (hits contains q scope a db)
  hits-All q scope a db =
      All-take _ default_take _ (select-All (in_scope scope a db) (is_hit contains q) db.profiles)

friend_answers-IsTold :
    (a : ℕ) (db : Db) (rows : List Profile)
    → All (λ p. in_scope friends a db p ≡ true) rows
    → All (IsTold friends a db) (map friend_answer rows)
friend_answers-IsTold a db [] h = tt
friend_answers-IsTold a db (p ∷ rows) h = (
  (ground (arith, friend_ids-any a p.account_id db.friends h.0), refl),
  friend_answers-IsTold a db rows h.1,
)

search_answers-IsTold :
    (a : ℕ) (ids : List ℕ) (db : Db) (rows : List Profile)
    → All (λ p. in_scope all a db p ≡ true) rows
    → All (λ p. any (λ id. p.account_id == id) ids ≡ true) rows
    → All (IsTold all a db) (
        map
          (search_answer
            (friend_set a (friendships_with a ids db))
            (request_map a (requests_with a ids db)))
          rows)
search_answers-IsTold a ids db [] h l = tt
search_answers-IsTold a ids db (p ∷ rows) h l =
    let other : (p.account_id == a) ≡ false = ground (arith, h.0) in
    (
      (
        friend_set-any a p.account_id ids l.0 other db.friends,
        request_map-any a p.account_id ids l.0 other db.friend_requests,
      ),
      search_answers-IsTold a ids db rows h.1 l.1,
    )

module _ (contains : (text q : ℕ) → Bool) where
  -- A search gives at most twenty answers, in both scopes. Each says rightly whether its account is a
  -- friend of the caller. Among all accounts it also says rightly of a pending request: `sent` only if
  -- one goes from the caller to the account, `received` only if one goes the other way, and nothing
  -- exactly if none is pending between them; among the friends it says nothing of requests.
  pub search_by_handle-IsTold :
      (q : ℕ) (scope : Scope) (a : ℕ) (db : Db)
      → let answers = search_by_handle contains q scope a db in
        All (IsTold scope a db) answers × (length answers ≤ default_take)
  unfolding search_by_handle
  search_by_handle-IsTold q friends a db = (
    friend_answers-IsTold a db (hits contains q friends a db) (hits-All contains q friends a db),
    rw (length-map friend_answer (hits contains q friends a db)) (length-take default_take _),
  )
  search_by_handle-IsTold q all a db =
      let rows = hits contains q all a db in
      (
        search_answers-IsTold a (map (λ p. p.account_id) rows) db rows
            (hits-All contains q all a db) (listed-all rows),
        rw (length-map _ rows) (length-take default_take _),
      )

-- ===== src/Chat/Broadcasting.antt =====
-- Whom the presence of an account is sent to.
use swift_chat_backend.Base.{
  ℕ, zero, suc, ◌+◌, ◌≤◌, ◌<◌, ◌≡◌, inl, inr, sym, ap, ◌∙◌, true, false, some, ◌++◌, map, arith,
  ltb, length, take, drop, select, Bool-cases,
}
use swift_chat_backend.Db.{Db}
use swift_chat_backend.Friends.Listing.{get_friend_ids_batch, involves, other_end}
use swift_chat_backend.Chat.Presence.{load_friends, broadcast_batch_size, presence_targets, shares}
use swift_chat_backend.Base.Slices.{
  drop-drop, take-all, take-drop, length-take-drop, length-select_le, length-map, map-append,
}

less : (x y : ℕ) → y ≡ x → ltb y broadcast_batch_size ≡ true → x < broadcast_batch_size
less x y e l = ground arith

not_less :
    (x y : ℕ) → y ≡ x → ltb y broadcast_batch_size ≡ false → ltb x broadcast_batch_size ≡ false
not_less x y e l = rw (sym e) l

-- From a position on, the loop reads all that is left.
load_friends-all :
    (fuel a skip : ℕ) (db : Db)
    → length (drop skip (select (involves a) db.friends)) < fuel
    → load_friends fuel a skip db
      ≡ some (map (other_end a) (drop skip (select (involves a) db.friends)))
unfolding get_friend_ids_batch
load_friends-all zero a skip db lt = ground arith
load_friends-all (suc fuel) a skip db lt =
    let left = drop skip (select (involves a) db.friends) in
    let n = broadcast_batch_size in
    let size = length-map (other_end a) (take n left) in
    let next = drop-drop skip n (select (involves a) db.friends) in
    elim (Bool-cases (ltb (length (get_friend_ids_batch a skip n db)) n)) [
      | inl short ↦ rw short (
          ap (λ r. some (map (other_end a) r))
            (take-all n left
              (less (length (take n left)) (length (get_friend_ids_batch a skip n db)) size short)))
      | inr full ↦
          let smaller =
            shorter (length (take n left)) (length (drop n left)) (length left)
              (length-take-drop n left) lt
              (not_less (length (take n left)) (length (get_friend_ids_batch a skip n db)) size
                full) in
          let rest = load_friends-all fuel a (skip + n) db (rw next at smaller) in
          rw (full, rest)
            (ap some (
              ap (λ r. map (other_end a) (take n left) ++ map (other_end a) r) (sym next)
              ∙ (map-append (other_end a) (take n left) (drop n left)
                  ∙ ap (map (other_end a)) (take-drop n left))))
    ]
  where
    shorter : (x y z : ℕ) → x + y ≡ z → z < suc fuel → ltb x broadcast_batch_size ≡ false → y < fuel
    shorter x y z e l f = ground arith

-- The loop over the batches ends, and those who are told of an account's presence are all its friends,
-- of however many batches, and the others of its conversations that are not deleted.
pub presence_targets-all :
    (a : ℕ) (db : Db)
    → presence_targets a db
      ≡ some (
          map (other_end a) (select (involves a) db.friends)
          ++ map (λ p. p.account_id) (select (shares a db) db.participants))
unfolding presence_targets
presence_targets-all a db = rw (
  presence_targets,
  load_friends-all (suc (length db.friends)) a 0 db
      (bounded (length-select_le (involves a) db.friends)),
)
  where
    bounded :
        length (select (involves a) db.friends) ≤ length db.friends
        → length (select (involves a) db.friends) < suc (length db.friends)
    bounded le = omega arith

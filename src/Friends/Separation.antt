-- ===== src/Friends/Separation.antt =====
-- Nobody is a friend of, or waits for an answer from, an account that either has blocked.
use swift_chat_backend.Base.{
  ℕ, ◌≡◌, inl, inr, Bool, true, false, List, ◌∷◌, arith, any, remove, update, Bool-cases, false_of,
}
use swift_chat_backend.Base.Rows.{any_mono, any-remove_le, any-remove_covered, any-update_le}
use swift_chat_backend.Db.{Friend, FriendRequest, Block, is_pair}
use swift_chat_backend.Block.{is_friendship, is_pending_between}
use swift_chat_backend.Friends.{is_request, new_request, renewed}

-- A block between the two, in either direction.
abbrev pub has_block : (x y : ℕ) → List Block → Bool
has_block x y = any (λ r. is_pair r.blocker_id r.blocked_id x y)

pub record IsSeparated (blocks : List Block) (friends : List Friend) (requests : List FriendRequest)
    : Type 0 where
  pub no_friendship :
      (x y : ℕ) → has_block x y blocks ≡ true → any (is_friendship x y) friends ≡ false
  pub no_pending :
      (x y : ℕ) → has_block x y blocks ≡ true → any (is_pending_between x y) requests ≡ false

-- A block between two is one between the ends of any row about the two.
pub has_block-transfer :
    (a b x y : ℕ) (blocks : List Block)
    → is_pair a b x y ≡ true
    → has_block x y blocks ≡ true
    → has_block a b blocks ≡ true
has_block-transfer a b x y blocks e =
    any_mono (λ r. is_pair r.blocker_id r.blocked_id x y)
      (λ r. is_pair r.blocker_id r.blocked_id a b) blocks (λ r h. ground arith)

module _ {blocks : List Block} {friends : List Friend} {requests : List FriendRequest}
    (sep : IsSeparated blocks friends requests) where
  -- Fewer blocks, friendships and requests.
  pub IsSeparated-weaken :
      (blocks' : List Block) (friends' : List Friend) (requests' : List FriendRequest)
      → ((x y : ℕ) → has_block x y blocks' ≡ true → has_block x y blocks ≡ true)
      → ((x y : ℕ)
          → any (is_friendship x y) friends' ≡ true
          → any (is_friendship x y) friends ≡ true)
      → ((x y : ℕ)
          → any (is_pending_between x y) requests' ≡ true
          → any (is_pending_between x y) requests ≡ true)
      → IsSeparated blocks' friends' requests'
  IsSeparated-weaken blocks' friends' requests' hb hf hr = record {
    no_friendship =
        λ x y b. false_of _ (λ e. ground (arith, sep.no_friendship x y, hb x y, hf x y));
    no_pending = λ x y b. false_of _ (λ e. ground (arith, sep.no_pending x y, hb x y, hr x y));
  }

  -- A friendship of two that no block parts.
  pub IsSeparated-befriend :
      (a b : ℕ) (row : Friend)
      → is_pair row.account_id1 row.account_id2 a b ≡ true
      → has_block a b blocks ≡ false
      → IsSeparated blocks (row ∷ friends) requests
  IsSeparated-befriend a b row e free = record {
    no_friendship = λ x y h.
        false_of _ (λ f. ground (arith, sep.no_friendship x y, has_block-transfer a b x y blocks));
    no_pending = sep.no_pending;
  }

  -- A new or renewed request from one to another that no block parts.
  pub IsSeparated-send :
      (now id a b : ℕ)
      → has_block a b blocks ≡ false
      → IsSeparated blocks friends (new_request now id a b ∷ requests)
  IsSeparated-send now id a b free = record {
    no_friendship = sep.no_friendship;
    no_pending = λ x y h.
        false_of _ (λ f. ground (arith, sep.no_pending x y, has_block-transfer a b x y blocks));
  }

  pub IsSeparated-resend :
      (now a b : ℕ)
      → has_block a b blocks ≡ false
      → IsSeparated blocks friends (update (is_request a b) (renewed now) requests)
  IsSeparated-resend now a b free = record {
    no_friendship = sep.no_friendship;
    no_pending = λ x y h. false_of _ (λ f. ground (
      arith,
      sep.no_pending x y h,
      any-update_le (is_pending_between x y) (is_request a b) (renewed now) requests
          (λ r q p. ground (arith, has_block-transfer a b x y blocks)) f,
    ));
  }

  -- A block, with the clean-up of its transaction.
  pub IsSeparated-block :
      (now a b : ℕ)
      → IsSeparated
          (record { blocker_id = a; blocked_id = b; created_at = now } ∷ blocks)
          (remove (is_friendship a b) friends)
          (remove (is_pending_between a b) requests)
  IsSeparated-block now a b = record {
    no_friendship = λ x y h. elim (Bool-cases (is_pair a b x y)) [
      | inl same ↦
          any-remove_covered (is_friendship x y) (is_friendship a b) friends (λ r e. ground arith)
      | inr other ↦ false_of _ (λ f. ground (
        arith,
        sep.no_friendship x y,
        any-remove_le (is_friendship x y) (is_friendship a b) friends f,
      ))
    ];
    no_pending = λ x y h. elim (Bool-cases (is_pair a b x y)) [
      | inl same ↦
          any-remove_covered (is_pending_between x y) (is_pending_between a b) requests
            (λ r e. ground arith)
      | inr other ↦ false_of _ (λ f. ground (
        arith,
        sep.no_pending x y,
        any-remove_le (is_pending_between x y) (is_pending_between a b) requests f,
      ))
    ];
  }

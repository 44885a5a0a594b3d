-- ===== src/Conversations/DeletingLaws.antt =====
-- Deleting a conversation, whatever its type.
use swift_chat_backend.Base.{
  ℕ, ◌≡◌, refl, Bool, false, not, ◌&&◌, some, List, [], ◌∷◌, map, arith, ◌==◌, ok, err, is_some,
  any, select, update,
}
use swift_chat_backend.Http.{Error}
use swift_chat_backend.Db.{Db, Conversation, Participant, ConversationType, direct, group}
use swift_chat_backend.Group.{is_key, ensure_group_conversation}
use swift_chat_backend.Group.Leadership.{disband_group}
use swift_chat_backend.Conversations.{
  is_conversation, hidden, hide_direct_conversation, get_conversation_type, is_undeleted,
  get_user_conversation_ids,
}
use swift_chat_backend.Conversations.MutingLaws.{is_shown_in, any-listed}
use swift_chat_backend.Conversations.Deleting.{delete_conversation}

-- No row of the list is one of a conversation that is deleted.
any-deleted :
    (c a : ℕ) (live : ℕ → Bool) (rows : List Participant)
    → live c ≡ false
    → any
        (λ i. i == c)
        (map
          (λ p. p.conversation_id)
          (select
            (λ p. p.account_id == a && (not (is_some p.hidden_at) && live p.conversation_id))
            rows))
      ≡ false
any-deleted c a live [] gone = refl
any-deleted c a live (p ∷ rows) gone = grind (arith, any-deleted c a live rows gone, gone)

undeleted-update :
    (now c : ℕ) (rows : List Conversation)
    → any
        (λ r. is_conversation c r && not (is_some r.deleted_at))
        (update (λ r. r.id == c) (λ r. record r { deleted_at = some now; updated_at = now }) rows)
      ≡ false
undeleted-update now c [] = refl
undeleted-update now c (r ∷ rows) = ground (arith, undeleted-update now c rows)

-- Whether an account is still shown a conversation, where another one, or itself, deleted it.
abbrev pub is_still_listed : ConversationType → (deleter account : ℕ) → (before : Bool) → Bool
is_still_listed direct a b before = not (b == a) && before
is_still_listed group a b before = false

others_listed :
    (now a b c : ℕ) (live : ℕ → Bool) (rows : List Participant)
    → any (is_shown_in c b live) (update (is_key c a) (hidden now) rows)
      ≡ (not (b == a) && any (is_shown_in c b live) rows)
others_listed now a b c live [] = ground arith
others_listed now a b c live (p ∷ rows) = grind (arith, others_listed now a b c live rows)

-- The account `a` deletes a conversation that has the type `t`, and the call succeeds: then a group is
-- in nobody's list, and a conversation of two is not in the list of `a` and is in the list of another
-- account `b` exactly when it was there before.
pub delete_conversation-listed :
    (now a b c : ℕ) (t : ConversationType) (db : Db)
    → (get_conversation_type c db).0 ≡ ok t
    → (delete_conversation now a c db).0 ≡ ok tt
    → any (λ i. i == c) (get_user_conversation_ids b (delete_conversation now a c db).1)
      ≡ is_still_listed t a b (any (λ i. i == c) (get_user_conversation_ids b db))
unfolding delete_conversation get_conversation_type disband_group ensure_group_conversation
    hide_direct_conversation get_user_conversation_ids
delete_conversation-listed now a b c direct db is done = ground (
  arith,
  is,
  done,
  any-listed c b (λ i. is_undeleted i db) (update (is_key c a) (hidden now) db.participants),
  any-listed c b (λ i. is_undeleted i db) db.participants,
  others_listed now a b c (λ i. is_undeleted i db) db.participants,
)
delete_conversation-listed now a b c group db is done = ground (
  arith,
  is,
  done,
  undeleted-update now c db.conversations,
  any-deleted c b (λ i. is_undeleted i (disband_group now a c db).1) db.participants,
)

-- A delete that fails changes nothing.
delete_conversation_error :
    (now a c : ℕ) (e : Error) (db : Db)
    → (delete_conversation now a c db).0 ≡ err e
    → (delete_conversation now a c db).1 ≡ db
unfolding delete_conversation get_conversation_type disband_group ensure_group_conversation
    hide_direct_conversation
delete_conversation_error now a c e db failed = ground (arith, failed)

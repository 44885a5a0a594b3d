-- ===== src/Conversations/MutingLaws.antt =====
-- Muting and hiding, and what undoes them.
use swift_chat_backend.Base.{
  ℕ, ◌≡◌, refl, Bool, true, false, not, ◌&&◌, none, some, List, [], ◌∷◌, map, arith, ◌==◌, ltb, ok,
  is_some, any, select, update, ◌∙◌, ap,
}
use swift_chat_backend.Base.Rows.{any-find, find-any, find-update, mapped}
use swift_chat_backend.Db.{Db, Participant}
use swift_chat_backend.Group.{is_key, in_conversation}
use swift_chat_backend.Conversations.{
  is_participant, MuteDuration, muted_until_of, with_mute, mute_conversation, unmute_conversation,
  is_conversation_muted, hidden, shown, hide_direct_conversation, reset_hidden_at, is_undeleted,
  get_user_conversation_ids,
}

-- A participant mutes a conversation: the call returns the end of the mute, and the conversation is
-- muted at exactly the times before it. Unmuting ends it at every time.
pub mute_conversation_lem :
    (now later a c : ℕ) (duration : MuteDuration) (db : Db)
    → is_participant a c db ≡ true
    → let (result, db') = mute_conversation now a c duration db in
      (result ≡ ok (muted_until_of now duration))
      × (is_conversation_muted later a c db' ≡ ltb later (muted_until_of now duration))
      × ((unmute_conversation a c db').0 ≡ ok tt)
      × (is_conversation_muted later a c (unmute_conversation a c db').1 ≡ false)
unfolding mute_conversation unmute_conversation is_conversation_muted
mute_conversation_lem now later a c duration db there =
    let f = with_mute (some (muted_until_of now duration)) in
    let found = any-find (is_key c a) db.participants there in
    let after = find-update (is_key c a) f db.participants (λ r h. h) in
    let still : any (is_key c a) (update (is_key c a) f db.participants) ≡ true =
      find-any (is_key c a) (update (is_key c a) f db.participants) (f found.0)
        (ground (arith, found.1, after)) in
    ground (
      arith,
      found.1,
      after,
      still,
      find-update (is_key c a) (with_mute none) (update (is_key c a) f db.participants) (λ r h. h),
    )

-- A row of the account in the conversation that is not hidden, where `live` tells which conversations
-- are not deleted.
abbrev pub is_shown_in : (c a : ℕ) (live : ℕ → Bool) → Participant → Bool
is_shown_in c a live p = is_key c a p && (not (is_some p.hidden_at) && live p.conversation_id)

module _ (c a : ℕ) (live : ℕ → Bool) where
  pub any-listed :
      (rows : List Participant)
      → any
          (λ i. i == c)
          (map
            (λ p. p.conversation_id)
            (select
              (λ p. p.account_id == a && (not (is_some p.hidden_at) && live p.conversation_id))
              rows))
        ≡ any (is_shown_in c a live) rows
  any-listed [] = refl
  any-listed (p ∷ rows) = ground (arith, any-listed rows)

  any-hidden :
      (now : ℕ) (rows : List Participant)
      → any (is_shown_in c a live) (update (is_key c a) (hidden now) rows) ≡ false
  any-hidden now [] = refl
  any-hidden now (p ∷ rows) = ground (arith, any-hidden now rows)

  any-shown :
      (rows : List Participant)
      → any
          (is_shown_in c a live)
          (update (λ p. in_conversation c p && is_some p.hidden_at) shown rows)
        ≡ (any (is_key c a) rows && live c)
  any-shown [] = refl
  any-shown (p ∷ rows) = ground (arith, any-shown rows)

-- A participant hides a conversation: it is not listed for that account. When a message comes into it
-- (`resetHiddenAt`), it is listed again, if it is not deleted.
pub hide_direct_conversation-reset :
    (now a c : ℕ) (db : Db)
    → is_participant a c db ≡ true
    → let (result, db') = hide_direct_conversation now a c db in
      let db'' = (reset_hidden_at c db').1 in
      (result ≡ ok tt)
      × (any (λ i. i == c) (get_user_conversation_ids a db') ≡ false)
      × (any (λ i. i == c) (get_user_conversation_ids a db'') ≡ is_undeleted c db)
unfolding hide_direct_conversation reset_hidden_at get_user_conversation_ids
hide_direct_conversation-reset now a c db there =
    let found = any-find (is_key c a) db.participants there in
    let rows = update (is_key c a) (hidden now) db.participants in
    let live = λ (i : ℕ). is_undeleted i db in
    let still : any (is_key c a) rows ≡ true = find-any (is_key c a) rows (hidden now found.0) (
      find-update (is_key c a) (hidden now) db.participants (λ r h. h)
      ∙ ap (mapped (hidden now)) found.1) in
    (
      rw there,
      rw there (any-listed c a live rows ∙ any-hidden c a live now db.participants),
      rw there (any-listed c a live _ ∙ any-shown c a live rows ∙ rw still),
    )

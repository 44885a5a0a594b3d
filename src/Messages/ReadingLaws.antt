-- ===== src/Messages/ReadingLaws.antt =====
-- What a page of a conversation shows.
use swift_chat_backend.Base.{
  ℕ, ◌-◌, ◌≤◌, ◌≡◌, refl, inl, inr, Bool, true, false, Option, none, some, List, [], ◌∷◌, arith,
  ltb, ok, select, take, length, All, Bool-cases,
}
use swift_chat_backend.Base.Rows.{mapped, length-append}
use swift_chat_backend.Base.Slices.{All-take, All-append, length-take}
use swift_chat_backend.Base.Sorting.{insert_desc, sort_desc}
use swift_chat_backend.Conversations.{is_participant}
use swift_chat_backend.Messages.{Message, ReplyTarget, World, is_deleted_by}
use swift_chat_backend.Messages.Reading.{
  is_before, before, is_withheld_in, mask_reply, mask, mask_deleted_replies, page,
  is_archive_cursor, last_id, fill, read_page, is_visible, find_by_conversation,
}

module _ (P : Message → Type 0) where
  All-insert :
      (m : Message) (rows : List Message)
      → P m
      → All P rows
      → All P (insert_desc (λ x. x.id) m rows)
  All-insert m [] h a = (h, tt)
  All-insert m (x ∷ rows) h a = ground (arith, h, a, All-insert m rows h a.1)

  pub All-sort : (rows : List Message) → All P rows → All P (sort_desc (λ x. x.id) rows)
  All-sort [] a = tt
  All-sort (m ∷ rows) a = All-insert m (sort_desc (λ x. x.id) rows) a.0 (All-sort rows a.1)

module _ (q : Message → Bool) where
  -- A message that the query admits, and only one with a smaller id than the cursor.
  abbrev Passes : Option ℕ → Message → Type 0
  Passes cursor m = (q m ≡ true) × (is_before cursor m ≡ true)

  All-selected :
      (cursor : Option ℕ) (rows : List Message)
      → All (Passes cursor) (select (before q cursor) rows)
  All-selected cursor [] = tt
  All-selected cursor (m ∷ rows) = ground (arith, All-selected cursor rows)

  page-Passes :
      (cursor : Option ℕ) (limit : ℕ) (rows : List Message)
      → All (Passes cursor) (page (before q cursor) limit rows)
  page-Passes cursor limit rows =
      All-take (Passes cursor) limit (sort_desc (λ x. x.id) (select (before q cursor) rows))
        (All-sort (Passes cursor) (select (before q cursor) rows) (All-selected cursor rows))

-- What comes after the last result comes after the cursor.
before-last_id :
    (q : Message → Bool) (cursor from : Option ℕ) (rows : List Message) (m : Message)
    → (is_before from m ≡ true → is_before cursor m ≡ true)
    → ((x : Message) → is_before from x ≡ true → is_before cursor x ≡ true)
    → All (Passes q cursor) rows
    → is_before (last_id from rows) m ≡ true
    → is_before cursor m ≡ true
before-last_id q cursor from [] m h hs a e = h e
before-last_id q none from (x ∷ rows) m h hs a e = refl
before-last_id q (some c) from (x ∷ rows) m h hs a e =
    before-last_id q (some c) (some x.id) rows m (λ l. ground (arith, l, a.0.1))
      (λ y l. ground (arith, l, a.0.1)) a.1 e

module _ (q : Message → Bool) (cursor : Option ℕ) (limit : ℕ) where
  fill-Passes :
      (archive results : List Message)
      → All (Passes q cursor) results
      → All (Passes q cursor) (fill q cursor limit archive results)
  fill-Passes archive results a = elim (Bool-cases (ltb (length results) limit)) [
    | inr full ↦ rw full a
    | inl short ↦ rw short (
        All-append (Passes q cursor) results rest a (
          All-weaken rest
            (page-Passes q (last_id cursor results) (limit - length results) archive)))
  ]
    where
      rest : List Message
      rest = page (before q (last_id cursor results)) (limit - length results) archive

      All-weaken :
          (rows : List Message)
          → All (Passes q (last_id cursor results)) rows
          → All (Passes q cursor) rows
      All-weaken [] b = tt
      All-weaken (m ∷ rows) b = (
        (b.0.0, before-last_id q cursor cursor results m (λ l. l) (λ x l. l) a b.0.1),
        All-weaken rows b.1,
      )

  length-fill :
      (archive results : List Message)
      → length results ≤ limit
      → length (fill q cursor limit archive results) ≤ limit
  length-fill archive results le = elim (Bool-cases (ltb (length results) limit)) [
    | inr full ↦ rw full le
    | inl short ↦
        let rest = sort_desc (λ x. x.id) (select (before q (last_id cursor results)) archive) in
        rw short (
          omega (
            arith,
            length-append results (take (limit - length results) rest),
            length-take (limit - length results) rest,
          ))
  ]

module _ (timestamp : ℕ → ℕ) (now days : ℕ) (q : Message → Bool) (cursor : Option ℕ) (limit : ℕ)
    (w : World) where
  read_page-Passes : All (Passes q cursor) (read_page timestamp now days q cursor limit w)
  read_page-Passes = elim (Bool-cases (is_archive_cursor timestamp now days cursor)) [
    | inl e ↦ rw e (page-Passes q cursor limit w.archive)
    | inr e ↦ rw e (
        fill-Passes q cursor limit w.archive (page (before q cursor) limit w.messages)
          (page-Passes q cursor limit w.messages))
  ]

  length-read_page : length (read_page timestamp now days q cursor limit w) ≤ limit
  length-read_page = elim (Bool-cases (is_archive_cursor timestamp now days cursor)) [
    | inl e ↦ rw e (length-take limit (sort_desc (λ x. x.id) (select (before q cursor) w.archive)))
    | inr e ↦ rw e (
        length-fill q cursor limit w.archive (page (before q cursor) limit w.messages)
          (length-take limit (sort_desc (λ x. x.id) (select (before q cursor) w.messages))))
  ]

-- The snapshot of a reply says nothing that the account must not read.
abbrev pub IsMasked : (account : ℕ) → World → Option ReplyTarget → Type 0
IsMasked a w none = Unit
IsMasked a w (some r) = is_withheld_in a w r ≡ true → r.content ≡ ""

-- A message that an account sees in a page of a conversation.
pub record IsShown (c a : ℕ) (cursor : Option ℕ) (w : World) (m : Message) : Type 0 where
  pub in_conversation : m.conversation_id ≡ c
  pub kept : is_deleted_by a m ≡ false
  pub after_cursor : is_before cursor m ≡ true
  pub unsent_blank : m.is_unsent ≡ true → m.content ≡ ""
  pub reply_masked : IsMasked a w m.reply_to

mask-IsShown :
    (c a : ℕ) (cursor : Option ℕ) (w : World) (m : Message)
    → Passes (is_visible c a) cursor m
    → IsShown c a cursor w (mask a w m)
mask-IsShown c a cursor w m (v, b) = record {
  in_conversation = ground (arith, v);
  kept = ground (arith, v);
  after_cursor = before_mask cursor b;
  unsent_blank = λ u. rw u;
  reply_masked = masked m.reply_to;
}
  where
    before_mask : (o : Option ℕ) → is_before o m ≡ true → is_before o (mask a w m) ≡ true
    before_mask none l = refl
    before_mask (some o) l = l

    masked : (r : Option ReplyTarget) → IsMasked a w (mapped (mask_reply a w) r)
    masked none = tt
    masked (some r) = elim (Bool-cases (is_withheld_in a w r)) [
      | inl e ↦ rw e (λ h. refl)
      | inr e ↦ rw e (λ h. ground (arith, e, h))
    ]

All-mask :
    (c a : ℕ) (cursor : Option ℕ) (w : World) (rows : List Message)
    → All (Passes (is_visible c a) cursor) rows
    → All (IsShown c a cursor w) (mask_deleted_replies a w rows)
All-mask c a cursor w [] p = tt
All-mask c a cursor w (m ∷ rows) p =
    (mask-IsShown c a cursor w m p.0, All-mask c a cursor w rows p.1)

length-mask :
    (a : ℕ) (w : World) (rows : List Message) → length (mask_deleted_replies a w rows) ≡ length rows
length-mask a w [] = refl
length-mask a w (m ∷ rows) = omega (arith, length-mask a w rows)

module _ (timestamp : ℕ → ℕ) (now days c a : ℕ) (cursor : Option ℕ) (limit : ℕ) (w : World) where
  -- `findByConversation` answers every member of the conversation, with at most `limit` messages, each of
  -- the conversation, not deleted by the account and with a smaller id than the cursor; one that is
  -- unsent has no content, and a reply has no snapshot of a message, in either collection, that is
  -- unsent or that the account has deleted.
  pub find_by_conversation-IsShown :
      is_participant a c w.db ≡ true
      → (rows : List Message) × ((find_by_conversation timestamp now days c a cursor limit w
            ≡ (ok rows, w))
          × (All (IsShown c a cursor w) rows × (length rows ≤ limit)))
  unfolding find_by_conversation
  find_by_conversation-IsShown there =
      let results = read_page timestamp now days (is_visible c a) cursor limit w in
      (
        mask_deleted_replies a w results,
        (
          rw there,
          (
            All-mask c a cursor w results
                (read_page-Passes timestamp now days (is_visible c a) cursor limit w),
            rw (length-mask a w results)
                (length-read_page timestamp now days (is_visible c a) cursor limit w),
          ),
        ),
      )

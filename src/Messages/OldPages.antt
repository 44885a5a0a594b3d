-- ===== src/Messages/OldPages.antt =====
-- Pages with a cursor from before the archiving limit.
use swift_chat_backend.Base.{
  ℕ, ◌≡◌, refl, inl, inr, Bool, true, false, some, List, [], ◌∷◌, arith, ok, any, map, ◌∙◌, sym,
  select, All, Bool-cases,
}
use swift_chat_backend.Base.Slices.{All-take}
use swift_chat_backend.Base.Sorting.{sort_desc}
use swift_chat_backend.Conversations.{is_participant}
use swift_chat_backend.Messages.{Message, World, has_id}
use swift_chat_backend.Messages.Reading.{
  before, mask_deleted_replies, page, is_archive_cursor, is_visible, find_by_conversation,
}
use swift_chat_backend.Messages.ReadingLaws.{All-sort}

module _ (id : ℕ) where
  abbrev IsOther : Message → Type 0
  IsOther m = has_id id m ≡ false

  All-others :
      (q : Message → Bool) (rows : List Message)
      → any (has_id id) rows ≡ false
      → All IsOther (select q rows)
  All-others q [] e = tt
  All-others q (m ∷ rows) e = elim (Bool-cases (q m)) [
    | inl h ↦ ground (arith, h, e, All-others q rows)
    | inr h ↦ ground (arith, h, e, All-others q rows)
  ]

  any-masked :
      (a : ℕ) (w : World) (rows : List Message)
      → All IsOther rows
      → any (has_id id) (mask_deleted_replies a w rows) ≡ false
  any-masked a w [] p = refl
  any-masked a w (m ∷ rows) p = ground (arith, p, any-masked a w rows p.1)

  any-page :
      (a limit : ℕ) (w : World) (q : Message → Bool) (rows : List Message)
      → any (has_id id) rows ≡ false
      → any (has_id id) (mask_deleted_replies a w (page q limit rows)) ≡ false
  any-page a limit w q rows e = any-masked a w (page q limit rows) (
      All-take IsOther limit (sort_desc (λ m. m.id) (select q rows))
        (All-sort IsOther (select q rows) (All-others q rows e)))

ids-mask :
    (a : ℕ) (w : World) (rows : List Message)
    → map (λ m. m.id) (mask_deleted_replies a w rows) ≡ map (λ m. m.id) rows
ids-mask a w [] = refl
ids-mask a w (m ∷ rows) = cc (ids-mask a w rows)

-- With a cursor from before the archiving limit the recent collection is not read, whatever it holds:
-- a member gets the same messages, by their ids, as with any other recent collection, and a message
-- that the archive does not have is on no such page, even if it is older than the cursor and the page
-- has room for it.
pub find_by_conversation-archive_only :
    (timestamp : ℕ → ℕ) (now days c a cursor limit id : ℕ) (recent : List Message) (w : World)
    → is_participant a c w.db ≡ true
    → is_archive_cursor timestamp now days (some cursor) ≡ true
    → any (has_id id) w.archive ≡ false
    → let w' = record w { messages = recent } in
      (rows : List Message) × (rows' : List Message) × (find_by_conversation timestamp now days c a
          (some cursor)
          limit
          w
        ≡ (ok rows, w))
      × (find_by_conversation timestamp now days c a (some cursor) limit w' ≡ (ok rows', w'))
      × (map (λ m. m.id) rows ≡ map (λ m. m.id) rows')
      × (any (has_id id) rows ≡ false)
unfolding find_by_conversation
find_by_conversation-archive_only timestamp now days c a cursor limit id recent w there old absent =
    let results = page (before (is_visible c a) (some cursor)) limit w.archive in
    let w' = record w { messages = recent } in
    (
      mask_deleted_replies a w results,
      mask_deleted_replies a w' results,
      ground (arith, there, old),
      ground (arith, there, old),
      ids-mask a w results ∙ sym (ids-mask a w' results),
      any-page id a limit w (before (is_visible c a) (some cursor)) w.archive absent,
    )

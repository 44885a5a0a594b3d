-- ===== src/Conversations/PagingLaws.antt =====
-- Following the cursor of `getUserConversations` (src/conversations/conversations.service.ts).
use mathlib.Core.List.{append-nil}
use swift_chat_backend.Base.{
  ℕ, zero, suc, ◌<◌, ◌≡◌, refl, sym, ap, ◌∙◌, inl, inr, Bool, true, false, Option, none, some, List,
  [], ◌∷◌, ◌++◌, map, arith, Result, ok, err, ltb, select, take, drop, length, Bool-cases,
}
use swift_chat_backend.Base.Descending.{
  last, last-All, sort_desc-IsDescending, select-IsDescending, sort_desc-select, select-after,
}
use swift_chat_backend.Base.Keys.{HasKey}
use swift_chat_backend.Base.Pages.{
  select-both, select-within, select-holds, take-short, length-take_more, take-take_more, last-take,
  length-drop_lt, select-everything,
}
use swift_chat_backend.Base.Slices.{map-append, take-drop, All-take}
use swift_chat_backend.Base.Sorting.{sort_desc}
use swift_chat_backend.Db.{Db, Conversation}
use swift_chat_backend.Conversations.Listing.{
  get_online_user_ids, get_unread_counts, Query, raw, is_shown, is_before_cursor,
  fetch_conversation_page,
}
use swift_chat_backend.Conversations.Pages.{
  page_answer, ConversationPage, list_items, items_of, get_user_conversations,
}
use swift_chat_backend.Messages.Reading.{get_last_messages_for_conversations}
use swift_chat_backend.Messages.{World}

earlier :
    (cursor : Option ℕ) (r x : Conversation)
    → is_before_cursor cursor r ≡ true
    → is_before_cursor (some r.updated_at) x ≡ true
    → is_before_cursor cursor x ≡ true
earlier none r x e h = refl
earlier (some t) r x e h = ground (arith, e, h)

module _ (a : ℕ) (q : Option Query) (db : Db) where
  abbrev updated : Conversation → ℕ
  updated c = c.updated_at

  -- Every conversation that the account is shown, the last changed one first.
  abbrev pub shown : List Conversation
  shown = sort_desc (λ c. c.updated_at) (select (is_shown a q db) db.conversations)

  abbrev rest : (cursor : Option ℕ) → List Conversation
  rest cursor = select (is_before_cursor cursor) shown

  abbrev pub HaveTimes : Type 0
  HaveTimes = HasKey updated (select (is_shown a q db) db.conversations)

  passes :
      (n : ℕ) (cursor : Option ℕ) (r : Conversation)
      → last (take (suc n) (rest cursor)) ≡ some r
      → is_before_cursor cursor r ≡ true
  passes n cursor r e =
      last-All (λ c. is_before_cursor cursor c ≡ true) (take (suc n) (rest cursor)) r e
        (All-take (λ c. is_before_cursor cursor c ≡ true) (suc n) (rest cursor)
          (select-holds (is_before_cursor cursor) shown))

  next-rest :
      (n : ℕ) (cursor : Option ℕ) (r : Conversation)
      → HaveTimes
      → last (take (suc n) (rest cursor)) ≡ some r
      → rest (some r.updated_at) ≡ drop (suc n) (rest cursor)
  next-rest n cursor r u e =
      sym (
        select-within (is_before_cursor cursor) (is_before_cursor (some r.updated_at)) shown
          (λ x h. earlier cursor r x (passes n cursor r e) h))
      ∙ select-after updated n (rest cursor) r
          (select-IsDescending updated (is_before_cursor cursor) shown
            (sort_desc-IsDescending updated (select (is_shown a q db) db.conversations) u))
          e

-- The ids of a page, and what follows it.
abbrev pub visit : (Option ℕ → List ℕ) → Result ConversationPage → List ℕ
visit next (err e) = []
visit next (ok page) =
    map (λ i. i.id) page.items ++ elim page.next_cursor [ none ↦ [] | some t ↦ next (some t) ]

-- Whom a client sees that follows the cursors from one on, as long as no call comes in between: the
-- ids of all pages, joined. It stops at a page without a cursor, and here where the fuel runs out.
module _ (is_online : ℕ → Bool) (now a limit : ℕ) (q : Option Query) (w : World) where
  abbrev pub follow : (fuel : ℕ) → (cursor : Option ℕ) → List ℕ
  follow zero cursor = []
  follow (suc fuel) cursor =
      visit (follow fuel) (get_user_conversations is_online now a limit cursor q w).0

  fetch-rest :
      (cursor : Option ℕ)
      → HaveTimes a q w.db
      → fetch_conversation_page a limit cursor q w.db ≡ take (suc limit) (rest a q w.db cursor)
  unfolding fetch_conversation_page
  fetch-rest cursor u =
      ap (λ rows. take (suc limit) (sort_desc (λ c. c.updated_at) rows))
        (select-both (is_shown a q w.db) (is_before_cursor cursor) w.db.conversations)
      ∙ ap (take (suc limit)) (
          sort_desc-select (λ c. c.updated_at) (is_before_cursor cursor)
            (select (is_shown a q w.db) w.db.conversations) u)

  item-ids :
      (online : List ℕ) (unread : List (ℕ × ℕ)) (rows : List Conversation)
      → map
          (λ i. i.id)
          (list_items now a online unread w.db
            (map (raw a w.db) rows)
            (get_last_messages_for_conversations a (map (λ c. c.id) rows) w))
        ≡ map (λ c. c.id) rows
  item-ids online unread [] = refl
  item-ids online unread (c ∷ rows) = ap (λ r. c.id ∷ r) (item-ids online unread rows)

  items-ids :
      (rows : List Conversation)
      → map (λ i. i.id) (items_of is_online now a (take limit rows) w)
        ≡ map (λ c. c.id) (take limit rows)
  items-ids rows =
      let page = map (raw a w.db) (take limit rows) in
      item-ids (get_online_user_ids is_online a page) (get_unread_counts a page w) (take limit rows)

  -- The step of a client, on the rows that the query gives.
  follow-answer :
      (cursor : Option ℕ) (fuel : ℕ)
      → HaveTimes a q w.db
      → follow (suc fuel) cursor
        ≡ visit
            (follow fuel)
            (page_answer is_online now a limit (take (suc limit) (rest a q w.db cursor)) w).0
  unfolding get_user_conversations
  follow-answer cursor fuel u =
      ap (λ rows. visit (follow fuel) (page_answer is_online now a limit rows w).0)
        (fetch-rest cursor u)

  -- A page that is the last one, and one that another one follows.
  last-page :
      (next : Option ℕ → List ℕ) (rows : List Conversation)
      → ltb limit (length rows) ≡ false
      → visit next (page_answer is_online now a limit rows w).0 ≡ map (λ c. c.id) (take limit rows)
  last-page next rows e = rw e (append-nil _ ∙ items-ids rows)

  full-page :
      (next : Option ℕ → List ℕ) (rows : List Conversation) (r : Conversation)
      → ltb limit (length rows) ≡ true
      → last (take limit rows) ≡ some r
      → visit next (page_answer is_online now a limit rows w).0
        ≡ map (λ c. c.id) (take limit rows) ++ next (some r.updated_at)
  full-page next rows r e f =
      rw (e, f) (ap (λ ids. ids ++ next (some r.updated_at)) (items-ids rows))

follow-rest :
    (is_online : ℕ → Bool) (now a n : ℕ) (q : Option Query) (w : World) (fuel : ℕ)
    (cursor : Option ℕ)
    → HaveTimes a q w.db
    → length (rest a q w.db cursor) < fuel
    → follow is_online now a (suc n) q w fuel cursor ≡ map (λ c. c.id) (rest a q w.db cursor)
follow-rest is_online now a n q w zero cursor u lt = absurd (omega (arith, lt))
follow-rest is_online now a n q w (suc fuel) cursor u lt =
    let rows = rest a q w.db cursor in
    let next = follow is_online now a (suc n) q w fuel in
    follow-answer is_online now a (suc n) q w cursor fuel u
    ∙ elim (Bool-cases (ltb (suc n) (length rows))) [
      | inr e ↦
          last-page is_online now a (suc n) q w next (take (suc (suc n)) rows)
            (length-take_more (suc n) rows ∙ e)
          ∙ ap (map (λ c. c.id))
              (take-take_more (suc n) rows ∙ take-short (suc n) rows (ground (arith, e)))
      | inl e ↦
          let (r, f) = last-take n rows (ground (arith, e)) in
          let left = next-rest a q w.db n cursor r u f in
          full-page is_online now a (suc n) q w next (take (suc (suc n)) rows) r
            (length-take_more (suc n) rows ∙ e) (ap last (take-take_more (suc n) rows) ∙ f)
          ∙ ap (λ page. map (λ c. c.id) page ++ next (some r.updated_at))
              (take-take_more (suc n) rows)
          ∙ ap (λ ids. map (λ c. c.id) (take (suc n) rows) ++ ids)
              (follow-rest is_online now a n q w fuel (some r.updated_at) u
                  (ground (arith, lt, e, ap length left, length-drop_lt n rows (ground (arith, e))))
                ∙ ap (map (λ c. c.id)) left)
          ∙ map-append (λ c. c.id) (take (suc n) rows) (drop (suc n) rows)
          ∙ ap (map (λ c. c.id)) (take-drop (suc n) rows)
    ]

-- Paging is complete: where no two conversations that the account is shown changed at the same time, a
-- client that follows the cursors from the first page on sees every one of them exactly once, the last
-- changed one first, and the pages end. Conditions: a limit of at least one, and no call in between; the
-- fuel is more than the number of conversations.
pub follow-all :
    (is_online : ℕ → Bool) (now a n : ℕ) (q : Option Query) (w : World) (fuel : ℕ)
    → HaveTimes a q w.db
    → length (shown a q w.db) < fuel
    → follow is_online now a (suc n) q w fuel none ≡ map (λ c. c.id) (shown a q w.db)
follow-all is_online now a n q w fuel u lt =
    let same : rest a q w.db none ≡ shown a q w.db = select-everything (shown a q w.db) in
    follow-rest is_online now a n q w fuel none u (ground (arith, lt, ap length same))
    ∙ ap (map (λ c. c.id)) same

-- ===== src/Conversations/Ownership.antt =====
-- The list of conversations holds only those that the account is in
-- (src/conversations/conversations.service.ts).
use swift_chat_backend.Base.{
  ℕ, suc, ◌≡◌, refl, inl, inr, Bool, true, not, ◌&&◌, Option, none, List, [], ◌∷◌, map, arith,
  Result, ok, err, ltb, select, take, length, is_some, All, Bool-cases, Option-cases,
}
use swift_chat_backend.Base.Descending.{last}
use swift_chat_backend.Base.Pages.{select-holds}
use swift_chat_backend.Base.Slices.{All-take}
use swift_chat_backend.Base.Sorting.{insert_desc, sort_desc}
use swift_chat_backend.Base.Rows.{any_mono}
use swift_chat_backend.Db.{Db, Conversation}
use swift_chat_backend.Group.{is_key}
use swift_chat_backend.Conversations.{is_participant}
use swift_chat_backend.Conversations.Listing.{
  ListItem, raw, is_shown, is_before_cursor, fetch_conversation_page, get_online_user_ids,
  get_unread_counts,
}
use swift_chat_backend.Conversations.Pages.{
  ConversationPage, list_items, page_answer, get_user_conversations,
}
use swift_chat_backend.Messages.{World}
use swift_chat_backend.Messages.Reading.{get_last_messages_for_conversations}

-- The conversations that an account is shown are those that it is in.
abbrev pub IsOwn : (account : ℕ) → Db → ℕ → Type 0
IsOwn a db c = is_participant a c db ≡ true

All-insert_desc :
    (P : Conversation → Type 0) (key : Conversation → ℕ) (c : Conversation)
    (rows : List Conversation)
    → P c
    → All P rows
    → All P (insert_desc key c rows)
All-insert_desc P key c [] p h = (p, tt)
All-insert_desc P key c (x ∷ rows) p h = elim (Bool-cases (ltb (key c) (key x))) [
  | inl e ↦ rw e (h.0, All-insert_desc P key c rows p h.1)
  | inr e ↦ rw e (p, h)
]

All-sort_desc :
    (P : Conversation → Type 0) (key : Conversation → ℕ) (rows : List Conversation)
    → All P rows
    → All P (sort_desc key rows)
All-sort_desc P key [] h = tt
All-sort_desc P key (c ∷ rows) h =
    All-insert_desc P key c (sort_desc key rows) h.0 (All-sort_desc P key rows h.1)

shown-IsOwn :
    (a : ℕ) (cursor : Option ℕ) (db : Db) (rows : List Conversation)
    → All (λ c. (is_shown a none db c && is_before_cursor cursor c) ≡ true) rows
    → All (λ c. IsOwn a db c.id) rows
shown-IsOwn a cursor db [] h = tt
shown-IsOwn a cursor db (c ∷ rows) h = (
  any_mono (λ p. is_key c.id a p && not (is_some p.hidden_at)) (is_key c.id a) db.participants
      (λ r e. ground (arith, e)) (ground (arith, h.0)),
  shown-IsOwn a cursor db rows h.1,
)

fetch-IsOwn :
    (a limit : ℕ) (cursor : Option ℕ) (db : Db)
    → All (λ c. IsOwn a db c.id) (fetch_conversation_page a limit cursor none db)
unfolding fetch_conversation_page
fetch-IsOwn a limit cursor db =
    let test : Conversation → Bool = λ c. is_shown a none db c && is_before_cursor cursor c in
    All-take (λ c. IsOwn a db c.id) (suc limit)
      (sort_desc (λ c. c.updated_at) (select test db.conversations))
      (All-sort_desc (λ c. IsOwn a db c.id) (λ c. c.updated_at) (select test db.conversations)
        (shown-IsOwn a cursor db (select test db.conversations)
          (select-holds test db.conversations)))

items-IsOwn :
    (now a : ℕ) (online : List ℕ) (unread : List (ℕ × ℕ)) (w : World) (rows : List Conversation)
    → All (λ c. IsOwn a w.db c.id) rows
    → All
        (λ i. IsOwn a w.db i.id)
        (list_items now a online unread w.db
          (map (raw a w.db) rows)
          (get_last_messages_for_conversations a (map (λ c. c.id) rows) w))
items-IsOwn now a online unread w [] h = tt
items-IsOwn now a online unread w (c ∷ rows) h = (h.0, items-IsOwn now a online unread w rows h.1)

abbrev pub items_in : Result ConversationPage → List ListItem
items_in (ok page) = page.items
items_in (err e) = []

abbrev pub AreOwn : (account : ℕ) → Db → Result ConversationPage → Type 0
AreOwn a db r = All (λ i. IsOwn a db i.id) (items_in r)

answer-AreOwn :
    (is_online : ℕ → Bool) (now a limit : ℕ) (rows : List Conversation) (w : World)
    → All (λ c. IsOwn a w.db c.id) rows
    → AreOwn a w.db (page_answer is_online now a limit rows w).0
      × ((page_answer is_online now a limit rows w).1 ≡ w)
answer-AreOwn is_online now a limit rows w h =
    let page = map (raw a w.db) (take limit rows) in
    let own =
      items-IsOwn now a (get_online_user_ids is_online a page) (get_unread_counts a page w) w
        (take limit rows) (All-take (λ c. IsOwn a w.db c.id) limit rows h) in
    elim (Bool-cases (ltb limit (length rows))) [
      | inl e ↦ elim (Option-cases (last (take limit rows))) [
        | inl f ↦ rw (e, f) (tt, refl)
        | inr (c, f) ↦ rw (e, f) (own, refl)
      ]
      | inr e ↦ rw e (own, refl)
    ]

-- What `getUserConversations` answers, and that it only reads.
pub get_user_conversations-AreOwn :
    (is_online : ℕ → Bool) (now a limit : ℕ) (cursor : Option ℕ) (w : World)
    → let r = get_user_conversations is_online now a limit cursor none w in
      AreOwn a w.db r.0 × (r.1 ≡ w)
unfolding get_user_conversations
get_user_conversations-AreOwn is_online now a limit cursor w =
    answer-AreOwn is_online now a limit (fetch_conversation_page a limit cursor none w.db) w
      (fetch-IsOwn a limit cursor w.db)

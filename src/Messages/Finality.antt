-- ===== src/Messages/Finality.antt =====
-- A message that is unsent stays as it is.
use swift_chat_backend.Base.{
  ℕ, ◌+◌, ◌-◌, ◌≤◌, ◌≡◌, refl, inl, inr, false, Option, none, some, List, [], ◌∷◌, String, arith,
  ltb, ok, any, find, update, count, Option-cases, Bool-cases,
}
use swift_chat_backend.Base.Rows.{update_first, any-update_same, any-none}
use swift_chat_backend.Base.Firsts.{update_first-none}
use swift_chat_backend.Messages.{
  Message, World, IdText, has_id, is_sent_by, is_editable, replies_to, without_snapshot, unsent,
  unsend_message, edit_message, edited, day_ms, unsend_found,
}

module _ (id : ℕ) where
  uneditable_absent :
      (sender : ℕ) (rows : List Message)
      → any (has_id id) rows ≡ false
      → any (is_editable id sender) rows ≡ false
  uneditable_absent sender [] e = refl
  uneditable_absent sender (m ∷ rows) e = ground (arith, uneditable_absent sender rows)

  absent : (rows : List Message) → count (has_id id) rows ≡ 0 → any (has_id id) rows ≡ false
  absent [] e = refl
  absent (m ∷ rows) e = ground (arith, absent rows)

  present :
      (rows : List Message) (m : Message)
      → find (has_id id) rows ≡ some m
      → 1 ≤ count (has_id id) rows
  present [] m e = cc
  present (x ∷ rows) m e = ground (arith, present rows m)

  -- One message of a collection is marked, so none that can be edited has its id.
  uneditable_marked :
      (now sender : ℕ) (rows : List Message)
      → count (has_id id) rows ≤ 1
      → any (is_editable id sender) (update_first (has_id id) (unsent now) rows) ≡ false
  uneditable_marked now sender [] le = refl
  uneditable_marked now sender (m ∷ rows) le = elim (Bool-cases (has_id id m)) [
    | inl e ↦ ground (arith, e, uneditable_absent sender rows, absent rows)
    | inr e ↦ ground (arith, e, uneditable_marked now sender rows)
  ]

any-without_snapshot :
    (now id sender : ℕ) (raw : IdText) (rows : List Message)
    → any (is_editable id sender) (update (replies_to raw) (without_snapshot now) rows)
      ≡ any (is_editable id sender) rows
any-without_snapshot now id sender raw rows =
    any-update_same (is_editable id sender) (replies_to raw) (without_snapshot now) rows
      (λ r h. refl)

-- The message `id` can be edited in neither collection.
abbrev IsFinal : (id sender : ℕ) → World → Type 0
IsFinal id sender w =
    (any (is_editable id sender) w.messages ≡ false)
    × (any (is_editable id sender) w.archive ≡ false)

unsend_found-IsFinal :
    (now sender : ℕ) (raw : IdText) (o : Option Message) (w : World) (m : Message)
    → count (has_id raw.id) w.messages + count (has_id raw.id) w.archive ≤ 1
    → (unsend_found now raw o w).0 ≡ ok (some m)
    → IsFinal raw.id sender (unsend_found now raw o w).1
unsend_found-IsFinal now sender raw none w m le done = cc
unsend_found-IsFinal now sender raw (some x) w m le done =
    let hot_rows = update_first (has_id raw.id) (unsent now) w.messages in
    let old_rows = update_first (has_id raw.id) (unsent now) w.archive in
    elim (Bool-cases (ltb day_ms (now - x.created_at))) [
      | inl late ↦ ground (arith, late)
      | inr early ↦ elim (Option-cases (find (has_id raw.id) w.messages)) [
        | inl e ↦ elim (Option-cases (find (has_id raw.id) w.archive)) [
          | inl e' ↦ ground (arith, early, e, e')
          | inr (r, e') ↦ ground (
            arith,
            early,
            e,
            e',
            any-without_snapshot now raw.id sender raw hot_rows,
            any-without_snapshot now raw.id sender raw old_rows,
            uneditable_marked raw.id now sender w.messages,
            uneditable_marked raw.id now sender w.archive,
          )
        ]
        | inr (r, e) ↦ ground (
          arith,
          early,
          e,
          present raw.id w.messages r e,
          any-without_snapshot now raw.id sender raw hot_rows,
          any-without_snapshot now raw.id sender raw w.archive,
          uneditable_marked raw.id now sender w.messages,
          uneditable_absent raw.id sender w.archive,
          absent raw.id w.archive,
        )
      ]
    ]

edit_message-none :
    (now id sender : ℕ) (content : String) (w : World)
    → IsFinal id sender w
    → edit_message now id sender content w ≡ (ok none, w)
unfolding edit_message
edit_message-none now id sender content w (h, a) = ground (
  arith,
  any-none (is_editable id sender) w.messages h,
  any-none (is_editable id sender) w.archive a,
  update_first-none (is_editable id sender) (edited now content) w.messages h,
  update_first-none (is_editable id sender) (edited now content) w.archive a,
)

unsend_message-IsFinal :
    (now sender editor : ℕ) (raw : IdText) (w : World) (m : Message)
    → count (has_id raw.id) w.messages + count (has_id raw.id) w.archive ≤ 1
    → (unsend_message now raw sender w).0 ≡ ok (some m)
    → IsFinal raw.id editor (unsend_message now raw sender w).1
unfolding unsend_message
unsend_message-IsFinal now sender editor raw w m le done =
    elim (Option-cases (find (is_sent_by raw.id sender) w.messages)) [
      | inl e ↦ ground (
        arith,
        e,
        unsend_found-IsFinal now editor raw (find (is_sent_by raw.id sender) w.archive) w m,
      )
      | inr (r, e) ↦ ground (arith, e, unsend_found-IsFinal now editor raw (some r) w m)
    ]

-- Of a message that is in the two collections once: when its sender has unsent it, editing it answers
-- `null` at any later time and writes nothing.
pub unsend_message-edit :
    (now sender later editor : ℕ) (raw : IdText) (content : String) (w : World) (m : Message)
    → count (has_id raw.id) w.messages + count (has_id raw.id) w.archive ≤ 1
    → (unsend_message now raw sender w).0 ≡ ok (some m)
    → let w' = (unsend_message now raw sender w).1 in
      edit_message later raw.id editor content w' ≡ (ok none, w')
unsend_message-edit now sender later editor raw content w m le done =
    edit_message-none later raw.id editor content (unsend_message now raw sender w).1
      (unsend_message-IsFinal now sender editor raw w m le done)

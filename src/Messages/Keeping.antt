-- ===== src/Messages/Keeping.antt =====
-- `handleArchiving` loses no message.
use swift_chat_backend.Base.{
  ℕ, zero, suc, ◌+◌, ◌≡◌, refl, sym, ap, ◌∙◌, inl, inr, Bool, true, false, ◌||◌, some, List, [],
  ◌∷◌, ◌++◌, String, arith, ◌==◌, any, find, select, remove, length, All, Bool-cases, ==_iff,
}
use swift_chat_backend.Base.Rows.{any-append, any-find, find-All, find_holds, find-any_other}
use swift_chat_backend.Base.Slices.{All-take}
use swift_chat_backend.Messages.{Message, World, has_id}
use swift_chat_backend.Messages.Archiving.{
  is_old, is_among, insert_ordered, move, batch, batch_size, archive_from, cutoff_of,
  handle_archiving,
}
use swift_chat_backend.Messages.ArchivingLaws.{after_batch-cases}

-- The query by its `_id` finds each message: MongoDB keeps the `_id` of a collection unique.
abbrev pub IsKeyed : List Message → Type 0
IsKeyed rows = All (λ m. find (has_id m.id) rows ≡ some m) rows

module _ (P : Message → Type 0) where
  All-select : (q : Message → Bool) (rows : List Message) → All P rows → All P (select q rows)
  All-select q [] a = tt
  All-select q (m ∷ rows) a = ground (arith, All-select q rows a.1)

  -- What is left passes no test of the removal.
  All-left :
      (q : Message → Bool) (rows : List Message)
      → All P rows
      → All (λ m. P m × (q m ≡ false)) (remove q rows)
  All-left q [] a = tt
  All-left q (m ∷ rows) a = elim (Bool-cases (q m)) [
    | inl e ↦ rw e (All-left q rows a.1)
    | inr e ↦ rw e ((a.0, e), All-left q rows a.1)
  ]

All-map :
    (P Q : Message → Type 0) (rows : List Message)
    → ((m : Message) → P m → Q m)
    → All P rows
    → All Q rows
All-map P Q [] h a = tt
All-map P Q (m ∷ rows) h a = (h m a.0, All-map P Q rows h a.1)

find-remove_other :
    (p q : Message → Bool) (rows : List Message)
    → ((m : Message) → p m ≡ true → q m ≡ false)
    → find p (remove q rows) ≡ find p rows
find-remove_other p q [] h = refl
find-remove_other p q (m ∷ rows) h = ground (arith, h m, find-remove_other p q rows h)

any-left :
    (p q : Message → Bool) (rows : List Message) (m : Message)
    → find p rows ≡ some m
    → q m ≡ false
    → any p (remove q rows) ≡ true
any-left p q [] m e h = cc
any-left p q (x ∷ rows) m e h = ground (arith, any-left p q rows m)

is_among_id :
    (rows : List Message) (x m : Message)
    → (x.id == m.id) ≡ true
    → is_among rows x ≡ is_among rows m
is_among_id rows x m e = ap (λ i. any (has_id i) rows) ((==_iff x.id m.id).0 e)

IsKeyed-remove :
    (some_rows rows : List Message) → IsKeyed rows → IsKeyed (remove (is_among some_rows) rows)
IsKeyed-remove some_rows rows k =
    All-map (λ m. (find (has_id m.id) rows ≡ some m) × (is_among some_rows m ≡ false))
      (λ m. find (has_id m.id) (remove (is_among some_rows) rows) ≡ some m)
      (remove (is_among some_rows) rows)
      (λ m (f, n).
        find-remove_other (has_id m.id) (is_among some_rows) rows
          (λ x h. is_among_id some_rows x m h ∙ n)
        ∙ f)
      (All-left (λ m. find (has_id m.id) rows ≡ some m) (is_among some_rows) rows k)

-- A message that passes a test is in the batch or stays.
kept_or_moved :
    (p : Message → Bool) (some_rows rows : List Message)
    → IsKeyed rows
    → All (λ m. find (has_id m.id) rows ≡ some m) some_rows
    → any p rows ≡ true
    → (any p some_rows || any p (remove (is_among some_rows) rows)) ≡ true
kept_or_moved p some_rows rows k s e =
    let (m, f) = any-find p rows e in
    elim (Bool-cases (is_among some_rows m)) [
      | inr n ↦ ground (arith, any-left p (is_among some_rows) rows m f n)
      | inl y ↦
          let (x, g) = any-find (has_id m.id) some_rows y in
          let found_x =
            find-All (has_id m.id) (λ m. find (has_id m.id) rows ≡ some m) some_rows x s g in
          let found_m = find-All p (λ m. find (has_id m.id) rows ≡ some m) rows m k f in
          let same_id = (==_iff x.id m.id).0 (find_holds (has_id m.id) some_rows x g) in
          let same = sym found_x ∙ (ap (λ i. find (has_id i) rows) same_id ∙ found_m) in
          ground (arith, same, find_holds p rows m f, find-any_other (has_id m.id) p some_rows x g)
    ]

module _ (p : Message → Bool) where
  insert-kept :
      (rows archive : List Message)
      → any p archive ≡ true
      → any p (insert_ordered rows archive).1 ≡ true
  insert-kept [] archive e = e
  insert-kept (m ∷ rows) archive e =
      ground (arith, e, insert-kept rows (archive ++ (m ∷ [])), any-append p archive (m ∷ []))

  insert-moved :
      (rows archive : List Message)
      → (insert_ordered rows archive).0 ≡ true
      → any p rows ≡ true
      → any p (insert_ordered rows archive).1 ≡ true
  insert-moved [] archive done e = cc
  insert-moved (m ∷ rows) archive done e = ground (
    arith,
    insert-moved rows (archive ++ (m ∷ [])),
    insert-kept rows (archive ++ (m ∷ [])),
    any-append p archive (m ∷ []),
  )

  -- Whether a message that passes is in one of the collections.
  abbrev is_somewhere : World → Bool
  is_somewhere w = any p w.messages || any p w.archive

  move-kept :
      (accepts : String → Bool) (rows : List Message) (w : World)
      → IsKeyed w.messages
      → All (λ m. find (has_id m.id) w.messages ≡ some m) rows
      → is_somewhere w ≡ true
      → is_somewhere (move accepts rows w).1 ≡ true
  move-kept accepts rows w k s e = elim (Bool-cases (any p w.messages)) [
    | inl h ↦ ground (
      arith,
      h,
      kept_or_moved p rows w.messages k s h,
      insert-kept rows w.archive,
      insert-moved rows w.archive,
    )
    | inr h ↦ ground (arith, h, e, insert-kept rows w.archive)
  ]

IsKeyed-move :
    (accepts : String → Bool) (rows : List Message) (w : World)
    → IsKeyed w.messages
    → IsKeyed (move accepts rows w).1.messages
IsKeyed-move accepts rows w k = ground (arith, k, IsKeyed-remove rows w.messages k)

archive_from-kept :
    (p : Message → Bool) (accepts : String → Bool) (fuel cutoff total : ℕ) (w : World)
    → IsKeyed w.messages
    → is_somewhere p w ≡ true
    → is_somewhere p (archive_from accepts fuel cutoff total w).1 ≡ true
archive_from-kept p accepts zero cutoff total w k e = e
archive_from-kept p accepts (suc fuel) cutoff total w k e =
    let rows = batch cutoff w in
    let r = move accepts rows w in
    let found =
      All-take (λ m. find (has_id m.id) w.messages ≡ some m) batch_size
        (select (is_old cutoff) w.messages)
        (All-select (λ m. find (has_id m.id) w.messages ≡ some m) (is_old cutoff) w.messages k) in
    let kept = move-kept p accepts rows w k found e in
    after_batch-cases total rows w r.0 r.1
      (archive_from accepts fuel cutoff (total + length rows) r.1) (λ x. is_somewhere p x.1 ≡ true)
      (λ _. e) (λ _ _. kept)
      (λ _ _ _ _.
        archive_from-kept p accepts fuel cutoff (total + length rows) r.1
          (IsKeyed-move accepts rows w k) kept)

-- Where an `_id` names one message of the recent collection, `handleArchiving` loses no message and
-- changes none: every test that a message of the two collections passes is passed by one of them
-- afterwards, also when a batch fails half-way.
pub handle_archiving-kept :
    (p : Message → Bool) (accepts : String → Bool) (now days : ℕ) (w : World)
    → IsKeyed w.messages
    → (any p w.messages || any p w.archive) ≡ true
    → let w' = (handle_archiving accepts now days w).1 in
      (any p w'.messages || any p w'.archive) ≡ true
unfolding handle_archiving
handle_archiving-kept p accepts now days w k e =
    archive_from-kept p accepts (suc (length w.messages)) (cutoff_of now days) 0 w k e

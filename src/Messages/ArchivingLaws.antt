-- ===== src/Messages/ArchivingLaws.antt =====
-- What `handleArchiving` does: it ends, keeps every message, and leaves no old one where no batch fails.
use swift_chat_backend.Base.{
  ℕ, zero, suc, ◌+◌, ◌≤◌, ◌<◌, ◌≡◌, refl, Bool, true, not, Option, some, List, [], ◌∷◌, String,
  arith, Result, ok, err, any, select, remove, take, length, ==_refl, is_some,
}
use swift_chat_backend.Base.Rows.{any_mono}
use swift_chat_backend.Http.{Error, plain, validation_failed}
use swift_chat_backend.Messages.Sending.{is_valid_reply}
use swift_chat_backend.Messages.{Message, World, has_id}
use swift_chat_backend.Messages.Archiving.{
  is_old, is_among, move, batch, batch_size, after_batch, archive_from, cutoff_of, handle_archiving,
}

-- A batch of messages is taken from the collection, so deleting it shortens the collection.
length-remove_le : (q : Message → Bool) (rows : List Message) → length (remove q rows) ≤ length rows
length-remove_le q [] = ground arith
length-remove_le q (m ∷ rows) = ground (arith, length-remove_le q rows)

length-remove_lt :
    (q : Message → Bool) (rows : List Message)
    → any q rows ≡ true
    → length (remove q rows) < length rows
length-remove_lt q [] e = cc
length-remove_lt q (m ∷ rows) e = ground (arith, length-remove_lt q rows, length-remove_le q rows)

module _ (p : Message → Bool) where
  any-take_le : (n : ℕ) (rows : List Message) → any p (take n rows) ≡ true → any p rows ≡ true
  any-take_le zero rows e = cc
  any-take_le (suc n) [] e = cc
  any-take_le (suc n) (m ∷ rows) e = ground (arith, any-take_le n rows)

  any-select_le :
      (q : Message → Bool) (rows : List Message) → any p (select q rows) ≡ true → any p rows ≡ true
  any-select_le q [] e = cc
  any-select_le q (m ∷ rows) e = ground (arith, any-select_le q rows)

any-batch_le :
    (p : Message → Bool) (cutoff : ℕ) (w : World)
    → any p (batch cutoff w) ≡ true
    → any p w.messages ≡ true
any-batch_le p cutoff w e =
    any-select_le p (is_old cutoff) w.messages
      (any-take_le p batch_size (select (is_old cutoff) w.messages) e)

-- A batch that is moved leaves the collection shorter.
move-shorter :
    (accepts : String → Bool) (m : Message) (more : List Message) (w : World)
    → any (has_id m.id) w.messages ≡ true
    → (move accepts (m ∷ more) w).0 ≡ ok tt
    → length (move accepts (m ∷ more) w).1.messages < length w.messages
move-shorter accepts m more w there done = ground (
  arith,
  length-remove_lt (is_among (m ∷ more)) w.messages
      (any_mono (has_id m.id) (is_among (m ∷ more)) w.messages (λ r h. ground arith) there),
)

-- Either the batch is empty, or its move failed and the loop ended, or the loop goes on after it.
pub after_batch-cases :
    (total : ℕ) (rows : List Message) (w : World) (r : Result (Unit {0})) (w' : World)
    (rest : Option ℕ × World) (P : Option ℕ × World → Type 0)
    → (rows ≡ [] → P (some total, w))
    → ((e : Error) → r ≡ err e → P (some total, w'))
    → ((m : Message) (more : List Message) → rows ≡ m ∷ more → r ≡ ok tt → P rest)
    → P (after_batch total rows w r w' rest)
after_batch-cases total [] w r w' rest P empty failed moved = empty refl
after_batch-cases total (m ∷ rows) w (ok tt) w' rest P empty failed moved = moved m rows refl refl
after_batch-cases total (m ∷ rows) w (err e) w' rest P empty failed moved = failed e refl

archive_from-is_some :
    (accepts : String → Bool) (fuel cutoff total : ℕ) (w : World)
    → length w.messages < fuel
    → is_some (archive_from accepts fuel cutoff total w).0 ≡ true
archive_from-is_some accepts zero cutoff total w lt = ground arith
archive_from-is_some accepts (suc fuel) cutoff total w lt =
    let rows = batch cutoff w in
    let r = move accepts rows w in
    after_batch-cases total rows w r.0 r.1
      (archive_from accepts fuel cutoff (total + length rows) r.1) (λ x. is_some x.0 ≡ true)
      (λ e. refl) (λ e h. refl)
      (λ m more e done.
        archive_from-is_some accepts fuel cutoff (total + length rows) r.1 (shorter m more e done))
  where
    there :
        (m : Message) (more : List Message)
        → batch cutoff w ≡ m ∷ more
        → any (has_id m.id) w.messages ≡ true
    there m more e = any-batch_le (has_id m.id) cutoff w (rw e (ground (arith, ==_refl m.id)))

    shorter :
        (m : Message) (more : List Message)
        → batch cutoff w ≡ m ∷ more
        → (move accepts (batch cutoff w) w).0 ≡ ok tt
        → length (move accepts (batch cutoff w) w).1.messages < fuel
    shorter m more e done =
        let s = move-shorter accepts m more w (there m more e) (rw e at done) in rw e (omega arith)

-- `handleArchiving` ends, whatever the collections hold and whichever batch fails: it always comes to
-- a count of archived messages.
pub handle_archiving-ends :
    (accepts : String → Bool) (now days : ℕ) (w : World)
    → is_some (handle_archiving accepts now days w).0 ≡ true
unfolding handle_archiving
handle_archiving-ends accepts now days w =
    archive_from-is_some accepts (suc (length w.messages)) (cutoff_of now days) 0 w (omega arith)

move-refused :
    (accepts : String → Bool) (rows : List Message) (w : World)
    → any (λ m. not (is_valid_reply accepts m.reply_to)) rows ≡ true
    → move accepts rows w ≡ (err (plain validation_failed), w)
move-refused accepts rows w e = rw e

-- When a message of the first batch carries a snapshot that the schema refuses, nothing is archived,
-- now and at every later run that finds the same batch: the count is 0 and the collections are left.
pub handle_archiving-refused :
    (accepts : String → Bool) (now days : ℕ) (w : World)
    → any (λ m. not (is_valid_reply accepts m.reply_to)) (batch (cutoff_of now days) w) ≡ true
    → handle_archiving accepts now days w ≡ (some 0, w)
unfolding handle_archiving
handle_archiving-refused accepts now days w e =
    let rows = batch (cutoff_of now days) w in
    let r = move accepts rows w in
    after_batch-cases 0 rows w r.0 r.1
      (archive_from accepts (length w.messages) (cutoff_of now days) (0 + length rows) r.1)
      (λ x. x ≡ (some 0, w)) (λ none_old. refl) (λ x failed. ground (arith, refused))
      (λ m more _ done. ground (arith, refused))
  where
    refused : move accepts (batch (cutoff_of now days) w) w ≡ (err (plain validation_failed), w)
    refused = move-refused accepts (batch (cutoff_of now days) w) w e

-- ===== src/Messages/Archiving.antt =====
-- `MessageArchivingService.handleArchiving` (src/messages/message-archiving.service.ts): batches of a
-- thousand old messages are copied to the archive and then deleted; an error ends the loop.
use swift_chat_backend.Base.{
  ℕ, zero, suc, ◌+◌, ◌-◌, ◌*◌, Bool, true, false, not, String, Option, none, some, List, [], ◌∷◌,
  ◌++◌, Result, ok, err, Action, raise_if, ◌>>◌, ltb, if◌then◌else◌, any, select, remove, take,
  length,
}
use swift_chat_backend.Http.{plain, duplicate_key, validation_failed}
use swift_chat_backend.Messages.{Message, World, has_id, day_ms}
use swift_chat_backend.Messages.Sending.{is_valid_reply}

abbrev pub batch_size : ℕ
batch_size = 1000

abbrev pub is_old : (cutoff : ℕ) → Message → Bool
is_old cutoff m = ltb m.created_at cutoff

-- `_id: { $in: ids }`
abbrev pub is_among : List Message → Message → Bool
is_among rows m = any (has_id m.id) rows

-- The insertion of one document after the other, up to one whose `_id` is there.
abbrev pub insert_ordered : List Message → List Message → Bool × List Message
insert_ordered [] archive = (true, archive)
insert_ordered (m ∷ rows) archive =
    if any (has_id m.id) archive
    then (false, archive)
    else insert_ordered rows (archive ++ (m ∷ []))

abbrev pub insert_checked : List Message → Action World (Unit {0})
insert_checked rows w =
    let (inserted, archive) = insert_ordered rows w.archive in
    ((if inserted then ok tt else err (plain duplicate_key)), record w { archive = archive })

-- `insertMany`: first the schema is checked on every document.
abbrev pub insert_many : (accepts : String → Bool) → List Message → Action World (Unit {0})
insert_many accepts rows = do
  raise_if (any (λ m. not (is_valid_reply accepts m.reply_to)) rows) (plain validation_failed)
  insert_checked rows

abbrev pub delete_many : List Message → Action World (Unit {0})
delete_many rows w = (ok tt, record w { messages = remove (is_among rows) w.messages })

-- The rows of one batch, moved.
abbrev pub move : (accepts : String → Bool) → List Message → Action World (Unit {0})
move accepts rows = insert_many accepts rows >> delete_many rows

abbrev pub batch : (cutoff : ℕ) → World → List Message
batch cutoff w = take batch_size (select (is_old cutoff) w.messages)

-- How the loop goes on after a batch: it ends where the batch is empty or an error was caught.
abbrev pub after_batch :
    (total : ℕ)
    → (rows : List Message) → (w : World) → Result (Unit {0})
    → (w' : World) → (rest : Option ℕ × World) → Option ℕ × World
after_batch total [] w r w' rest = (some total, w)
after_batch total (m ∷ rows) w (ok _) w' rest = rest
after_batch total (m ∷ rows) w (err e) w' rest = (some total, w')

-- The loop, on fuel: how many messages were moved, and none where the fuel ran out.
abbrev pub archive_from :
    (accepts : String → Bool) → (fuel cutoff total : ℕ) → World → Option ℕ × World
archive_from accepts zero cutoff total w = (none, w)
archive_from accepts (suc fuel) cutoff total w =
    let rows = batch cutoff w in
    let r = move accepts rows w in
    after_batch total rows w r.0 r.1 (archive_from accepts fuel cutoff (total + length rows) r.1)

-- The time before which a message is old. `setDate` counts days of the calendar, here of 24 hours.
abbrev pub cutoff_of : (now days : ℕ) → ℕ
cutoff_of now days = now - days * day_ms

-- `handleArchiving`: each batch takes a message from the collection.
unfoldable pub handle_archiving :
    (accepts : String → Bool) → (now days : ℕ) → World → Option ℕ × World
handle_archiving accepts now days w =
    archive_from accepts (suc (length w.messages)) (cutoff_of now days) 0 w

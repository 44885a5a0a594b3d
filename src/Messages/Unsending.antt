-- ===== src/Messages/Unsending.antt =====
-- What `unsendMessage` leaves behind.
use swift_chat_backend.Base.{ℕ, ◌≡◌, Bool, true, false, map, Option, none, some, List, All}
use swift_chat_backend.Messages.{Message, ReplyTarget, World}

-- A snapshot of the message `id` has no content.
abbrev pub IsClearedOf : (id : ℕ) → Option ReplyTarget → Type 0
IsClearedOf id none = Unit
IsClearedOf id (some r) = r.message_id ≡ id → r.content ≡ ""

abbrev pub IsCleared : (id : ℕ) → Message → Type 0
IsCleared id m = IsClearedOf id m.reply_to

abbrev pub snapshots : List Message → List (Option ReplyTarget)
snapshots rows = map (λ m. m.reply_to) rows

-- The snapshots of replies in the two collections: cleared where they are of the message `id`, or left
-- as they were.
abbrev pub AreSettled : (is_lower_case : Bool) → (id : ℕ) → (before after : World) → Type 0
AreSettled true id w w' = All (IsCleared id) w'.messages × All (IsCleared id) w'.archive
AreSettled false id w w' =
    (snapshots w'.messages ≡ snapshots w.messages) × (snapshots w'.archive ≡ snapshots w.archive)

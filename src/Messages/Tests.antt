-- ===== src/Messages/Tests.antt =====
-- Examples for the properties of messages.
use swift_chat_backend.Base.{
  ◌≤◌, ◌≡◌, refl, true, false, map, none, some, List, [], ◌∷◌, arith, ok, any, length, All, ◌==◌,
  ◌||◌, is_some,
}
use swift_chat_backend.Samples.{chats}
use swift_chat_backend.Samples.Mail.{message, reply_to, accepts_text}
use swift_chat_backend.Messages.{Message, World, IdText, has_id, unsend_message}
use swift_chat_backend.Messages.Reacting.{toggle_reaction}
use swift_chat_backend.Messages.Reading.{find_by_conversation}
use swift_chat_backend.Messages.Archiving.{handle_archiving}
use swift_chat_backend.Messages.Unsending.{snapshots}
use swift_chat_backend.Messages.ReactingLaws.{IsSingle, toggle_reaction-IsSingle}
use swift_chat_backend.Messages.ArchivingLaws.{handle_archiving-ends, handle_archiving-refused}
use swift_chat_backend.Messages.Keeping.{handle_archiving-kept}
use swift_chat_backend.Messages.ReadingLaws.{IsShown, find_by_conversation-IsShown}
use swift_chat_backend.Messages.OldPages.{find_by_conversation-archive_only}

-- Message 101 answers message 100, and 99 is in the archive.
abbrev world : World
world = record {
  db = chats;
  messages = reply_to 100 (message 101 7 2 "yes") ∷ message 100 7 1 "tea?" ∷ [];
  archive = message 99 7 1 "hello" ∷ [];
}

-- The id of message 100, as `toString` spells it.
abbrev tea : IdText
tea = record { id = 100; is_lower_case = true }

-- With a capital in the text, the message is unsent and its copy in message 101 stays.
still_quoted :
    snapshots (unsend_message 60 (record { id = 100; is_lower_case = false }) 1 world).1.messages
    ≡ snapshots world.messages
unfolding unsend_message
still_quoted = refl

world-IsSingle : IsSingle world
world-IsSingle = record {
  in_messages = ((λ a. omega arith), ((λ a. omega arith), tt));
  in_archive = ((λ a. omega arith), tt);
}

toggle_reaction-IsSingle_example : IsSingle (toggle_reaction 60 100 2 5 world).1
toggle_reaction-IsSingle_example = toggle_reaction-IsSingle 60 100 2 5 world world-IsSingle

handle_archiving-ends_example : is_some (handle_archiving accepts_text 5000000000 30 world).0 ≡ true
handle_archiving-ends_example = handle_archiving-ends accepts_text 5000000000 30 world

handle_archiving-kept_example :
    let w' = (handle_archiving accepts_text 5000000000 30 world).1 in
    (any (λ m. m.id == 100) w'.messages || any (λ m. m.id == 100) w'.archive) ≡ true
handle_archiving-kept_example =
    handle_archiving-kept (λ m. m.id == 100) accepts_text 5000000000 30 world (refl, (refl, tt))
      refl

-- The snapshot of message 101 was cleared.
abbrev cleared_world : World
cleared_world = (unsend_message 60 tea 1 world).1

handle_archiving-refused_example :
    handle_archiving accepts_text 5000000000 30 cleared_world ≡ (some 0, cleared_world)
unfolding unsend_message
handle_archiving-refused_example =
    handle_archiving-refused accepts_text 5000000000 30 cleared_world refl

find_by_conversation-IsShown_example :
    (rows : List Message) × ((find_by_conversation (λ id. id) 60 30 7 2 none 50 world
        ≡ (ok rows, world))
      × (All (IsShown 7 2 none world) rows × (length rows ≤ 50)))
find_by_conversation-IsShown_example =
    find_by_conversation-IsShown (λ id. id) 60 30 7 2 none 50 world refl

-- Message 100 is older than the cursor, in the recent collection alone, and on no page.
find_by_conversation-archive_only_example :
    let w' = record world { messages = [] } in
    (rows : List Message) × (rows' : List Message) × (find_by_conversation
        (λ id. id)
        5000000000
        30
        7
        2
        (some 101)
        50
        world
      ≡ (ok rows, world))
    × (find_by_conversation (λ id. id) 5000000000 30 7 2 (some 101) 50 w' ≡ (ok rows', w'))
    × (map (λ m. m.id) rows ≡ map (λ m. m.id) rows')
    × (any (has_id 100) rows ≡ false)
find_by_conversation-archive_only_example =
    find_by_conversation-archive_only (λ id. id) 5000000000 30 7 2 101 50 100 [] world refl refl
      refl

-- ===== src/Messages/Reacting.antt =====
-- `MessagesService.toggleReaction`.
use swift_chat_backend.Base.{
  ℕ, Bool, true, false, ◌&&◌, Option, none, some, [], ◌∷◌, ◌++◌, Action, ◌>>=◌, ◌==◌, any, find,
  remove,
}
use swift_chat_backend.Messages.{
  Message, Reaction, World, Model, hot, archived, has_id, find_one, find_one_and_update,
  update_in_both,
}

abbrev pub is_reaction_of : ℕ → Reaction → Bool
is_reaction_of a r = r.account_id == a

-- `'reactions.accountId': accountId`
abbrev pub is_reacted : (id account : ℕ) → Message → Bool
is_reacted id a m = m.id == id && any (is_reaction_of a) m.reactions

-- `$pull`
abbrev pub pulled : (now a : ℕ) → Message → Message
pulled now a m = record m { reactions = remove (is_reaction_of a) m.reactions; updated_at = now }

abbrev pub reaction : (now a emoji : ℕ) → Reaction
reaction now a emoji = record { emoji = emoji; account_id = a; created_at = now }

-- `$push`
abbrev pub pushed : (now a emoji : ℕ) → Message → Message
pushed now a emoji m = record m {
  reactions = m.reactions ++ (reaction now a emoji ∷ []);
  updated_at = now;
}

-- `currentReaction.emoji === emoji`
abbrev pub is_same_emoji : (emoji : ℕ) → Option Reaction → Bool
is_same_emoji emoji none = false
is_same_emoji emoji (some r) = r.emoji == emoji

-- The branch for an account that has reacted, in the collection that holds the message.
abbrev pub replace_reaction : (now id a emoji : ℕ) → Model → Message → Action World (Option Message)
replace_reaction now id a emoji c m w =
    let same = is_same_emoji emoji (find (is_reaction_of a) m.reactions) in
    elim same [
      | true ↦ find_one_and_update c (has_id id) (pulled now a) w
      | false ↦
          (find_one_and_update c (has_id id) (pulled now a) >>= λ _.
          find_one_and_update c (has_id id) (pushed now a emoji))
            w
    ]

abbrev pub toggle_in_archive : (now id a emoji : ℕ) → Option Message → Action World (Option Message)
toggle_in_archive now id a emoji (some m) = replace_reaction now id a emoji archived m
toggle_in_archive now id a emoji none = update_in_both (has_id id) (pushed now a emoji)

abbrev pub toggle_found : (now id a emoji : ℕ) → Option Message → Action World (Option Message)
toggle_found now id a emoji (some m) = replace_reaction now id a emoji hot m
toggle_found now id a emoji none = do
  existing ← find_one archived (is_reacted id a)
  toggle_in_archive now id a emoji existing

-- `toggleReaction`
unfoldable pub toggle_reaction : (now id account emoji : ℕ) → Action World (Option Message)
toggle_reaction now id a emoji = do
  existing ← find_one hot (is_reacted id a)
  toggle_found now id a emoji existing

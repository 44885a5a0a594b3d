-- ===== src/Chat/Membership.antt =====
-- The calls of a socket (src/chat/chat.service.ts) leave the tables, but for how far one has read: so
-- the members of every conversation, and what was handed to the emitter of notifications.
use swift_chat_backend.Base.{
  ℕ, ◌≡◌, refl, ◌∙◌, Bool, Option, none, some, String, arith, Action, Result, ok, err, raise_if,
  or_raise, ltb, ◌-◌, ◌>>=◌,
}
use swift_chat_backend.Base.Rows.{any-update_same}
use swift_chat_backend.Http.{Error, plain, too_late_to_unsend, ws_exception, message_not_found}
use swift_chat_backend.Db.{Db}
use swift_chat_backend.Group.{is_key}
use swift_chat_backend.Conversations.{is_participant, mark_as_read, read_to}
use swift_chat_backend.Messages.{
  Message, World, IdText, Model, hot, archived, find_one_and_update, update_in_both, or_else,
  clear_snapshots, unsend_found, unsend_message, delete_for_me, edit_message, pin_message,
  unpin_message, find_in_both, has_id, is_sent_by, unsent, deleted_for, is_editable, edited, pinned,
  unpinned, day_ms, find_one,
}
use swift_chat_backend.Messages.Reacting.{
  toggle_reaction, toggle_found, toggle_in_archive, replace_reaction, is_reacted, pushed,
}
use swift_chat_backend.Chat.{
  on_db, guarded, assert_participant, chat_unsend, chat_delete_for_me, chat_edit, mark_read,
  react_message, chat_pin, chat_unpin,
}

-- What a call does not change of the tables.
module _ {X : Type 0} (view : Db → X) where
  abbrev pub Keeps : {A : Type 0} → Action World A → Type 0
  Keeps m = (w : World) → view (m w).1.db ≡ view w.db

  abbrev pub KeepsIn : {A : Type 0} → Action Db A → Type 0
  KeepsIn m = (db : Db) → view (m db).1 ≡ view db

  result-Keeps :
      {A B : Type 0} (r : Result A) (w w' : World) (k : A → Action World B)
      → view w'.db ≡ view w.db
      → ((a : A) → Keeps (k a))
      → view (((λ _. (r, w')) >>= k) w).1.db ≡ view w.db
  result-Keeps (ok x) w w' k s t = t x w' ∙ s
  result-Keeps (err e) w w' k s t = s

  pub bind-Keeps :
      {A B : Type 0} (m : Action World A) (k : A → Action World B)
      → Keeps m
      → ((a : A) → Keeps (k a))
      → Keeps (m >>= k)
  bind-Keeps m k s t w = result-Keeps (m w).0 w (m w).1 k (s w) t

  or_raise-Keeps : {A : Type 0} (o : Option A) (e : Error) → Keeps (or_raise {S = World} o e)
  or_raise-Keeps none e w = refl
  or_raise-Keeps (some x) e w = refl

  pub on_db-Keeps : {A : Type 0} (m : Action Db A) → KeepsIn m → Keeps (on_db m)
  on_db-Keeps m s w = s w.db

  -- The changes of a message.
  find_one_and_update-Keeps :
      (c : Model) (q : Message → Bool) (f : Message → Message) → Keeps (find_one_and_update c q f)
  find_one_and_update-Keeps hot q f w = refl
  find_one_and_update-Keeps archived q f w = refl

  or_else-Keeps :
      (o : Option Message) (m : Action World (Option Message)) → Keeps m → Keeps (or_else o m)
  or_else-Keeps none m s w = s w
  or_else-Keeps (some x) m s w = refl

  update_in_both-Keeps : (q : Message → Bool) (f : Message → Message) → Keeps (update_in_both q f)
  update_in_both-Keeps q f =
      bind-Keeps (find_one_and_update hot q f) (λ o. or_else o (find_one_and_update archived q f))
        (find_one_and_update-Keeps hot q f)
        (λ o.
          or_else-Keeps o (find_one_and_update archived q f)
            (find_one_and_update-Keeps archived q f))

  clear_snapshots-Keeps :
      (now : ℕ) (raw : IdText) (o : Option Message) → Keeps (clear_snapshots now raw o)
  clear_snapshots-Keeps now raw none w = refl
  clear_snapshots-Keeps now raw (some m) w = refl

  find_in_both-Keeps : (q : Message → Bool) → Keeps (find_in_both q)
  find_in_both-Keeps q =
      bind-Keeps (find_one hot q) (λ o. or_else o (find_one archived q)) (λ w. refl)
        (λ o. or_else-Keeps o (find_one archived q) (λ w. refl))

  unsend_found-Keeps :
      (now : ℕ) (raw : IdText) (o : Option Message) → Keeps (unsend_found now raw o)
  unsend_found-Keeps now raw none w = refl
  unsend_found-Keeps now raw (some m) w =
      bind-Keeps (raise_if (ltb day_ms (now - m.created_at)) (plain too_late_to_unsend))
        (λ _. update_in_both (has_id raw.id) (unsent now) >>= clear_snapshots now raw) (λ w. refl)
        (λ _.
          bind-Keeps (update_in_both (has_id raw.id) (unsent now)) (clear_snapshots now raw)
            (update_in_both-Keeps (has_id raw.id) (unsent now)) (clear_snapshots-Keeps now raw))
        w

  unsend_message-Keeps : (now : ℕ) (raw : IdText) (a : ℕ) → Keeps (unsend_message now raw a)
  unfolding unsend_message
  unsend_message-Keeps now raw a =
      bind-Keeps (find_in_both (is_sent_by raw.id a)) (unsend_found now raw)
        (find_in_both-Keeps (is_sent_by raw.id a)) (unsend_found-Keeps now raw)

  replace_reaction-Keeps :
      (now id a emoji : ℕ) (c : Model) (m : Message) → Keeps (replace_reaction now id a emoji c m)
  replace_reaction-Keeps now id a emoji hot m w = ground arith
  replace_reaction-Keeps now id a emoji archived m w = ground arith

  toggle_in_archive-Keeps :
      (now id a emoji : ℕ) (o : Option Message) → Keeps (toggle_in_archive now id a emoji o)
  toggle_in_archive-Keeps now id a emoji (some m) = replace_reaction-Keeps now id a emoji archived m
  toggle_in_archive-Keeps now id a emoji none =
      update_in_both-Keeps (has_id id) (pushed now a emoji)

  toggle_found-Keeps :
      (now id a emoji : ℕ) (o : Option Message) → Keeps (toggle_found now id a emoji o)
  toggle_found-Keeps now id a emoji (some m) = replace_reaction-Keeps now id a emoji hot m
  toggle_found-Keeps now id a emoji none =
      bind-Keeps (find_one archived (is_reacted id a)) (toggle_in_archive now id a emoji)
        (λ w. refl) (toggle_in_archive-Keeps now id a emoji)

  toggle_reaction-Keeps : (now id a emoji : ℕ) → Keeps (toggle_reaction now id a emoji)
  unfolding toggle_reaction
  toggle_reaction-Keeps now id a emoji =
      bind-Keeps (find_one hot (is_reacted id a)) (toggle_found now id a emoji) (λ w. refl)
        (toggle_found-Keeps now id a emoji)

  -- A call behind the guard.
  guarded-Keeps : (a c : ℕ) (m : Action World (Option Message)) → Keeps m → Keeps (guarded a c m)
  guarded-Keeps a c m s =
      bind-Keeps (assert_participant a c)
        (λ _. m >>= λ o. or_raise o (ws_exception message_not_found)) (λ w. refl)
        (λ _.
          bind-Keeps m (λ o. or_raise o (ws_exception message_not_found)) s
            (λ o. or_raise-Keeps o (ws_exception message_not_found)))

  pub chat_unsend-Keeps : (now a c : ℕ) (raw : IdText) → Keeps (chat_unsend now a c raw)
  unfolding chat_unsend
  chat_unsend-Keeps now a c raw =
      guarded-Keeps a c (unsend_message now raw a) (unsend_message-Keeps now raw a)

  pub chat_delete_for_me-Keeps : (now a c id : ℕ) → Keeps (chat_delete_for_me now a c id)
  unfolding chat_delete_for_me delete_for_me
  chat_delete_for_me-Keeps now a c id =
      guarded-Keeps a c (delete_for_me now id a)
        (update_in_both-Keeps (has_id id) (deleted_for now a))

  pub chat_edit-Keeps : (now a c id : ℕ) (content : String) → Keeps (chat_edit now a c id content)
  unfolding chat_edit edit_message
  chat_edit-Keeps now a c id content =
      guarded-Keeps a c (edit_message now id a content)
        (update_in_both-Keeps (is_editable id a) (edited now content))

  pub react_message-Keeps : (now a c id emoji : ℕ) → Keeps (react_message now a c id emoji)
  unfolding react_message
  react_message-Keeps now a c id emoji =
      guarded-Keeps a c (toggle_reaction now id a emoji) (toggle_reaction-Keeps now id a emoji)

  pub chat_pin-Keeps : (now a c id : ℕ) → Keeps (chat_pin now a c id)
  unfolding chat_pin pin_message
  chat_pin-Keeps now a c id =
      guarded-Keeps a c (pin_message now id a) (update_in_both-Keeps (has_id id) (pinned now a))

  pub chat_unpin-Keeps : (now a c id : ℕ) → Keeps (chat_unpin now a c id)
  unfolding chat_unpin unpin_message
  chat_unpin-Keeps now a c id =
      guarded-Keeps a c (unpin_message now id) (update_in_both-Keeps (has_id id) (unpinned now))

abbrev pub SameMembers : (db db' : Db) → Type 0
SameMembers db db' = (a c : ℕ) → is_participant a c db' ≡ is_participant a c db

abbrev pub KeepsMembers : {A : Type 0} → Action World A → Type 0
KeepsMembers m = (w : World) → SameMembers w.db (m w).1.db

pub mark_read-events : (a c message : ℕ) → Keeps (λ db. db.events) (mark_read a c message)
unfolding mark_read mark_as_read
mark_read-events a c message w = ground arith

pub mark_read-KeepsMembers : (a c message : ℕ) → KeepsMembers (mark_read a c message)
unfolding mark_read mark_as_read
mark_read-KeepsMembers a c message w b d = ground (
  arith,
  any-update_same (is_key d b) (is_key c a) (read_to message) w.db.participants (λ r e. refl),
)

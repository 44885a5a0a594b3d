-- ===== src/Gateway/Membership.antt =====
-- The rooms of conversations hold members only, as far as the requests of the sockets go
-- (src/chat/chat.gateway.ts).
use swift_chat_backend.Base.{
  ℕ, ◌≡◌, refl, sym, ap, ◌∙◌, inl, inr, Bool, true, false, Option, none, List, [], ◌∷◌, arith,
  Action, Result, ok, err, ◌>>=◌, ◌>>◌, any, All, Bool-cases,
}
use swift_chat_backend.Base.Rows.{All-remove}
use swift_chat_backend.Db.{Db}
use swift_chat_backend.Conversations.{is_participant}
use swift_chat_backend.Conversations.Listing.{ListItem}
use swift_chat_backend.Conversations.Ownership.{IsOwn, AreOwn, get_user_conversations-AreOwn}
use swift_chat_backend.Conversations.Pages.{ConversationPage, get_user_conversations}
use swift_chat_backend.Messages.{World}
use swift_chat_backend.Push.{PushResponse, send_push_to_offline_participants}
use swift_chat_backend.Chat.{
  send_message, join_room, chat_unsend, chat_delete_for_me, chat_edit, mark_read, react_message,
  chat_pin, chat_unpin,
}
use swift_chat_backend.Chat.Membership.{
  SameMembers, KeepsMembers, chat_unsend-Keeps, chat_delete_for_me-Keeps, chat_edit-Keeps,
  react_message-Keeps, chat_pin-Keeps, chat_unpin-Keeps, mark_read-KeepsMembers,
}
use swift_chat_backend.Chat.SendingMembers.{send_message-KeepsMembers}
use swift_chat_backend.Chat.Presence.{is_online}
use swift_chat_backend.Gateway.{
  Hub, Socket, Joined, Room, account_room, conversation_room, is_joined, socket_join, emit_to,
  on_world, emit_back, emit_to_others, receive_message, message_unsent, message_deleted_for_me,
  message_edited, read_receipt, reaction_updated, message_pinned, message_unpinned,
}
use swift_chat_backend.Gateway.Connecting.{handle_heartbeat}
use swift_chat_backend.Gateway.Handlers.{
  handle_join_room, handle_rejoin_rooms, handle_leave_room, handle_typing, handle_stop_typing,
  handle_send_message, handle_unsend_message, handle_delete_for_me, handle_edit_message,
  handle_mark_read, handle_react_message, handle_pin_message, handle_unpin_message, join_all,
  max_conversations_to_rejoin, push_message,
}
use swift_chat_backend.Gateway.Requests.{
  Request, Outside, handle_request, joining, leaving, typing, stopping, rejoining, heartbeat,
  sending, unsending, deleting, reading, pinning, unpinning, editing, reacting,
}

abbrev pub MayHear : Db → (account : ℕ) → Room → Type 0
MayHear db a (account_room b) = Unit
MayHear db a (conversation_room c) = is_participant a c db ≡ true

abbrev pub IsEntitled : Db → Joined → Type 0
IsEntitled db j = MayHear db j.socket.account_id j.room

abbrev pub AreMembers : Hub → Type 0
AreMembers h = All (IsEntitled h.world.db) h.joined

MayHear-same :
    (db db' : Db) (a : ℕ) (room : Room)
    → SameMembers db db'
    → MayHear db a room
    → MayHear db' a room
MayHear-same db db' a (account_room b) s m = tt
MayHear-same db db' a (conversation_room c) s m = s a c ∙ m

All-same :
    (db db' : Db) (rows : List Joined)
    → SameMembers db db'
    → All (IsEntitled db) rows
    → All (IsEntitled db') rows
All-same db db' [] s m = tt
All-same db db' (j ∷ rows) s m =
    (MayHear-same db db' j.socket.account_id j.room s m.0, All-same db db' rows s m.1)

join-AreMembers :
    (s : Socket) (room : Room) (h : Hub)
    → MayHear h.world.db s.account_id room
    → AreMembers h
    → AreMembers (socket_join s room h).1
join-AreMembers s room h may m = elim (Bool-cases (any (is_joined s.id room) h.joined)) [
  | inl e ↦ rw e m
  | inr e ↦ rw e (may, m)
]

join-world : (s : Socket) (room : Room) (h : Hub) → (socket_join s room h).1.world ≡ h.world
join-world s room h = elim (Bool-cases (any (is_joined s.id room) h.joined)) [
  | inl e ↦ rw e refl
  | inr e ↦ rw e refl
]

All-IsOwn :
    (s : Socket) (rows : List ListItem) (db db' : Db)
    → db ≡ db'
    → All (λ i. IsOwn s.account_id db i.id) rows
    → All (λ i. IsOwn s.account_id db' i.id) rows
All-IsOwn s rows db db' e own = rw (← e) own

join_all-AreMembers :
    (s : Socket) (rows : List ListItem) (h : Hub)
    → All (λ i. IsOwn s.account_id h.world.db i.id) rows
    → AreMembers h
    → AreMembers (join_all s rows h).1
join_all-AreMembers s [] h own m = m
join_all-AreMembers s (c ∷ rows) h own m =
    let h' = (socket_join s (conversation_room c.id) h).1 in
    join_all-AreMembers s rows h'
      (All-IsOwn s rows h.world.db h'.world.db
        (sym (ap (λ w. w.db) (join-world s (conversation_room c.id) h))) own.1)
      (join-AreMembers s (conversation_room c.id) h own.0 m)

module _ {A : Type 0} (next : A → Action Hub (Unit {0})) where
  result-AreMembers :
      (r : Result A) (w : World) (h : Hub)
      → SameMembers h.world.db w.db
      → ((a : A) (h' : Hub) → AreMembers h' → AreMembers (next a h').1)
      → AreMembers h
      → AreMembers (((λ _. (r, record h { world = w })) >>= next) h).1
  result-AreMembers (ok a) w h s keeps m =
      keeps a (record h { world = w }) (All-same h.world.db w.db h.joined s m)
  result-AreMembers (err e) w h s keeps m = All-same h.world.db w.db h.joined s m

  call-AreMembers :
      (c : Action World A) (h : Hub)
      → KeepsMembers c
      → ((a : A) (h' : Hub) → AreMembers h' → AreMembers (next a h').1)
      → AreMembers h
      → AreMembers ((on_world c >>= next) h).1
  call-AreMembers c h s keeps m =
      result-AreMembers (c h.world).0 (c h.world).1 h (s h.world) keeps m

push-SameMembers :
    (ready : Bool) (respond : ℕ → List ℕ → Option (List PushResponse)) (is_online : ℕ → Bool)
    (now c sender : ℕ) (db : Db)
    → SameMembers db (send_push_to_offline_participants ready respond is_online now c sender db).1
unfolding send_push_to_offline_participants
push-SameMembers true respond is_online now c sender db a d = refl
push-SameMembers false respond is_online now c sender db a d = refl

rejoined-AreMembers :
    (s : Socket) (r : Result ConversationPage) (w : World) (h : Hub)
    → h.world ≡ w
    → AreOwn s.account_id h.world.db r
    → AreMembers h
    → AreMembers (((λ _. (r, record h { world = w })) >>= (λ page. join_all s page.items)) h).1
rejoined-AreMembers s (ok page) w h e own m =
    join_all-AreMembers s page.items (record h { world = w })
      (All-IsOwn s page.items h.world.db w.db (ap (λ w. w.db) e) own)
      (All-same h.world.db w.db h.joined (λ a c. ap (λ w. is_participant a c w.db) (sym e)) m)
rejoined-AreMembers s (err x) w h e own m =
    All-same h.world.db w.db h.joined (λ a c. ap (λ w. is_participant a c w.db) (sym e)) m

join_room_cases :
    (P : Hub → Type 0) (c : ℕ) (s : Socket) (h : Hub)
    → P h
    → (is_participant s.account_id c h.world.db ≡ true
        → P (socket_join s (conversation_room c) h).1)
    → P (handle_join_room c s h).1
unfolding handle_join_room join_room
join_room_cases P c s h p q = ground (arith, p, q)

-- Every request of a socket, whether it returns or throws, leaves the sockets in the room of each
-- conversation those of accounts that are in the conversation, where they were before.
pub handle_request-AreMembers :
    (o : Outside) (now : ℕ) (request : Request) (s : Socket) (h : Hub)
    → AreMembers h
    → AreMembers (handle_request o now request s h).1
unfolding handle_request handle_rejoin_rooms handle_leave_room handle_typing handle_stop_typing
    handle_send_message handle_unsend_message handle_delete_for_me handle_edit_message
    handle_mark_read handle_react_message handle_pin_message handle_unpin_message handle_heartbeat
handle_request-AreMembers o now (joining c) s h m =
    join_room_cases AreMembers c s h m (λ e. join-AreMembers s (conversation_room c) h e m)
handle_request-AreMembers o now (leaving c) s h m =
    All-remove (IsEntitled h.world.db) (is_joined s.id (conversation_room c)) h.joined m
handle_request-AreMembers o now (typing c) s h m = m
handle_request-AreMembers o now (stopping c) s h m = m
handle_request-AreMembers o now rejoining s h m =
    let r =
      get_user_conversations (λ a. is_online now (h.presences a)) now s.account_id
        max_conversations_to_rejoin none none h.world in
    let own =
      get_user_conversations-AreOwn (λ a. is_online now (h.presences a)) now s.account_id
        max_conversations_to_rejoin none h.world in
    rejoined-AreMembers s r.0 r.1 h (sym own.1) own.0 m
handle_request-AreMembers o now heartbeat s h m = m
handle_request-AreMembers o now (sending id ids dto) s h m =
    call-AreMembers
      (λ saved.
        push_message o.ready o.respond now dto.conversation_id s.account_id
        >> emit_to (conversation_room dto.conversation_id) (receive_message saved))
      (send_message o.accepts now id ids s.account_id dto) h
      (send_message-KeepsMembers o.accepts now id ids s.account_id dto)
      (λ saved h' m'.
        All-same h'.world.db
          (push_message o.ready o.respond now dto.conversation_id s.account_id h').1.world.db
          h'.joined
          (push-SameMembers o.ready o.respond (λ a. is_online now (h'.presences a)) now
            dto.conversation_id s.account_id h'.world.db)
          m')
      m
handle_request-AreMembers o now (unsending c raw) s h m =
    call-AreMembers (λ _. emit_to (conversation_room c) (message_unsent c raw.id s.account_id))
      (chat_unsend now s.account_id c raw) h
      (λ w b d. chat_unsend-Keeps (is_participant b d) now s.account_id c raw w) (λ _ h' m'. m') m
handle_request-AreMembers o now (deleting c id) s h m =
    call-AreMembers (λ _. emit_back s (message_deleted_for_me c id))
      (chat_delete_for_me now s.account_id c id) h
      (λ w b d. chat_delete_for_me-Keeps (is_participant b d) now s.account_id c id w)
      (λ _ h' m'. m') m
handle_request-AreMembers o now (reading c id) s h m =
    call-AreMembers (λ _. emit_to_others s (conversation_room c) (read_receipt c s.account_id id))
      (mark_read s.account_id c id) h (mark_read-KeepsMembers s.account_id c id) (λ _ h' m'. m') m
handle_request-AreMembers o now (pinning c id) s h m =
    call-AreMembers (λ _. emit_to (conversation_room c) (message_pinned c id s.account_id))
      (chat_pin now s.account_id c id) h
      (λ w b d. chat_pin-Keeps (is_participant b d) now s.account_id c id w) (λ _ h' m'. m') m
handle_request-AreMembers o now (unpinning c id) s h m =
    call-AreMembers (λ _. emit_to (conversation_room c) (message_unpinned c id))
      (chat_unpin now s.account_id c id) h
      (λ w b d. chat_unpin-Keeps (is_participant b d) now s.account_id c id w) (λ _ h' m'. m') m
handle_request-AreMembers o now (editing c id content) s h m =
    call-AreMembers (λ _. emit_to (conversation_room c) (message_edited c id content s.account_id))
      (chat_edit now s.account_id c id content) h
      (λ w b d. chat_edit-Keeps (is_participant b d) now s.account_id c id content w)
      (λ _ h' m'. m') m
handle_request-AreMembers o now (reacting c id emoji) s h m =
    call-AreMembers
      (λ message. emit_to (conversation_room c) (reaction_updated c id message.reactions))
      (react_message now s.account_id c id emoji) h
      (λ w b d. react_message-Keeps (is_participant b d) now s.account_id c id emoji w)
      (λ _ h' m'. m') m

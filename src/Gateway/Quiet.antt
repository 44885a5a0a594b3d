-- ===== src/Gateway/Quiet.antt =====
-- A request that fails is heard by nobody (src/chat/chat.gateway.ts).
use swift_chat_backend.Base.{
  ℕ, ◌≡◌, refl, List, [], ◌∷◌, Action, Result, ap, ok, err, none, arith, ◌>>=◌,
}
use swift_chat_backend.Http.{Error}
use swift_chat_backend.Messages.{World}
use swift_chat_backend.Chat.Membership.{
  mark_read-events, chat_unsend-Keeps, chat_delete_for_me-Keeps, chat_edit-Keeps,
  react_message-Keeps, chat_pin-Keeps, chat_unpin-Keeps,
}
use swift_chat_backend.Chat.SendingMembers.{send_message-events}
use swift_chat_backend.Chat.{join_room}
use swift_chat_backend.Conversations.Ownership.{get_user_conversations-AreOwn}
use swift_chat_backend.Chat.Presence.{is_online}
use swift_chat_backend.Conversations.Pages.{get_user_conversations}
use swift_chat_backend.Conversations.Listing.{ListItem}
use swift_chat_backend.Gateway.{Hub, Socket, on_world, socket_join, conversation_room}
use swift_chat_backend.Gateway.Connecting.{handle_heartbeat}
use swift_chat_backend.Gateway.Handlers.{
  handle_join_room, handle_rejoin_rooms, handle_leave_room, handle_typing, handle_stop_typing,
  handle_send_message, handle_unsend_message, handle_delete_for_me, handle_edit_message,
  handle_mark_read, handle_react_message, handle_pin_message, handle_unpin_message, join_all,
  max_conversations_to_rejoin,
}
use swift_chat_backend.Gateway.Requests.{
  Request, Outside, handle_request, joining, leaving, typing, stopping, rejoining, heartbeat,
  sending, unsending, deleting, reading, pinning, unpinning, editing, reacting,
}

abbrev pub IsQuiet : (before after : Hub) → Type 0
IsQuiet h h' =
    (h'.joined ≡ h.joined)
    × (h'.deliveries ≡ h.deliveries)
    × (h'.pushes ≡ h.pushes)
    × (h'.world.db.events ≡ h.world.db.events)

-- A service has answered, and what comes after it does not fail.
after_result :
    {A : Type 0} (r : Result A) (w : World) (next : A → Action Hub (Unit {0})) (h : Hub) (e : Error)
    → ((a : A) (h' : Hub) → (next a h').0 ≡ ok tt)
    → w.db.events ≡ h.world.db.events
    → (((λ _. (r, record h { world = w })) >>= next) h).0 ≡ err e
    → IsQuiet h (((λ _. (r, record h { world = w })) >>= next) h).1
after_result (ok a) w next h e total kept bad = cc (bad, total a (record h { world = w }))
after_result (err e') w next h e total kept bad = (refl, refl, refl, kept)

after_call :
    {A : Type 0} (m : Action World A) (next : A → Action Hub (Unit {0})) (h : Hub) (e : Error)
    → ((a : A) (h' : Hub) → (next a h').0 ≡ ok tt)
    → (m h.world).1.db.events ≡ h.world.db.events
    → ((on_world m >>= next) h).0 ≡ err e
    → IsQuiet h ((on_world m >>= next) h).1
after_call m next h e total kept bad =
    after_result (m h.world).0 (m h.world).1 next h e total kept bad

join_all-ok : (s : Socket) (rows : List ListItem) (h : Hub) → (join_all s rows h).0 ≡ ok tt
join_all-ok s [] h = refl
join_all-ok s (c ∷ rows) h = join_all-ok s rows (socket_join s (conversation_room c.id) h).1

-- A request that throws, whichever it is, is heard by nobody: no event is delivered, no push is sent, no
-- socket enters or leaves a room, and the services hand no event of their own to the emitter.
pub handle_request-IsQuiet :
    (o : Outside) (now : ℕ) (request : Request) (s : Socket) (h : Hub) (e : Error)
    → (handle_request o now request s h).0 ≡ err e
    → IsQuiet h (handle_request o now request s h).1
unfolding handle_request join_room handle_join_room handle_rejoin_rooms handle_leave_room
    handle_typing handle_stop_typing handle_send_message handle_unsend_message handle_delete_for_me
    handle_edit_message handle_mark_read handle_react_message handle_pin_message
    handle_unpin_message handle_heartbeat
handle_request-IsQuiet o now (joining c) s h e bad = ground (arith, bad)
handle_request-IsQuiet o now (leaving c) s h e bad = cc bad
handle_request-IsQuiet o now (typing c) s h e bad = cc bad
handle_request-IsQuiet o now (stopping c) s h e bad = cc bad
handle_request-IsQuiet o now rejoining s h e bad =
    after_call
      (get_user_conversations (λ a. is_online now (h.presences a)) now s.account_id
        max_conversations_to_rejoin none none)
      (λ page. join_all s page.items) h e (λ page h'. join_all-ok s page.items h')
      (ap (λ w. w.db.events)
        (get_user_conversations-AreOwn (λ a. is_online now (h.presences a)) now s.account_id
          max_conversations_to_rejoin none h.world).1)
      bad
handle_request-IsQuiet o now heartbeat s h e bad = cc bad
handle_request-IsQuiet o now (sending id ids dto) s h e bad =
    ground (arith, bad, send_message-events o.accepts now id ids s.account_id dto h.world)
handle_request-IsQuiet o now (unsending c raw) s h e bad =
    ground (arith, bad, chat_unsend-Keeps (λ db. db.events) now s.account_id c raw h.world)
handle_request-IsQuiet o now (deleting c id) s h e bad =
    ground (arith, bad, chat_delete_for_me-Keeps (λ db. db.events) now s.account_id c id h.world)
handle_request-IsQuiet o now (reading c id) s h e bad =
    ground (arith, bad, mark_read-events s.account_id c id h.world)
handle_request-IsQuiet o now (pinning c id) s h e bad =
    ground (arith, bad, chat_pin-Keeps (λ db. db.events) now s.account_id c id h.world)
handle_request-IsQuiet o now (unpinning c id) s h e bad =
    ground (arith, bad, chat_unpin-Keeps (λ db. db.events) now s.account_id c id h.world)
handle_request-IsQuiet o now (editing c id content) s h e bad =
    ground (arith, bad, chat_edit-Keeps (λ db. db.events) now s.account_id c id content h.world)
handle_request-IsQuiet o now (reacting c id emoji) s h e bad =
    ground (arith, bad, react_message-Keeps (λ db. db.events) now s.account_id c id emoji h.world)

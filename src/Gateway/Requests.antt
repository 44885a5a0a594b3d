-- ===== src/Gateway/Requests.antt =====
-- The requests of a socket, and the handler of each (src/chat/chat.gateway.ts).
use swift_chat_backend.Base.{ℕ, Bool, Option, List, String, Action}
use swift_chat_backend.Messages.{IdText}
use swift_chat_backend.Messages.Sending.{CreateMessage}
use swift_chat_backend.Push.{PushResponse}
use swift_chat_backend.Gateway.{Hub, Socket}
use swift_chat_backend.Gateway.Connecting.{handle_heartbeat}
use swift_chat_backend.Gateway.Handlers.{
  handle_join_room, handle_rejoin_rooms, handle_leave_room, handle_typing, handle_stop_typing,
  handle_send_message, handle_unsend_message, handle_delete_for_me, handle_edit_message,
  handle_mark_read, handle_react_message, handle_pin_message, handle_unpin_message,
}

pub data Request : Type 0 where
  joining leaving typing stopping : (conversation : ℕ) → Request
  rejoining heartbeat : Request
  sending : (id : ℕ) → (ids : ℕ → ℕ) → CreateMessage → Request
  unsending : (conversation : ℕ) → IdText → Request
  deleting reading pinning unpinning : (conversation message : ℕ) → Request
  editing : (conversation message : ℕ) → String → Request
  reacting : (conversation message emoji : ℕ) → Request

-- What is outside the repository.
pub record Outside : Type 0 where
  pub accepts : String → Bool
  pub ready : Bool
  pub respond : ℕ → List ℕ → Option (List PushResponse)

-- `@SubscribeMessage`
unfoldable pub handle_request : Outside → (now : ℕ) → Request → Socket → Action Hub (Unit {0})
handle_request o now (joining c) s = handle_join_room c s
handle_request o now (leaving c) s = handle_leave_room c s
handle_request o now (typing c) s = handle_typing c s
handle_request o now (stopping c) s = handle_stop_typing c s
handle_request o now rejoining s = handle_rejoin_rooms now s
handle_request o now heartbeat s = handle_heartbeat now s
handle_request o now (sending id ids dto) s =
    handle_send_message o.accepts o.ready o.respond now id ids dto s
handle_request o now (unsending c raw) s = handle_unsend_message now c raw s
handle_request o now (deleting c id) s = handle_delete_for_me now c id s
handle_request o now (reading c id) s = handle_mark_read c id s
handle_request o now (pinning c id) s = handle_pin_message now c id s
handle_request o now (unpinning c id) s = handle_unpin_message now c id s
handle_request o now (editing c id content) s = handle_edit_message now c id content s
handle_request o now (reacting c id emoji) s = handle_react_message now c id emoji s

-- ===== src/Conversations/Deleting.antt =====
-- `ConversationsController.deleteConversation` (src/conversations/conversations.controller.ts).
use swift_chat_backend.Base.{ℕ, Action, ◌>>=◌, if◌then◌else◌}
use swift_chat_backend.Db.{Db}
use swift_chat_backend.Group.{is_group}
use swift_chat_backend.Group.Leadership.{disband_group}
use swift_chat_backend.Conversations.{get_conversation_type, hide_direct_conversation}

unfoldable pub delete_conversation : (now account conversation : ℕ) → Action Db (Unit {0})
delete_conversation now a c = do
  type ← get_conversation_type c
  if is_group type then disband_group now a c else hide_direct_conversation now a c

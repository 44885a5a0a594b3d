-- ===== src/Conversations/Tests.antt =====
-- Examples for the properties of conversations.
use swift_chat_backend.Base.{◌≡◌, refl, false, ◌==◌, any, none, some, [], ◌∷◌, ok, map, arith}
use swift_chat_backend.Db.{leader, ConversationType}
use swift_chat_backend.Samples.{chats, conversation}
use swift_chat_backend.Group.{get_participant_role, distinct}
use swift_chat_backend.Group.Invariant.{IsLed}
use swift_chat_backend.Conversations.Creating.{create_group_conversation}
use swift_chat_backend.Group.{ensure_group_conversation}
use swift_chat_backend.Group.Leadership.{disband_group}
use swift_chat_backend.Conversations.{
  get_conversation_type, hide_direct_conversation, get_user_conversation_ids,
}
use swift_chat_backend.Conversations.Deleting.{delete_conversation}
use swift_chat_backend.Conversations.DeletingLaws.{is_still_listed, delete_conversation-listed}
use swift_chat_backend.Conversations.PagingLaws.{follow, shown, follow-all}
use swift_chat_backend.Messages.{World}
use swift_chat_backend.Conversations.CreatingLaws.{create_group_conversation-IsLed}

created : (create_group_conversation 50 9 1 (2 ∷ 1 ∷ 2 ∷ 3 ∷ []) none chats).0 ≡ ok 9
unfolding create_group_conversation distinct
created = refl

create_group_conversation-IsLed_example :
    let db' = (create_group_conversation 50 9 1 (2 ∷ 1 ∷ 2 ∷ 3 ∷ []) none chats).1 in
    IsLed 9 db'.participants × (get_participant_role 1 9 db' ≡ some leader)
create_group_conversation-IsLed_example =
    create_group_conversation-IsLed 50 9 1 (2 ∷ 1 ∷ 2 ∷ 3 ∷ []) none chats refl created

-- The two conversations changed at different times; a page has one of them.
abbrev mailbox : World
mailbox = record {
  db = record chats {
    conversations =
        record (conversation 7 ConversationType.group) { updated_at = 40 }
        ∷ record (conversation 8 ConversationType.direct) { updated_at = 60 }
        ∷ [];
  };
  messages = [];
  archive = [];
}

follow-all_example :
    follow (λ a. false) 70 1 1 none mailbox 3 none ≡ map (λ c. c.id) (shown 1 none mailbox.db)
follow-all_example = follow-all (λ a. false) 70 1 0 none mailbox 3 (refl, (refl, tt)) (omega arith)

delete_conversation-listed_example :
    any (λ i. i == 8) (get_user_conversation_ids 2 (delete_conversation 50 1 8 chats).1)
    ≡ is_still_listed ConversationType.direct 1 2
        (any (λ i. i == 8) (get_user_conversation_ids 2 chats))
unfolding get_conversation_type delete_conversation hide_direct_conversation
delete_conversation-listed_example =
    delete_conversation-listed 50 1 2 8 ConversationType.direct chats refl refl

-- The leader deletes the group: the third account is not shown it any more.
group_deleted : get_user_conversation_ids 3 (delete_conversation 50 1 7 chats).1 ≡ []
unfolding get_conversation_type delete_conversation disband_group ensure_group_conversation
    get_user_conversation_ids
group_deleted = refl

-- ===== src/Group/Leadership.antt =====
-- `GroupMemberService.disbandGroup`, `transferLeadership` and `updateMemberRole`.
use swift_chat_backend.Base.{
  ℕ, not, some, Action, gets, modify, raise_if, transaction, ◌>>=◌, ◌>>◌, ◌==◌, is_some, update,
}
use swift_chat_backend.Http.{
  bad_request, forbidden, not_found, only_leader_disbands, already_leader, only_leader_transfers,
  target_not_member, only_leader_changes_roles, cannot_assign_leader,
}
use swift_chat_backend.Db.{
  Db, Conversation, ParticipantRole, leader, member, emit, group_disbanded, group_role_changed,
}
use swift_chat_backend.Group.{is_leader, get_participant_role, ensure_group_conversation, set_role}
use swift_chat_backend.Group.Members.{has_role}

-- `disbandGroup`
unfoldable pub disband_group : (now actor conversation : ℕ) → Action Db (Unit {0})
disband_group now actor id = do
  ensure_group_conversation id
  role ← gets (get_participant_role actor id)
  raise_if (not (has_role is_leader role)) (forbidden only_leader_disbands)
  modify (λ db. record db { conversations = update (λ c. c.id == id) deleted db.conversations })
  emit (group_disbanded id actor)
  where
    deleted : Conversation → Conversation
    deleted c = record c { deleted_at = some now; updated_at = now }

-- `transferLeadership`
unfoldable pub transfer_leadership : (actor conversation target : ℕ) → Action Db (Unit {0})
transfer_leadership actor c target = do
  ensure_group_conversation c
  raise_if (actor == target) (bad_request already_leader)
  role ← gets (get_participant_role actor c)
  raise_if (not (has_role is_leader role)) (forbidden only_leader_transfers)
  target_role ← gets (get_participant_role target c)
  raise_if (not (is_some target_role)) (not_found target_not_member)
  transaction (set_role c actor member >> set_role c target leader)
  emit (group_role_changed c target leader actor)

-- `updateMemberRole`
unfoldable pub update_member_role :
    (actor conversation target : ℕ) → ParticipantRole → Action Db (Unit {0})
update_member_role actor c target role = do
  ensure_group_conversation c
  actor_role ← gets (get_participant_role actor c)
  raise_if (not (has_role is_leader actor_role)) (forbidden only_leader_changes_roles)
  raise_if (is_leader role) (bad_request cannot_assign_leader)
  target_role ← gets (get_participant_role target c)
  raise_if (not (is_some target_role)) (not_found target_not_member)
  set_role c target role
  emit (group_role_changed c target role actor)

-- ===== src/Group/Members.antt =====
-- `GroupMemberService.updateGroupInfo`, `addMembers`, `kickMember` and `leaveGroup`.
use swift_chat_backend.Base.{
  ℕ, Bool, false, not, ◌&&◌, Option, none, some, List, [], ◌∷◌, ◌++◌, String, map, Action, pure,
  gets, modify, raise_if, ◌>>=◌, ◌>>◌, ◌==◌, ltb, is_some, any, select, remove, update, count,
  length,
}
use swift_chat_backend.Http.{
  bad_request, forbidden, not_a_member, invalid_ids, self_kick, members_cannot_remove,
  deputies_remove_members, leader_must_resolve,
}
use swift_chat_backend.Db.{
  Db, Conversation, ParticipantRole, member, account_exists, emit, group_info_updated,
  group_member_added, group_you_added, group_member_removed,
}
use swift_chat_backend.Group.{
  is_leader, is_deputy, is_member, is_key, in_conversation, get_participant_role,
  ensure_group_conversation, delete_participant, new_participant, distinct,
}

-- What a field of the dto leaves where it is undefined.
abbrev pub or_keep : Option String → Option String → Option String
or_keep none old = old
or_keep (some new) old = some new

-- `updateGroupInfo`
unfoldable pub update_group_info :
    (now actor id : ℕ) → (title avatar_url : Option String) → Action Db (Unit {0})
update_group_info now actor id title avatar_url = do
  ensure_group_conversation id
  role ← gets (get_participant_role actor id)
  raise_if (not (is_some role)) (forbidden not_a_member)
  modify (λ db. record db { conversations = update (λ c. c.id == id) renamed db.conversations })
  emit (group_info_updated id actor)
  where
    renamed : Conversation → Conversation
    renamed c = record c {
      title = or_keep title c.title;
      avatar_url = or_keep avatar_url c.avatar_url;
      updated_at = now;
    }

-- The ids that are not among the participants: `distinctIds.filter(id => !existingIds.includes(id))`.
abbrev pub new_ids : (conversation : ℕ) → List ℕ → Db → List ℕ
new_ids c ids db = remove (λ a. any (is_key c a) db.participants) (distinct ids)

unfoldable pub emit_added : (conversation actor : ℕ) → List ℕ → Action Db (Unit {0})
emit_added c actor [] = pure tt
emit_added c actor (a ∷ ids) = emit (group_you_added a c actor) >> emit_added c actor ids

-- The rest of `addMembers`, over the new ids.
unfoldable pub add_new : (now actor conversation : ℕ) → List ℕ → Action Db ℕ
add_new now actor c [] = pure 0
add_new now actor c (a ∷ ids) = do
  valid ← gets (λ db. length (select (account_exists db) (a ∷ ids)))
  raise_if (not (valid == length (a ∷ ids))) (bad_request invalid_ids)
  modify (λ db. record db {
    participants = map (λ b. new_participant now c b member) (a ∷ ids) ++ db.participants;
  })
  emit (group_member_added c (a ∷ ids) actor)
  emit_added c actor (a ∷ ids)
  pure (length (a ∷ ids))

-- `addMembers`: the number of accounts that it adds.
unfoldable pub add_members : (now actor conversation : ℕ) → List ℕ → Action Db ℕ
add_members now actor c ids = do
  ensure_group_conversation c
  role ← gets (get_participant_role actor c)
  raise_if (not (is_some role)) (forbidden not_a_member)
  fresh ← gets (new_ids c ids)
  add_new now actor c fresh

abbrev pub has_role : (ParticipantRole → Bool) → Option ParticipantRole → Bool
has_role test none = false
has_role test (some role) = test role

-- `kickMember`
unfoldable pub kick_member : (actor conversation target : ℕ) → Action Db (Unit {0})
kick_member actor c target = do
  ensure_group_conversation c
  raise_if (actor == target) (bad_request self_kick)
  actor_role ← gets (get_participant_role actor c)
  raise_if (not (is_some actor_role)) (forbidden not_a_member)
  raise_if (has_role is_member actor_role) (forbidden members_cannot_remove)
  target_role ← gets (get_participant_role target c)
  raise_if (has_role is_deputy actor_role && not (has_role is_member target_role))
      (forbidden deputies_remove_members)
  delete_participant c target
  emit (group_member_removed c target actor)

-- `leaveGroup`
unfoldable pub leave_group : (actor conversation : ℕ) → Action Db (Unit {0})
leave_group actor c = do
  ensure_group_conversation c
  role ← gets (get_participant_role actor c)
  raise_if (not (is_some role)) (forbidden not_a_member)
  others ←
      gets (λ db. count (λ p. in_conversation c p && not (p.account_id == actor)) db.participants)
  raise_if (has_role is_leader role && ltb 0 others) (bad_request leader_must_resolve)
  delete_participant c actor
  emit (group_member_removed c actor actor)

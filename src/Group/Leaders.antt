-- ===== src/Group/Leaders.antt =====
-- Every call keeps one leader to a group, unless a leader changes his or her own role.
use native.Mathlib.Decide.{ℕ_discrete}
use swift_chat_backend.Base.{
  ℕ, ◌≡◌, ◌≢◌, inl, inr, some, List, [], ◌∷◌, arith, find, update, Option-cases,
}
use swift_chat_backend.Base.Rows.{find-any}
use swift_chat_backend.Db.{Db, Participant, ParticipantRole, leader, member}
use swift_chat_backend.Group.{is_key, with_role, ensure_group_conversation, distinct}
use swift_chat_backend.Group.Members.{
  update_group_info, add_members, add_new, new_ids, kick_member, leave_group,
}
use swift_chat_backend.Group.Leadership.{disband_group, transfer_leadership, update_member_role}
use swift_chat_backend.Group.Counting.{any-count}
use swift_chat_backend.Group.Invariant.{
  IsLed, IsLed-remove, IsLed-remove_last, IsLed-update, IsLed-transfer, IsLed-remove_other,
  IsLed-update_other, IsLed-join,
}
use swift_chat_backend.Group.Calls.{
  Call, update_info, add, kick, leave, disband, transfer, change_role, call, step, run, IsNotOnSelf,
  leads_as-role, leads_as-other, leads-one,
}
use swift_chat_backend.Group.Cases.{
  kick_member_cases, leave_group_cases, transfer_leadership_cases, update_member_role_cases,
  add_new-participants, AreNew-remove, Once-distinct,
}

-- A conversation `c`, and a call on a conversation `k`.
module _ (c : ℕ) (db : Db) (l : IsLed c db.participants) where
  kick_member-IsLed : (actor k target : ℕ) → IsLed c (kick_member actor k target db).1.participants
  kick_member-IsLed actor k target = elim (ℕ_discrete c k) [
    | no ne ↦
        kick_member_cases (IsLed c) actor k target db l
          (λ _ _. IsLed-remove_other c k target ne db.participants l)
    | yes e ↦ rw (← e) (
        kick_member_cases (IsLed c) actor c target db l (λ ne role.
          IsLed-remove c db.participants l target (elim role [
            | inl leading ↦ leads_as-other c db.participants l actor target ne leading
            | inr plain ↦ ground (arith, leads_as-role c db.participants l target, plain)
          ])))
  ]

  leave_group-IsLed : (actor k : ℕ) → IsLed c (leave_group actor k db).1.participants
  leave_group-IsLed actor k = elim (ℕ_discrete c k) [
    | no ne ↦
        leave_group_cases (IsLed c) actor k db l
          (λ _. IsLed-remove_other c k actor ne db.participants l)
    | yes e ↦ rw (← e) (
        leave_group_cases (IsLed c) actor c db l (λ why. elim why [
          | inl plain ↦
              IsLed-remove c db.participants l actor
                (ground (arith, leads_as-role c db.participants l actor, plain))
          | inr alone ↦ IsLed-remove_last c db.participants l actor alone
        ]))
  ]

  transfer_leadership-IsLed :
      (actor k target : ℕ) → IsLed c (transfer_leadership actor k target db).1.participants
  transfer_leadership-IsLed actor k target = elim (ℕ_discrete c k) [
    | no ne ↦ transfer_leadership_cases (IsLed c) actor k target db l (λ _ _ _.
        IsLed-update_other c k target ne
          (update (is_key k actor) (with_role member) db.participants)
          (IsLed-update_other c k actor ne db.participants l member) leader)
    | yes e ↦ rw (← e) (
        transfer_leadership_cases (IsLed c) actor c target db l (λ ne leading there.
          IsLed-transfer c db.participants l actor target ne
            (ground (arith, leads_as-role c db.participants l actor, leading))
            (ground (arith, l.once target, any-count (is_key c target) db.participants there))))
  ]

  update_member_role-IsLed :
      (actor k target : ℕ) (role : ParticipantRole)
      → actor ≢ target
      → IsLed c (update_member_role actor k target role db).1.participants
  update_member_role-IsLed actor k target role ne = elim (ℕ_discrete c k) [
    | no other ↦
        update_member_role_cases (IsLed c) actor k target role db l
          (λ _ _. IsLed-update_other c k target other db.participants l role)
    | yes e ↦ rw (← e) (
        update_member_role_cases (IsLed c) actor c target role db l (λ leading plain.
          IsLed-update c db.participants l target role
            (leads_as-other c db.participants l actor target ne leading) plain))
  ]

add_members-IsLed :
    (c : ℕ) (db : Db)
    → IsLed c db.participants
    → (now actor k : ℕ) (ids : List ℕ) → IsLed c (add_members now actor k ids db).1.participants
unfolding add_members ensure_group_conversation
add_members-IsLed c db l now actor k ids =
    elim (Option-cases (find (is_key k actor) db.participants)) [
      | inl e ↦ ground (arith, e, l)
      | inr (p, e) ↦ ground (arith, e, l, added p e)
    ]
  where
    added :
        (p : Participant)
        → find (is_key k actor) db.participants ≡ some p
        → IsLed c (add_new now actor k (new_ids k ids db) db).1.participants
    added p e = elim (add_new-participants now actor k (new_ids k ids db) db) [
      | inl same ↦ rw same l
      | inr more ↦ rw more (
          IsLed-join now k c (new_ids k ids db) db.participants
            (AreNew-remove k db.participants (distinct ids) (Once-distinct ids))
            (λ ck.
              leads-one c db.participants l actor
                (rw ck (find-any (is_key k actor) db.participants p e)))
            l)
    ]

step-IsLed :
    (c : ℕ) (x : Call) (db : Db)
    → IsNotOnSelf x
    → IsLed c db.participants
    → IsLed c (step x db).participants
unfolding call update_group_info disband_group ensure_group_conversation
step-IsLed c (update_info now actor id title avatar_url) db n l = ground (arith, l)
step-IsLed c (add now actor k ids) db n l = ground (arith, add_members-IsLed c db l now actor k ids)
step-IsLed c (kick actor k target) db n l = kick_member-IsLed c db l actor k target
step-IsLed c (leave actor k) db n l = leave_group-IsLed c db l actor k
step-IsLed c (disband now actor k) db n l = ground (arith, l)
step-IsLed c (transfer actor k target) db n l = transfer_leadership-IsLed c db l actor k target
step-IsLed c (change_role actor k target role) db n l =
    update_member_role-IsLed c db l actor k target role n

abbrev pub NoneOnSelf : List Call → Type 0
NoneOnSelf [] = Unit
NoneOnSelf (x ∷ calls) = IsNotOnSelf x × NoneOnSelf calls

-- A group with one leader, or with nobody in it, stays so, with one row to an account, through any
-- sequence of calls on this group and on others, whether they return or throw. Condition: no call
-- of `updateMemberRole` has its caller as its target.
pub run-IsLed :
    (c : ℕ) (calls : List Call) (db : Db)
    → NoneOnSelf calls
    → IsLed c db.participants
    → IsLed c (run calls db).participants
unfolding run
run-IsLed c [] db n l = l
run-IsLed c (x ∷ calls) db n l = run-IsLed c calls (step x db) n.1 (step-IsLed c x db n.0 l)

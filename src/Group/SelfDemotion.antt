-- ===== src/Group/SelfDemotion.antt =====
-- A leader may give up the role by `updateMemberRole`, and then nobody ever leads the group again.
use native.Mathlib.Decide.{ℕ_discrete}
use swift_chat_backend.Base.{
  ℕ, ◌≤◌, ◌≡◌, ◌≢◌, ◌⊎◌, inl, inr, refl, sym, true, false, none, some, List, [], ◌∷◌, arith, ◌==◌,
  find, remove, update, count, Option-cases, ok, false_of, ◌∙◌,
}
use mathlib.Core.Bool.{false≢true}
use swift_chat_backend.Base.Rows.{find-any, find-any_other, find_holds}
use swift_chat_backend.Db.{Db, Participant, Conversation, ParticipantRole, leader, member}
use swift_chat_backend.Group.{
  is_leader, is_group, is_key, with_role, get_participant_role, ensure_group_conversation, set_role,
}
use swift_chat_backend.Group.Members.{update_group_info, add_members, has_role, add_new, new_ids}
use swift_chat_backend.Group.Leadership.{disband_group, transfer_leadership, update_member_role}
use swift_chat_backend.Group.Counting.{leads, leads-update, count-remove_and, any-count}
use swift_chat_backend.Group.Invariant.{IsLed, count-joined-leads, joined}
use swift_chat_backend.Group.Calls.{
  Call, update_info, add, kick, leave, disband, transfer, change_role, call, step, run,
  leads_as-role, leads-le_one,
}
use swift_chat_backend.Group.Cases.{
  kick_member_cases, leave_group_cases, transfer_leadership_cases, update_member_role_cases,
  add_new-participants,
}

-- An active group.
abbrev pub IsActiveGroup : ℕ → Db → Type 0
IsActiveGroup c db =
    (g : Conversation) × (find (λ x. x.id == c) db.conversations ≡ some g)
    × (is_group g.type ≡ true)
    × (g.deleted_at ≡ none)

-- The leader `a` of an active group calls `updateMemberRole` with `a` as the target and another role:
-- the call returns, and the group has no leader.
pub update_member_role-on_self :
    (c a : ℕ) (role : ParticipantRole) (db : Db)
    → IsActiveGroup c db
    → IsLed c db.participants
    → has_role is_leader (get_participant_role a c db) ≡ true
    → is_leader role ≡ false
    → let (result, db') = update_member_role a c a role db in
      (result ≡ ok tt) × (count (leads c) db'.participants ≡ 0)
unfolding update_member_role ensure_group_conversation set_role
update_member_role-on_self c a role db g l leading plain =
    elim (Option-cases (find (is_key c a) db.participants)) [
      | inl e ↦ ground (arith, e)
      | inr (p, e) ↦ ground (
        arith,
        e,
        g,
        find-any (is_key c a) db.participants p e,
        leads-update c a role db.participants,
        leads_as-role c db.participants l a,
        leads-le_one c db.participants l,
      )
    ]

abbrev pub IsLeaderless : ℕ → Db → Type 0
IsLeaderless c db = count (leads c) db.participants ≡ 0

-- Without a leader no role in the group is that of a leader.
no_leading_role :
    (c a : ℕ) (db : Db)
    → IsLeaderless c db
    → has_role is_leader (get_participant_role a c db) ≡ false
no_leading_role c a db none_leads = elim (Option-cases (find (is_key c a) db.participants)) [
  | inl e ↦ rw e refl
  | inr (p, e) ↦ rw e (
      false_of (is_leader p.role) (λ h. absurd (
        omega (
          arith,
          any-count (leads c) db.participants (
              find-any_other (is_key c a) (leads c) db.participants p e
                (ground (arith, find_holds (is_key c a) db.participants p e, h))),
          none_leads,
        ))))
]

-- In a group without a leader nobody can disband it, transfer it or change a role.
pub leaderless_stuck :
    (c a b now : ℕ) (role : ParticipantRole) (db : Db)
    → IsLeaderless c db
    → ((disband_group now a c db).0 ≢ ok tt)
      × ((transfer_leadership a c b db).0 ≢ ok tt)
      × ((update_member_role a c b role db).0 ≢ ok tt)
unfolding disband_group transfer_leadership update_member_role ensure_group_conversation
leaderless_stuck c a b now role db none_leads =
    let plain = no_leading_role c a db none_leads in
    (λ h. ground (arith, plain), λ h. ground (arith, plain), λ h. ground (arith, plain))

leads-update_le :
    (c k a : ℕ) (role : ParticipantRole) (rows : List Participant)
    → (c ≢ k) ⊎ (is_leader role ≡ false)
    → count (leads c) (update (is_key k a) (with_role role) rows) ≤ count (leads c) rows
leads-update_le c k a role [] h = omega arith
leads-update_le c k a role (x ∷ rows) h = ground (arith, leads-update_le c k a role rows h)

module _ (c : ℕ) (db : Db) (none_leads : IsLeaderless c db) where
  abbrev NoLeads : List Participant → Type 0
  NoLeads rows = count (leads c) rows ≡ 0

  removed : (k a : ℕ) → NoLeads (remove (is_key k a) db.participants)
  removed k a = omega (arith, count-remove_and (leads c) (is_key k a) db.participants)

  transferred :
      (actor k target : ℕ) → NoLeads (transfer_leadership actor k target db).1.participants
  transferred actor k target =
      transfer_leadership_cases NoLeads actor k target db none_leads (λ ne leading there.
        elim (ℕ_discrete c k) [
          | yes e ↦ absurd (false≢true (sym (no_leading_role c actor db none_leads) ∙ rw e leading))
          | no other ↦ omega (
            arith,
            leads-update_le c k target leader
                (update (is_key k actor) (with_role member) db.participants) (inl other),
            leads-update_le c k actor member db.participants (inr refl),
          )
        ])

  changed :
      (actor k target : ℕ) (role : ParticipantRole)
      → NoLeads (update_member_role actor k target role db).1.participants
  changed actor k target role =
      update_member_role_cases NoLeads actor k target role db none_leads (λ leading plain.
        omega (arith, leads-update_le c k target role db.participants (inr plain)))

  added : (now actor k : ℕ) (ids : List ℕ) → NoLeads (add_members now actor k ids db).1.participants
  unfolding add_members ensure_group_conversation
  added now actor k ids =
      ground (arith, all (add_new-participants now actor k (new_ids k ids db) db))
    where
      all :
          ((add_new now actor k (new_ids k ids db) db).1.participants ≡ db.participants)
            ⊎ ((add_new now actor k (new_ids k ids db) db).1.participants
                ≡ joined now k (new_ids k ids db) db.participants)
          → NoLeads (add_new now actor k (new_ids k ids db) db).1.participants
      all (inl e) = rw e none_leads
      all (inr e) =
          rw e (count-joined-leads now k c (new_ids k ids db) db.participants ∙ none_leads)

IsLeaderless-step : (c : ℕ) (x : Call) (db : Db) → IsLeaderless c db → IsLeaderless c (step x db)
unfolding call update_group_info disband_group ensure_group_conversation
IsLeaderless-step c (update_info now actor id title avatar_url) db l = ground arith
IsLeaderless-step c (add now actor k ids) db l = ground (arith, added c db l now actor k ids)
IsLeaderless-step c (kick actor k target) db l =
    kick_member_cases (NoLeads c db l) actor k target db l (λ _ _. removed c db l k target)
IsLeaderless-step c (leave actor k) db l =
    leave_group_cases (NoLeads c db l) actor k db l (λ _. removed c db l k actor)
IsLeaderless-step c (disband now actor k) db l = ground arith
IsLeaderless-step c (transfer actor k target) db l = transferred c db l actor k target
IsLeaderless-step c (change_role actor k target role) db l = changed c db l actor k target role

-- A group without a leader stays without one through any sequence of calls on groups, and after it
-- nobody can disband the group, transfer it or change a role in it.
pub IsLeaderless-run :
    (c a b now : ℕ) (role : ParticipantRole) (calls : List Call) (db : Db)
    → IsLeaderless c db
    → let db' = run calls db in
      IsLeaderless c db'
      × ((disband_group now a c db').0 ≢ ok tt)
      × ((transfer_leadership a c b db').0 ≢ ok tt)
      × ((update_member_role a c b role db').0 ≢ ok tt)
unfolding run
IsLeaderless-run c a b now role [] db l =
    let stuck = leaderless_stuck c a b now role db l in (l, stuck.0, stuck.1, stuck.2)
IsLeaderless-run c a b now role (x ∷ calls) db l =
    IsLeaderless-run c a b now role calls (step x db) (IsLeaderless-step c x db l)

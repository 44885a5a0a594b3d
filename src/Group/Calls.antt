-- ===== src/Group/Calls.antt =====
-- The calls of `GroupMemberService`, and who leads after each.
use swift_chat_backend.Base.{
  ℕ, ◌≤◌, ◌≡◌, ◌≢◌, inl, inr, true, Option, List, [], ◌∷◌, String, arith, any, find, count,
  if◌then◌else◌, Action, pure, ◌>>=◌, Option-cases,
}
use swift_chat_backend.Db.{Db, Participant, ParticipantRole}
use swift_chat_backend.Group.{is_leader, is_key, in_conversation, role_of}
use swift_chat_backend.Group.Members.{
  update_group_info, add_members, kick_member, leave_group, has_role,
}
use swift_chat_backend.Group.Leadership.{disband_group, transfer_leadership, update_member_role}
use swift_chat_backend.Group.Counting.{
  leads, leads_as, leads_as-some, leads_as-none, leads_as_two, count_mono, any-count,
}
use swift_chat_backend.Group.Invariant.{IsLed}

pub data Call : Type 0 where
  update_info : (now actor id : ℕ) → (title avatar_url : Option String) → Call
  add : (now actor conversation : ℕ) → List ℕ → Call
  kick : (actor conversation target : ℕ) → Call
  leave : (actor conversation : ℕ) → Call
  disband : (now actor conversation : ℕ) → Call
  transfer : (actor conversation target : ℕ) → Call
  change_role : (actor conversation target : ℕ) → ParticipantRole → Call

-- A call, with its value left out.
unfoldable pub call : Call → Action Db (Unit {0})
call (update_info now actor id title avatar_url) = update_group_info now actor id title avatar_url
call (add now actor c ids) = add_members now actor c ids >>= λ _. pure tt
call (kick actor c target) = kick_member actor c target
call (leave actor c) = leave_group actor c
call (disband now actor c) = disband_group now actor c
call (transfer actor c target) = transfer_leadership actor c target
call (change_role actor c target role) = update_member_role actor c target role

abbrev pub step : Call → Db → Db
step x db = (call x db).1

unfoldable pub run : List Call → Db → Db
run [] db = db
run (x ∷ calls) db = run calls (step x db)

-- Not the call by which a leader changes his or her own role.
abbrev pub IsNotOnSelf : Call → Type 0
IsNotOnSelf (change_role actor c target role) = actor ≢ target
IsNotOnSelf _ = Unit

module _ (c : ℕ) (rows : List Participant) (l : IsLed c rows) where
  -- The stored role of an account says whether it leads.
  pub leads_as-role :
      (a : ℕ)
      → count (leads_as c a) rows
        ≡ (if has_role is_leader (role_of (find (is_key c a) rows)) then 1 else 0)
  leads_as-role a = elim (Option-cases (find (is_key c a) rows)) [
    | inl e ↦ rw e (leads_as-none c a rows e).1
    | inr (p, e) ↦ rw e (leads_as-some c a rows p (l.once a) e)
  ]

  pub leads-le_one : count (leads c) rows ≤ 1
  leads-le_one =
      ground (arith, l.led, count_mono (leads c) (in_conversation c) rows (λ r h. ground arith))

  -- Beside the leader nobody leads.
  pub leads_as-other :
      (a b : ℕ)
      → a ≢ b
      → has_role is_leader (role_of (find (is_key c a) rows)) ≡ true
      → count (leads_as c b) rows ≡ 0
  leads_as-other a b ne e =
      ground (arith, leads-le_one, leads_as_two c a b rows ne, leads_as-role a)

  pub leads-one : (a : ℕ) → any (is_key c a) rows ≡ true → count (leads c) rows ≡ 1
  leads-one a e = ground (
    arith,
    l.led,
    any-count (is_key c a) rows e,
    count_mono (is_key c a) (in_conversation c) rows (λ r h. ground arith),
  )

-- ===== src/Group/Cases.antt =====
-- What the methods of `GroupMemberService` may do to the participants.
use swift_chat_backend.Base.{
  ℕ, ◌≡◌, ◌≢◌, ◌⊎◌, inl, inr, refl, sym, Bool, true, false, not, ◌&&◌, List, [], ◌∷◌, arith, ◌==◌,
  any, find, remove, update, count, Option-cases, false_of,
}
use swift_chat_backend.Base.Rows.{find-any, any-remove_le, any-remove_covered}
use swift_chat_backend.Db.{
  Db, Participant, ParticipantRole, leader, member, group_you_added, group_member_added,
}
use swift_chat_backend.Group.{
  is_leader, is_member, is_key, in_conversation, with_role, get_participant_role,
  ensure_group_conversation, delete_participant, set_role, distinct,
}
use swift_chat_backend.Group.Members.{add_new, emit_added, kick_member, leave_group, has_role}
use swift_chat_backend.Group.Leadership.{transfer_leadership, update_member_role}
use swift_chat_backend.Group.Invariant.{AreNew, joined}

pub kick_member_cases :
    (P : List Participant → Type 0) (actor k target : ℕ) (db : Db)
    → P db.participants
    → (actor ≢ target
        → (has_role is_leader (get_participant_role actor k db) ≡ true)
          ⊎ (has_role is_member (get_participant_role target k db) ≡ true)
        → P (remove (is_key k target) db.participants))
    → P (kick_member actor k target db).1.participants
unfolding kick_member ensure_group_conversation delete_participant
kick_member_cases P actor k target db same gone =
    elim (Option-cases (find (λ c. c.id == k) db.conversations)) [
      | inl e ↦ ground (arith, e, same)
      | inr (g, e) ↦ elim (Option-cases (find (is_key k actor) db.participants)) [
        | inl e' ↦ ground (arith, e, e', same)
        | inr (p, e') ↦ elim (Option-cases (find (is_key k target) db.participants)) [
          | inl e'' ↦ ground (arith, e, e', e'', same, gone)
          | inr (q, e'') ↦ ground (arith, e, e', e'', same, gone)
        ]
      ]
    ]

pub leave_group_cases :
    (P : List Participant → Type 0) (actor k : ℕ) (db : Db)
    → P db.participants
    → ((has_role is_leader (get_participant_role actor k db) ≡ false)
          ⊎ (count (λ p. in_conversation k p && not (p.account_id == actor)) db.participants ≡ 0)
        → P (remove (is_key k actor) db.participants))
    → P (leave_group actor k db).1.participants
unfolding leave_group ensure_group_conversation delete_participant
leave_group_cases P actor k db same gone =
    elim (Option-cases (find (λ c. c.id == k) db.conversations)) [
      | inl e ↦ ground (arith, e, same)
      | inr (g, e) ↦ elim (Option-cases (find (is_key k actor) db.participants)) [
        | inl e' ↦ ground (arith, e, e', same)
        | inr (p, e') ↦ ground (arith, e, e', same, gone)
      ]
    ]

pub transfer_leadership_cases :
    (P : List Participant → Type 0) (actor k target : ℕ) (db : Db)
    → P db.participants
    → (actor ≢ target
        → has_role is_leader (get_participant_role actor k db) ≡ true
        → any (is_key k target) db.participants ≡ true
        → P (
            update
              (is_key k target)
              (with_role leader)
              (update (is_key k actor) (with_role member) db.participants)))
    → P (transfer_leadership actor k target db).1.participants
unfolding transfer_leadership ensure_group_conversation set_role
transfer_leadership_cases P actor k target db same done =
    elim (Option-cases (find (λ c. c.id == k) db.conversations)) [
      | inl e ↦ ground (arith, e, same)
      | inr (g, e) ↦ elim (Option-cases (find (is_key k actor) db.participants)) [
        | inl e' ↦ ground (arith, e, e', same)
        | inr (p, e') ↦ elim (Option-cases (find (is_key k target) db.participants)) [
          | inl e'' ↦ ground (arith, e, e', e'', same)
          | inr (q, e'') ↦
              ground
                (arith, e, e', e'', same, done, find-any (is_key k target) db.participants q e'')
        ]
      ]
    ]

pub update_member_role_cases :
    (P : List Participant → Type 0) (actor k target : ℕ) (role : ParticipantRole) (db : Db)
    → P db.participants
    → (has_role is_leader (get_participant_role actor k db) ≡ true
        → is_leader role ≡ false
        → P (update (is_key k target) (with_role role) db.participants))
    → P (update_member_role actor k target role db).1.participants
unfolding update_member_role ensure_group_conversation set_role
update_member_role_cases P actor k target role db same done =
    elim (Option-cases (find (λ c. c.id == k) db.conversations)) [
      | inl e ↦ ground (arith, e, same)
      | inr (g, e) ↦ elim (Option-cases (find (is_key k actor) db.participants)) [
        | inl e' ↦ ground (arith, e, e', same)
        | inr (p, e') ↦ ground (arith, e, e', same, done)
      ]
    ]

emit_added-participants :
    (k actor : ℕ) (ids : List ℕ) (db : Db)
    → (emit_added k actor ids db).1.participants ≡ db.participants
unfolding emit_added
emit_added-participants k actor [] db = refl
emit_added-participants k actor (a ∷ ids) db =
    emit_added-participants k actor ids
      (record db { events = group_you_added a k actor ∷ db.events })

pub add_new-participants :
    (now actor k : ℕ) (ids : List ℕ) (db : Db)
    → let db' = (add_new now actor k ids db).1 in
      (db'.participants ≡ db.participants) ⊎ (db'.participants ≡ joined now k ids db.participants)
unfolding add_new
add_new-participants now actor k [] db = inl refl
add_new-participants now actor k (a ∷ ids) db = ground (
  arith,
  emit_added-participants k actor (a ∷ ids) (record db {
    participants = joined now k (a ∷ ids) db.participants;
    events = group_member_added k (a ∷ ids) actor ∷ db.events;
  }),
)

-- What is new is new: each id once, and none in the conversation.
-- Each once.
abbrev pub Once : List ℕ → Type 0
Once [] = Unit
Once (a ∷ ids) = (any (λ y. y == a) ids ≡ false) × Once ids

pub Once-remove : (p : ℕ → Bool) (ids : List ℕ) → Once ids → Once (remove p ids)
Once-remove p [] o = tt
Once-remove p (a ∷ ids) o = ground (
  arith,
  Once-remove p ids o.1,
  false_of (any (λ y. y == a) (remove p ids))
      (λ h. cc (sym o.0, any-remove_le (λ y. y == a) p ids h)),
)

pub Once-distinct : (ids : List ℕ) → Once (distinct ids)
unfolding distinct
Once-distinct [] = tt
Once-distinct (a ∷ ids) = (
  any-remove_covered (λ y. y == a) (λ y. y == a) (distinct ids) (λ r h. h),
  Once-remove (λ y. y == a) (distinct ids) (Once-distinct ids),
)

pub AreNew-remove :
    (k : ℕ) (rows : List Participant) (ids : List ℕ)
    → Once ids
    → AreNew k (remove (λ a. any (is_key k a) rows) ids) rows
AreNew-remove k rows [] o = tt
AreNew-remove k rows (a ∷ ids) o = ground (
  arith,
  AreNew-remove k rows ids o.1,
  false_of (any (λ y. y == a) (remove (λ b. any (is_key k b) rows) ids))
      (λ h. cc (sym o.0, any-remove_le (λ y. y == a) (λ b. any (is_key k b) rows) ids h)),
)

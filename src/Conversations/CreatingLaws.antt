-- ===== src/Conversations/CreatingLaws.antt =====
-- What a created conversation is.
use Prim.Native.String.{String}
use swift_chat_backend.Base.{
  ℕ, ◌≡◌, refl, inl, false, Option, some, List, [], ◌∷◌, arith, ◌==◌, ok, any,
}
use swift_chat_backend.Base.Rows.{any-remove_covered}
use swift_chat_backend.Db.{Db, Participant, leader}
use swift_chat_backend.Group.{
  is_key, in_conversation, new_participant, distinct, get_participant_role,
}
use swift_chat_backend.Group.Counting.{leads, count_mono, count-none}
use swift_chat_backend.Group.Invariant.{
  IsLed, AreNew, joined, count-joined-leads, once-joined, count-joined_key,
}
use swift_chat_backend.Group.Cases.{Once, Once-remove, Once-distinct}
use swift_chat_backend.Conversations.Creating.{create_group_conversation, other_members}

any-empty :
    (c a : ℕ) (rows : List Participant)
    → any (in_conversation c) rows ≡ false
    → any (is_key c a) rows ≡ false
any-empty c a [] e = refl
any-empty c a (p ∷ rows) e = ground (arith, any-empty c a rows)

AreNew-empty :
    (c : ℕ) (ids : List ℕ) (rows : List Participant)
    → any (in_conversation c) rows ≡ false
    → Once ids
    → AreNew c ids rows
AreNew-empty c [] rows e o = tt
AreNew-empty c (a ∷ ids) rows e o = (o.0, any-empty c a rows e, AreNew-empty c ids rows e o.1)

-- The rows of a new group, of which the creator leads.
IsLed-create :
    (now c creator : ℕ) (ids : List ℕ) (rows : List Participant)
    → any (in_conversation c) rows ≡ false
    → IsLed c (new_participant now c creator leader ∷ joined now c (other_members creator ids) rows)
IsLed-create now c creator ids rows e =
    let others = other_members creator ids in
    let once = Once-remove (λ a. a == creator) (distinct ids) (Once-distinct ids) in
    let absent =
      any-remove_covered (λ a. a == creator) (λ a. a == creator) (distinct ids) (λ r h. h) in
    record {
      once = λ a. ground (
        arith,
        once-joined now c c a others rows (AreNew-empty c others rows e once),
        count-none (is_key c a) rows (any-empty c a rows e),
        count-joined_key now c creator others rows absent (any-empty c creator rows e),
      );
      led = inl (
          ground (
            arith,
            count-joined-leads now c c others rows,
            count_mono (leads c) (in_conversation c) rows (λ r h. ground arith),
            count-none (in_conversation c) rows e,
          ));
    }

-- A group that is created under an id that no participant has yet has exactly one leader, its
-- creator, and each account once, however often the request names an account or the creator.
pub create_group_conversation-IsLed :
    (now c creator : ℕ) (ids : List ℕ) (title : Option String) (db : Db)
    → any (in_conversation c) db.participants ≡ false
    → (create_group_conversation now c creator ids title db).0 ≡ ok c
    → let db' = (create_group_conversation now c creator ids title db).1 in
      IsLed c db'.participants × (get_participant_role creator c db' ≡ some leader)
unfolding create_group_conversation
create_group_conversation-IsLed now c creator ids title db e done =
    ground (arith, IsLed-create now c creator ids db.participants e)

-- ===== src/Group/Invariant.antt =====
-- One leader to a group: what the changes of the participants keep.
use native.Mathlib.Decide.{ℕ_discrete}
use swift_chat_backend.Base.{
  ℕ, ◌≤◌, ◌≡◌, ◌≢◌, ◌⊎◌, inl, inr, refl, Bool, true, false, not, ◌&&◌, List, [], ◌∷◌, ◌++◌, map,
  arith, ◌==◌, any, remove, update, count,
}
use swift_chat_backend.Db.{Participant, ParticipantRole, leader, member}
use swift_chat_backend.Group.{is_leader, is_key, in_conversation, with_role, new_participant}
use swift_chat_backend.Group.Counting.{
  count-remove_and, count-update_and, count-update_keeps, count-none, count-leads_as, leads-update,
  count-same, count_mono, count-never, leads, leads_as, leads_as_two, count-others,
}

-- Every account has at most one row in the conversation, and the conversation has exactly one
-- leader, or nobody is left in it.
pub record IsLed (c : ℕ) (rows : List Participant) : Type 0 where
  pub once : (a : ℕ) → count (is_key c a) rows ≤ 1
  pub led : (count (leads c) rows ≡ 1) ⊎ (count (in_conversation c) rows ≡ 0)

module _ (c : ℕ) (rows : List Participant) (l : IsLed c rows) where
  -- An account that does not lead goes.
  pub IsLed-remove : (a : ℕ) → count (leads_as c a) rows ≡ 0 → IsLed c (remove (is_key c a) rows)
  IsLed-remove a none_leads = record {
    once = λ b. omega (arith, count-remove_and (is_key c b) (is_key c a) rows, l.once b);
    led = ground (
      arith,
      l.led,
      count-remove_and (leads c) (is_key c a) rows,
      count-leads_as c a rows,
      count-remove_and (in_conversation c) (is_key c a) rows,
    );
  }

  -- The last one goes.
  pub IsLed-remove_last :
      (a : ℕ)
      → count (λ p. in_conversation c p && not (p.account_id == a)) rows ≡ 0
      → IsLed c (remove (is_key c a) rows)
  IsLed-remove_last a alone = record {
    once = λ b. omega (arith, count-remove_and (is_key c b) (is_key c a) rows, l.once b);
    led = inr (
        omega (
          arith,
          count-remove_and (in_conversation c) (is_key c a) rows,
          count-others c a rows,
          count-same (λ r. in_conversation c r && is_key c a r) (is_key c a) rows
              (λ r. ground arith),
        ));
  }

  -- An account that does not lead gets a role that does not.
  pub IsLed-update :
      (a : ℕ) (role : ParticipantRole)
      → count (leads_as c a) rows ≡ 0
      → is_leader role ≡ false
      → IsLed c (update (is_key c a) (with_role role) rows)
  IsLed-update a role none_leads plain = record {
    once = λ b. omega (
      arith,
      count-update_keeps (is_key c b) (is_key c a) (with_role role) rows (λ r. refl),
      l.once b,
    );
    led = ground (
      arith,
      l.led,
      leads-update c a role rows,
      count-update_keeps (in_conversation c) (is_key c a) (with_role role) rows (λ r. refl),
    );
  }

  -- The leader `a` hands over to `b`.
  pub IsLed-transfer :
      (a b : ℕ)
      → a ≢ b
      → count (leads_as c a) rows ≡ 1
      → count (is_key c b) rows ≡ 1
      → IsLed c
          (update (is_key c b) (with_role leader) (update (is_key c a) (with_role member) rows))
  IsLed-transfer a b ne leads_now there = record {
    once = λ d. omega (
      arith,
      count-update_keeps (is_key c d) (is_key c b) (with_role leader)
          (update (is_key c a) (with_role member) rows) (λ r. refl),
      count-update_keeps (is_key c d) (is_key c a) (with_role member) rows (λ r. refl),
      l.once d,
    );
    led = inl (
        ground (
          arith,
          l.led,
          count_mono (is_key c b) (in_conversation c) rows (λ r h. ground arith),
          leads-update c a member rows,
          leads_as_two c a b rows ne,
          leads-update c b leader (update (is_key c a) (with_role member) rows),
          count_mono (leads_as c b) (leads c) (update (is_key c a) (with_role member) rows)
              (λ r h. ground arith),
          count-update_keeps (is_key c b) (is_key c a) (with_role member) rows (λ r. refl),
        ));
  }

-- A change of another conversation.
module _ (c k a : ℕ) (ne : c ≢ k) (rows : List Participant) (l : IsLed c rows) where
  other :
      (p : Participant → Bool)
      → ((r : Participant) → p r ≡ true → in_conversation c r ≡ true)
      → count (λ r. p r && is_key k a r) rows ≡ 0
  other p within = count-never _ rows (λ r. ground (arith, within r))

  pub IsLed-remove_other : IsLed c (remove (is_key k a) rows)
  IsLed-remove_other = record {
    once = λ b. omega (arith, count-remove_and (is_key c b) (is_key k a) rows, l.once b);
    led = ground (
      arith,
      l.led,
      count-remove_and (leads c) (is_key k a) rows,
      other (leads c) (λ r h. ground arith),
      count-remove_and (in_conversation c) (is_key k a) rows,
    );
  }

  pub IsLed-update_other :
      (role : ParticipantRole) → IsLed c (update (is_key k a) (with_role role) rows)
  IsLed-update_other role = record {
    once = λ b. omega (
      arith,
      count-update_keeps (is_key c b) (is_key k a) (with_role role) rows (λ r. refl),
      l.once b,
    );
    led = ground (
      arith,
      l.led,
      count-update_and (leads c) (is_key k a) (with_role role) rows,
      other (leads c) (λ r h. ground arith),
      count-never (λ r. leads c (with_role role r) && is_key k a r) rows (λ r. ground arith),
      count-update_keeps (in_conversation c) (is_key k a) (with_role role) rows (λ r. refl),
    );
  }

-- New members, of this conversation or another: each once, none of them there yet.
abbrev pub AreNew : (k : ℕ) → List ℕ → List Participant → Type 0
AreNew k [] rows = Unit
AreNew k (a ∷ ids) rows =
    (any (λ b. b == a) ids ≡ false) × (any (is_key k a) rows ≡ false) × AreNew k ids rows

abbrev pub joined : (now k : ℕ) → List ℕ → List Participant → List Participant
joined now k ids rows = map (λ b. new_participant now k b member) ids ++ rows

pub count-joined_key :
    (now k a : ℕ) (ids : List ℕ) (rows : List Participant)
    → any (λ b. b == a) ids ≡ false
    → any (is_key k a) rows ≡ false
    → count (is_key k a) (joined now k ids rows) ≡ 0
count-joined_key now k a [] rows u v = count-none (is_key k a) rows v
count-joined_key now k a (b ∷ ids) rows u v = ground (arith, count-joined_key now k a ids rows)

pub count-joined-leads :
    (now k c : ℕ) (ids : List ℕ) (rows : List Participant)
    → count (leads c) (joined now k ids rows) ≡ count (leads c) rows
count-joined-leads now k c [] rows = refl
count-joined-leads now k c (b ∷ ids) rows = ground (arith, count-joined-leads now k c ids rows)

count-joined_other :
    (now k c : ℕ) (ids : List ℕ) (rows : List Participant)
    → c ≢ k
    → count (in_conversation c) (joined now k ids rows) ≡ count (in_conversation c) rows
count-joined_other now k c [] rows ne = refl
count-joined_other now k c (b ∷ ids) rows ne = ground (arith, count-joined_other now k c ids rows)

pub once-joined :
    (now k c a : ℕ) (ids : List ℕ) (rows : List Participant)
    → AreNew k ids rows
    → count (is_key c a) rows ≤ 1
    → count (is_key c a) (joined now k ids rows) ≤ 1
once-joined now k c a [] rows n u = u
once-joined now k c a (b ∷ ids) rows n u =
    ground (arith, once-joined now k c a ids rows n.2, count-joined_key now k b ids rows n.0 n.1)

-- The members join a conversation that has its leader.
pub IsLed-join :
    (now k c : ℕ) (ids : List ℕ) (rows : List Participant)
    → AreNew k ids rows
    → (c ≡ k → count (leads c) rows ≡ 1)
    → IsLed c rows
    → IsLed c (joined now k ids rows)
IsLed-join now k c ids rows new has_leader l = record {
  once = λ a. once-joined now k c a ids rows new (l.once a);
  led = elim (ℕ_discrete c k) [
    | yes e ↦ inl (rw (count-joined-leads now k c ids rows) (has_leader e))
    | no ne ↦
        ground (
          arith,
          l.led,
          count-joined-leads now k c ids rows,
          count-joined_other now k c ids rows ne,
        )
  ];
}

-- ===== src/Group/Counting.antt =====
-- Counting the participants of a conversation, its leaders and the rows of one account.
use swift_chat_backend.Base.{
  ℕ, ◌+◌, ◌≤◌, ◌≡◌, ◌≢◌, refl, Bool, true, false, not, ◌&&◌, none, some, List, [], ◌∷◌, arith, ◌==◌,
  any, find, remove, update, count, if◌then◌else◌,
}
use swift_chat_backend.Db.{Participant, ParticipantRole}
use swift_chat_backend.Group.{is_leader, is_key, in_conversation, with_role}

module _ {ℓ} {A : Type ℓ} (p q : A → Bool) where
  pub count-remove_and :
      (rows : List A) → count p (remove q rows) + count (λ r. p r && q r) rows ≡ count p rows
  count-remove_and [] = refl
  count-remove_and (x ∷ rows) = ground (arith, count-remove_and rows)

  pub count-update_and :
      (f : A → A) (rows : List A)
      → count p (update q f rows) + count (λ r. p r && q r) rows
        ≡ count p rows + count (λ r. p (f r) && q r) rows
  count-update_and f [] = refl
  count-update_and f (x ∷ rows) = ground (arith, count-update_and f rows)

  pub count-update_keeps :
      (f : A → A) (rows : List A)
      → ((r : A) → p (f r) ≡ p r)
      → count p (update q f rows) ≡ count p rows
  count-update_keeps f [] h = refl
  count-update_keeps f (x ∷ rows) h = ground (arith, h x, count-update_keeps f rows h)

  pub count_mono :
      (rows : List A) → ((r : A) → p r ≡ true → q r ≡ true) → count p rows ≤ count q rows
  count_mono [] h = omega arith
  count_mono (x ∷ rows) h = ground (arith, h x, count_mono rows h)

  pub count-same : (rows : List A) → ((r : A) → p r ≡ q r) → count p rows ≡ count q rows
  count-same [] h = refl
  count-same (x ∷ rows) h = ground (arith, h x, count-same rows h)

pub any-count {ℓ} :
    {A : Type ℓ} (p : A → Bool) (rows : List A) → any p rows ≡ true → 1 ≤ count p rows
any-count p [] h = cc
any-count p (x ∷ rows) h = ground (arith, any-count p rows)

pub count-never {ℓ} :
    {A : Type ℓ} (p : A → Bool) (rows : List A) → ((r : A) → p r ≡ false) → count p rows ≡ 0
count-never p [] h = refl
count-never p (x ∷ rows) h = ground (arith, h x, count-never p rows h)

pub count-none {ℓ} :
    {A : Type ℓ} (p : A → Bool) (rows : List A) → any p rows ≡ false → count p rows ≡ 0
count-none p [] h = refl
count-none p (x ∷ rows) h = ground (arith, count-none p rows)

-- A leader of the conversation.
abbrev pub leads : ℕ → Participant → Bool
leads c p = p.conversation_id == c && is_leader p.role

-- The account as a leader of the conversation.
abbrev pub leads_as : (conversation account : ℕ) → Participant → Bool
leads_as c a p = is_key c a p && is_leader p.role

module _ (c a : ℕ) where
  -- The one row of an account says whether the account leads.
  pub leads_as-some :
      (rows : List Participant) (p : Participant)
      → count (is_key c a) rows ≤ 1
      → find (is_key c a) rows ≡ some p
      → count (leads_as c a) rows ≡ (if is_leader p.role then 1 else 0)
  leads_as-some [] p u e = cc
  leads_as-some (x ∷ rows) p u e = ground (
    arith,
    leads_as-some rows p,
    count_mono (leads_as c a) (is_key c a) rows (λ r h. ground arith),
  )

  pub leads_as-none :
      (rows : List Participant)
      → find (is_key c a) rows ≡ none
      → (count (is_key c a) rows ≡ 0) × (count (leads_as c a) rows ≡ 0)
  leads_as-none [] e = (refl, refl)
  leads_as-none (x ∷ rows) e = ground (arith, leads_as-none rows)

  -- Two accounts that lead are two leaders.
  pub leads_as_two :
      (b : ℕ) (rows : List Participant)
      → a ≢ b
      → count (leads_as c a) rows + count (leads_as c b) rows ≤ count (leads c) rows
  leads_as_two b [] ne = omega arith
  leads_as_two b (x ∷ rows) ne = ground (arith, leads_as_two b rows)

  -- The conversation is the account and the others.
  pub count-others :
      (rows : List Participant)
      → count (in_conversation c) rows
        ≡ count (is_key c a) rows + count (λ p. in_conversation c p && not (p.account_id == a)) rows
  count-others [] = refl
  count-others (x ∷ rows) = ground (arith, count-others rows)

-- A role written to the row of an account, and the leaders.
pub count-leads_as :
    (c a : ℕ) (rows : List Participant)
    → count (λ r. leads c r && is_key c a r) rows ≡ count (leads_as c a) rows
count-leads_as c a rows = count-same _ (leads_as c a) rows (λ r. ground arith)

pub leads-update :
    (c a : ℕ) (role : ParticipantRole) (rows : List Participant)
    → count (leads c) (update (is_key c a) (with_role role) rows) + count (leads_as c a) rows
      ≡ count (leads c) rows + (if is_leader role then count (is_key c a) rows else 0)
leads-update c a role [] = ground arith
leads-update c a role (x ∷ rows) = ground (arith, leads-update c a role rows)

-- ===== src/Push/TargetLaws.antt =====
-- Whom a push message reaches (src/fcm/fcm.service.ts).
use swift_chat_backend.Base.{
  ℕ, ◌≡◌, refl, inl, inr, ap, ◌∙◌, Bool, true, false, not, ◌&&◌, ◌||◌, Option, none, some, List, [],
  ◌∷◌, map, arith, ◌==◌, any, select, remove, Bool-cases, Option-cases,
}
use swift_chat_backend.Base.Rows.{any-append}
use swift_chat_backend.Db.{Db, DeviceToken, Participant}
use swift_chat_backend.Conversations.{is_later}
use swift_chat_backend.Group.{in_conversation}
use swift_chat_backend.Push.{
  is_device, PushResponse, tokens_of, is_unmuted, other_participants, presence_results,
  without_present, told_participants, invalid_tokens, dead_tokens, all_tokens, all_dead,
  send_push_to_offline_participants,
}

abbrev pub owns : (account token : ℕ) → DeviceToken → Bool
owns a token d = d.account_id == a && d.token == token

any-tokens :
    (a token : ℕ) (rows : List DeviceToken)
    → any (λ t. t == token) (map (λ d. d.token) (select (λ d. d.account_id == a) rows))
      ≡ any (owns a token) rows
any-tokens a token [] = refl
any-tokens a token (d ∷ rows) = ground (arith, any-tokens a token rows)

-- Whether a device is one of the accounts of the rows.
abbrev pub reaches : (token : ℕ) → Db → Participant → Bool
reaches token db p = any (owns p.account_id token) db.device_tokens

any-all_tokens :
    (token : ℕ) (rows : List Participant) (db : Db)
    → any (λ t. t == token) (all_tokens rows db) ≡ any (reaches token db) rows
any-all_tokens token [] db = refl
any-all_tokens token (r ∷ rows) db =
    any-append (λ t. t == token) (tokens_of r.account_id db) _
    ∙ ap (λ b. b || any (λ t. t == token) (all_tokens rows db))
        (any-tokens r.account_id token db.device_tokens)
    ∙ ap (λ b. reaches token db r || b) (any-all_tokens token rows db)

any-without_present :
    (q : Participant → Bool) (is_online : ℕ → Bool) (rows : List Participant)
    → any q (without_present rows (presence_results is_online rows))
      ≡ any (λ p. not (is_online p.account_id) && q p) rows
any-without_present q is_online [] = refl
any-without_present q is_online (p ∷ rows) = ground (arith, any-without_present q is_online rows)

is_unmuted-is_later :
    (now : ℕ) (p : Participant) → is_unmuted now p ≡ not (is_later now p.muted_until)
is_unmuted-is_later now p = elim (Option-cases p.muted_until) [
  | inl e ↦ ground (arith, e)
  | inr (t, e) ↦ ground (arith, e)
]

-- A participant of the conversation who is not the sender, for whom the conversation is not muted (the
-- test of `isConversationMuted`), and who is offline.
abbrev pub is_target : (is_online : ℕ → Bool) → (now conversation sender : ℕ) → Participant → Bool
is_target is_online now c sender p =
    p.conversation_id == c
    && (not (p.account_id == sender)
        && (not (is_later now p.muted_until) && not (is_online p.account_id)))

any-told :
    (q : Participant → Bool) (is_online : ℕ → Bool) (now c sender : ℕ) (rows : List Participant)
    → any
        (λ p. not (is_online p.account_id) && q p)
        (select
          (is_unmuted now)
          (select (λ p. in_conversation c p && not (p.account_id == sender)) rows))
      ≡ any (λ p. is_target is_online now c sender p && q p) rows
any-told q is_online now c sender [] = refl
any-told q is_online now c sender (p ∷ rows) =
    ground (arith, is_unmuted-is_later now p, any-told q is_online now c sender rows)

any-invalid :
    (token : ℕ) (tokens : List ℕ) (responses : List PushResponse)
    → any (λ t. t == token) tokens ≡ false
    → any (λ t. t == token) (invalid_tokens tokens responses) ≡ false
any-invalid token [] responses e = refl
any-invalid token (t ∷ tokens) [] e = refl
any-invalid token (t ∷ tokens) (r ∷ responses) e =
    ground (arith, e, any-invalid token tokens responses)

any-dead :
    (token : ℕ) (tokens : List ℕ) (answer : Option (List PushResponse))
    → any (λ t. t == token) tokens ≡ false
    → any (λ t. t == token) (dead_tokens tokens answer) ≡ false
any-dead token tokens none e = refl
any-dead token tokens (some responses) e = any-invalid token tokens responses e

any-kept :
    (token : ℕ) (tokens : List ℕ) (rows : List DeviceToken)
    → any (λ t. t == token) tokens ≡ false
    → any (is_device token) (remove (λ d. any (λ t. d.token == t) tokens) rows)
      ≡ any (is_device token) rows
any-kept token tokens [] e = refl
any-kept token tokens (d ∷ rows) e = elim (Bool-cases (is_device token d)) [
  | inl same ↦
      let absent : any (λ t. d.token == t) tokens ≡ false = none-same d.token token tokens same e in
      ground (arith, same, absent)
  | inr e' ↦ elim (Bool-cases (any (λ t. d.token == t) tokens)) [
    | inl h ↦ ground (arith, e', h, any-kept token tokens rows e)
    | inr h ↦ ground (arith, e', h, any-kept token tokens rows e)
  ]
]
  where
    none-same :
        (k v : ℕ) (xs : List ℕ)
        → (k == v) ≡ true
        → any (λ t. t == v) xs ≡ false
        → any (λ t. k == t) xs ≡ false
    none-same k v [] i n = refl
    none-same k v (x ∷ xs) i n = ground (arith, i, n, none-same k v xs i)

module _ (ready : Bool) (respond : (account : ℕ) → List ℕ → Option (List PushResponse)) where
  any-all_dead :
      (token : ℕ) (rows : List Participant) (db : Db)
      → any (λ t. t == token) (all_tokens rows db) ≡ false
      → any (λ t. t == token) (all_dead ready respond rows db) ≡ false
  any-all_dead token [] db e = refl
  any-all_dead token (p ∷ rows) db e =
      let tokens = tokens_of p.account_id db in
      let answer = respond p.account_id tokens in
      ground (
        arith,
        e,
        any-append (λ t. t == token) tokens (all_tokens rows db),
        any-append (λ t. t == token) (dead_tokens tokens answer) (all_dead ready respond rows db),
        any-dead token tokens answer,
        any-all_dead token rows db,
      )

  -- The message about a new message goes to a device exactly if it is one of a participant of the
  -- conversation who is not the sender, for whom `isConversationMuted` says no at that time, and who is
  -- offline; without a working Firebase it goes to none. A device that it does not go to is
  -- registered afterwards exactly if it was before, whatever Firebase answers.
  pub send_push-targets :
      (is_online : ℕ → Bool) (now c sender token : ℕ) (db : Db)
      → let (sent, db') =
          send_push_to_offline_participants ready respond is_online now c sender db in
        let is_sent = any (λ t. t == token) sent in
        (is_sent ≡ (
          ready
          && any (λ p. is_target is_online now c sender p && reaches token db p) db.participants))
        × ((any (is_device token) db'.device_tokens && not is_sent)
            ≡ (any (is_device token) db.device_tokens && not is_sent))
  unfolding send_push_to_offline_participants
  send_push-targets is_online now c sender token db =
      let told = told_participants is_online now c sender db in
      let targets =
        any-all_tokens token told db
        ∙ any-without_present (reaches token db) is_online
            (select (is_unmuted now) (other_participants c sender db))
        ∙ any-told (reaches token db) is_online now c sender db.participants in
      elim (Bool-cases ready) [
        | inr e ↦ ground (arith, e)
        | inl e ↦ elim (Bool-cases (any (λ t. t == token) (all_tokens told db))) [
          | inl sent ↦ ground (arith, e, sent, targets)
          | inr silent ↦ ground (
            arith,
            e,
            silent,
            targets,
            any-kept token (all_dead ready respond told db) db.device_tokens
                (any-all_dead token told db silent),
          )
        ]
      ]

-- ===== src/Messages/ReactingLaws.antt =====
-- What `toggleReaction` keeps: an account has at most one reaction to a message.
use swift_chat_backend.Base.{
  ℕ, ◌≤◌, ◌≡◌, refl, inl, inr, Bool, false, none, some, List, [], ◌∷◌, arith, ok, any, find, count,
  All, Option-cases, Bool-cases, false_of, ==_refl,
}
use swift_chat_backend.Base.Rows.{
  update_first, find_holds, find-any_other, find-none, any-count_zero, any-remove_covered,
  any-append,
}
use swift_chat_backend.Base.Firsts.{
  All-update_first, find-update_first, count-append, count-remove_le, remove-append, find-append,
}
use swift_chat_backend.Messages.{
  Message, World, Model, hot, archived, rows_of, has_id, find_one_and_update,
}
use swift_chat_backend.Messages.Reacting.{
  is_reaction_of, is_reacted, pulled, reaction, pushed, replace_reaction, toggle_reaction,
  is_same_emoji,
}

abbrev pub HasSingleReactions : Message → Type 0
HasSingleReactions m = (a : ℕ) → count (is_reaction_of a) m.reactions ≤ 1

-- Each message of the two collections.
pub record IsSingle (w : World) : Type 0 where
  pub in_messages : All HasSingleReactions w.messages
  pub in_archive : All HasSingleReactions w.archive

pulled-single :
    (now a : ℕ) (m : Message) → HasSingleReactions m → HasSingleReactions (pulled now a m)
pulled-single now a m h b =
    ground (arith, h b, count-remove_le (is_reaction_of b) (is_reaction_of a) m.reactions)

pushed-single :
    (now a emoji : ℕ) (m : Message)
    → HasSingleReactions m
    → any (is_reaction_of a) m.reactions ≡ false
    → HasSingleReactions (pushed now a emoji m)
pushed-single now a emoji m h e b = ground (
  arith,
  h b,
  count-append (is_reaction_of b) m.reactions (reaction now a emoji ∷ []),
  any-count_zero (is_reaction_of a) m.reactions e,
)

pulled-free : (now a : ℕ) (m : Message) → any (is_reaction_of a) (pulled now a m).reactions ≡ false
pulled-free now a m =
    any-remove_covered (is_reaction_of a) (is_reaction_of a) m.reactions (λ r h. h)

find_one_and_update-IsSingle :
    (c : Model) (q : Message → Bool) (f : Message → Message) (w : World)
    → ((m : Message)
        → HasSingleReactions m
        → find q (rows_of c w) ≡ some m
        → HasSingleReactions (f m))
    → IsSingle w
    → IsSingle (find_one_and_update c q f w).1
find_one_and_update-IsSingle hot q f w h s = record {
  in_messages = All-update_first HasSingleReactions q f w.messages h s.in_messages;
  in_archive = s.in_archive;
}
find_one_and_update-IsSingle archived q f w h s = record {
  in_messages = s.in_messages;
  in_archive = All-update_first HasSingleReactions q f w.archive h s.in_archive;
}

module _ (now id a emoji : ℕ) where
  -- After the reactions of the account are pulled, the message has none of it.
  find-pulled :
      (rows : List Message) (m : Message)
      → find (has_id id) (update_first (has_id id) (pulled now a) rows) ≡ some m
      → any (is_reaction_of a) m.reactions ≡ false
  find-pulled rows m e = elim (Option-cases (find (has_id id) rows)) [
    | inl n ↦ ground (arith, e, n, find-update_first (has_id id) (pulled now a) rows (λ x h. h))
    | inr (x, s) ↦ ground (
      arith,
      e,
      s,
      find-update_first (has_id id) (pulled now a) rows (λ x h. h),
      pulled-free now a x,
    )
  ]

  rows_of-update :
      (c : Model) (q : Message → Bool) (f : Message → Message) (w : World)
      → rows_of c (find_one_and_update c q f w).1 ≡ update_first q f (rows_of c w)
  rows_of-update hot q f w = refl
  rows_of-update archived q f w = refl

  replace_reaction-IsSingle :
      (c : Model) (x : Message) (w : World)
      → IsSingle w
      → IsSingle (replace_reaction now id a emoji c x w).1
  replace_reaction-IsSingle c x w s =
      let pull =
        find_one_and_update-IsSingle c (has_id id) (pulled now a) w
          (λ m h _. pulled-single now a m h) s in
      let w' = (find_one_and_update c (has_id id) (pulled now a) w).1 in
      elim (Bool-cases (is_same_emoji emoji (find (is_reaction_of a) x.reactions))) [
        | inl e ↦ rw (e, replace_reaction) pull
        | inr e ↦
            rw (e, replace_reaction)
              (find_one_and_update-IsSingle c (has_id id) (pushed now a emoji) w'
                (λ m h f. pushed-single now a emoji m h (
                  find-pulled (rows_of c w) m
                    (rw (rows_of-update c (has_id id) (pulled now a) w) at f)))
                pull)
      ]

  -- A message that no query found with a reaction of the account has none of it.
  unreacted :
      (rows : List Message) (m : Message)
      → find (is_reacted id a) rows ≡ none
      → find (has_id id) rows ≡ some m
      → any (is_reaction_of a) m.reactions ≡ false
  unreacted rows m n e = false_of (any (is_reaction_of a) m.reactions) (λ t. ground (
    arith,
    t,
    find-none (is_reacted id a) rows n,
    find_holds (has_id id) rows m e,
    find-any_other (has_id id) (is_reacted id a) rows m e,
  ))

  push_in-IsSingle :
      (c : Model) (w : World)
      → find (is_reacted id a) (rows_of c w) ≡ none
      → IsSingle w
      → IsSingle (find_one_and_update c (has_id id) (pushed now a emoji) w).1
  push_in-IsSingle c w n s =
      find_one_and_update-IsSingle c (has_id id) (pushed now a emoji) w
        (λ m h f. pushed-single now a emoji m h (unreacted (rows_of c w) m n f)) s

-- With at most one reaction of each account to each message, `toggleReaction` leaves it so, whatever the
-- emoji and in whichever of the two collections the message is.
pub toggle_reaction-IsSingle :
    (now id a emoji : ℕ) (w : World) → IsSingle w → IsSingle (toggle_reaction now id a emoji w).1
unfolding toggle_reaction
toggle_reaction-IsSingle now id a emoji w s =
    elim (Option-cases (find (is_reacted id a) w.messages)) [
      | inr (x, e) ↦ rw e (replace_reaction-IsSingle now id a emoji hot x w s)
      | inl e ↦ elim (Option-cases (find (is_reacted id a) w.archive)) [
        | inr (x, e') ↦ rw (e, e') (replace_reaction-IsSingle now id a emoji archived x w s)
        | inl e' ↦
            let first = push_in-IsSingle now id a emoji hot w e s in
            let w' = (find_one_and_update hot (has_id id) (pushed now a emoji) w).1 in
            elim (Option-cases (find (has_id id) w.messages)) [
              | inr (x, f) ↦ rw (e, e', f) first
              | inl f ↦ rw (e, e', f) (push_in-IsSingle now id a emoji archived w' e' first)
            ]
      ]
    ]

find-pushed :
    (now id a emoji : ℕ) (rows : List Message) (m : Message)
    → find (has_id id) rows ≡ some m
    → find (is_reacted id a) (update_first (has_id id) (pushed now a emoji) rows)
      ≡ some (pushed now a emoji m)
find-pushed now id a emoji [] m e = cc
find-pushed now id a emoji (x ∷ rows) m e = ground (
  arith,
  find-pushed now id a emoji rows m,
  any-append (is_reaction_of a) x.reactions (reaction now a emoji ∷ []),
)

-- An account that has not reacted to a recent message reacts and, at any later time, reacts with the
-- same emoji again: both calls answer, the first with the reaction added at the end, the second with
-- the reactions that the message had before.
pub toggle_reaction-twice :
    (now later id a emoji : ℕ) (w : World) (m : Message)
    → find (has_id id) w.messages ≡ some m
    → find (is_reacted id a) w.messages ≡ none
    → find (is_reacted id a) w.archive ≡ none
    → let first = toggle_reaction now id a emoji w in
      (first.0 ≡ ok (some (pushed now a emoji m)))
      × ((n : Message) × (((toggle_reaction later id a emoji first.1).0 ≡ ok (some n))
            × (n.reactions ≡ m.reactions)))
unfolding toggle_reaction
toggle_reaction-twice now later id a emoji w m e n n' =
    let free = unreacted now id a emoji w.messages m n e in
    (
      ground (arith, e, n, n'),
      (
        pulled later a (pushed now a emoji m),
        (
          ground (
            arith,
            e,
            n,
            n',
            find-pushed now id a emoji w.messages m e,
            find-append (is_reaction_of a) m.reactions (reaction now a emoji) free (==_refl a),
            find-update_first (has_id id) (pushed now a emoji) w.messages (λ x h. h),
          ),
          remove-append (is_reaction_of a) m.reactions (reaction now a emoji) free (==_refl a),
        ),
      ),
    )

-- ===== src/Users/Handles.antt =====
-- The loop of `UserService.create` that draws a handle (src/user/user.service.ts).
use swift_chat_backend.Base.{
  ℕ, ◌≤◌, ◌<◌, ◌≡◌, inl, inr, Bool, true, false, none, some, List, [], ◌∷◌, arith, ◌==◌, any,
  remove, length, All, Option-cases,
}
use swift_chat_backend.Base.Rows.{any-remove_other}
use swift_chat_backend.Db.{Db, Profile}
use swift_chat_backend.Users.{has_handle, draw_handle}

abbrev pub AreDistinct : List ℕ → Type 0
AreDistinct [] = Unit
AreDistinct (h ∷ hs) = (any (λ x. x == h) hs ≡ false) × AreDistinct hs

abbrev IsTaken : List Profile → ℕ → Type 0
IsTaken rows h = any (has_handle h) rows ≡ true

length-remove_le : (p : Profile → Bool) (rows : List Profile) → length (remove p rows) ≤ length rows
length-remove_le p [] = omega arith
length-remove_le p (r ∷ rows) = ground (arith, length-remove_le p rows)

length-remove_lt :
    (p : Profile → Bool) (rows : List Profile)
    → any p rows ≡ true
    → length (remove p rows) < length rows
length-remove_lt p [] e = cc
length-remove_lt p (r ∷ rows) e =
    ground (arith, e, length-remove_le p rows, length-remove_lt p rows)

-- Without the profiles that have one of the handles, the other handles are taken as before.
All-IsTaken :
    (h : ℕ) (hs : List ℕ) (rows : List Profile)
    → any (λ x. x == h) hs ≡ false
    → All (IsTaken rows) hs
    → All (IsTaken (remove (has_handle h) rows)) hs
All-IsTaken h [] rows new taken = tt
All-IsTaken h (x ∷ hs) rows new taken = ground (
  arith,
  new,
  taken.0,
  any-remove_other (has_handle x) (has_handle h) rows (λ r e. ground (arith, e, new)),
  All-IsTaken h hs rows (ground (arith, new)) taken.1,
)

-- Handles that are all taken are no more than the profiles.
length-taken :
    (hs : List ℕ) (rows : List Profile)
    → AreDistinct hs
    → All (IsTaken rows) hs
    → length hs ≤ length rows
length-taken [] rows d taken = omega arith
length-taken (h ∷ hs) rows d taken = omega (
  arith,
  length-remove_lt (has_handle h) rows taken.0,
  length-taken hs (remove (has_handle h) rows) d.1 (All-IsTaken h hs rows d.0 taken.1),
)

draw_handle-none : (hs : List ℕ) (db : Db) → draw_handle hs db ≡ none → All (IsTaken db.profiles) hs
unfolding draw_handle
draw_handle-none [] db e = tt
draw_handle-none (h ∷ hs) db e = ground (arith, e, draw_handle-none hs db)

draw_handle-free :
    (hs : List ℕ) (h : ℕ) (db : Db)
    → draw_handle hs db ≡ some h
    → any (has_handle h) db.profiles ≡ false
unfolding draw_handle
draw_handle-free [] h db e = cc
draw_handle-free (x ∷ hs) h db e = ground (arith, e, draw_handle-free hs h db)

-- The loop of `create` ends once more different handles were drawn than there are profiles, and the
-- handle that it ends with is that of no profile.
pub draw_handle-ends :
    (hs : List ℕ) (db : Db)
    → AreDistinct hs
    → length db.profiles < length hs
    → (h : ℕ) × (draw_handle hs db ≡ some h) × (any (has_handle h) db.profiles ≡ false)
draw_handle-ends hs db d lt = elim (Option-cases (draw_handle hs db)) [
  | inl e ↦ absurd (omega (arith, lt, length-taken hs db.profiles d (draw_handle-none hs db e)))
  | inr (h, e) ↦ (h, e, draw_handle-free hs h db e)
]

-- ===== src/Base/Descending.antt =====
-- Lists in strictly descending order of a key: what sorting gives where the key is unique, and how a
-- page ends at a cursor.
use Prim.Native.Nat.{ℕ, zero, suc, ◌<◌}
use mathlib.Core.Path.{◌≡◌, refl, sym, ap, ◌∙◌}
use mathlib.Core.Logic.{inl, inr}
use mathlib.Core.Bool.{Bool, false}
use mathlib.Core.Option.{Option, none, some}
use mathlib.Core.List.{List, [], ◌∷◌}
use native.Mathlib.Omega.{arith}
use swift_chat_backend.Base.Tests.{◌==◌, ltb, if◌then◌else◌, Bool-cases}
use swift_chat_backend.Base.Rows.{any, select, take, drop, All}
use swift_chat_backend.Base.Slices.{All-take}
use swift_chat_backend.Base.Keys.{HasKey}
use swift_chat_backend.Base.Sorting.{insert_desc, sort_desc}

module _ {A : Type 0} where
  abbrev pub last : List A → Option A
  last [] = none
  last (r ∷ []) = some r
  last (r ∷ x ∷ rows) = last (x ∷ rows)

  pub last-All : (P : A → Type 0) (rows : List A) (r : A) → last rows ≡ some r → All P rows → P r
  last-All P [] r e h = cc
  last-All P (x ∷ []) r e h = ground (arith, e, h.0)
  last-All P (x ∷ y ∷ rows) r e h = last-All P (y ∷ rows) r e h.1

module _ {A : Type 0} (key : A → ℕ) where
  abbrev IsBelow : ℕ → A → Type 0
  IsBelow t x = key x < t

  abbrev pub IsDescending : List A → Type 0
  IsDescending [] = Unit
  IsDescending (r ∷ rows) = All (IsBelow (key r)) rows × IsDescending rows

  IsBelow-trans : (s t : ℕ) (rows : List A) → s < t → All (IsBelow s) rows → All (IsBelow t) rows
  IsBelow-trans s t [] lt a = tt
  IsBelow-trans s t (x ∷ rows) lt a = (omega (arith, a.0), IsBelow-trans s t rows lt a.1)

  insert_desc-IsBelow :
      (t : ℕ) (a : A) (rows : List A)
      → key a < t
      → All (IsBelow t) rows
      → All (IsBelow t) (insert_desc key a rows)
  insert_desc-IsBelow t a [] lt h = (lt, tt)
  insert_desc-IsBelow t a (b ∷ rows) lt h = elim (Bool-cases (ltb (key a) (key b))) [
    | inl e ↦ rw e (h.0, insert_desc-IsBelow t a rows lt h.1)
    | inr e ↦ rw e (lt, h)
  ]

  insert_desc-IsDescending :
      (a : A) (rows : List A)
      → any (λ x. key x == key a) rows ≡ false
      → IsDescending rows
      → IsDescending (insert_desc key a rows)
  insert_desc-IsDescending a [] e d = (tt, tt)
  insert_desc-IsDescending a (b ∷ rows) e d = elim (Bool-cases (ltb (key a) (key b))) [
    | inl h ↦ rw h (
      insert_desc-IsBelow (key b) a rows (ground (arith, h)) d.0,
      insert_desc-IsDescending a rows (ground (arith, e)) d.1,
    )
    | inr h ↦
        let lt : key b < key a = ground (arith, e, h) in
        rw h ((lt, IsBelow-trans (key b) (key a) rows lt d.0), d)
  ]

  any-insert_desc :
      (p : A → Bool) (a : A) (rows : List A) → any p (insert_desc key a rows) ≡ any p (a ∷ rows)
  any-insert_desc p a [] = refl
  any-insert_desc p a (b ∷ rows) = ground (arith, any-insert_desc p a rows)

  any-sort_desc : (p : A → Bool) (rows : List A) → any p (sort_desc key rows) ≡ any p rows
  any-sort_desc p [] = refl
  any-sort_desc p (a ∷ rows) =
      ground (arith, any-insert_desc p a (sort_desc key rows), any-sort_desc p rows)

  pub sort_desc-IsDescending : (rows : List A) → HasKey key rows → IsDescending (sort_desc key rows)
  sort_desc-IsDescending [] u = tt
  sort_desc-IsDescending (a ∷ rows) u =
      insert_desc-IsDescending a (sort_desc key rows)
        (any-sort_desc (λ x. key x == key a) rows ∙ u.0) (sort_desc-IsDescending rows u.1)

  All-select : (P : A → Type 0) (p : A → Bool) (rows : List A) → All P rows → All P (select p rows)
  All-select P p [] h = tt
  All-select P p (x ∷ rows) h = ground (arith, All-select P p rows h.1)

  pub select-IsDescending :
      (p : A → Bool) (rows : List A) → IsDescending rows → IsDescending (select p rows)
  select-IsDescending p [] d = tt
  select-IsDescending p (x ∷ rows) d = elim (Bool-cases (p x)) [
    | inl e ↦ rw e (All-select (IsBelow (key x)) p rows d.0, select-IsDescending p rows d.1)
    | inr e ↦ rw e (select-IsDescending p rows d.1)
  ]

  insert_desc-first :
      (a : A) (rows : List A) → All (IsBelow (key a)) rows → insert_desc key a rows ≡ a ∷ rows
  insert_desc-first a [] h = refl
  insert_desc-first a (b ∷ rows) h = ground (arith, h.0)

  select-insert_desc :
      (p : A → Bool) (a : A) (rows : List A)
      → any (λ x. key x == key a) rows ≡ false
      → IsDescending rows
      → select p (insert_desc key a rows)
        ≡ (if p a then insert_desc key a (select p rows) else select p rows)
  select-insert_desc p a [] e d = ground arith
  select-insert_desc p a (b ∷ rows) e d = elim (Bool-cases (ltb (key a) (key b))) [
    | inl h ↦ ground (arith, h, select-insert_desc p a rows (ground (arith, e)) d.1)
    | inr h ↦
        let lt : key b < key a = ground (arith, e, h) in
        ground (
          arith,
          h,
          insert_desc-first a (select p rows)
              (All-select (IsBelow (key a)) p rows (IsBelow-trans (key b) (key a) rows lt d.0)),
        )
  ]

  -- Sorting and selecting commute.
  pub sort_desc-select :
      (p : A → Bool) (rows : List A)
      → HasKey key rows
      → sort_desc key (select p rows) ≡ select p (sort_desc key rows)
  sort_desc-select p [] u = refl
  sort_desc-select p (a ∷ rows) u = ground (
    arith,
    sort_desc-select p rows u.1,
    select-insert_desc p a (sort_desc key rows) (any-sort_desc (λ x. key x == key a) rows ∙ u.0)
        (sort_desc-IsDescending rows u.1),
  )

  select-below :
      (t : ℕ) (rows : List A) → All (IsBelow t) rows → select (λ x. ltb (key x) t) rows ≡ rows
  select-below t [] h = refl
  select-below t (x ∷ rows) h = ground (arith, h.0, select-below t rows h.1)

  at_first :
      (x : A) (rows : List A)
      → All (IsBelow (key x)) rows
      → select (λ y. ltb (key y) (key x)) (x ∷ rows) ≡ rows
  at_first x rows h = ground (arith, select-below (key x) rows h)

  -- The rows below the last one of a page are those that follow the page.
  pub select-after :
      (n : ℕ) (rows : List A) (r : A)
      → IsDescending rows
      → last (take (suc n) rows) ≡ some r
      → select (λ x. ltb (key x) (key r)) rows ≡ drop (suc n) rows
  select-after n [] r d e = cc
  select-after zero (x ∷ rows) r d e =
      let same : x ≡ r = ground (arith, e) in
      ap (λ z. select (λ y. ltb (key y) (key z)) (x ∷ rows)) (sym same) ∙ at_first x rows d.0
  select-after (suc n) (x ∷ []) r d e =
      let same : x ≡ r = ground (arith, e) in rw (← same) (ground arith)
  select-after (suc n) (x ∷ y ∷ rows) r d e =
      let lt : key r < key x =
        last-All (IsBelow (key x)) (take (suc n) (y ∷ rows)) r e
          (All-take (IsBelow (key x)) (suc n) (y ∷ rows) d.0) in
      ground (arith, lt, select-after n (y ∷ rows) r d.1 e)

-- ===== src/Base/Rows.antt =====
-- Tables and collections as lists of rows, with the queries that the services make: a test on a row
-- stands for a `where` object.
use Prim.Native.Nat.{ℕ, zero, suc, ◌+◌}
use mathlib.Core.Path.{◌≡◌, refl}
use mathlib.Core.Bool.{Bool, true, false, ◌||◌}
use mathlib.Core.Option.{Option, none, some}
use mathlib.Core.List.{List, [], ◌∷◌, ◌++◌}
use native.Mathlib.Omega.{arith}
use mathlib.Core.Logic.{inl, inr}
use swift_chat_backend.Base.Tests.{if◌then◌else◌, Bool-cases}

module _ {ℓ} {A : Type ℓ} where
  abbrev pub length : List A → ℕ
  length [] = 0
  length (_ ∷ rows) = suc (length rows)

  -- `findFirst`, `findUnique`, `findOne`
  abbrev pub find : (A → Bool) → List A → Option A
  find p [] = none
  find p (r ∷ rows) = if p r then some r else find p rows

  abbrev pub any : (A → Bool) → List A → Bool
  any p [] = false
  any p (r ∷ rows) = p r || any p rows

  -- `findMany`, `find`
  abbrev pub select : (A → Bool) → List A → List A
  select p [] = []
  select p (r ∷ rows) = if p r then r ∷ select p rows else select p rows

  -- `delete`, `deleteMany`
  abbrev pub remove : (A → Bool) → List A → List A
  remove p [] = []
  remove p (r ∷ rows) = if p r then remove p rows else r ∷ remove p rows

  -- `update`, `updateMany`
  abbrev pub update : (A → Bool) → (A → A) → List A → List A
  update p f [] = []
  update p f (r ∷ rows) = (if p r then f r else r) ∷ update p f rows

  -- `findOneAndUpdate`: the first document that matches
  abbrev pub update_first : (A → Bool) → (A → A) → List A → List A
  update_first p f [] = []
  update_first p f (r ∷ rows) = if p r then f r ∷ rows else r ∷ update_first p f rows

  abbrev pub count : (A → Bool) → List A → ℕ
  count p [] = 0
  count p (r ∷ rows) = (if p r then 1 else 0) + count p rows

  abbrev pub take : ℕ → List A → List A
  take zero rows = []
  take (suc n) [] = []
  take (suc n) (r ∷ rows) = r ∷ take n rows

  abbrev pub drop : ℕ → List A → List A
  drop zero rows = rows
  drop (suc n) [] = []
  drop (suc n) (r ∷ rows) = drop n rows

  abbrev pub All {κ} : (A → Type κ) → List A → Type κ
  All P [] = Unit
  All P (r ∷ rows) = P r × All P rows

-- A row that is found passes the test.
module _ {ℓ} {A : Type ℓ} (p : A → Bool) where
  pub find_holds : (rows : List A) (r : A) → find p rows ≡ some r → p r ≡ true
  find_holds [] r h = cc
  find_holds (x ∷ rows) r h = ground (arith, find_holds rows r)

  pub find-any : (rows : List A) (r : A) → find p rows ≡ some r → any p rows ≡ true
  find-any [] r h = cc
  find-any (x ∷ rows) r h = ground (arith, find-any rows r)

  pub find-none : (rows : List A) → find p rows ≡ none → any p rows ≡ false
  find-none [] h = refl
  find-none (x ∷ rows) h = ground (arith, find-none rows)

  pub any-none : (rows : List A) → any p rows ≡ false → find p rows ≡ none
  any-none [] h = refl
  any-none (x ∷ rows) h = ground (arith, any-none rows)

  pub find-All {κ} :
      (P : A → Type κ) (rows : List A) (r : A) → All P rows → find p rows ≡ some r → P r
  find-All P [] r a h = cc
  find-All P (x ∷ rows) r a h = ground (arith, find-All P rows r a.1)

-- Two tests: what one query finds, another finds too.
module _ {ℓ} {A : Type ℓ} (p q : A → Bool) where
  pub find-any_other :
      (rows : List A) (r : A) → find p rows ≡ some r → q r ≡ true → any q rows ≡ true
  find-any_other [] r h e = cc
  find-any_other (x ∷ rows) r h e = ground (arith, find-any_other rows r)

  pub any_mono :
      (rows : List A) → ((r : A) → p r ≡ true → q r ≡ true) → any p rows ≡ true → any q rows ≡ true
  any_mono [] h e = cc
  any_mono (x ∷ rows) h e = ground (arith, h x, any_mono rows h)

  -- Removing rows brings no row in.
  pub any-remove_le : (rows : List A) → any p (remove q rows) ≡ true → any p rows ≡ true
  any-remove_le [] e = cc
  any-remove_le (x ∷ rows) e = ground (arith, any-remove_le rows)

  -- Removing all that would pass leaves none that passes.
  pub any-remove_covered :
      (rows : List A) → ((r : A) → p r ≡ true → q r ≡ true) → any p (remove q rows) ≡ false
  any-remove_covered [] h = refl
  any-remove_covered (x ∷ rows) h = ground (arith, h x, any-remove_covered rows h)

  -- Removing rows that do not pass leaves the answer.
  pub any-remove_other :
      (rows : List A) → ((r : A) → q r ≡ true → p r ≡ false) → any p (remove q rows) ≡ any p rows
  any-remove_other [] h = refl
  any-remove_other (x ∷ rows) h = ground (arith, h x, any-remove_other rows h)

  pub any-update_le :
      (f : A → A) (rows : List A)
      → ((r : A) → q r ≡ true → p (f r) ≡ true → p r ≡ true)
      → any p (update q f rows) ≡ true
      → any p rows ≡ true
  any-update_le f [] h e = cc
  any-update_le f (x ∷ rows) h e = ground (arith, h x, any-update_le f rows h)

  -- An update that does not change whether a row passes.
  pub any-update_same :
      (f : A → A) (rows : List A)
      → ((r : A) → q r ≡ true → p (f r) ≡ p r)
      → any p (update q f rows) ≡ any p rows
  any-update_same f [] h = refl
  any-update_same f (x ∷ rows) h = ground (arith, h x, any-update_same f rows h)

  pub select-remove_other :
      (rows : List A)
      → ((r : A) → q r ≡ true → p r ≡ false)
      → select p (remove q rows) ≡ select p rows
  select-remove_other [] h = refl
  select-remove_other (x ∷ rows) h = ground (arith, h x, select-remove_other rows h)

module _ {ℓ} {A : Type ℓ} where
  pub All-remove {κ} :
      (P : A → Type κ) (p : A → Bool) (rows : List A) → All P rows → All P (remove p rows)
  All-remove P p [] a = tt
  All-remove P p (x ∷ rows) a = ground (arith, All-remove P p rows a.1)

  pub All-update {κ} :
      (P : A → Type κ) (p : A → Bool) (f : A → A) (rows : List A)
      → ((r : A) → P r → P (f r))
      → All P rows
      → All P (update p f rows)
  All-update P p f [] h a = tt
  All-update P p f (x ∷ rows) h a = ground (arith, h x, All-update P p f rows h a.1)

  pub length-append : (xs ys : List A) → length (xs ++ ys) ≡ length xs + length ys
  length-append [] ys = omega arith
  length-append (x ∷ xs) ys = omega (arith, length-append xs ys)

  pub any-append : (p : A → Bool) (xs ys : List A) → any p (xs ++ ys) ≡ (any p xs || any p ys)
  any-append p [] ys = refl
  any-append p (x ∷ xs) ys = ground (arith, any-append p xs ys)

  pub length-update :
      (p : A → Bool) (f : A → A) (rows : List A) → length (update p f rows) ≡ length rows
  length-update p f [] = refl
  length-update p f (x ∷ rows) = omega (arith, length-update p f rows)

  abbrev pub mapped : (A → A) → Option A → Option A
  mapped f none = none
  mapped f (some r) = some (f r)

  -- The row that is found after an update that keeps the key.
  pub find-update :
      (p : A → Bool) (f : A → A) (rows : List A)
      → ((r : A) → p r ≡ true → p (f r) ≡ true)
      → find p (update p f rows) ≡ mapped f (find p rows)
  find-update p f [] h = refl
  find-update p f (x ∷ rows) h = ground (arith, h x, find-update p f rows h)

  pub any-find :
      (p : A → Bool) (rows : List A) → any p rows ≡ true → (r : A) × (find p rows ≡ some r)
  any-find p [] e = cc
  any-find p (x ∷ rows) e = elim (Bool-cases (p x)) [
    | inl h ↦ (x, rw h)
    | inr h ↦ ground (arith, h, any-find p rows)
  ]

  pub any-count_zero : (p : A → Bool) (rows : List A) → any p rows ≡ false → count p rows ≡ 0
  any-count_zero p [] e = refl
  any-count_zero p (x ∷ rows) e = ground (arith, any-count_zero p rows)

  -- The row that is found after an update of some of the rows, which keeps the key.
  pub find-update_if :
      (p q : A → Bool) (f : A → A) (rows : List A) (r : A)
      → ((x : A) → q x ≡ true → p (f x) ≡ p x)
      → find p rows ≡ some r
      → find p (update q f rows) ≡ some (if q r then f r else r)
  find-update_if p q f [] r h e = cc
  find-update_if p q f (x ∷ rows) r h e = ground (arith, h x, find-update_if p q f rows r h)

  pub any-remove_none :
      (p q : A → Bool) (rows : List A) → any p rows ≡ false → any p (remove q rows) ≡ false
  any-remove_none p q [] e = refl
  any-remove_none p q (x ∷ rows) e = ground (arith, any-remove_none p q rows)

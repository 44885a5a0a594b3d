-- ===== src/Base/Pages.antt =====
-- Lemmas on the page of a list that a query with a cursor gives.
use Prim.Native.Nat.{ℕ, zero, suc, ◌<◌, ◌≤◌}
use mathlib.Core.Path.{◌≡◌, refl, ap}
use mathlib.Core.Bool.{Bool, true, ◌&&◌}
use mathlib.Core.Option.{some}
use mathlib.Core.List.{List, [], ◌∷◌}
use native.Mathlib.Omega.{arith}
use swift_chat_backend.Base.Tests.{ltb}
use swift_chat_backend.Base.Rows.{select, take, drop, length, All}
use swift_chat_backend.Base.Descending.{last}

pub select-both :
    {A : Type 0} (p q : A → Bool) (rows : List A)
    → select (λ x. p x && q x) rows ≡ select q (select p rows)
select-both p q [] = refl
select-both p q (x ∷ rows) = ground (arith, select-both p q rows)

pub select-within :
    {A : Type 0} (p q : A → Bool) (rows : List A)
    → ((x : A) → q x ≡ true → p x ≡ true)
    → select q (select p rows) ≡ select q rows
select-within p q [] h = refl
select-within p q (x ∷ rows) h = ground (arith, h x, select-within p q rows h)

pub select-holds :
    {A : Type 0} (p : A → Bool) (rows : List A) → All (λ x. p x ≡ true) (select p rows)
select-holds p [] = tt
select-holds p (x ∷ rows) = ground (arith, select-holds p rows)

pub take-short : {A : Type 0} (n : ℕ) (rows : List A) → length rows ≤ n → take n rows ≡ rows
take-short zero [] le = refl
take-short zero (x ∷ rows) le = ground (arith, le)
take-short (suc n) [] le = refl
take-short (suc n) (x ∷ rows) le = ap (λ r. x ∷ r) (take-short n rows (omega (arith, le)))

pub length-take_more :
    {A : Type 0} (n : ℕ) (rows : List A) → ltb n (length (take (suc n) rows)) ≡ ltb n (length rows)
length-take_more zero [] = refl
length-take_more zero (x ∷ rows) = ground arith
length-take_more (suc n) [] = refl
length-take_more (suc n) (x ∷ rows) = ground (arith, length-take_more n rows)

pub take-take_more : {A : Type 0} (n : ℕ) (rows : List A) → take n (take (suc n) rows) ≡ take n rows
take-take_more zero rows = refl
take-take_more (suc n) [] = refl
take-take_more (suc n) (x ∷ rows) = ap (λ r. x ∷ r) (take-take_more n rows)

pub last-take :
    {A : Type 0} (n : ℕ) (rows : List A)
    → n < length rows
    → (r : A) × (last (take (suc n) rows) ≡ some r)
last-take n [] lt = ground (arith, lt)
last-take zero (x ∷ rows) lt = (x, refl)
last-take (suc n) (x ∷ []) lt = ground (arith, lt)
last-take (suc n) (x ∷ y ∷ rows) lt = last-take n (y ∷ rows) (omega (arith, lt))

length-drop_le : {A : Type 0} (n : ℕ) (rows : List A) → length (drop n rows) ≤ length rows
length-drop_le zero rows = omega arith
length-drop_le (suc n) [] = omega arith
length-drop_le (suc n) (x ∷ rows) = omega (arith, length-drop_le n rows)

pub length-drop_lt :
    {A : Type 0} (n : ℕ) (rows : List A)
    → 0 < length rows
    → length (drop (suc n) rows) < length rows
length-drop_lt n [] lt = ground (arith, lt)
length-drop_lt n (x ∷ rows) lt = omega (arith, length-drop_le n rows)

pub select-everything : {A : Type 0} (rows : List A) → select (λ _. true) rows ≡ rows
select-everything [] = refl
select-everything (x ∷ rows) = ap (λ r. x ∷ r) (select-everything rows)

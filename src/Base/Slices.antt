-- ===== src/Base/Slices.antt =====
-- Lemmas on the parts of a list: `take`, `drop`, and their lengths.
use Prim.Native.Nat.{ℕ, zero, suc, ◌+◌, ◌≤◌, ◌<◌}
use mathlib.Core.Path.{◌≡◌, refl, sym, ap, ◌∙◌}
use mathlib.Core.Bool.{Bool}
use mathlib.Core.List.{List, [], ◌∷◌, ◌++◌, map}
use native.Mathlib.Omega.{arith}
use swift_chat_backend.Base.Rows.{length, take, drop, select, All}

module _ {A : Type 0} where
  pub drop-nil : (n : ℕ) → drop {A = A} n [] ≡ []
  drop-nil zero = refl
  drop-nil (suc n) = refl

  pub drop-drop : (m n : ℕ) (xs : List A) → drop n (drop m xs) ≡ drop (m + n) xs
  drop-drop zero n xs = ground arith
  drop-drop (suc m) n [] = drop-nil n ∙ sym (drop-nil (suc m + n))
  drop-drop (suc m) n (x ∷ xs) = drop-drop m n xs ∙ ap (λ k. drop k (x ∷ xs)) (suc_out m n)
    where
      suc_out : (m n : ℕ) → suc (m + n) ≡ suc m + n
      suc_out m n = omega arith

  -- A batch that is not full is the rest.
  pub take-all : (n : ℕ) (xs : List A) → length (take n xs) < n → take n xs ≡ xs
  take-all zero xs lt = ground arith
  take-all (suc n) [] lt = refl
  take-all (suc n) (x ∷ xs) lt = ap (λ r. x ∷ r) (take-all n xs (omega arith))

  pub take-drop : (n : ℕ) (xs : List A) → take n xs ++ drop n xs ≡ xs
  take-drop zero xs = refl
  take-drop (suc n) [] = refl
  take-drop (suc n) (x ∷ xs) = ap (λ r. x ∷ r) (take-drop n xs)

  pub length-take-drop : (n : ℕ) (xs : List A) → length (take n xs) + length (drop n xs) ≡ length xs
  length-take-drop zero xs = ground arith
  length-take-drop (suc n) [] = ground arith
  length-take-drop (suc n) (x ∷ xs) = omega (arith, length-take-drop n xs)

  pub length-select_le : (p : A → Bool) (xs : List A) → length (select p xs) ≤ length xs
  length-select_le p [] = ground arith
  length-select_le p (x ∷ xs) = ground (arith, length-select_le p xs)

  pub length-map : {B : Type 0} (f : A → B) (xs : List A) → length (map f xs) ≡ length xs
  length-map f [] = refl
  length-map f (x ∷ xs) = omega (arith, length-map f xs)

  pub map-append :
      {B : Type 0} (f : A → B) (xs ys : List A) → map f xs ++ map f ys ≡ map f (xs ++ ys)
  map-append f [] ys = refl
  map-append f (x ∷ xs) ys = ap (λ r. f x ∷ r) (map-append f xs ys)

  pub take-nil : (n : ℕ) → take {A = A} n [] ≡ []
  take-nil zero = refl
  take-nil (suc n) = refl

  pub length-take : (n : ℕ) (rows : List A) → length (take n rows) ≤ n
  length-take zero rows = ground arith
  length-take (suc n) [] = ground arith
  length-take (suc n) (m ∷ rows) = ground (arith, length-take n rows)

  pub All-take : (P : A → Type 0) (n : ℕ) (rows : List A) → All P rows → All P (take n rows)
  All-take P zero rows a = tt
  All-take P (suc n) [] a = tt
  All-take P (suc n) (m ∷ rows) a = (a.0, All-take P n rows a.1)

  pub All-append : (P : A → Type 0) (xs ys : List A) → All P xs → All P ys → All P (xs ++ ys)
  All-append P [] ys a b = b
  All-append P (m ∷ xs) ys a b = (a.0, All-append P xs ys a.1 b)

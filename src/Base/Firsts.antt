-- ===== src/Base/Firsts.antt =====
-- Lemmas on the change of one document (`update_first`) and on a row that is added at the end.
use Prim.Native.Nat.{◌+◌, ◌≤◌}
use mathlib.Core.Path.{◌≡◌, refl}
use mathlib.Core.Logic.{inl, inr}
use mathlib.Core.Bool.{Bool, true, false}
use mathlib.Core.Option.{some}
use mathlib.Core.List.{List, [], ◌∷◌, ◌++◌}
use native.Mathlib.Omega.{arith}
use swift_chat_backend.Base.Tests.{Bool-cases}
use swift_chat_backend.Base.Rows.{find, any, remove, count, update_first, mapped, All}

module _ {A : Type 0} where
  -- The change only has to be right for the document that is found.
  pub All-update_first :
      (P : A → Type 0) (q : A → Bool) (f : A → A) (rows : List A)
      → ((m : A) → P m → find q rows ≡ some m → P (f m))
      → All P rows
      → All P (update_first q f rows)
  All-update_first P q f [] h a = tt
  All-update_first P q f (m ∷ rows) h a = elim (Bool-cases (q m)) [
    | inl e ↦ rw e (h m a.0 (rw e refl), a.1)
    | inr e ↦ rw e (a.0, All-update_first P q f rows (λ x p s. h x p (rw e s)) a.1)
  ]

  pub find-update_first :
      (q : A → Bool) (f : A → A) (rows : List A)
      → ((m : A) → q m ≡ true → q (f m) ≡ true)
      → find q (update_first q f rows) ≡ mapped f (find q rows)
  find-update_first q f [] h = refl
  find-update_first q f (m ∷ rows) h = ground (arith, h m, find-update_first q f rows h)

  pub update_first-none :
      (q : A → Bool) (f : A → A) (rows : List A) → any q rows ≡ false → update_first q f rows ≡ rows
  update_first-none q f [] e = refl
  update_first-none q f (m ∷ rows) e = ground (arith, update_first-none q f rows)

  pub count-append : (p : A → Bool) (xs ys : List A) → count p (xs ++ ys) ≡ count p xs + count p ys
  count-append p [] ys = ground arith
  count-append p (x ∷ xs) ys = ground (arith, count-append p xs ys)

  pub count-remove_le : (p q : A → Bool) (xs : List A) → count p (remove q xs) ≤ count p xs
  count-remove_le p q [] = ground arith
  count-remove_le p q (x ∷ xs) = ground (arith, count-remove_le p q xs)

  pub remove-append :
      (p : A → Bool) (xs : List A) (r : A)
      → any p xs ≡ false
      → p r ≡ true
      → remove p (xs ++ (r ∷ [])) ≡ xs
  remove-append p [] r e h = ground (arith, h)
  remove-append p (x ∷ xs) r e h = ground (arith, remove-append p xs r)

  pub find-append :
      (p : A → Bool) (xs : List A) (r : A)
      → any p xs ≡ false
      → p r ≡ true
      → find p (xs ++ (r ∷ [])) ≡ some r
  find-append p [] r e h = ground (arith, h)
  find-append p (x ∷ xs) r e h = ground (arith, find-append p xs r)

-- ===== src/Base/Keys.antt =====
-- Unique keys: `@unique` in a schema. No two rows of a table have the same key.
use Prim.Native.Nat.{ℕ}
use mathlib.Core.Path.{◌≡◌, refl}
use mathlib.Core.Logic.{inl, inr}
use mathlib.Core.Bool.{Bool, false, not, ◌&&◌}
use mathlib.Core.List.{List, [], ◌∷◌}
use native.Mathlib.Omega.{arith}
use swift_chat_backend.Base.Tests.{◌==◌, Bool-cases}
use swift_chat_backend.Base.Rows.{any, update, remove, any-remove_none, any-update_same}

module _ {A : Type 0} where
  abbrev pub HasKey : (A → ℕ) → List A → Type 0
  HasKey key [] = Unit
  HasKey key (r ∷ rows) = (any (λ x. key x == key r) rows ≡ false) × HasKey key rows

  pub HasKey-remove :
      (key : A → ℕ) (p : A → Bool) (rows : List A) → HasKey key rows → HasKey key (remove p rows)
  HasKey-remove key p [] u = tt
  HasKey-remove key p (r ∷ rows) u =
      ground (arith, any-remove_none (λ x. key x == key r) p rows u.0, HasKey-remove key p rows u.1)

  -- A change that leaves the key.
  pub HasKey-update :
      (key : A → ℕ) (p : A → Bool) (f : A → A) (rows : List A)
      → ((r : A) → key (f r) ≡ key r)
      → HasKey key rows
      → HasKey key (update p f rows)
  HasKey-update key p f [] same u = tt
  HasKey-update key p f (r ∷ rows) same u = elim (Bool-cases (p r)) [
    | inl e ↦ rw (e, same r) (kept, HasKey-update key p f rows same u.1)
    | inr e ↦ rw e (kept, HasKey-update key p f rows same u.1)
  ]
    where
      kept : any (λ x. key x == key r) (update p f rows) ≡ false
      kept = ground (
        arith,
        u.0,
        any-update_same (λ x. key x == key r) p f rows (λ x _. ground (arith, same x)),
      )

  update-none :
      (p : A → Bool) (f : A → A) (rows : List A) → any p rows ≡ false → update p f rows ≡ rows
  update-none p f [] e = refl
  update-none p f (r ∷ rows) e = ground (arith, e, update-none p f rows)

  any-apart :
      (p q : A → Bool) (rows : List A)
      → any (λ x. p x && not (q x)) rows ≡ false
      → any q rows ≡ false
      → any p rows ≡ false
  any-apart p q [] e h = refl
  any-apart p q (r ∷ rows) e h = ground (arith, e, h, any-apart p q rows)

  any-update_away :
      (p q : A → Bool) (f : A → A) (rows : List A)
      → ((r : A) → p (f r) ≡ false)
      → any p rows ≡ false
      → any p (update q f rows) ≡ false
  any-update_away p q f [] away e = refl
  any-update_away p q f (r ∷ rows) away e =
      ground (arith, away r, e, any-update_away p q f rows away)

  -- A change that gives one row a key which no other row has.
  pub HasKey-assign :
      (key id : A → ℕ) (f : A → A) (a v : ℕ) (rows : List A)
      → ((r : A) → key (f r) ≡ v)
      → HasKey id rows
      → any (λ x. key x == v && not (id x == a)) rows ≡ false
      → HasKey key rows
      → HasKey key (update (λ r. id r == a) f rows)
  HasKey-assign key id f a v [] set ids free u = tt
  HasKey-assign key id f a v (r ∷ rows) set ids free u = elim (Bool-cases (id r == a)) [
    | inl e ↦
        let alone : any (λ x. id x == a) rows ≡ false = ground (arith, e, ids.0) in
        rw (e, set r, update-none (λ x. id x == a) f rows alone)
          (any-apart (λ x. key x == v) (λ x. id x == a) rows (ground (arith, free)) alone, u.1)
    | inr e ↦ rw e (
      any-update_away (λ x. key x == key r) (λ x. id x == a) f rows
          (λ x. ground (arith, set x, free, e)) u.0,
      HasKey-assign key id f a v rows set ids.1 (ground (arith, free)) u.1,
    )
  ]

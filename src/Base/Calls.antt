-- ===== src/Base/Calls.antt =====
-- A service call: it reads and writes a state, and returns a value or throws. What was written
-- before a throw stays written, except inside a transaction.
use mathlib.Core.Path.{◌≡◌, refl}
use mathlib.Core.Logic.{◌⊎◌, inl, inr}
use mathlib.Core.Bool.{Bool}
use mathlib.Core.Option.{Option, none, some}
use swift_chat_backend.Base.Tests.{if◌then◌else◌}
use swift_chat_backend.Http.{Error}

pub data Result (A : Type 0) : Type 0 where
  ok : A → Result A
  err : Error → Result A

pub Result-cases : (r : Result (Unit {0})) → (r ≡ ok tt) ⊎ ((e : Error) × (r ≡ err e))
Result-cases (ok tt) = inl refl
Result-cases (err e) = inr (e, refl)

pub Value-cases : {A : Type 0} (r : Result A) → ((a : A) × (r ≡ ok a)) ⊎ ((e : Error) × (r ≡ err e))
Value-cases (ok a) = inl (a, refl)
Value-cases (err e) = inr (e, refl)

abbrev pub Action : Type 0 → Type 0 → Type 0
Action S A = S → Result A × S

module _ {S A : Type 0} where
  abbrev pub pure : A → Action S A
  pure a s = (ok a, s)

  -- `throw`
  abbrev pub raise : Error → Action S A
  raise e s = (err e, s)

  -- A read of the state.
  abbrev pub gets : (S → A) → Action S A
  gets f s = (ok (f s), s)

  -- The value of a query, or `throw` where it is null.
  abbrev pub or_raise : Option A → Error → Action S A
  or_raise none e = raise e
  or_raise (some a) _ = pure a

  -- `$transaction`: a throw inside it takes back what was written.
  abbrev pub transaction : Action S A → Action S A
  transaction m s = let (r, s') = m s in elim r [ ok a ↦ (ok a, s') | err e ↦ (err e, s) ]

infixl 5 ◌>>=◌ ◌>>◌
abbrev pub ◌>>=◌ : {S A B : Type 0} → Action S A → (A → Action S B) → Action S B
◌>>=◌ m f s = let (r, s') = m s in elim r [ ok a ↦ f a s' | err e ↦ raise e s' ]

abbrev pub ◌>>◌ : {S B : Type 0} → Action S (Unit {0}) → Action S B → Action S B
m >> k = m >>= λ _. k

module _ {S : Type 0} where
  -- `if (test) throw e`
  abbrev pub raise_if : Bool → Error → Action S (Unit {0})
  raise_if c e s = (if c then err e else ok tt, s)

  abbrev pub modify : (S → S) → Action S (Unit {0})
  modify f s = (ok tt, f s)

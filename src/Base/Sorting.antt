-- ===== src/Base/Sorting.antt =====
-- `orderBy: { createdAt: 'desc' }`: newest first. Rows of one time keep their order.
use Prim.Native.Nat.{ℕ}
use mathlib.Core.List.{List, [], ◌∷◌}
use swift_chat_backend.Base.Tests.{ltb, if◌then◌else◌}

module _ {ℓ} {A : Type ℓ} (key : A → ℕ) where
  abbrev pub insert_desc : A → List A → List A
  insert_desc a [] = a ∷ []
  insert_desc a (b ∷ rows) = if ltb (key a) (key b) then b ∷ insert_desc a rows else a ∷ b ∷ rows

  abbrev pub sort_desc : List A → List A
  sort_desc [] = []
  sort_desc (a ∷ rows) = insert_desc a (sort_desc rows)

  -- `orderBy: { joinAt: 'asc' }`
  abbrev pub insert_asc : A → List A → List A
  insert_asc a [] = a ∷ []
  insert_asc a (b ∷ rows) = if ltb (key b) (key a) then b ∷ insert_asc a rows else a ∷ b ∷ rows

  abbrev pub sort_asc : List A → List A
  sort_asc [] = []
  sort_asc (a ∷ rows) = insert_asc a (sort_asc rows)

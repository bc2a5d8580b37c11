-- ===== src/Base/Stores.antt =====
-- Families indexed by a number, as C arrays and pointer targets are, and an assignment to one of
-- their elements.
use Prim.Native.Nat.{ℕ}
use mathlib.Core.Bool.{Bool, true, false, ◌||◌}
use mathlib.Core.List.{List, [], ◌∷◌}
use mathlib.Core.Option.{Option, none, some}
use evr_card_g.Base.Tests.{◌==◌, if◌then◌else◌}

abbrev pub update {ℓ} : {A : Type ℓ} → (ℕ → A) → ℕ → A → ℕ → A
update f i a j = if j == i then a else f j

abbrev pub has : ℕ → List ℕ → Bool
has a [] = false
has a (x ∷ xs) = (a == x) || has a xs

-- The list without the first occurrence of a number.
abbrev pub remove : ℕ → List ℕ → List ℕ
remove a [] = []
remove a (x ∷ xs) = let rest = remove a xs in if x == a then xs else x ∷ rest

-- Whether a pointer points to an element.
abbrev pub points : Option ℕ → ℕ → Bool
points none x = false
points (some y) x = x == y

abbrev pub is_empty : List ℕ → Bool
is_empty [] = true
is_empty (x ∷ xs) = false

abbrev pub is_null : Option ℕ → Bool
is_null none = true
is_null (some y) = false

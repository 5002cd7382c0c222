-- ===== src/Common/Lists.antt =====
-- Lists over the native numbers, and the list predicates that the components share.
use Prim.Native.Nat.{ℕ, zero, suc, ◌+◌, ◌≤◌, ◌<◌}
use mathlib.Core.Path.{◌≡◌, refl}
use mathlib.Core.Bool.{Bool, false, ◌||◌}
use mathlib.Core.List.{List, [], ◌∷◌}
use native.Mathlib.Omega.{arith}
use os161_virtual_memory_imp.Common.Tests.{◌==◌}

-- A predicate on every element.
abbrev pub All {ℓ κ} : {A : Type ℓ} → (A → Type κ) → List A → Type κ
All P [] = Unit
All P (x ∷ xs) = P x × All P xs

-- Membership of a number, as a test.
abbrev pub has : ℕ → List ℕ → Bool
has a [] = false
has a (x ∷ xs) = (x == a) || has a xs

-- lo, lo + 1, …, n numbers in all.
abbrev pub range_from : ℕ → ℕ → List ℕ
range_from lo zero = []
range_from lo (suc n) = lo ∷ range_from (suc lo) n

pub has-range_from_below : (n lo a : ℕ) → a < lo → has a (range_from lo n) ≡ false
has-range_from_below zero lo a h = refl
has-range_from_below (suc n) lo a h = ground (arith, has-range_from_below n (suc lo) a)

pub has-range_from_above : (n lo a : ℕ) → lo + n ≤ a → has a (range_from lo n) ≡ false
has-range_from_above zero lo a h = refl
has-range_from_above (suc n) lo a h = ground (arith, has-range_from_above n (suc lo) a)

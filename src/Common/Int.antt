-- ===== src/Common/Int.antt =====
-- Signed integers over the native numbers, for the `int` counters of the kernel.
use Prim.Native.Nat.{ℕ, suc, ◌+◌, ◌-◌}
use mathlib.Core.Path.{◌≡◌}
use mathlib.Core.Bool.{Bool}
use native.Mathlib.Omega.{arith}
use os161_virtual_memory_imp.Common.Tests.{leb, ◌==◌, if◌then◌else◌}

-- `negsuc n` is -(n + 1).
pub data ℤ : Type 0 where
  pos : ℕ → ℤ
  negsuc : ℕ → ℤ

abbrev pub pos_part : ℤ → ℕ
pos_part (pos n) = n
pos_part (negsuc n) = 0

abbrev pub neg_part : ℤ → ℕ
neg_part (pos n) = 0
neg_part (negsuc n) = suc n

abbrev pub sub_ℕ : ℕ → ℕ → ℤ
sub_ℕ a b = if leb b a then pos (a - b) else negsuc (b - a - 1)

infixl 65 ◌+ℤ◌
unfoldable pub ◌+ℤ◌ : ℤ → ℤ → ℤ
a +ℤ b = sub_ℕ (pos_part a + pos_part b) (neg_part a + neg_part b)

-- a ≤ b and a == b on `int`.
abbrev pub leb_ℤ : ℤ → ℤ → Bool
leb_ℤ a b = leb (pos_part a + neg_part b) (pos_part b + neg_part a)

abbrev pub eqb_ℤ : ℤ → ℤ → Bool
eqb_ℤ a b = pos_part a + neg_part b == pos_part b + neg_part a

-- The decrement `ref -= 1` and the increment `ref += 1` of a positive counter.
pub +ℤ_pred : (k : ℕ) → pos (suc k) +ℤ negsuc 0 ≡ pos k
unfolding ◌+ℤ◌
+ℤ_pred k = ground arith

pub +ℤ_suc : (k : ℕ) → pos k +ℤ pos 1 ≡ pos (suc k)
unfolding ◌+ℤ◌
+ℤ_suc k = ground arith

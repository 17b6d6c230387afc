-- ===== src/Prelude/Int.antt =====
-- Signed integers over the native numbers: an `int64` that is read and compared, never computed with.
use Prim.Native.Nat.{ℕ, suc, ◌+◌, ◌<◌}
use mathlib.Core.Path.{◌≡◌}
use mathlib.Core.Logic.{◌↔◌}
use mathlib.Core.Bool.{Bool, true}
use native.Mathlib.Omega.{arith}
use kubernetes_operator.Prelude.Tests.{ltb}

-- `negsuc n` is -(n + 1).
pub data ℤ : Type 0 where
  pos : ℕ → ℤ
  negsuc : ℕ → ℤ

abbrev pub pos_part : ℤ → ℕ
pos_part (pos n) = n
pos_part (negsuc n) = 0

abbrev pub neg_part : ℤ → ℕ
neg_part (pos n) = 0
neg_part (negsuc n) = suc n

abbrev pub ltb_ℤ : ℤ → ℤ → Bool
ltb_ℤ a b = ltb (pos_part a + neg_part b) (pos_part b + neg_part a)

-- The order of the integers, on their two forms.
abbrev pub IsBelow : ℤ → ℤ → Type 0
IsBelow (pos m) (pos n) = m < n
IsBelow (pos m) (negsuc n) = ⊥
IsBelow (negsuc m) (pos n) = Unit
IsBelow (negsuc m) (negsuc n) = n < m

pub ltb_ℤ_iff : (a b : ℤ) → (ltb_ℤ a b ≡ true) ↔ IsBelow a b
ltb_ℤ_iff (pos m) (pos n) = (λ h. ground arith, λ h. ground (arith, h))
ltb_ℤ_iff (pos m) (negsuc n) = (λ h. ground arith, λ h. absurd h)
ltb_ℤ_iff (negsuc m) (pos n) = (λ h. tt, λ h. ground arith)
ltb_ℤ_iff (negsuc m) (negsuc n) = (λ h. ground arith, λ h. ground (arith, h))

-- ===== src/Prelude/Int.antt =====
-- Integers over the native numbers: `negsuc n` is -(n + 1).
use Prim.Native.Nat.{ℕ, ◌-◌}
use mathlib.Core.Path.{◌≡◌}
use mathlib.Core.Logic.{◌↔◌}
use mathlib.Core.Bool.{Bool, true, false}
use native.Mathlib.Omega.{arith}
use page_fault_os_for_risc_v.Prelude.Tests.{leb, if◌then◌else◌}

pub data ℤ : Type 0 where
  pos : ℕ → ℤ
  negsuc : ℕ → ℤ

-- a - b, as an integer.
abbrev pub sub_ℕ : ℕ → ℕ → ℤ
sub_ℕ a b = if leb b a then pos (a - b) else negsuc (b - a - 1)

abbrev pub is_zero : ℤ → Bool
is_zero (pos n) = leb n 0
is_zero (negsuc n) = false

pub sub_ℕ-zero_iff : (a b : ℕ) → (sub_ℕ a b ≡ pos 0) ↔ (a ≡ b)
sub_ℕ-zero_iff a b = (λ h. ground arith, λ h. ground arith)

pub is_zero-sub_ℕ : (a b : ℕ) → (is_zero (sub_ℕ a b) ≡ true) ↔ (a ≡ b)
is_zero-sub_ℕ a b = (λ h. ground arith, λ h. ground arith)

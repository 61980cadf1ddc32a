-- ===== src/Base/Int.antt =====
-- `int32_t`: a signed integer, with the tests and the increment that the source applies to it.
use Prim.Native.Nat.{ℕ, zero, suc, ◌+◌}
use mathlib.Core.Path.{◌≡◌}
use mathlib.Core.Logic.{◌↔◌}
use mathlib.Core.Bool.{Bool, true, false}
use native.Mathlib.Omega.{arith}
use task_master.Base.Tests.{nat_beq, KeyEq, if◌then◌else◌}

-- `negsuc n` is -(n + 1).
pub data ℤ : Type 0 where
  pos : ℕ → ℤ
  negsuc : ℕ → ℤ

abbrev pub pos_part : ℤ → ℕ
pos_part (pos n) = n
pos_part (negsuc n) = 0

abbrev pub int_beq : ℤ → ℤ → Bool
int_beq (pos a) (pos b) = nat_beq a b
int_beq (negsuc a) (negsuc b) = nat_beq a b
int_beq _ _ = false

pub int_beq_iff : (a b : ℤ) → (int_beq a b ≡ true) ↔ (a ≡ b)
int_beq_iff (pos a) (pos b) = (λ h. ground arith, λ h. ground arith)
int_beq_iff (negsuc a) (negsuc b) = (λ h. ground arith, λ h. ground arith)
int_beq_iff (pos a) (negsuc b) = (λ h. cc, λ h. cc)
int_beq_iff (negsuc a) (pos b) = (λ h. cc, λ h. cc)

instance abbrev pub int_key : KeyEq ℤ
int_key = record { same_iff = int_beq_iff; same = int_beq }

abbrev pub int_max : ℕ
int_max = 2147483647

-- `n++` on an `int32_t`, which wraps on the machines that the program runs on.
unfoldable pub increment : ℤ → ℤ
increment (pos n) = if nat_beq n int_max then negsuc int_max else pos (n + 1)
increment (negsuc zero) = pos 0
increment (negsuc (suc n)) = negsuc n

-- ===== src/Base/Int.antt =====
-- The int32 counts of the source as integers, over the native numbers.
use Prim.Native.Nat.{ℕ, zero, suc, ◌<◌, ◌+◌, ◌-◌}
use mathlib.Core.Path.{◌≡◌}
use mathlib.Core.Bool.{Bool, true, false}
use native.Mathlib.Omega.{arith}
use infra_devops.Base.Tests.{ltb, ◌==◌, if◌then◌else◌}

-- `negsuc n` is -(n + 1).
pub data ℤ : Type 0 where
  pos : ℕ → ℤ
  negsuc : ℕ → ℤ

abbrev pub ltb_ℤ : ℤ → ℤ → Bool
ltb_ℤ (pos a) (pos b) = ltb a b
ltb_ℤ (pos a) (negsuc b) = false
ltb_ℤ (negsuc a) (pos b) = true
ltb_ℤ (negsuc a) (negsuc b) = ltb b a

abbrev pub eqb_ℤ : ℤ → ℤ → Bool
eqb_ℤ (pos a) (pos b) = a == b
eqb_ℤ (pos a) (negsuc b) = false
eqb_ℤ (negsuc a) (pos b) = false
eqb_ℤ (negsuc a) (negsuc b) = a == b

-- `z - 1` on an int32, which wraps at the least value.
unfoldable pub dec32 : ℤ → ℤ
dec32 (pos zero) = negsuc 0
dec32 (pos (suc n)) = pos n
dec32 (negsuc n) = if n == 2147483647 then pos 2147483647 else negsuc (suc n)

-- `z + k` on an int64, which wraps at the greatest value; `k` is not above it.
unfoldable pub plus64 : ℤ → ℕ → ℤ
plus64 (pos n) k =
    if ltb (n + k) 9223372036854775808 then pos (n + k) else negsuc (18446744073709551615 - (n + k))
plus64 (negsuc n) k = if ltb n k then pos (k - n - 1) else negsuc (n - k)

-- The rounds of `for n := 0; n < z; n++`.
unfoldable pub to_ℕ : ℤ → ℕ
to_ℕ (pos n) = n
to_ℕ (negsuc n) = 0

pub eqb_ℤ-eq : (a b : ℤ) → eqb_ℤ a b ≡ true → a ≡ b
eqb_ℤ-eq (pos a) (pos b) h = ground arith
eqb_ℤ-eq (pos a) (negsuc b) h = ground arith
eqb_ℤ-eq (negsuc a) (pos b) h = ground arith
eqb_ℤ-eq (negsuc a) (negsuc b) h = ground arith

abbrev pub IsInt32 : ℤ → Type 0
IsInt32 (pos n) = n < 2147483648
IsInt32 (negsuc n) = n < 2147483648

-- Above another int32 the decrement does not wrap: it is one less, and no less than the other.
pub dec32-lt :
    (a b : ℤ)
    → IsInt32 a
    → ltb_ℤ a b ≡ true
    → (ltb_ℤ (dec32 b) b ≡ true) × (ltb_ℤ (dec32 b) a ≡ false)
unfolding dec32
dec32-lt (pos a) (pos zero) i h = ground arith
dec32-lt (pos a) (pos (suc b)) i h = ground arith
dec32-lt (pos a) (negsuc b) i h = ground arith
dec32-lt (negsuc a) (pos zero) i h = ground arith
dec32-lt (negsuc a) (pos (suc b)) i h = ground arith
dec32-lt (negsuc a) (negsuc b) i h = ground arith

-- Past a ladder of both orders, the numbers are equal.
pub eq_of_not_lt : (a b : ℤ) → ltb_ℤ a b ≡ false → ltb_ℤ b a ≡ false → a ≡ b
eq_of_not_lt (pos a) (pos b) h k = ground arith
eq_of_not_lt (pos a) (negsuc b) h k = ground arith
eq_of_not_lt (negsuc a) (pos b) h k = ground arith
eq_of_not_lt (negsuc a) (negsuc b) h k = ground arith

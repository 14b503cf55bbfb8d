-- ===== src/Prelude/Int.antt =====
-- Python's integers over the native numbers, under the library's names (its ℤ stands on another ℕ).
use Prim.Native.Nat.{ℕ, zero, suc, ◌+◌, ◌-◌, ◌*◌, ◌/◌, ◌%◌, ◌^◌}
use mathlib.Core.Bool.{Bool, false}
use opensomeip_python.Prelude.Tests.{leb, ltb, if◌then◌else◌}

-- `negsuc n` is -(n + 1).
pub data ℤ : Type 0 where
  pos : ℕ → ℤ
  negsuc : ℕ → ℤ

-- `0 <= x <= top`.
abbrev pub in_range : ℤ → ℕ → Bool
in_range (pos n) top = leb n top
in_range (negsuc n) top = false

abbrev pub to_ℕ : ℤ → ℕ
to_ℕ (pos n) = n
to_ℕ (negsuc n) = 0

-- `x >> k`, the floor of the quotient.
abbrev pub shift_right : ℤ → ℕ → ℤ
shift_right (pos n) k = pos (n / 2 ^ k)
shift_right (negsuc n) k = negsuc (n / 2 ^ k)

-- `x & (2 ** k - 1)`, the k low bits of the two's complement.
abbrev pub low_bits : ℤ → ℕ → ℕ
low_bits (pos n) k = n % 2 ^ k
low_bits (negsuc n) k = 2 ^ k - 1 - n % 2 ^ k

-- `m - n` of two numbers that are not negative.
abbrev pub minus : ℕ → ℕ → ℤ
minus m n = if leb n m then pos (m - n) else negsuc (n - m - 1)

infixl 80 ◌+ℤ◌
abbrev pub ◌+ℤ◌ : ℤ → ℤ → ℤ
pos m +ℤ pos n = pos (m + n)
pos m +ℤ negsuc n = minus m (suc n)
negsuc m +ℤ pos n = minus n (suc m)
negsuc m +ℤ negsuc n = negsuc (suc (m + n))

-- `-n`
abbrev pub negated : ℕ → ℤ
negated zero = pos zero
negated (suc n) = negsuc n

infixl 90 ◌*ℤ◌
abbrev pub ◌*ℤ◌ : ℤ → ℤ → ℤ
pos m *ℤ pos n = pos (m * n)
pos m *ℤ negsuc n = negated (m * suc n)
negsuc m *ℤ pos n = negated (suc m * n)
negsuc m *ℤ negsuc n = pos (suc m * suc n)

-- `-2 ** (8 * w - 1) <= x < 2 ** (8 * w - 1)`, the range of a signed number of w bytes.
abbrev pub fits_signed : ℕ → ℤ → Bool
fits_signed w (pos n) = ltb (n * 2) (256 ^ w)
fits_signed w (negsuc n) = ltb (n * 2) (256 ^ w)

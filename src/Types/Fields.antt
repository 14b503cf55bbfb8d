-- ===== src/Types/Fields.antt =====
-- Two 16-bit fields in one 32-bit number, as both identifiers of types.py pack them.
use Prim.Native.Nat.{bit_or}
use opensomeip_python.Prelude.{ℕ, ◌+◌, ◌*◌, ◌^◌, ◌<◌, ◌≡◌, arith}
use opensomeip_python.Prelude.Int.{ℤ, pos, negsuc, shift_right, low_bits}
use opensomeip_python.Prelude.Bits.{bit_or_fields}

-- `(hi << 16) | lo`
abbrev pub join : ℕ → ℕ → ℕ
join hi lo = bit_or (hi * 2 ^ 16) lo

pub join-eq-sum : (hi lo : ℕ) → lo < 2 ^ 16 → join hi lo ≡ hi * 2 ^ 16 + lo
join-eq-sum hi lo h = bit_or_fields 16 hi lo h

-- The two fields of any integer, `(v >> 16) & 0xFFFF` and `v & 0xFFFF`, are its low 32 bits.
pub fields-low_bits :
    (v : ℤ) → low_bits (shift_right v 16) 16 * 2 ^ 16 + low_bits v 16 ≡ low_bits v 32
fields-low_bits (pos n) = omega arith
fields-low_bits (negsuc n) = omega arith

pub low_bits-lt : (v : ℤ) → low_bits v 16 < 2 ^ 16
low_bits-lt (pos n) = omega arith
low_bits-lt (negsuc n) = omega arith

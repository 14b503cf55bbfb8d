-- ===== src/E2e/Crc.antt =====
-- `crc8` and `crc16` of src/opensomeip/e2e.py. The calculation of the extension, where it is
-- imported, is an argument.
pub mod Bits
pub mod Detection
use Prim.Native.Nat.{bit_and, bit_xor}
use opensomeip_python.Prelude.{
  ℕ, zero, suc, ◌+◌, ◌*◌, ◌/◌, Option, none, some, List, [], ◌∷◌, ◌==◌, if◌then◌else◌,
}

-- `for _ in range(n): c = f(c)`
unfoldable pub iterate : ℕ → (ℕ → ℕ) → ℕ → ℕ
iterate zero f c = c
iterate (suc n) f c = iterate n f (f c)

-- One round of the inner loop of `crc8`.
unfoldable pub crc8_bit : ℕ → ℕ
crc8_bit c = bit_and (if bit_and c 0x80 == 0 then c * 2 else bit_xor (c * 2) 0x1d) 0xff

unfoldable pub crc8_byte : ℕ → ℕ → ℕ
unfolding iterate crc8_bit
crc8_byte c byte = iterate 8 crc8_bit (bit_xor c byte)

-- `for byte in data: crc = f(crc, byte)`
unfoldable pub feed : (ℕ → ℕ → ℕ) → ℕ → List ℕ → ℕ
feed f c [] = c
feed f c (byte ∷ rest) = feed f (f c byte) rest

-- What `ext.e2e.calculate_…` gives, if there is an extension.
abbrev pub Calculated : Type 0
Calculated = Option (List ℕ → ℕ)

unfoldable pub crc8 : Calculated → List ℕ → ℕ
unfolding feed crc8_byte
crc8 none payload = bit_xor (feed crc8_byte 0xff payload) 0xff
crc8 (some calculate) payload = calculate payload

-- `binascii.crc32` is an argument as well.
unfoldable pub crc32 : Calculated → (List ℕ → ℕ) → List ℕ → ℕ
crc32 none zlib payload = bit_and (zlib payload) 0xffffffff
crc32 (some calculate) zlib payload = calculate payload

-- One round of the inner loop of `crc16`.
unfoldable pub crc16_bit : ℕ → ℕ
crc16_bit c = if bit_and c 1 == 0 then c / 2 else bit_xor (c / 2) 0x8408

unfoldable pub crc16_byte : ℕ → ℕ → ℕ
unfolding iterate crc16_bit
crc16_byte c byte = iterate 8 crc16_bit (bit_xor c byte)

unfoldable pub crc16 : Calculated → List ℕ → ℕ
unfolding feed crc16_byte
crc16 none payload = bit_xor (feed crc16_byte 0xffff payload) 0xffff
crc16 (some calculate) payload = calculate payload

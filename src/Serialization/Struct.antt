-- ===== src/Serialization/Struct.antt =====
-- Python's `struct.pack` and `struct.unpack` with the big-endian formats of serialization.py.
use native.Mathlib.Nat.{pow-suc}
use opensomeip_python.Prelude.{
  ℕ, zero, suc, ◌+◌, ◌-◌, ◌*◌, ◌/◌, ◌%◌, ◌^◌, ◌<◌, ◌≡◌, refl, ◌∙◌, List, [], ◌∷◌, ◌++◌, length,
  length-append, ltb, All, All-append, arith, if◌then◌else◌,
}
use opensomeip_python.Prelude.Int.{ℤ, pos, negsuc}
use opensomeip_python.Exceptions.{Result, ok, err, struct_error}

-- The w bytes of a number, most significant first.
unfoldable pub be_bytes : ℕ → ℕ → List ℕ
be_bytes zero n = []
be_bytes (suc w) n = be_bytes w (n / 256) ++ n % 256 ∷ []

-- The number with the given bytes, most significant first.
unfoldable pub from_be : ℕ → List ℕ → ℕ
from_be acc [] = acc
from_be acc (b ∷ bytes) = from_be (acc * 256 + b) bytes

-- `struct.pack("!B")`, "!H", "!I", "!Q" with w = 1, 2, 4, 8 bytes.
unfoldable pub pack_unsigned : ℕ → ℤ → Result (List ℕ)
pack_unsigned w (pos n) = if ltb n (256 ^ w) then ok (be_bytes w n) else err struct_error
pack_unsigned w (negsuc n) = err struct_error

-- `struct.pack("!b")`, "!h", "!i", "!q": two's complement.
unfoldable pub pack_signed : ℕ → ℤ → Result (List ℕ)
pack_signed w (pos n) = if ltb (n * 2) (256 ^ w) then ok (be_bytes w n) else err struct_error
pack_signed w (negsuc n) =
    if ltb (n * 2) (256 ^ w) then ok (be_bytes w (256 ^ w - 1 - n)) else err struct_error

-- `struct.unpack` of w bytes.
unfoldable pub unpack_unsigned : ℕ → List ℕ → ℤ
unpack_unsigned w bytes = pos (from_be 0 bytes)

unfoldable pub unpack_signed : ℕ → List ℕ → ℤ
unpack_signed w bytes =
    let n = from_be 0 bytes in if ltb (n * 2) (256 ^ w) then pos n else negsuc (256 ^ w - 1 - n)

from_be-append :
    (acc : ℕ) (xs : List ℕ) (b : ℕ) → from_be acc (xs ++ b ∷ []) ≡ from_be acc xs * 256 + b
unfolding from_be
from_be-append acc [] b = refl
from_be-append acc (x ∷ xs) b = from_be-append (acc * 256 + x) xs b

pub length-be_bytes : (w n : ℕ) → length (be_bytes w n) ≡ w
unfolding be_bytes
length-be_bytes zero n = refl
length-be_bytes (suc w) n =
    omega (arith, length-append (be_bytes w (n / 256)) (n % 256 ∷ []), length-be_bytes w (n / 256))

pub be_bytes-bytes : (w n : ℕ) → All (λ b. b < 256) (be_bytes w n)
unfolding be_bytes
be_bytes-bytes zero n = tt
be_bytes-bytes (suc w) n =
    All-append (λ b. b < 256) (be_bytes w (n / 256)) (n % 256 ∷ []) (be_bytes-bytes w (n / 256))
      (omega arith, tt)

pub from_be-be_bytes : (w n : ℕ) → n < 256 ^ w → from_be 0 (be_bytes w n) ≡ n
unfolding be_bytes from_be
from_be-be_bytes zero n h = omega arith
from_be-be_bytes (suc w) n h =
    let smaller : n / 256 < 256 ^ w = omega (arith, pow-suc 256 w) in
    from_be-append 0 (be_bytes w (n / 256)) (n % 256)
    ∙ omega (arith, from_be-be_bytes w (n / 256) smaller)

-- What was packed is unpacked, at every width; and it has that width.
pub unpack-pack_unsigned :
    (w : ℕ) (v : ℤ) (bytes : List ℕ)
    → pack_unsigned w v ≡ ok bytes
    → (unpack_unsigned w bytes ≡ v) × (length bytes ≡ w)
unfolding pack_unsigned unpack_unsigned
unpack-pack_unsigned w (pos n) bytes h = ground (arith, from_be-be_bytes w n, length-be_bytes w n)
unpack-pack_unsigned w (negsuc n) bytes h = cc

-- What a signed format of one byte or more accepts is unpacked again, from as many bytes as the
-- format has.
pub unpack-pack_signed :
    (w : ℕ) (v : ℤ) (bytes : List ℕ)
    → 0 < w
    → pack_signed w v ≡ ok bytes
    → (unpack_signed w bytes ≡ v) × (length bytes ≡ w)
unfolding pack_signed unpack_signed
unpack-pack_signed zero v bytes pos_width h = absurd (omega arith)
unpack-pack_signed (suc w) (pos n) bytes pos_width h =
    ground (arith, from_be-be_bytes (suc w) n, length-be_bytes (suc w) n)
unpack-pack_signed (suc w) (negsuc n) bytes pos_width h = ground (
  arith,
  pow-suc 256 w,
  from_be-be_bytes (suc w) (256 ^ suc w - 1 - n),
  length-be_bytes (suc w) (256 ^ suc w - 1 - n),
)

-- ===== src/Types/RequestId.antt =====
-- `RequestId` of src/opensomeip/types.py.
use opensomeip_python.Prelude.{
  ℕ, ◌^◌, ◌<◌, ◌≡◌, ◌↔◌, Bool, true, ◌&&◌, arith, if◌then◌else◌, ◌==◌, ◌∙◌,
}
use opensomeip_python.Prelude.Int.{ℤ, pos, negsuc, in_range, to_ℕ, shift_right, low_bits}
use opensomeip_python.Exceptions.{Result, ok, err, value_error}
use opensomeip_python.Types.Fields.{join, join-eq-sum, fields-low_bits, low_bits-lt}

pub record RequestId : Type 0 where
  pub client_id : ℕ
  pub session_id : ℕ

-- The call `RequestId(hi, lo)` with the checks of `__post_init__`.
unfoldable pub new : ℤ → ℤ → Result RequestId
new hi lo =
    if in_range hi 0xffff
    then (if in_range lo 0xffff
        then ok (record { client_id = to_ℕ hi; session_id = to_ℕ lo })
        else err value_error)
    else err value_error

unfoldable pub value : RequestId → ℕ
value m = join m.client_id m.session_id

unfoldable pub from_value : ℤ → Result RequestId
unfolding new
from_value v = new (pos (low_bits (shift_right v 16) 16)) (pos (low_bits v 16))

-- The `__eq__` of the data class.
unfoldable pub id_eq : RequestId → RequestId → Bool
id_eq a b = a.client_id == b.client_id && a.session_id == b.session_id

-- What the constructor's checks establish.
abbrev pub IsValid : RequestId → Type 0
IsValid m = (m.client_id < 2 ^ 16) × (m.session_id < 2 ^ 16)

pub new-IsValid : (hi lo : ℤ) (m : RequestId) → new hi lo ≡ ok m → IsValid m
unfolding new
new-IsValid hi lo m h = ground arith

-- The call succeeds exactly on two integers in 0..0xFFFF, which become the fields.
pub new_iff :
    (hi lo : ℤ) (m : RequestId)
    → (new hi lo ≡ ok m) ↔ ((hi ≡ pos m.client_id) × (lo ≡ pos m.session_id) × IsValid m)
unfolding new
new_iff (pos hi) (pos lo) m = ground arith
new_iff (pos hi) (negsuc lo) m = ground arith
new_iff (negsuc hi) lo m = ground arith

pub id_eq_iff : (a b : RequestId) → (id_eq a b ≡ true) ↔ (a ≡ b)
unfolding id_eq
id_eq_iff a b = ground arith

pub value-lt : (m : RequestId) → IsValid m → value m < 2 ^ 32
unfolding value
value-lt m h = omega (arith, join-eq-sum m.client_id m.session_id h.1)

pub from_value-value : (m : RequestId) → IsValid m → from_value (pos (value m)) ≡ ok m
unfolding from_value value
from_value-value m h = ground (arith, join-eq-sum m.client_id m.session_id)

pub value-from_value :
    (v : ℤ) → (m : RequestId) × (from_value v ≡ ok m) × IsValid m × (value m ≡ low_bits v 32)
unfolding from_value value
value-from_value v =
    let hi = low_bits (shift_right v 16) 16 in
    let lo = low_bits v 16 in
    let hi_fits = low_bits-lt (shift_right v 16) in
    let lo_fits = low_bits-lt v in
    (
      record { client_id = hi; session_id = lo },
      ground arith,
      (hi_fits, lo_fits),
      join-eq-sum hi lo lo_fits ∙ fields-low_bits v,
    )

-- Equal 32-bit values come from equal identifiers, so the value may serve as a dictionary's key.
pub value-injective : (a b : RequestId) → IsValid a → IsValid b → value a ≡ value b → a ≡ b
unfolding value
value-injective a b ha hb e =
    ground (arith, join-eq-sum a.client_id a.session_id, join-eq-sum b.client_id b.session_id)

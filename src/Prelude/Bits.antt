-- ===== src/Prelude/Bits.antt =====
-- `|` of disjoint fields as a sum, and laws of `^` that are checked over a range of values.
use Prim.Native.Nat.{
  ℕ, zero, suc, ◌+◌, ◌*◌, ◌/◌, ◌%◌, ◌^◌, ◌-◌, ◌≤◌, ◌<◌, max, min, bit_or, digits, bit_or-bitwise,
  bit_and, bit_and-bitwise, bit_xor, bit_xor-bitwise, differ,
}
use mathlib.Core.Path.{◌≡◌, refl, ap, sym, ◌∙◌}
use mathlib.Core.Bool.{Bool, true, ◌&&◌}
use native.Mathlib.Nat.{pow-suc}
use native.Mathlib.Omega.{arith}

-- Over a small range, every value is checked by evaluation.
unfoldable pub all_below : ℕ → (ℕ → Bool) → Bool
all_below zero test = true
all_below (suc bound) test = test bound && all_below bound test

pub all_below_sound :
    (bound : ℕ) (test : ℕ → Bool) (c : ℕ) → all_below bound test ≡ true → c < bound → test c ≡ true
unfolding all_below
all_below_sound zero test c passed below = absurd (omega arith)
all_below_sound (suc bound) test c passed below = ground (arith, all_below_sound bound test c)

-- The recursion on binary digits that the native operations stand for: more fuel changes nothing.
module _ (rest : ℕ → ℕ) (op : ℕ → ℕ → ℕ) where
  digits-fuel :
      (fuel more x y : ℕ) → x ≤ fuel → x ≤ more → digits rest op fuel x y ≡ digits rest op more x y
  digits-fuel fuel more zero y p q = none_left fuel ∙ sym (none_left more)
    where
      none_left : (k : ℕ) → digits rest op k zero y ≡ rest y
      none_left zero = refl
      none_left (suc k) = refl
  digits-fuel zero more (suc x) y p q = absurd (omega arith)
  digits-fuel (suc fuel) zero (suc x) y p q = absurd (omega arith)
  digits-fuel (suc fuel) (suc more) (suc x) y p q =
      rw (digits-fuel fuel more (suc x / 2) (y / 2) (omega arith) (omega arith))

  -- The lowest digit, split off.
  digits-low :
      (a b : ℕ)
      → digits rest op (suc a) (suc a) b
        ≡ digits rest op (suc a / 2) (suc a / 2) (b / 2) * 2 + op (suc a % 2) (b % 2)
  digits-low a b = rw (digits-fuel a (suc a / 2) (suc a / 2) (b / 2) (omega arith) (omega arith))

bit_or_step : (a b : ℕ) → bit_or a b ≡ bit_or (a / 2) (b / 2) * 2 + max (a % 2) (b % 2)
bit_or_step zero b = omega (arith, bit_or-bitwise 0 b, bit_or-bitwise 0 (b / 2))
bit_or_step (suc a) b =
    bit_or-bitwise (suc a) b
    ∙ digits-low (λ y. y) max a b
    ∙ ap (λ (t : ℕ). t * 2 + max (suc a % 2) (b % 2)) (sym (bit_or-bitwise (suc a / 2) (b / 2)))

differ-parity : (x y : ℕ) → x < 2 → y < 2 → differ x y ≡ (x + y) % 2
differ-parity zero zero p q = refl
differ-parity zero (suc zero) p q = refl
differ-parity (suc zero) zero p q = refl
differ-parity (suc zero) (suc zero) p q = refl
differ-parity (suc (suc x)) y p q = absurd (omega arith)
differ-parity x (suc (suc y)) p q = absurd (omega arith)

pub bit_xor_step : (a b : ℕ) → bit_xor a b ≡ bit_xor (a / 2) (b / 2) * 2 + (a % 2 + b % 2) % 2
bit_xor_step zero b = omega (arith, bit_xor-bitwise 0 b, bit_xor-bitwise 0 (b / 2))
bit_xor_step (suc a) b = omega (
  arith,
  bit_xor-bitwise (suc a) b,
  digits-low (λ y. y) differ a b,
  bit_xor-bitwise (suc a / 2) (b / 2),
  differ-parity (suc a % 2) (b % 2) (omega arith) (omega arith),
)

-- `^` undoes itself.
bit_xor-twice_fuel : (n a b : ℕ) → a ≤ n → b ≤ n → bit_xor (bit_xor a b) b ≡ a
bit_xor-twice_fuel zero zero zero p q = refl
bit_xor-twice_fuel zero zero (suc b) p q = absurd (omega arith)
bit_xor-twice_fuel zero (suc a) b p q = absurd (omega arith)
bit_xor-twice_fuel (suc n) a b p q =
    let half : bit_xor a b / 2 ≡ bit_xor (a / 2) (b / 2) = omega (arith, bit_xor_step a b) in
    omega (
      arith,
      bit_xor_step a b,
      bit_xor_step (bit_xor a b) b,
      ap (λ (c : ℕ). bit_xor c (b / 2)) half,
      bit_xor-twice_fuel n (a / 2) (b / 2) (omega arith) (omega arith),
    )

pub bit_xor-twice : (a b : ℕ) → bit_xor (bit_xor a b) b ≡ a
bit_xor-twice a b = bit_xor-twice_fuel (a + b) a b (omega arith) (omega arith)

-- `^` stays within the width of its arguments.
pub bit_xor-lt : (k a b : ℕ) → a < 2 ^ k → b < 2 ^ k → bit_xor a b < 2 ^ k
bit_xor-lt zero zero zero p q = omega arith
bit_xor-lt zero zero (suc b) p q = absurd (omega arith)
bit_xor-lt zero (suc a) b p q = absurd (omega arith)
bit_xor-lt (suc k) a b p q = omega (
  arith,
  pow-suc 2 k,
  bit_xor_step a b,
  bit_xor-lt k (a / 2) (b / 2) (omega (arith, pow-suc 2 k)) (omega (arith, pow-suc 2 k)),
)

bit_or-zero_fuel : (n a : ℕ) → a ≤ n → bit_or a 0 ≡ a
bit_or-zero_fuel n zero h = refl
bit_or-zero_fuel zero (suc a) h = absurd (omega arith)
bit_or-zero_fuel (suc n) (suc a) h =
    omega (arith, bit_or_step (suc a) 0, bit_or-zero_fuel n (suc a / 2) (omega arith))

-- `(q << k) | r` is a sum when `r` fits into k bits.
pub bit_or_fields : (k q r : ℕ) → r < 2 ^ k → bit_or (q * 2 ^ k) r ≡ q * 2 ^ k + r
bit_or_fields zero q r h = ground (arith, bit_or-zero_fuel q q)
bit_or_fields (suc k) q r h = ground (
  arith,
  bit_or_step (q * 2 ^ suc k) r,
  ap (λ (t : ℕ). q * t) (pow-suc 2 k),
  bit_or_fields k q (r / 2) (omega arith),
)

bit_xor_comm_fuel : (n a b : ℕ) → a ≤ n → b ≤ n → bit_xor a b ≡ bit_xor b a
bit_xor_comm_fuel zero zero zero p q = refl
bit_xor_comm_fuel zero zero (suc b) p q = absurd (omega arith)
bit_xor_comm_fuel zero (suc a) b p q = absurd (omega arith)
bit_xor_comm_fuel (suc n) a b p q = omega (
  arith,
  bit_xor_step a b,
  bit_xor_step b a,
  bit_xor_comm_fuel n (a / 2) (b / 2) (omega arith) (omega arith),
)

pub bit_xor_comm : (a b : ℕ) → bit_xor a b ≡ bit_xor b a
bit_xor_comm a b = bit_xor_comm_fuel (a + b) a b (omega arith) (omega arith)

pub bit_xor-cancel_left : (c a b : ℕ) → bit_xor c a ≡ bit_xor c b → a ≡ b
bit_xor-cancel_left c a b e =
    sym (bit_xor-twice a c)
    ∙ ap (λ (t : ℕ). bit_xor t c) (bit_xor_comm a c ∙ e ∙ bit_xor_comm c b)
    ∙ bit_xor-twice b c

pub bit_xor-cancel_right : (a b c : ℕ) → bit_xor a c ≡ bit_xor b c → a ≡ b
bit_xor-cancel_right a b c e =
    sym (bit_xor-twice a c) ∙ ap (λ (t : ℕ). bit_xor t c) e ∙ bit_xor-twice b c

pow-pos : (k : ℕ) → 0 < 2 ^ k
pow-pos zero = omega arith
pow-pos (suc k) = omega (arith, pow-suc 2 k, pow-pos k)

bit_and_step : (a b : ℕ) → bit_and a b ≡ bit_and (a / 2) (b / 2) * 2 + min (a % 2) (b % 2)
bit_and_step zero b = omega (arith, bit_and-bitwise 0 b, bit_and-bitwise 0 (b / 2))
bit_and_step (suc a) b =
    bit_and-bitwise (suc a) b
    ∙ digits-low (λ y. zero) min a b
    ∙ ap (λ (t : ℕ). t * 2 + min (suc a % 2) (b % 2)) (sym (bit_and-bitwise (suc a / 2) (b / 2)))

bit_and_zero : (n a : ℕ) → a ≤ n → bit_and a 0 ≡ 0
bit_and_zero n zero h = refl
bit_and_zero zero (suc a) h = absurd (omega arith)
bit_and_zero (suc n) (suc a) h =
    omega (arith, bit_and_step (suc a) 0, bit_and_zero n (suc a / 2) (omega arith))

-- A mask of k ones keeps what fits into k bits.
pub bit_and_ones : (k a : ℕ) → a < 2 ^ k → bit_and a (2 ^ k - 1) ≡ a
bit_and_ones zero zero h = refl
bit_and_ones zero (suc a) h = absurd (omega arith)
bit_and_ones (suc k) a h =
    let half : (2 ^ suc k - 1) / 2 ≡ 2 ^ k - 1 = omega (arith, pow-suc 2 k, pow-pos k) in
    omega (
      arith,
      bit_and_step a (2 ^ suc k - 1),
      ap (bit_and (a / 2)) half,
      bit_and_ones k (a / 2) (omega (arith, pow-suc 2 k)),
      pow-suc 2 k,
      pow-pos k,
    )

pub bit_and_ones-lt : (k a : ℕ) → bit_and a (2 ^ k - 1) < 2 ^ k
bit_and_ones-lt zero a = omega (arith, bit_and_zero a a (omega arith))
bit_and_ones-lt (suc k) a =
    let half : (2 ^ suc k - 1) / 2 ≡ 2 ^ k - 1 = omega (arith, pow-suc 2 k, pow-pos k) in
    omega (
      arith,
      bit_and_step a (2 ^ suc k - 1),
      ap (bit_and (a / 2)) half,
      bit_and_ones-lt k (a / 2),
      pow-suc 2 k,
      pow-pos k,
    )

halve_mask : (k a : ℕ) → bit_and a (2 * k + 1) ≡ bit_and (a / 2) k * 2 + a % 2
halve_mask k a = omega (arith, bit_and_step a (2 * k + 1), ap (bit_and (a / 2)) (half_odd k))
  where
    half_odd : (k : ℕ) → (2 * k + 1) / 2 ≡ k
    half_odd k = omega arith

-- A mask of eight ones, on any number.
pub bit_and_byte : (a : ℕ) → bit_and a 0xff ≡ a % 256
bit_and_byte a =
    let b = a / 2 in
    let c = b / 2 in
    let d = c / 2 in
    let e = d / 2 in
    let f = e / 2 in
    let g = f / 2 in
    let h = g / 2 in
    omega (
      arith,
      halve_mask 127 a,
      halve_mask 63 b,
      halve_mask 31 c,
      halve_mask 15 d,
      halve_mask 7 e,
      halve_mask 3 f,
      halve_mask 1 g,
      halve_mask 0 h,
      bit_and_zero (h / 2) (h / 2) (omega arith),
    )

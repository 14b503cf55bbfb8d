-- ===== src/Tp/Segments.antt =====
-- The pieces into which the fallback of `send` cuts a payload.
use opensomeip_python.Prelude.{
  ℕ, zero, suc, ◌+◌, ◌*◌, ◌≤◌, ◌<◌, ◌≡◌, refl, List, [], ◌∷◌, ◌++◌, length, All, take, drop,
  take-append-drop, length-take, length-drop, arith,
}

-- The payloads of the segments, with fuel.
unfoldable pub chunks : ℕ → ℕ → List ℕ → List (List ℕ)
chunks zero mtu left = []
chunks (suc fuel) mtu [] = []
chunks (suc fuel) mtu (x ∷ xs) = take mtu (x ∷ xs) ∷ chunks fuel mtu (drop mtu (x ∷ xs))

unfoldable pub concat : List (List ℕ) → List ℕ
concat [] = []
concat (c ∷ cs) = c ++ concat cs

-- Put together again, the segments are the payload.
pub concat-chunks :
    (fuel mtu : ℕ) (left : List ℕ)
    → 0 < mtu
    → length left ≤ fuel
    → concat (chunks fuel mtu left) ≡ left
unfolding chunks concat
concat-chunks zero mtu [] pos h = refl
concat-chunks zero mtu (x ∷ xs) pos h = absurd (omega arith)
concat-chunks (suc fuel) mtu [] pos h = refl
concat-chunks (suc fuel) mtu (x ∷ xs) pos h =
    let shorter : length (drop mtu (x ∷ xs)) ≤ fuel = omega (arith, length-drop mtu (x ∷ xs)) in
    rw (concat-chunks fuel mtu (drop mtu (x ∷ xs)) pos shorter) (take-append-drop mtu (x ∷ xs))

-- Every segment fits into the MTU and is not empty.
abbrev pub Fits : ℕ → List ℕ → Type 0
Fits mtu c = (0 < length c) × (length c ≤ mtu)

pub chunks-Fits : (fuel mtu : ℕ) (left : List ℕ) → 0 < mtu → All (Fits mtu) (chunks fuel mtu left)
unfolding chunks
chunks-Fits zero mtu left pos = tt
chunks-Fits (suc fuel) mtu [] pos = tt
chunks-Fits (suc fuel) mtu (x ∷ xs) pos =
    (omega (arith, length-take mtu (x ∷ xs)), chunks-Fits fuel mtu (drop mtu (x ∷ xs)) pos)

none_of_nothing :
    (fuel mtu : ℕ) (left : List ℕ) → length left ≡ 0 → length (chunks fuel mtu left) * mtu ≡ 0
unfolding chunks
none_of_nothing zero mtu left e = omega arith
none_of_nothing (suc fuel) mtu [] e = omega arith
none_of_nothing (suc fuel) mtu (x ∷ xs) e = absurd (omega arith)

-- No more segments than are needed: with one less, the payload would not fit.
pub length-chunks :
    (fuel mtu : ℕ) (left : List ℕ)
    → 0 < mtu
    → length left ≤ fuel
    → (length left ≤ length (chunks fuel mtu left) * mtu)
      × (length (chunks fuel mtu left) * mtu < length left + mtu)
unfolding chunks
length-chunks zero mtu [] pos h = omega arith
length-chunks zero mtu (x ∷ xs) pos h = absurd (omega arith)
length-chunks (suc fuel) mtu [] pos h = omega arith
length-chunks (suc fuel) mtu (x ∷ xs) pos h =
    let shorter : length (drop mtu (x ∷ xs)) ≤ fuel = omega (arith, length-drop mtu (x ∷ xs)) in
    grind (
      arith,
      length-drop mtu (x ∷ xs),
      length-chunks fuel mtu (drop mtu (x ∷ xs)) pos shorter,
      none_of_nothing fuel mtu (drop mtu (x ∷ xs)),
    )

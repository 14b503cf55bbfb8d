-- ===== src/E2e/Crc/Detection.antt =====
-- What the two CRCs can tell apart.
use Prim.Native.Nat.{bit_xor}
use opensomeip_python.Prelude.{
  ℕ, ◌^◌, ◌<◌, ◌≡◌, ◌≢◌, ap, ◌∙◌, sym, none, List, [], ◌∷◌, ◌++◌, All, arith,
}
use opensomeip_python.Prelude.Bits.{
  bit_and_ones, bit_and_ones-lt, bit_xor-lt, bit_xor-cancel_left, bit_xor-cancel_right,
}
use opensomeip_python.E2e.Crc.{
  iterate, feed, crc8_bit, crc16_bit, crc8_byte, crc16_byte, crc8, crc16, crc32,
}
use opensomeip_python.E2e.Crc.Bits.{
  IsReversible, crc8_bit-IsReversible, crc16_bit-IsReversible, iterate-IsReversible,
}

abbrev pub IsByte : ℕ → Type 0
IsByte b = b < 256

abbrev pub IsBytes : List ℕ → Type 0
IsBytes = All IsByte

-- A register of k bits, 8 or more, and reversible rounds for each byte.
module _ (k : ℕ) (wide : (b : ℕ) → IsByte b → b < 2 ^ k) (rounds : ℕ → ℕ)
    (r : IsReversible k rounds) where
  abbrev step : ℕ → ℕ → ℕ
  step c byte = rounds (bit_xor c byte)

  rounds-injective : (x y : ℕ) → x < 2 ^ k → y < 2 ^ k → rounds x ≡ rounds y → x ≡ y
  rounds-injective x y hx hy e = sym (r.undone x hx) ∙ ap r.undo e ∙ r.undone y hy

  step-lt : (c b : ℕ) → c < 2 ^ k → IsByte b → step c b < 2 ^ k
  step-lt c b hc hb = r.in_width (bit_xor c b) (bit_xor-lt k c b hc (wide b hb))

  pub feed-lt : (c : ℕ) (bytes : List ℕ) → c < 2 ^ k → IsBytes bytes → feed step c bytes < 2 ^ k
  unfolding feed
  feed-lt c [] hc h = hc
  feed-lt c (b ∷ bytes) hc h = feed-lt (step c b) bytes (step-lt c b hc h.0) h.1

  -- The same bytes lead different registers to different registers.
  feed-injective :
      (c d : ℕ) (bytes : List ℕ)
      → c < 2 ^ k
      → d < 2 ^ k
      → IsBytes bytes
      → feed step c bytes ≡ feed step d bytes
      → c ≡ d
  unfolding feed
  feed-injective c d [] hc hd h e = e
  feed-injective c d (b ∷ bytes) hc hd h e =
      let same =
        feed-injective (step c b) (step d b) bytes (step-lt c b hc h.0) (step-lt d b hd h.0) h.1
          e in
      let fits = wide b h.0 in
      bit_xor-cancel_right c d b (
        rounds-injective (bit_xor c b) (bit_xor d b) (bit_xor-lt k c b hc fits)
          (bit_xor-lt k d b hd fits) same)

  pub feed_differs :
      (c : ℕ) (before after : List ℕ) (a b : ℕ)
      → c < 2 ^ k
      → IsBytes before
      → IsBytes after
      → IsByte a
      → IsByte b
      → feed step c (before ++ a ∷ after) ≡ feed step c (before ++ b ∷ after)
      → a ≡ b
  unfolding feed
  feed_differs c [] after a b hc hp hs ha hb e =
      let same =
        feed-injective (step c a) (step c b) after (step-lt c a hc ha) (step-lt c b hc hb) hs e in
      bit_xor-cancel_left c a b (
        rounds-injective (bit_xor c a) (bit_xor c b) (bit_xor-lt k c a hc (wide a ha))
          (bit_xor-lt k c b hc (wide b hb)) same)
  feed_differs c (x ∷ before) after a b hc hp hs ha hb e =
      feed_differs (step c x) before after a b (step-lt c x hc hp.0) hp.1 hs ha hb e

rounds8-IsReversible : IsReversible 8 (iterate 8 crc8_bit)
rounds8-IsReversible = iterate-IsReversible 8 8 crc8_bit crc8_bit-IsReversible

rounds16-IsReversible : IsReversible 16 (iterate 8 crc16_bit)
rounds16-IsReversible = iterate-IsReversible 16 8 crc16_bit crc16_bit-IsReversible

-- The checksums of byte strings fit into 8 and into 16 bits.
pub crc-lt :
    (bytes : List ℕ) → IsBytes bytes → (crc8 none bytes < 2 ^ 8) × (crc16 none bytes < 2 ^ 16)
unfolding crc8 crc16
crc-lt bytes h = (
  bit_xor-lt 8 (feed crc8_byte 0xff bytes) 0xff
      (feed-lt 8 (λ b p. p) (iterate 8 crc8_bit) rounds8-IsReversible 0xff bytes (omega arith) h)
      (omega arith),
  bit_xor-lt 16 (feed crc16_byte 0xffff bytes) 0xffff
      (feed-lt 16 (λ b p. omega arith) (iterate 8 crc16_bit) rounds16-IsReversible 0xffff bytes
        (omega arith) h)
      (omega arith),
)

-- Both CRCs, where they are computed without the extension, detect every error within one byte: if two byte strings differ in one byte only, their
-- checksums differ.
pub crc_detects_byte :
    (before after : List ℕ) (a b : ℕ)
    → IsBytes before
    → IsBytes after
    → IsByte a
    → IsByte b
    → a ≢ b
    → (crc8 none (before ++ a ∷ after) ≢ crc8 none (before ++ b ∷ after))
      × (crc16 none (before ++ a ∷ after) ≢ crc16 none (before ++ b ∷ after))
unfolding crc8 crc16
crc_detects_byte before after a b hp hs ha hb ne = (
  λ e. ne (
      feed_differs 8 (λ x p. p) (iterate 8 crc8_bit) rounds8-IsReversible 0xff before after a b
        (omega arith) hp hs ha hb (bit_xor-cancel_right _ _ 0xff e)),
  λ e. ne (
      feed_differs 16 (λ x p. omega arith) (iterate 8 crc16_bit) rounds16-IsReversible 0xffff before
        after a b (omega arith) hp hs ha hb (bit_xor-cancel_right _ _ 0xffff e)),
)

-- Without the extension `crc32` fits into 32 bits, and is the checksum of zlib unless that is wider.
pub crc32-lt :
    (zlib : List ℕ → ℕ) (bytes : List ℕ)
    → (crc32 none zlib bytes < 2 ^ 32) × (zlib bytes < 2 ^ 32 → crc32 none zlib bytes ≡ zlib bytes)
unfolding crc32
crc32-lt zlib bytes = (bit_and_ones-lt 32 (zlib bytes), bit_and_ones 32 (zlib bytes))

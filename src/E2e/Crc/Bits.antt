-- ===== src/E2e/Crc/Bits.antt =====
-- The rounds of the two CRCs stay within their register, and can be run backwards.
use Prim.Native.Nat.{bit_xor}
use opensomeip_python.Prelude.{
  ℕ, zero, suc, ◌+◌, ◌*◌, ◌/◌, ◌%◌, ◌^◌, ◌<◌, ◌≡◌, refl, ap, ◌∙◌, true, ◌&&◌, &&_iff, ◌==◌, ==_iff,
  ltb, ltb→lt, if◌then◌else◌,
}
use opensomeip_python.Prelude.Bits.{all_below, all_below_sound, bit_xor-twice, bit_xor-lt}
use opensomeip_python.E2e.Crc.{iterate, crc8_bit, crc16_bit}

-- A round of a CRC, as a function on the registers of k bits that another function undoes.
pub record IsReversible (k : ℕ) (round : ℕ → ℕ) : Type 0 where
  pub undo : ℕ → ℕ
  pub in_width : (c : ℕ) → c < 2 ^ k → round c < 2 ^ k
  pub undone : (c : ℕ) → c < 2 ^ k → undo (round c) ≡ c

-- The most significant bit of the polynomial tells which branch was taken.
undo8 : ℕ → ℕ
undo8 c = if c % 2 == 0 then c / 2 else bit_xor c 0x1d / 2 + 0x80

undo16 : ℕ → ℕ
undo16 c = if ltb c 0x8000 then c * 2 else bit_xor c 0x8408 * 2 + 1

table8 : all_below 256 (λ c. ltb (crc8_bit c) 256 && undo8 (crc8_bit c) == c) ≡ true
unfolding all_below crc8_bit undo8
table8 = refl

table16 : all_below 65536 (λ c. ltb (crc16_bit c) 65536 && undo16 (crc16_bit c) == c) ≡ true
unfolding all_below crc16_bit undo16
table16 = refl

pub crc8_bit-IsReversible : IsReversible 8 crc8_bit
crc8_bit-IsReversible = record {
  undo = undo8;
  in_width = λ c h. ltb→lt _ 256 ((&&_iff _ _).0 (all_below_sound 256 _ c table8 h)).0;
  undone = λ c h. (==_iff _ c).0 ((&&_iff _ _).0 (all_below_sound 256 _ c table8 h)).1;
}

pub crc16_bit-IsReversible : IsReversible 16 crc16_bit
crc16_bit-IsReversible = record {
  undo = undo16;
  in_width = λ c h. ltb→lt _ 65536 ((&&_iff _ _).0 (all_below_sound 65536 _ c table16 h)).0;
  undone = λ c h. (==_iff _ c).0 ((&&_iff _ _).0 (all_below_sound 65536 _ c table16 h)).1;
}

-- Any number of rounds.
pub iterate-IsReversible : (k n : ℕ) (f : ℕ → ℕ) → IsReversible k f → IsReversible k (iterate n f)
unfolding iterate
iterate-IsReversible k zero f r = record {
  undo = λ c. c;
  in_width = λ c h. h;
  undone = λ c h. refl;
}
iterate-IsReversible k (suc n) f r =
    let later = iterate-IsReversible k n f r in
    record {
      undo = λ c. r.undo (later.undo c);
      in_width = λ c h. later.in_width (f c) (r.in_width c h);
      undone = λ c h. ap r.undo (later.undone (f c) (r.in_width c h)) ∙ r.undone c h;
    }

-- A whole byte of input: `c ^= byte` and the rounds.
pub byte-IsReversible :
    (k byte : ℕ) (rounds : ℕ → ℕ)
    → byte < 2 ^ k
    → IsReversible k rounds
    → IsReversible k (λ c. rounds (bit_xor c byte))
byte-IsReversible k byte rounds fits r = record {
  undo = λ c. bit_xor (r.undo c) byte;
  in_width = λ c h. r.in_width (bit_xor c byte) (bit_xor-lt k c byte h fits);
  undone = λ c h.
      ap (λ (x : ℕ). bit_xor x byte) (r.undone (bit_xor c byte) (bit_xor-lt k c byte h fits))
      ∙ bit_xor-twice c byte;
}

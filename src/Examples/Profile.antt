-- ===== src/Examples/Profile.antt =====
-- examples/e2e_protection/basic_e2e.py: a profile of the application, and the exchange of the
-- program's sender and receiver. What the program prints is returned.
pub mod Exchange
pub mod Checking
use Prim.Native.Nat.{bit_and, bit_xor}
use opensomeip_python.Prelude.{
  ℕ, zero, suc, ◌+◌, not, Option, none, some, List, [], ◌∷◌, ◌++◌, ◌==◌, if◌then◌else◌,
}
use opensomeip_python.Prelude.Int.{pos}
use opensomeip_python.Exceptions.{Result, ok, err, map_result, bind}
use opensomeip_python.Serialization.Struct.{pack_unsigned, from_be}
use opensomeip_python.E2e.Crc.{Calculated, crc16}
use opensomeip_python.E2e.Protection.{
  CheckStatus, status_ok, status_error, wrong_sequence, E2eConfig, E2eProfile, E2eProtection,
  new_protection, protect, check, profile_01,
}

-- `SimpleE2EProfile.protect`: the CRC, the counter and a zero in front. The counter's low byte
-- always fits its format.
unfoldable pub simple_protect : Calculated → List ℕ → ℕ → Result (List ℕ)
unfolding crc16 pack_unsigned
simple_protect calculate payload counter =
    map_result (λ crc. crc ++ bit_and counter 0xff ∷ 0 ∷ payload)
      (pack_unsigned 2 (pos (crc16 calculate payload)))

-- `SimpleE2EProfile.check`
unfoldable pub simple_check : Calculated → List ℕ → ℕ → Result CheckStatus
unfolding crc16 from_be
simple_check calculate (a ∷ b ∷ stored_counter ∷ reserved ∷ payload) counter =
    if not (crc16 calculate payload == from_be 0 (a ∷ b ∷ []))
    then ok status_error
    else if not (stored_counter == bit_and counter 0xff)
    then ok wrong_sequence
    else ok status_ok
simple_check calculate _ counter = ok status_error

-- `SimpleE2EProfile()`
abbrev pub simple_profile : Calculated → E2eProfile
simple_profile calculate = record {
  protect_bytes = simple_protect calculate;
  check_bytes = simple_check calculate;
}

abbrev pub test_data : List ℕ
test_data = 1 ∷ 2 ∷ 3 ∷ 4 ∷ 5 ∷ []

abbrev pub demo_config : E2eConfig
demo_config = record {
  profile_id = profile_01;
  data_id = 0x1234;
  data_length = 5;
  max_delta_counter = 15;
  crc_offset = 0;
  counter_offset = 0;
}

-- `sender` and `receiver`
pub record Ends : Type 0 where
  pub sender : E2eProtection
  pub receiver : E2eProtection

unfoldable pub new_ends : Calculated → Ends
unfolding new_protection
new_ends calculate =
    let p = new_protection demo_config (some (simple_profile calculate)) in
    record { sender = p; receiver = p }

-- A round of the `for` loop: what the receiver finds, and the two ends after it. The receiver's
-- counter is moved on by hand.
unfoldable pub exchange : List ℕ → Ends → Result CheckStatus × Ends
unfolding protect check
exchange payload e =
    let t = protect payload e.sender in
    elim t.0 [
      | err x ↦ (err x, record e { sender = t.1 })
      | ok bytes ↦ (
        check bytes e.receiver,
        record {
          sender = t.1;
          receiver = record e.receiver { counter = bit_and (e.receiver.counter + 1) 0xff };
        },
      )
    ]

-- Rounds with one payload after the other.
unfoldable pub exchange_all : List (List ℕ) → Ends → List (Result CheckStatus) × Ends
unfolding exchange
exchange_all [] e = ([], e)
exchange_all (payload ∷ rest) e =
    let t = exchange payload e in let later = exchange_all rest t.1 in (t.0 ∷ later.0, later.1)

-- `corrupted[i] ^= 0xFF`
unfoldable pub flip : ℕ → List ℕ → List ℕ
flip n [] = []
flip zero (b ∷ bytes) = bit_xor b 0xff ∷ bytes
flip (suc n) (b ∷ bytes) = b ∷ flip n bytes

-- What `main` prints: the outcomes of the three rounds, and of the checks of the two corruptions.
unfoldable pub demo :
    Calculated → List (Result CheckStatus) × Result CheckStatus × Result CheckStatus
unfolding new_ends exchange_all protect check flip
demo calculate =
    let (printed, e) = exchange_all (test_data ∷ test_data ∷ test_data ∷ []) (new_ends calculate) in
    let protected = (protect test_data e.sender).0 in
    (
      printed,
      bind protected (λ bytes. check (flip 5 bytes) e.receiver),
      bind protected (λ bytes. check (flip 0 bytes) e.receiver),
    )

-- ===== src/Examples/Large.antt =====
-- examples/advanced/large_messages: the test pattern and the handlers. The text of the server's
-- report is a parameter.
pub mod Pattern
pub mod Programs
pub mod Segmented
use opensomeip_python.Prelude.{
  ℕ, zero, suc, ◌/◌, ◌%◌, Bool, true, false, ◌&&◌, List, [], ◌∷◌, ◌++◌, take, length, ltb, ◌==◌,
  if◌then◌else◌,
}
use opensomeip_python.Prelude.Int.{to_ℕ}
use opensomeip_python.Prelude.Dict.{Dict}
use opensomeip_python.Serialization.Struct.{unpack_unsigned}

-- `range(start, start + n)`
unfoldable pub range : ℕ → ℕ → List ℕ
range start zero = []
range start (suc n) = start ∷ range (suc start) n

-- `pattern * n`
unfoldable pub repeat : ℕ → List ℕ → List ℕ
repeat zero pattern = []
repeat (suc n) pattern = pattern ++ repeat n pattern

unfoldable pub generate_test_data : ℕ → List ℕ
unfolding range repeat take
generate_test_data size = repeat (size / 256) (range 0 256) ++ take (size % 256) (range 0 256)

-- `all(byte == i % 256 for i, byte in enumerate(data, i))`
unfoldable pub verify_from : ℕ → List ℕ → Bool
verify_from i [] = true
verify_from i (byte ∷ bytes) = byte == i % 256 && verify_from (suc i) bytes

unfoldable pub verify_test_data : List ℕ → Bool
unfolding verify_from
verify_test_data bytes = verify_from 0 bytes

unfoldable pub handle_send_large_data : List ℕ → List ℕ
unfolding generate_test_data unpack_unsigned take
handle_send_large_data payload =
    if ltb (length payload) 4
    then []
    else generate_test_data (to_ℕ (unpack_unsigned 4 (take 4 payload)))

-- `f"Received {len(payload)} bytes, integrity: {status}"`, encoded.
abbrev pub Report : Type 0
Report = ℕ → Bool → List ℕ

unfoldable pub handle_receive_large_data : Report → List ℕ → List ℕ
unfolding verify_test_data
handle_receive_large_data report payload = report (length payload) (verify_test_data payload)

unfoldable pub handle_echo_large_data : List ℕ → List ℕ
handle_echo_large_data payload = payload

-- `HANDLERS`. No handler raises.
unfoldable pub handlers : Report → Dict (List ℕ → List ℕ)
unfolding handle_send_large_data handle_receive_large_data handle_echo_large_data
handlers report =
    (1, handle_send_large_data)
    ∷ (2, handle_receive_large_data report)
    ∷ (3, handle_echo_large_data)
    ∷ []

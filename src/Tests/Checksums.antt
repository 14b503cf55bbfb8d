-- ===== src/Tests/Checksums.antt =====
-- The CRCs and the E2E counter at concrete inputs.
use opensomeip_python.Prelude.{
  ℕ, ◌≡◌, ◌≢◌, ◌%◌, ◌+◌, refl, none, some, List, [], ◌∷◌, arith, length,
}
use opensomeip_python.Exceptions.{ok}
use opensomeip_python.E2e.Crc.{crc8, crc16}
use opensomeip_python.E2e.Crc.Detection.{crc_detects_byte}
use opensomeip_python.E2e.Protection.{E2eProtection, protect_all, status_ok, wrong_sequence}
use opensomeip_python.E2e.Protection.Laws.{returned, counter-protect_all}
use opensomeip_python.Examples.Profile.{new_ends}
use opensomeip_python.Examples.Profile.Checking.{check_each, verdicts, receiver_out_of_step}
use opensomeip_python.Tests.Fixtures.{e2e_config, counting_profile}

-- The check values that are published for these CRCs, over "123456789".
abbrev digits : List ℕ
digits = 49 ∷ 50 ∷ 51 ∷ 52 ∷ 53 ∷ 54 ∷ 55 ∷ 56 ∷ 57 ∷ []

crc8-digits : crc8 none digits ≡ 0x4b
unfolding crc8
crc8-digits = refl

crc16-digits : crc16 none digits ≡ 0x906e
unfolding crc16
crc16-digits = refl

crc_detects_byte_example :
    (crc8 none (1 ∷ 2 ∷ 9 ∷ []) ≢ crc8 none (1 ∷ 3 ∷ 9 ∷ []))
    × (crc16 none (1 ∷ 2 ∷ 9 ∷ []) ≢ crc16 none (1 ∷ 3 ∷ 9 ∷ []))
crc_detects_byte_example =
    crc_detects_byte (1 ∷ []) (9 ∷ []) 2 3 (omega arith, tt) (omega arith, tt) (omega arith)
      (omega arith) (ground arith)

abbrev sender : E2eProtection
sender = record { config = e2e_config; profile = some counting_profile; counter = 255 }

counter-protect_all_example :
    let out = protect_all ((1 ∷ []) ∷ (2 ∷ []) ∷ []) sender in
    (out.1.counter ≡ (255 + returned out.0) % 256) × (length out.0 ≡ 2)
counter-protect_all_example =
    counter-protect_all counting_profile ((1 ∷ []) ∷ (2 ∷ []) ∷ []) sender refl (omega arith)

receiver_out_of_step_example :
    check_each
      (protect_all ((1 ∷ []) ∷ (2 ∷ []) ∷ []) (new_ends none).sender).0
      (new_ends none).receiver
    ≡ verdicts 0 ((1 ∷ []) ∷ (2 ∷ []) ∷ [])
receiver_out_of_step_example =
    receiver_out_of_step ((1 ∷ []) ∷ (2 ∷ []) ∷ []) ((omega arith, tt), ((omega arith, tt), tt))

first_only : verdicts 0 ((1 ∷ []) ∷ (2 ∷ []) ∷ []) ≡ ok status_ok ∷ ok wrong_sequence ∷ []
unfolding verdicts
first_only = refl

-- ===== src/Examples/Profile/Checking.antt =====
-- The example's profile under `E2EProtection.check`, which does not move the counter on.
use Prim.Native.Nat.{bit_and}
use opensomeip_python.Prelude.{
  ℕ, suc, ◌+◌, ◌%◌, ◌≡◌, refl, ap₂, none, some, List, [], ◌∷◌, All, if◌then◌else◌, arith, ◌==◌,
}
use opensomeip_python.Prelude.Bits.{bit_and_byte}
use opensomeip_python.Exceptions.{Result, ok, bind}
use opensomeip_python.E2e.Crc.Detection.{IsBytes}
use opensomeip_python.E2e.Protection.{
  CheckStatus, status_ok, wrong_sequence, E2eProtection, protect, check, protect_all,
}
use opensomeip_python.E2e.Protection.Laws.{mask-mod, ChecksCounter}
use opensomeip_python.Examples.Profile.{simple_profile, new_ends}
use opensomeip_python.Examples.Profile.Exchange.{simple_protect-header, simple_check-simple_protect}

-- The profile of the example, with its CRC computed without the extension, accepts exactly the counters
-- that agree in their low byte.
pub simple_profile-ChecksCounter : ChecksCounter (simple_profile none)
simple_profile-ChecksCounter payload bytes sent expected h made =
    let outcome = simple_check-simple_protect payload bytes sent expected h made in
    ground (arith, outcome, bit_and_byte sent, bit_and_byte expected)

-- A receiver checks what it gets, one after the other, and never protects anything itself.
unfoldable pub check_each : List (Result (List ℕ)) → E2eProtection → List (Result CheckStatus)
unfolding check
check_each [] receiver = []
check_each (r ∷ rs) receiver = bind r (λ bytes. check bytes receiver) ∷ check_each rs receiver

-- What it finds, if the sender has protected n payloads before.
unfoldable pub verdicts : ℕ → List (List ℕ) → List (Result CheckStatus)
verdicts n [] = []
verdicts n (payload ∷ rest) =
    ok (if n % 256 == 0 then status_ok else wrong_sequence) ∷ verdicts (suc n) rest

check_each-verdicts :
    (n : ℕ) (payloads : List (List ℕ)) (sender receiver : E2eProtection)
    → All IsBytes payloads
    → sender.profile ≡ some (simple_profile none)
    → receiver.profile ≡ some (simple_profile none)
    → sender.counter ≡ n % 256
    → receiver.counter ≡ 0
    → check_each (protect_all payloads sender).0 receiver ≡ verdicts n payloads
unfolding check_each protect_all verdicts protect check
check_each-verdicts n [] sender receiver h s r cs cr = refl
check_each-verdicts n (payload ∷ rest) sender receiver h s r cs cr =
    let (a, b, crc, made) = simple_protect-header payload sender.counter h.0 in
    let bytes = a ∷ b ∷ bit_and sender.counter 0xff ∷ 0 ∷ payload in
    let found = simple_check-simple_protect payload bytes sender.counter 0 h.0 made in
    let next = mask-mod (sender.counter + 1) (omega (arith, cs)) in
    let sent : protect payload sender
        ≡ (ok bytes, record sender { counter = bit_and (sender.counter + 1) 0xff }) =
      ground (arith, s, made) in
    let checked : check bytes receiver ≡ ok (if n % 256 == 0 then status_ok else wrong_sequence) =
      ground (arith, r, cr, found, cs, bit_and_byte sender.counter, bit_and_byte 0) in
    let later =
      check_each-verdicts (suc n) rest
        (record sender { counter = bit_and (sender.counter + 1) 0xff }) receiver h.1 s r
        (omega (arith, next, cs)) cr in
    rw sent (ap₂ ◌∷◌ checked later)

-- With the example's profile, whose CRC is computed without the extension, and a sender and a receiver
-- that both start at counter 0: of the payloads that the sender protects one after the other, a
-- receiver that only checks accepts the first and every 256th after it. It finds WRONG_SEQUENCE for
-- all the others, although nothing was lost or changed.
pub receiver_out_of_step :
    (payloads : List (List ℕ))
    → All IsBytes payloads
    → let ends = new_ends none in
      check_each (protect_all payloads ends.sender).0 ends.receiver ≡ verdicts 0 payloads
unfolding new_ends
receiver_out_of_step payloads h =
    check_each-verdicts 0 payloads (new_ends none).sender (new_ends none).receiver h refl refl refl
      refl

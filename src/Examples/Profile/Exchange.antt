-- ===== src/Examples/Profile/Exchange.antt =====
-- What the example's profile detects, and that its two ends stay in step.
use Prim.Native.Nat.{bit_and}
use opensomeip_python.Prelude.{
  ℕ, ◌+◌, ◌/◌, ◌%◌, ◌<◌, ◌≡◌, ◌≢◌, refl, sym, ap₂, ◌∙◌, none, some, List, [], ◌∷◌, ◌++◌, All,
  All-append, map, if◌then◌else◌, arith, ◌==◌, ==_iff, Bool-cases, inl, inr,
}
use opensomeip_python.Exceptions.{ok}
use opensomeip_python.Serialization.Struct.{pack_unsigned, be_bytes, from_be, from_be-be_bytes}
use opensomeip_python.E2e.Crc.{crc16}
use opensomeip_python.E2e.Crc.Detection.{IsByte, IsBytes, crc-lt, crc_detects_byte}
use opensomeip_python.E2e.Protection.{
  status_ok, status_error, wrong_sequence, new_protection, protect, check,
}
use opensomeip_python.E2e.Protection.Laws.{mask-mod}
use opensomeip_python.Examples.Profile.{
  simple_protect, simple_check, simple_profile, Ends, new_ends, exchange, exchange_all,
}

-- The profile's header, where the CRC is computed without the extension.
pub simple_protect-header :
    (payload : List ℕ) (counter : ℕ)
    → IsBytes payload
    → (a b : ℕ) × (from_be 0 (a ∷ b ∷ []) ≡ crc16 none payload)
      × (simple_protect none payload counter ≡ ok (a ∷ b ∷ bit_and counter 0xff ∷ 0 ∷ payload))
unfolding simple_protect pack_unsigned be_bytes
simple_protect-header payload counter h =
    let crc = crc16 none payload in
    let (_, small) = crc-lt payload h in
    (crc / 256 % 256, crc % 256, from_be-be_bytes 2 crc small, ground (arith, small))

-- Where the CRC is computed without the extension, a protected payload is accepted exactly under the
-- counters that agree with the sender's in their low byte; under every other it is out of sequence.
pub simple_check-simple_protect :
    (payload bytes : List ℕ) (sent expected : ℕ)
    → IsBytes payload
    → simple_protect none payload sent ≡ ok bytes
    → simple_check none bytes expected
      ≡ ok (if bit_and sent 0xff == bit_and expected 0xff then status_ok else wrong_sequence)
unfolding simple_check
simple_check-simple_protect payload bytes sent expected h e =
    let (a, b, crc, made) = simple_protect-header payload sent h in
    let same : bytes ≡ a ∷ b ∷ bit_and sent 0xff ∷ 0 ∷ payload = ground (arith, sym e ∙ made) in
    rw same (ground (arith, crc))

-- Where the CRC is computed without the extension, one byte of the payload that changes on the way is
-- found: the payload is protected by a header in front of it, and the check of that header with the
-- changed payload gives ERROR, under whatever counter.
pub corrupted_payload :
    (before after : List ℕ) (a b sent expected : ℕ)
    → IsBytes before
    → IsBytes after
    → IsByte a
    → IsByte b
    → a ≢ b
    → (header : List ℕ) × (simple_protect none (before ++ a ∷ after) sent
        ≡ ok (header ++ (before ++ a ∷ after)))
      × (simple_check none (header ++ (before ++ b ∷ after)) expected ≡ ok status_error)
unfolding simple_check
corrupted_payload before after a b sent expected hp hs ha hb differs =
    let whole = All-append IsByte before (a ∷ after) hp (ha, hs) in
    let (x, y, crc, made) = simple_protect-header (before ++ a ∷ after) sent whole in
    let (_, found) = crc_detects_byte before after a b hp hs ha hb differs in
    (
      x ∷ y ∷ bit_and sent 0xff ∷ 0 ∷ [],
      made,
      elim (Bool-cases (crc16 none (before ++ b ∷ after) == from_be 0 (x ∷ y ∷ []))) [
        | inl same ↦ absurd (found (sym ((==_iff _ _).0 same ∙ crc)))
        | inr other ↦ ground (arith, other)
      ],
    )

-- The two ends of the example: the same profile, and the same counter of one byte.
record InStep (e : Ends) : Type 0 where
  sender_profile : e.sender.profile ≡ some (simple_profile none)
  receiver_profile : e.receiver.profile ≡ some (simple_profile none)
  same_counter : e.sender.counter ≡ e.receiver.counter
  one_byte : e.sender.counter < 256

exchange-InStep :
    (payload : List ℕ) (e : Ends)
    → IsBytes payload
    → InStep e
    → ((exchange payload e).0 ≡ ok status_ok) × InStep (exchange payload e).1
unfolding exchange protect check
exchange-InStep payload e h s =
    let (a, b, crc, made) = simple_protect-header payload e.sender.counter h in
    let bytes = a ∷ b ∷ bit_and e.sender.counter 0xff ∷ 0 ∷ payload in
    let accepted =
      simple_check-simple_protect payload bytes e.sender.counter e.receiver.counter h made in
    let next = mask-mod (e.sender.counter + 1) (omega (arith, s.one_byte)) in
    (
      ground (arith, s.sender_profile, s.receiver_profile, made, accepted, s.same_counter),
      record {
        sender_profile = ground (arith, s.sender_profile, made);
        receiver_profile = ground (arith, s.sender_profile, s.receiver_profile, made);
        same_counter = ground (arith, s.sender_profile, made, s.same_counter);
        one_byte = ground (arith, s.sender_profile, made, next);
      },
    )

exchange_all-InStep :
    (payloads : List (List ℕ)) (e : Ends)
    → All IsBytes payloads
    → InStep e
    → (exchange_all payloads e).0 ≡ map (λ payload. ok status_ok) payloads
unfolding exchange_all
exchange_all-InStep [] e h s = refl
exchange_all-InStep (payload ∷ rest) e h s =
    let (accepted, still) = exchange-InStep payload e h.0 s in
    ap₂ ◌∷◌ accepted (exchange_all-InStep rest (exchange payload e).1 h.1 still)

-- Where the CRC is computed without the extension, the receiver of the example, which moves its counter
-- on by hand, accepts the payloads of bytes that the sender protects one after the other, however
-- many there are: the counters wrap around together.
pub exchange_all-accepted :
    (payloads : List (List ℕ))
    → All IsBytes payloads
    → (exchange_all payloads (new_ends none)).0 ≡ map (λ payload. ok status_ok) payloads
unfolding new_ends new_protection
exchange_all-accepted payloads h = exchange_all-InStep payloads (new_ends none) h (record {
  sender_profile = refl;
  receiver_profile = refl;
  same_counter = refl;
  one_byte = omega arith;
})

-- ===== src/Examples/Large/Pattern.antt =====
-- The test pattern of examples/advanced/large_messages: what is generated, and what is verified.
use opensomeip_python.Prelude.{
  ℕ, zero, suc, ◌+◌, ◌*◌, ◌/◌, ◌%◌, ◌≤◌, ◌≡◌, ◌↔◌, refl, sym, ap, ap₂, ◌∙◌, true, List, [], ◌∷◌,
  ◌++◌, take_of_length-le, take, length, arith,
}
use opensomeip_python.Prelude.Int.{pos}
use opensomeip_python.Exceptions.{ok}
use opensomeip_python.Serialization.Struct.{pack_unsigned, unpack-pack_unsigned}
use opensomeip_python.Examples.Large.{
  range, repeat, generate_test_data, verify_from, verify_test_data, handle_send_large_data,
}

-- The bytes i, i + 1, … modulo 256.
counting : ℕ → ℕ → List ℕ
counting i zero = []
counting i (suc n) = i % 256 ∷ counting (suc i) n

length-counting : (i n : ℕ) → length (counting i n) ≡ n
unfolding counting
length-counting i zero = refl
length-counting i (suc n) = omega (arith, length-counting (suc i) n)

counting-append : (i m n : ℕ) → counting i (m + n) ≡ counting i m ++ counting (i + m) n
unfolding counting
counting-append i zero n = ap₂ counting (omega arith) (omega arith)
counting-append i (suc m) n =
    let later : suc i + m ≡ i + suc m = omega arith in
    let count : suc m + n ≡ suc (m + n) = omega arith in
    ap (counting i) count
    ∙ ap (◌∷◌ (i % 256))
        (counting-append (suc i) m n ∙ ap (λ j. counting (suc i) m ++ counting j n) later)

counting-around : (i n : ℕ) → counting (256 + i) n ≡ counting i n
unfolding counting
counting-around i zero = refl
counting-around i (suc n) =
    let shifted : suc (256 + i) ≡ 256 + suc i = omega arith in
    ap₂ ◌∷◌ (omega arith) (ap (λ j. counting j n) shifted ∙ counting-around (suc i) n)

range-counting : (i n : ℕ) → i + n ≤ 256 → range i n ≡ counting i n
unfolding range counting
range-counting i zero h = refl
range-counting i (suc n) h = ap₂ ◌∷◌ (omega arith) (range-counting (suc i) n (omega arith))

take-range : (i k n : ℕ) → k ≤ n → take k (range i n) ≡ range i k
unfolding take range
take-range i zero n h = refl
take-range i (suc k) zero h = absurd (omega arith)
take-range i (suc k) (suc n) h = ap (λ r. i ∷ r) (take-range (suc i) k n (omega arith))

repeat-counting : (k : ℕ) → repeat k (range 0 256) ≡ counting 0 (256 * k)
unfolding repeat counting
repeat-counting zero = let nothing : 0 ≡ 256 * 0 = omega arith in ap (counting 0) nothing
repeat-counting (suc k) =
    let more : 256 + 256 * k ≡ 256 * suc k = omega arith in
    ap₂ ◌++◌ (range-counting 0 256 (omega arith))
      (repeat-counting k ∙ sym (counting-around 0 (256 * k)))
    ∙ sym (counting-append 0 256 (256 * k))
    ∙ ap (counting 0) more

counting-around_times : (k i n : ℕ) → counting (256 * k + i) n ≡ counting i n
counting-around_times zero i n = ap (λ j. counting j n) (omega arith)
counting-around_times (suc k) i n =
    let out : 256 * suc k + i ≡ 256 + (256 * k + i) = omega arith in
    ap (λ j. counting j n) out ∙ counting-around (256 * k + i) n ∙ counting-around_times k i n

generate_test_data-counting : (size : ℕ) → generate_test_data size ≡ counting 0 size
unfolding generate_test_data
generate_test_data-counting size =
    let whole : ℕ = 256 * (size / 256) in
    let rest : ℕ = size % 256 in
    let tail : take rest (range 0 256) ≡ counting (0 + whole) rest =
      take-range 0 rest 256 (omega arith)
      ∙ range-counting 0 rest (omega arith)
      ∙ sym (counting-around_times (size / 256) 0 rest)
      ∙ ap (λ j. counting j rest) (omega arith) in
    let all : whole + rest ≡ size = omega arith in
    ap₂ ◌++◌ (repeat-counting (size / 256)) tail
    ∙ sym (counting-append 0 whole rest)
    ∙ ap (counting 0) all

verify_from_iff :
    (i : ℕ) (bytes : List ℕ) → (verify_from i bytes ≡ true) ↔ (bytes ≡ counting i (length bytes))
unfolding verify_from counting
verify_from_iff i [] = (λ h. refl, λ h. refl)
verify_from_iff i (b ∷ bytes) = ground (arith, verify_from_iff (suc i) bytes)

-- A payload is verified exactly when it is the data generated for its length.
pub verify_test_data_iff :
    (bytes : List ℕ) → (verify_test_data bytes ≡ true) ↔ (bytes ≡ generate_test_data (length bytes))
unfolding verify_test_data
verify_test_data_iff bytes =
    let same = generate_test_data-counting (length bytes) in
    let exact = verify_from_iff 0 bytes in (λ h. exact.0 h ∙ sym same, λ h. exact.1 (h ∙ same))

pub length-generate_test_data : (size : ℕ) → length (generate_test_data size) ≡ size
length-generate_test_data size =
    ap length (generate_test_data-counting size) ∙ length-counting 0 size

-- The server answers a request for data with as many bytes as its first four bytes ask for, and
-- what it answers is verified.
pub request_answered :
    (size : ℕ) (payload : List ℕ)
    → pack_unsigned 4 (pos size) ≡ ok payload
    → (length (handle_send_large_data payload) ≡ size)
      × (verify_test_data (handle_send_large_data payload) ≡ true)
unfolding handle_send_large_data
request_answered size payload h =
    let (back, four) = unpack-pack_unsigned 4 (pos size) payload h in
    let whole : take 4 payload ≡ payload = take_of_length-le 4 payload (omega (arith, four)) in
    let made : handle_send_large_data payload ≡ generate_test_data size =
      ground (arith, four, whole, back) in
    let long = length-generate_test_data size in
    (
      ap length made ∙ long,
      ap verify_test_data made
          ∙ (verify_test_data_iff (generate_test_data size)).1 (ap generate_test_data (sym long)),
    )

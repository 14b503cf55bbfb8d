-- ===== src/Examples/Calculator/Sums.antt =====
-- What the calculator's two programs compute together.
use Prim.Native.Nat.{bit_and}
use opensomeip_python.Prelude.{
  ℕ, suc, ◌-◌, ◌*◌, ◌^◌, Bool-cases, ltb, ◌≡◌, refl, sym, ap, ◌∙◌, ◌⊎◌, true, false, some, List, [],
  ◌∷◌, ◌++◌, length, length-append, take, drop, take_append, drop_append, take_of_length-le, arith,
  inl, inr,
}
use opensomeip_python.Prelude.Int.{ℤ, pos, negsuc, ◌+ℤ◌, ◌*ℤ◌, fits_signed}
use opensomeip_python.Prelude.Dict.{lookup}
use opensomeip_python.Exceptions.{ok, err, Result-cases, struct_error}
use opensomeip_python.Serialization.Struct.{
  be_bytes, pack_signed, unpack_signed, unpack-pack_signed,
}
use opensomeip_python.Message.{Message, make_message}
use opensomeip_python.Types.Enums.{request, e_ok}
use opensomeip_python.Types.MessageId
use opensomeip_python.Types.RequestId
use opensomeip_python.Prelude.Bits.{bit_and_ones-lt}
use opensomeip_python.Receiver.{Item, message, put, put_nowait, put_async}
use opensomeip_python.Native.Calls.{Call, Native, send_message}
use opensomeip_python.Bridge.{to_cpp_message}
use opensomeip_python.Transport.{send}
use opensomeip_python.Examples.Serving.{Program, reply_to, is_wanted, serve, handle, run_handler}
use opensomeip_python.Examples.Requesting.{Client, next_session, new_request, wait_for, arrive}
use opensomeip_python.Examples.Calculator.{
  service, add_method, operands, first_operand, second_operand, is_response, handle_add,
  handle_multiply, handlers, test_add, call_method, server_endpoint,
}

operands-cases :
    (a b : ℤ) (payload : List ℕ)
    → operands a b ≡ ok payload
    → (x y : List ℕ) × (payload ≡ x ++ y)
      × (unpack_signed 4 x ≡ a)
      × (length x ≡ 4)
      × (unpack_signed 4 y ≡ b)
      × (length y ≡ 4)
operands-cases a b payload h = elim (Result-cases (pack_signed 4 a)) [
  | inr (x, e) ↦ absurd (ground (arith, h, e))
  | inl (x, ex) ↦ elim (Result-cases (pack_signed 4 b)) [
    | inr (y, e) ↦ absurd (ground (arith, h, ex, e))
    | inl (y, ey) ↦
        let (va, la) = unpack-pack_signed 4 a x (omega arith) ex in
        let (vb, lb) = unpack-pack_signed 4 b y (omega arith) ey in
        (x, y, ground (arith, h, ex, ey), va, la, vb, lb)
  ]
]

-- The two operands that the client packed are those that the server unpacks.
operands_back :
    (a b : ℤ) (payload : List ℕ)
    → operands a b ≡ ok payload
    → (first_operand payload ≡ a) × (second_operand payload ≡ b) × (length payload ≡ 8)
operands_back a b payload h =
    let (x, y, whole, va, la, vb, lb) = operands-cases a b payload h in
    let size : length (x ++ y) ≡ 8 = omega (arith, length-append x y, la, lb) in
    let same : take 8 payload ≡ x ++ y =
      ap (take 8) whole ∙ take_of_length-le 8 (x ++ y) (omega (arith, size)) in
    let left : take 4 (x ++ y) ≡ x = ap (λ n. take n (x ++ y)) (sym la) ∙ take_append x y in
    let right : drop 4 (x ++ y) ≡ y = ap (λ n. drop n (x ++ y)) (sym la) ∙ drop_append x y in
    (
      ap (λ t. unpack_signed 4 (take 4 t)) same ∙ ap (unpack_signed 4) left ∙ va,
      ap (λ t. unpack_signed 4 (drop 4 t)) same ∙ ap (unpack_signed 4) right ∙ vb,
      ap length whole ∙ size,
    )

handle_add_lem :
    (a b : ℤ) (payload : List ℕ) (n : ℕ)
    → operands a b ≡ ok payload
    → handle_add payload n ≡ (pack_signed 4 (a +ℤ b), suc n)
unfolding handle_add
handle_add_lem a b payload n h =
    let (left, right, size) = operands_back a b payload h in ground (arith, left, right, size)

handle_multiply_lem :
    (a b : ℤ) (payload : List ℕ) (n : ℕ)
    → operands a b ≡ ok payload
    → handle_multiply payload n ≡ (pack_signed 4 (a *ℤ b), suc n)
unfolding handle_multiply
handle_multiply_lem a b payload n h =
    let (left, right, size) = operands_back a b payload h in ground (arith, left, right, size)

pack_signed_lem :
    (w : ℕ) (v : ℤ)
    → ((bytes : List ℕ) × (fits_signed w v ≡ true) × (pack_signed w v ≡ ok bytes))
      ⊎ ((fits_signed w v ≡ false) × (pack_signed w v ≡ err struct_error))
unfolding pack_signed
pack_signed_lem w (pos n) = elim (Bool-cases (ltb (n * 2) (256 ^ w))) [
  | inl e ↦ inl (be_bytes w n, e, ground (arith, e))
  | inr e ↦ inr (e, ground (arith, e))
]
pack_signed_lem w (negsuc n) = elim (Bool-cases (ltb (n * 2) (256 ^ w))) [
  | inl e ↦ inl (be_bytes w (256 ^ w - 1 - n), e, ground (arith, e))
  | inr e ↦ inr (e, ground (arith, e))
]

-- The request of a client's next call.
abbrev pub next_request : ℕ → List ℕ → Client → Message
next_request method payload c =
    make_message (record { service_id = service; method_id = method })
      (record { client_id = 0xabcd; session_id = bit_and (suc c.session_counter) 0xffff }) request
      e_ok payload

-- A client that can send, and whose open receiver is empty and has no bound.
pub record IsReady (c : Client) : Type 0 where
  pub running : c.transport.running ≡ true
  pub has_extension : c.transport.cpp ≡ true
  pub nothing_queued : c.transport.receiver.sync_queue ≡ []
  pub not_closed : c.transport.receiver.closed ≡ false
  pub unbounded : c.transport.receiver.maxsize ≡ 0

add_answered :
    (native : Native) (payload bytes : List ℕ) (c : Client) (l : List Call)
    → IsReady c
    → let m = next_request add_method payload c in
      native l (send_message (to_cpp_message m) server_endpoint) ≡ ok tt
      → (call_method native add_method payload (reply_to m bytes ∷ []) c l).0 ≡ ok (some bytes)
unfolding call_method new_request next_session wait_for arrive send put put_nowait put_async
    MessageId.new RequestId.new make_message
add_answered native payload bytes c l ready sends =
    let session = bit_and_ones-lt 16 (suc c.session_counter) in
    ground (
      arith, session, ready.running, ready.has_extension, ready.nothing_queued, ready.not_closed,
      ready.unbounded, sends,
    )

test_add-prints :
    (native : Native) (a b : ℤ) (payload bytes : List ℕ) (arriving : List Message) (c : Client)
    (l : List Call)
    → operands a b ≡ ok payload
    → (call_method native add_method payload arriving c l).0 ≡ ok (some bytes)
    → length bytes ≡ 4
    → (test_add native a b arriving c l).0 ≡ ok (some (unpack_signed 4 bytes))
unfolding test_add
test_add-prints native a b payload bytes arriving c l packs answers size =
    let whole = take_of_length-le 4 bytes (omega (arith, size)) in
    ground (arith, packs, answers, size, whole)

-- The client's ADD over the server's handler gives the sum of any two 32-bit numbers whose sum has
-- 32 bits: the handler accepts the payload of the client's request, counts the call, and the client
-- that is ready prints the sum when the server's reply is what arrives.
pub add_round_trip :
    (native : Native) (a b : ℤ) (payload : List ℕ) (total_calls : ℕ) (c : Client) (l : List Call)
    → operands a b ≡ ok payload
    → fits_signed 4 (a +ℤ b) ≡ true
    → IsReady c
    → let m = next_request add_method payload c in
      native l (send_message (to_cpp_message m) server_endpoint) ≡ ok tt
      → (result : List ℕ) × (handle_add payload total_calls ≡ (ok result, suc total_calls))
        × ((test_add native a b (reply_to m result ∷ []) c l).0 ≡ ok (some (a +ℤ b)))
add_round_trip native a b payload total_calls c l packs fits ready sends =
    let handled = handle_add_lem a b payload total_calls packs in
    elim (pack_signed_lem 4 (a +ℤ b)) [
      | inr (other, e) ↦ absurd (ground (arith, fits, other))
      | inl (result, e, packed) ↦
          let (back, size) = unpack-pack_signed 4 (a +ℤ b) result (omega arith) packed in
          let m = next_request add_method payload c in
          let got = add_answered native payload result c l ready sends in
          (
            result,
            handled ∙ ap (λ r. (r, suc total_calls)) packed,
            test_add-prints native a b payload result (reply_to m result ∷ []) c l packs got size
                ∙ ap (λ v. ok (some v)) back,
          )
    ]

handlers-add : lookup add_method handlers ≡ some handle_add
unfolding handlers lookup
handlers-add = refl

-- A request to add two numbers whose sum does not have 32 bits ends the server: the handler raises,
-- nothing is sent, and the requests after it are not looked at.
pub add_overflow_ends :
    (native : Native) (a b : ℤ) (m : Message) (ms : List Message) (p : Program ℕ) (l : List Call)
    → is_wanted service m ≡ true
    → m.message_id.method_id ≡ add_method
    → operands a b ≡ ok m.payload
    → fits_signed 4 (a +ℤ b) ≡ false
    → serve native service handlers (m ∷ ms) p l
      ≡ (err struct_error, record p { globals = suc p.globals }, l)
unfolding serve handle run_handler
add_overflow_ends native a b m ms p l wanted adds packs over =
    let handled = handle_add_lem a b m.payload p.globals packs in
    let found : lookup m.message_id.method_id handlers ≡ some handle_add =
      ap (λ k. lookup k handlers) adds ∙ handlers-add in
    elim (pack_signed_lem 4 (a +ℤ b)) [
      | inl (result, fits, e) ↦ absurd (ground (arith, over, fits))
      | inr (other, e) ↦ ground (arith, wanted, found, handled, e)
    ]

-- The client takes the next message of its queue for the answer to its request, if it is a response
-- of the method: an answer to an earlier request, of whatever session, is taken for this one's.
pub earlier_answer_taken :
    (native : Native) (payload : List ℕ) (old : Message) (rest : List Item)
    (arriving : List Message) (c : Client) (l : List Call)
    → c.transport.running ≡ true
    → c.transport.cpp ≡ true
    → (arrive arriving c.transport.receiver).sync_queue ≡ message old ∷ rest
    → is_response add_method old ≡ true
    → let m = next_request add_method payload c in
      native l (send_message (to_cpp_message m) server_endpoint) ≡ ok tt
      → (call_method native add_method payload arriving c l).0 ≡ ok (some old.payload)
unfolding call_method new_request next_session wait_for send MessageId.new RequestId.new
    make_message
earlier_answer_taken native payload old rest arriving c l running cpp queued fits sends =
    let session = bit_and_ones-lt 16 (suc c.session_counter) in
    ground (arith, session, running, cpp, queued, fits, sends)

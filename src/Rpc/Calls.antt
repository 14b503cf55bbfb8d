-- ===== src/Rpc/Calls.antt =====
-- The outcomes of `RpcClient.call`, and the session numbers.
use Prim.Native.Nat.{bit_and}
use opensomeip_python.Prelude.{
  ℕ, ◌+◌, ◌%◌, ◌<◌, ◌≡◌, ◌⊎◌, inl, inr, ap, ◌∙◌, ◌&&◌, Bool-cases, ==_iff, true, List, [], ◌∷◌,
  arith, ◌==◌, Option, refl, length,
}
use opensomeip_python.Prelude.Bits.{bit_and_ones}
use opensomeip_python.Exceptions.{Result, ok, err, library, rpc_error, Result-cases}
use opensomeip_python.Types.Enums.{response, e_ok}
use opensomeip_python.Types.MessageId.{MessageId}
use opensomeip_python.Types.RequestId
use opensomeip_python.Types.RequestId.{RequestId}
use opensomeip_python.Message.{Message, make_message}
use opensomeip_python.Native.Calls.{Call, Native, call_method_sync}
use opensomeip_python.Rpc.{
  RpcClient, begin_call, call, call_native, next_session, answer, bytes_or_empty,
}

pub answer-ok :
    (method_id : MessageId) (client_id session : ℕ) (payload : List ℕ) (m : Message)
    → answer method_id client_id session payload ≡ ok m
    → (m.message_id ≡ method_id)
      × (m.message_type ≡ response)
      × (m.return_code ≡ e_ok)
      × (m.request_id.session_id ≡ session)
      × (m.payload ≡ payload)
unfolding answer RequestId.new make_message
answer-ok method_id client_id session payload m h =
    (ground (arith, h), ground (arith, h), ground (arith, h), ground (arith, h), ground (arith, h))

-- The outcome of `call` is a message or `RpcError`, whatever the extension raised. A message comes
-- only from a running client with the extension, which answered with the result 0: it is a RESPONSE
-- with E_OK, the method's identifier, the next session number and the answer's bytes.
pub call-outcome :
    (native : Native) (method_id : MessageId) (payload : List ℕ) (c : RpcClient) (l : List Call)
    → let t = call native method_id payload c l in
      ((m : Message) × (t.0 ≡ ok m)
        × (c.running ≡ true)
        × (c.cpp ≡ true)
        × (m.message_id ≡ method_id)
        × (m.message_type ≡ response)
        × (m.return_code ≡ e_ok)
        × (m.request_id.session_id ≡ t.1.session_counter)
        × (t.1.session_counter ≡ bit_and (c.session_counter + 1) 0xffff)
        × (values : Option (List ℕ)) × (native l
              (call_method_sync method_id.service_id method_id.method_id payload)
            ≡ ok (0, values))
        × (m.payload ≡ bytes_or_empty values))
      ⊎ (t.0 ≡ err (library rpc_error))
unfolding call call_native next_session answer
call-outcome native method_id payload c l =
    elim (Result-cases
      (native l (call_method_sync method_id.service_id method_id.method_id payload))) [
        | inl ((code, values), h) ↦
            elim (Result-cases (
              answer method_id c.client_id (bit_and (c.session_counter + 1) 0xffff)
                (bytes_or_empty values))) [
                  | inl (m, e) ↦ elim (Bool-cases (code == 0)) [
                    | inr other ↦ inr (ground arith)
                    | inl success ↦ elim (Bool-cases (c.running && c.cpp)) [
                      | inr off ↦ inr (ground arith)
                      | inl on ↦
                          let (mid, type, return_code, session, content) =
                            answer-ok method_id c.client_id (bit_and (c.session_counter + 1) 0xffff)
                              (bytes_or_empty values) m e in
                          inl (
                            m,
                            ground arith,
                            ground arith,
                            ground arith,
                            mid,
                            type,
                            return_code,
                            session ∙ ground arith,
                            ground arith,
                            values,
                            h ∙ ap (λ n. ok (n, values)) ((==_iff code 0).0 success),
                            content,
                          )
                    ]
                  ]
                  | inr (x, e) ↦ inr (ground arith)
                ]
        | inr (x, h) ↦ inr (ground arith)
      ]

next_session-mod : (k : ℕ) → k < 65536 → bit_and (k + 1) 0xffff ≡ (k + 1) % 65536
next_session-mod k h = elim (Bool-cases (k == 65535)) [
  | inl e ↦
      ap (λ n. bit_and (n + 1) 0xffff) ((==_iff k 65535).0 e) ∙ omega (arith, (==_iff k 65535).0 e)
  | inr e ↦ bit_and_ones 16 (k + 1) (ground (arith, e)) ∙ ground (arith, e)
]

-- Several `call_async`, one after the other, each up to its `await`.
unfoldable pub begin_all :
    Native
    → List (MessageId × List ℕ)
    → RpcClient
    → List Call
    → List (Result (ℕ × ℕ)) × RpcClient × List Call
unfolding begin_call
begin_all native [] c l = ([], c, l)
begin_all native ((method_id, payload) ∷ rest) c l =
    let t = begin_call native method_id payload c l in
    let later = begin_all native rest t.1 t.2 in (t.0 ∷ later.0, later.1, later.2)

-- The calls that were made have the session numbers after n, in order, one for each call, whether
-- made or refused, and modulo 65536.
abbrev pub Numbered : ℕ → List (Result (ℕ × ℕ)) → Type 0
Numbered n [] = Unit {0}
Numbered n (ok (session, k) ∷ rs) = (session ≡ (n + 1) % 65536) × Numbered (n + 1) rs
Numbered n (err x ∷ rs) = Numbered (n + 1) rs

Numbered-cons :
    (n : ℕ) (r : Result (ℕ × ℕ)) (rs : List (Result (ℕ × ℕ)))
    → ((a : ℕ × ℕ) → r ≡ ok a → a.0 ≡ (n + 1) % 65536)
    → Numbered (n + 1) rs
    → Numbered n (r ∷ rs)
Numbered-cons n (ok (session, k)) rs h later = (h (session, k) refl, later)
Numbered-cons n (err x) rs h later = later

begin_call-session :
    (native : Native) (method_id : MessageId) (payload : List ℕ) (c : RpcClient) (l : List Call)
    → c.running ≡ true
    → c.cpp ≡ true
    → let t = begin_call native method_id payload c l in
      (t.1.running ≡ true)
      × (t.1.cpp ≡ true)
      × (t.1.session_counter ≡ bit_and (c.session_counter + 1) 0xffff)
      × ((a : ℕ × ℕ) → t.0 ≡ ok a → a.0 ≡ bit_and (c.session_counter + 1) 0xffff)
unfolding begin_call next_session
begin_call-session native method_id payload c l running cpp = (
  ground (arith, running, cpp),
  ground (arith, running, cpp),
  ground (arith, running, cpp),
  λ a h. ground (arith, running, cpp, h),
)

begin_all-Numbered :
    (native : Native) (n : ℕ) (requests : List (MessageId × List ℕ)) (c : RpcClient) (l : List Call)
    → c.running ≡ true
    → c.cpp ≡ true
    → c.session_counter ≡ n % 65536
    → let t = begin_all native requests c l in
      Numbered n t.0 × (t.1.session_counter ≡ (n + length requests) % 65536)
unfolding begin_all
begin_all-Numbered native n [] c l running cpp h = (tt, omega (arith, h))
begin_all-Numbered native n ((method_id, payload) ∷ rest) c l running cpp h =
    let t = begin_call native method_id payload c l in
    let (still, ext, counter, own) = begin_call-session native method_id payload c l running cpp in
    let wraps = next_session-mod c.session_counter (omega (arith, h)) in
    let (later, last) =
      begin_all-Numbered native (n + 1) rest t.1 t.2 still ext (omega (arith, h, counter, wraps)) in
    (Numbered-cons n t.0 _ (λ a e. omega (arith, own a e, wraps, h)) later, omega (arith, last))

-- On a running client with the extension, `call_async` gives its calls the session numbers that
-- follow the counter of the client, one for each, in order and modulo 65536, so that 0 follows on
-- 65535. A call that the extension refuses uses up its number.
pub begin_all-sessions :
    (native : Native) (requests : List (MessageId × List ℕ)) (c : RpcClient) (l : List Call)
    → c.running ≡ true
    → c.cpp ≡ true
    → c.session_counter < 65536
    → let t = begin_all native requests c l in
      Numbered c.session_counter t.0
      × (t.1.session_counter ≡ (c.session_counter + length requests) % 65536)
begin_all-sessions native requests c l running cpp small =
    begin_all-Numbered native c.session_counter requests c l running cpp (omega (arith, small))

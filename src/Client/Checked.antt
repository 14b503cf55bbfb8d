-- ===== src/Client/Checked.antt =====
-- What `SomeIpClient.call` guarantees of the message that it returns.
use opensomeip_python.Prelude.{
  ℕ, ◌≡◌, inl, inr, sym, ap, ◌∙◌, false, Option, none, some, List, arith,
}
use opensomeip_python.Exceptions.{Exn, ok, err, Result-cases, library, e2e_error, rpc_error}
use opensomeip_python.Types.MessageId.{MessageId}
use opensomeip_python.Message.{Message}
use opensomeip_python.Native.Calls.{Call, Native, call_method_sync}
use opensomeip_python.Rpc
use opensomeip_python.Rpc.{RpcClient, bytes_or_empty}
use opensomeip_python.Rpc.Calls.{call-outcome}
use opensomeip_python.E2e.Protection.{CheckStatus, E2eProtection, check}
use opensomeip_python.Server.{protect_if}
use opensomeip_python.Client.{SomeIpClient, call, check_if, is_status_ok}

call_protected :
    (native : Native) (method_id : MessageId) (payload bytes : List ℕ) (s : SomeIpClient)
    (l : List Call)
    → (protect_if payload s.e2e).0 ≡ ok bytes
    → let t = Rpc.call native method_id bytes s.rpc_client l in
      ((m : Message)
        → t.0 ≡ ok m
        → (call native method_id payload s l).0 ≡ check_if m (protect_if payload s.e2e).1)
      × ((x : Exn) → t.0 ≡ err x → (call native method_id payload s l).0 ≡ err x)
unfolding call
call_protected native method_id payload bytes s l h =
    (λ m e. ground (arith, h, e), λ x e. ground (arith, h, e))

call_unprotected :
    (native : Native) (method_id : MessageId) (payload : List ℕ) (s : SomeIpClient) (l : List Call)
    (x : Exn)
    → (protect_if payload s.e2e).0 ≡ err x
    → (call native method_id payload s l).0 ≡ err x
unfolding call
call_unprotected native method_id payload s l x h = ground (arith, h)

pub check_if-same : (m m' : Message) (e : Option E2eProtection) → check_if m e ≡ ok m' → m ≡ m'
unfolding check_if
check_if-same m m' none h = ground (arith, h)
check_if-same m m' (some p) h = ground (arith, h)

-- A message that `call` returns is the answer to one request: the extension got the payload, with
-- its protection if that is on, and answered with the result 0 and with the message's payload; and
-- the answer passed the check under the counter that the protection of the request left.
pub call-checked :
    (native : Native) (method_id : MessageId) (payload : List ℕ) (s : SomeIpClient) (l : List Call)
    (m : Message)
    → (call native method_id payload s l).0 ≡ ok m
    → (bytes : List ℕ) × (values : Option (List ℕ)) × ((protect_if payload s.e2e).0 ≡ ok bytes)
      × (native l (call_method_sync method_id.service_id method_id.method_id bytes)
          ≡ ok (0, values))
      × (m.payload ≡ bytes_or_empty values)
      × (m.message_id ≡ method_id)
      × (check_if m (protect_if payload s.e2e).1 ≡ ok m)
call-checked native method_id payload s l m h = elim (Result-cases (protect_if payload s.e2e).0) [
  | inr (x, e) ↦ absurd (ground (arith, h, call_unprotected native method_id payload s l x e))
  | inl (bytes, e) ↦
      let (checked, raised) = call_protected native method_id payload bytes s l e in
      elim (call-outcome native method_id bytes s.rpc_client l) [
        | inr fails ↦ absurd (ground (arith, h, raised (library rpc_error) fails))
        | inl (m', got, _, _, mid, _, _, _, _, values, answer, content) ↦
            let passed = sym (checked m' got) ∙ h in
            let same = check_if-same m' m (protect_if payload s.e2e).1 passed in
            (
              bytes,
              values,
              e,
              answer,
              ap (λ (n : Message). n.payload) (sym same) ∙ content,
              ap (λ (n : Message). n.message_id) (sym same) ∙ mid,
              ap (λ n. check_if n (protect_if payload s.e2e).1) (sym same) ∙ passed,
            )
      ]
]

-- Where protection is on, an answer that the check does not accept raises `E2EError`.
pub check_if-refused :
    (m : Message) (p : E2eProtection) (result : CheckStatus)
    → check m.payload p ≡ ok result
    → is_status_ok result ≡ false
    → check_if m (some p) ≡ err (library e2e_error)
unfolding check_if
check_if-refused m p result h bad = ground (arith, h, bad)

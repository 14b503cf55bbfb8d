-- ===== src/Rpc/Pending.antt =====
-- The futures of `call_async`.
use Prim.Native.Nat.{bit_and}
use opensomeip_python.Prelude.{
  ℕ, ◌+◌, ◌≡◌, refl, ap, ◌∙◌, Bool, true, false, Option, none, some, List, [], ◌∷◌, arith,
  if◌then◌else◌, ◌==◌, Bool-cases, Option-cases, inl, inr, ==_iff,
}
use opensomeip_python.Prelude.Dict.{Dict, lookup, insert, erase, lookup-insert, lookup-erase}
use opensomeip_python.Exceptions.{ok, err, library, rpc_error, invalid_state_error}
use opensomeip_python.Types.MessageId.{MessageId}
use opensomeip_python.Message.{Message}
use opensomeip_python.Native.Calls.{Call, Native}
use opensomeip_python.Rpc.{
  RpcClient, Future, waiting, done, cancelled, cancel, cancel_all, on_future, stop_client,
  begin_call, on_response, deliver, end_call, returns, raises, answer, bytes_or_empty,
}

-- Whether a future is in the dictionary of pending calls.
unfoldable pub is_pending : ℕ → Dict ℕ → Bool
is_pending k [] = false
is_pending k ((session, j) ∷ pending) = if j == k then true else is_pending k pending

abbrev pub cancelled_if : Bool → Option Future → Option Future
cancelled_if true (some x) = some (cancel x)
cancelled_if _ o = o

lookup-on_future :
    (j k : ℕ) (d : Dict Future)
    → lookup k (on_future j cancel d) ≡ cancelled_if (j == k) (lookup k d)
unfolding on_future
lookup-on_future j k d = elim (Option-cases (lookup j d)) [
  | inl missing ↦ elim (Bool-cases (j == k)) [
    | inl e ↦ ground (arith, missing, ap (λ i. lookup i d) ((==_iff j k).0 e))
    | inr e ↦ ground (arith, missing, e)
  ]
  | inr (x, has) ↦ elim (Bool-cases (j == k)) [
    | inl e ↦
        ground (arith, has, lookup-insert j k (cancel x) d, ap (λ i. lookup i d) ((==_iff j k).0 e))
    | inr e ↦ ground (arith, has, e, lookup-insert j k (cancel x) d)
  ]
]

cancelled_if-twice :
    (a b : Bool) (o : Option Future)
    → cancelled_if b (cancelled_if a o) ≡ cancelled_if (if a then true else b) o
cancelled_if-twice a b none = ground arith
cancelled_if-twice a b (some waiting) = ground arith
cancelled_if-twice a b (some cancelled) = ground arith
cancelled_if-twice a b (some (done m)) = ground arith

lookup-cancel_all :
    (k : ℕ) (pending : Dict ℕ) (d : Dict Future)
    → lookup k (cancel_all pending d) ≡ cancelled_if (is_pending k pending) (lookup k d)
unfolding cancel_all is_pending
lookup-cancel_all k [] d = refl
lookup-cancel_all k ((session, j) ∷ pending) d =
    lookup-cancel_all k pending (on_future j cancel d)
    ∙ ap (cancelled_if (is_pending k pending)) (lookup-on_future j k d)
    ∙ cancelled_if-twice (j == k) (is_pending k pending) (lookup k d)

-- `stop` stops the client and empties the dictionary of pending calls, and cancels exactly the futures
-- in it that are not answered: every other future, and every answer, stays as it was.
pub stop_client-futures :
    (native : Native) (c : RpcClient) (l : List Call) (k : ℕ)
    → let t = stop_client native c l in
      (t.0 ≡ ok tt)
      × (t.1.running ≡ false)
      × (t.1.pending ≡ [])
      × (lookup k t.1.futures ≡ cancelled_if (is_pending k c.pending) (lookup k c.futures))
unfolding stop_client
stop_client-futures native c l k = (
  ground arith,
  ground arith,
  ground arith,
  ground (arith, lookup-cancel_all k c.pending c.futures),
)

begin_call_lem :
    (native : Native) (method_id : MessageId) (payload : List ℕ) (c : RpcClient) (l : List Call)
    (session k : ℕ)
    → let t = begin_call native method_id payload c l in
      t.0 ≡ ok (session, k)
      → (lookup session t.1.pending ≡ some k) × (lookup k t.1.futures ≡ some waiting)
unfolding begin_call
begin_call_lem native method_id payload c l session k h =
    let session' : ℕ = bit_and (c.session_counter + 1) 0xffff in
    let pending = lookup-insert session' session' c.next_future c.pending in
    let futures = lookup-insert c.next_future c.next_future waiting c.futures in
    (ground (arith, h, pending), ground (arith, h, futures))

-- An answered call leaves its entry behind: after `call_async` has sent the request, got the answer
-- and returned it, the session is still in the dictionary of pending calls.
pub answered_stays_pending :
    (native : Native) (method_id : MessageId) (payload : List ℕ) (c : RpcClient) (l : List Call)
    (session k : ℕ) (values : Option (List ℕ)) (m : Message)
    → let sent = begin_call native method_id payload c l in
      let answered = on_response method_id session k values sent.1 in
      let finished = end_call false session k answered.1 in
      sent.0 ≡ ok (session, k)
      → answer method_id sent.1.client_id session (bytes_or_empty values) ≡ ok m
      → (finished.0 ≡ returns m) × (lookup session finished.1.pending ≡ some k)
unfolding on_response end_call deliver
answered_stays_pending native method_id payload c l session k values m h a =
    let sent = begin_call native method_id payload c l in
    let (pending, waits) = begin_call_lem native method_id payload c l session k h in
    let set = lookup-insert k k (done m) sent.1.futures in
    (ground (arith, a, waits, set), ground (arith, a, waits, pending, set))

begin_call-pending :
    (native : Native) (method_id : MessageId) (payload : List ℕ) (c : RpcClient) (l : List Call)
    (session k other : ℕ)
    → let t = begin_call native method_id payload c l in
      t.0 ≡ ok (session, k)
      → lookup other t.1.pending ≡ (if session == other then some k else lookup other c.pending)
unfolding begin_call
begin_call-pending native method_id payload c l session k other h =
    let session' : ℕ = bit_and (c.session_counter + 1) 0xffff in
    ground (arith, h, lookup-insert session' other c.next_future c.pending)

-- The timeout of a waiting call.
end_call-times_out :
    (session k : ℕ) (c : RpcClient)
    → lookup k c.futures ≡ some waiting
    → end_call true session k c ≡ (
      raises (some (library rpc_error)),
      record c { futures = insert k cancelled c.futures; pending = erase session c.pending },
    )
unfolding end_call
end_call-times_out session k c waits = ground (arith, waits)

-- `set_result` on a cancelled future.
on_response-cancelled :
    (method_id : MessageId) (session k : ℕ) (values : Option (List ℕ)) (c : RpcClient) (m : Message)
    → answer method_id c.client_id session (bytes_or_empty values) ≡ ok m
    → lookup k c.futures ≡ some cancelled
    → on_response method_id session k values c ≡ (err invalid_state_error, c)
unfolding on_response deliver
on_response-cancelled method_id session k values c m a gone = ground (arith, a, gone)

-- An answer that comes too late: `call_async` has sent the request, and the time is up before the
-- extension answers. The call raises `RpcError` and takes its session, and no other, out of the
-- dictionary of pending calls. When the extension then answers after all, `set_result` raises
-- InvalidStateError in the event loop, and the client stays as the timeout left it.
pub late_answer :
    (native : Native) (method_id : MessageId) (payload : List ℕ) (c : RpcClient) (l : List Call)
    (session k other : ℕ) (values : Option (List ℕ)) (m : Message)
    → let sent = begin_call native method_id payload c l in
      let timed_out = end_call true session k sent.1 in
      sent.0 ≡ ok (session, k)
      → answer method_id sent.1.client_id session (bytes_or_empty values) ≡ ok m
      → (timed_out.0 ≡ raises (some (library rpc_error)))
        × (lookup other timed_out.1.pending
            ≡ (if session == other then none else lookup other c.pending))
        × (on_response method_id session k values timed_out.1
            ≡ (err invalid_state_error, timed_out.1))
late_answer native method_id payload c l session k other values m h a =
    let c1 = (begin_call native method_id payload c l).1 in
    let (_, waits) = begin_call_lem native method_id payload c l session k h in
    let set = lookup-insert k k cancelled c1.futures in
    let before = begin_call-pending native method_id payload c l session k other h in
    let gone = lookup-erase session other c1.pending in
    rw (end_call-times_out session k c1 waits) (
      refl,
      ground (arith, before, gone),
      on_response-cancelled method_id session k values _ m a (ground (arith, set)),
    )

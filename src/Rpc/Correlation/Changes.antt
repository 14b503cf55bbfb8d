-- ===== src/Rpc/Correlation/Changes.antt =====
-- What each operation of `RpcClient` changes of the futures.
use Prim.Native.Nat.{bit_and}
use opensomeip_python.Prelude.{
  ℕ, suc, ◌+◌, ◌≤◌, ◌≡◌, ◌↔◌, sym, ap, ◌∙◌, Bool, Option, none, some, List, arith, ◌==◌, ◌&&◌,
  Bool-cases, Option-cases, ◌⊎◌, inl, inr, ==_iff,
}
use opensomeip_python.Prelude.Dict.{Dict, lookup, insert, erase, lookup-insert}
use opensomeip_python.Exceptions.{Exn, ok, err, library, rpc_error, Result-cases}
use opensomeip_python.Types.MessageId.{MessageId}
use opensomeip_python.Message.{Message}
use opensomeip_python.Native.Calls.{Call, Native, call_method_async}
use opensomeip_python.Rpc.{
  RpcClient, Future, waiting, done, cancelled, start_client, stop_client, begin_call, on_response,
  deliver, end_call, answer, bytes_or_empty, next_session,
}
use opensomeip_python.Rpc.Calls.{answer-ok}
use opensomeip_python.Prelude.{◌≢◌}
use opensomeip_python.Rpc.Pending.{cancelled_if, is_pending, stop_client-futures}

-- The same answers, and numbers that only grow.
pub record IsQuiet (c d : RpcClient) : Type 0 where
  pub none_new :
      (k : ℕ) (m : Message)
      → lookup k d.futures ≡ some (done m)
      → lookup k c.futures ≡ some (done m)
  pub none_lost :
      (k : ℕ) (m : Message)
      → lookup k c.futures ≡ some (done m)
      → lookup k d.futures ≡ some (done m)
  pub in_order :
      (k : ℕ)
      → d.next_future ≤ k
      → (c.next_future ≤ k) × (lookup k c.futures ≡ none → lookup k d.futures ≡ none)

pub start_client-IsQuiet :
    (native : Native) (c : RpcClient) (l : List Call) → IsQuiet c (start_client native c l).1
unfolding start_client
start_client-IsQuiet native c l = record {
  none_new = λ k m h. ground (arith, h);
  none_lost = λ k m h. ground (arith, h);
  in_order = λ k h. (ground (arith, h), λ e. ground (arith, e));
}

pub cancelled_if-done :
    (b : Bool) (o : Option Future) (m : Message)
    → (cancelled_if b o ≡ some (done m)) ↔ (o ≡ some (done m))
cancelled_if-done b o m = ground arith

pub stop_client-next_future :
    (native : Native) (c : RpcClient) (l : List Call)
    → (stop_client native c l).1.next_future ≡ c.next_future
unfolding stop_client
stop_client-next_future native c l = ground arith

pub stop_client-IsQuiet :
    (native : Native) (c : RpcClient) (l : List Call) → IsQuiet c (stop_client native c l).1
stop_client-IsQuiet native c l =
    let same = λ (k : ℕ). (stop_client-futures native c l k).3 in
    record {
      none_new = λ k m h. (cancelled_if-done (is_pending k c.pending) _ m).0 (sym (same k) ∙ h);
      none_lost = λ k m h. same k ∙ (cancelled_if-done (is_pending k c.pending) _ m).1 h;
      in_order = λ k h.
          (omega (arith, stop_client-next_future native c l), λ e. ground (arith, e, same k));
    }

-- A change of one future that is not answered, to one that is not either.
pub unanswered-IsQuiet :
    (c : RpcClient) (k : ℕ) (f : Future) (pending : Dict ℕ)
    → ((m : Message) → f ≢ done m)
    → lookup k c.futures ≡ some waiting
    → IsQuiet c (record c { futures = insert k f c.futures; pending = pending })
unanswered-IsQuiet c k f pending differs waits =
    let set = λ (j : ℕ). lookup-insert k j f c.futures in
    record {
      none_new = λ j m h. elim (Bool-cases (k == j)) [
        | inl e ↦ absurd (differs m (ground (arith, h, e, set j)))
        | inr e ↦ ground (arith, h, e, set j)
      ];
      none_lost = λ j m h. elim (Bool-cases (k == j)) [
        | inl e ↦ absurd (ground (arith, h, waits, ap (λ i. lookup i c.futures) ((==_iff k j).0 e)))
        | inr e ↦ ground (arith, h, e, set j)
      ];
      in_order = λ j h. (
        h,
        λ gone. elim (Bool-cases (k == j)) [
          | inl e ↦
              absurd (ground (arith, gone, waits, ap (λ i. lookup i c.futures) ((==_iff k j).0 e)))
          | inr e ↦ ground (arith, gone, e, set j)
        ],
      );
    }

pub same-IsQuiet : (c d : RpcClient) → d ≡ c → IsQuiet c d
same-IsQuiet c d e = record {
  none_new = λ k m h. ap (λ (b : RpcClient). lookup k b.futures) (sym e) ∙ h;
  none_lost = λ k m h. ap (λ (b : RpcClient). lookup k b.futures) e ∙ h;
  in_order = λ k h. (
    omega (arith, ap (λ (b : RpcClient). b.next_future) e),
    λ gone. ap (λ (b : RpcClient). lookup k b.futures) e ∙ gone,
  );
}

pub end_call-cases :
    (time_is_up : Bool) (session k : ℕ) (c : RpcClient)
    → ((end_call time_is_up session k c).1 ≡ c)
      ⊎ ((lookup k c.futures ≡ some waiting)
          × ((end_call time_is_up session k c).1 ≡ record c {
            futures = insert k cancelled c.futures;
            pending = erase session c.pending;
          }))
unfolding end_call
end_call-cases time_is_up session k c = ground arith

pub end_call-IsQuiet :
    (time_is_up : Bool) (session k : ℕ) (c : RpcClient)
    → IsQuiet c (end_call time_is_up session k c).1
end_call-IsQuiet time_is_up session k c = elim (end_call-cases time_is_up session k c) [
  | inl same ↦ same-IsQuiet c _ same
  | inr (waits, e) ↦
      rw e (unanswered-IsQuiet c k cancelled (erase session c.pending) (λ m. ground arith) waits)
]

-- What `begin_call` does to the futures, whether the extension takes the request or raises.
pub begin_call-cases :
    (native : Native) (method_id : MessageId) (payload : List ℕ) (c : RpcClient) (l : List Call)
    → let t = begin_call native method_id payload c l in
      ((x : Exn) × (t.0 ≡ err x) × (t.1 ≡ c))
      ⊎ ((t.1.futures ≡ insert c.next_future waiting c.futures)
          × (t.1.next_future ≡ suc c.next_future)
          × (((x : Exn) × (t.0 ≡ err x)) ⊎ ((session : ℕ) × (t.0 ≡ ok (session, c.next_future)))))
unfolding begin_call next_session
begin_call-cases native method_id payload c l = elim (Bool-cases (c.running && c.cpp)) [
  | inr off ↦ inl (library rpc_error, ground (arith, off), ground (arith, off))
  | inl on ↦
      let session : ℕ = bit_and (c.session_counter + 1) 0xffff in
      let request = call_method_async method_id.service_id method_id.method_id payload session in
      inr (
        ground (arith, on),
        ground (arith, on),
        elim (Result-cases (native l request)) [
          | inl (u, e) ↦ inr (session, ground (arith, on, e))
          | inr (x, e) ↦ inl (x, ground (arith, on, e))
        ],
      )
]

-- `_on_response` leaves the client as it is, or sets this waiting future to its answer.
pub on_response-cases :
    (method_id : MessageId) (session k : ℕ) (values : Option (List ℕ)) (c : RpcClient)
    → let d = (on_response method_id session k values c).1 in
      (d ≡ c)
      ⊎ ((m : Message) × (m.message_id ≡ method_id)
          × (m.request_id.session_id ≡ session)
          × (lookup k c.futures ≡ some waiting)
          × (d ≡ record c { futures = insert k (done m) c.futures }))
unfolding on_response deliver
on_response-cases method_id session k values c =
    let content = bytes_or_empty values in
    elim (Result-cases (answer method_id c.client_id session content)) [
      | inr (x, e) ↦ inl (ground (arith, e))
      | inl (m, e) ↦
          let (own_method, _, _, own_session, _) =
            answer-ok method_id c.client_id session content m e in
          elim (Option-cases (lookup k c.futures)) [
            | inl missing ↦ inl (ground (arith, e, missing))
            | inr (waiting, has) ↦ inr (m, own_method, own_session, has, ground (arith, e, has))
            | inr (cancelled, has) ↦ inl (ground (arith, e, has))
            | inr (done n, has) ↦ inl (ground (arith, e, has))
          ]
    ]

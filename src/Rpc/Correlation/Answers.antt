-- ===== src/Rpc/Correlation/Answers.antt =====
-- Which answer a waiting call gets.

use opensomeip_python.Prelude.{
  ℕ, suc, ◌≡◌, refl, sym, ap, ◌∙◌, Bool, Option, some, List, arith, ◌==◌, Bool-cases, ◌⊎◌, inl, inr,
  ==_iff,
}
use opensomeip_python.Prelude.Dict.{Dict, lookup, insert, lookup-insert}
use opensomeip_python.Exceptions.{Exn, Result, ok, err}
use opensomeip_python.Types.MessageId.{MessageId}
use opensomeip_python.Message.{Message}
use opensomeip_python.Native.Calls.{Call, Native}
use opensomeip_python.Rpc.{
  RpcClient, waiting, done, new_client, begin_call, on_response, end_call, returns,
}
use opensomeip_python.Rpc.Correlation.{
  World, sent, Step, starts, stops, calls, answers, ends, Reach, here, more, IsCorrelated,
  new_world,
}
use opensomeip_python.Rpc.Correlation.Changes.{
  IsQuiet, start_client-IsQuiet, stop_client-IsQuiet, same-IsQuiet, end_call-IsQuiet,
  begin_call-cases, on_response-cases,
}

quiet-IsCorrelated :
    (w : World) (c : RpcClient) (l : List Call)
    → IsQuiet w.client c
    → IsCorrelated w
    → IsCorrelated (record w { client = c; log = l })
quiet-IsCorrelated w c l quiet h = record {
  own = λ k m e. h.own k m (quiet.none_new k m e);
  numbered = λ k le. let (old, stays) = quiet.in_order k le in stays (h.numbered k old);
}

answer-IsCorrelated :
    (w : World) (k : ℕ) (method_id : MessageId) (session : ℕ) (values : Option (List ℕ))
    → lookup k w.requests ≡ some (method_id, session)
    → IsCorrelated w
    → IsCorrelated (record w { client = (on_response method_id session k values w.client).1 })
answer-IsCorrelated w k method_id session values asked h =
    elim (on_response-cases method_id session k values w.client) [
      | inl same ↦ rw same h
      | inr (m, own_method, own_session, waits, e) ↦
          let set = λ (j : ℕ). lookup-insert k j (done m) w.client.futures in
          rw e (record {
            own = λ j n got. elim (Bool-cases (k == j)) [
              | inr other ↦ h.own j n (ground (arith, set j, other, got))
              | inl this ↦ ground (arith, asked, got, set j, own_method, own_session, this)
            ];
            numbered = λ j le. elim (Bool-cases (k == j)) [
              | inr other ↦ ground (arith, set j, other, h.numbered j le)
              | inl this ↦ absurd (ground (arith, waits, this, h.numbered j le))
            ];
          })
    ]

-- A new future, with or without a request.
opened-IsCorrelated :
    (w : World) (c : RpcClient) (l : List Call) (requests : Dict (MessageId × ℕ))
    → c.futures ≡ insert w.client.next_future waiting w.client.futures
    → c.next_future ≡ suc w.client.next_future
    → ((k : ℕ) → (k ≡ w.client.next_future) ⊎ (lookup k requests ≡ lookup k w.requests))
    → IsCorrelated w
    → IsCorrelated (record { client = c; log = l; requests = requests })
opened-IsCorrelated w c l requests futures number old h =
    let new : ℕ = w.client.next_future in
    let set = λ (k : ℕ). ap (lookup k) futures ∙ lookup-insert new k waiting w.client.futures in
    record {
      own = λ k m e. elim (Bool-cases (new == k)) [
        | inl same ↦ absurd (ground (arith, set k, same, e))
        | inr other ↦
            let before = h.own k m (ground (arith, set k, other, e)) in
            elim (old k) [
              | inl this ↦ absurd (ground (arith, this, other))
              | inr kept ↦ kept ∙ before
            ]
      ];
      numbered = λ k le. elim (Bool-cases (new == k)) [
        | inl same ↦ absurd (ground (arith, number, same, le))
        | inr other ↦ ground (arith, set k, other, h.numbered k (omega (arith, number)))
      ];
    }

call-IsCorrelated :
    (native : Native) (w : World) (method_id : MessageId) (payload : List ℕ)
    → IsCorrelated w
    → IsCorrelated (sent (begin_call native method_id payload w.client w.log) method_id w)
call-IsCorrelated native w method_id payload h =
    go (begin_call native method_id payload w.client w.log)
      (begin_call-cases native method_id payload w.client w.log)
  where
    go :
        (t : Result (ℕ × ℕ) × RpcClient × List Call)
        → ((x : Exn) × (t.0 ≡ err x) × (t.1 ≡ w.client))
          ⊎ ((t.1.futures ≡ insert w.client.next_future waiting w.client.futures)
              × (t.1.next_future ≡ suc w.client.next_future)
              × (((x : Exn) × (t.0 ≡ err x))
                  ⊎ ((session : ℕ) × (t.0 ≡ ok (session, w.client.next_future)))))
        → IsCorrelated (sent t method_id w)
    go (r, c, l) (inl (x, fails, same)) =
        rw fails (rw same (quiet-IsCorrelated w w.client l (same-IsQuiet w.client w.client refl) h))
    go (r, c, l) (inr (futures, number, inl (x, fails))) =
        rw fails (opened-IsCorrelated w c l w.requests futures number (λ k. inr refl) h)
    go (r, c, l) (inr (futures, number, inr (session, goes))) =
        let new : ℕ = w.client.next_future in
        let set = λ (k : ℕ). lookup-insert new k (method_id, session) w.requests in
        rw goes (
          opened-IsCorrelated w c l _ futures number
            (λ k. elim (Bool-cases (new == k)) [
              | inl same ↦ inl (sym ((==_iff new k).0 same))
              | inr other ↦ inr (ground (arith, set k, other))
            ])
            h)

pub Step-IsCorrelated :
    (native : Native) {v w : World} → Step native v w → IsCorrelated v → IsCorrelated w
Step-IsCorrelated native (starts w) h =
    quiet-IsCorrelated w _ _ (start_client-IsQuiet native w.client w.log) h
Step-IsCorrelated native (stops w) h =
    quiet-IsCorrelated w _ _ (stop_client-IsQuiet native w.client w.log) h
Step-IsCorrelated native (calls w method_id payload) h =
    call-IsCorrelated native w method_id payload h
Step-IsCorrelated native (answers w k method_id session values asked) h =
    answer-IsCorrelated w k method_id session values asked h
Step-IsCorrelated native (ends w time_is_up session k) h =
    quiet-IsCorrelated w _ w.log (end_call-IsQuiet time_is_up session k w.client) h

pub Reach-IsCorrelated :
    (native : Native) {v w : World} → Reach native v w → IsCorrelated v → IsCorrelated w
Reach-IsCorrelated native here h = h
Reach-IsCorrelated native (more path step) h =
    Step-IsCorrelated native step (Reach-IsCorrelated native path h)

pub new-IsCorrelated : (ext : Bool) (client_id : ℕ) → IsCorrelated (new_world ext client_id)
unfolding new_client lookup
new-IsCorrelated ext client_id = record {
  own = λ k m e. absurd (ground (arith, e));
  numbered = λ k le. refl;
}

end_call-returns :
    (time_is_up : Bool) (session k : ℕ) (c : RpcClient) (m : Message)
    → (end_call time_is_up session k c).0 ≡ returns m
    → lookup k c.futures ≡ some (done m)
unfolding end_call
end_call-returns time_is_up session k c m h = ground (arith, h)

-- However the calls, the answers and the timeouts of a client overlap, and however often it is
-- started and stopped: a message that `call_async` returns has the method and the session of the
-- request that this very call sent.
pub end_call-own_answer :
    (native : Native) (ext : Bool) (client_id : ℕ) (w : World) (time_is_up : Bool) (session k : ℕ)
    (m : Message)
    → Reach native (new_world ext client_id) w
    → (end_call time_is_up session k w.client).0 ≡ returns m
    → lookup k w.requests ≡ some (m.message_id, m.request_id.session_id)
end_call-own_answer native ext client_id w time_is_up session k m path h =
    (Reach-IsCorrelated native path (new-IsCorrelated ext client_id)).own k m
      (end_call-returns time_is_up session k w.client m h)

-- ===== src/Rpc/Correlation.antt =====
-- Many overlapping `call_async` on one client: the requests, the steps and what holds between them.
pub mod Changes
pub mod Answers
use Prim.Native.Nat.{bit_and}
use opensomeip_python.Prelude.{
  ℕ, suc, ◌+◌, ◌≤◌, ◌<◌, ◌≡◌, ◌↔◌, refl, sym, ap, ◌∙◌, Bool, Option, none, some, List, [], arith,
  if◌then◌else◌, ◌==◌, ◌&&◌, Bool-cases, Option-cases, ◌⊎◌, inl, inr, ==_iff,
}
use opensomeip_python.Prelude.Dict.{Dict, lookup, insert, erase, lookup-insert}
use opensomeip_python.Exceptions.{Exn, Result, ok, err, library, rpc_error, Result-cases}
use opensomeip_python.Types.MessageId.{MessageId}
use opensomeip_python.Types.RequestId
use opensomeip_python.Message.{Message}
use opensomeip_python.Native.Calls.{Call, Native, call_method_async}
use opensomeip_python.Rpc.{
  RpcClient, Future, waiting, done, cancelled, new_client, start_client, stop_client, begin_call,
  on_response, end_call, Awaited, returns, answer, bytes_or_empty, next_session,
}
use opensomeip_python.Rpc.Calls.{answer-ok}
use opensomeip_python.Prelude.{◌≢◌}
use opensomeip_python.Rpc.Pending.{cancelled_if, is_pending, stop_client-futures}

-- A client, the calls made, and for the future of each request that was sent its method and its
-- session, which its `_on_response` holds.
pub record World : Type 0 where
  pub client : RpcClient
  pub log : List Call
  pub requests : Dict (MessageId × ℕ)

abbrev pub sent : Result (ℕ × ℕ) × RpcClient × List Call → MessageId → World → World
sent (ok (session, k), c, l) method_id w = record {
  client = c;
  log = l;
  requests = insert k (method_id, session) w.requests;
}
sent (err x, c, l) method_id w = record w { client = c; log = l }

-- What the application, the extension and the clock may do, in any order. The extension answers a
-- request that was sent at any time, and as often as it likes.
pub data Step (native : Native) : World → World → Type 0 where
  starts :
      (w : World)
      → Step native w
          (let t = start_client native w.client w.log in record w { client = t.1; log = t.2 })
  stops :
      (w : World)
      → Step native w
          (let t = stop_client native w.client w.log in record w { client = t.1; log = t.2 })
  calls :
      (w : World) (method_id : MessageId) (payload : List ℕ)
      → Step native w (sent (begin_call native method_id payload w.client w.log) method_id w)
  answers :
      (w : World) (k : ℕ) (method_id : MessageId) (session : ℕ) (values : Option (List ℕ))
      → lookup k w.requests ≡ some (method_id, session)
      → Step native w (record w { client = (on_response method_id session k values w.client).1 })
  ends :
      (w : World) (time_is_up : Bool) (session k : ℕ)
      → Step native w (record w { client = (end_call time_is_up session k w.client).1 })

pub data Reach (native : Native) (w : World) : World → Type 0 where
  here : Reach native w w
  more : {u v : World} → Reach native w u → Step native u v → Reach native w v

-- Every answer is one to the request of its own future, and the futures are numbered in order.
pub record IsCorrelated (w : World) : Type 0 where
  pub own :
      (k : ℕ) (m : Message)
      → lookup k w.client.futures ≡ some (done m)
      → (lookup k w.requests ≡ some (m.message_id, m.request_id.session_id))
  pub numbered : (k : ℕ) → w.client.next_future ≤ k → lookup k w.client.futures ≡ none

-- A client before its first operation.
abbrev pub new_world : Bool → ℕ → World
new_world ext client_id = record { client = new_client ext client_id; log = []; requests = [] }

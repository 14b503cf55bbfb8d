-- ===== src/Transport/Incoming.antt =====
-- Messages that the extension hands to the listener.
use opensomeip_python.Prelude.{
  ◌≤◌, ◌≡◌, refl, ◌∙◌, ap, true, false, some, List, [], ◌∷◌, ◌++◌, arith,
}
use opensomeip_python.Exceptions.{ok}
use opensomeip_python.Endpoint
use opensomeip_python.Endpoint.{Endpoint}
use opensomeip_python.Message.{Message, message_eq}
use opensomeip_python.Bridge.{to_cpp_message, from_cpp_endpoint}
use opensomeip_python.Bridge.Laws.{IsWellFormed, message_round_trip}
use opensomeip_python.Receiver.{Receiver, message, put}
use opensomeip_python.Receiver.Queue.{put_open, close_lem}
use opensomeip_python.Native.Calls.{Call, CppMessage, Native}
use opensomeip_python.Transport.{Transport, start, stop, on_message_received}
use opensomeip_python.Transport.Lifecycle.{stop_lem, receiver-start}

dropped :
    (c : CppMessage) (sender : Endpoint) (t : Transport)
    → t.receiver.closed ≡ true
    → (on_message_received c sender t).1 ≡ t
unfolding on_message_received put
dropped c sender t closed = ground arith

-- A transport that was stopped hands out nothing that arrives after it is started again: its
-- receiver stays closed, so every incoming message is dropped.
pub restart_drops :
    (native : Native) (t : Transport) (l : List Call) (c : CppMessage) (sender : Endpoint)
    → t.running ≡ true
    → t.receiver.maxsize ≡ 0
    → (stop native t l).0 ≡ ok tt
    → let stopped = stop native t l in
      let again = start native stopped.1 stopped.2 in
      (on_message_received c sender again.1).1 ≡ again.1
restart_drops native t l c sender running unbounded returned =
    let stopped = stop native t l in
    let kept = receiver-start native stopped.1 stopped.2 in
    let closed = (stop_lem native t l running unbounded).1 returned in
    dropped c sender (start native stopped.1 stopped.2).1
      (ap (λ (r : Receiver). r.closed) (kept ∙ closed) ∙ (close_lem t.receiver unbounded).1)

from_cpp_endpoint-ok : (e : Endpoint) → e.port ≤ 65535 → from_cpp_endpoint e ≡ ok e
unfolding from_cpp_endpoint Endpoint.new
from_cpp_endpoint-ok e h = ground arith

-- A well-formed message that arrives on an open transport is queued once, behind what is there,
-- with the contents it was sent with and the sender as its source.
pub incoming-queued :
    (m : Message) (sender : Endpoint) (t : Transport)
    → IsWellFormed m
    → sender.port ≤ 65535
    → t.receiver.maxsize ≡ 0
    → t.receiver.closed ≡ false
    → (got : Message) × ((on_message_received (to_cpp_message m) sender t).1.receiver.sync_queue
        ≡ t.receiver.sync_queue ++ message got ∷ [])
      × (message_eq got m ≡ true)
      × (got.source_endpoint ≡ some sender)
unfolding on_message_received message_eq
incoming-queued m sender t w port unbounded opened =
    let (back, converted, same, _) = message_round_trip m w in
    let got : Message = record back { source_endpoint = some sender } in
    (
      got,
      ground (
        arith,
        converted,
        from_cpp_endpoint-ok sender port,
        put_open t.receiver unbounded got opened,
      ),
      same,
      refl,
    )

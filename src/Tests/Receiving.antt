-- ===== src/Tests/Receiving.antt =====
-- The receiver at concrete inputs.
use opensomeip_python.Prelude.{◌≡◌, refl, true, some, List, [], ◌∷◌, ◌++◌, arith}
use opensomeip_python.Exceptions.{ok}
use opensomeip_python.Message.{Message}
use opensomeip_python.Receiver
use opensomeip_python.Receiver.{Receiver, Item, message, Step, put, close, poll, ensure_async_queue}
use opensomeip_python.Receiver.Schedule.{Event, puts, closes, quiet, run, accepted, has_close}
use opensomeip_python.Receiver.Iteration.{collect, collect-run}
use opensomeip_python.Receiver.Async.{event, delivers, run_loop, stream, async-stream}
use opensomeip_python.Bridge.{to_cpp_message}
use opensomeip_python.Transport
use opensomeip_python.Transport.{on_message_received}
use opensomeip_python.Transport.Incoming.{incoming-queued, restart_drops}
use opensomeip_python.Message.{message_eq}
use opensomeip_python.Tests.Fixtures.{greeting, reply, there, obliging, running_transport}

abbrev events : List Event
events = puts greeting ∷ quiet ∷ puts reply ∷ closes ∷ puts greeting ∷ []

closed_once : has_close events ≡ true
unfolding has_close
closed_once = refl

two_accepted : accepted events ≡ greeting ∷ reply ∷ []
unfolding accepted
two_accepted = refl

collect-run_example :
    let out = collect 5 (run events (Receiver.new 0)) in
    (out.0 ≡ accepted events)
    × (out.1 ≡ true)
    × ((later : List Event) → (poll (run later out.2)).0 ≡ Receiver.stop)
unfolding accepted
collect-run_example = collect-run events 5 closed_once (omega arith)

async-stream_example :
    let r =
      run_loop
        (event (puts greeting) ∷ delivers ∷ event closes ∷ [])
        (ensure_async_queue true (Receiver.new 0)) in
    stream r ≡ r.sync_queue
async-stream_example = async-stream (event (puts greeting) ∷ delivers ∷ event closes ∷ [])

abbrev full : Receiver
full = record (Receiver.new 1) { sync_queue = message greeting ∷ [] }

incoming-queued_example :
    (got : Message) × ((on_message_received
        (to_cpp_message greeting)
        there
        running_transport).1.receiver.sync_queue
      ≡ [] ++ message got ∷ [])
    × (message_eq got greeting ≡ true)
    × (got.source_endpoint ≡ some there)
incoming-queued_example =
    incoming-queued greeting there running_transport
      (record {
        message_id_fits = (omega arith, omega arith);
        request_id_fits = (omega arith, omega arith);
        interface_fits = omega arith;
      })
      (omega arith) refl refl

stops : (Transport.stop obliging running_transport []).0 ≡ ok tt
unfolding Transport.stop close Receiver.put_nowait
stops = refl

restart_drops_example :
    let stopped = Transport.stop obliging running_transport [] in
    let again = Transport.start obliging stopped.1 stopped.2 in
    (on_message_received (to_cpp_message greeting) there again.1).1 ≡ again.1
restart_drops_example =
    restart_drops obliging running_transport [] (to_cpp_message greeting) there refl refl stops

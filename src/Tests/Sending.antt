-- ===== src/Tests/Sending.antt =====
-- The transport and the segmentation at concrete inputs.
use opensomeip_python.Prelude.{
  ◌⊎◌, ℕ, ◌≡◌, ◌+◌, ◌*◌, ◌<◌, All, refl, false, none, some, List, [], ◌++◌, arith, leb, length, map,
  if◌then◌else◌,
}
use opensomeip_python.Exceptions.{Exn, ok, err, library, transport_error}
use opensomeip_python.Receiver.{close}
use opensomeip_python.Transport
use opensomeip_python.Transport.{Transport, send, start, connect}
use opensomeip_python.Transport.Lifecycle.{stop_outcome}
use opensomeip_python.Tp.{TpState, send_fallback, send_on, segment_of}
use opensomeip_python.Tp.Delivery.{send_fallback-delivers}
use opensomeip_python.Tp.Segments.{chunks, concat, Fits}
use opensomeip_python.Tp.Fallback.{
  send_list, sends, CanSend, send_fallback-segments, zero_mtu_diverges, large_reply_fails,
}
use opensomeip_python.Tests.Fixtures.{
  greeting, reply, there, obliging, failing, running_transport, lost_transport, manager,
}

abbrev state : ℕ → TpState
state mtu = record { manager = manager mtu; transport = running_transport }

send_fallback-segments_example : send_fallback obliging 4 reply none (state 2) [] ≡ (
    if leb (length reply.payload) 2
    then some (send_on obliging reply none (state 2) [])
    else some
        (send_list obliging (map (segment_of reply) (chunks 4 2 reply.payload)) none (state 2) []))
send_fallback-segments_example =
    send_fallback-segments obliging 4 reply none (state 2) [] (omega arith) (omega arith)

running_transport-CanSend : CanSend obliging none there running_transport
running_transport-CanSend = record {
  is_running = refl;
  has_extension = refl;
  has_target = refl;
  accepts = λ l c. refl;
}

send_fallback-delivers_example :
    (parts : List (List ℕ)) × (send_fallback obliging 4 reply none (state 2) []
      ≡ some (ok tt, state 2, [] ++ sends there (map (segment_of reply) parts)))
    × (concat parts ≡ reply.payload)
    × All (Fits 2) parts
    × (length parts * 2 < length reply.payload + 2)
send_fallback-delivers_example =
    send_fallback-delivers obliging 4 reply none there (state 2) [] running_transport-CanSend
      (omega arith) (omega arith) (omega arith)

zero_mtu_diverges_example : send_fallback obliging 9 greeting none (state 0) [] ≡ none
zero_mtu_diverges_example =
    zero_mtu_diverges obliging 9 greeting none there (state 0) [] refl (λ e. ground (arith, e))
      running_transport-CanSend

abbrev lost_state : TpState
lost_state = record { manager = manager 2; transport = lost_transport }

large_reply_fails_example :
    send_fallback obliging 4 reply none lost_state []
    ≡ some (err (library transport_error), lost_state, [])
large_reply_fails_example =
    large_reply_fails obliging 4 reply lost_state [] refl (omega arith) (omega arith) (omega arith)

stop_outcome_example :
    let first = Transport.stop failing running_transport [] in
    (first.1.running ≡ false)
    × (((first.0 ≡ ok tt) × (first.1.receiver ≡ (close running_transport.receiver).1))
        ⊎ ((e : Exn) × (first.0 ≡ err e)
            × (first.1.receiver ≡ running_transport.receiver)
            × (Transport.stop failing first.1 first.2 ≡ (ok tt, first.1, first.2))))
stop_outcome_example = stop_outcome failing running_transport [] refl refl

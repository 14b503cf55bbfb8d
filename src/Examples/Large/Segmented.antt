-- ===== src/Examples/Large/Segmented.antt =====
-- A large echo of examples/advanced/large_messages on its way back.
use opensomeip_python.Prelude.{
  ℕ, ◌<◌, ◌≡◌, ◌∙◌, true, some, List, [], ◌∷◌, ◌++◌, map, All, length, arith,
}
use opensomeip_python.Prelude.Dict.{lookup}
use opensomeip_python.Exceptions.{Exn, ok, err}
use opensomeip_python.Endpoint.{Endpoint}
use opensomeip_python.Message.{Message, make_message}
use opensomeip_python.Bridge.{to_cpp_message}
use opensomeip_python.Native.Calls.{Call, Native, tp_needs_segmentation}
use opensomeip_python.Tp
use opensomeip_python.Tp.{TpState, segment_of, send_fallback, send_native}
use opensomeip_python.Tp.Segments.{concat, Fits}
use opensomeip_python.Tp.Fallback.{CanSend, sends}
use opensomeip_python.Tp.Delivery.{send_fallback-delivers}
use opensomeip_python.Examples.Serving.{is_wanted, reply_to}
use opensomeip_python.Examples.Large.{Report, handlers, handle_echo_large_data}
use opensomeip_python.Examples.Large.Programs.{service, answer_with, handle}

-- The call that asks the extension about the reply.
abbrev pub asking : Message → Call
asking m = tp_needs_segmentation (to_cpp_message (reply_to m m.payload))

echo-fallback :
    (native : Native) (fuel : ℕ) (report : Report) (m : Message) (s : TpState) (l : List Call)
    (x : Exn)
    → is_wanted service m ≡ true
    → m.message_id.method_id ≡ 3
    → s.manager.cpp ≡ true
    → native l (asking m) ≡ err x
    → handle native fuel report m s l
      ≡ send_fallback native fuel (reply_to m m.payload) m.source_endpoint s (l ++ asking m ∷ [])
unfolding handle answer_with handlers lookup handle_echo_large_data Tp.send_message send_native
echo-fallback native fuel report m s l x wanted echoes cpp refuses =
    ground (arith, wanted, echoes, cpp, refuses)

-- Where the extension raises at the very first question, whether the reply needs segmentation, and
-- accepts every message that the transport sends, on a running transport: the echo of a payload over the MTU still gets to its
-- sender completely: the segments go to the request's source endpoint, each within the MTU, and put
-- together they are the request's payload. With a positive MTU, a fuel above the
-- payload's length is enough.
pub echo_delivered :
    (native : Native) (fuel : ℕ) (report : Report) (m : Message) (to : Endpoint) (s : TpState)
    (l : List Call) (x : Exn)
    → is_wanted service m ≡ true
    → m.message_id.method_id ≡ 3
    → s.manager.cpp ≡ true
    → native l (asking m) ≡ err x
    → CanSend native m.source_endpoint to s.transport
    → 0 < s.manager.mtu
    → s.manager.mtu < length m.payload
    → length m.payload < fuel
    → (parts : List (List ℕ)) × (handle native fuel report m s l
        ≡ some (
          ok tt,
          s,
          (l ++ asking m ∷ []) ++ sends to (map (segment_of (reply_to m m.payload)) parts),
        ))
      × (concat parts ≡ m.payload)
      × All (Fits s.manager.mtu) parts
unfolding make_message
echo_delivered native fuel report m to s l x wanted echoes cpp refuses can pos large enough =
    let (parts, out, whole, fits, few) =
      send_fallback-delivers native fuel (reply_to m m.payload) m.source_endpoint to s
        (l ++ asking m ∷ []) can pos large enough in
    (parts, echo-fallback native fuel report m s l x wanted echoes cpp refuses ∙ out, whole, fits)

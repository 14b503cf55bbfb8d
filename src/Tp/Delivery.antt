-- ===== src/Tp/Delivery.antt =====
-- What the fallback of `send` delivers.
use opensomeip_python.Prelude.{
  ℕ, ◌+◌, ◌*◌, ◌<◌, ◌≡◌, ◌∙◌, ap, Option, some, List, ◌++◌, map, length, All, lt→leb_false, arith,
}
use opensomeip_python.Exceptions.{ok}
use opensomeip_python.Endpoint.{Endpoint}
use opensomeip_python.Message.{Message}
use opensomeip_python.Native.Calls.{Call, Native}
use opensomeip_python.Tp.{TpState, segment_of, send_fallback}
use opensomeip_python.Tp.Segments.{chunks, concat, concat-chunks, Fits, chunks-Fits, length-chunks}
use opensomeip_python.Tp.Fallback.{CanSend, sends, send_fallback-segments, send_list-sends}

-- Over a transport that can send, and with a positive MTU and a fuel above the payload's length, a
-- message that is longer than the MTU goes out completely: one call for each segment, which is what
-- `segment_of` makes of the message and a part of its payload. Every part is within the MTU, put
-- together in the order of the calls they are the payload, and there are no more of them than needed.
pub send_fallback-delivers :
    (native : Native) (fuel : ℕ) (m : Message) (endpoint : Option Endpoint) (to : Endpoint)
    (s : TpState) (l : List Call)
    → CanSend native endpoint to s.transport
    → 0 < s.manager.mtu
    → s.manager.mtu < length m.payload
    → length m.payload < fuel
    → (parts : List (List ℕ)) × (send_fallback native fuel m endpoint s l
        ≡ some (ok tt, s, l ++ sends to (map (segment_of m) parts)))
      × (concat parts ≡ m.payload)
      × All (Fits s.manager.mtu) parts
      × (length parts * s.manager.mtu < length m.payload + s.manager.mtu)
send_fallback-delivers native fuel m endpoint to s l c pos large enough =
    let parts = chunks fuel s.manager.mtu m.payload in
    (
      parts,
      send_fallback-segments native fuel m endpoint s l pos enough
          ∙ rw (lt→leb_false _ _ large)
              (ap some (send_list-sends native (map (segment_of m) parts) endpoint to s l c)),
      concat-chunks fuel s.manager.mtu m.payload pos (omega arith),
      chunks-Fits fuel s.manager.mtu m.payload pos,
      (length-chunks fuel s.manager.mtu m.payload pos (omega arith)).1,
    )

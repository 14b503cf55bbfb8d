-- ===== src/Tp/Fallback.antt =====
-- The fallback of `send`: which messages it sends, and when it does not end.
use opensomeip_python.Prelude.{
  ℕ, zero, suc, ◌<◌, ◌≡◌, ◌≢◌, ◌↔◌, refl, ap, ◌∙◌, sym, true, Option, none, some, List, [], ◌∷◌,
  ◌++◌, map, length, leb, take, drop, append-nil, append_assoc, length-drop, lt→leb_false, arith,
  or_else, if◌then◌else◌,
}
use opensomeip_python.Exceptions.{Result, ok, err, library, transport_error}
use opensomeip_python.Endpoint.{Endpoint}
use opensomeip_python.Message.{Message}
use opensomeip_python.Message.Laws.{SameContent, protocol_unique}
use opensomeip_python.Bridge.{to_cpp_message}
use opensomeip_python.Native.Calls.{Call, CppMessage, Native, send_message}
use opensomeip_python.Native.Run.{next}
use opensomeip_python.Transport.{Transport, send}
use opensomeip_python.Tp.{TpState, segment_of, send_on, send_chunks, send_fallback}
use opensomeip_python.Tp.Segments.{chunks}

-- The messages of a list, sent one after the other until one fails.
unfoldable pub send_list :
    Native
    → List Message
    → Option Endpoint
    → TpState
    → List Call
    → Result (Unit {0}) × TpState × List Call
send_list native [] endpoint s l = (ok tt, s, l)
send_list native (m ∷ ms) endpoint s l =
    next (send_on native m endpoint s l) (λ _. send_list native ms endpoint)

-- Sending changes nothing in the manager or in the transport.
pub state-send_on :
    (native : Native) (m : Message) (endpoint : Option Endpoint) (s : TpState) (l : List Call)
    → (send_on native m endpoint s l).1 ≡ s
unfolding send
state-send_on native m endpoint s l = ground arith

go_on :
    (t : Result (Unit {0}) × TpState × List Call) (s : TpState)
    (f : TpState → List Call → Option (Result (Unit {0}) × TpState × List Call))
    (g : TpState → List Call → Result (Unit {0}) × TpState × List Call)
    → t.1 ≡ s
    → ((k : List Call) → f s k ≡ some (g s k))
    → elim t.0 [ ok u ↦ f t.1 t.2 | err e ↦ some t ] ≡ some (next t (λ _. g))
go_on (ok u, s', k) s f g same h = rw same (h k)
go_on (err e, s', k) s f g same h = refl

send_chunks-eq :
    (native : Native) (fuel : ℕ) (left : List ℕ) (m : Message) (endpoint : Option Endpoint)
    (s : TpState) (l : List Call)
    → 0 < s.manager.mtu
    → length left < fuel
    → send_chunks native fuel left m endpoint s l
      ≡ some (send_list native (map (segment_of m) (chunks fuel s.manager.mtu left)) endpoint s l)
unfolding send_chunks send_list chunks
send_chunks-eq native zero left m endpoint s l pos h = absurd (omega arith)
send_chunks-eq native (suc fuel) [] m endpoint s l pos h = refl
send_chunks-eq native (suc fuel) (x ∷ xs) m endpoint s l pos h =
    let chunk = segment_of m (take s.manager.mtu (x ∷ xs)) in
    let left = drop s.manager.mtu (x ∷ xs) in
    let shorter : length left < fuel = omega (arith, length-drop s.manager.mtu (x ∷ xs)) in
    go_on (send_on native chunk endpoint s l) s (send_chunks native fuel left m endpoint)
      (send_list native (map (segment_of m) (chunks fuel s.manager.mtu left)) endpoint)
      (state-send_on native chunk endpoint s l)
      (λ k. send_chunks-eq native fuel left m endpoint s k pos shorter)

-- With a positive MTU, the fallback sends a message that fits as it is. It sends any other in segments of the MTU's
-- size, in order and until one fails; a fuel above the payload's length is enough.
pub send_fallback-segments :
    (native : Native) (fuel : ℕ) (m : Message) (endpoint : Option Endpoint) (s : TpState)
    (l : List Call)
    → 0 < s.manager.mtu
    → length m.payload < fuel
    → send_fallback native fuel m endpoint s l ≡ (
        if leb (length m.payload) s.manager.mtu
        then some (send_on native m endpoint s l)
        else some (
            send_list native
              (map (segment_of m) (chunks fuel s.manager.mtu m.payload))
              endpoint
              s
              l))
unfolding send_fallback
send_fallback-segments native fuel m endpoint s l pos enough =
    rw (send_chunks-eq native fuel m.payload m endpoint s l pos enough)

-- A transport that can send, over an extension that accepts every message.
pub record CanSend (native : Native) (endpoint : Option Endpoint) (to : Endpoint) (t : Transport)
    : Type 0 where
  pub is_running : t.running ≡ true
  pub has_extension : t.cpp ≡ true
  pub has_target : or_else endpoint t.remote_endpoint ≡ some to
  pub accepts : (l : List Call) (c : CppMessage) → native l (send_message c to) ≡ ok tt

send-CanSend :
    (native : Native) (m : Message) (endpoint : Option Endpoint) (to : Endpoint) (t : Transport)
    (l : List Call)
    → CanSend native endpoint to t
    → send native m endpoint t l ≡ (ok tt, t, l ++ send_message (to_cpp_message m) to ∷ [])
unfolding send
send-CanSend native m endpoint to t l c =
    ground (arith, c.is_running, c.has_extension, c.has_target, c.accepts l (to_cpp_message m))

-- The calls that send the messages of a list.
abbrev pub sends : Endpoint → List Message → List Call
sends to = map (λ m. send_message (to_cpp_message m) to)

-- Over a transport that can send, the messages of a list go out one call each, in their order.
pub send_list-sends :
    (native : Native) (ms : List Message) (endpoint : Option Endpoint) (to : Endpoint) (s : TpState)
    (l : List Call)
    → CanSend native endpoint to s.transport
    → send_list native ms endpoint s l ≡ (ok tt, s, l ++ sends to ms)
unfolding send_list
send_list-sends native [] endpoint to s l c = rw append-nil
send_list-sends native (m ∷ ms) endpoint to s l c =
    rw (send-CanSend native m endpoint to s.transport l c) (
      send_list-sends native ms endpoint to s (l ++ send_message (to_cpp_message m) to ∷ []) c
      ∙ rw append_assoc)

send_chunks-zero_mtu :
    (native : Native) (fuel x : ℕ) (xs : List ℕ) (m : Message) (endpoint : Option Endpoint)
    (to : Endpoint) (s : TpState) (l : List Call)
    → s.manager.mtu ≡ 0
    → CanSend native endpoint to s.transport
    → send_chunks native fuel (x ∷ xs) m endpoint s l ≡ none
unfolding send_chunks drop
send_chunks-zero_mtu native zero x xs m endpoint to s l zero_mtu c = refl
send_chunks-zero_mtu native (suc fuel) x xs m endpoint to s l zero_mtu c =
    let chunk = segment_of m (take s.manager.mtu (x ∷ xs)) in
    let all_left : drop s.manager.mtu (x ∷ xs) ≡ x ∷ xs =
      ap (λ (n : ℕ). drop n (x ∷ xs)) zero_mtu in
    ground (
      arith,
      send-CanSend native chunk endpoint to s.transport l c,
      all_left,
      send_chunks-zero_mtu native fuel x xs m endpoint to s
          (l ++ send_message (to_cpp_message chunk) to ∷ []) zero_mtu c,
    )

-- With an MTU of 0, over a transport that can send and an extension that accepts every message, the
-- fallback does not end for a message whose payload is not empty: no fuel is enough.
pub zero_mtu_diverges :
    (native : Native) (fuel : ℕ) (m : Message) (endpoint : Option Endpoint) (to : Endpoint)
    (s : TpState) (l : List Call)
    → s.manager.mtu ≡ 0
    → m.payload ≢ []
    → CanSend native endpoint to s.transport
    → send_fallback native fuel m endpoint s l ≡ none
unfolding send_fallback send_chunks
zero_mtu_diverges native fuel m endpoint to s l zero_mtu some_payload c = nonempty m.payload refl
  where
    nonempty : (left : List ℕ) → m.payload ≡ left → send_fallback native fuel m endpoint s l ≡ none
    nonempty [] e = absurd (some_payload e)
    nonempty (x ∷ xs) e =
        ground
          (arith, e, zero_mtu, send_chunks-zero_mtu native fuel x xs m endpoint to s l zero_mtu c)

-- A segment carries the header of its message, but always interface version 1.
pub segment_header_iff :
    (m : Message) (chunk : List ℕ)
    → SameContent (segment_of m chunk) (record m { payload = chunk }) ↔ (m.interface_version ≡ 1)
unfolding segment_of
segment_header_iff m chunk = (
  λ same. sym same.same_interface,
  λ e. record {
    same_message_id = refl;
    same_request_id = refl;
    same_type = refl;
    same_code = refl;
    same_protocol = protocol_unique _ _;
    same_interface = sym e;
    same_payload = refl;
  },
)

segment_has_no_target :
    (native : Native) (m : Message) (chunk : List ℕ) (t : Transport) (l : List Call)
    → t.remote_endpoint ≡ none
    → send native (segment_of m chunk) none t l ≡ (err (library transport_error), t, l)
unfolding send segment_of
segment_has_no_target native m chunk t l no_remote = ground arith

send_chunks-no_target :
    (native : Native) (fuel : ℕ) (left : List ℕ) (m : Message) (s : TpState) (l : List Call)
    → 0 < length left
    → s.transport.remote_endpoint ≡ none
    → send_chunks native (suc fuel) left m none s l ≡ some (err (library transport_error), s, l)
unfolding send_chunks
send_chunks-no_target native fuel [] m s l some_left no_remote = absurd (omega arith)
send_chunks-no_target native fuel (x ∷ xs) m s l some_left no_remote =
    ground
      (arith, segment_has_no_target native m (take s.manager.mtu (x ∷ xs)) s.transport l no_remote)

-- Without a remote endpoint and an argument, the fallback sends no message that is larger than the
-- MTU, not even one that has a source endpoint: its segments have none. It raises `TransportError`
-- and calls nothing.
pub large_reply_fails :
    (native : Native) (fuel : ℕ) (m : Message) (s : TpState) (l : List Call)
    → s.transport.remote_endpoint ≡ none
    → 0 < s.manager.mtu
    → s.manager.mtu < length m.payload
    → length m.payload < fuel
    → send_fallback native fuel m none s l ≡ some (err (library transport_error), s, l)
unfolding send_fallback
large_reply_fails native zero m s l no_remote pos large enough = absurd (omega arith)
large_reply_fails native (suc fuel) m s l no_remote pos large enough =
    rw (lt→leb_false _ _ large)
      (send_chunks-no_target native fuel m.payload m s l (omega arith) no_remote)

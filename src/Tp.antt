-- ===== src/Tp.antt =====
-- src/opensomeip/tp.py: `TpManager`, which splits a message whose payload is longer than the MTU.
-- The manager holds the transport that its owner made; `TpState` is the manager with that
-- transport, as the two are when a method runs.
pub mod Segments
pub mod Fallback
pub mod Delivery
use opensomeip_python.Prelude.{
  ℕ, zero, suc, ◌+◌, ◌/◌, Bool, true, false, Option, none, some, List, [], ◌∷◌, ◌++◌, ltb, leb,
  ◌==◌, length, take, drop, if◌then◌else◌,
}
use opensomeip_python.Exceptions.{Result, ok, err, zero_division_error}
use opensomeip_python.Endpoint.{Endpoint}
use opensomeip_python.Message.{Message, default_message, make_message}
use opensomeip_python.Bridge.{to_cpp_message}
use opensomeip_python.Receiver
use opensomeip_python.Receiver.{Receiver, put, close}
use opensomeip_python.Transport.{Transport, send}
use opensomeip_python.Native.Calls.{
  Call, Native, tp_initialize, tp_shutdown, tp_set_message_callback, tp_needs_segmentation,
  tp_segment_message, tp_get_next_segment,
}
use opensomeip_python.Native.Run.{
  Exec, next, ◌>>=◌, ◌>>◌, pure, raise, get, modify, local, zoom, attempt, when, invoke, within,
}

pub record TpManager : Type 0 where
  pub mtu : ℕ
  pub running : Bool
  pub reassembly_receiver : Receiver
  pub cpp : Bool

pub record TpState : Type 0 where
  pub manager : TpManager
  pub transport : Transport

abbrev pub default_mtu : ℕ
default_mtu = 1400

-- `TpManager(transport, mtu=mtu)`, with or without the extension.
unfoldable pub new_manager : Bool → ℕ → TpManager
new_manager ext mtu = record {
  mtu = mtu;
  running = false;
  reassembly_receiver = Receiver.new 0;
  cpp = ext;
}

-- `self._transport.send(message, endpoint)`
abbrev pub send_on : Native → Message → Option Endpoint → Exec TpState (Unit {0})
send_on native m endpoint =
    zoom (λ s. s.transport) (λ s t. record s { transport = t }) (send native m endpoint)

-- `Message(message_id=…, …, payload=chunk)` with the header of the whole message.
unfoldable pub segment_of : Message → List ℕ → Message
unfolding make_message
segment_of m chunk = make_message m.message_id m.request_id m.message_type m.return_code chunk

-- `_on_complete`, which the extension calls with a reassembled payload.
unfoldable pub on_complete : List ℕ → TpManager → Result (Unit {0}) × TpManager
unfolding put
on_complete payload p =
    let (r, receiver) = put (record default_message { payload = payload }) p.reassembly_receiver in
    (r, record p { reassembly_receiver = receiver })

module _ (native : Native) where
  unfoldable pub start : Exec TpManager (Unit {0})
  start = do
    p ← get
    when p.cpp (attempt (do invoke native tp_initialize; invoke native tp_set_message_callback))
    modify (λ q. record q { running = true })

  unfoldable pub stop : Exec TpManager (Unit {0})
  unfolding close
  stop = do
    p ← get
    when p.cpp (attempt (invoke native tp_shutdown))
    modify (λ q. record q { running = false })
    zoom (λ q. q.reassembly_receiver) (λ q r. record q { reassembly_receiver = r }) (local close)

  -- `with` and `async with` on the object.
  unfoldable pub with_manager : {A : Type 0} → Exec TpManager A → Exec TpManager A
  unfolding start stop
  with_manager = within start stop

  -- The `for` loop over `get_next_segment`, with the rounds that are left.
  unfoldable pub native_segments : ℕ → ℕ → Message → Option Endpoint → Exec TpState (Unit {0})
  native_segments zero transfer m endpoint s l = (ok tt, s, l)
  native_segments (suc rounds) transfer m endpoint s l =
      let rest = native_segments rounds transfer m endpoint in
      next (invoke native (tp_get_next_segment transfer) s l) λ reply.
        if reply.0 == 0 then (do send_on native (segment_of m reply.1) endpoint; rest) else pure tt

  -- `(len(message.payload) // self._mtu) + 2`
  abbrev pub max_segments : Message → ℕ → Result ℕ
  max_segments m mtu = if mtu == 0 then err zero_division_error else ok (length m.payload / mtu + 2)

  -- The body of the `try` block of `send`.
  unfoldable pub send_native : Message → Option Endpoint → Exec TpState (Unit {0})
  unfolding native_segments
  send_native m endpoint = do
    large ← invoke native (tp_needs_segmentation (to_cpp_message m))
    if large
        then (do
          reply ← invoke native (tp_segment_message (to_cpp_message m))
          s ← get
          rounds ← (λ s' l. (max_segments m s.manager.mtu, s', l))
          native_segments rounds reply.1 m endpoint)
        else send_on native m endpoint

  -- The `while offset < len(message.payload)` loop at `payload[offset:]`, with fuel. `none` means
  -- that the fuel ran out.
  unfoldable pub send_chunks :
      ℕ
      → List ℕ
      → Message
      → Option Endpoint
      → TpState
      → List Call
      → Option (Result (Unit {0}) × TpState × List Call)
  send_chunks zero left m endpoint s l = none
  send_chunks (suc fuel) left m endpoint s l =
      let t = send_on native (segment_of m (take s.manager.mtu left)) endpoint s l in
      let rest = send_chunks fuel (drop s.manager.mtu left) m endpoint t.1 t.2 in
      elim left [ [] ↦ some (ok tt, s, l) | x ∷ xs ↦ elim t.0 [ ok u ↦ rest | err e ↦ some t ] ]

  -- What follows the `try` block of `send`.
  unfoldable pub send_fallback :
      ℕ
      → Message
      → Option Endpoint
      → TpState
      → List Call
      → Option (Result (Unit {0}) × TpState × List Call)
  unfolding send_chunks
  send_fallback fuel m endpoint s l =
      if leb (length m.payload) s.manager.mtu
      then some (send_on native m endpoint s l)
      else send_chunks fuel m.payload m endpoint s l

  -- `send`: an exception in the `try` block leads to the fallback.
  unfoldable pub send_message :
      ℕ
      → Message
      → Option Endpoint
      → TpState
      → List Call
      → Option (Result (Unit {0}) × TpState × List Call)
  unfolding send_native send_fallback
  send_message fuel m endpoint s l =
      if s.manager.cpp
      then (let t = send_native m endpoint s l in
          elim t.0 [ ok u ↦ some t | err e ↦ send_fallback fuel m endpoint t.1 t.2 ])
      else send_fallback fuel m endpoint s l

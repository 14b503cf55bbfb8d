-- ===== src/Transport.antt =====
-- src/opensomeip/transport.py: `Transport`, `UdpTransport` and `TcpTransport`, and the listener
-- through which the extension hands over incoming messages. `cpp` says whether `self._cpp` is set,
-- which the constructors do exactly when the extension was imported.
pub mod Lifecycle
pub mod Incoming
use Prim.Native.String.{String}
use opensomeip_python.Prelude.{
  ℕ, Bool, true, false, not, ◌&&◌, Option, none, some, List, ◌∷◌, ◌++◌, [], if◌then◌else◌, or_else,
}
use opensomeip_python.Exceptions.{
  Exn, library, ErrorClass, transport_error, connection_error, connection_lost_error, Result, ok,
  err,
}
use opensomeip_python.Endpoint.{Endpoint}
use opensomeip_python.Message.{Message}
use opensomeip_python.Bridge.{to_cpp_message, from_cpp_message, from_cpp_endpoint}
use opensomeip_python.Receiver
use opensomeip_python.Receiver.{Receiver, put, close}
use opensomeip_python.Native.Calls.{
  CppMessage, Call, transport_start, transport_stop, tcp_disconnect, send_message,
  join_multicast_group, tcp_connect, tcp_initialize, Native,
}
use opensomeip_python.Native.Run.{
  Exec, next, ◌>>=◌, ◌>>◌, pure, raise, get, modify, local, zoom, attempt, when, invoke, within,
}

-- The class of the object.
pub data Kind : Type 0 where
  plain udp tcp : Kind

pub record Transport : Type 0 where
  pub kind : Kind
  pub local_endpoint : Endpoint
  pub remote_endpoint : Option Endpoint
  pub running : Bool
  pub receiver : Receiver
  pub cpp : Bool
  pub multicast_group : Option String
  pub connected : Bool

-- `Transport(local, remote)`; the base class leaves `_cpp` at `None`.
unfoldable pub new_transport : Kind → Bool → Endpoint → Option Endpoint → Option String → Transport
new_transport kind cpp here remote group = record {
  kind = kind;
  local_endpoint = here;
  remote_endpoint = remote;
  running = false;
  receiver = Receiver.new 0;
  cpp = cpp;
  multicast_group = group;
  connected = false;
}

-- `UdpTransport(local, remote, multicast_group=group)`, with or without the extension.
unfoldable pub new_udp : Bool → Endpoint → Option Endpoint → Option String → Transport
unfolding new_transport
new_udp ext here remote group = new_transport udp ext here remote group

-- `TcpTransport(local, remote)`
unfoldable pub new_tcp : Bool → Endpoint → Option Endpoint → Transport
unfolding new_transport
new_tcp ext here remote = new_transport tcp ext here remote none

-- `except TransportError`
abbrev pub is_transport_error : Exn → Bool
is_transport_error (library transport_error) = true
is_transport_error (library connection_error) = true
is_transport_error (library connection_lost_error) = true
is_transport_error _ = false

-- What `start` makes of the extension's answer: a result other than SUCCESS raises, and so does a
-- `TransportError`; any other exception is passed over.
abbrev pub start_outcome : Result (Option Bool) → Result (Unit {0})
start_outcome (ok none) = ok tt
start_outcome (ok (some true)) = ok tt
start_outcome (ok (some false)) = err (library transport_error)
start_outcome (err e) = if is_transport_error e then err e else ok tt

-- The `finally`-less tail of `stop`.
abbrev close_receiver : Exec Transport (Unit {0})
close_receiver = zoom (λ t. t.receiver) (λ t r. record t { receiver = r }) (local close)

module _ (native : Native) where
  -- `Transport.start`
  unfoldable pub base_start : Exec Transport (Unit {0})
  base_start t l =
      if t.running
      then (ok tt, t, l)
      else (do
        when t.cpp (λ s k. (start_outcome (native k transport_start), s, k ++ transport_start ∷ []))
        modify (λ s. record s { running = true }))
          t l

  -- `Transport.stop`
  unfoldable pub base_stop : Exec Transport (Unit {0})
  unfolding close
  base_stop t l =
      if t.running
      then (do
        modify (λ s. record s { running = false })
        when t.cpp (invoke native transport_stop)
        close_receiver)
          t l
      else (ok tt, t, l)

  join_group : Option String → Exec Transport (Unit {0})
  join_group none = pure tt
  join_group (some group) = invoke native (join_multicast_group group)

  -- `UdpTransport.start`
  unfoldable pub udp_start : Exec Transport (Unit {0})
  unfolding base_start join_group
  udp_start = do base_start; t ← get; when t.cpp (join_group t.multicast_group)

  connect_to : Option Endpoint → Exec Transport (Unit {0})
  connect_to none = raise (library transport_error)
  connect_to (some remote) = do
    t ← get
    when t.cpp (attempt (invoke native (tcp_connect remote)))
    modify (λ s. record s { connected = true })

  -- `TcpTransport.connect`
  unfoldable pub connect : Exec Transport (Unit {0})
  unfolding connect_to
  connect = do t ← get; connect_to t.remote_endpoint

  connect_if_remote : Option Endpoint → Exec Transport (Unit {0})
  connect_if_remote none = pure tt
  connect_if_remote (some remote) = connect

  -- `TcpTransport.start`
  unfoldable pub tcp_start : Exec Transport (Unit {0})
  unfolding base_start connect connect_if_remote
  tcp_start = do
    t ← get
    when t.cpp (attempt (invoke native (tcp_initialize t.local_endpoint)))
    base_start
    connect_if_remote t.remote_endpoint

  -- `TcpTransport.stop`
  unfoldable pub tcp_stop : Exec Transport (Unit {0})
  unfolding base_stop
  tcp_stop = do
    t ← get
    modify (λ s. record s { connected = false })
    when (t.cpp && t.connected) (attempt (invoke native tcp_disconnect))
    base_stop

  start_as : Kind → Exec Transport (Unit {0})
  start_as plain = base_start
  start_as udp = udp_start
  start_as tcp = tcp_start

  -- `start()` and `stop()` on an object of any of the classes.
  unfoldable pub start : Exec Transport (Unit {0})
  unfolding start_as base_start udp_start tcp_start
  start = do t ← get; start_as t.kind

  stop_as : Kind → Exec Transport (Unit {0})
  stop_as tcp = tcp_stop
  stop_as _ = base_stop

  unfoldable pub stop : Exec Transport (Unit {0})
  unfolding stop_as base_stop tcp_stop
  stop = do t ← get; stop_as t.kind

  -- `with` and `async with` on the object.
  unfoldable pub with_transport : {A : Type 0} → Exec Transport A → Exec Transport A
  unfolding start stop
  with_transport = within start stop

  send_to : Message → Option Endpoint → Exec Transport (Unit {0})
  send_to m none = raise (library transport_error)
  send_to m (some target) = invoke native (send_message (to_cpp_message m) target)

  -- `Transport.send`. An `Endpoint` is always truthy, so `or` takes the first that is not `None`.
  unfoldable pub send : Message → Option Endpoint → Exec Transport (Unit {0})
  unfolding send_to
  send m endpoint t l =
      if not t.running
      then (err (library transport_error), t, l)
      else if not t.cpp
      then (err (library transport_error), t, l)
      else send_to m (or_else (or_else endpoint t.remote_endpoint) m.source_endpoint) t l

-- The sender's address is set if it passes the checks of `Endpoint`.
abbrev pub with_source : Message → Result Endpoint → Message
with_source m (ok e) = record m { source_endpoint = some e }
with_source m (err x) = m

abbrev pub received : Result Message → Endpoint → Transport → Result (Unit {0}) × Transport
received (err e) sender t = (err e, t)
received (ok m) sender t =
    let (r, receiver) = put (with_source m (from_cpp_endpoint sender)) t.receiver in
    (r, record t { receiver = receiver })

-- `on_message_received` of the native listener.
unfoldable pub on_message_received :
    CppMessage → Endpoint → Transport → Result (Unit {0}) × Transport
on_message_received c sender t = received (from_cpp_message c) sender t

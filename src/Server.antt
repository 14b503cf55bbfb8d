-- ===== src/Server.antt =====
-- src/opensomeip/server.py: `SomeIpServer`, which composes the other components.
pub mod Lifecycle
pub mod Closing
pub mod Shutdown
use Prim.Native.String.{String}
use opensomeip_python.Prelude.{
  ℕ, Bool, true, false, Option, none, some, List, [], ◌∷◌, ◌++◌, ltb, length, if◌then◌else◌,
}
use opensomeip_python.Prelude.Int.{pos}
use opensomeip_python.Exceptions.{Exn, Result, ok, err, map_result}
use opensomeip_python.Types.Enums.{notification, e_ok}
use opensomeip_python.Types.MessageId
use opensomeip_python.Types.MessageId.{MessageId}
use opensomeip_python.Types.RequestId
use opensomeip_python.Endpoint.{Endpoint}
use opensomeip_python.Message.{Message, default_message}
use opensomeip_python.Native.Calls.{Call, Native}
use opensomeip_python.Native.Run.{Exec, next, ◌>>=◌, ◌>>◌, pure, get, modify, local, zoom, within}
use opensomeip_python.Transport
use opensomeip_python.Transport.{Transport, new_udp, new_tcp}
use opensomeip_python.Sd
use opensomeip_python.Sd.{SdConfig, SdServer, ServiceInstance}
use opensomeip_python.Rpc
use opensomeip_python.Rpc.Server.{RpcServer, Handler}
use opensomeip_python.Events
use opensomeip_python.Events.{EventPublisher, new_publisher}
use opensomeip_python.Tp
use opensomeip_python.Tp.{TpManager, TpState, new_manager}
use opensomeip_python.E2e.Protection.{E2eConfig, E2eProfile, E2eProtection, new_protection, protect}

pub data TransportMode : Type 0 where
  mode_udp mode_tcp : TransportMode

pub record ServerConfig : Type 0 where
  pub local_endpoint : Endpoint
  pub sd_config : SdConfig
  pub services : List ServiceInstance
  pub transport_mode : TransportMode
  pub multicast_group : Option String
  pub enable_tp : Bool
  pub tp_mtu : ℕ
  pub e2e_config : Option E2eConfig
  pub e2e_profile : Option E2eProfile

-- Handlers share the E2E protection, whose counter they move on.
pub record SomeIpServer : Type 0 where
  pub config : ServerConfig
  pub transport : Transport
  pub sd_server : SdServer
  pub rpc_server : RpcServer (Option E2eProtection)
  pub event_publisher : EventPublisher
  pub tp_manager : Option TpManager
  pub e2e : Option E2eProtection
  pub running : Bool

-- The transport that the constructor makes: a server gives it no remote endpoint.
unfoldable pub server_transport : Bool → TransportMode → Endpoint → Option String → Transport
unfolding new_udp new_tcp
server_transport ext mode_tcp here group = new_tcp ext here none
server_transport ext mode_udp here group = new_udp ext here none group

-- `TpManager(…)` if it is enabled, and `E2EProtection(…)` if it is configured.
unfoldable pub optional_manager : Bool → Bool → ℕ → Option TpManager
unfolding new_manager
optional_manager ext enabled mtu = if enabled then some (new_manager ext mtu) else none

unfoldable pub optional_protection : Option E2eConfig → Option E2eProfile → Option E2eProtection
unfolding new_protection
optional_protection none profile = none
optional_protection (some c) profile = some (new_protection c profile)

-- `SomeIpServer(config)`, with or without the extension.
unfoldable pub new : Bool → ServerConfig → SomeIpServer
unfolding server_transport optional_manager optional_protection Sd.new_server Rpc.Server.new_server
    new_publisher
new ext c = record {
  config = c;
  transport = server_transport ext c.transport_mode c.local_endpoint c.multicast_group;
  sd_server = Sd.new_server ext c.sd_config;
  rpc_server = Rpc.Server.new_server ext;
  event_publisher = new_publisher ext;
  tp_manager = optional_manager ext c.enable_tp c.tp_mtu;
  e2e = optional_protection c.e2e_config c.e2e_profile;
  running = false;
}

-- `if self._e2e is not None: payload = self._e2e.protect(payload)`
unfoldable pub protect_if : List ℕ → Option E2eProtection → Result (List ℕ) × Option E2eProtection
unfolding protect
protect_if payload none = (ok payload, none)
protect_if payload (some p) = ((protect payload p).0, some (protect payload p).1)

-- A handler of the application, and the same with its answer protected.
unfoldable pub e2e_handler : (Message → Result Message) → Handler (Option E2eProtection)
unfolding protect_if
e2e_handler original req e = elim (original req) [
  | err x ↦ (err x, e)
  | ok resp ↦
      let t = protect_if resp.payload e in
      (map_result (λ bytes. record resp { payload = bytes }) t.0, t.1)
]

abbrev on_transport : {A : Type 0} → Exec Transport A → Exec SomeIpServer A
on_transport = zoom (λ s. s.transport) (λ s t. record s { transport = t })

abbrev on_sd : {A : Type 0} → Exec SdServer A → Exec SomeIpServer A
on_sd = zoom (λ s. s.sd_server) (λ s t. record s { sd_server = t })

abbrev on_rpc : {A : Type 0} → Exec (RpcServer (Option E2eProtection)) A → Exec SomeIpServer A
on_rpc = zoom (λ s. s.rpc_server) (λ s t. record s { rpc_server = t })

abbrev on_events : {A : Type 0} → Exec EventPublisher A → Exec SomeIpServer A
on_events = zoom (λ s. s.event_publisher) (λ s t. record s { event_publisher = t })

abbrev on_manager : Exec TpManager (Unit {0}) → Option TpManager → Exec SomeIpServer (Unit {0})
on_manager m none s l = (ok tt, s, l)
on_manager m (some p) s l = let (r, q, l') = m p l in (r, record s { tp_manager = some q }, l')

module _ (native : Native) where
  unfoldable pub offer_all : List ServiceInstance → Exec SomeIpServer (Unit {0})
  unfolding Sd.offer
  offer_all [] = pure tt
  offer_all (x ∷ xs) = on_sd (Sd.offer native x) >> offer_all xs

  unfoldable pub stop_offer_all : List ServiceInstance → Exec SomeIpServer (Unit {0})
  unfolding Sd.stop_offer
  stop_offer_all [] = pure tt
  stop_offer_all (x ∷ xs) = on_sd (Sd.stop_offer native x) >> stop_offer_all xs

  unfoldable pub start : Exec SomeIpServer (Unit {0})
  unfolding offer_all Transport.start Sd.start Tp.start
  start = do
    on_transport (Transport.start native)
    on_sd (Sd.start native)
    on_rpc (Rpc.Server.start_server native)
    on_events (Events.start_publisher native)
    s ← get
    on_manager (Tp.start native) s.tp_manager
    offer_all s.config.services
    modify (λ t. record t { running = true })

  unfoldable pub stop : Exec SomeIpServer (Unit {0})
  unfolding stop_offer_all Transport.stop Sd.stop Tp.stop
  stop = do
    modify (λ t. record t { running = false })
    s ← get
    stop_offer_all s.config.services
    on_manager (Tp.stop native) s.tp_manager
    on_events (Events.stop_publisher native)
    on_rpc (Rpc.Server.stop_server native)
    on_sd (Sd.stop native)
    on_transport (Transport.stop native)

  -- `with` and `async with` on the object.
  unfoldable pub with_server : {A : Type 0} → Exec SomeIpServer A → Exec SomeIpServer A
  unfolding start stop
  with_server = within start stop

  unfoldable pub register_method :
      MessageId → (Message → Result Message) → Exec SomeIpServer (Unit {0})
  unfolding e2e_handler
  register_method method_id handler = do
    s ← get
    on_rpc (
        Rpc.Server.register_handler native method_id
          (elim s.e2e [ none ↦ λ m e. (handler m, e) | some p ↦ e2e_handler handler ]))

  -- `self._tp_manager.send(message)`
  abbrev pub send_by_manager :
      ℕ
      → Message
      → TpManager
      → SomeIpServer
      → List Call
      → Option (Result (Unit {0}) × SomeIpServer × List Call)
  send_by_manager fuel m p s l =
      elim (Tp.send_message native fuel m none (record { manager = p; transport = s.transport })
        l) [
          | none ↦ none
          | some (r, t, l') ↦
              some (r, record s { tp_manager = some t.manager; transport = t.transport }, l')
        ]

  -- The end of `publish_event`: a payload over the configured MTU goes through the manager.
  abbrev pub publish_message :
      ℕ
      → ℕ
      → Message
      → Option TpManager
      → SomeIpServer
      → List Call
      → Option (Result (Unit {0}) × SomeIpServer × List Call)
  publish_message fuel event_id m none s l =
      some (on_events (Events.notify native event_id m.payload) s l)
  publish_message fuel event_id m (some p) s l =
      if ltb s.config.tp_mtu (length m.payload)
      then send_by_manager fuel m p s l
      else some (on_events (Events.notify native event_id m.payload) s l)

  -- `Message(message_id=MessageId(0, event_id), …)`
  unfoldable pub event_message : ℕ → List ℕ → Result Message
  event_message event_id payload =
      map_result
        (λ mid. record default_message {
          message_id = mid;
          message_type = notification;
          return_code = e_ok;
          payload = payload;
        })
        (MessageId.new (pos 0) (pos event_id))

  unfoldable pub publish_event :
      ℕ
      → ℕ
      → List ℕ
      → SomeIpServer
      → List Call
      → Option (Result (Unit {0}) × SomeIpServer × List Call)
  unfolding protect_if event_message
  publish_event fuel event_id payload s l =
      let t = protect_if payload s.e2e in
      let s' = record s { e2e = t.1 } in
      elim t.0 [
        | err x ↦ some (err x, s', l)
        | ok bytes ↦ elim (event_message event_id bytes) [
          | err x ↦ some (err x, s', l)
          | ok m ↦ publish_message fuel event_id m s'.tp_manager s' l
        ]
      ]

  unfoldable pub set_field : ℕ → List ℕ → Exec SomeIpServer (Unit {0})
  unfolding protect_if
  set_field event_id payload s l =
      let t = protect_if payload s.e2e in
      let s' = record s { e2e = t.1 } in
      elim t.0 [
        | err x ↦ (err x, s', l)
        | ok bytes ↦ on_events (Events.set_field native event_id bytes) s' l
      ]

  abbrev send_through :
      ℕ
      → Message
      → Option TpManager
      → SomeIpServer
      → List Call
      → Option (Result (Unit {0}) × SomeIpServer × List Call)
  send_through fuel m none s l = some (on_transport (Transport.send native m none) s l)
  send_through fuel m (some p) s l = send_by_manager fuel m p s l

  unfoldable pub send :
      ℕ → Message → SomeIpServer → List Call → Option (Result (Unit {0}) × SomeIpServer × List Call)
  send fuel m s l = send_through fuel m s.tp_manager s l

  unfoldable pub offer : ServiceInstance → Exec SomeIpServer (Unit {0})
  offer service = on_sd (Sd.offer native service)

  unfoldable pub stop_offer : ServiceInstance → Exec SomeIpServer (Unit {0})
  stop_offer service = on_sd (Sd.stop_offer native service)

  unfoldable pub register_event : ℕ → ℕ → Exec SomeIpServer (Unit {0})
  register_event event_id eventgroup_id =
      on_events (Events.register_event native event_id eventgroup_id)

unfoldable pub register_async_method :
    MessageId → Handler (Option E2eProtection) → SomeIpServer → SomeIpServer
unfolding Rpc.Server.register_async_handler
register_async_method method_id handler s = record s {
  rpc_server = Rpc.Server.register_async_handler method_id handler s.rpc_server;
}

-- `incoming_requests`, which returns the new receiver, here its number.
unfoldable pub incoming_requests : MessageId → SomeIpServer → ℕ × SomeIpServer
unfolding Rpc.Server.incoming_requests
incoming_requests method_id s =
    let (k, rpc) = Rpc.Server.incoming_requests method_id s.rpc_server in
    (k, record s { rpc_server = rpc })

-- ===== src/Client.antt =====
-- src/opensomeip/client.py: `SomeIpClient`, which composes the other components.
pub mod Checked
pub mod Overlapping
pub mod Shutdown
use Prim.Native.String.{String}
use opensomeip_python.Prelude.{
  ℕ, Bool, true, false, Option, none, some, List, [], ◌∷◌, ◌++◌, if◌then◌else◌,
}
use opensomeip_python.Exceptions.{Exn, Result, ok, err, library, e2e_error, runtime_error}
use opensomeip_python.Types.MessageId.{MessageId}
use opensomeip_python.Endpoint.{Endpoint}
use opensomeip_python.Message.{Message}
use opensomeip_python.Receiver.{Receiver}
use opensomeip_python.Native.Calls.{Call, Native}
use opensomeip_python.Native.Run.{Exec, next, ◌>>=◌, ◌>>◌, pure, raise, get, modify, zoom, within}
use opensomeip_python.Transport
use opensomeip_python.Transport.{Transport, new_udp, new_tcp}
use opensomeip_python.Sd
use opensomeip_python.Sd.{SdConfig, SdClient, ServiceInstance}
use opensomeip_python.Rpc
use opensomeip_python.Rpc.{RpcClient, Awaited, still_waiting, returns, raises}
use opensomeip_python.Events
use opensomeip_python.Events.{EventSubscriber, new_subscriber}
use opensomeip_python.Tp
use opensomeip_python.Tp.{TpManager, TpState}
use opensomeip_python.E2e.Protection.{
  CheckStatus, status_ok, E2eConfig, E2eProfile, E2eProtection, check,
}
use opensomeip_python.Server.{
  TransportMode, mode_udp, mode_tcp, optional_manager, optional_protection, protect_if,
}

pub record ClientConfig : Type 0 where
  pub local_endpoint : Endpoint
  pub sd_config : SdConfig
  pub transport_mode : TransportMode
  pub multicast_group : Option String
  pub remote_endpoint : Option Endpoint
  pub enable_tp : Bool
  pub tp_mtu : ℕ
  pub e2e_config : Option E2eConfig
  pub e2e_profile : Option E2eProfile

pub record SomeIpClient : Type 0 where
  pub config : ClientConfig
  pub transport : Transport
  pub sd_client : SdClient
  pub rpc_client : RpcClient
  pub event_subscriber : EventSubscriber
  pub tp_manager : Option TpManager
  pub e2e : Option E2eProtection
  pub running : Bool

unfoldable pub client_transport :
    Bool → TransportMode → Endpoint → Option Endpoint → Option String → Transport
unfolding new_udp new_tcp
client_transport ext mode_tcp here remote group = new_tcp ext here remote
client_transport ext mode_udp here remote group = new_udp ext here remote group

-- `SomeIpClient(config)`, with or without the extension.
unfoldable pub new : Bool → ClientConfig → SomeIpClient
unfolding client_transport optional_manager optional_protection Sd.new_client Rpc.new_client
    new_subscriber
new ext c = record {
  config = c;
  transport =
      client_transport ext c.transport_mode c.local_endpoint c.remote_endpoint c.multicast_group;
  sd_client = Sd.new_client ext c.sd_config;
  rpc_client = Rpc.new_client ext 1;
  event_subscriber = new_subscriber ext;
  tp_manager = optional_manager ext c.enable_tp c.tp_mtu;
  e2e = optional_protection c.e2e_config c.e2e_profile;
  running = false;
}

abbrev on_transport : {A : Type 0} → Exec Transport A → Exec SomeIpClient A
on_transport = zoom (λ s. s.transport) (λ s t. record s { transport = t })

abbrev on_sd : {A : Type 0} → Exec SdClient A → Exec SomeIpClient A
on_sd = zoom (λ s. s.sd_client) (λ s t. record s { sd_client = t })

abbrev on_rpc : {A : Type 0} → Exec RpcClient A → Exec SomeIpClient A
on_rpc = zoom (λ s. s.rpc_client) (λ s t. record s { rpc_client = t })

abbrev on_events : {A : Type 0} → Exec EventSubscriber A → Exec SomeIpClient A
on_events = zoom (λ s. s.event_subscriber) (λ s t. record s { event_subscriber = t })

abbrev on_manager : Exec TpManager (Unit {0}) → Option TpManager → Exec SomeIpClient (Unit {0})
on_manager m none s l = (ok tt, s, l)
on_manager m (some p) s l = let (r, q, l') = m p l in (r, record s { tp_manager = some q }, l')

-- `status != E2ECheckStatus.OK`
abbrev pub is_status_ok : CheckStatus → Bool
is_status_ok status_ok = true
is_status_ok _ = false

abbrev pub accepted : Result CheckStatus → Message → Result Message
accepted (ok status) m = if is_status_ok status then ok m else err (library e2e_error)
accepted (err x) m = err x

-- The check of a response, where protection is on.
unfoldable pub check_if : Message → Option E2eProtection → Result Message
unfolding check
check_if m none = ok m
check_if m (some p) = accepted (check m.payload p) m

module _ (native : Native) where
  unfoldable pub start : Exec SomeIpClient (Unit {0})
  unfolding Transport.start Tp.start
  start = do
    on_transport (Transport.start native)
    on_sd (Sd.start_client native)
    on_rpc (Rpc.start_client native)
    on_events (Events.start_subscriber native)
    s ← get
    on_manager (Tp.start native) s.tp_manager
    modify (λ t. record t { running = true })

  unfoldable pub stop : Exec SomeIpClient (Unit {0})
  unfolding Transport.stop Tp.stop
  stop = do
    modify (λ t. record t { running = false })
    s ← get
    on_manager (Tp.stop native) s.tp_manager
    on_events (Events.stop_subscriber native)
    on_rpc (Rpc.stop_client native)
    on_sd (Sd.stop_client native)
    on_transport (Transport.stop native)

  -- `with` and `async with` on the object.
  unfoldable pub with_client : {A : Type 0} → Exec SomeIpClient A → Exec SomeIpClient A
  unfolding start stop
  with_client = within start stop

  unfoldable pub find : ServiceInstance → Exec SomeIpClient ℕ
  find service = on_sd (Sd.find native service)

  -- `call`
  unfoldable pub call : MessageId → List ℕ → Exec SomeIpClient Message
  unfolding protect_if check_if
  call method_id payload s l =
      let t = protect_if payload s.e2e in
      elim t.0 [
        | err x ↦ (err x, record s { e2e = t.1 }, l)
        | ok bytes ↦
            next (on_rpc (Rpc.call native method_id bytes) (record s { e2e = t.1 }) l)
              λ response s' l'. (check_if response s'.e2e, s', l')
      ]

  -- `call_async` up to its `await`: the protection and the request. It returns the session and the
  -- number of the future.
  unfoldable pub begin_call : MessageId → List ℕ → Exec SomeIpClient (ℕ × ℕ)
  unfolding protect_if
  begin_call method_id payload s l =
      let t = protect_if payload s.e2e in
      elim t.0 [
        | err x ↦ (err x, record s { e2e = t.1 }, l)
        | ok bytes ↦ on_rpc (Rpc.begin_call native method_id bytes) (record s { e2e = t.1 }) l
      ]

  -- `subscribe_service` and `request_field`, which have no body.
  unfoldable pub subscribe_service : ServiceInstance → Exec SomeIpClient (Unit {0})
  subscribe_service service = pure tt

  unfoldable pub request_field : ℕ → Exec SomeIpClient (Unit {0})
  request_field event_id = pure tt

  -- `subscribe_events`, which returns the subscriber's receiver.
  unfoldable pub subscribe_events : ℕ → Exec SomeIpClient Receiver
  subscribe_events eventgroup_id = do
    on_events (Events.subscribe native eventgroup_id 0xffff 0xffff)
    s ← get
    pure s.event_subscriber.notification_receiver

  unfoldable pub unsubscribe_events : ℕ → Exec SomeIpClient (Unit {0})
  unsubscribe_events eventgroup_id =
      on_events (Events.unsubscribe native eventgroup_id 0xffff 0xffff)

  abbrev send_through :
      ℕ
      → Message
      → Option TpManager
      → SomeIpClient
      → List Call
      → Option (Result (Unit {0}) × SomeIpClient × List Call)
  send_through fuel m none s l = some (on_transport (Transport.send native m none) s l)
  send_through fuel m (some p) s l =
      elim (Tp.send_message native fuel m none (record { manager = p; transport = s.transport })
        l) [
          | none ↦ none
          | some (r, t, l') ↦
              some (r, record s { tp_manager = some t.manager; transport = t.transport }, l')
        ]

  unfoldable pub send :
      ℕ → Message → SomeIpClient → List Call → Option (Result (Unit {0}) × SomeIpClient × List Call)
  send fuel m s l = send_through fuel m s.tp_manager s l

-- The end of `call_async`: the check of the answer, under the counter of that time.
abbrev pub checked_wait : Awaited → Option E2eProtection → Awaited
checked_wait still_waiting e = still_waiting
checked_wait (raises x) e = raises x
checked_wait (returns m) e = elim (check_if m e) [ ok n ↦ returns n | err x ↦ raises (some x) ]

unfoldable pub end_call : Bool → ℕ → ℕ → SomeIpClient → Awaited × SomeIpClient
unfolding check_if Rpc.end_call
end_call time_is_up session k s =
    let (outcome, rpc) = Rpc.end_call time_is_up session k s.rpc_client in
    (checked_wait outcome s.e2e, record s { rpc_client = rpc })

-- `reassembled_messages`
unfoldable pub reassembled_messages : SomeIpClient → Result Receiver
reassembled_messages s = elim s.tp_manager [
  | none ↦ err runtime_error
  | some p ↦ ok p.reassembly_receiver
]

-- `subscription_status`
unfoldable pub subscription_status : SomeIpClient → Receiver × SomeIpClient
unfolding Events.subscription_status
subscription_status s =
    let (r, subscriber) = Events.subscription_status s.event_subscriber in
    (r, record s { event_subscriber = subscriber })

-- ===== src/Tests/Services.antt =====
-- Service discovery, events and the server at concrete inputs.
use opensomeip_python.Prelude.{
  ◌⊎◌, ℕ, ◌≡◌, refl, true, false, none, some, List, [], ◌∷◌, ◌++◌, arith, if◌then◌else◌,
}
use opensomeip_python.Prelude.Dict.{lookup}
use opensomeip_python.Exceptions.{Exn, callback_error, ok, err, library, configuration_error}
use opensomeip_python.Receiver
use opensomeip_python.Receiver.{close}
use opensomeip_python.Native.Calls.{publish_event}
use opensomeip_python.Transport
use opensomeip_python.Sd.{same, ServiceInstance, SdServer, SdClient, contains, find, stop_client}
use opensomeip_python.Sd.Offers
use opensomeip_python.Sd.Offers.{offers, stops, withdraws, starts, on_offer, perform_all-offered}
use opensomeip_python.Sd.Find.{earlier_find_stays_open}
use opensomeip_python.Events.{EventPublisher, EventSubscriber, notify}
use opensomeip_python.Events.Laws
use opensomeip_python.Events.Laws.{
  registers, registered, notify-perform_all, subscribe_without_extension,
}
use opensomeip_python.Server
use opensomeip_python.Server.{SomeIpServer, ServerConfig, mode_udp, protect_if}
use opensomeip_python.Server.Lifecycle.{IsUp, start-IsUp}
use opensomeip_python.Server.Shutdown
use opensomeip_python.Server.Shutdown.{TpUnbounded, with_server-IsDown}
use opensomeip_python.Server.Closing.{AllUnbounded, Closes}
use opensomeip_python.Native.Calls.{Call}
use opensomeip_python.Native.Run.{Exec, raise}
use opensomeip_python.Rpc.Server.{start_server}
use opensomeip_python.Events.{start_publisher}
use opensomeip_python.Tests.Fixtures.{
  here, obliging, failing, service, other_service, sd_config, stopped_transport, lost_transport,
  manager,
}

abbrev sd_server : SdServer
sd_server = record { config = sd_config; running = false; offered = []; cpp = true }

perform_all-offered_example :
    let os = starts ∷ offers service ∷ offers other_service ∷ withdraws service ∷ [] in
    ((Offers.perform_all failing os sd_server []).0 ≡ ok tt)
    × (contains service (Offers.perform_all failing os sd_server []).1.offered
        ≡ on_offer service (contains service []) os)
perform_all-offered_example =
    perform_all-offered failing
      (starts ∷ offers service ∷ offers other_service ∷ withdraws service ∷ []) service sd_server []

withdrawn : on_offer service false (offers service ∷ withdraws service ∷ []) ≡ false
unfolding on_offer same
withdrawn = refl

abbrev sd_client : SdClient
sd_client = record {
  config = sd_config;
  running = true;
  find_receiver = some 0;
  cpp = true;
  receivers = (0, Receiver.new 0) ∷ [];
  next_receiver = 1;
}

abbrev text : ServiceInstance → List ℕ
text s = s.service_id ∷ []

earlier_find_stays_open_example :
    let first = find obliging service sd_client [] in
    let second = find obliging other_service first.1 first.2 in
    let stopped = stop_client obliging second.1 second.2 in
    (stopped.0 ≡ ok tt)
    × (lookup 1 stopped.1.receivers ≡ some (Receiver.new 0))
    × (lookup 2 stopped.1.receivers ≡ some (close (Receiver.new 0)).1)
earlier_find_stays_open_example =
    earlier_find_stays_open obliging service other_service sd_client []

abbrev publisher : EventPublisher
publisher = record { running = true; registered_events = []; cpp = true }

notify-perform_all_example :
    let t = Laws.perform_all failing (registers 0x8001 1 ∷ []) publisher [] in
    notify failing 0x8001 (1 ∷ []) t.0 t.1 ≡ (
      if registered 0x8001 false (registers 0x8001 1 ∷ [])
      then (
        failing t.1 (publish_event 0x8001 (1 ∷ [])),
        t.0,
        t.1 ++ publish_event 0x8001 (1 ∷ []) ∷ [],
      )
      else (err (library configuration_error), t.0, t.1))
notify-perform_all_example =
    notify-perform_all failing (registers 0x8001 1 ∷ []) 0x8001 (1 ∷ []) publisher [] refl refl

abbrev subscriber : EventSubscriber
subscriber = record {
  running = true;
  notification_receiver = Receiver.new 0;
  status_receiver = none;
  subscribed_groups = [];
  cpp = false;
}

abbrev server_config : ServerConfig
server_config = record {
  local_endpoint = here;
  sd_config = sd_config;
  services = service ∷ [];
  transport_mode = mode_udp;
  multicast_group = none;
  enable_tp = true;
  tp_mtu = 2;
  e2e_config = none;
  e2e_profile = none;
}

abbrev server : SomeIpServer
server = record {
  config = server_config;
  transport = stopped_transport;
  sd_server = sd_server;
  rpc_server = record {
    running = false;
    handlers = [];
    async_handlers = [];
    request_receivers = [];
    cpp = true;
    receivers = [];
    next_receiver = 0;
  };
  event_publisher = publisher;
  tp_manager = some (manager 2);
  e2e = none;
  running = false;
}

start-IsUp_example :
    let t = Transport.start obliging stopped_transport [] in
    ((t.0 ≡ ok tt)
      × ((Server.start obliging server []).0 ≡ ok tt)
      × IsUp (Server.start obliging server []).1)
    ⊎ ((x : Exn) × (t.0 ≡ err x)
        × (Server.start obliging server [] ≡ (err x, record server { transport = t.1 }, t.2)))
start-IsUp_example = start-IsUp obliging server []

abbrev lost_server : SomeIpServer
lost_server = record server { transport = lost_transport }

-- A started server whose block raises.
abbrev raising : Exec SomeIpServer (Unit {0})
raising = raise callback_error

server_starts : (Server.start obliging server []).0 ≡ ok tt
unfolding Server.start start_server start_publisher
server_starts = refl

none_bounded : AllUnbounded []
unfolding lookup
none_bounded k r e = absurd (ground (arith, e))

receivers_unbounded :
    AllUnbounded (raising (Server.start obliging server []).1 []).1.rpc_server.receivers
unfolding Server.start start_server start_publisher
receivers_unbounded = none_bounded

reassembly_unbounded : TpUnbounded (raising (Server.start obliging server []).1 []).1.tp_manager
unfolding Server.start start_server start_publisher
reassembly_unbounded = refl

with_server-IsDown_example :
    let up = Server.start obliging server [] in
    let t = raising up.1 up.2 in
    let after = Server.with_server obliging raising server [] in
    (l' : List Call) × Shutdown.IsDown after.1
    × Closes t.1.rpc_server.request_receivers t.1.rpc_server.receivers after.1.rpc_server.receivers
    × (after.1.transport ≡ (Transport.stop obliging t.1.transport l').1)
    × (((after.0 ≡ t.0) × ((Transport.stop obliging t.1.transport l').0 ≡ ok tt))
        ⊎ ((x : Exn) × ((Transport.stop obliging t.1.transport l').0 ≡ err x) × (after.0 ≡ err x)))
with_server-IsDown_example =
    with_server-IsDown obliging raising server [] server_starts receivers_unbounded
      reassembly_unbounded

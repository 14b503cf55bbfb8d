-- ===== src/Sd.antt =====
-- src/opensomeip/sd.py, with the conversions of src/opensomeip/_bridge.py: `ServiceInstance`,
-- `SdConfig`, `SdServer` and `SdClient`. A set of services is a list without repetition.
pub mod Config
pub mod Offers
pub mod Find
use opensomeip_python.Prelude.{
  ℕ, suc, ◌+◌, ◌==◌, Bool, true, false, not, ◌&&◌, Option, none, some, List, [], ◌∷◌, ◌++◌,
  if◌then◌else◌,
}
use opensomeip_python.Prelude.Dict.{Dict, lookup, insert}
use opensomeip_python.Exceptions.{Result, ok, err}
use opensomeip_python.Endpoint.{Endpoint}
use opensomeip_python.Message.{Message, default_message}
use opensomeip_python.Receiver
use opensomeip_python.Receiver.{Receiver, put, close}
use opensomeip_python.Native.Calls.{
  CppService, Call, Native, sd_server_initialize, sd_server_shutdown, sd_client_initialize,
  sd_client_shutdown, sd_offer_service, sd_stop_offer_service, sd_find_service,
  sd_subscribe_eventgroup, sd_unsubscribe_eventgroup,
}
use opensomeip_python.Native.Run.{
  Exec, next, ◌>>=◌, ◌>>◌, pure, get, modify, local, zoom, attempt, when, invoke, within,
}

pub record ServiceInstance : Type 0 where
  pub service_id : ℕ
  pub instance_id : ℕ
  pub major_version : ℕ
  pub minor_version : ℕ

-- `==` of the dataclass.
unfoldable pub same : ServiceInstance → ServiceInstance → Bool
same a b =
    (a.service_id == b.service_id)
    && (a.instance_id == b.instance_id)
    && (a.major_version == b.major_version)
    && (a.minor_version == b.minor_version)

pub record SdConfig : Type 0 where
  pub multicast_endpoint : Endpoint
  pub unicast_endpoint : Endpoint
  pub initial_delay_min_ms : ℕ
  pub initial_delay_max_ms : ℕ
  pub repetitions_base_delay_ms : ℕ
  pub repetitions_max : ℕ
  pub cyclic_offer_delay_ms : ℕ
  pub ttl : ℕ

-- `SdConfig(multicast, unicast)`
unfoldable pub default_config : Endpoint → Endpoint → SdConfig
default_config multicast unicast = record {
  multicast_endpoint = multicast;
  unicast_endpoint = unicast;
  initial_delay_min_ms = 10;
  initial_delay_max_ms = 50;
  repetitions_base_delay_ms = 30;
  repetitions_max = 3;
  cyclic_offer_delay_ms = 1000;
  ttl = 3;
}

-- `to_cpp_service_instance`
unfoldable pub to_cpp_service_instance : ServiceInstance → CppService
to_cpp_service_instance s = record {
  service_id = s.service_id;
  instance_id = s.instance_id;
  major_version = s.major_version;
  minor_version = s.minor_version;
}

-- `from_cpp_service_instance`
unfoldable pub from_cpp_service_instance : CppService → ServiceInstance
from_cpp_service_instance c = record {
  service_id = c.service_id;
  instance_id = c.instance_id;
  major_version = c.major_version;
  minor_version = c.minor_version;
}

-- `service in self._offered`
unfoldable pub contains : ServiceInstance → List ServiceInstance → Bool
unfolding same
contains x [] = false
contains x (y ∷ ys) = if same x y then true else contains x ys

-- `self._offered.add(service)`
unfoldable pub add : ServiceInstance → List ServiceInstance → List ServiceInstance
add x ys = if contains x ys then ys else ys ++ x ∷ []

-- `self._offered.discard(service)`
unfoldable pub discard : ServiceInstance → List ServiceInstance → List ServiceInstance
unfolding same
discard x [] = []
discard x (y ∷ ys) = let rest = discard x ys in if same x y then rest else y ∷ rest

pub record SdServer : Type 0 where
  pub config : SdConfig
  pub running : Bool
  pub offered : List ServiceInstance
  pub cpp : Bool

-- `SdServer(config)`
unfoldable pub new_server : Bool → SdConfig → SdServer
new_server ext config = record { config = config; running = false; offered = []; cpp = ext }

module _ (native : Native) where
  unfoldable pub start : Exec SdServer (Unit {0})
  start = do
    s ← get
    when s.cpp (attempt (invoke native sd_server_initialize))
    modify (λ t. record t { running = true })

  unfoldable pub stop : Exec SdServer (Unit {0})
  stop = do
    s ← get
    when s.cpp (attempt (invoke native sd_server_shutdown))
    modify (λ t. record t { offered = []; running = false })

  -- `with` and `async with` on the object.
  unfoldable pub with_server : {A : Type 0} → Exec SdServer A → Exec SdServer A
  unfolding start stop
  with_server = within start stop

  unfoldable pub offer : ServiceInstance → Exec SdServer (Unit {0})
  unfolding to_cpp_service_instance add
  offer service = do
    s ← get
    when s.cpp (
        attempt (
          invoke native
            (sd_offer_service (to_cpp_service_instance service) s.config.unicast_endpoint)))
    modify (λ t. record t { offered = add service t.offered })

  unfoldable pub stop_offer : ServiceInstance → Exec SdServer (Unit {0})
  unfolding discard
  stop_offer service = do
    s ← get
    when s.cpp
        (attempt (invoke native (sd_stop_offer_service service.service_id service.instance_id)))
    modify (λ t. record t { offered = discard service t.offered })

-- The receivers that `find` made stay in use after `_find_receiver` is replaced: `receivers` has
-- each of them under a number, and `find_receiver` is the number of the last.
pub record SdClient : Type 0 where
  pub config : SdConfig
  pub running : Bool
  pub find_receiver : Option ℕ
  pub cpp : Bool
  pub receivers : Dict Receiver
  pub next_receiver : ℕ

-- `SdClient(config)`
unfoldable pub new_client : Bool → SdConfig → SdClient
new_client ext config = record {
  config = config;
  running = false;
  find_receiver = none;
  cpp = ext;
  receivers = [];
  next_receiver = 0;
}

-- A method of the receiver with this number.
unfoldable pub on_receiver :
    ℕ → (Receiver → Result (Unit {0}) × Receiver) → SdClient → Result (Unit {0}) × SdClient
unfolding lookup insert
on_receiver k f c = elim (lookup k c.receivers) [
  | none ↦ (ok tt, c)
  | some r ↦ ((f r).0, record c { receivers = insert k (f r).1 c.receivers })
]

unfoldable pub close_last : Option ℕ → Exec SdClient (Unit {0})
unfolding on_receiver close
close_last none = pure tt
close_last (some k) = local (on_receiver k close)

module _ (native : Native) where
  unfoldable pub start_client : Exec SdClient (Unit {0})
  start_client = do
    c ← get
    when c.cpp (attempt (invoke native sd_client_initialize))
    modify (λ d. record d { running = true })

  unfoldable pub stop_client : Exec SdClient (Unit {0})
  unfolding close_last
  stop_client = do
    c ← get
    when c.cpp (attempt (invoke native sd_client_shutdown))
    modify (λ d. record d { running = false })
    close_last c.find_receiver

  -- `with` and `async with` on the object.
  unfoldable pub with_client : {A : Type 0} → Exec SdClient A → Exec SdClient A
  unfolding start_client stop_client
  with_client = within start_client stop_client

  -- `find` returns the receiver that it made, here its number.
  unfoldable pub find : ServiceInstance → Exec SdClient ℕ
  unfolding insert
  find service = do
    c ← get
    modify (λ d. record d {
      find_receiver = some d.next_receiver;
      receivers = insert d.next_receiver (Receiver.new 0) d.receivers;
      next_receiver = suc d.next_receiver;
    })
    when c.cpp (attempt (invoke native (sd_find_service service.service_id)))
    pure c.next_receiver

  unfoldable pub subscribe : ServiceInstance → ℕ → Exec SdClient (Unit {0})
  subscribe service eventgroup_id = do
    c ← get
    when c.cpp (
        invoke native
          (sd_subscribe_eventgroup service.service_id service.instance_id eventgroup_id))

  unfoldable pub unsubscribe : ServiceInstance → ℕ → Exec SdClient (Unit {0})
  unsubscribe service eventgroup_id = do
    c ← get
    when c.cpp (
        invoke native
          (sd_unsubscribe_eventgroup service.service_id service.instance_id eventgroup_id))

-- `_on_found`, the callback of the `find` whose receiver has this number. The text of a service
-- and the application's callback are the arguments.
unfoldable pub on_found :
    (ServiceInstance → List ℕ)
    → (ServiceInstance → Result (Unit {0}))
    → ℕ
    → List CppService
    → SdClient
    → Result (Unit {0}) × SdClient
unfolding on_receiver put from_cpp_service_instance
on_found text callback k [] c = (ok tt, c)
on_found text callback k (cpp_svc ∷ found) c =
    let service = from_cpp_service_instance cpp_svc in
    let t = on_receiver k (put (record default_message { payload = text service })) c in
    let rest = on_found text callback k found t.1 in
    elim t.0 [ err e ↦ t | ok u ↦ elim (callback service) [ err e ↦ (err e, t.1) | ok v ↦ rest ] ]

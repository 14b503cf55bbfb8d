-- ===== src/Examples/Greeting.antt =====
-- examples/basic/hello_world and examples/basic/sd_demo. The bytes of the reply's text are a
-- parameter, a function of the request's payload; so are the addresses that the environment gives.
pub mod Replies
use opensomeip_python.Prelude.{
  ℕ, Bool, true, false, ◌&&◌, Option, none, some, List, [], ◌∷◌, ◌==◌, if◌then◌else◌,
}
use opensomeip_python.Exceptions.{Result, ok, err, attribute_error}
use opensomeip_python.Endpoint.{Endpoint}
use opensomeip_python.Types.Enums.{request, response, e_ok, type_code}
use opensomeip_python.Types.MessageId.{MessageId}
use opensomeip_python.Message.{Message, make_message}
use opensomeip_python.Receiver.{Item, message, sentinel}
use opensomeip_python.Transport
use opensomeip_python.Transport.{Transport, new_udp, send}
use opensomeip_python.Sd
use opensomeip_python.Sd.{SdServer, SdConfig, ServiceInstance, default_config}
use opensomeip_python.Native.Calls.{Call, Native}
use opensomeip_python.Native.Run.{Exec, next, ◌>>=◌, ◌>>◌, pure, zoom}
use opensomeip_python.Examples.Requesting.{arrive}
use opensomeip_python.Examples.Calculator.{any_address}

abbrev pub hello_id : MessageId
hello_id = record { service_id = 0x1000; method_id = 1 }

-- The test of both servers' loops.
abbrev pub is_hello : Message → Bool
is_hello m =
    m.message_id.service_id == 0x1000
    && (m.message_id.method_id == 1 && type_code m.message_type == type_code request)

unfoldable pub new_server : Bool → Endpoint → Transport
unfolding new_udp
new_server ext here = new_udp ext here none none

module _ (native : Native) (greeting : List ℕ → List ℕ) where
  -- The body of the loop.
  unfoldable pub greet : Message → Exec Transport (Unit {0})
  unfolding send make_message
  greet m t l =
      if is_hello m
      then send native (make_message hello_id m.request_id response e_ok (greeting m.payload))
          m.source_endpoint t l
      else (ok tt, t, l)

  unfoldable pub greet_all : List Message → Exec Transport (Unit {0})
  unfolding greet
  greet_all [] = pure tt
  greet_all (m ∷ ms) = greet m >> greet_all ms

  -- `main` of the hello_world server, over the requests that its receiver yields.
  unfoldable pub hello_main : List Message → Exec Transport (Unit {0})
  unfolding greet_all Transport.start
  hello_main requests = Transport.start native >> greet_all requests

pub record SdDemo : Type 0 where
  pub transport : Transport
  pub sd : SdServer

abbrev pub demo_service : ServiceInstance
demo_service = record { service_id = 0x1000; instance_id = 1; major_version = 1; minor_version = 0 }

-- `SdConfig(multicast_endpoint=…, unicast_endpoint=…, cyclic_offer_delay_ms=5000, ttl=60)`
unfoldable pub demo_config : Endpoint → Endpoint → SdConfig
unfolding default_config
demo_config multicast host = record (default_config multicast host) {
  cyclic_offer_delay_ms = 5000;
  ttl = 60;
}

unfoldable pub new_demo : Bool → Endpoint → Endpoint → SdDemo
unfolding new_udp demo_config Sd.new_server
new_demo ext multicast host = record {
  transport = new_udp ext (any_address 30500) none none;
  sd = Sd.new_server ext (demo_config multicast host);
}

abbrev pub on_transport : {A : Type 0} → Exec Transport A → Exec SdDemo A
on_transport = zoom (λ s. s.transport) (λ s t. record s { transport = t })

abbrev pub on_sd : {A : Type 0} → Exec SdServer A → Exec SdDemo A
on_sd = zoom (λ s. s.sd) (λ s t. record s { sd = t })

module _ (native : Native) (greeting : List ℕ → List ℕ) where
  -- `main` of the sd_demo server, over the requests that its receiver yields.
  unfoldable pub demo_main : List Message → Exec SdDemo (Unit {0})
  unfolding greet_all Transport.start Sd.start Sd.offer
  demo_main requests = do
    on_transport (Transport.start native)
    on_sd (Sd.start native)
    on_sd (Sd.offer native demo_service)
    on_transport (greet_all native greeting requests)

  -- `shutdown` of the sd_demo server.
  unfoldable pub shutdown : Exec SdDemo (Unit {0})
  unfolding Sd.stop_offer Sd.stop Transport.stop
  shutdown = do
    on_sd (Sd.stop_offer native demo_service)
    on_sd (Sd.stop native)
    on_transport (Transport.stop native)

-- What the hello_world client prints: the answer's payload, a message that it did not expect, or a
-- timeout.
pub data Printed : Type 0 where
  responded : List ℕ → Printed
  unexpected : Message → Printed
  timed_out : Printed

abbrev pub is_hello_response : Message → Bool
is_hello_response m =
    m.message_id.service_id == 0x1000
    && (m.message_id.method_id == 1 && type_code m.message_type == type_code response)

-- `transport.receiver._sync_queue.get(timeout=5.0)` with these messages arriving in time, and what
-- is printed then.
unfoldable pub print_next : List Message → Exec Transport Printed
unfolding arrive
print_next arriving t l =
    let r = arrive arriving t.receiver in
    elim r.sync_queue [
      | [] ↦ (ok timed_out, record t { receiver = r }, l)
      | message m ∷ rest ↦ (
        ok (if is_hello_response m then responded m.payload else unexpected m),
        record t { receiver = record r { sync_queue = rest } },
        l,
      )
      | sentinel ∷ rest ↦
          (err attribute_error, record t { receiver = record r { sync_queue = rest } }, l)
    ]

-- `b"Hello from Python Client!"`
abbrev pub hello_bytes : List ℕ
hello_bytes =
    72 ∷ 101 ∷ 108 ∷ 108 ∷ 111 ∷ 32 ∷ 102 ∷ 114 ∷ 111 ∷ 109 ∷ 32 ∷ 80 ∷ 121 ∷ 116 ∷ 104 ∷ 111 ∷ 110
    ∷ 32 ∷ 67 ∷ 108 ∷ 105 ∷ 101 ∷ 110 ∷ 116 ∷ 33 ∷ []

unfoldable pub hello_request : Message
unfolding make_message
hello_request =
    make_message hello_id (record { client_id = 0x1234; session_id = 0x5678 }) request e_ok
      hello_bytes

unfoldable pub new_hello_client : Bool → Endpoint → Transport
unfolding new_udp
new_hello_client ext server = new_udp ext (any_address 0) (some server) none

-- `main` of the hello_world client.
unfoldable pub hello_client_main : Native → Endpoint → List Message → Exec Transport Printed
unfolding hello_request print_next send Transport.start Transport.stop
hello_client_main native server arriving = do
  Transport.start native
  send native hello_request (some server)
  printed ← print_next arriving
  Transport.stop native
  pure printed

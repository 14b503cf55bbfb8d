-- ===== src/Examples/Sensors.antt =====
-- examples/basic/events: the publisher and the subscriber. Times are milliseconds, and the random
-- values are given with them. What the subscriber prints is returned.
pub mod Rates
use opensomeip_python.Prelude.{
  ℕ, ◌+◌, Bool, true, false, Option, none, some, List, [], ◌∷◌, ◌++◌, length, take, leb, ltb, ◌==◌,
  if◌then◌else◌,
}
use opensomeip_python.Exceptions.{Result, ok, err}
use opensomeip_python.Message.{Message}
use opensomeip_python.Serialization.Native.{Floats}
use opensomeip_python.Transport
use opensomeip_python.Transport.{Transport, new_udp}
use opensomeip_python.Events
use opensomeip_python.Events.{
  EventPublisher, EventSubscriber, new_publisher, new_subscriber, register_event, notify,
  start_publisher, stop_publisher, start_subscriber, stop_subscriber, subscribe,
}
use opensomeip_python.Native.Calls.{Call, Native}
use opensomeip_python.Native.Run.{Exec, next, ◌>>=◌, ◌>>◌, pure, lift, zoom, get}
use opensomeip_python.Examples.Calculator.{any_address}

abbrev pub temperature_event : ℕ
temperature_event = 0x8001

abbrev pub speed_event : ℕ
speed_event = 0x8002

abbrev pub sensor_eventgroup : ℕ
sensor_eventgroup = 1

pub record Publisher : Type 0 where
  pub transport : Transport
  pub publisher : EventPublisher

-- `last_temp` and `last_speed`
pub record Clock : Type 0 where
  pub last_temp : ℕ
  pub last_speed : ℕ

unfoldable pub new_program : Bool → ℕ → Publisher
unfolding new_udp new_publisher
new_program ext port = record {
  transport = new_udp ext (any_address port) none none;
  publisher = new_publisher ext;
}

abbrev pub on_transport : {A : Type 0} → Exec Transport A → Exec Publisher A
on_transport = zoom (λ s. s.transport) (λ s t. record s { transport = t })

abbrev pub on_publisher : {A : Type 0} → Exec EventPublisher A → Exec Publisher A
on_publisher = zoom (λ s. s.publisher) (λ s p. record s { publisher = p })

module _ (F : Floats) where
  -- A round of the loop: the time, and the values that are drawn if they are due.
  pub record Tick : Type 0 where
    pub now : ℕ
    pub temperature : F.Float
    pub speed : F.Float

  unfoldable pub float_to_be_bytes : F.Float → Result (List ℕ)
  float_to_be_bytes value = F.pack32 value

  -- One of the two `if` statements: whether the event is due, and its notification. It returns the
  -- time of the last one.
  unfoldable pub publish_due : Native → ℕ → ℕ → ℕ → ℕ → F.Float → Exec EventPublisher ℕ
  unfolding float_to_be_bytes notify
  publish_due native event_id period now last value p l =
      if leb (last + period) now
      then (do bytes ← lift (float_to_be_bytes value); notify native event_id bytes; pure now) p l
      else (ok last, p, l)

  -- The `while` loop, over the rounds before `stop_event` is set.
  unfoldable pub publish_loop : Native → List Tick → Clock → Exec EventPublisher Clock
  unfolding publish_due
  publish_loop native [] c = pure c
  publish_loop native (t ∷ ts) c = do
    temp ← publish_due native temperature_event 2000 t.now c.last_temp t.temperature
    speed ← publish_due native speed_event 1500 t.now c.last_speed t.speed
    publish_loop native ts (record { last_temp = temp; last_speed = speed })

  -- `main` of the publisher, with the times at which it begins.
  unfoldable pub publisher_main : Native → Clock → List Tick → Exec Publisher (Unit {0})
  unfolding publish_loop register_event Transport.start Transport.stop start_publisher
      stop_publisher
  publisher_main native c0 ts = do
    on_publisher (register_event native temperature_event sensor_eventgroup)
    on_publisher (register_event native speed_event sensor_eventgroup)
    on_transport (Transport.start native)
    on_publisher (start_publisher native)
    c ← on_publisher (publish_loop native ts c0)
    on_publisher (stop_publisher native)
    on_transport (Transport.stop native)

  unfoldable pub be_bytes_to_float : List ℕ → F.Float
  unfolding take
  be_bytes_to_float bytes = F.unpack32 (take 4 bytes)

  -- What the subscriber prints for a notification.
  pub data Printed : Type 0 where
    invalid_size : ℕ → ℕ → Printed
    temperature_is speed_is : F.Float → Printed
    unknown_event : ℕ → List ℕ → Printed

  -- The body of the subscriber's loop.
  unfoldable pub print_event : Message → Printed
  unfolding be_bytes_to_float
  print_event m =
      let event_id = m.message_id.method_id in
      if ltb (length m.payload) 4
      then invalid_size event_id (length m.payload)
      else if event_id == temperature_event
      then temperature_is (be_bytes_to_float m.payload)
      else if event_id == speed_event
      then speed_is (be_bytes_to_float m.payload)
      else unknown_event event_id m.payload

  unfoldable pub print_all : List Message → List Printed
  unfolding print_event
  print_all [] = []
  print_all (m ∷ ms) = print_event m ∷ print_all ms

pub record Subscriber : Type 0 where
  pub transport : Transport
  pub subscriber : EventSubscriber

unfoldable pub new_subscriber_program : Bool → ℕ → Subscriber
unfolding new_udp new_subscriber
new_subscriber_program ext port = record {
  transport = new_udp ext (any_address port) none none;
  subscriber = new_subscriber ext;
}

abbrev pub with_transport : {A : Type 0} → Exec Transport A → Exec Subscriber A
with_transport = zoom (λ s. s.transport) (λ s t. record s { transport = t })

abbrev pub with_subscriber : {A : Type 0} → Exec EventSubscriber A → Exec Subscriber A
with_subscriber = zoom (λ s. s.subscriber) (λ s p. record s { subscriber = p })

-- `main` of the subscriber, over the notifications that its receiver yields.
unfoldable pub subscriber_main :
    (F : Floats) → Native → List Message → Exec Subscriber (List (Printed F))
unfolding print_all Transport.start start_subscriber subscribe
subscriber_main F native notifications = do
  with_subscriber (subscribe native sensor_eventgroup 0xffff 0xffff)
  with_transport (Transport.start native)
  with_subscriber (start_subscriber native)
  pure (print_all F notifications)

-- ===== src/Events.antt =====
-- src/opensomeip/events.py: `EventPublisher` and `EventSubscriber`.
pub mod Laws
use opensomeip_python.Prelude.{
  ℕ, ◌==◌, Bool, true, false, Option, none, some, List, [], ◌∷◌, ◌++◌, if◌then◌else◌, is_some,
}
use opensomeip_python.Prelude.Int.{pos}
use opensomeip_python.Prelude.Dict.{Dict, lookup, insert, erase}
use opensomeip_python.Exceptions.{
  Result, ok, err, map_result, library, configuration_error, runtime_error,
}
use opensomeip_python.Types.MessageId
use opensomeip_python.Message.{Message, default_message}
use opensomeip_python.Receiver
use opensomeip_python.Receiver.{Receiver, put, close}
use opensomeip_python.Native.Calls.{
  Call, Native, publisher_initialize, publisher_shutdown, subscriber_initialize,
  subscriber_shutdown, publish_event, publish_field, subscribe_eventgroup, unsubscribe_eventgroup,
}
use opensomeip_python.Native.Calls
use opensomeip_python.Native.Run.{
  Exec, next, ◌>>=◌, ◌>>◌, pure, raise, lift, get, modify, local, zoom, attempt, when, invoke,
  within,
}

pub record EventPublisher : Type 0 where
  pub running : Bool
  pub registered_events : Dict ℕ
  pub cpp : Bool

-- `EventPublisher(transport)`
unfoldable pub new_publisher : Bool → EventPublisher
new_publisher ext = record { running = false; registered_events = []; cpp = ext }

module _ (native : Native) where
  unfoldable pub start_publisher : Exec EventPublisher (Unit {0})
  start_publisher = do
    p ← get
    when p.cpp (attempt (invoke native publisher_initialize))
    modify (λ q. record q { running = true })

  unfoldable pub stop_publisher : Exec EventPublisher (Unit {0})
  stop_publisher = do
    p ← get
    when p.cpp (attempt (invoke native publisher_shutdown))
    modify (λ q. record q { running = false; registered_events = [] })

  -- `with` and `async with` on the object.
  unfoldable pub with_publisher : {A : Type 0} → Exec EventPublisher A → Exec EventPublisher A
  unfolding start_publisher stop_publisher
  with_publisher = within start_publisher stop_publisher

  unfoldable pub register_event : ℕ → ℕ → Exec EventPublisher (Unit {0})
  unfolding insert
  register_event event_id eventgroup_id = do
    p ← get
    modify (λ q. record q { registered_events = insert event_id eventgroup_id q.registered_events })
    when p.cpp (invoke native (Calls.register_event event_id eventgroup_id))

  unfoldable pub notify : ℕ → List ℕ → Exec EventPublisher (Unit {0})
  unfolding lookup
  notify event_id payload p l =
      if is_some (lookup event_id p.registered_events)
      then (if p.cpp
          then invoke native (publish_event event_id payload) p l
          else (err runtime_error, p, l))
      else (err (library configuration_error), p, l)

  unfoldable pub set_field : ℕ → List ℕ → Exec EventPublisher (Unit {0})
  set_field event_id payload p l =
      if p.cpp
      then invoke native (publish_field event_id payload) p l
      else (err runtime_error, p, l)

-- `subscribed_groups` is a set: a dictionary without values. `_status_receiver` is made on demand.
pub record EventSubscriber : Type 0 where
  pub running : Bool
  pub notification_receiver : Receiver
  pub status_receiver : Option Receiver
  pub subscribed_groups : Dict (Unit {0})
  pub cpp : Bool

-- `EventSubscriber(transport)`
unfoldable pub new_subscriber : Bool → EventSubscriber
new_subscriber ext = record {
  running = false;
  notification_receiver = Receiver.new 0;
  status_receiver = none;
  subscribed_groups = [];
  cpp = ext;
}

abbrev pub close_status : Option Receiver → Exec EventSubscriber (Unit {0})
close_status none s l = (ok tt, s, l)
close_status (some r) s l = ((close r).0, record s { status_receiver = some (close r).1 }, l)

module _ (native : Native) where
  unfoldable pub start_subscriber : Exec EventSubscriber (Unit {0})
  start_subscriber = do
    s ← get
    when s.cpp (attempt (invoke native subscriber_initialize))
    modify (λ t. record t { running = true })

  unfoldable pub stop_subscriber : Exec EventSubscriber (Unit {0})
  unfolding close
  stop_subscriber = do
    s ← get
    when s.cpp (attempt (invoke native subscriber_shutdown))
    modify (λ t. record t { running = false })
    zoom (λ t. t.notification_receiver) (λ t r. record t { notification_receiver = r })
        (local close)
    close_status s.status_receiver
    modify (λ t. record t { subscribed_groups = [] })

  -- `with` and `async with` on the object.
  unfoldable pub with_subscriber : {A : Type 0} → Exec EventSubscriber A → Exec EventSubscriber A
  unfolding start_subscriber stop_subscriber
  with_subscriber = within start_subscriber stop_subscriber

  -- `subscribe(eventgroup_id, service_id=…, instance_id=…)`
  unfoldable pub subscribe : ℕ → ℕ → ℕ → Exec EventSubscriber (Unit {0})
  unfolding insert
  subscribe eventgroup_id service_id instance_id = do
    s ← get
    modify (λ t. record t { subscribed_groups = insert eventgroup_id tt t.subscribed_groups })
    if s.cpp
        then invoke native (subscribe_eventgroup service_id instance_id eventgroup_id)
        else raise runtime_error

  unfoldable pub unsubscribe : ℕ → ℕ → ℕ → Exec EventSubscriber (Unit {0})
  unfolding erase
  unsubscribe eventgroup_id service_id instance_id = do
    s ← get
    modify (λ t. record t { subscribed_groups = erase eventgroup_id t.subscribed_groups })
    when s.cpp (invoke native (unsubscribe_eventgroup service_id instance_id eventgroup_id))

-- The message that a notification is put as.
unfoldable pub notification : ℕ → ℕ → List ℕ → Result Message
notification service_id event_id payload =
    map_result (λ mid. record default_message { message_id = mid; payload = payload })
      (MessageId.new (pos service_id) (pos event_id))

abbrev pub queued : Result Message → EventSubscriber → Result (Unit {0}) × EventSubscriber
queued (err e) s = (err e, s)
queued (ok m) s =
    let (r, receiver) = put m s.notification_receiver in
    (r, record s { notification_receiver = receiver })

-- `_on_notification`
unfoldable pub on_notification :
    ℕ → ℕ → List ℕ → EventSubscriber → Result (Unit {0}) × EventSubscriber
unfolding notification put
on_notification service_id event_id payload s = queued (notification service_id event_id payload) s

-- `subscription_status`
unfoldable pub subscription_status : EventSubscriber → Receiver × EventSubscriber
subscription_status s = elim s.status_receiver [
  | some r ↦ (r, s)
  | none ↦ (Receiver.new 0, record s { status_receiver = some (Receiver.new 0) })
]

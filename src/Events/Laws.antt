-- ===== src/Events/Laws.antt =====
-- Which events a publisher publishes, and which notifications a subscriber queues.
use opensomeip_python.Prelude.{
  ℕ, ◌≡◌, refl, sym, ap, ◌∙◌, Bool, true, false, none, some, is_some, List, [], ◌∷◌, ◌++◌,
  if◌then◌else◌, ◌==◌, arith,
}
use opensomeip_python.Prelude.Dict.{lookup, insert, lookup-insert, lookup-erase}
use opensomeip_python.Exceptions.{err, library, configuration_error, runtime_error}
use opensomeip_python.Receiver.{Receiver, put}
use opensomeip_python.Receiver.Queue.{close_lem}
use opensomeip_python.Native.Calls.{Call, Native, publish_event}
use opensomeip_python.Native.Run.{Exec}
use opensomeip_python.Events.{
  EventPublisher, start_publisher, stop_publisher, register_event, notify, set_field,
  EventSubscriber, start_subscriber, stop_subscriber, subscribe, unsubscribe, on_notification,
}

pub data Operation : Type 0 where
  starts stops : Operation
  registers : ℕ → ℕ → Operation
  notifies sets_field : ℕ → List ℕ → Operation

unfoldable pub perform : Native → Operation → Exec EventPublisher (Unit {0})
perform native starts = start_publisher native
perform native stops = stop_publisher native
perform native (registers e g) = register_event native e g
perform native (notifies e payload) = notify native e payload
perform native (sets_field e payload) = set_field native e payload

-- The operations one after the other, where the application passes over exceptions.
unfoldable pub perform_all :
    Native → List Operation → EventPublisher → List Call → EventPublisher × List Call
unfolding perform
perform_all native [] p l = (p, l)
perform_all native (o ∷ os) p l = let t = perform native o p l in perform_all native os t.1 t.2

-- Whether an event is registered after the operations, by what each says of it.
unfoldable pub registered : ℕ → Bool → List Operation → Bool
registered e b [] = b
registered e b (starts ∷ os) = registered e b os
registered e b (stops ∷ os) = registered e false os
registered e b (registers d g ∷ os) = registered e (if d == e then true else b) os
registered e b (notifies d payload ∷ os) = registered e b os
registered e b (sets_field d payload ∷ os) = registered e b os

perform_lem :
    (native : Native) (o : Operation) (e : ℕ) (p : EventPublisher) (l : List Call)
    → let t = perform native o p l in
      (is_some (lookup e t.1.registered_events)
        ≡ registered e (is_some (lookup e p.registered_events)) (o ∷ []))
      × (t.1.cpp ≡ p.cpp)
unfolding perform registered start_publisher stop_publisher register_event notify set_field lookup
perform_lem native starts e p l = (ground arith, ground arith)
perform_lem native stops e p l = (ground arith, ground arith)
perform_lem native (registers d g) e p l =
    (ground (arith, lookup-insert d e g p.registered_events), ground arith)
perform_lem native (notifies d payload) e p l = (ground arith, ground arith)
perform_lem native (sets_field d payload) e p l = (ground arith, ground arith)

registered_step :
    (e : ℕ) (b : Bool) (o : Operation) (os : List Operation)
    → registered e b (o ∷ os) ≡ registered e (registered e b (o ∷ [])) os
unfolding registered
registered_step e b starts os = refl
registered_step e b stops os = refl
registered_step e b (registers d g) os = refl
registered_step e b (notifies d payload) os = refl
registered_step e b (sets_field d payload) os = refl

perform_all-registered :
    (native : Native) (os : List Operation) (e : ℕ) (p : EventPublisher) (l : List Call)
    → let t = perform_all native os p l in
      (is_some (lookup e t.0.registered_events)
        ≡ registered e (is_some (lookup e p.registered_events)) os)
      × (t.0.cpp ≡ p.cpp)
unfolding perform_all registered
perform_all-registered native [] e p l = (refl, refl)
perform_all-registered native (o ∷ os) e p l =
    let t = perform native o p l in
    let (now, cpp) = perform_lem native o e p l in
    let (later, cpp') = perform_all-registered native os e t.1 t.2 in
    (
      later
          ∙ ap (λ b. registered e b os) now
          ∙ sym (registered_step e (is_some (lookup e p.registered_events)) o os),
      cpp' ∙ cpp,
    )

notify_lem :
    (native : Native) (e : ℕ) (payload : List ℕ) (p : EventPublisher) (l : List Call) (b : Bool)
    → is_some (lookup e p.registered_events) ≡ b
    → p.cpp ≡ true
    → notify native e payload p l ≡ (
        if b
        then (native l (publish_event e payload), p, l ++ publish_event e payload ∷ [])
        else (err (library configuration_error), p, l))
unfolding notify
notify_lem native e payload p l b h cpp = ground (arith, h, cpp)

-- With the extension and from a new state on: whatever operations ran before, and whether or not they
-- raised, `notify` hands the payload to the extension exactly if the event was registered
-- since the last `stop`. Otherwise it raises `ConfigurationError` and calls nothing.
pub notify-perform_all :
    (native : Native) (os : List Operation) (e : ℕ) (payload : List ℕ) (p : EventPublisher)
    (l : List Call)
    → p.registered_events ≡ []
    → p.cpp ≡ true
    → let t = perform_all native os p l in
      notify native e payload t.0 t.1 ≡ (
        if registered e false os
        then (native t.1 (publish_event e payload), t.0, t.1 ++ publish_event e payload ∷ [])
        else (err (library configuration_error), t.0, t.1))
unfolding lookup
notify-perform_all native os e payload p l empty cpp =
    let (now, kept) = perform_all-registered native os e p l in
    let t = perform_all native os p l in
    notify_lem native e payload t.0 t.1 (registered e false os)
      (now ∙ ap (λ d. registered e (is_some (lookup e d)) os) empty) (kept ∙ cpp)

-- Without the extension `subscribe` raises `RuntimeError` and calls nothing, but the group is
-- listed as subscribed from then on, until `unsubscribe` takes it off the list.
pub subscribe_without_extension :
    (native : Native) (s : EventSubscriber) (g service instance_id : ℕ) (l : List Call)
    → s.cpp ≡ false
    → let t = subscribe native g service instance_id s l in
      (t.0 ≡ err runtime_error)
      × (t.2 ≡ l)
      × (lookup g t.1.subscribed_groups ≡ some tt)
      × (lookup g (unsubscribe native g service instance_id t.1 t.2).1.subscribed_groups ≡ none)
unfolding subscribe unsubscribe
subscribe_without_extension native s g service instance_id l h =
    let inserted = lookup-insert g g tt s.subscribed_groups in
    let erased = lookup-erase g g (insert g tt s.subscribed_groups) in
    (ground (arith, h), ground (arith, h), ground (arith, h, inserted), ground (arith, h, erased))

stop_subscriber-closed :
    (native : Native) (s : EventSubscriber) (l : List Call)
    → s.notification_receiver.maxsize ≡ 0
    → (stop_subscriber native s l).1.notification_receiver.closed ≡ true
unfolding stop_subscriber
stop_subscriber-closed native s l m = ground (arith, close_lem s.notification_receiver m)

start_subscriber-receiver :
    (native : Native) (s : EventSubscriber) (l : List Call)
    → (start_subscriber native s l).1.notification_receiver ≡ s.notification_receiver
unfolding start_subscriber
start_subscriber-receiver native s l = ground arith

on_notification-closed :
    (service event : ℕ) (payload : List ℕ) (s : EventSubscriber)
    → s.notification_receiver.closed ≡ true
    → (on_notification service event payload s).1 ≡ s
unfolding on_notification put
on_notification-closed service event payload s h = ground (arith, h)

-- A subscriber that was stopped and started again drops every notification: its receiver stays
-- closed.
pub restarted_subscriber_drops :
    (native : Native) (s : EventSubscriber) (l : List Call) (service event : ℕ) (payload : List ℕ)
    → s.notification_receiver.maxsize ≡ 0
    → let stopped = stop_subscriber native s l in
      let again = start_subscriber native stopped.1 stopped.2 in
      (on_notification service event payload again.1).1 ≡ again.1
restarted_subscriber_drops native s l service event payload m =
    let stopped = stop_subscriber native s l in
    let again = start_subscriber native stopped.1 stopped.2 in
    on_notification-closed service event payload again.1 (
      ap (λ (r : Receiver). r.closed) (start_subscriber-receiver native stopped.1 stopped.2)
      ∙ stop_subscriber-closed native s l m)

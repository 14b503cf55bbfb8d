-- ===== src/Server/Shutdown.antt =====
-- How a server stops, and what a `with` block on it leaves behind.
use opensomeip_python.Prelude.{
  ◌⊎◌, ◌≡◌, refl, false, Option, none, some, List, [], ◌∷◌, arith, Option-cases, inl, inr, sym, ◌∙◌,
  true,
}
use opensomeip_python.Exceptions.{Exn, ok, err}
use opensomeip_python.Receiver.{close}
use opensomeip_python.Receiver.Bounded.{close_unbounded, close-closed}
use opensomeip_python.Native.Calls.{Call, Native}
use opensomeip_python.Native.Run.{Exec}
use opensomeip_python.Native.Within.{within_entered}
use opensomeip_python.Transport
use opensomeip_python.Transport.{Transport}
use opensomeip_python.Sd
use opensomeip_python.Sd.{SdServer, ServiceInstance}
use opensomeip_python.Events
use opensomeip_python.Events.{EventPublisher}
use opensomeip_python.Tp
use opensomeip_python.Tp.{TpManager}
use opensomeip_python.Server.{SomeIpServer, start, stop, stop_offer_all, with_server, on_manager}
use opensomeip_python.Server.Closing.{AllUnbounded, Closes, rpc_stop}
use opensomeip_python.Server.Lifecycle.{Starts}

sd_stop :
    (native : Native) (s : SdServer) (l : List Call)
    → Starts (Sd.stop native) s (record s { offered = []; running = false }) l
unfolding Sd.stop
sd_stop native s l = ((Sd.stop native s l).2, ground arith)

events_stop :
    (native : Native) (s : EventPublisher) (l : List Call)
    → Starts
        (Events.stop_publisher native)
        s
        (record s { registered_events = []; running = false })
        l
unfolding Events.stop_publisher
events_stop native s l = ((Events.stop_publisher native s l).2, ground arith)

pub tp_stop :
    (native : Native) (p : TpManager) (l : List Call)
    → p.reassembly_receiver.maxsize ≡ 0
    → Starts
        (Tp.stop native)
        p
        (record p { running = false; reassembly_receiver = (close p.reassembly_receiver).1 })
        l
unfolding Tp.stop
tp_stop native p l h =
    ((Tp.stop native p l).2, ground (arith, close_unbounded p.reassembly_receiver h))

stop_offer_all_returns :
    (native : Native) (xs : List ServiceInstance) (s : SomeIpServer) (l : List Call)
    → (offered : List ServiceInstance) × Starts
        (stop_offer_all native xs)
        s
        (record s { sd_server = record s.sd_server { offered = offered } })
        l
unfolding stop_offer_all Sd.stop_offer
stop_offer_all_returns native [] s l = (s.sd_server.offered, (l, refl))
stop_offer_all_returns native (x ∷ xs) s l =
    let t = Sd.stop_offer native x s.sd_server l in
    let (offered, (l', e)) = stop_offer_all_returns native xs (record s { sd_server = t.1 }) t.2 in
    (offered, (l', ground (arith, e)))

abbrev pub TpStopped : Option TpManager → Type 0
TpStopped none = Unit {0}
TpStopped (some p) = (p.running ≡ false) × (p.reassembly_receiver.closed ≡ true)

abbrev pub TpUnbounded : Option TpManager → Type 0
TpUnbounded none = Unit {0}
TpUnbounded (some p) = p.reassembly_receiver.maxsize ≡ 0

manager_stop :
    (native : Native) (s : SomeIpServer) (l : List Call)
    → TpUnbounded s.tp_manager
    → (manager : Option TpManager) × (l' : List Call) × (on_manager
          (Tp.stop native)
          s.tp_manager
          s
          l
        ≡ (ok tt, record s { tp_manager = manager }, l'))
      × TpStopped manager
manager_stop native s l h = elim (Option-cases s.tp_manager) [
  | inl no_tp ↦ (none, l, ground (arith, no_tp), tt)
  | inr (p, has_tp) ↦
      let (l', e) = tp_stop native p l (ground (arith, h, has_tp)) in
      (
        some (record p { running = false; reassembly_receiver = (close p.reassembly_receiver).1 }),
        l',
        ground (arith, has_tp, e),
        (refl, close-closed p.reassembly_receiver),
      )
]

-- What a server looks like when all of it but the transport was stopped.
pub record IsDown (s : SomeIpServer) : Type 0 where
  pub stopped : s.running ≡ false
  pub sd_stopped : (s.sd_server.running ≡ false) × (s.sd_server.offered ≡ [])
  pub rpc_stopped : (s.rpc_server.running ≡ false) × (s.rpc_server.request_receivers ≡ [])
  pub events_stopped :
      (s.event_publisher.running ≡ false) × (s.event_publisher.registered_events ≡ [])
  pub tp_stopped : TpStopped s.tp_manager

-- `stop` ends every part of a server whose receivers have no bound, whatever the extension does:
-- the receivers that `incoming_requests` last made for each method are closed; the transport is the last, and what its `stop`
-- raises, and nothing else, is what this one raises.
pub stop_server-IsDown :
    (native : Native) (s : SomeIpServer) (l : List Call)
    → AllUnbounded s.rpc_server.receivers
    → TpUnbounded s.tp_manager
    → (l' : List Call) × IsDown (stop native s l).1
      × Closes s.rpc_server.request_receivers s.rpc_server.receivers
          (stop native s l).1.rpc_server.receivers
      × ((stop native s l).0 ≡ (Transport.stop native s.transport l').0)
      × ((stop native s l).1.transport ≡ (Transport.stop native s.transport l').1)
unfolding stop
stop_server-IsDown native s l rpc tp =
    let (offered, (l1, e1)) =
      stop_offer_all_returns native s.config.services (record s { running = false }) l in
    let (manager, l2, e2, tp_down) =
      manager_stop native
        (record s { running = false; sd_server = record s.sd_server { offered = offered } }) l1
        tp in
    let (l3, e3) = events_stop native s.event_publisher l2 in
    let (receivers, (l4, e4), closed) = rpc_stop native s.rpc_server l3 rpc in
    let (l5, e5) = sd_stop native (record s.sd_server { offered = offered }) l4 in
    let final : SomeIpServer = record s {
      running = false;
      sd_server = record s.sd_server { offered = []; running = false };
      tp_manager = manager;
      event_publisher = record s.event_publisher { registered_events = []; running = false };
      rpc_server = record s.rpc_server {
        running = false;
        request_receivers = [];
        receivers = receivers;
      };
      transport = (Transport.stop native s.transport l5).1;
    } in
    let whole : stop native s l ≡ (
      (Transport.stop native s.transport l5).0,
      final,
      (Transport.stop native s.transport l5).2,
    ) =
      ground (arith, e1, e2, e3, e4, e5) in
    (
      l5,
      rw whole (record {
        stopped = refl;
        sd_stopped = (refl, refl);
        rpc_stopped = (refl, refl);
        events_stopped = (refl, refl);
        tp_stopped = tp_down;
      }),
      rw whole closed,
      rw whole refl,
      rw whole refl,
    )

-- A `with` block on a server that started, whether its body returns or raises, if the receivers then
-- have no bound: afterwards the server and all its parts are stopped, with nothing offered or
-- registered; the receiver of the TP manager and those that `incoming_requests` last made for each method
-- are closed; and the transport is what its own `stop` made of it. The outcome is that of the body, unless the `stop` of the
-- transport raised, whose exception then is the outcome.
pub with_server-IsDown :
    {A : Type 0} (native : Native) (body : Exec SomeIpServer A) (s : SomeIpServer) (l : List Call)
    → (start native s l).0 ≡ ok tt
    → let up = start native s l in
      let t = body up.1 up.2 in
      let after = with_server native body s l in
      AllUnbounded t.1.rpc_server.receivers
      → TpUnbounded t.1.tp_manager
      → (l' : List Call) × IsDown after.1
        × Closes t.1.rpc_server.request_receivers t.1.rpc_server.receivers
            after.1.rpc_server.receivers
        × (after.1.transport ≡ (Transport.stop native t.1.transport l').1)
        × (((after.0 ≡ t.0) × ((Transport.stop native t.1.transport l').0 ≡ ok tt))
            ⊎ ((x : Exn) × ((Transport.stop native t.1.transport l').0 ≡ err x)
                × (after.0 ≡ err x)))
unfolding with_server
with_server-IsDown native body s l started rpc tp =
    let t = body (start native s l).1 (start native s l).2 in
    let (state, outcome) = within_entered (start native) (stop native) body s l started in
    let (l', down, closed, raised, transport) = stop_server-IsDown native t.1 t.2 rpc tp in
    (
      l',
      rw state down,
      rw state closed,
      rw state transport,
      elim outcome [
        | inl (returned, same) ↦ inl (same, sym raised ∙ returned)
        | inr (x, e, same) ↦ inr (x, sym raised ∙ e, same)
      ],
    )

-- ===== src/Client/Shutdown.antt =====
-- How a client stops, and what a `with` block on it leaves behind.
use opensomeip_python.Prelude.{
  ℕ, ◌⊎◌, ◌≡◌, refl, false, Bool-cases, Option, none, some, List, [], ◌∷◌, ◌++◌, arith,
  if◌then◌else◌, Option-cases, inl, inr,
}
use opensomeip_python.Prelude.Dict.{Dict, lookup, insert}
use opensomeip_python.Exceptions.{Exn, ok, err}
use opensomeip_python.Receiver.{Receiver, close}
use opensomeip_python.Receiver.Bounded.{close_unbounded, close-closed, close-closed}
use opensomeip_python.Native.Calls.{Call, Native, sd_client_shutdown}
use opensomeip_python.Native.Run.{Exec}
use opensomeip_python.Native.Within.{within_entered}
use opensomeip_python.Transport
use opensomeip_python.Sd
use opensomeip_python.Sd.{SdClient, close_last, on_receiver}
use opensomeip_python.Rpc
use opensomeip_python.Rpc.{RpcClient}
use opensomeip_python.Rpc.Pending.{stop_client-futures}
use opensomeip_python.Events
use opensomeip_python.Events.{EventSubscriber}
use opensomeip_python.Tp
use opensomeip_python.Tp.{TpManager}
use opensomeip_python.Server.Lifecycle.{Starts}
use opensomeip_python.Server.Closing.{AllUnbounded}
use opensomeip_python.Server.Shutdown.{TpUnbounded, TpStopped, tp_stop}
use opensomeip_python.Client.{SomeIpClient, start, stop, with_client, on_manager}

abbrev StatusUnbounded : Option Receiver → Type 0
StatusUnbounded none = Unit {0}
StatusUnbounded (some r) = r.maxsize ≡ 0

subscriber_stop :
    (native : Native) (s : EventSubscriber) (l : List Call)
    → s.notification_receiver.maxsize ≡ 0
    → StatusUnbounded s.status_receiver
    → (d : EventSubscriber) × Starts (Events.stop_subscriber native) s d l
      × (d.running ≡ false)
      × (d.notification_receiver ≡ (close s.notification_receiver).1)
      × (d.subscribed_groups ≡ [])
unfolding Events.stop_subscriber
subscriber_stop native s l h status =
    let (returns, _) = close_unbounded s.notification_receiver h in
    elim (Option-cases s.status_receiver) [
      | inl no_status ↦ (
        (Events.stop_subscriber native s l).1,
        ((Events.stop_subscriber native s l).2, ground (arith, returns, no_status)),
        ground (arith, returns, no_status),
        ground (arith, returns, no_status),
        ground (arith, returns, no_status),
      )
      | inr (r, has) ↦
          let (returns', _) = close_unbounded r (ground (arith, status, has)) in
          (
            (Events.stop_subscriber native s l).1,
            ((Events.stop_subscriber native s l).2, ground (arith, returns, has, returns')),
            ground (arith, returns, has, returns'),
            ground (arith, returns, has, returns'),
            ground (arith, returns, has, returns'),
          )
    ]

close_last_returns :
    (o : Option ℕ) (c : SdClient) (l : List Call)
    → AllUnbounded c.receivers
    → (receivers : Dict Receiver) × (close_last o c l
        ≡ (ok tt, record c { receivers = receivers }, l))
unfolding close_last on_receiver
close_last_returns none c l h = (c.receivers, refl)
close_last_returns (some k) c l h = elim (Option-cases (lookup k c.receivers)) [
  | inl missing ↦ (c.receivers, ground (arith, missing))
  | inr (r, has) ↦
      let (returns, _) = close_unbounded r (h k r has) in
      (insert k (close r).1 c.receivers, ground (arith, has, returns))
]

sd_stop :
    (native : Native) (c : SdClient) (l : List Call)
    → AllUnbounded c.receivers
    → (receivers : Dict Receiver) × Starts
        (Sd.stop_client native)
        c
        (record c { running = false; receivers = receivers })
        l
unfolding Sd.stop_client
sd_stop native c l h =
    let told = if c.cpp then l ++ sd_client_shutdown ∷ [] else l in
    let (receivers, e) = close_last_returns c.find_receiver (record c { running = false }) told h in
    (
      receivers,
      (
        told,
        elim (Bool-cases c.cpp) [
          | inl on ↦ ground (arith, on, e)
          | inr off ↦ ground (arith, off, e)
        ],
      ),
    )

rpc_stop :
    (native : Native) (c : RpcClient) (l : List Call)
    → Starts (Rpc.stop_client native) c (Rpc.stop_client native c l).1 l
unfolding Rpc.stop_client
rpc_stop native c l = ((Rpc.stop_client native c l).2, ground arith)

manager_stop :
    (native : Native) (s : SomeIpClient) (l : List Call)
    → TpUnbounded s.tp_manager
    → (manager : Option TpManager) × (l' : List Call) × (on_manager
          (Tp.stop native)
          s.tp_manager
          s
          l
        ≡ (ok tt, record s { tp_manager = manager }, l'))
      × TpStopped manager
manager_stop native s l h = elim (Option-cases s.tp_manager) [
  | inl no_tp ↦ (none, l, ground (arith, no_tp), tt)
  | inr (p, has_tp) ↦
      let (l', e) = tp_stop native p l (ground (arith, h, has_tp)) in
      (
        some (record p { running = false; reassembly_receiver = (close p.reassembly_receiver).1 }),
        l',
        ground (arith, has_tp, e),
        (refl, close-closed p.reassembly_receiver),
      )
]

-- No receiver of the client has a bound, as none has that the package makes.
pub record IsUnbounded (s : SomeIpClient) : Type 0 where
  pub notifications : s.event_subscriber.notification_receiver.maxsize ≡ 0
  pub status : StatusUnbounded s.event_subscriber.status_receiver
  pub finds : AllUnbounded s.sd_client.receivers
  pub reassembly : TpUnbounded s.tp_manager

-- What a client looks like when all of it but the transport was stopped.
pub record IsDown (s : SomeIpClient) : Type 0 where
  pub stopped : s.running ≡ false
  pub sd_stopped : s.sd_client.running ≡ false
  pub rpc_stopped : (s.rpc_client.running ≡ false) × (s.rpc_client.pending ≡ [])
  pub events_stopped :
      (s.event_subscriber.running ≡ false) × (s.event_subscriber.subscribed_groups ≡ [])
  pub tp_stopped : TpStopped s.tp_manager

-- `stop` ends every part of a client whose receivers have no bound, whatever the extension does:
-- the notification receiver is closed, the transport is the last, and what its `stop` raises, and
-- nothing else, is what this one raises.
pub stop-IsDown :
    (native : Native) (s : SomeIpClient) (l : List Call)
    → IsUnbounded s
    → (l' : List Call) × IsDown (stop native s l).1
      × ((stop native s l).1.event_subscriber.notification_receiver
          ≡ (close s.event_subscriber.notification_receiver).1)
      × ((stop native s l).0 ≡ (Transport.stop native s.transport l').0)
      × ((stop native s l).1.transport ≡ (Transport.stop native s.transport l').1)
unfolding stop
stop-IsDown native s l h =
    let (manager, l1, e1, tp_down) =
      manager_stop native (record s { running = false }) l h.reassembly in
    let (events, (l2, e2), quiet, closed, left) =
      subscriber_stop native s.event_subscriber l1 h.notifications h.status in
    let rpc = Rpc.stop_client native s.rpc_client l2 in
    let (l3, e3) = rpc_stop native s.rpc_client l2 in
    let (receivers, (l4, e4)) = sd_stop native s.sd_client l3 h.finds in
    let t = Transport.stop native s.transport l4 in
    let final : SomeIpClient = record s {
      running = false;
      tp_manager = manager;
      event_subscriber = events;
      rpc_client = rpc.1;
      sd_client = record s.sd_client { running = false; receivers = receivers };
      transport = t.1;
    } in
    let whole : stop native s l ≡ (t.0, final, t.2) = ground (arith, e1, e2, e3, e4) in
    let (_, rpc_down, no_calls, _) = stop_client-futures native s.rpc_client l2 0 in
    (
      l4,
      rw whole (record {
        stopped = refl;
        sd_stopped = refl;
        rpc_stopped = (rpc_down, no_calls);
        events_stopped = (quiet, left);
        tp_stopped = tp_down;
      }),
      rw whole closed,
      rw whole refl,
      rw whole refl,
    )

-- A `with` block on a client that started leaves it stopped, whether its body returns or raises,
-- if the receivers then have no bound. The outcome is that of the body, unless `stop` raised.
pub with_client-IsDown :
    {A : Type 0} (native : Native) (body : Exec SomeIpClient A) (s : SomeIpClient) (l : List Call)
    → (start native s l).0 ≡ ok tt
    → let up = start native s l in
      let t = body up.1 up.2 in
      IsUnbounded t.1
      → IsDown (with_client native body s l).1
        × (((with_client native body s l).0 ≡ t.0)
            ⊎ ((x : Exn) × ((stop native t.1 t.2).0 ≡ err x)
                × ((with_client native body s l).0 ≡ err x)))
unfolding with_client
with_client-IsDown native body s l started h =
    let t = body (start native s l).1 (start native s l).2 in
    let (state, outcome) = within_entered (start native) (stop native) body s l started in
    let (l', down, _, _, _) = stop-IsDown native t.1 t.2 h in
    (rw state down, elim outcome [ inl (_, same) ↦ inl same | inr (x, e, same) ↦ inr (x, e, same) ])

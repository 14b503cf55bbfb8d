-- ===== src/Server/Lifecycle.antt =====
-- How a server starts.
use opensomeip_python.Prelude.{
  ap, ◌⊎◌, ◌≡◌, refl, ◌∙◌, true, Option, none, some, List, [], ◌∷◌, arith, if◌then◌else◌,
  Option-cases, inl, inr,
}
use opensomeip_python.Exceptions.{Result, Result-cases, Exn, ok, err}
use opensomeip_python.Native.Calls.{Call, Native}
use opensomeip_python.Native.Run.{Exec}
use opensomeip_python.Transport
use opensomeip_python.Transport.{Transport}
use opensomeip_python.Sd
use opensomeip_python.Sd.{SdServer, ServiceInstance, contains, add, same}
use opensomeip_python.Sd.Offers.{contains-add}
use opensomeip_python.Rpc
use opensomeip_python.Rpc.Server.{RpcServer}
use opensomeip_python.Events
use opensomeip_python.Events.{EventPublisher}
use opensomeip_python.Tp
use opensomeip_python.Tp.{TpManager}
use opensomeip_python.Server.{SomeIpServer, start, offer_all}

-- A start that never raises, whatever the extension does.
abbrev pub Starts : {S : Type 0} → Exec S (Unit {0}) → S → S → List Call → Type 0
Starts m s s' l = (l' : List Call) × (m s l ≡ (ok tt, s', l'))

sd_start :
    (native : Native) (s : SdServer) (l : List Call)
    → Starts (Sd.start native) s (record s { running = true }) l
unfolding Sd.start
sd_start native s l = ((Sd.start native s l).2, ground arith)

rpc_start :
    {S : Type 0} (native : Native) (s : RpcServer S) (l : List Call)
    → Starts (Rpc.Server.start_server native) s (record s { running = true }) l
unfolding Rpc.Server.start_server
rpc_start native s l = ((Rpc.Server.start_server native s l).2, ground arith)

events_start :
    (native : Native) (s : EventPublisher) (l : List Call)
    → Starts (Events.start_publisher native) s (record s { running = true }) l
unfolding Events.start_publisher
events_start native s l = ((Events.start_publisher native s l).2, ground arith)

tp_start :
    (native : Native) (s : TpManager) (l : List Call)
    → Starts (Tp.start native) s (record s { running = true }) l
unfolding Tp.start
tp_start native s l = ((Tp.start native s l).2, ground arith)

sd_offer :
    (native : Native) (x : ServiceInstance) (s : SdServer) (l : List Call)
    → Starts (Sd.offer native x) s (record s { offered = add x s.offered }) l
unfolding Sd.offer
sd_offer native x s l = ((Sd.offer native x s l).2, ground arith)

offer_all-lem :
    (native : Native) (xs : List ServiceInstance) (s : SomeIpServer) (l : List Call)
    → (offered : List ServiceInstance) × Starts
        (offer_all native xs)
        s
        (record s { sd_server = record s.sd_server { offered = offered } })
        l
      × ((x : ServiceInstance)
          → contains x offered ≡ (if contains x xs then true else contains x s.sd_server.offered))
unfolding offer_all contains
offer_all-lem native [] s l = (s.sd_server.offered, (l, refl), λ x. refl)
offer_all-lem native (y ∷ ys) s l =
    let (l1, e) = sd_offer native y s.sd_server l in
    let (offered, (l2, e2), has) =
      offer_all-lem native ys
        (record s { sd_server = record s.sd_server { offered = add y s.sd_server.offered } }) l1 in
    (
      offered,
      (l2, ground (arith, e, e2)),
      λ x. ground (arith, has x, contains-add x y s.sd_server.offered),
    )

abbrev TpRunning : Option TpManager → Type 0
TpRunning none = Unit {0}
TpRunning (some p) = p.running ≡ true

-- What a server looks like when all of it was started.
pub record IsUp (s : SomeIpServer) : Type 0 where
  pub is_running : s.running ≡ true
  pub sd_is_running : s.sd_server.running ≡ true
  pub rpc_is_running : s.rpc_server.running ≡ true
  pub events_is_running : s.event_publisher.running ≡ true
  pub tp_is_running : TpRunning s.tp_manager
  pub all_offered :
      (x : ServiceInstance)
      → contains x s.config.services ≡ true
      → contains x s.sd_server.offered ≡ true

start_lem :
    (native : Native) (s : SomeIpServer) (l : List Call)
    → (Transport.start native s.transport l).0 ≡ ok tt
    → (final : SomeIpServer) × (l' : List Call) × (start native s l ≡ (ok tt, final, l'))
      × IsUp final
unfolding start
start_lem native s l h =
    let t = Transport.start native s.transport l in
    let (l1, e1) = sd_start native s.sd_server t.2 in
    let (l2, e2) = rpc_start native s.rpc_server l1 in
    let (l3, e3) = events_start native s.event_publisher l2 in
    let s3 : SomeIpServer = record s {
      transport = t.1;
      sd_server = record s.sd_server { running = true };
      rpc_server = record s.rpc_server { running = true };
      event_publisher = record s.event_publisher { running = true };
    } in
    elim (Option-cases s.tp_manager) [
      | inl no_tp ↦
          let (offered, (l5, e5), has) = offer_all-lem native s.config.services s3 l3 in
          let final : SomeIpServer = record s3 {
            sd_server = record s3.sd_server { offered = offered };
            running = true;
          } in
          (
            final,
            l5,
            ground (arith, h, e1, e2, e3, no_tp, e5),
            record {
              is_running = refl;
              sd_is_running = refl;
              rpc_is_running = refl;
              events_is_running = refl;
              tp_is_running = rw no_tp tt;
              all_offered = λ x c. has x ∙ rw c refl;
            },
          )
      | inr (p, has_tp) ↦
          let (l4, e4) = tp_start native p l3 in
          let s4 : SomeIpServer = record s3 { tp_manager = some (record p { running = true }) } in
          let (offered, (l5, e5), has) = offer_all-lem native s.config.services s4 l4 in
          (
            record s4 { sd_server = record s4.sd_server { offered = offered }; running = true },
            l5,
            ground (arith, h, e1, e2, e3, has_tp, e4, e5),
            record {
              is_running = refl;
              sd_is_running = refl;
              rpc_is_running = refl;
              events_is_running = refl;
              tp_is_running = refl;
              all_offered = λ x c. has x ∙ rw c refl;
            },
          )
    ]

-- When the transport starts, the rest of the server starts, whatever the extension does, and every
-- configured service is on offer. When it does not, `start` raises the transport's exception, and
-- nothing else was started or offered.
pub start-IsUp :
    (native : Native) (s : SomeIpServer) (l : List Call)
    → let t = Transport.start native s.transport l in
      ((t.0 ≡ ok tt) × ((start native s l).0 ≡ ok tt) × IsUp (start native s l).1)
      ⊎ ((x : Exn) × (t.0 ≡ err x)
          × (start native s l ≡ (err x, record s { transport = t.1 }, t.2)))
unfolding start
start-IsUp native s l = elim (Result-cases (Transport.start native s.transport l).0) [
  | inl (u, h) ↦
      let (final, l', e, up) = start_lem native s l h in
      inl (h, ap (λ (r : Result (Unit {0}) × SomeIpServer × List Call). r.0) e, rw e up)
  | inr (x, h) ↦ inr (x, h, ground (arith, h))
]

-- ===== src/Server/Closing.antt =====
-- The receivers that `incoming_requests` handed out, and how a server closes them.
use opensomeip_python.Prelude.{
  ℕ, ◌≡◌, refl, false, none, some, List, [], ◌∷◌, ◌++◌, arith, if◌then◌else◌, ◌==◌, Bool-cases,
  Option-cases, inl, inr, ap, true, ==_iff,
}
use opensomeip_python.Prelude.Dict.{Dict, lookup, insert, lookup-insert}
use opensomeip_python.Exceptions.{ok}
use opensomeip_python.Receiver.{Receiver, close}
use opensomeip_python.Receiver.Bounded.{close_unbounded, close-closed}
use opensomeip_python.Rpc.Pending.{is_pending}
use opensomeip_python.Native.Calls.{Call, Native, rpc_server_shutdown}
use opensomeip_python.Rpc.Server.{RpcServer, close_each, stop_server}
use opensomeip_python.Server.Lifecycle.{Starts}

-- No receiver has a bound, as none has that the package makes.
abbrev pub AllUnbounded : Dict Receiver → Type 0
AllUnbounded d = (k : ℕ) (r : Receiver) → lookup k d ≡ some r → r.maxsize ≡ 0

insert-AllUnbounded :
    (k : ℕ) (q : Receiver) (d : Dict Receiver)
    → q.maxsize ≡ 0
    → AllUnbounded d
    → AllUnbounded (insert k q d)
insert-AllUnbounded k q d hq hd j r e = elim (Bool-cases (k == j)) [
  | inl same ↦ ground (arith, e, same, lookup-insert k j q d, hq)
  | inr other ↦ hd j r (ground (arith, e, other, lookup-insert k j q d))
]

-- The receiver with this number is there and closed.
abbrev pub IsClosed : ℕ → Dict Receiver → Type 0
IsClosed k d = (r : Receiver) × (lookup k d ≡ some r) × (r.closed ≡ true)

insert-IsClosed :
    (j k : ℕ) (q : Receiver) (d : Dict Receiver)
    → q.closed ≡ true
    → IsClosed j d
    → IsClosed j (insert k q d)
insert-IsClosed j k q d hq (r, has, closed) = elim (Bool-cases (k == j)) [
  | inl same ↦ (q, ground (arith, same, lookup-insert k j q d), hq)
  | inr other ↦ (r, ground (arith, other, has, lookup-insert k j q d), closed)
]

-- What the loop over these receivers leaves: every closed one closed, and each of these closed.
pub record Closes (rs : Dict ℕ) (d d' : Dict Receiver) : Type 0 where
  pub keeps : (j : ℕ) → IsClosed j d → IsClosed j d'
  pub closes : (j : ℕ) (r : Receiver) → is_pending j rs ≡ true → lookup j d ≡ some r → IsClosed j d'

Closes-missing :
    (method k : ℕ) (rs : Dict ℕ) (d d' : Dict Receiver)
    → lookup k d ≡ none
    → Closes rs d d'
    → Closes ((method, k) ∷ rs) d d'
unfolding is_pending
Closes-missing method k rs d d' missing later = record {
  keeps = later.keeps;
  closes = λ j q listed has. elim (Bool-cases (k == j)) [
    | inl same ↦ absurd (ground (arith, missing, has, ap (λ i. lookup i d) ((==_iff k j).0 same)))
    | inr other ↦ later.closes j q (ground (arith, listed, other)) has
  ];
}

Closes-cons :
    (method k : ℕ) (r : Receiver) (rs : Dict ℕ) (d d' : Dict Receiver)
    → Closes rs (insert k (close r).1 d) d'
    → Closes ((method, k) ∷ rs) d d'
unfolding is_pending
Closes-cons method k r rs d d' later =
    let set = λ (j : ℕ). lookup-insert k j (close r).1 d in
    record {
      keeps = λ j h. later.keeps j (insert-IsClosed j k (close r).1 d (close-closed r) h);
      closes = λ j q listed has. elim (Bool-cases (k == j)) [
        | inl same ↦ later.keeps j ((close r).1, ground (arith, same, set j), close-closed r)
        | inr other ↦
            later.closes j q (ground (arith, listed, other)) (ground (arith, other, has, set j))
      ];
    }

close_each_returns :
    {S : Type 0} (rs : Dict ℕ) (s : RpcServer S) (l : List Call)
    → AllUnbounded s.receivers
    → (receivers : Dict Receiver) × (close_each rs s l
        ≡ (ok tt, record s { receivers = receivers }, l))
      × Closes rs s.receivers receivers
unfolding close_each is_pending
close_each_returns [] s l h = (
  s.receivers,
  refl,
  record { keeps = λ j c. c; closes = λ j r listed has. absurd (ground (arith, listed)) },
)
close_each_returns ((method, k) ∷ rs) s l h = elim (Option-cases (lookup k s.receivers)) [
  | inl missing ↦
      let (receivers, e, later) = close_each_returns rs s l h in
      (
        receivers,
        ground (arith, missing, e),
        Closes-missing method k rs s.receivers receivers missing later,
      )
  | inr (r, has) ↦
      let (returns, same) = close_unbounded r (h k r has) in
      let changed = insert k (close r).1 s.receivers in
      let (receivers, e, later) =
        close_each_returns rs (record s { receivers = changed }) l
          (insert-AllUnbounded k (close r).1 s.receivers same h) in
      (
        receivers,
        ground (arith, has, returns, e),
        Closes-cons method k r rs s.receivers receivers later,
      )
]

pub rpc_stop :
    {S : Type 0} (native : Native) (s : RpcServer S) (l : List Call)
    → AllUnbounded s.receivers
    → (receivers : Dict Receiver) × Starts
        (stop_server native)
        s
        (record s { running = false; request_receivers = []; receivers = receivers })
        l
      × Closes s.request_receivers s.receivers receivers
unfolding stop_server
rpc_stop native s l h =
    let told = if s.cpp then l ++ rpc_server_shutdown ∷ [] else l in
    let (receivers, e, closed) =
      close_each_returns s.request_receivers (record s { running = false }) told h in
    (
      receivers,
      (
        told,
        elim (Bool-cases s.cpp) [
          | inl on ↦ ground (arith, on, e)
          | inr off ↦ ground (arith, off, e)
        ],
      ),
      closed,
    )

-- ===== src/Receiver/Iteration.antt =====
-- The synchronous iterator hands out the accepted messages, in order, and then stops for good.
use opensomeip_python.Prelude.{
  ℕ, zero, suc, ◌<◌, ◌≡◌, refl, ◌∙◌, Bool, true, false, List, [], ◌∷◌, ◌++◌, map, arith, length,
}
use opensomeip_python.Message.{Message}
use opensomeip_python.Receiver.{
  Receiver, Item, message, sentinel, Step, item, stop, wait, new, put, close, poll,
}
use opensomeip_python.Receiver.Queue.{
  close_lem, put_open, run-closed, run-open, IsMarks, closes_of-IsMarks, append-IsMarks,
  closes_of-cons,
}
use opensomeip_python.Receiver.Schedule.{
  Event, puts, closes, quiet, apply, run, accepted, has_close, closes_of,
}

-- `__next__`: rounds of `poll`, with one event of the environment in each round's wait.
unfoldable pub next_from : List Event → Receiver → Step × Receiver
unfolding poll
next_from [] r = poll r
next_from (e ∷ es) r =
    let later = next_from es (apply e (poll r).1) in
    elim (poll r).0 [ wait ↦ later | item m ↦ poll r | stop ↦ poll r ]

-- `list(receiver)` with fuel: what the rounds give until the first stop, and whether it came.
unfoldable pub collect : ℕ → Receiver → List Message × Bool × Receiver
unfolding poll
collect zero r = ([], false, r)
collect (suc f) r =
    let rest = collect f (poll r).1 in
    elim (poll r).0 [
      | item m ↦ (m ∷ rest.0, rest.1, rest.2)
      | stop ↦ ([], true, (poll r).1)
      | wait ↦ ([], false, r)
    ]

-- The rounds over a queue of messages and a sentinel.
collect_queue :
    (ms : List Message) (rest : List Item) (f : ℕ) (r : Receiver)
    → r.sync_queue ≡ map message ms ++ sentinel ∷ rest
    → length ms < f
    → collect f r ≡ (ms, true, record r { sync_queue = rest })
unfolding collect poll
collect_queue ms rest zero r q h = absurd (omega arith)
collect_queue [] rest (suc f) r q h = rw q
collect_queue (m ∷ ms) rest (suc f) r q h =
    let r' : Receiver = record r { sync_queue = map message ms ++ sentinel ∷ rest } in
    ground (arith, q, collect_queue ms rest f r' refl)

poll-marks :
    (r : Receiver) (q : List Item)
    → r.sync_queue ≡ q
    → IsMarks q
    → r.closed ≡ true
    → (poll r).0 ≡ stop
unfolding poll
poll-marks r [] e h c = rw (e, c)
poll-marks r (sentinel ∷ q) e h c = rw e
poll-marks r (message m ∷ q) e h c = absurd h

-- A fresh receiver is put to and closed in any order. Iterating it then gives the messages of
-- before the first close, in order, and ends; and it stays at its end whatever happens later.
pub collect-run :
    (es : List Event) (f : ℕ)
    → has_close es ≡ true
    → length (accepted es) < f
    → let out = collect f (run es (new 0)) in
      (out.0 ≡ accepted es)
      × (out.1 ≡ true)
      × ((later : List Event) → (poll (run later out.2)).0 ≡ stop)
collect-run es f h enough =
    let (rest, split, marks) = closes_of-cons es h in
    let after = run es (new 0) in
    let q = run-open es (new 0) refl refl in
    let same : collect f after ≡ (accepted es, true, record after { sync_queue = rest }) =
      collect_queue (accepted es) rest f after (q.0 ∙ rw split) enough in
    rw same (
      refl,
      refl,
      λ later.
          let r : Receiver = record after { sync_queue = rest } in
          let z = run-closed later r q.2 (q.1 ∙ h) in
          poll-marks (run later r) (rest ++ closes_of later) z.0
            (append-IsMarks rest (closes_of later) marks (closes_of-IsMarks later)) z.1,
    )

abbrev step_of : Item → Step
step_of (message m) = item m
step_of sentinel = stop

poll-head :
    (r : Receiver) (x : Item) (rest : List Item) → r.sync_queue ≡ x ∷ rest → (poll r).0 ≡ step_of x
unfolding poll
poll-head r (message m) rest q = rw q
poll-head r sentinel rest q = rw q

next_from-ready :
    (es : List Event) (r : Receiver) (x : Item) (rest : List Item)
    → r.sync_queue ≡ x ∷ rest
    → (next_from es r).0 ≡ (poll r).0
unfolding next_from poll
next_from-ready [] r x rest q = refl
next_from-ready (e ∷ es) r (message m) rest q = ground (arith, q)
next_from-ready (e ∷ es) r sentinel rest q = ground (arith, q)

next_from-waits :
    (e : Event) (es : List Event) (r : Receiver)
    → r.closed ≡ false
    → r.sync_queue ≡ []
    → (next_from (e ∷ es) r).0 ≡ (next_from es (apply e r)).0
unfolding next_from poll
next_from-waits e es r c q = ground arith

-- What a consumer that waits on an empty queue is handed: the first message, or the end.
abbrev pub first_step : List Message → Bool → Step
first_step (m ∷ ms) closing = item m
first_step [] true = stop
first_step [] false = wait

-- A consumer that waits on an empty open queue gets the first message that is put before a close,
-- the end of the iteration if the close comes first, and waits on only while neither comes.
pub next_from-waiting :
    (es : List Event) (r : Receiver)
    → r.maxsize ≡ 0
    → r.closed ≡ false
    → r.sync_queue ≡ []
    → (next_from es r).0 ≡ first_step (accepted es) (has_close es)
unfolding next_from poll apply accepted has_close
next_from-waiting [] r u c q = rw (q, c)
next_from-waiting (quiet ∷ es) r u c q = ground (arith, next_from-waiting es r u c q)
next_from-waiting (puts m ∷ es) r u c q =
    let p = put_open r u m c in
    let queue : (put m r).1.sync_queue ≡ message m ∷ [] = p.0 ∙ rw q in
    next_from-waits (puts m) es r c q
    ∙ next_from-ready es (put m r).1 (message m) [] queue
    ∙ poll-head (put m r).1 (message m) [] queue
next_from-waiting (closes ∷ es) r u c q =
    let p = close_lem r u in
    let queue : (close r).1.sync_queue ≡ sentinel ∷ [] = p.0 ∙ rw q in
    next_from-waits closes es r c q
    ∙ next_from-ready es (close r).1 sentinel [] queue
    ∙ poll-head (close r).1 sentinel [] queue

-- ===== src/Receiver/Queue.antt =====
-- What puts and closes leave in the queue of an unbounded receiver.
use opensomeip_python.Prelude.{
  ◌≡◌, refl, ap, ◌∙◌, true, false, List, [], ◌∷◌, ◌++◌, map, append-nil, append_assoc, arith,
}
use opensomeip_python.Exceptions.{Result, ok}
use opensomeip_python.Message.{Message}
use opensomeip_python.Receiver.{
  Receiver, Item, message, sentinel, put, close, put_nowait, put_async,
}
use opensomeip_python.Receiver.Schedule.{
  Event, puts, closes, quiet, apply, run, accepted, has_close, closes_of,
}

-- One operation on an unbounded receiver.
module _ (r : Receiver) (unbounded : r.maxsize ≡ 0) where
  pub close_lem :
      ((close r).1.sync_queue ≡ r.sync_queue ++ sentinel ∷ [])
      × ((close r).1.closed ≡ true)
      × ((close r).1.maxsize ≡ 0)
      × ((close r).0 ≡ ok tt)
  unfolding close put_nowait put_async
  close_lem = ground arith

  pub put_open :
      (m : Message)
      → r.closed ≡ false
      → ((put m r).1.sync_queue ≡ r.sync_queue ++ message m ∷ [])
        × ((put m r).1.closed ≡ false)
        × ((put m r).1.maxsize ≡ 0)
        × ((put m r).0 ≡ ok tt)
  unfolding put put_nowait put_async
  put_open m c = ground arith

pub put_closed : (r : Receiver) (m : Message) → r.closed ≡ true → put m r ≡ (ok tt, r)
unfolding put
put_closed r m c = rw c

-- The queue of an unbounded receiver after any events.
pub run-closed :
    (es : List Event) (r : Receiver)
    → r.maxsize ≡ 0
    → r.closed ≡ true
    → ((run es r).sync_queue ≡ r.sync_queue ++ closes_of es)
      × ((run es r).closed ≡ true)
      × ((run es r).maxsize ≡ 0)
unfolding run closes_of apply
run-closed [] r u c = (rw append-nil, c, u)
run-closed (puts m ∷ es) r u c =
    let same : run es (put m r).1 ≡ run es r =
      ap (λ (t : Result (Unit {0}) × Receiver). run es t.1) (put_closed r m c) in
    rw same (run-closed es r u c)
run-closed (closes ∷ es) r u c =
    let ih = run-closed es (close r).1 (close_lem r u).2 (close_lem r u).1 in
    (
      ih.0 ∙ rw (close_lem r u).0 (append_assoc r.sync_queue (sentinel ∷ []) (closes_of es)),
      ih.1,
      ih.2,
    )
run-closed (quiet ∷ es) r u c = run-closed es r u c

-- The closes from the first one on.
pub run-open :
    (es : List Event) (r : Receiver)
    → r.maxsize ≡ 0
    → r.closed ≡ false
    → ((run es r).sync_queue ≡ r.sync_queue ++ (map message (accepted es) ++ closes_of es))
      × ((run es r).closed ≡ has_close es)
      × ((run es r).maxsize ≡ 0)
unfolding run closes_of apply accepted has_close
run-open [] r u c = (rw append-nil, c, u)
run-open (puts m ∷ es) r u c =
    let p = put_open r u m c in
    let ih = run-open es (put m r).1 p.2 p.1 in
    (
      ih.0
          ∙ rw p.0 (
              append_assoc r.sync_queue (message m ∷ [])
                (map message (accepted es) ++ closes_of es)),
      ih.1,
      ih.2,
    )
run-open (closes ∷ es) r u c =
    let q = close_lem r u in
    let ih = run-closed es (close r).1 q.2 q.1 in
    (ih.0 ∙ rw q.0 (append_assoc r.sync_queue (sentinel ∷ []) (closes_of es)), ih.1, ih.2)
run-open (quiet ∷ es) r u c = run-open es r u c

-- Only sentinels.
abbrev pub IsMarks : List Item → Type 0
IsMarks [] = Unit {0}
IsMarks (sentinel ∷ q) = IsMarks q
IsMarks (message m ∷ q) = ⊥

pub closes_of-IsMarks : (es : List Event) → IsMarks (closes_of es)
unfolding closes_of
closes_of-IsMarks [] = tt
closes_of-IsMarks (puts m ∷ es) = closes_of-IsMarks es
closes_of-IsMarks (closes ∷ es) = closes_of-IsMarks es
closes_of-IsMarks (quiet ∷ es) = closes_of-IsMarks es

pub append-IsMarks : (p q : List Item) → IsMarks p → IsMarks q → IsMarks (p ++ q)
append-IsMarks [] q h k = k
append-IsMarks (sentinel ∷ p) q h k = append-IsMarks p q h k
append-IsMarks (message m ∷ p) q h k = absurd h

pub closes_of-cons :
    (es : List Event)
    → has_close es ≡ true
    → (rest : List Item) × (closes_of es ≡ sentinel ∷ rest) × IsMarks rest
unfolding closes_of has_close
closes_of-cons [] h = cc
closes_of-cons (puts m ∷ es) h = closes_of-cons es h
closes_of-cons (closes ∷ es) h = (closes_of es, refl, closes_of-IsMarks es)
closes_of-cons (quiet ∷ es) h = closes_of-cons es h

-- ===== src/Receiver/Async.antt =====
-- The asynchronous iterator: the same messages, through the event loop.
use opensomeip_python.Prelude.{
  ◌≡◌, refl, sym, ◌∙◌, inl, inr, Bool-cases, Bool, true, false, none, some, List, [], ◌∷◌, ◌++◌,
  append_assoc, arith,
}
use opensomeip_python.Message.{Message}
use opensomeip_python.Receiver.{
  Receiver, Item, message, sentinel, new, put, close, deliver, ensure_async_queue, put_nowait,
  put_async,
}
use opensomeip_python.Receiver.Queue.{put_closed}
use opensomeip_python.Receiver.Schedule.{Event, puts, closes, quiet, apply}

-- Events of the producers, and the event loop running a scheduled callback.
pub data LoopEvent : Type 0 where
  event : Event → LoopEvent
  delivers : LoopEvent

unfoldable pub run_loop : List LoopEvent → Receiver → Receiver
run_loop [] r = r
run_loop (event e ∷ es) r = run_loop es (apply e r)
run_loop (delivers ∷ es) r = run_loop es (deliver r)

-- Everything that the asynchronous consumer has still to read, delivered or not.
abbrev pub stream : Receiver → List Item
stream r = elim r.async_queue [ none ↦ r.scheduled | some q ↦ q ++ r.scheduled ]

-- An unbounded receiver whose asynchronous queue was made in a loop that runs, with both
-- consumers equally far.
pub record InStep (r : Receiver) : Type 0 where
  pub unbounded : r.maxsize ≡ 0
  pub loop : r.has_loop ≡ true
  pub running : r.loop_running ≡ true
  pub queue : List Item
  pub made : r.async_queue ≡ some queue
  pub same : queue ++ r.scheduled ≡ r.sync_queue

close-eq :
    (r : Receiver)
    → r.maxsize ≡ 0
    → (close r).1
      ≡ put_async sentinel (record r { sync_queue = r.sync_queue ++ sentinel ∷ []; closed = true })
unfolding close put_nowait
close-eq r u = ground arith

put_open-eq :
    (r : Receiver) (m : Message)
    → r.maxsize ≡ 0
    → r.closed ≡ false
    → (put m r).1
      ≡ put_async
          (message m)
          (record r { sync_queue = r.sync_queue ++ message m ∷ []; closed = false })
unfolding put put_nowait
put_open-eq r m u c = ground arith

-- An operation that appends an item to both queues.
InStep-append :
    (x : Item) (closed : Bool) (r : Receiver)
    → InStep r
    → InStep (put_async x (record r { sync_queue = r.sync_queue ++ x ∷ []; closed = closed }))
unfolding put_async
InStep-append x closed r s =
    rw (s.made, s.loop, s.running)
      (record {
        unbounded = s.unbounded;
        loop = refl;
        running = refl;
        queue = s.queue;
        made = s.made;
        same = sym (append_assoc s.queue r.scheduled (x ∷ [])) ∙ rw s.same;
      })

InStep-put : (m : Message) (r : Receiver) → InStep r → InStep (put m r).1
InStep-put m r s = elim (Bool-cases r.closed) [
  | inl c ↦ rw (put_closed r m c) s
  | inr c ↦ rw (put_open-eq r m s.unbounded c) (InStep-append (message m) false r s)
]

InStep-close : (r : Receiver) → InStep r → InStep (close r).1
InStep-close r s = rw (close-eq r s.unbounded) (InStep-append sentinel true r s)

InStep-deliver_at :
    (xs : List Item) (r : Receiver) → r.scheduled ≡ xs → InStep r → InStep (deliver r)
unfolding deliver
InStep-deliver_at [] r e s = rw (e, deliver) s
InStep-deliver_at (x ∷ xs) r e s =
    rw (e, deliver, s.made)
      (record {
        unbounded = s.unbounded;
        loop = s.loop;
        running = s.running;
        queue = s.queue ++ x ∷ [];
        made = refl;
        same = append_assoc s.queue (x ∷ []) xs ∙ rw (← e) s.same;
      })

InStep-apply : (e : Event) (r : Receiver) → InStep r → InStep (apply e r)
unfolding apply
InStep-apply (puts m) r s = InStep-put m r s
InStep-apply closes r s = InStep-close r s
InStep-apply quiet r s = s

InStep-run_loop : (es : List LoopEvent) (r : Receiver) → InStep r → InStep (run_loop es r)
unfolding run_loop
InStep-run_loop [] r s = s
InStep-run_loop (event e ∷ es) r s = InStep-run_loop es (apply e r) (InStep-apply e r s)
InStep-run_loop (delivers ∷ es) r s =
    InStep-run_loop es (deliver r) (InStep-deliver_at r.scheduled r refl s)

-- An iterator of an unbounded receiver, made in a running loop before anything is put: as long as the
-- loop keeps running, whatever the producers do and whenever the loop runs its callbacks, what the asynchronous queue and the callbacks on their way to it hold is what the synchronous
-- queue holds, in the same order.
pub async-stream :
    (es : List LoopEvent)
    → let r = run_loop es (ensure_async_queue true (new 0)) in stream r ≡ r.sync_queue
unfolding ensure_async_queue
async-stream es =
    let s = InStep-run_loop es (ensure_async_queue true (new 0)) (record {
      unbounded = refl;
      loop = refl;
      running = refl;
      queue = [];
      made = refl;
      same = refl;
    }) in
    rw s.made s.same

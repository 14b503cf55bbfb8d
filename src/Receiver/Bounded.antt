-- ===== src/Receiver/Bounded.antt =====
-- A receiver with a bound: what `put_nowait` does on a full queue.
use opensomeip_python.Prelude.{◌≤◌, ◌<◌, ◌≡◌, true, length, arith}
use opensomeip_python.Exceptions.{ok, err, queue_full}
use opensomeip_python.Receiver.{Receiver, close, put_nowait, put_async}

abbrev pub IsFull : Receiver → Type 0
IsFull r = (0 < r.maxsize) × (r.maxsize ≤ length r.sync_queue)

-- On a full queue `close` marks the receiver closed and raises `queue.Full`: neither queue gets the
-- sentinel, the asynchronous one, which has no bound, included.
pub close_full : (r : Receiver) → IsFull r → close r ≡ (err queue_full, record r { closed = true })
unfolding close put_nowait
close_full r h = ground arith

-- Without a bound `close` never raises.
pub close_unbounded :
    (r : Receiver) → r.maxsize ≡ 0 → ((close r).0 ≡ ok tt) × ((close r).1.maxsize ≡ 0)
unfolding close put_nowait put_async
close_unbounded r h = (ground (arith, h), ground (arith, h))

-- However `close` ends, the receiver is closed.
pub close-closed : (r : Receiver) → (close r).1.closed ≡ true
unfolding close put_nowait put_async
close-closed r = ground arith

-- ===== src/Receiver.antt =====
-- src/opensomeip/receiver.py: `MessageReceiver`, a queue with a synchronous and an asynchronous
-- iterator. `queue.Queue` and `asyncio.Queue` are lists, oldest item first. `scheduled` holds the
-- items that `call_soon_threadsafe` has handed to the event loop and that the loop has not yet put;
-- `loop_running` says whether the captured loop runs, and is the environment's to change.
pub mod Schedule
pub mod Queue
pub mod Bounded
pub mod Async
pub mod Iteration
use opensomeip_python.Prelude.{
  ℕ, Bool, true, false, ◌&&◌, Option, none, some, List, [], ◌∷◌, ◌++◌, ltb, leb, length,
  if◌then◌else◌,
}
use opensomeip_python.Exceptions.{Result, ok, err, queue_full}
use opensomeip_python.Message.{Message}

-- A queued message, or `_SENTINEL`.
pub data Item : Type 0 where
  message : Message → Item
  sentinel : Item

pub record Receiver : Type 0 where
  pub maxsize : ℕ
  pub sync_queue : List Item
  pub async_queue : Option (List Item)
  pub has_loop : Bool
  pub loop_running : Bool
  pub scheduled : List Item
  pub closed : Bool

-- `MessageReceiver(maxsize)`
abbrev pub new : ℕ → Receiver
new maxsize = record {
  maxsize = maxsize;
  sync_queue = [];
  async_queue = none;
  has_loop = false;
  loop_running = false;
  scheduled = [];
  closed = false;
}

-- `self._sync_queue.put_nowait(item)`
unfoldable pub put_nowait : Item → Receiver → Result (Unit {0}) × Receiver
put_nowait item r =
    if ltb 0 r.maxsize && leb r.maxsize (length r.sync_queue)
    then (err queue_full, r)
    else (ok tt, record r { sync_queue = r.sync_queue ++ item ∷ [] })

-- `_ensure_async_queue`, called inside a running event loop or outside one.
unfoldable pub ensure_async_queue : Bool → Receiver → Receiver
ensure_async_queue in_loop r = elim r.async_queue [
  | some q ↦ r
  | none ↦ record r { async_queue = some []; has_loop = in_loop; loop_running = in_loop }
]

-- `_put_async`
unfoldable pub put_async : Item → Receiver → Receiver
put_async item r = elim r.async_queue [
  | none ↦ r
  | some q ↦
      if r.has_loop && r.loop_running
      then record r { scheduled = r.scheduled ++ item ∷ [] }
      else record r { async_queue = some (q ++ item ∷ []) }
]

-- The statement after `put_nowait`, which an exception skips.
abbrev pub then_put_async : Item → Result (Unit {0}) × Receiver → Result (Unit {0}) × Receiver
then_put_async item (ok u, r) = (ok tt, put_async item r)
then_put_async item (err e, r) = (err e, r)

unfoldable pub put : Message → Receiver → Result (Unit {0}) × Receiver
unfolding put_nowait put_async
put m r = if r.closed then (ok tt, r) else then_put_async (message m) (put_nowait (message m) r)

unfoldable pub close : Receiver → Result (Unit {0}) × Receiver
unfolding put_nowait put_async
close r = then_put_async sentinel (put_nowait sentinel (record r { closed = true }))

-- `qsize()` of the synchronous queue.
unfoldable pub pending : Receiver → ℕ
pending r = length r.sync_queue

-- What one round of an iterator gives: a message, the end of the iteration, or more waiting.
pub data Step : Type 0 where
  item : Message → Step
  stop wait : Step

-- One round of the loop in `__next__`: `get(timeout=0.5)` and what follows it. On `wait` the loop
-- goes round again.
unfoldable pub poll : Receiver → Step × Receiver
poll r = elim r.sync_queue [
  | message m ∷ rest ↦ (item m, record r { sync_queue = rest })
  | sentinel ∷ rest ↦ (stop, record r { sync_queue = rest })
  | [] ↦ (if r.closed then stop else wait, r)
]

-- `__anext__`: what `await q.get()` gives at once; on `wait` the task is suspended.
unfoldable pub poll_async : Bool → Receiver → Step × Receiver
unfolding ensure_async_queue
poll_async in_loop r =
    let r' = ensure_async_queue in_loop r in
    elim r'.async_queue [
      | none ↦ (wait, r')
      | some [] ↦ (wait, r')
      | some (message m ∷ rest) ↦ (item m, record r' { async_queue = some rest })
      | some (sentinel ∷ rest) ↦ (stop, record r' { async_queue = some rest })
    ]

-- The event loop runs the oldest scheduled `put_nowait`.
unfoldable pub deliver : Receiver → Receiver
deliver r = elim r.scheduled [
  | [] ↦ r
  | x ∷ rest ↦ elim r.async_queue [
    | none ↦ record r { scheduled = rest }
    | some q ↦ record r { scheduled = rest; async_queue = some (q ++ x ∷ []) }
  ]
]

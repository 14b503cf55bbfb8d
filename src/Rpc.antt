-- ===== src/Rpc.antt =====
-- src/opensomeip/rpc.py: `RpcClient`. The futures of `call_async` stay in use after they leave
-- `_pending`, so that `futures` has each under a number, and `pending` has the numbers.
pub mod Calls
pub mod Correlation
pub mod Pending
pub mod Server
pub mod Requests
use Prim.Native.Nat.{bit_and}
use opensomeip_python.Prelude.{
  ℕ, suc, ◌+◌, ◌==◌, Bool, true, false, not, Option, none, some, List, [], ◌∷◌, ◌++◌, if◌then◌else◌,
  or_else,
}
use opensomeip_python.Prelude.Int.{pos}
use opensomeip_python.Prelude.Dict.{Dict, lookup, insert, erase}
use opensomeip_python.Exceptions.{
  Exn, Result, ok, err, bind, map_result, library, rpc_error, invalid_state_error,
}
use opensomeip_python.Types.Enums.{response, e_ok, ReturnCode}
use opensomeip_python.Types.MessageId
use opensomeip_python.Types.MessageId.{MessageId}
use opensomeip_python.Types.RequestId
use opensomeip_python.Message.{Message, make_message}
use opensomeip_python.Bridge.{to_cpp_message, from_cpp_message}
use opensomeip_python.Receiver
use opensomeip_python.Receiver.{Receiver, close}
use opensomeip_python.Transport.{Transport, send}
use opensomeip_python.Native.Calls.{
  CppMessage, Call, Native, rpc_client_initialize, rpc_client_shutdown, rpc_server_initialize,
  rpc_server_shutdown, call_method_sync, call_method_async, register_method,
}
use opensomeip_python.Native.Run.{
  Exec, next, ◌>>=◌, ◌>>◌, pure, raise, lift, get, modify, attempt, when, invoke, within,
}

pub data Future : Type 0 where
  waiting cancelled : Future
  done : Message → Future

pub record RpcClient : Type 0 where
  pub running : Bool
  pub session_counter : ℕ
  pub client_id : ℕ
  pub pending : Dict ℕ
  pub cpp : Bool
  pub futures : Dict Future
  pub next_future : ℕ

-- `RpcClient(transport, client_id=client_id)`
unfoldable pub new_client : Bool → ℕ → RpcClient
new_client ext client_id = record {
  running = false;
  session_counter = 0;
  client_id = client_id;
  pending = [];
  cpp = ext;
  futures = [];
  next_future = 0;
}

-- `future.cancel()` where it is not done.
abbrev pub cancel : Future → Future
cancel (done m) = done m
cancel _ = cancelled

-- Changes the future with this number.
unfoldable pub on_future : ℕ → (Future → Future) → Dict Future → Dict Future
unfolding lookup insert
on_future k f futures = elim (lookup k futures) [ none ↦ futures | some x ↦ insert k (f x) futures ]

unfoldable pub cancel_all : Dict ℕ → Dict Future → Dict Future
unfolding on_future
cancel_all [] futures = futures
cancel_all ((session, k) ∷ pending) futures = cancel_all pending (on_future k cancel futures)

-- `_next_session`
unfoldable pub next_session : RpcClient → RpcClient
next_session c = record c { session_counter = bit_and (c.session_counter + 1) 0xffff }

-- The answer that a call returns.
unfoldable pub answer : MessageId → ℕ → ℕ → List ℕ → Result Message
unfolding make_message
answer method_id client_id session payload =
    map_result (λ rid. make_message method_id rid response e_ok payload)
      (RequestId.new (pos client_id) (pos session))

-- `except RpcError: raise` and `except Exception`.
abbrev pub as_rpc_error : {S A : Type 0} → Exec S A → Exec S A
as_rpc_error m s l =
    let (r, s', l') = m s l in (elim r [ ok a ↦ ok a | err e ↦ err (library rpc_error) ], s', l')

abbrev pub bytes_or_empty : Option (List ℕ) → List ℕ
bytes_or_empty none = []
bytes_or_empty (some bytes) = bytes

module _ (native : Native) where
  unfoldable pub start_client : Exec RpcClient (Unit {0})
  start_client = do
    c ← get
    when c.cpp (attempt (invoke native rpc_client_initialize))
    modify (λ d. record d { running = true })

  unfoldable pub stop_client : Exec RpcClient (Unit {0})
  unfolding cancel_all
  stop_client = do
    c ← get
    when c.cpp (attempt (invoke native rpc_client_shutdown))
    modify
        (λ d. record d { running = false; futures = cancel_all d.pending d.futures; pending = [] })

  -- `with` and `async with` on the object.
  unfoldable pub with_client : {A : Type 0} → Exec RpcClient A → Exec RpcClient A
  unfolding start_client stop_client
  with_client = within start_client stop_client

  -- The `try` block of `call`.
  unfoldable pub call_native : MessageId → List ℕ → Exec RpcClient Message
  unfolding next_session answer
  call_native method_id payload = do
    reply ← invoke native (call_method_sync method_id.service_id method_id.method_id payload)
    if reply.0 == 0
        then (do
          modify next_session
          c ← get
          lift (answer method_id c.client_id c.session_counter (bytes_or_empty reply.1)))
        else raise (library rpc_error)

  unfoldable pub call : MessageId → List ℕ → Exec RpcClient Message
  unfolding call_native
  call method_id payload c l =
      if not c.running
      then (err (library rpc_error), c, l)
      else if not c.cpp
      then (err (library rpc_error), c, l)
      else as_rpc_error (call_native method_id payload) c l

  -- `call_async` up to its `await`: the session and the future.
  unfoldable pub begin_call : MessageId → List ℕ → Exec RpcClient (ℕ × ℕ)
  unfolding next_session insert
  begin_call method_id payload c l =
      if not c.running
      then (err (library rpc_error), c, l)
      else if not c.cpp
      then (err (library rpc_error), c, l)
      else (do
        modify next_session
        d ← get
        modify (λ e. record e {
          futures = insert e.next_future waiting e.futures;
          pending = insert e.session_counter e.next_future e.pending;
          next_future = suc e.next_future;
        })
        invoke native
            (call_method_async method_id.service_id method_id.method_id payload d.session_counter)
        pure (d.session_counter, d.next_future))
          c l

-- `future.set_result`, which the event loop runs. On a future that is done or cancelled it raises
-- InvalidStateError and changes nothing.
abbrev pub set_result : Message → Future → Result Future
set_result m waiting = ok (done m)
set_result m f = err invalid_state_error

-- Runs the scheduled `future.set_result(py_msg)` on the future with this number.
unfoldable pub deliver : ℕ → Message → RpcClient → Result (Unit {0}) × RpcClient
unfolding lookup insert
deliver k m c = elim (lookup k c.futures) [
  | none ↦ (ok tt, c)
  | some f ↦ elim (set_result m f) [
    | err e ↦ (err e, c)
    | ok g ↦ (ok tt, record c { futures = insert k g c.futures })
  ]
]

-- `_on_response` of the call with this session and future, and the callback that it schedules. The
-- result is what it raises in the thread of the extension, or what the callback raises in the loop.
unfoldable pub on_response :
    MessageId → ℕ → ℕ → Option (List ℕ) → RpcClient → Result (Unit {0}) × RpcClient
unfolding answer deliver
on_response method_id session k values c =
    elim (answer method_id c.client_id session (bytes_or_empty values)) [
      | err e ↦ (err e, c)
      | ok m ↦ deliver k m c
    ]

-- How the wait of `call_async` goes on: not yet, with the answer, or with an exception; `none`
-- stands for `CancelledError`, which is no `Exception`.
pub data Awaited : Type 0 where
  still_waiting : Awaited
  returns : Message → Awaited
  raises : Option Exn → Awaited

-- The end of `call_async`, when the wait ends: the flag says whether the time is up. A wait
-- that times out cancels the future.
unfoldable pub end_call : Bool → ℕ → ℕ → RpcClient → Awaited × RpcClient
unfolding lookup insert erase
end_call time_is_up session k c = elim (lookup k c.futures) [
  | none ↦ (still_waiting, c)
  | some (done m) ↦ (returns m, c)
  | some cancelled ↦ (raises none, c)
  | some waiting ↦
      if time_is_up
      then (
        raises (some (library rpc_error)),
        record c { futures = insert k cancelled c.futures; pending = erase session c.pending },
      )
      else (still_waiting, c)
]

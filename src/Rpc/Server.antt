-- ===== src/Rpc/Server.antt =====
-- src/opensomeip/rpc.py: `RpcServer` and `ResponseSender`. The receivers of `incoming_requests` stay
-- in use after they leave `_request_receivers`, so that `receivers` has each under a number.

use opensomeip_python.Prelude.{ℕ, suc, Bool, true, false, none, some, List, [], ◌∷◌}
use opensomeip_python.Prelude.Dict.{Dict, lookup, insert}
use opensomeip_python.Exceptions.{Result, ok, err, map_result}
use opensomeip_python.Types.Enums.{response, ReturnCode}
use opensomeip_python.Types.MessageId
use opensomeip_python.Types.MessageId.{MessageId}
use opensomeip_python.Message.{Message, make_message}
use opensomeip_python.Bridge.{to_cpp_message, from_cpp_message}
use opensomeip_python.Receiver
use opensomeip_python.Receiver.{Receiver, close}
use opensomeip_python.Transport.{Transport, send}
use opensomeip_python.Native.Calls.{
  CppMessage, Native, rpc_server_initialize, rpc_server_shutdown, register_method,
}
use opensomeip_python.Native.Run.{
  Exec, next, ◌>>=◌, ◌>>◌, get, modify, attempt, when, invoke, within,
}

-- `ResponseSender.send` with `RpcServer._send_response`, on the server's transport.
unfoldable pub send_response : Native → Message → List ℕ → ReturnCode → Exec Transport (Unit {0})
unfolding make_message
send_response native request payload code =
    send native (make_message request.message_id request.request_id response code payload) none

-- A method handler, over the state that handlers share.
abbrev pub Handler : Type 0 → Type 0
Handler S = Message → S → Result Message × S

pub record RpcServer (S : Type 0) : Type 0 where
  pub running : Bool
  pub handlers : Dict (Handler S)
  pub async_handlers : Dict (Handler S)
  pub request_receivers : Dict ℕ
  pub cpp : Bool
  pub receivers : Dict Receiver
  pub next_receiver : ℕ

module _ {S : Type 0} where
  -- `RpcServer(transport)`
  unfoldable pub new_server : Bool → RpcServer S
  new_server ext = record {
    running = false;
    handlers = [];
    async_handlers = [];
    request_receivers = [];
    cpp = ext;
    receivers = [];
    next_receiver = 0;
  }

  -- `receiver.close()` for each receiver, up to the first that raises.
  unfoldable pub close_each : Dict ℕ → Exec (RpcServer S) (Unit {0})
  unfolding lookup insert close
  close_each [] s l = (ok tt, s, l)
  close_each ((method, k) ∷ rest) s l = elim (lookup k s.receivers) [
    | none ↦ close_each rest s l
    | some r ↦
        next ((close r).0, record s { receivers = insert k (close r).1 s.receivers }, l)
          λ _. close_each rest
  ]

  module _ (native : Native) where
    unfoldable pub start_server : Exec (RpcServer S) (Unit {0})
    start_server = do
      s ← get
      when s.cpp (attempt (invoke native rpc_server_initialize))
      modify (λ t. record t { running = true })

    unfoldable pub stop_server : Exec (RpcServer S) (Unit {0})
    unfolding close_each
    stop_server = do
      s ← get
      when s.cpp (attempt (invoke native rpc_server_shutdown))
      modify (λ t. record t { running = false })
      close_each s.request_receivers
      modify (λ t. record t { request_receivers = [] })

    -- `with` and `async with` on the object.
    unfoldable pub with_server : {A : Type 0} → Exec (RpcServer S) A → Exec (RpcServer S) A
    unfolding start_server stop_server
    with_server = within start_server stop_server

    unfoldable pub register_handler : MessageId → Handler S → Exec (RpcServer S) (Unit {0})
    unfolding insert MessageId.value
    register_handler method_id handler = do
      s ← get
      modify (λ t. record t { handlers = insert (MessageId.value method_id) handler t.handlers })
      when s.cpp (invoke native (register_method method_id.method_id))

  unfoldable pub register_async_handler : MessageId → Handler S → RpcServer S → RpcServer S
  unfolding insert MessageId.value
  register_async_handler method_id handler s = record s {
    async_handlers = insert (MessageId.value method_id) handler s.async_handlers;
  }

  -- `incoming_requests`, which returns the new receiver, here its number.
  unfoldable pub incoming_requests : MessageId → RpcServer S → ℕ × RpcServer S
  unfolding insert MessageId.value
  incoming_requests method_id s = (
    s.next_receiver,
    record s {
      request_receivers = insert (MessageId.value method_id) s.next_receiver s.request_receivers;
      receivers = insert s.next_receiver (Receiver.new 0) s.receivers;
      next_receiver = suc s.next_receiver;
    },
  )

  -- `_cpp_handler`
  unfoldable pub handle_request : Handler S → CppMessage → S → Result CppMessage × S
  unfolding from_cpp_message to_cpp_message
  handle_request handler cpp_req s = elim (from_cpp_message cpp_req) [
    | err e ↦ (err e, s)
    | ok m ↦ (map_result to_cpp_message (handler m s).0, (handler m s).1)
  ]

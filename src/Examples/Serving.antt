-- ===== src/Examples/Serving.antt =====
-- The loop of the servers in examples/ that reply on their UDP transport: it looks up a handler by
-- the method of each request that the receiver yields. `G` has the program's global variables.
pub mod Replies
use opensomeip_python.Prelude.{
  ℕ, Bool, true, false, ◌&&◌, Option, none, some, List, [], ◌∷◌, ◌==◌, if◌then◌else◌,
}
use opensomeip_python.Prelude.Dict.{Dict, lookup}
use opensomeip_python.Exceptions.{Result, ok}
use opensomeip_python.Endpoint.{Endpoint}
use opensomeip_python.Types.Enums.{MessageType, request, response, e_ok, type_code}
use opensomeip_python.Message.{Message, make_message}
use opensomeip_python.Transport.{Transport, send}
use opensomeip_python.Native.Calls.{Call, Native}
use opensomeip_python.Native.Run.{Exec, next, ◌>>=◌, ◌>>◌, pure, zoom, local}

pub record Program (G : Type 0) : Type 0 where
  pub globals : G
  pub transport : Transport

abbrev pub Handler : Type 0 → Type 0
Handler G = List ℕ → G → Result (List ℕ) × G

-- A request to the service.
abbrev pub is_wanted : ℕ → Message → Bool
is_wanted service m =
    m.message_id.service_id == service && type_code m.message_type == type_code request

abbrev pub reply_to : Message → List ℕ → Message
reply_to m bytes = make_message m.message_id m.request_id response e_ok bytes

module _ {G : Type 0} (native : Native) where
  abbrev pub on_transport : {A : Type 0} → Exec Transport A → Exec (Program G) A
  on_transport = zoom (λ p. p.transport) (λ p t. record p { transport = t })

  -- `transport.send(response, msg.source_endpoint)`, where `response` has the handler's result.
  unfoldable pub run_handler : Message → Option (Handler G) → Exec (Program G) (Unit {0})
  unfolding make_message send
  run_handler m none = pure tt
  run_handler m (some handler) = do
    bytes ← zoom (λ p. p.globals) (λ p g. record p { globals = g }) (local (handler m.payload))
    on_transport (send native (reply_to m bytes) m.source_endpoint)

  -- The body of the loop.
  unfoldable pub handle : ℕ → Dict (Handler G) → Message → Exec (Program G) (Unit {0})
  unfolding run_handler lookup
  handle service handlers m p l =
      if is_wanted service m
      then run_handler m (lookup m.message_id.method_id handlers) p l
      else (ok tt, p, l)

  -- The loop, over the messages that the receiver yields before it ends.
  unfoldable pub serve : ℕ → Dict (Handler G) → List Message → Exec (Program G) (Unit {0})
  unfolding handle
  serve service handlers [] = pure tt
  serve service handlers (m ∷ ms) = handle service handlers m >> serve service handlers ms

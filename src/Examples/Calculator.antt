-- ===== src/Examples/Calculator.antt =====
-- examples/basic/method_calls: the calculator's server and its client. What the client prints is
-- returned, `none` for a failed call.
pub mod Sums
use opensomeip_python.Prelude.{
  ℕ, suc, Bool, true, false, ◌&&◌, Option, none, some, List, [], ◌∷◌, ◌++◌, ltb, length, take, drop,
  ◌==◌, if◌then◌else◌,
}
use opensomeip_python.Prelude.Int.{ℤ, pos, negsuc, ◌+ℤ◌, ◌*ℤ◌}
use opensomeip_python.Prelude.Dict.{Dict}
use opensomeip_python.Exceptions.{Result, ok, err, bind, map_result}
use opensomeip_python.Endpoint.{Endpoint}
use opensomeip_python.Types.Enums.{response, type_code}
use opensomeip_python.Message.{Message}
use opensomeip_python.Serialization.Struct.{
  pack_signed, pack_unsigned, unpack_signed, unpack_unsigned,
}
use opensomeip_python.Transport
use opensomeip_python.Transport.{Transport, new_udp, send}
use opensomeip_python.Native.Calls.{Call, Native}
use opensomeip_python.Native.Run.{Exec, next, ◌>>=◌, ◌>>◌, pure, lift}
use opensomeip_python.Examples.Serving
use opensomeip_python.Examples.Serving.{Program, Handler, serve}
use opensomeip_python.Examples.Requesting
use opensomeip_python.Examples.Requesting.{Client, new_request, wait_for, decoded}

abbrev pub service : ℕ
service = 0x2000

abbrev pub add_method : ℕ
add_method = 1

abbrev pub multiply_method : ℕ
multiply_method = 2

abbrev pub get_stats_method : ℕ
get_stats_method = 3

-- `a, b = struct.unpack("!ii", payload[:8])`
abbrev pub first_operand : List ℕ → ℤ
first_operand payload = unpack_signed 4 (take 4 (take 8 payload))

abbrev pub second_operand : List ℕ → ℤ
second_operand payload = unpack_signed 4 (drop 4 (take 8 payload))

-- The handlers, over `total_calls`.
unfoldable pub handle_add : Handler ℕ
unfolding unpack_signed pack_signed take drop
handle_add payload total_calls =
    if ltb (length payload) 8
    then (ok [], total_calls)
    else (pack_signed 4 (first_operand payload +ℤ second_operand payload), suc total_calls)

unfoldable pub handle_multiply : Handler ℕ
unfolding unpack_signed pack_signed take drop
handle_multiply payload total_calls =
    if ltb (length payload) 8
    then (ok [], total_calls)
    else (pack_signed 4 (first_operand payload *ℤ second_operand payload), suc total_calls)

unfoldable pub handle_get_stats : Handler ℕ
unfolding pack_unsigned
handle_get_stats payload total_calls = (pack_unsigned 4 (pos total_calls), total_calls)

-- `HANDLERS`
unfoldable pub handlers : Dict (Handler ℕ)
unfolding handle_add handle_multiply handle_get_stats
handlers =
    (add_method, handle_add)
    ∷ (multiply_method, handle_multiply)
    ∷ (get_stats_method, handle_get_stats)
    ∷ []

abbrev pub any_address : ℕ → Endpoint
any_address port = record { ip = "0.0.0.0"; port = port }

unfoldable pub new_server : Bool → Program ℕ
unfolding new_udp
new_server ext = record { globals = 0; transport = new_udp ext (any_address 30491) none none }

abbrev pub server_endpoint : Endpoint
server_endpoint = record { ip = "127.0.0.1"; port = 30491 }

unfoldable pub new_client : Bool → Client
unfolding new_udp
new_client ext = record {
  session_counter = 0;
  transport = new_udp ext (any_address 0) (some server_endpoint) none;
}

-- The tests of `call_method` on the message that it gets.
abbrev pub is_response : ℕ → Message → Bool
is_response method m =
    m.message_id.service_id == service
    && (m.message_id.method_id == method && type_code m.message_type == type_code response)

-- `struct.pack("!ii", a, b)`
abbrev pub operands : ℤ → ℤ → Result (List ℕ)
operands a b = bind (pack_signed 4 a) (λ x. map_result (λ y. x ++ y) (pack_signed 4 b))

abbrev pub first_signed : List ℕ → ℤ
first_signed bytes = unpack_signed 4 (take 4 bytes)

abbrev pub first_unsigned : List ℕ → ℤ
first_unsigned bytes = unpack_unsigned 4 (take 4 bytes)

module _ (native : Native) where
  -- `main` of the server, over the requests that its receiver yields.
  unfoldable pub server_main : List Message → Exec (Program ℕ) (Unit {0})
  unfolding serve handlers Transport.start
  server_main requests =
      Serving.on_transport native (Transport.start native) >> serve native service handlers requests

  unfoldable pub call_method : ℕ → List ℕ → List Message → Exec Client (Option (List ℕ))
  unfolding new_request wait_for send
  call_method method payload arriving = do
    m ← new_request service method 0xabcd payload
    Requesting.on_transport (send native m (some server_endpoint))
    Requesting.on_transport (wait_for (is_response method) arriving)

  unfoldable pub test_add : ℤ → ℤ → List Message → Exec Client (Option ℤ)
  unfolding call_method pack_signed unpack_signed take
  test_add a b arriving = do
    payload ← lift (operands a b)
    result ← call_method add_method payload arriving
    pure (decoded 4 first_signed result)

  unfoldable pub test_multiply : ℤ → ℤ → List Message → Exec Client (Option ℤ)
  unfolding call_method pack_signed unpack_signed take
  test_multiply a b arriving = do
    payload ← lift (operands a b)
    result ← call_method multiply_method payload arriving
    pure (decoded 4 first_signed result)

  unfoldable pub test_get_stats : List Message → Exec Client (Option ℤ)
  unfolding call_method unpack_unsigned take
  test_get_stats arriving = do
    result ← call_method get_stats_method [] arriving
    pure (decoded 4 first_unsigned result)

  -- `main` of the client; `arriving k` has what arrives during its k-th call.
  unfoldable pub client_main : (ℕ → List Message) → Exec Client (List (Option ℤ))
  unfolding test_add test_multiply test_get_stats Transport.start Transport.stop
  client_main arriving = do
    Requesting.on_transport (Transport.start native)
    a ← test_add (pos 10) (pos 5) (arriving 0)
    b ← test_add (negsuc 2) (pos 7) (arriving 1)
    c ← test_add (pos 1000) (pos 2000) (arriving 2)
    d ← test_multiply (pos 6) (pos 7) (arriving 3)
    e ← test_multiply (negsuc 3) (pos 5) (arriving 4)
    f ← test_multiply (pos 25) (pos 4) (arriving 5)
    g ← test_get_stats (arriving 6)
    Requesting.on_transport (Transport.stop native)
    pure (a ∷ b ∷ c ∷ d ∷ e ∷ f ∷ g ∷ [])

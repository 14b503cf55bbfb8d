-- ===== src/Rpc/Requests.antt =====
-- What `ResponseSender` sends back on a transport without a remote endpoint.
use opensomeip_python.Prelude.{ℕ, ◌≡◌, none, List, arith}
use opensomeip_python.Exceptions.{err, library, transport_error}
use opensomeip_python.Types.Enums.{ReturnCode}
use opensomeip_python.Message.{Message, make_message}
use opensomeip_python.Native.Calls.{Call, Native}
use opensomeip_python.Transport.{Transport, send}
use opensomeip_python.Rpc.Server.{send_response}

-- Without a remote endpoint of the transport every response raises `TransportError`, and no call
-- is made: the source endpoint of the request is not passed on.
pub send_response_fails :
    (native : Native) (request : Message) (payload : List ℕ) (code : ReturnCode) (t : Transport)
    (l : List Call)
    → t.remote_endpoint ≡ none
    → send_response native request payload code t l ≡ (err (library transport_error), t, l)
unfolding send_response send make_message
send_response_fails native request payload code t l h = ground (arith, h)

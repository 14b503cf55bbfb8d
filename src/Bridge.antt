-- ===== src/Bridge.antt =====
-- src/opensomeip/_bridge.py: conversions between the Python types and the extension's.
pub mod Laws
pub mod Extension
pub mod Loading
use opensomeip_python.Prelude.{Bool, true, false}
use opensomeip_python.Prelude.Int.{pos}
use opensomeip_python.Exceptions.{Result, ok, err, bind, runtime_error}
use opensomeip_python.Endpoint
use opensomeip_python.Endpoint.{Endpoint}
use opensomeip_python.Types.Enums.{message_type, return_code, type_code, return_value}
use opensomeip_python.Types.MessageId
use opensomeip_python.Types.MessageId.{MessageId}
use opensomeip_python.Types.RequestId
use opensomeip_python.Types.RequestId.{RequestId}
use opensomeip_python.Message.{Message, make_message, with_interface_version}
use opensomeip_python.Native.Calls.{CppMessage, CppService}

-- `require_native()`, where the flag says whether the extension was imported.
unfoldable pub require_native : Bool → Result (Unit {0})
require_native true = ok tt
require_native false = err runtime_error

-- `to_cpp_message`. `ext.Message(…)` has protocol version 1.
unfoldable pub to_cpp_message : Message → CppMessage
to_cpp_message m = record {
  message_id = m.message_id;
  request_id = m.request_id;
  message_type = type_code m.message_type;
  return_code = return_value m.return_code;
  protocol_version = 1;
  interface_version = m.interface_version;
  payload = m.payload;
}

-- `from_cpp_message`: each of the Python classes checks its values again.
unfoldable pub from_cpp_message : CppMessage → Result Message
from_cpp_message c =
    bind (MessageId.new (pos c.message_id.service_id) (pos c.message_id.method_id)) λ mid.
      bind (RequestId.new (pos c.request_id.client_id) (pos c.request_id.session_id)) λ rid.
        bind (message_type c.message_type) λ type. bind (return_code c.return_code) λ code.
          with_interface_version (make_message mid rid type code c.payload)
            (pos c.interface_version)

-- `from_cpp_endpoint`
unfoldable pub from_cpp_endpoint : Endpoint → Result Endpoint
from_cpp_endpoint e = Endpoint.new e.ip (pos e.port)

-- `to_cpp_endpoint`: the extension's endpoint has an address and a port.
unfoldable pub to_cpp_endpoint : Bool → Endpoint → Result Endpoint
unfolding require_native
to_cpp_endpoint ext e = bind (require_native ext) λ _. ok (record { ip = e.ip; port = e.port })

-- `to_cpp_message_id`
unfoldable pub to_cpp_message_id : Bool → MessageId → Result MessageId
unfolding require_native
to_cpp_message_id ext m =
    bind (require_native ext)
      λ _. ok (record { service_id = m.service_id; method_id = m.method_id })

-- `from_cpp_message_id`
unfoldable pub from_cpp_message_id : MessageId → Result MessageId
from_cpp_message_id c = MessageId.new (pos c.service_id) (pos c.method_id)

-- `to_cpp_request_id`
unfoldable pub to_cpp_request_id : Bool → RequestId → Result RequestId
unfolding require_native
to_cpp_request_id ext r =
    bind (require_native ext)
      λ _. ok (record { client_id = r.client_id; session_id = r.session_id })

-- `from_cpp_request_id`
unfoldable pub from_cpp_request_id : RequestId → Result RequestId
from_cpp_request_id c = RequestId.new (pos c.client_id) (pos c.session_id)

-- ===== src/Message.antt =====
-- src/opensomeip/message.py. A payload is the list of its bytes.
pub mod Laws
use opensomeip_python.Prelude.{
  ℕ, ◌≡◌, refl, Bool, true, false, ◌&&◌, Option, none, some, List, [], arith, ◌==◌, bytes_eq,
  if◌then◌else◌,
}
use opensomeip_python.Prelude.Int.{ℤ, pos, in_range, to_ℕ}
use opensomeip_python.Exceptions.{Result, ok, err, value_error}
use opensomeip_python.Endpoint.{Endpoint}
use opensomeip_python.Types.Enums.{
  MessageType, ReturnCode, ProtocolVersion, request, e_ok, version_1, type_code, return_value,
}
use opensomeip_python.Types.MessageId
use opensomeip_python.Types.MessageId.{MessageId}
use opensomeip_python.Types.RequestId
use opensomeip_python.Types.RequestId.{RequestId}

pub record Message : Type 0 where
  pub message_id : MessageId
  pub request_id : RequestId
  pub message_type : MessageType
  pub return_code : ReturnCode
  pub protocol_version : ProtocolVersion
  pub interface_version : ℕ
  pub payload : List ℕ
  pub source_endpoint : Option Endpoint

-- `Message()`: every field at its default.
abbrev pub default_message : Message
default_message = record {
  message_id = record { service_id = 0; method_id = 0 };
  request_id = record { client_id = 0; session_id = 0 };
  message_type = request;
  return_code = e_ok;
  protocol_version = version_1;
  interface_version = 1;
  payload = [];
  source_endpoint = none;
}

-- The check of `__post_init__` on a message whose other fields are given.
unfoldable pub with_interface_version : Message → ℤ → Result Message
with_interface_version m v =
    if in_range v 0xff then ok (record m { interface_version = to_ℕ v }) else err value_error

-- `Message(message_id=…, request_id=…, message_type=…, return_code=…, payload=…)`. The default
-- interface version passes the check.
unfoldable pub make_message : MessageId → RequestId → MessageType → ReturnCode → List ℕ → Message
make_message mid rid type code payload = record {
  message_id = mid;
  request_id = rid;
  message_type = type;
  return_code = code;
  protocol_version = version_1;
  interface_version = 1;
  payload = payload;
  source_endpoint = none;
}

-- `__eq__` between two messages.
unfoldable pub message_eq : Message → Message → Bool
message_eq a b =
    MessageId.id_eq a.message_id b.message_id
    && (RequestId.id_eq a.request_id b.request_id
        && (type_code a.message_type == type_code b.message_type
            && (return_value a.return_code == return_value b.return_code
                && (a.interface_version == b.interface_version && bytes_eq a.payload b.payload))))

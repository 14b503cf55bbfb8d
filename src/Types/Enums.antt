-- ===== src/Types/Enums.antt =====
-- The `IntEnum` classes of src/opensomeip/types.py. Calling such a class on an integer looks the
-- value up, and raises `ValueError` when no member has it.
use opensomeip_python.Prelude.{ℕ, ◌≡◌, refl, ◌==◌, if◌then◌else◌}
use opensomeip_python.Exceptions.{Result, ok, err, value_error}

pub data MessageType : Type 0 where
  request request_no_return notification request_ack : MessageType
  response error response_ack error_ack : MessageType
  tp_request tp_request_no_return tp_notification : MessageType

-- int(t)
unfoldable pub type_code : MessageType → ℕ
type_code request = 0x00
type_code request_no_return = 0x01
type_code notification = 0x02
type_code request_ack = 0x40
type_code response = 0x80
type_code error = 0x81
type_code response_ack = 0xc0
type_code error_ack = 0xc1
type_code tp_request = 0x20
type_code tp_request_no_return = 0x21
type_code tp_notification = 0x22

-- MessageType(n)
unfoldable pub message_type : ℕ → Result MessageType
message_type n =
    if n == 0x00
    then ok request
    else if n == 0x01
    then ok request_no_return
    else if n == 0x02
    then ok notification
    else if n == 0x40
    then ok request_ack
    else if n == 0x80
    then ok response
    else if n == 0x81
    then ok error
    else if n == 0xc0
    then ok response_ack
    else if n == 0xc1
    then ok error_ack
    else if n == 0x20
    then ok tp_request
    else if n == 0x21
    then ok tp_request_no_return
    else if n == 0x22
    then ok tp_notification
    else err value_error

pub data ReturnCode : Type 0 where
  e_ok e_not_ok e_unknown_service e_unknown_method e_not_ready e_not_reachable : ReturnCode
  e_timeout e_wrong_protocol_version e_wrong_interface_version e_malformed_message : ReturnCode
  e_wrong_message_type e_e2e_repeated e_e2e_wrong_sequence e_e2e e_e2e_not_available : ReturnCode
  e_e2e_no_new_data : ReturnCode

-- int(c)
unfoldable pub return_value : ReturnCode → ℕ
return_value e_ok = 0x00
return_value e_not_ok = 0x01
return_value e_unknown_service = 0x02
return_value e_unknown_method = 0x03
return_value e_not_ready = 0x04
return_value e_not_reachable = 0x05
return_value e_timeout = 0x06
return_value e_wrong_protocol_version = 0x07
return_value e_wrong_interface_version = 0x08
return_value e_malformed_message = 0x09
return_value e_wrong_message_type = 0x0a
return_value e_e2e_repeated = 0x0b
return_value e_e2e_wrong_sequence = 0x0c
return_value e_e2e = 0x0d
return_value e_e2e_not_available = 0x0e
return_value e_e2e_no_new_data = 0x0f

-- ReturnCode(n)
unfoldable pub return_code : ℕ → Result ReturnCode
return_code n =
    if n == 0x00
    then ok e_ok
    else if n == 0x01
    then ok e_not_ok
    else if n == 0x02
    then ok e_unknown_service
    else if n == 0x03
    then ok e_unknown_method
    else if n == 0x04
    then ok e_not_ready
    else if n == 0x05
    then ok e_not_reachable
    else if n == 0x06
    then ok e_timeout
    else if n == 0x07
    then ok e_wrong_protocol_version
    else if n == 0x08
    then ok e_wrong_interface_version
    else if n == 0x09
    then ok e_malformed_message
    else if n == 0x0a
    then ok e_wrong_message_type
    else if n == 0x0b
    then ok e_e2e_repeated
    else if n == 0x0c
    then ok e_e2e_wrong_sequence
    else if n == 0x0d
    then ok e_e2e
    else if n == 0x0e
    then ok e_e2e_not_available
    else if n == 0x0f
    then ok e_e2e_no_new_data
    else err value_error

pub data ProtocolVersion : Type 0 where
  version_1 : ProtocolVersion

pub message_type-type_code : (t : MessageType) → message_type (type_code t) ≡ ok t
unfolding message_type type_code
message_type-type_code request = refl
message_type-type_code _ = refl

pub return_code-return_value : (c : ReturnCode) → return_code (return_value c) ≡ ok c
unfolding return_code return_value
return_code-return_value e_ok = refl
return_code-return_value _ = refl

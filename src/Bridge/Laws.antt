-- ===== src/Bridge/Laws.antt =====
-- A message that crosses to the extension and back.
use opensomeip_python.Prelude.{◌^◌, ◌<◌, ◌≡◌, refl, none, arith, true}
use opensomeip_python.Exceptions.{ok, bind}
use opensomeip_python.Endpoint
use opensomeip_python.Endpoint.{Endpoint}
use opensomeip_python.Types.Enums.{version_1, message_type-type_code, return_code-return_value}
use opensomeip_python.Types.MessageId
use opensomeip_python.Types.RequestId
use opensomeip_python.Message.{Message, make_message, with_interface_version, message_eq}
use opensomeip_python.Message.Laws.{message_eq_iff, protocol_unique}
use opensomeip_python.Bridge.{
  to_cpp_message, from_cpp_message, to_cpp_message_id, from_cpp_message_id, to_cpp_request_id,
  from_cpp_request_id, to_cpp_endpoint, from_cpp_endpoint,
}

-- What the constructors of `Message` and of its identifiers check.
pub record IsWellFormed (m : Message) : Type 0 where
  pub message_id_fits : MessageId.IsValid m.message_id
  pub request_id_fits : RequestId.IsValid m.request_id
  pub interface_fits : m.interface_version < 256

-- A well-formed message that is converted for the extension and back compares equal to itself, and
-- has no source endpoint.
pub message_round_trip :
    (m : Message)
    → IsWellFormed m
    → (back : Message) × (from_cpp_message (to_cpp_message m) ≡ ok back)
      × (message_eq back m ≡ true)
      × (back.source_endpoint ≡ none)
unfolding from_cpp_message to_cpp_message make_message with_interface_version
message_round_trip m w =
    let back : Message = record m { source_endpoint = none; protocol_version = version_1 } in
    (
      back,
      rw
          (
            (MessageId.new_iff _ _ m.message_id).1 (refl, refl, w.message_id_fits),
            (RequestId.new_iff _ _ m.request_id).1 (refl, refl, w.request_id_fits),
            message_type-type_code m.message_type,
            return_code-return_value m.return_code,
          )
          (ground arith),
      (message_eq_iff _ m).1 (record {
        same_message_id = refl;
        same_request_id = refl;
        same_type = refl;
        same_code = refl;
        same_protocol = protocol_unique _ _;
        same_interface = refl;
        same_payload = refl;
      }),
      refl,
    )

-- With the extension valid identifiers and endpoints come back from it unchanged.
pub identifiers_round_trip :
    (m : MessageId.MessageId) (r : RequestId.RequestId) (e : Endpoint)
    → MessageId.IsValid m
    → RequestId.IsValid r
    → e.port < 2 ^ 16
    → (bind (to_cpp_message_id true m) from_cpp_message_id ≡ ok m)
      × (bind (to_cpp_request_id true r) from_cpp_request_id ≡ ok r)
      × (bind (to_cpp_endpoint true e) from_cpp_endpoint ≡ ok e)
unfolding to_cpp_message_id from_cpp_message_id to_cpp_request_id from_cpp_request_id
    to_cpp_endpoint from_cpp_endpoint Endpoint.new
identifiers_round_trip m r e hm hr he = (
  (MessageId.new_iff _ _ m).1 (refl, refl, hm),
  (RequestId.new_iff _ _ r).1 (refl, refl, hr),
  ground arith,
)

-- ===== src/Message/Laws.antt =====
-- Equality of messages.
use opensomeip_python.Prelude.{◌≡◌, refl, ◌↔◌, true, arith, ==_iff, &&_iff, bytes_eq_iff, ap}
use opensomeip_python.Types.Enums.{
  MessageType, ReturnCode, ProtocolVersion, version_1, type_code, return_value,
  message_type-type_code, return_code-return_value, message_type, return_code,
}
use opensomeip_python.Types.MessageId
use opensomeip_python.Types.RequestId
use opensomeip_python.Message.{Message, message_eq}

type_code-injective : (a b : MessageType) → type_code a ≡ type_code b → a ≡ b
type_code-injective a b e =
    ground (arith, message_type-type_code a, message_type-type_code b, ap message_type e)

return_value-injective : (a b : ReturnCode) → return_value a ≡ return_value b → a ≡ b
return_value-injective a b e =
    ground (arith, return_code-return_value a, return_code-return_value b, ap return_code e)

-- What `__eq__` compares: all but where the message came from.
pub record SameContent (a b : Message) : Type 0 where
  pub same_message_id : a.message_id ≡ b.message_id
  pub same_request_id : a.request_id ≡ b.request_id
  pub same_type : a.message_type ≡ b.message_type
  pub same_code : a.return_code ≡ b.return_code
  pub same_protocol : a.protocol_version ≡ b.protocol_version
  pub same_interface : a.interface_version ≡ b.interface_version
  pub same_payload : a.payload ≡ b.payload

pub protocol_unique : (a b : ProtocolVersion) → a ≡ b
protocol_unique version_1 version_1 = refl

content_of_eq : (a b : Message) → message_eq a b ≡ true → SameContent a b
unfolding message_eq
content_of_eq a b h =
    let (mid, h1) = (&&_iff _ _).0 h in
    let (rid, h2) = (&&_iff _ _).0 h1 in
    let (type, h3) = (&&_iff _ _).0 h2 in
    let (code, h4) = (&&_iff _ _).0 h3 in
    let (version, bytes) = (&&_iff _ _).0 h4 in
    record {
      same_message_id = (MessageId.id_eq_iff _ _).0 mid;
      same_request_id = (RequestId.id_eq_iff _ _).0 rid;
      same_type = type_code-injective _ _ ((==_iff _ _).0 type);
      same_code = return_value-injective _ _ ((==_iff _ _).0 code);
      same_protocol = protocol_unique _ _;
      same_interface = (==_iff _ _).0 version;
      same_payload = (bytes_eq_iff _ _).0 bytes;
    }

eq_of_content : (a b : Message) → SameContent a b → message_eq a b ≡ true
unfolding message_eq
eq_of_content a b s = (&&_iff _ _).1 (
  (MessageId.id_eq_iff _ _).1 s.same_message_id,
  (&&_iff _ _).1 (
    (RequestId.id_eq_iff _ _).1 s.same_request_id,
    (&&_iff _ _).1 (
      (==_iff _ _).1 (ap type_code s.same_type),
      (&&_iff _ _).1 (
        (==_iff _ _).1 (ap return_value s.same_code),
        (&&_iff _ _).1 ((==_iff _ _).1 s.same_interface, (bytes_eq_iff _ _).1 s.same_payload),
      ),
    ),
  ),
)

-- Two messages compare equal exactly when they agree in every field but the source endpoint.
pub message_eq_iff : (a b : Message) → (message_eq a b ≡ true) ↔ SameContent a b
message_eq_iff a b = (content_of_eq a b, eq_of_content a b)

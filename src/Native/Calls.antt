-- ===== src/Native/Calls.antt =====
-- The calls that the package makes on the extension, and the types of their results.
use Prim.Native.String.{String}
use opensomeip_python.Prelude.{ℕ, Bool, Option, List}
use opensomeip_python.Exceptions.{Result}
use opensomeip_python.Endpoint.{Endpoint}
use opensomeip_python.Types.MessageId.{MessageId}
use opensomeip_python.Types.RequestId.{RequestId}

-- `ext.Message`, with the properties that the bridge reads and writes.
pub record CppMessage : Type 0 where
  pub message_id : MessageId
  pub request_id : RequestId
  pub message_type : ℕ
  pub return_code : ℕ
  pub protocol_version : ℕ
  pub interface_version : ℕ
  pub payload : List ℕ

-- `ext.sd.ServiceInstance`
pub record CppService : Type 0 where
  pub service_id : ℕ
  pub instance_id : ℕ
  pub major_version : ℕ
  pub minor_version : ℕ

pub data Call : Type 0 where
  -- UdpTransport, TcpTransport
  transport_start transport_stop tcp_disconnect : Call
  send_message : CppMessage → Endpoint → Call
  join_multicast_group : String → Call
  tcp_connect tcp_initialize : Endpoint → Call
  -- TpManager
  tp_initialize tp_shutdown tp_set_message_callback : Call
  tp_needs_segmentation tp_segment_message : CppMessage → Call
  tp_get_next_segment : ℕ → Call
  -- SdServer, SdClient
  sd_server_initialize sd_server_shutdown sd_client_initialize sd_client_shutdown : Call
  sd_offer_service : CppService → Endpoint → Call
  sd_stop_offer_service : ℕ → ℕ → Call
  sd_find_service : ℕ → Call
  sd_subscribe_eventgroup sd_unsubscribe_eventgroup : ℕ → ℕ → ℕ → Call
  -- RpcClient, RpcServer
  rpc_client_initialize rpc_client_shutdown rpc_server_initialize rpc_server_shutdown : Call
  call_method_sync : ℕ → ℕ → List ℕ → Call
  call_method_async : ℕ → ℕ → List ℕ → ℕ → Call
  register_method : ℕ → Call
  -- EventPublisher, EventSubscriber
  publisher_initialize publisher_shutdown subscriber_initialize subscriber_shutdown : Call
  register_event : ℕ → ℕ → Call
  publish_event publish_field : ℕ → List ℕ → Call
  subscribe_eventgroup unsubscribe_eventgroup : ℕ → ℕ → ℕ → Call

-- `start()` returns a result, with its `name == "SUCCESS"`, or an object with no `name`.
-- `segment_message` returns a result and a transfer's number, `get_next_segment` a result's number
-- and a segment's payload, `call_method_sync` a result's number and the returned bytes, if any.
abbrev pub Reply : Call → Type 0
Reply transport_start = Option Bool
Reply (tp_needs_segmentation m) = Bool
Reply (tp_segment_message m) = ℕ × ℕ
Reply (tp_get_next_segment t) = ℕ × List ℕ
Reply (call_method_sync s m params) = ℕ × Option (List ℕ)
Reply _ = Unit {0}

abbrev pub Native : Type 0
Native = List Call → (c : Call) → Result (Reply c)

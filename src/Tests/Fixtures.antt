-- ===== src/Tests/Fixtures.antt =====
-- Concrete inputs.
use opensomeip_python.Prelude.{ℕ, true, false, none, some, List, [], ◌∷◌, ◌==◌, if◌then◌else◌}
use opensomeip_python.Exceptions.{Result, ok, err, native_error}
use opensomeip_python.Endpoint.{Endpoint}
use opensomeip_python.Message.{Message, default_message}
use opensomeip_python.Types.MessageId.{MessageId}
use opensomeip_python.Receiver
use opensomeip_python.Receiver.{Receiver}
use opensomeip_python.Transport.{Transport, udp}
use opensomeip_python.Tp.{TpManager}
use opensomeip_python.Sd.{ServiceInstance, SdConfig}
use opensomeip_python.E2e.Protection.{
  CheckStatus, status_ok, wrong_sequence, E2eConfig, E2eProfile, profile_01,
}
use opensomeip_python.Native.Calls.{
  Native, transport_start, tp_needs_segmentation, tp_segment_message, tp_get_next_segment,
  call_method_sync,
}

abbrev pub here : Endpoint
here = record { ip = "127.0.0.1"; port = 30490 }

abbrev pub there : Endpoint
there = record { ip = "10.0.0.2"; port = 30501 }

abbrev pub method_id : MessageId
method_id = record { service_id = 0x1234; method_id = 0x0001 }

abbrev pub greeting : Message
greeting = record default_message { message_id = method_id; payload = 104 ∷ 105 ∷ [] }

abbrev pub reply : Message
reply = record default_message {
  message_id = method_id;
  payload = 1 ∷ 2 ∷ 3 ∷ [];
  source_endpoint = some there;
}

-- An extension that does what it is asked, one that refuses to start, and one that raises.
abbrev pub obliging : Native
obliging l transport_start = ok (some true)
obliging l (tp_needs_segmentation m) = ok false
obliging l (tp_segment_message m) = ok (0, 0)
obliging l (tp_get_next_segment t) = ok (1, [])
obliging l (call_method_sync s m params) = ok (0, some (7 ∷ []))
obliging l _ = ok tt

abbrev pub refusing : Native
refusing l transport_start = ok (some false)
refusing l _ = err native_error

abbrev pub failing : Native
failing l c = err native_error

abbrev pub stopped_transport : Transport
stopped_transport = record {
  kind = udp;
  local_endpoint = here;
  remote_endpoint = some there;
  running = false;
  receiver = Receiver.new 0;
  cpp = true;
  multicast_group = none;
  connected = false;
}

abbrev pub running_transport : Transport
running_transport = record stopped_transport { running = true }

abbrev pub lost_transport : Transport
lost_transport = record running_transport { remote_endpoint = none }

abbrev pub manager : ℕ → TpManager
manager mtu = record {
  mtu = mtu;
  running = true;
  reassembly_receiver = Receiver.new 0;
  cpp = false;
}

abbrev pub service : ServiceInstance
service = record { service_id = 0x1234; instance_id = 1; major_version = 1; minor_version = 0 }

abbrev pub other_service : ServiceInstance
other_service = record {
  service_id = 0x1235;
  instance_id = 1;
  major_version = 1;
  minor_version = 0;
}

abbrev pub sd_config : SdConfig
sd_config = record {
  multicast_endpoint = record { ip = "239.1.1.1"; port = 30490 };
  unicast_endpoint = here;
  initial_delay_min_ms = 10;
  initial_delay_max_ms = 50;
  repetitions_base_delay_ms = 30;
  repetitions_max = 3;
  cyclic_offer_delay_ms = 1000;
  ttl = 3;
}

abbrev pub e2e_config : E2eConfig
e2e_config = record {
  profile_id = profile_01;
  data_id = 1;
  data_length = 8;
  max_delta_counter = 1;
  crc_offset = 0;
  counter_offset = 1;
}

-- A profile that puts the counter in front, and checks that it is there.
abbrev pub check_front : List ℕ → ℕ → Result CheckStatus
check_front [] counter = ok wrong_sequence
check_front (x ∷ xs) counter = if x == counter then ok status_ok else ok wrong_sequence

abbrev pub counting_profile : E2eProfile
counting_profile = record {
  protect_bytes = λ payload counter. ok (counter ∷ payload);
  check_bytes = check_front;
}

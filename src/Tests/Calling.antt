-- ===== src/Tests/Calling.antt =====
-- Calls and requests at concrete inputs.
use opensomeip_python.Prelude.{
  ℕ, ◌≡◌, ◌+◌, ◌%◌, refl, true, false, Option, none, some, List, [], ◌∷◌, arith,
}
use opensomeip_python.Prelude.Dict.{lookup}
use opensomeip_python.Exceptions.{Result, ok, err, library, rpc_error, invalid_state_error}
use opensomeip_python.Types.Enums.{response, e_ok}
use opensomeip_python.Types.RequestId
use opensomeip_python.Types.RequestId.{RequestId}
use opensomeip_python.Message.{Message, make_message}
use opensomeip_python.Native.Calls.{Call, call_method_sync}
use opensomeip_python.Rpc
use opensomeip_python.Rpc.{
  RpcClient, Future, waiting, done, cancelled, stop_client, begin_call, on_response, end_call,
  returns, raises, answer, bytes_or_empty, next_session,
}
use opensomeip_python.Rpc.Calls.{begin_all, Numbered, begin_all-sessions}
use opensomeip_python.Rpc.Pending.{cancelled_if, is_pending, stop_client-futures, late_answer}
use opensomeip_python.Receiver
use opensomeip_python.Server.{mode_udp, protect_if}
use opensomeip_python.Client
use opensomeip_python.Client.{SomeIpClient, ClientConfig, check_if}
use opensomeip_python.Client.Shutdown
use opensomeip_python.Client.Shutdown.{IsUnbounded, IsDown}
use opensomeip_python.Transport
use opensomeip_python.Receiver.{close}
use opensomeip_python.Client.Checked.{call-checked}
use opensomeip_python.Tests.Fixtures.{
  here, there, obliging, failing, method_id, running_transport, sd_config,
}

abbrev client : RpcClient
client = record {
  running = true;
  session_counter = 65535;
  client_id = 1;
  pending = (65535, 0) ∷ [];
  cpp = true;
  futures = (0, waiting) ∷ [];
  next_future = 1;
}

stop_client-futures_example :
    let t = stop_client failing client [] in
    (t.0 ≡ ok tt)
    × (t.1.running ≡ false)
    × (t.1.pending ≡ [])
    × (lookup 0 t.1.futures ≡ cancelled_if (is_pending 0 client.pending) (lookup 0 client.futures))
stop_client-futures_example = stop_client-futures failing client [] 0

abbrev sent : Result (ℕ × ℕ) × RpcClient × List Call
sent = begin_call obliging method_id (9 ∷ []) client []

abbrev answer_message : Message
answer_message =
    make_message method_id (record { client_id = 1; session_id = 0 }) response e_ok (7 ∷ [])

was_sent : sent.0 ≡ ok (0, 1)
unfolding begin_call next_session
was_sent = refl

answers : answer method_id sent.1.client_id 0 (bytes_or_empty (some (7 ∷ []))) ≡ ok answer_message
unfolding begin_call next_session answer RequestId.new
answers = refl

abbrev client_config : ClientConfig
client_config = record {
  local_endpoint = here;
  sd_config = sd_config;
  transport_mode = mode_udp;
  multicast_group = none;
  remote_endpoint = some there;
  enable_tp = false;
  tp_mtu = 1400;
  e2e_config = none;
  e2e_profile = none;
}

abbrev pub some_ip_client : SomeIpClient
some_ip_client = record {
  config = client_config;
  transport = running_transport;
  sd_client = record {
    config = sd_config;
    running = true;
    find_receiver = none;
    cpp = true;
    receivers = [];
    next_receiver = 0;
  };
  rpc_client = client;
  event_subscriber = record {
    running = true;
    notification_receiver = Receiver.new 0;
    status_receiver = none;
    subscribed_groups = [];
    cpp = true;
  };
  tp_manager = none;
  e2e = none;
  running = true;
}

calls : (Client.call obliging method_id (9 ∷ []) some_ip_client []).0 ≡ ok answer_message
unfolding Client.call Rpc.call RequestId.new Rpc.answer Rpc.next_session
calls = refl

call-checked_example :
    (bytes : List ℕ) × (values : Option (List ℕ)) × ((protect_if (9 ∷ []) none).0 ≡ ok bytes)
    × (obliging [] (call_method_sync 0x1234 1 bytes) ≡ ok (0, values))
    × (answer_message.payload ≡ bytes_or_empty values)
    × (answer_message.message_id ≡ method_id)
    × (check_if answer_message (protect_if (9 ∷ []) none).1 ≡ ok answer_message)
call-checked_example =
    call-checked obliging method_id (9 ∷ []) some_ip_client [] answer_message calls

some_ip_client-IsUnbounded : IsUnbounded some_ip_client
unfolding lookup
some_ip_client-IsUnbounded = record {
  notifications = refl;
  status = tt;
  finds = λ k r e. absurd (ground (arith, e));
  reassembly = tt;
}

stop-IsDown_example :
    (l' : List Call) × IsDown (Client.stop failing some_ip_client []).1
    × ((Client.stop failing some_ip_client []).1.event_subscriber.notification_receiver
        ≡ (close (Receiver.new 0)).1)
    × ((Client.stop failing some_ip_client []).0 ≡ (Transport.stop failing running_transport l').0)
    × ((Client.stop failing some_ip_client []).1.transport
        ≡ (Transport.stop failing running_transport l').1)
stop-IsDown_example = Shutdown.stop-IsDown failing some_ip_client [] some_ip_client-IsUnbounded

begin_all-sessions_example :
    let t = begin_all failing ((method_id, []) ∷ (method_id, 9 ∷ []) ∷ []) client [] in
    Numbered 65535 t.0 × (t.1.session_counter ≡ (65535 + 2) % 65536)
begin_all-sessions_example =
    begin_all-sessions failing ((method_id, []) ∷ (method_id, 9 ∷ []) ∷ []) client [] refl refl
      (omega arith)

late_answer_example :
    let timed_out = end_call true 0 1 sent.1 in
    (timed_out.0 ≡ raises (some (library rpc_error)))
    × (lookup 65535 timed_out.1.pending ≡ some 0)
    × (on_response method_id 0 1 (some (7 ∷ [])) timed_out.1
        ≡ (err invalid_state_error, timed_out.1))
unfolding lookup
late_answer_example =
    late_answer obliging method_id (9 ∷ []) client [] 0 1 65535 (some (7 ∷ [])) answer_message
      was_sent answers

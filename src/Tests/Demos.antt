-- ===== src/Tests/Demos.antt =====
-- The programs of examples/ at concrete inputs.
use opensomeip_python.Prelude.{
  ℕ, ◌+◌, ◌*◌, ◌/◌, ◌≤◌, ◌≡◌, refl, ap, true, false, none, some, List, [], ◌∷◌, ◌++◌, map, All,
  take, drop, arith,
}
use opensomeip_python.Prelude.Int.{pos, ◌+ℤ◌}
use opensomeip_python.Prelude.Dict.{lookup}
use opensomeip_python.Exceptions.{ok, err, struct_error, native_error}
use opensomeip_python.Types.Enums.{type_code}
use opensomeip_python.Message.{Message, default_message}
use opensomeip_python.Serialization.Native.{Floats, Extension}
use opensomeip_python.Serialization.Struct.{
  be_bytes, from_be, pack_signed, unpack_signed, pack_unsigned,
}
use opensomeip_python.Serialization.Writer
use opensomeip_python.Serialization.Writer.{new_serializer, to_bytes}
use opensomeip_python.Serialization.Reader.{Deserializer, new_deserializer, remaining}
use opensomeip_python.Native.Calls.{Call, Native, send_message, transport_start}
use opensomeip_python.Transport.{send}
use opensomeip_python.Tp.{TpState, segment_of}
use opensomeip_python.Tp.Segments.{concat, Fits}
use opensomeip_python.Tp.Fallback.{sends}
use opensomeip_python.Events.{EventPublisher}
use opensomeip_python.E2e.Protection.{status_ok, status_error}
use opensomeip_python.Examples.Profile.{demo, new_ends, exchange_all, simple_protect, simple_check}
use opensomeip_python.Examples.Profile.Exchange.{corrupted_payload, exchange_all-accepted}
use opensomeip_python.Examples.Serving.{Program, reply_to, serve, handle, run_handler}
use opensomeip_python.Examples.Serving.Replies.{Answers, sending, serve-Answers}
use opensomeip_python.Examples.Requesting
use opensomeip_python.Examples.Calculator
use opensomeip_python.Examples.Calculator.{handlers, handle_add, add_method, operands, test_add}
use opensomeip_python.Examples.Calculator.Sums.{IsReady, next_request, add_round_trip}
use opensomeip_python.Examples.Complex.{
  SensorReading, serialize_sensor_array, read_sensor_array, write_items, serialize_sensor_reading,
  write_reading,
}
use opensomeip_python.Examples.Complex.Rounding.{Rounds, rounded_array_round_trip}
use opensomeip_python.Examples.Large.Programs
use opensomeip_python.Examples.Large.Segmented.{asking, echo_delivered}
use opensomeip_python.Examples.Sensors.{Tick, Clock, publish_loop, temperature_event, speed_event}
use opensomeip_python.Examples.Sensors.Rates.{published, publish_loop-rates}
use opensomeip_python.Tests.Values.{ascii}
use opensomeip_python.Tests.Fixtures.{
  greeting, there, obliging, running_transport, lost_transport, manager,
}

demo_outcome :
    demo none ≡ (ok status_ok ∷ ok status_ok ∷ ok status_ok ∷ [], ok status_error, ok status_error)
unfolding demo simple_protect simple_check be_bytes
demo_outcome = refl

corrupted_payload_example :
    (header : List ℕ) × (simple_protect none ((1 ∷ []) ++ 2 ∷ 3 ∷ []) 9
      ≡ ok (header ++ ((1 ∷ []) ++ 2 ∷ 3 ∷ [])))
    × (simple_check none (header ++ ((1 ∷ []) ++ 5 ∷ 3 ∷ [])) 9 ≡ ok status_error)
corrupted_payload_example =
    corrupted_payload (1 ∷ []) (3 ∷ []) 2 5 9 9 (omega arith, tt) (omega arith, tt) (omega arith)
      (omega arith) (λ e. omega (arith, e))

exchange_all-accepted_example :
    (exchange_all ((1 ∷ []) ∷ (2 ∷ 3 ∷ []) ∷ []) (new_ends none)).0
    ≡ map {A = List ℕ} (λ payload. ok status_ok) ((1 ∷ []) ∷ (2 ∷ 3 ∷ []) ∷ [])
exchange_all-accepted_example =
    exchange_all-accepted ((1 ∷ []) ∷ (2 ∷ 3 ∷ []) ∷ [])
      ((omega arith, tt), ((omega arith, (omega arith, tt)), tt))

-- A request to add 10 and 5, and one to another service.
abbrev add_request : Message
add_request = record default_message {
  message_id = record { service_id = 0x2000; method_id = 1 };
  payload = 0 ∷ 0 ∷ 0 ∷ 10 ∷ 0 ∷ 0 ∷ 0 ∷ 5 ∷ [];
  source_endpoint = some there;
}

abbrev calculator_program : Program ℕ
calculator_program = record { globals = 0; transport = lost_transport }

serve-Answers_example :
    let t =
      serve obliging Calculator.service handlers
        (add_request ∷ greeting ∷ [])
        calculator_program
        [] in
    (calls : List Call) × (t.2 ≡ [] ++ calls)
    × Answers obliging Calculator.service handlers lost_transport 0 [] t.0
        (add_request ∷ greeting ∷ [])
        calls
serve-Answers_example =
    serve-Answers obliging Calculator.service handlers (add_request ∷ greeting ∷ [])
      calculator_program []

one_sum :
    serve obliging Calculator.service handlers (add_request ∷ greeting ∷ []) calculator_program []
    ≡ (
      ok tt,
      record calculator_program { globals = 1 },
      sending add_request (0 ∷ 0 ∷ 0 ∷ 15 ∷ []) there ∷ [],
    )
unfolding serve handle run_handler handlers handle_add take drop unpack_signed from_be pack_signed
    be_bytes lookup send type_code
one_sum = refl

abbrev calculator_client : Requesting.Client
calculator_client = record { session_counter = 0; transport = running_transport }

calculator_client-IsReady : IsReady calculator_client
calculator_client-IsReady = record {
  running = refl;
  has_extension = refl;
  nothing_queued = refl;
  not_closed = refl;
  unbounded = refl;
}

ten_and_five : operands (pos 10) (pos 5) ≡ ok (add_request.payload)
unfolding pack_signed be_bytes
ten_and_five = refl

add_round_trip_example :
    let m = next_request add_method add_request.payload calculator_client in
    (result : List ℕ) × (handle_add add_request.payload 0 ≡ (ok result, 1))
    × ((test_add obliging (pos 10) (pos 5) (reply_to m result ∷ []) calculator_client []).0
        ≡ ok (some (pos 10 +ℤ pos 5)))
add_round_trip_example =
    add_round_trip obliging (pos 10) (pos 5) add_request.payload 0 calculator_client [] ten_and_five
      refl calculator_client-IsReady refl

-- Numbers of one byte stand in for floats.
abbrev first_byte : List ℕ → ℕ
first_byte [] = 0
first_byte (b ∷ bytes) = b

abbrev small_floats : Floats
small_floats = record {
  Float = ℕ;
  pack32 = λ x. ok (x / 2 * 2 ∷ 0 ∷ 0 ∷ 0 ∷ []);
  pack64 = λ x. err struct_error;
  unpack32 = first_byte;
  unpack64 = first_byte;
}

abbrev no_extension : Extension small_floats
no_extension = record {
  Out = Unit;
  fresh = tt;
  serialize_bool = λ b s. (ok tt, s);
  serialize_unsigned = λ w v s. (ok tt, s);
  serialize_signed = λ w v s. (ok tt, s);
  serialize_float = λ v s. (ok tt, s);
  serialize_double = λ v s. (ok tt, s);
  get_buffer = λ s. [];
  reset_out = λ s. s;
  In = Unit;
  deserializer = λ bytes. tt;
  deserialize_bool = λ s. (ok false, s);
  deserialize_unsigned = λ w s. (ok (pos 0), s);
  deserialize_signed = λ w s. (ok (pos 0), s);
  deserialize_float = λ s. (ok 0, s);
  deserialize_double = λ s. (ok 0, s);
  get_remaining = λ s. 0;
  get_position = λ s. 0;
}

abbrev reading : SensorReading small_floats ascii no_extension
reading = record { sensor_id = pos 7; value = 43; unit = 100 ∷ 66 ∷ []; timestamp = pos 9999 }

-- The low bit of a float is lost.
abbrev to_even : ℕ → ℕ
to_even x = x / 2 * 2

small_floats-Rounds : Rounds small_floats to_even
small_floats-Rounds = record {
  same_bytes = λ v. ap (λ n. ok (n ∷ 0 ∷ 0 ∷ 0 ∷ [])) (omega arith);
  read_back = λ v bytes e. ground (arith, e);
}

-- The array of this one reading.
abbrev array_bytes : List ℕ
array_bytes =
    0 ∷ 0 ∷ 0 ∷ 1 ∷ 0 ∷ 0 ∷ 0 ∷ 16 ∷ 7 ∷ 42 ∷ 0 ∷ 0 ∷ 0 ∷ 0 ∷ 0 ∷ 0 ∷ 3 ∷ 100 ∷ 66 ∷ 0 ∷ 0 ∷ 0 ∷ 39
    ∷ 15 ∷ []

array_made :
    serialize_sensor_array small_floats ascii no_extension false (reading ∷ []) ≡ ok array_bytes
unfolding serialize_sensor_array write_items serialize_sensor_reading write_reading
    Writer.write_uint8 Writer.write_uint32 Writer.write_float32 Writer.write_string
    Writer.write_bytes_raw new_serializer to_bytes pack_unsigned be_bytes
array_made = refl

rounded_array_round_trip_example :
    (d : Deserializer small_floats ascii no_extension) × (read_sensor_array small_floats ascii
        no_extension false
        (new_deserializer small_floats ascii no_extension false array_bytes)
      ≡ (ok (record reading { value = 42 } ∷ []), d))
    × (remaining small_floats ascii no_extension d ≡ 0)
rounded_array_round_trip_example =
    rounded_array_round_trip small_floats ascii no_extension to_even small_floats-Rounds
      (reading ∷ []) array_bytes (((7, refl, omega arith), (λ bytes e. ground (arith, e))), tt)
      array_made

-- An extension that sends, and whose segmentation raises.
abbrev only_sending : Native
only_sending l (send_message m to) = ok tt
only_sending l transport_start = ok (some true)
only_sending l c = err native_error

abbrev echo_request : Message
echo_request = record default_message {
  message_id = record { service_id = 0x5000; method_id = 3 };
  payload = 1 ∷ 2 ∷ 3 ∷ [];
  source_endpoint = some there;
}

abbrev small_segments : TpState
small_segments = record { manager = record (manager 2) { cpp = true }; transport = lost_transport }

echo_delivered_example :
    (parts : List (List ℕ)) × (Programs.handle only_sending 4
        (λ n fine. [])
        echo_request
        small_segments
        []
      ≡ some (
        ok tt,
        small_segments,
        ([] ++ asking echo_request ∷ [])
            ++ sends there (map (segment_of (reply_to echo_request echo_request.payload)) parts),
      ))
    × (concat parts ≡ 1 ∷ 2 ∷ 3 ∷ [])
    × All (Fits 2) parts
unfolding type_code
echo_delivered_example =
    echo_delivered only_sending 4 (λ n fine. []) echo_request there small_segments [] native_error
      refl refl refl refl
      (record { is_running = refl; has_extension = refl; has_target = refl; accepts = λ l c. refl })
      (omega arith) (omega arith) (omega arith)

abbrev ticks : List (Tick small_floats)
ticks =
    record { now = 1500; temperature = 20; speed = 50 }
    ∷ record { now = 2100; temperature = 21; speed = 60 }
    ∷ []

abbrev event_publisher : EventPublisher
event_publisher = record {
  running = true;
  registered_events = (0x8001, 1) ∷ (0x8002, 1) ∷ [];
  cpp = true;
}

publish_loop-rates_example :
    let c : Clock = record { last_temp = 0; last_speed = 0 } in
    (calls : List Call) × ((publish_loop small_floats obliging ticks c event_publisher []).2
      ≡ [] ++ calls)
    × (published temperature_event calls * 2000 + 0 ≤ 2100)
    × (published speed_event calls * 1500 + 0 ≤ 2100)
publish_loop-rates_example =
    publish_loop-rates small_floats obliging ticks (record { last_temp = 0; last_speed = 0 })
      event_publisher [] 2100 (omega arith) (omega arith) (omega arith, (omega arith, tt))

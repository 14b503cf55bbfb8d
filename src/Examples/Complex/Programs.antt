-- ===== src/Examples/Complex/Programs.antt =====
-- The server and the client of examples/advanced/complex_types. The server's text about a vehicle
-- and its array of readings are parameters, since their literals are texts and floats.

use opensomeip_python.Prelude.{ℕ, Bool, Option, none, some, List, [], ◌∷◌, ◌==◌}
use opensomeip_python.Prelude.Dict.{Dict}
use opensomeip_python.Exceptions.{Result, ok, bind, map_result}
use opensomeip_python.Endpoint.{Endpoint}
use opensomeip_python.Types.Enums.{response, type_code}
use opensomeip_python.Message.{Message}
use opensomeip_python.Serialization.Native.{Floats, Codec, Extension}
use opensomeip_python.Serialization.Writer
use opensomeip_python.Serialization.Writer.{new_serializer, to_bytes}
use opensomeip_python.Serialization.Reader
use opensomeip_python.Serialization.Reader.{Read, new_deserializer}
use opensomeip_python.Transport
use opensomeip_python.Transport.{new_udp, send}
use opensomeip_python.Native.Calls.{Native}
use opensomeip_python.Native.Run.{Exec, ◌>>=◌, ◌>>◌, pure, lift}
use opensomeip_python.Examples.Serving
use opensomeip_python.Examples.Serving.{Program, Handler, serve}
use opensomeip_python.Examples.Requesting
use opensomeip_python.Examples.Requesting.{Client, new_request, wait_for}
use opensomeip_python.Examples.Calculator.{any_address}
use opensomeip_python.Examples.Complex.{
  VehicleData, SensorReading, deserialize_vehicle, deserialize_sensor_reading, finish,
  serialize_vehicle_data, serialize_sensor_reading, serialize_sensor_array, read_sensor_array,
}

abbrev pub service : ℕ
service = 0x4000

abbrev pub process_vehicle_data : ℕ
process_vehicle_data = 1

abbrev pub get_sensor_array : ℕ
get_sensor_array = 2

abbrev pub echo_complex_struct : ℕ
echo_complex_struct = 3

abbrev pub server_endpoint : Endpoint
server_endpoint = record { ip = "127.0.0.1"; port = 30494 }

unfoldable pub new_server : Bool → Program (Unit {0})
unfolding new_udp
new_server ext = record { globals = tt; transport = new_udp ext (any_address 30494) none none }

unfoldable pub new_client : Bool → Client
unfolding new_udp
new_client ext = record {
  session_counter = 0;
  transport = new_udp ext (any_address 0) (some server_endpoint) none;
}

-- The test of `call_method` on the message that it gets: its identifier is not looked at.
abbrev pub is_response : Message → Bool
is_response m = type_code m.message_type == type_code response

-- `if result:`, and the reading of it.
abbrev pub read_result : {A : Type 0} → (List ℕ → Result A) → Option (List ℕ) → Result (Option A)
read_result parse none = ok none
read_result parse (some []) = ok none
read_result parse (some (b ∷ bytes)) = map_result some (parse (b ∷ bytes))

module _ (F : Floats) (C : Codec) (X : Extension F) (ext : Bool) where
  abbrev pub parse : {A : Type 0} → Read F C X A → List ℕ → Result A
  parse m bytes = (m (new_deserializer F C X ext bytes)).0

  -- `ser = Serializer()`, `ser.write_string(response)`, `ser.to_bytes()`.
  unfoldable pub serialize_text : C.Text → Result (List ℕ)
  unfolding Writer.write_string new_serializer to_bytes
  serialize_text response_text =
      finish F C X (Writer.write_string F C X response_text (new_serializer F C X ext))

  module _ (about : VehicleData F C X → C.Text) (sensors : List (SensorReading F C X)) where
    unfoldable pub handle_process_vehicle_data : List ℕ → Result (List ℕ)
    unfolding deserialize_vehicle serialize_text new_deserializer
    handle_process_vehicle_data payload =
        bind (parse (deserialize_vehicle F C X) payload) (λ v. serialize_text (about v))

    unfoldable pub handle_get_sensor_array : List ℕ → Result (List ℕ)
    unfolding serialize_sensor_array
    handle_get_sensor_array payload = serialize_sensor_array F C X ext sensors

    unfoldable pub handle_echo_complex_struct : List ℕ → Result (List ℕ)
    unfolding deserialize_sensor_reading serialize_sensor_reading new_deserializer
    handle_echo_complex_struct payload =
        bind (parse (deserialize_sensor_reading F C X) payload) (serialize_sensor_reading F C X ext)

    -- `HANDLERS`; the program has no global variables that change.
    unfoldable pub handlers : Dict (Handler (Unit {0}))
    unfolding handle_process_vehicle_data handle_get_sensor_array handle_echo_complex_struct
    handlers =
        (process_vehicle_data, λ payload g. (handle_process_vehicle_data payload, g))
        ∷ (get_sensor_array, λ payload g. (handle_get_sensor_array payload, g))
        ∷ (echo_complex_struct, λ payload g. (handle_echo_complex_struct payload, g))
        ∷ []

    -- `main` of the server, over the requests that its receiver yields.
    unfoldable pub server_main : Native → List Message → Exec (Program (Unit {0})) (Unit {0})
    unfolding serve handlers Transport.start Transport.stop
    server_main native requests = do
      Serving.on_transport native (Transport.start native)
      serve native service handlers requests
      Serving.on_transport native (Transport.stop native)

  module _ (native : Native) where
    unfoldable pub call_method : ℕ → List ℕ → List Message → Exec Client (Option (List ℕ))
    unfolding new_request wait_for send
    call_method method payload arriving = do
      m ← new_request service method 0xabcd payload
      Requesting.on_transport (send native m (some server_endpoint))
      Requesting.on_transport (wait_for is_response arriving)

    unfoldable pub test_vehicle_data :
        VehicleData F C X → List Message → Exec Client (Option C.Text)
    unfolding call_method serialize_vehicle_data Reader.read_string new_deserializer
    test_vehicle_data vehicle arriving = do
      payload ← lift (serialize_vehicle_data F C X ext vehicle)
      result ← call_method process_vehicle_data payload arriving
      lift (read_result (parse (Reader.read_string F C X)) result)

    unfoldable pub test_sensor_array :
        List Message → Exec Client (Option (List (SensorReading F C X)))
    unfolding call_method read_sensor_array new_deserializer
    test_sensor_array arriving = do
      result ← call_method get_sensor_array [] arriving
      lift (read_result (parse (read_sensor_array F C X ext)) result)

    unfoldable pub test_echo_struct :
        SensorReading F C X → List Message → Exec Client (Option (SensorReading F C X))
    unfolding call_method serialize_sensor_reading deserialize_sensor_reading new_deserializer
    test_echo_struct reading arriving = do
      payload ← lift (serialize_sensor_reading F C X ext reading)
      result ← call_method echo_complex_struct payload arriving
      lift (read_result (parse (deserialize_sensor_reading F C X)) result)

    -- `main` of the client, with the literals of its tests; `arriving k` has what arrives during
    -- the k-th call.
    unfoldable pub client_main :
        VehicleData F C X
        → SensorReading F C X
        → (ℕ → List Message)
        → Exec Client
            (Option C.Text × Option (List (SensorReading F C X)) × Option (SensorReading F C X))
    unfolding test_vehicle_data test_sensor_array test_echo_struct Transport.start Transport.stop
    client_main vehicle reading arriving = do
      Requesting.on_transport (Transport.start native)
      a ← test_vehicle_data vehicle (arriving 0)
      b ← test_sensor_array (arriving 1)
      c ← test_echo_struct reading (arriving 2)
      Requesting.on_transport (Transport.stop native)
      pure (a, b, c)

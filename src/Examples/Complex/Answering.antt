-- ===== src/Examples/Complex/Answering.antt =====
-- What the handlers of examples/advanced/complex_types answer.
use opensomeip_python.Prelude.{◌≡◌, ◌∙◌, ap, Bool, true, false, ℕ, List, arith, ◌∷◌}
use opensomeip_python.Prelude.Dict.{lookup}
use opensomeip_python.Exceptions.{Exn, Result, ok, err, bind}
use opensomeip_python.Message.{Message}
use opensomeip_python.Serialization.Native.{Floats, Codec, Extension}
use opensomeip_python.Serialization.Reader.{Deserializer}
use opensomeip_python.Native.Calls.{Call, Native}
use opensomeip_python.Examples.Serving.{Program, is_wanted, serve, handle, run_handler}
use opensomeip_python.Examples.Complex.{
  VehicleData, SensorReading, serialize_vehicle_data, serialize_sensor_reading,
  deserialize_sensor_reading,
}
use opensomeip_python.Examples.Complex.Codes.{payload_back}
use opensomeip_python.Examples.Complex.Structures.{
  ReadingSurvives, reading-Takes, VehicleSurvives, vehicle_round_trip,
}
use opensomeip_python.Examples.Complex.Programs.{
  service, echo_complex_struct, handle_echo_complex_struct, handle_process_vehicle_data, handlers,
  serialize_text, parse,
}

module _ (F : Floats) (C : Codec) (X : Extension F) (about : VehicleData F C X → C.Text)
    (sensors : List (SensorReading F C X)) where
  -- Without the extension, the echo of a reading that the client serialized is the same bytes.
  pub echo_same :
      (r : SensorReading F C X) (bytes : List ℕ)
      → ReadingSurvives F C X r
      → serialize_sensor_reading F C X false r ≡ ok bytes
      → handle_echo_complex_struct F C X false about sensors bytes ≡ ok bytes
  unfolding handle_echo_complex_struct
  echo_same r bytes h made =
      let (d, back, none_left) =
        payload_back F C X (deserialize_sensor_reading F C X) r bytes
          (reading-Takes F C X r bytes h made) in
      ap
        (λ (t : Result (SensorReading F C X) × Deserializer F C X).
          bind t.0 (serialize_sensor_reading F C X false))
        back
      ∙ made

  -- Without the extension, the answer about a vehicle is the text about the vehicle that the client
  -- serialized.
  pub vehicle_answered :
      (v : VehicleData F C X) (bytes : List ℕ)
      → VehicleSurvives F C X v
      → serialize_vehicle_data F C X false v ≡ ok bytes
      → handle_process_vehicle_data F C X false about sensors bytes
        ≡ serialize_text F C X false (about v)
  unfolding handle_process_vehicle_data
  vehicle_answered v bytes h made =
      let (d, back, none_left) = vehicle_round_trip F C X v bytes h made in
      ap
        (λ (t : Result (VehicleData F C X) × Deserializer F C X).
          bind t.0 (λ w. serialize_text F C X false (about w)))
        back

  -- A payload that the handler cannot read ends the server: the exception leaves the loop, nothing
  -- is sent, and the requests after it are not looked at.
  pub malformed_ends :
      (native : Native) (m : Message) (ms : List Message) (p : Program (Unit {0})) (l : List Call)
      (ext : Bool) (x : Exn)
      → is_wanted service m ≡ true
      → m.message_id.method_id ≡ echo_complex_struct
      → parse F C X ext (deserialize_sensor_reading F C X) m.payload ≡ err x
      → serve native service (handlers F C X ext about sensors) (m ∷ ms) p l ≡ (err x, p, l)
  unfolding serve handle run_handler handlers lookup handle_echo_complex_struct
  malformed_ends native m ms p l ext x wanted echoes fails = ground (arith, wanted, echoes, fails)

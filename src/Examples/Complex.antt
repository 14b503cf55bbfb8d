-- ===== src/Examples/Complex.antt =====
-- examples/advanced/complex_types: the structures on the wire, the server's handlers and the
-- client's tests. Floats, texts and the extension are parameters, and so are the literals of these
-- types and the text that the server composes. What the client prints is returned.
pub mod Codes
pub mod Structures
pub mod Arrays
pub mod Rounding
pub mod Programs
pub mod Answering
use opensomeip_python.Prelude.{
  ℕ, zero, suc, Bool, true, false, ◌&&◌, Option, none, some, List, [], ◌∷◌, ◌++◌, length, ◌==◌,
  if◌then◌else◌,
}
use opensomeip_python.Prelude.Int.{ℤ, pos, to_ℕ}
use opensomeip_python.Prelude.Dict.{Dict}
use opensomeip_python.Exceptions.{Result, ok, err, bind, map_result}
use opensomeip_python.Endpoint.{Endpoint}
use opensomeip_python.Types.Enums.{response, type_code}
use opensomeip_python.Message.{Message}
use opensomeip_python.Serialization.Native.{Floats, Codec, Extension}
use opensomeip_python.Serialization.Writer
use opensomeip_python.Serialization.Writer.{Serializer, Write, new_serializer, to_bytes, then_write}
use opensomeip_python.Serialization.Reader
use opensomeip_python.Serialization.Reader.{Deserializer, Read, new_deserializer, then_read}
use opensomeip_python.Transport
use opensomeip_python.Transport.{Transport, new_udp, send}
use opensomeip_python.Native.Calls.{Call, Native}
use opensomeip_python.Native.Run.{Exec, next, ◌>>=◌, ◌>>◌, pure, lift}
use opensomeip_python.Examples.Serving
use opensomeip_python.Examples.Serving.{Program, Handler, serve}
use opensomeip_python.Examples.Requesting
use opensomeip_python.Examples.Requesting.{Client, new_request, wait_for}

module _ (F : Floats) (C : Codec) (X : Extension F) where
  pub record VehicleData : Type 0 where
    pub vehicle_id : ℤ
    pub model : C.Text
    pub fuel_level : F.Float
    pub tire_pressure : List ℤ
    pub lights_on : Bool
    pub mileage : ℤ

  pub record SensorReading : Type 0 where
    pub sensor_id : ℤ
    pub value : F.Float
    pub unit : C.Text
    pub timestamp : ℤ

  -- `for p in v.tire_pressure: ser.write_uint8(p)`
  unfoldable pub write_pressures : List ℤ → Write F C X
  unfolding Writer.write_uint8
  write_pressures [] s = (ok tt, s)
  write_pressures (p ∷ ps) s = then_write F C X (Writer.write_uint8 F C X p s) (write_pressures ps)

  -- The writes of `serialize_vehicle_data`.
  unfoldable pub write_vehicle : VehicleData → Write F C X
  unfolding write_pressures Writer.write_uint32 Writer.write_string Writer.write_float32
      Writer.write_bool Writer.write_uint16
  write_vehicle v s = then_write F C X (Writer.write_uint32 F C X v.vehicle_id s) λ s1.
      then_write F C X (Writer.write_string F C X v.model s1) λ s2.
        then_write F C X (Writer.write_float32 F C X v.fuel_level s2) λ s3.
          then_write F C X (write_pressures v.tire_pressure s3) λ s4.
            then_write F C X (Writer.write_bool F C X v.lights_on s4)
              (Writer.write_uint16 F C X v.mileage)

  -- The writes of `serialize_sensor_reading`.
  unfoldable pub write_reading : SensorReading → Write F C X
  unfolding Writer.write_uint8 Writer.write_float32 Writer.write_string Writer.write_uint32
  write_reading r s = then_write F C X (Writer.write_uint8 F C X r.sensor_id s) λ s1.
      then_write F C X (Writer.write_float32 F C X r.value s1) λ s2.
        then_write F C X (Writer.write_string F C X r.unit s2)
          (Writer.write_uint32 F C X r.timestamp)

  -- `[des.read_uint8() for _ in range(n)]`
  unfoldable pub read_pressures : ℕ → Read F C X (List ℤ)
  unfolding Reader.read_uint8
  read_pressures zero d = (ok [], d)
  read_pressures (suc n) d =
      then_read F C X (Reader.read_uint8 F C X d)
        λ p d1. then_read F C X (read_pressures n d1) λ ps d2. (ok (p ∷ ps), d2)

  unfoldable pub deserialize_vehicle : Read F C X VehicleData
  unfolding read_pressures Reader.read_uint32 Reader.read_string Reader.read_float32
      Reader.read_bool Reader.read_uint16
  deserialize_vehicle d = then_read F C X (Reader.read_uint32 F C X d) λ id d1.
      then_read F C X (Reader.read_string F C X d1) λ name d2.
        then_read F C X (Reader.read_float32 F C X d2) λ fuel d3.
          then_read F C X (read_pressures 4 d3) λ ps d4.
            then_read F C X (Reader.read_bool F C X d4) λ lights d5.
              then_read F C X (Reader.read_uint16 F C X d5) λ miles d6. (
                ok (record {
                  vehicle_id = id;
                  model = name;
                  fuel_level = fuel;
                  tire_pressure = ps;
                  lights_on = lights;
                  mileage = miles;
                }),
                d6,
              )

  unfoldable pub deserialize_sensor_reading : Read F C X SensorReading
  unfolding Reader.read_uint8 Reader.read_float32 Reader.read_string Reader.read_uint32
  deserialize_sensor_reading d = then_read F C X (Reader.read_uint8 F C X d) λ id d1.
      then_read F C X (Reader.read_float32 F C X d1) λ measured d2.
        then_read F C X (Reader.read_string F C X d2) λ text d3.
          then_read F C X (Reader.read_uint32 F C X d3) λ time d4.
            (ok (record { sensor_id = id; value = measured; unit = text; timestamp = time }), d4)

  -- `ser = Serializer()`, the writes, and `ser.to_bytes()`.
  abbrev pub finish : Result (Unit {0}) × Serializer F C X → Result (List ℕ)
  finish (ok u, s) = ok (to_bytes F C X s)
  finish (err x, s) = err x

  module _ (ext : Bool) where
    unfoldable pub serialize_vehicle_data : VehicleData → Result (List ℕ)
    unfolding write_vehicle new_serializer to_bytes
    serialize_vehicle_data v = finish (write_vehicle v (new_serializer F C X ext))

    unfoldable pub serialize_sensor_reading : SensorReading → Result (List ℕ)
    unfolding write_reading new_serializer to_bytes
    serialize_sensor_reading r = finish (write_reading r (new_serializer F C X ext))

    -- The body of the loop of `serialize_sensor_array`.
    abbrev pub write_item : Result (List ℕ) → Write F C X
    write_item (ok bytes) s =
        then_write F C X (Writer.write_uint32 F C X (pos (length bytes)) s)
          (Writer.write_bytes_raw F C X bytes)
    write_item (err x) s = (err x, s)

    unfoldable pub write_items : List SensorReading → Write F C X
    unfolding serialize_sensor_reading Writer.write_uint32 Writer.write_bytes_raw
    write_items [] s = (ok tt, s)
    write_items (r ∷ rs) s =
        then_write F C X (write_item (serialize_sensor_reading r) s) (write_items rs)

    unfoldable pub serialize_sensor_array : List SensorReading → Result (List ℕ)
    unfolding write_items Writer.write_uint32 new_serializer to_bytes
    serialize_sensor_array rs = finish (
        then_write F C X (Writer.write_uint32 F C X (pos (length rs)) (new_serializer F C X ext))
          (write_items rs))

    -- The loop of the client's `test_sensor_array`.
    unfoldable pub read_items : ℕ → Read F C X (List SensorReading)
    unfolding deserialize_sensor_reading Reader.read_uint32
    read_items zero d = (ok [], d)
    read_items (suc n) d = then_read F C X (Reader.read_uint32 F C X d) λ size d1.
        then_read F C X (deserialize_sensor_reading d1)
          λ r d2. then_read F C X (read_items n d2) λ rs d3. (ok (r ∷ rs), d3)

    unfoldable pub read_sensor_array : Read F C X (List SensorReading)
    unfolding read_items Reader.read_uint32
    read_sensor_array d =
        then_read F C X (Reader.read_uint32 F C X d) (λ count. read_items (to_ℕ count))

-- ===== src/Examples/Complex/Structures.antt =====
-- The structures of examples/advanced/complex_types survive the wire, field by field.
use opensomeip_python.Prelude.{ℕ, ◌≡◌, refl, Bool, false, List, [], ◌∷◌, All, length, arith}
use mathlib.Core.Path.{subst}
use opensomeip_python.Prelude.Int.{ℤ}
use opensomeip_python.Exceptions.{ok}
use opensomeip_python.Serialization.Native.{Floats, Codec, Extension}
use opensomeip_python.Serialization.Writer
use opensomeip_python.Serialization.Writer.{new_serializer, to_bytes, Write}
use opensomeip_python.Serialization.Reader
use opensomeip_python.Serialization.Reader.{
  Deserializer, Read, new_deserializer, remaining, then_read,
}
use opensomeip_python.Serialization.Reading.{Takes}
use opensomeip_python.Serialization.Values.{
  Survives, uint8, uint16, uint32, boolean, float32, text, write, read,
}
use opensomeip_python.Examples.Complex.{
  VehicleData, SensorReading, write_pressures, read_pressures, write_vehicle, write_reading,
  deserialize_vehicle, deserialize_sensor_reading, serialize_vehicle_data, serialize_sensor_reading,
}
use opensomeip_python.Examples.Complex.Codes.{
  Codes, value-Codes, nothing-Codes, then-Codes, result-Codes, finish-Takes, payload_back,
}

module _ (F : Floats) (C : Codec) (X : Extension F) where
  uint8-Codes :
      (v : ℤ)
      → Survives F C X (uint8 v)
      → Codes F C X (Writer.write_uint8 F C X v) (Reader.read_uint8 F C X) v
  unfolding write read
  uint8-Codes v h =
      value-Codes F C X uint8 (Reader.read_uint8 F C X) v (λ b c e. ground (arith, e)) refl h

  uint16-Codes : (v : ℤ) → Codes F C X (Writer.write_uint16 F C X v) (Reader.read_uint16 F C X) v
  unfolding write read
  uint16-Codes v =
      value-Codes F C X uint16 (Reader.read_uint16 F C X) v (λ b c e. ground (arith, e)) refl tt

  pub uint32-Codes :
      (v : ℤ) → Codes F C X (Writer.write_uint32 F C X v) (Reader.read_uint32 F C X) v
  unfolding write read
  uint32-Codes v =
      value-Codes F C X uint32 (Reader.read_uint32 F C X) v (λ b c e. ground (arith, e)) refl tt

  bool-Codes : (v : Bool) → Codes F C X (Writer.write_bool F C X v) (Reader.read_bool F C X) v
  unfolding write read
  bool-Codes v =
      value-Codes F C X boolean (Reader.read_bool F C X) v (λ b c e. ground (arith, e)) refl tt

  float32-Codes :
      (v : F.Float)
      → Survives F C X (float32 v)
      → Codes F C X (Writer.write_float32 F C X v) (Reader.read_float32 F C X) v
  unfolding write read
  float32-Codes v h =
      value-Codes F C X float32 (Reader.read_float32 F C X) v (λ b c e. ground (arith, e)) refl h

  pub string-Codes :
      (v : C.Text)
      → Survives F C X (text v)
      → Codes F C X (Writer.write_string F C X v) (Reader.read_string F C X) v
  unfolding write read
  string-Codes v h =
      value-Codes F C X text (Reader.read_string F C X) v (λ b c e. ground (arith, e)) refl h

  pressures-Codes :
      (ps : List ℤ)
      → All (λ p. Survives F C X (uint8 p)) ps
      → Codes F C X (write_pressures F C X ps) (read_pressures F C X (length ps)) ps
  unfolding write_pressures read_pressures
  pressures-Codes [] h = nothing-Codes F C X []
  pressures-Codes (p ∷ ps) h =
      then-Codes F C X (Writer.write_uint8 F C X p) (write_pressures F C X ps)
        (Reader.read_uint8 F C X) _ p (p ∷ ps) (uint8-Codes p h.0)
        (result-Codes F C X (write_pressures F C X ps) (read_pressures F C X (length ps))
          (λ qs. p ∷ qs) ps (pressures-Codes ps h.1))

  -- A reading whose value and text survive, and whose sensor is a byte.
  pub record ReadingSurvives (r : SensorReading F C X) : Type 0 where
    pub sensor_fits : Survives F C X (uint8 r.sensor_id)
    pub value_survives : Survives F C X (float32 r.value)
    pub unit_survives : Survives F C X (text r.unit)

  pub reading-Codes :
      (r : SensorReading F C X)
      → ReadingSurvives r
      → Codes F C X (write_reading F C X r) (deserialize_sensor_reading F C X) r
  unfolding write_reading deserialize_sensor_reading
  reading-Codes r h =
      then-Codes F C X (Writer.write_uint8 F C X r.sensor_id) _ (Reader.read_uint8 F C X) _
        r.sensor_id r (uint8-Codes r.sensor_id h.sensor_fits)
        (then-Codes F C X (Writer.write_float32 F C X r.value) _ (Reader.read_float32 F C X) _
          r.value r (float32-Codes r.value h.value_survives)
          (then-Codes F C X (Writer.write_string F C X r.unit) _ (Reader.read_string F C X) _ r.unit
            r (string-Codes r.unit h.unit_survives)
            (result-Codes F C X (Writer.write_uint32 F C X r.timestamp) (Reader.read_uint32 F C X)
              (λ time. record r { timestamp = time }) r.timestamp (uint32-Codes r.timestamp))))

  -- A vehicle whose level and model survive, with four pressures of a byte each.
  pub record VehicleSurvives (v : VehicleData F C X) : Type 0 where
    pub model_survives : Survives F C X (text v.model)
    pub fuel_survives : Survives F C X (float32 v.fuel_level)
    pub pressures_fit : All (λ p. Survives F C X (uint8 p)) v.tire_pressure
    pub four_tires : length v.tire_pressure ≡ 4

  four_pressures :
      (ps : List ℤ)
      → All (λ p. Survives F C X (uint8 p)) ps
      → length ps ≡ 4
      → Codes F C X (write_pressures F C X ps) (read_pressures F C X 4) ps
  four_pressures ps h four =
      subst (λ n. Codes F C X (write_pressures F C X ps) (read_pressures F C X n) ps) four
        (pressures-Codes ps h)

  vehicle-Codes :
      (v : VehicleData F C X)
      → VehicleSurvives v
      → Codes F C X (write_vehicle F C X v) (deserialize_vehicle F C X) v
  unfolding write_vehicle deserialize_vehicle
  vehicle-Codes v h =
      then-Codes F C X (Writer.write_uint32 F C X v.vehicle_id) _ (Reader.read_uint32 F C X) _
        v.vehicle_id v (uint32-Codes v.vehicle_id)
        (then-Codes F C X (Writer.write_string F C X v.model) _ (Reader.read_string F C X) _ v.model
          v (string-Codes v.model h.model_survives)
          (then-Codes F C X (Writer.write_float32 F C X v.fuel_level) _ (Reader.read_float32 F C X)
            _ v.fuel_level v (float32-Codes v.fuel_level h.fuel_survives)
            (then-Codes F C X (write_pressures F C X v.tire_pressure) _ (read_pressures F C X 4) _
              v.tire_pressure v (four_pressures v.tire_pressure h.pressures_fit h.four_tires)
              (then-Codes F C X (Writer.write_bool F C X v.lights_on) _ (Reader.read_bool F C X) _
                v.lights_on v (bool-Codes v.lights_on)
                (result-Codes F C X (Writer.write_uint16 F C X v.mileage) (Reader.read_uint16 F C X)
                  (λ miles. record v { mileage = miles }) v.mileage (uint16-Codes v.mileage))))))

  -- Without the extension, the server reads the vehicle that the client wrote, and all of the
  -- payload.
  pub vehicle_round_trip :
      (v : VehicleData F C X) (bytes : List ℕ)
      → VehicleSurvives v
      → serialize_vehicle_data F C X false v ≡ ok bytes
      → (d : Deserializer F C X) × (deserialize_vehicle F C X (new_deserializer F C X false bytes)
          ≡ (ok v, d))
        × (remaining F C X d ≡ 0)
  unfolding serialize_vehicle_data
  vehicle_round_trip v bytes h e = payload_back F C X (deserialize_vehicle F C X) v bytes (
      finish-Takes F C X (write_vehicle F C X v) (deserialize_vehicle F C X) v bytes
        (vehicle-Codes v h) e)

  pub reading-Takes :
      (r : SensorReading F C X) (bytes : List ℕ)
      → ReadingSurvives r
      → serialize_sensor_reading F C X false r ≡ ok bytes
      → Takes F C X (deserialize_sensor_reading F C X) bytes r
  unfolding serialize_sensor_reading
  reading-Takes r bytes h e =
      finish-Takes F C X (write_reading F C X r) (deserialize_sensor_reading F C X) r bytes
        (reading-Codes r h) e

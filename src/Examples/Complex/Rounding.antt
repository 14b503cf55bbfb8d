-- ===== src/Examples/Complex/Rounding.antt =====
-- The array of readings on its way to the client, where the format of 4 bytes rounds the values.
use opensomeip_python.Prelude.{
  ℕ, suc, ◌≡◌, refl, sym, ap, ◌∙◌, fun_ext, false, List, [], ◌∷◌, All, length, map,
}
use opensomeip_python.Prelude.Int.{pos}
use opensomeip_python.Exceptions.{ok}
use opensomeip_python.Serialization.Native.{Floats, Codec, Extension}
use opensomeip_python.Serialization.Writer
use opensomeip_python.Serialization.Writer.{Serializer, new_serializer, to_bytes, then_write}
use opensomeip_python.Serialization.Reader.{Deserializer, new_deserializer, remaining}
use opensomeip_python.Serialization.Values.{Survives, uint8, text}
use opensomeip_python.Examples.Complex.{
  SensorReading, finish, write_item, write_items, write_reading, serialize_sensor_reading,
  serialize_sensor_array, read_sensor_array,
}
use opensomeip_python.Examples.Complex.Structures.{ReadingSurvives}
use opensomeip_python.Examples.Complex.Arrays.{array_round_trip}

-- What the format of 4 bytes makes of a float: the rounded one has the same bytes, and it is what the
-- four bytes are unpacked to.
pub record Rounds (F : Floats) (round : F.Float → F.Float) : Type 0 where
  pub same_bytes : (v : F.Float) → F.pack32 (round v) ≡ F.pack32 v
  pub read_back :
      (v : F.Float) (bytes : List ℕ)
      → F.pack32 v ≡ ok bytes
      → (length bytes ≡ 4) × (F.unpack32 bytes ≡ round v)

module _ (F : Floats) (C : Codec) (X : Extension F) (round : F.Float → F.Float)
    (rounds : Rounds F round) where
  abbrev pub rounded : SensorReading F C X → SensorReading F C X
  rounded r = record r { value = round r.value }

  -- The sensor is a byte, and the codec decodes what it encodes of the unit.
  abbrev pub ReadingFits : SensorReading F C X → Type 0
  ReadingFits r = Survives F C X (uint8 r.sensor_id) × Survives F C X (text r.unit)

  rounded-ReadingSurvives :
      (r : SensorReading F C X) → ReadingFits r → ReadingSurvives F C X (rounded r)
  rounded-ReadingSurvives r (sensor, unit) = record {
    sensor_fits = sensor;
    value_survives =
        λ bytes e. rounds.read_back r.value bytes (sym (rounds.same_bytes r.value) ∙ e);
    unit_survives = unit;
  }

  rounded-All :
      (rs : List (SensorReading F C X))
      → All ReadingFits rs
      → All (ReadingSurvives F C X) (map rounded rs)
  rounded-All [] h = tt
  rounded-All (r ∷ rs) h = (rounded-ReadingSurvives r h.0, rounded-All rs h.1)

  same_reading :
      (r : SensorReading F C X)
      → serialize_sensor_reading F C X false (rounded r) ≡ serialize_sensor_reading F C X false r
  unfolding serialize_sensor_reading write_reading Writer.write_uint8 Writer.write_float32
      new_serializer
  same_reading r = rw (rounds.same_bytes r.value) refl

  same_items :
      (rs : List (SensorReading F C X)) (s : Serializer F C X)
      → write_items F C X false (map rounded rs) s ≡ write_items F C X false rs s
  unfolding write_items
  same_items [] s = refl
  same_items (r ∷ rs) s =
      ap
        (λ t.
          then_write F C X (write_item F C X false t s) (write_items F C X false (map rounded rs)))
        (same_reading r)
      ∙ ap
          (λ k.
            then_write F C X (write_item F C X false (serialize_sensor_reading F C X false r) s) k)
          (fun_ext (same_items rs))

  length-rounded : (rs : List (SensorReading F C X)) → length (map rounded rs) ≡ length rs
  length-rounded [] = refl
  length-rounded (r ∷ rs) = ap suc (length-rounded rs)

  same_array :
      (rs : List (SensorReading F C X))
      → serialize_sensor_array F C X false (map rounded rs) ≡ serialize_sensor_array F C X false rs
  unfolding serialize_sensor_array
  same_array rs =
      ap
        (λ n. finish F C X (
          then_write F C X (Writer.write_uint32 F C X (pos n) (new_serializer F C X false))
            (write_items F C X false (map rounded rs))))
        (length-rounded rs)
      ∙ ap
          (λ k. finish F C X (
            then_write F C X
              (Writer.write_uint32 F C X (pos (length rs)) (new_serializer F C X false)) k))
          (fun_ext (same_items rs))

  -- Without the extension, and with a format of 4 bytes that rounds: the client's loop reads the
  -- readings that the server put into the array, in order and however many, each with its value
  -- rounded, and all of the payload, if the array was serialized without an exception, every sensor
  -- is in 0..255 and the codec decodes what it encodes of the units.
  pub rounded_array_round_trip :
      (rs : List (SensorReading F C X)) (bytes : List ℕ)
      → All ReadingFits rs
      → serialize_sensor_array F C X false rs ≡ ok bytes
      → (d : Deserializer F C X) × (read_sensor_array F C X false
            (new_deserializer F C X false bytes)
          ≡ (ok (map rounded rs), d))
        × (remaining F C X d ≡ 0)
  rounded_array_round_trip rs bytes h e =
      array_round_trip F C X (map rounded rs) bytes (rounded-All rs h) (same_array rs ∙ e)

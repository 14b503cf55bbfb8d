-- ===== src/Examples/Complex/Arrays.antt =====
-- The array of readings that the server serializes, as the client's loop reads it.
use opensomeip_python.Prelude.{
  ℕ, ◌≡◌, refl, sym, ap, ◌∙◌, false, List, [], ◌∷◌, All, length, arith, inl, inr,
}
use opensomeip_python.Prelude.Int.{pos}
use opensomeip_python.Exceptions.{Result, ok, err, Result-cases}
use opensomeip_python.Serialization.Native.{Floats, Codec, Extension}
use opensomeip_python.Serialization.Writer
use opensomeip_python.Serialization.Writer.{Serializer, new_serializer, to_bytes, then_write, Write}
use opensomeip_python.Serialization.Reader
use opensomeip_python.Serialization.Reader.{
  Deserializer, Read, new_deserializer, remaining, then_read,
}
use opensomeip_python.Serialization.Reading.{Takes}
use opensomeip_python.Examples.Complex.{
  SensorReading, write_item, write_items, read_items, serialize_sensor_array, read_sensor_array,
  serialize_sensor_reading, deserialize_sensor_reading,
}
use opensomeip_python.Examples.Complex.Codes.{
  Codes, nothing-Codes, then-Codes, result-Codes, finish-Takes, payload_back,
}
use opensomeip_python.Examples.Complex.Structures.{uint32-Codes, ReadingSurvives, reading-Takes}

module _ (F : Floats) (C : Codec) (X : Extension F) where
  raw-Codes :
      {A : Type 0} (bytes : List ℕ) (m : Read F C X A) (a : A)
      → Takes F C X m bytes a
      → Codes F C X (Writer.write_bytes_raw F C X bytes) m a
  unfolding Writer.write_bytes_raw
  raw-Codes bytes m a t s s' e w = (bytes, ground (arith, e, w), t)

  -- `_length = des.read_uint32()` and the fields of a reading.
  abbrev read_item : Read F C X (SensorReading F C X)
  read_item d =
      then_read F C X (Reader.read_uint32 F C X d) (λ size. deserialize_sensor_reading F C X)

  item-Codes :
      (r : SensorReading F C X)
      → ReadingSurvives F C X r
      → Codes F C X (write_item F C X false (serialize_sensor_reading F C X false r)) read_item r
  item-Codes r h s s' e w = elim (Result-cases (serialize_sensor_reading F C X false r)) [
    | inr (x, fails) ↦ absurd (ground (arith, w, fails))
    | inl (bytes, made) ↦
        then-Codes F C X (Writer.write_uint32 F C X (pos (length bytes)))
          (Writer.write_bytes_raw F C X bytes) (Reader.read_uint32 F C X) _ (pos (length bytes)) r
          (uint32-Codes F C X (pos (length bytes)))
          (raw-Codes bytes (deserialize_sensor_reading F C X) r
            (reading-Takes F C X r bytes h made))
          s s' e (ap (λ t. write_item F C X false t s) (sym made) ∙ w)
  ]

  then_read_assoc :
      {A B D : Type 0} (t : Result A × Deserializer F C X) (k : A → Read F C X B)
      (j : B → Read F C X D)
      → then_read F C X t (λ a d. then_read F C X (k a d) j)
        ≡ then_read F C X (then_read F C X t k) j
  then_read_assoc (ok a, d) k j = refl
  then_read_assoc (err x, d) k j = refl

  pointwise-Codes :
      {A : Type 0} (w : Write F C X) (m n : Read F C X A) (a : A)
      → ((d : Deserializer F C X) → n d ≡ m d)
      → Codes F C X w m a
      → Codes F C X w n a
  pointwise-Codes w m n a same c s s' e h =
      let (bytes, written, t) = c s s' e h in
      (bytes, written, λ d rest at. let (d', back, left) = t d rest at in (d', same d ∙ back, left))

  items-Codes :
      (rs : List (SensorReading F C X))
      → All (ReadingSurvives F C X) rs
      → Codes F C X (write_items F C X false rs) (read_items F C X false (length rs)) rs
  unfolding write_items read_items
  items-Codes [] h = nothing-Codes F C X []
  items-Codes (r ∷ rs) h =
      let first = write_item F C X false (serialize_sensor_reading F C X false r) in
      pointwise-Codes (write_items F C X false (r ∷ rs))
        (λ d. then_read F C X (read_item d) λ x d2.
          then_read F C X (read_items F C X false (length rs) d2) λ xs d3. (ok (x ∷ xs), d3))
        (read_items F C X false (length (r ∷ rs))) (r ∷ rs)
        (λ d. then_read_assoc (Reader.read_uint32 F C X d) _ _)
        (then-Codes F C X first (write_items F C X false rs) read_item _ r (r ∷ rs)
          (item-Codes r h.0)
          (result-Codes F C X (write_items F C X false rs) (read_items F C X false (length rs))
            (λ xs. r ∷ xs) rs (items-Codes rs h.1)))

  -- Without the extension, the client's loop reads the readings that the server put into the array,
  -- in order and however many, and all of the payload, if each of the readings survives: its sensor
  -- is in 0..255, the format of 4 bytes keeps its value, and the codec decodes what it encoded of
  -- the unit.
  pub array_round_trip :
      (rs : List (SensorReading F C X)) (bytes : List ℕ)
      → All (ReadingSurvives F C X) rs
      → serialize_sensor_array F C X false rs ≡ ok bytes
      → (d : Deserializer F C X) × (read_sensor_array F C X false
            (new_deserializer F C X false bytes)
          ≡ (ok rs, d))
        × (remaining F C X d ≡ 0)
  unfolding serialize_sensor_array read_sensor_array
  array_round_trip rs bytes h e = payload_back F C X (read_sensor_array F C X false) rs bytes (
      finish-Takes F C X
        (λ s.
          then_write F C X (Writer.write_uint32 F C X (pos (length rs)) s)
            (write_items F C X false rs))
        (read_sensor_array F C X false) rs bytes
        (then-Codes F C X (Writer.write_uint32 F C X (pos (length rs))) (write_items F C X false rs)
          (Reader.read_uint32 F C X) _ (pos (length rs)) rs (uint32-Codes F C X (pos (length rs)))
          (items-Codes rs h))
        e)

-- ===== src/Serialization/Bounds.antt =====
-- How far a read of one value of a fixed size moves, and when it fails.
use opensomeip_python.Prelude.{
  ℕ, ◌+◌, ◌≤◌, ◌<◌, ◌≡◌, ◌⊎◌, inl, inr, dec_lt, Option, none, some, List, take, drop, length, arith,
}
use opensomeip_python.Exceptions.{Result, ok, err, value_error}
use opensomeip_python.Serialization.Struct.{unpack_unsigned, unpack_signed}
use opensomeip_python.Serialization.Native.{Floats, Codec, Extension}
use opensomeip_python.Serialization.Reader
use opensomeip_python.Serialization.Reader.{Deserializer, Read, read_slice, read_by, as_bool}
use opensomeip_python.Serialization.Values.{
  Value, boolean, uint8, uint16, uint32, uint64, int8, int16, int32, int64, float32, float64, blob,
  text, read, wrap,
}

module _ (F : Floats) (C : Codec) (X : Extension F) where
  -- The bytes of a value of fixed size.
  abbrev pub width : Value F C X → Option ℕ
  width (boolean v) = some 1
  width (uint8 v) = some 1
  width (uint16 v) = some 2
  width (uint32 v) = some 4
  width (uint64 v) = some 8
  width (int8 v) = some 1
  width (int16 v) = some 2
  width (int32 v) = some 4
  width (int64 v) = some 8
  width (float32 v) = some 4
  width (float64 v) = some 8
  width _ = none

  -- A read that takes this many bytes, or none at all.
  abbrev pub TakesWidth : Read F C X (Value F C X) → ℕ → Type 0
  TakesWidth m w =
      (d : Deserializer F C X)
      → d.cpp ≡ none
      → (d.offset + w ≤ length d.bytes
          → (a : Value F C X) × (m d ≡ (ok a, record d { offset = d.offset + w })))
        × (length d.bytes < d.offset + w → m d ≡ (err value_error, d))

  primitive :
      {A : Type 0} (f : A → Value F C X) (method : X.In → Result A × X.In) (w n : ℕ)
      (decode : List ℕ → A)
      → some n ≡ some w
      → TakesWidth (wrap F C X f (read_by F C X method n decode)) w
  unfolding read_slice
  primitive f method w n decode e d h = (
    λ fits. (f (decode (take n (drop d.offset d.bytes))), ground (arith, h, e, fits)),
    λ short. ground (arith, h, e, short),
  )

  read-TakesWidth : (v : Value F C X) (w : ℕ) → width v ≡ some w → TakesWidth (read F C X v) w
  unfolding read Reader.read_bool Reader.read_uint8 Reader.read_uint16 Reader.read_uint32
      Reader.read_uint64 Reader.read_int8 Reader.read_int16 Reader.read_int32 Reader.read_int64
      Reader.read_float32 Reader.read_float64
  read-TakesWidth (boolean v) w e = primitive boolean X.deserialize_bool w 1 (as_bool F C X) e
  read-TakesWidth (uint8 v) w e =
      primitive uint8 (X.deserialize_unsigned 1) w 1 (unpack_unsigned 1) e
  read-TakesWidth (uint16 v) w e =
      primitive uint16 (X.deserialize_unsigned 2) w 2 (unpack_unsigned 2) e
  read-TakesWidth (uint32 v) w e =
      primitive uint32 (X.deserialize_unsigned 4) w 4 (unpack_unsigned 4) e
  read-TakesWidth (uint64 v) w e =
      primitive uint64 (X.deserialize_unsigned 8) w 8 (unpack_unsigned 8) e
  read-TakesWidth (int8 v) w e = primitive int8 (X.deserialize_signed 1) w 1 (unpack_signed 1) e
  read-TakesWidth (int16 v) w e = primitive int16 (X.deserialize_signed 2) w 2 (unpack_signed 2) e
  read-TakesWidth (int32 v) w e = primitive int32 (X.deserialize_signed 4) w 4 (unpack_signed 4) e
  read-TakesWidth (int64 v) w e = primitive int64 (X.deserialize_signed 8) w 8 (unpack_signed 8) e
  read-TakesWidth (float32 v) w e = primitive float32 X.deserialize_float w 4 F.unpack32 e
  read-TakesWidth (float64 v) w e = primitive float64 X.deserialize_double w 8 F.unpack64 e
  read-TakesWidth (blob v) w e = absurd (ground (arith, e))
  read-TakesWidth (text v) w e = absurd (ground (arith, e))

  -- Without the extension, a read of a value of fixed size raises `ValueError` and stays where it is
  -- if fewer bytes are left than the value has. Else it returns a value and moves on by its size.
  pub read-width :
      (v : Value F C X) (w : ℕ) (d : Deserializer F C X)
      → width v ≡ some w
      → d.cpp ≡ none
      → ((d.offset + w ≤ length d.bytes)
          × (a : Value F C X) × (read F C X v d ≡ (ok a, record d { offset = d.offset + w })))
        ⊎ ((length d.bytes < d.offset + w) × (read F C X v d ≡ (err value_error, d)))
  read-width v w d e h =
      let (takes, refuses) = read-TakesWidth v w e d h in
      elim (dec_lt (length d.bytes) (d.offset + w)) [
        | yes short ↦ inr (short, refuses short)
        | no enough ↦
            let (a, got) = takes (omega (arith, enough)) in inl (omega (arith, enough), a, got)
      ]

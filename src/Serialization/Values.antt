-- ===== src/Serialization/Values.antt =====
-- Values of every type that the two classes handle, written by one and read by the other.
use opensomeip_python.Prelude.{ℕ, ◌<◌, ◌≡◌, Bool, List, [], ◌∷◌, length}
use opensomeip_python.Prelude.Int.{ℤ, pos}
use opensomeip_python.Exceptions.{ok, map_result}
use opensomeip_python.Serialization.Native.{Floats, Codec, Extension}
use opensomeip_python.Serialization.Writer
use opensomeip_python.Serialization.Writer.{
  Serializer, Write, new_serializer, to_bytes, extend, write_by, then_write, write_encoded,
}
use opensomeip_python.Serialization.Reader
use opensomeip_python.Serialization.Reader.{
  Deserializer, Read, new_deserializer, remaining, read_by, then_read, strip_nul, as_bool,
}

module _ (F : Floats) (C : Codec) (X : Extension F) where
  pub data Value : Type 0 where
    boolean : Bool → Value
    uint8 uint16 uint32 uint64 int8 int16 int32 int64 : ℤ → Value
    float32 float64 : F.Float → Value
    blob : List ℕ → Value
    text : C.Text → Value

  unfoldable pub write : Value → Write F C X
  write (boolean v) = Writer.write_bool F C X v
  write (uint8 v) = Writer.write_uint8 F C X v
  write (uint16 v) = Writer.write_uint16 F C X v
  write (uint32 v) = Writer.write_uint32 F C X v
  write (uint64 v) = Writer.write_uint64 F C X v
  write (int8 v) = Writer.write_int8 F C X v
  write (int16 v) = Writer.write_int16 F C X v
  write (int32 v) = Writer.write_int32 F C X v
  write (int64 v) = Writer.write_int64 F C X v
  write (float32 v) = Writer.write_float32 F C X v
  write (float64 v) = Writer.write_float64 F C X v
  write (blob v) = Writer.write_bytes F C X v
  write (text v) = Writer.write_string F C X v

  abbrev pub wrap : {A : Type 0} → (A → Value) → Read F C X A → Read F C X Value
  wrap f m d = (map_result f (m d).0, (m d).1)

  -- Reads a value of the same type as the given one.
  unfoldable pub read : Value → Read F C X Value
  read (boolean v) = wrap boolean (Reader.read_bool F C X)
  read (uint8 v) = wrap uint8 (Reader.read_uint8 F C X)
  read (uint16 v) = wrap uint16 (Reader.read_uint16 F C X)
  read (uint32 v) = wrap uint32 (Reader.read_uint32 F C X)
  read (uint64 v) = wrap uint64 (Reader.read_uint64 F C X)
  read (int8 v) = wrap int8 (Reader.read_int8 F C X)
  read (int16 v) = wrap int16 (Reader.read_int16 F C X)
  read (int32 v) = wrap int32 (Reader.read_int32 F C X)
  read (int64 v) = wrap int64 (Reader.read_int64 F C X)
  read (float32 v) = wrap float32 (Reader.read_float32 F C X)
  read (float64 v) = wrap float64 (Reader.read_float64 F C X)
  read (blob v) = wrap blob (Reader.read_bytes F C X)
  read (text v) = wrap text (Reader.read_string F C X)

  -- What a value needs to survive beyond being accepted: a uint8 is in range, since `write_uint8`
  -- cuts off the rest; a float's format keeps it; the codec decodes what it encoded.
  abbrev pub Survives : Value → Type 0
  Survives (uint8 v) = (n : ℕ) × (v ≡ pos n) × (n < 256)
  Survives (float32 v) =
      (bytes : List ℕ) → F.pack32 v ≡ ok bytes → (length bytes ≡ 4) × (F.unpack32 bytes ≡ v)
  Survives (float64 v) =
      (bytes : List ℕ) → F.pack64 v ≡ ok bytes → (length bytes ≡ 8) × (F.unpack64 bytes ≡ v)
  Survives (text v) = (bytes : List ℕ) → C.encode v ≡ ok bytes → C.decode bytes ≡ ok v
  Survives _ = Unit {0}

  -- One value after another, until a call raises.
  unfoldable pub write_all : List Value → Write F C X
  write_all [] s = (ok tt, s)
  write_all (v ∷ vs) s = then_write F C X (write v s) (write_all vs)

  unfoldable pub read_all : List Value → Read F C X (List Value)
  read_all [] d = (ok [], d)
  read_all (v ∷ vs) d =
      then_read F C X (read v d)
        λ a d1. then_read F C X (read_all vs d1) λ rest d2. (ok (a ∷ rest), d2)

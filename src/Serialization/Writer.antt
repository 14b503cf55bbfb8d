-- ===== src/Serialization/Writer.antt =====
-- `Serializer`. With the extension every value goes to its serializer, else to the byte buffer.
use opensomeip_python.Prelude.{
  ℕ, Bool, true, false, Option, none, some, List, [], ◌∷◌, ◌++◌, length, if◌then◌else◌,
}
use opensomeip_python.Prelude.Int.{ℤ, pos, low_bits}
use opensomeip_python.Exceptions.{Result, ok, err}
use opensomeip_python.Serialization.Struct.{pack_unsigned, pack_signed}
use opensomeip_python.Serialization.Native.{Floats, Codec, Extension}

module _ (F : Floats) (C : Codec) (X : Extension F) where
  pub record Serializer : Type 0 where
    pub buf : List ℕ
    pub cpp : Option X.Out

  -- `Serializer()`, with or without the extension.
  unfoldable pub new_serializer : Bool → Serializer
  new_serializer true = record { buf = []; cpp = some X.fresh }
  new_serializer false = record { buf = []; cpp = none }

  abbrev pub Write : Type 0
  Write = Serializer → Result (Unit {0}) × Serializer

  abbrev pub extend : Result (List ℕ) → Write
  extend (ok bytes) s = (ok tt, record s { buf = s.buf ++ bytes })
  extend (err e) s = (err e, s)

  -- The shape of every primitive write: the extension's method, or the bytes for the buffer.
  abbrev pub write_by : (X.Out → Result (Unit {0}) × X.Out) → Result (List ℕ) → Write
  write_by method bytes s = elim s.cpp [
    | none ↦ extend bytes s
    | some out ↦ ((method out).0, record s { cpp = some (method out).1 })
  ]

  unfoldable pub write_bool : Bool → Write
  write_bool v = write_by (X.serialize_bool v) (ok ((if v then 1 else 0) ∷ []))

  unfoldable pub write_uint8 : ℤ → Write
  write_uint8 v = write_by (X.serialize_unsigned 1 v) (ok (low_bits v 8 ∷ []))

  unfoldable pub write_uint16 : ℤ → Write
  write_uint16 v = write_by (X.serialize_unsigned 2 v) (pack_unsigned 2 v)

  unfoldable pub write_uint32 : ℤ → Write
  write_uint32 v = write_by (X.serialize_unsigned 4 v) (pack_unsigned 4 v)

  unfoldable pub write_uint64 : ℤ → Write
  write_uint64 v = write_by (X.serialize_unsigned 8 v) (pack_unsigned 8 v)

  unfoldable pub write_int8 : ℤ → Write
  write_int8 v = write_by (X.serialize_signed 1 v) (pack_signed 1 v)

  unfoldable pub write_int16 : ℤ → Write
  write_int16 v = write_by (X.serialize_signed 2 v) (pack_signed 2 v)

  unfoldable pub write_int32 : ℤ → Write
  write_int32 v = write_by (X.serialize_signed 4 v) (pack_signed 4 v)

  unfoldable pub write_int64 : ℤ → Write
  write_int64 v = write_by (X.serialize_signed 8 v) (pack_signed 8 v)

  unfoldable pub write_float32 : F.Float → Write
  write_float32 v = write_by (X.serialize_float v) (F.pack32 v)

  unfoldable pub write_float64 : F.Float → Write
  write_float64 v = write_by (X.serialize_double v) (F.pack64 v)

  -- One statement after another: an exception skips the rest.
  abbrev pub then_write : Result (Unit {0}) × Serializer → Write → Result (Unit {0}) × Serializer
  then_write (ok u, s) k = k s
  then_write (err e, s) k = (err e, s)

  -- `for b in value: self._cpp.serialize_uint8(b)`
  serialize_each : List ℕ → X.Out → Result (Unit {0}) × X.Out
  serialize_each [] out = (ok tt, out)
  serialize_each (b ∷ bytes) out =
      let later = serialize_each bytes (X.serialize_unsigned 1 (pos b) out).1 in
      elim (X.serialize_unsigned 1 (pos b) out).0 [
        | ok u ↦ later
        | err e ↦ X.serialize_unsigned 1 (pos b) out
      ]

  unfoldable pub write_bytes_raw : List ℕ → Write
  unfolding serialize_each
  write_bytes_raw bytes = write_by (serialize_each bytes) (ok bytes)

  unfoldable pub write_bytes : List ℕ → Write
  unfolding write_uint32 write_bytes_raw
  write_bytes bytes s = then_write (write_uint32 (pos (length bytes)) s) (write_bytes_raw bytes)

  abbrev pub write_encoded : Result (List ℕ) → Write
  write_encoded (ok bytes) s =
      then_write (write_uint32 (pos (length (bytes ++ 0 ∷ []))) s)
        (write_bytes_raw (bytes ++ 0 ∷ []))
  write_encoded (err e) s = (err e, s)

  unfoldable pub write_string : C.Text → Write
  unfolding write_uint32 write_bytes_raw
  write_string text = write_encoded (C.encode text)

  unfoldable pub to_bytes : Serializer → List ℕ
  to_bytes s = elim s.cpp [ none ↦ s.buf | some out ↦ X.get_buffer out ]

  unfoldable pub reset : Serializer → Serializer
  reset s = elim s.cpp [
    | none ↦ record s { buf = [] }
    | some out ↦ record { buf = []; cpp = some (X.reset_out out) }
  ]

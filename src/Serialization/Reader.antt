-- ===== src/Serialization/Reader.antt =====
-- `Deserializer`. A position never passes the end of the data.
use opensomeip_python.Prelude.{
  ℕ, zero, suc, ◌+◌, ◌-◌, Bool, true, false, not, Option, none, some, List, [], ◌∷◌, length, take,
  drop, ltb, ◌==◌, get_last?, drop_last, if◌then◌else◌,
}
use opensomeip_python.Prelude.Int.{ℤ, to_ℕ}
use opensomeip_python.Exceptions.{Result, ok, err, value_error, map_result}
use opensomeip_python.Serialization.Struct.{unpack_unsigned, unpack_signed}
use opensomeip_python.Serialization.Native.{Floats, Codec, Extension}

module _ (F : Floats) (C : Codec) (X : Extension F) where
  -- `cpp` is the extension's object, if there is one; it is then the one in use.
  pub record Deserializer : Type 0 where
    pub bytes : List ℕ
    pub offset : ℕ
    pub cpp : Option X.In

  -- `Deserializer(data)`, with or without the extension.
  unfoldable pub new_deserializer : Bool → List ℕ → Deserializer
  new_deserializer true bytes = record {
    bytes = bytes;
    offset = 0;
    cpp = some (X.deserializer bytes);
  }
  new_deserializer false bytes = record { bytes = bytes; offset = 0; cpp = none }

  abbrev pub Read : Type 0 → Type 0
  Read A = Deserializer → Result A × Deserializer

  unfoldable pub remaining : Deserializer → ℕ
  remaining d = elim d.cpp [ none ↦ length d.bytes - d.offset | some i ↦ X.get_remaining i ]

  unfoldable pub position : Deserializer → ℕ
  position d = elim d.cpp [ none ↦ d.offset | some i ↦ X.get_position i ]

  -- `_read(n)`
  unfoldable pub read_slice : ℕ → Read (List ℕ)
  read_slice n d =
      if ltb (length d.bytes) (d.offset + n)
      then (err value_error, d)
      else (ok (take n (drop d.offset d.bytes)), record d { offset = d.offset + n })

  -- `_cpp_call`: any exception of the extension becomes a `ValueError`.
  abbrev pub cpp_call : {A : Type 0} → Result A → Result A
  cpp_call (ok a) = ok a
  cpp_call (err e) = err value_error

  -- The shape of every primitive read: the extension's method, or a slice and its decoding.
  abbrev pub read_by : {A : Type 0} → (X.In → Result A × X.In) → ℕ → (List ℕ → A) → Read A
  read_by method n decode d = elim d.cpp [
    | none ↦ (map_result decode (read_slice n d).0, (read_slice n d).1)
    | some i ↦ (cpp_call (method i).0, record d { cpp = some (method i).1 })
  ]

  -- `self._read(1)[0] != 0`
  abbrev pub as_bool : List ℕ → Bool
  as_bool [] = false
  as_bool (b ∷ bytes) = not (b == 0)

  unfoldable pub read_bool : Read Bool
  unfolding read_slice
  read_bool = read_by X.deserialize_bool 1 as_bool

  unfoldable pub read_uint8 : Read ℤ
  unfolding read_slice
  read_uint8 = read_by (X.deserialize_unsigned 1) 1 (unpack_unsigned 1)

  unfoldable pub read_uint16 : Read ℤ
  unfolding read_slice
  read_uint16 = read_by (X.deserialize_unsigned 2) 2 (unpack_unsigned 2)

  unfoldable pub read_uint32 : Read ℤ
  unfolding read_slice
  read_uint32 = read_by (X.deserialize_unsigned 4) 4 (unpack_unsigned 4)

  unfoldable pub read_uint64 : Read ℤ
  unfolding read_slice
  read_uint64 = read_by (X.deserialize_unsigned 8) 8 (unpack_unsigned 8)

  unfoldable pub read_int8 : Read ℤ
  unfolding read_slice
  read_int8 = read_by (X.deserialize_signed 1) 1 (unpack_signed 1)

  unfoldable pub read_int16 : Read ℤ
  unfolding read_slice
  read_int16 = read_by (X.deserialize_signed 2) 2 (unpack_signed 2)

  unfoldable pub read_int32 : Read ℤ
  unfolding read_slice
  read_int32 = read_by (X.deserialize_signed 4) 4 (unpack_signed 4)

  unfoldable pub read_int64 : Read ℤ
  unfolding read_slice
  read_int64 = read_by (X.deserialize_signed 8) 8 (unpack_signed 8)

  unfoldable pub read_float32 : Read F.Float
  unfolding read_slice
  read_float32 = read_by X.deserialize_float 4 F.unpack32

  unfoldable pub read_float64 : Read F.Float
  unfolding read_slice
  read_float64 = read_by X.deserialize_double 8 F.unpack64

  -- `bytes(self.read_uint8() for _ in range(n))`
  unfoldable pub read_each : ℕ → Read (List ℕ)
  read_each zero d = (ok [], d)
  read_each (suc n) d =
      let later = read_each n (read_uint8 d).1 in
      elim (read_uint8 d).0 [
        | ok b ↦ (map_result (λ bytes. to_ℕ b ∷ bytes) later.0, later.1)
        | err e ↦ (err e, (read_uint8 d).1)
      ]

  abbrev pub then_read :
      {A B : Type 0} → Result A × Deserializer → (A → Read B) → Result B × Deserializer
  then_read (ok a, d) k = k a d
  then_read (err e, d) k = (err e, d)

  unfoldable pub read_bytes : Read (List ℕ)
  unfolding read_uint32 read_each
  read_bytes d = then_read (read_uint32 d) (λ n. read_each (to_ℕ n))

  unfoldable pub read_bytes_raw : ℕ → Read (List ℕ)
  unfolding read_slice read_each
  read_bytes_raw n d = elim d.cpp [ none ↦ read_slice n d | some i ↦ read_each n d ]

  -- `if raw and raw[-1:] == b"\x00": raw = raw[:-1]`
  unfoldable pub strip_nul : List ℕ → List ℕ
  strip_nul raw = elim (get_last? raw) [
    | none ↦ raw
    | some b ↦ if b == 0 then drop_last raw else raw
  ]

  unfoldable pub read_string : Read C.Text
  unfolding read_uint32 read_each strip_nul
  read_string d =
      then_read (then_read (read_uint32 d) (λ n. read_each (to_ℕ n)))
        λ raw d'. (C.decode (strip_nul raw), d')

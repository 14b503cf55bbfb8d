-- ===== src/Serialization/RoundTrip.antt =====
-- Any sequence of values, written and then read.
use opensomeip_python.Prelude.{
  ℕ, ◌≡◌, refl, sym, ap, ◌∙◌, false, none, List, [], ◌∷◌, ◌++◌, append-nil, append_assoc, All, drop,
  arith, if◌then◌else◌,
}
use opensomeip_python.Prelude.Int.{low_bits}
use opensomeip_python.Exceptions.{ok}
use opensomeip_python.Serialization.Struct.{
  pack_unsigned, pack_signed, unpack_unsigned, unpack_signed, unpack-pack_unsigned,
  unpack-pack_signed,
}
use opensomeip_python.Serialization.Native.{Floats, Codec, Extension}
use opensomeip_python.Serialization.Writer
use opensomeip_python.Serialization.Writer.{
  Serializer, Write, new_serializer, to_bytes, extend, write_by, then_write, write_encoded,
}
use opensomeip_python.Serialization.Reader
use opensomeip_python.Serialization.Reader.{
  Deserializer, Read, new_deserializer, remaining, read_by, then_read, strip_nul, as_bool,
}
use opensomeip_python.Serialization.Reading.{At, At-length, Takes, then_read-Takes}
use opensomeip_python.Serialization.Values.{
  Value, boolean, uint8, uint16, uint32, uint64, int8, int16, int32, int64, float32, float64, blob,
  text, write, read, Survives, write_all, read_all,
}
use opensomeip_python.Serialization.Encoding.{
  Encodes, primitive, bool_back, uint8_back, then_write-ok, blob-Encodes, text-Encodes,
}

module _ (F : Floats) (C : Codec) (X : Extension F) where
  -- Every value that survives and is accepted is read back, from exactly the bytes that were added.
  pub value-Encodes : (v : Value F C X) → Survives F C X v → Encodes F C X v
  unfolding write read Writer.write_bool Writer.write_uint8 Writer.write_uint16 Writer.write_uint32
      Writer.write_uint64 Writer.write_int8 Writer.write_int16 Writer.write_int32 Writer.write_int64
      Writer.write_float32 Writer.write_float64 Reader.read_bool Reader.read_uint8
      Reader.read_uint16 Reader.read_uint32 Reader.read_uint64 Reader.read_int8 Reader.read_int16
      Reader.read_int32 Reader.read_int64 Reader.read_float32 Reader.read_float64 Writer.write_bytes
      Reader.read_bytes Writer.write_string Reader.read_string
  value-Encodes (boolean v) h =
      primitive F C X boolean v (X.serialize_bool v) X.deserialize_bool
        (ok ((if v then 1 else 0) ∷ [])) 1 (as_bool F C X) (bool_back F C X v)
  value-Encodes (uint8 v) (n, e, fits) =
      primitive F C X uint8 v (X.serialize_unsigned 1 v) (X.deserialize_unsigned 1)
        (ok (low_bits v 8 ∷ [])) 1 (unpack_unsigned 1) (λ bytes. uint8_back F C X v n bytes e fits)
  value-Encodes (uint16 v) h =
      primitive F C X uint16 v (X.serialize_unsigned 2 v) (X.deserialize_unsigned 2)
        (pack_unsigned 2 v) 2 (unpack_unsigned 2) (unpack-pack_unsigned 2 v)
  value-Encodes (uint32 v) h =
      primitive F C X uint32 v (X.serialize_unsigned 4 v) (X.deserialize_unsigned 4)
        (pack_unsigned 4 v) 4 (unpack_unsigned 4) (unpack-pack_unsigned 4 v)
  value-Encodes (uint64 v) h =
      primitive F C X uint64 v (X.serialize_unsigned 8 v) (X.deserialize_unsigned 8)
        (pack_unsigned 8 v) 8 (unpack_unsigned 8) (unpack-pack_unsigned 8 v)
  value-Encodes (int8 v) h =
      primitive F C X int8 v (X.serialize_signed 1 v) (X.deserialize_signed 1) (pack_signed 1 v) 1
        (unpack_signed 1) (λ bytes. unpack-pack_signed 1 v bytes (omega arith))
  value-Encodes (int16 v) h =
      primitive F C X int16 v (X.serialize_signed 2 v) (X.deserialize_signed 2) (pack_signed 2 v) 2
        (unpack_signed 2) (λ bytes. unpack-pack_signed 2 v bytes (omega arith))
  value-Encodes (int32 v) h =
      primitive F C X int32 v (X.serialize_signed 4 v) (X.deserialize_signed 4) (pack_signed 4 v) 4
        (unpack_signed 4) (λ bytes. unpack-pack_signed 4 v bytes (omega arith))
  value-Encodes (int64 v) h =
      primitive F C X int64 v (X.serialize_signed 8 v) (X.deserialize_signed 8) (pack_signed 8 v) 8
        (unpack_signed 8) (λ bytes. unpack-pack_signed 8 v bytes (omega arith))
  value-Encodes (float32 v) h =
      primitive F C X float32 v (X.serialize_float v) X.deserialize_float (F.pack32 v) 4 F.unpack32
        (λ bytes e. ((h bytes e).1, (h bytes e).0))
  value-Encodes (float64 v) h =
      primitive F C X float64 v (X.serialize_double v) X.deserialize_double (F.pack64 v) 8
        F.unpack64 (λ bytes e. ((h bytes e).1, (h bytes e).0))
  value-Encodes (blob v) h = blob-Encodes F C X v
  value-Encodes (text v) h = text-Encodes F C X v h

  write_all-Takes :
      (vs : List (Value F C X)) (s s' : Serializer F C X)
      → All (Survives F C X) vs
      → s.cpp ≡ none
      → write_all F C X vs s ≡ (ok tt, s')
      → (bytes : List ℕ) × (s' ≡ record s { buf = s.buf ++ bytes })
        × Takes F C X (read_all F C X vs) bytes vs
  unfolding write_all read_all
  write_all-Takes [] s s' h e w =
      ([], ground (arith, w, append-nil s.buf), λ d rest at. (d, refl, at))
  write_all-Takes (v ∷ vs) s s' h e w =
      let (first, second) = then_write-ok F C X (write F C X v s) (write_all F C X vs) s' w in
      let (xs, w1, t1) = value-Encodes v h.0 s _ e first in
      let (ys, w2, t2) =
        write_all-Takes vs _ s' h.1 (ap (λ (t : Serializer F C X). t.cpp) w1 ∙ e) second in
      (
        xs ++ ys,
        w2
            ∙ ap (λ (t : Serializer F C X). record t { buf = t.buf ++ ys }) w1
            ∙ ap (λ (b : List ℕ). record s { buf = b }) (append_assoc s.buf xs ys),
        then_read-Takes F C X (read F C X v)
            (λ a d1. then_read F C X (read_all F C X vs d1) λ rest d2. (ok (a ∷ rest), d2)) xs ys v
            (v ∷ vs) t1
            λ d rest at. let (d', read_back, left) = t2 d rest at in (d', rw read_back, left),
      )

  pub starts-At :
      (bytes : List ℕ) → At F C X (record { bytes = bytes; offset = 0; cpp = none }) (bytes ++ [])
  unfolding drop
  starts-At [] = record { in_python = refl; within = omega arith; here = refl }
  starts-At (x ∷ xs) = record {
    in_python = refl;
    within = omega arith;
    here = sym (append-nil (x ∷ xs));
  }

  pub finished : (d : Deserializer F C X) → At F C X d [] → remaining F C X d ≡ 0
  unfolding remaining
  finished d at = ground (arith, at.in_python, at.within, At-length F C X d [] at)

  -- Without the extension, a sequence of values is read back in the same order from the finished
  -- payload, and nothing is left over, if it is written without an exception and each of the values
  -- survives on its own: an 8-bit unsigned value is in 0..255, the parameter for floating-point
  -- formats packs each float into its width and unpacks the bytes to the same float, and the one for
  -- text codecs decodes the bytes of each text to the same text.
  pub read_all-write_all :
      (vs : List (Value F C X)) (s : Serializer F C X)
      → All (Survives F C X) vs
      → write_all F C X vs (new_serializer F C X false) ≡ (ok tt, s)
      → (d : Deserializer F C X) × (read_all F C X vs
            (new_deserializer F C X false (to_bytes F C X s))
          ≡ (ok vs, d))
        × (remaining F C X d ≡ 0)
  unfolding new_serializer new_deserializer to_bytes
  read_all-write_all vs s h w =
      let (bytes, written, t) = write_all-Takes vs (new_serializer F C X false) s h refl w in
      let d0 : Deserializer F C X = record { bytes = bytes; offset = 0; cpp = none } in
      let (d, read_back, left) = t d0 [] (starts-At bytes) in
      let same : to_bytes F C X s ≡ bytes = ap (to_bytes F C X) written in
      (d, rw same read_back, finished d left)

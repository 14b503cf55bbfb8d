-- ===== src/Serialization/Encoding.antt =====
-- What a write adds to the payload, type by type, and that the read of that type takes it back.
use opensomeip_python.Prelude.{
  ℕ, ◌<◌, ◌≡◌, refl, ap, ◌∙◌, Bool, none, List, [], ◌∷◌, ◌++◌, append_assoc, length,
  get_last?-append, drop_last-append, arith, if◌then◌else◌,
}
use opensomeip_python.Prelude.Int.{ℤ, pos, negsuc, to_ℕ, low_bits}
use opensomeip_python.Exceptions.{Result, ok, err}
use opensomeip_python.Serialization.Struct.{
  pack_unsigned, unpack_unsigned, unpack-pack_unsigned, from_be,
}
use opensomeip_python.Serialization.Native.{Floats, Codec, Extension}
use opensomeip_python.Serialization.Writer
use opensomeip_python.Serialization.Writer.{
  Serializer, Write, new_serializer, to_bytes, extend, write_by, then_write, write_encoded,
}
use opensomeip_python.Serialization.Reader
use opensomeip_python.Serialization.Reader.{
  Deserializer, Read, new_deserializer, remaining, read_by, then_read, strip_nul, as_bool,
}
use opensomeip_python.Serialization.Reading.{Takes, read_by-Takes, read_each-Takes, then_read-Takes}
use opensomeip_python.Serialization.Values.{Value, blob, text, write, read, wrap, Survives}

module _ (F : Floats) (C : Codec) (X : Extension F) where
  -- The bytes that a successful write adds without the extension are those that the read takes.
  abbrev pub Encodes : Value F C X → Type 0
  Encodes v =
      (s s' : Serializer F C X)
      → s.cpp ≡ none
      → write F C X v s ≡ (ok tt, s')
      → (bytes : List ℕ) × (s' ≡ record s { buf = s.buf ++ bytes })
        × Takes F C X (read F C X v) bytes v

  wrap-Takes :
      {A : Type 0} (f : A → Value F C X) (m : Read F C X A) (bytes : List ℕ) (a : A)
      → Takes F C X m bytes a
      → Takes F C X (wrap F C X f m) bytes (f a)
  wrap-Takes f m bytes a t d rest at = let (d', e, left) = t d rest at in (d', rw e, left)

  -- A primitive write adds the packed bytes.
  write_by-ok :
      (method : X.Out → Result (Unit {0}) × X.Out) (packed : Result (List ℕ))
      (s s' : Serializer F C X)
      → s.cpp ≡ none
      → write_by F C X method packed s ≡ (ok tt, s')
      → (bytes : List ℕ) × (packed ≡ ok bytes) × (s' ≡ record s { buf = s.buf ++ bytes })
  write_by-ok method (ok bytes) s s' e h = (bytes, refl, ground (arith, e, h))
  write_by-ok method (err x) s s' e h = absurd (ground (arith, e, h))

  -- A primitive type: the write packs, and the read unpacks what was packed.
  pub primitive :
      {A : Type 0} (f : A → Value F C X) (a : A) (out : X.Out → Result (Unit {0}) × X.Out)
      (inp : X.In → Result A × X.In) (packed : Result (List ℕ)) (n : ℕ) (decode : List ℕ → A)
      → ((bytes : List ℕ) → packed ≡ ok bytes → (decode bytes ≡ a) × (length bytes ≡ n))
      → (s s' : Serializer F C X) → s.cpp ≡ none
      → write_by F C X out packed s ≡ (ok tt, s')
      → (bytes : List ℕ) × (s' ≡ record s { buf = s.buf ++ bytes })
        × Takes F C X (wrap F C X f (read_by F C X inp n decode)) bytes (f a)
  primitive f a out inp packed n decode back s s' e h =
      let (bytes, packs, written) = write_by-ok out packed s s' e h in
      let (value, width) = back bytes packs in
      (
        bytes,
        written,
        wrap-Takes f (read_by F C X inp n decode) bytes a
            (read_by-Takes F C X inp n decode bytes a width value),
      )

  pub bool_back :
      (v : Bool) (bytes : List ℕ)
      → ok ((if v then 1 else 0) ∷ []) ≡ ok bytes
      → (as_bool F C X bytes ≡ v) × (length bytes ≡ 1)
  bool_back v bytes e = ground arith

  pub uint8_back :
      (v : ℤ) (n : ℕ) (bytes : List ℕ)
      → v ≡ pos n
      → n < 256
      → ok (low_bits v 8 ∷ []) ≡ ok bytes
      → (unpack_unsigned 1 bytes ≡ v) × (length bytes ≡ 1)
  unfolding unpack_unsigned from_be
  uint8_back (pos m) n bytes h fits e = ground arith
  uint8_back (negsuc m) n bytes h fits e = absurd (ground arith)

  pub then_write-ok :
      (first : Result (Unit {0}) × Serializer F C X) (k : Write F C X) (s' : Serializer F C X)
      → then_write F C X first k ≡ (ok tt, s')
      → (first ≡ (ok tt, first.1)) × (k first.1 ≡ (ok tt, s'))
  then_write-ok (ok u, s) k s' h = (refl, h)
  then_write-ok (err e, s) k s' h = absurd (ground (arith, h))

  raw-ok :
      (bytes : List ℕ) (s s' : Serializer F C X)
      → s.cpp ≡ none
      → Writer.write_bytes_raw F C X bytes s ≡ (ok tt, s')
      → s' ≡ record s { buf = s.buf ++ bytes }
  unfolding Writer.write_bytes_raw
  raw-ok bytes s s' e h = ground (arith, e, h)

  -- A length and then the bytes.
  counted :
      (bytes : List ℕ) (s s' : Serializer F C X)
      → s.cpp ≡ none
      → then_write F C X
          (Writer.write_uint32 F C X (pos (length bytes)) s)
          (Writer.write_bytes_raw F C X bytes)
        ≡ (ok tt, s')
      → (prefix : List ℕ) × (s' ≡ record s { buf = s.buf ++ (prefix ++ bytes) })
        × Takes F C X (Reader.read_uint32 F C X) prefix (pos (length bytes))
  unfolding Writer.write_uint32 Writer.write_bytes_raw Reader.read_uint32
  counted bytes s s' e h =
      let (first, second) =
        then_write-ok (Writer.write_uint32 F C X (pos (length bytes)) s)
          (Writer.write_bytes_raw F C X bytes) s' h in
      let (prefix, packs, written) =
        write_by-ok (X.serialize_unsigned 4 (pos (length bytes)))
          (pack_unsigned 4 (pos (length bytes))) s _ e first in
      let (value, width) = unpack-pack_unsigned 4 (pos (length bytes)) prefix packs in
      (
        prefix,
        raw-ok bytes _ s' (ap (λ (t : Serializer F C X). t.cpp) written ∙ e) second
            ∙ ap (λ (t : Serializer F C X). record t { buf = t.buf ++ bytes }) written
            ∙ ap (λ (b : List ℕ). record s { buf = b }) (append_assoc s.buf prefix bytes),
        read_by-Takes F C X (X.deserialize_unsigned 4) 4 (unpack_unsigned 4) prefix
            (pos (length bytes)) width value,
      )

  strip_nul-append : (bytes : List ℕ) → strip_nul F C X (bytes ++ 0 ∷ []) ≡ bytes
  unfolding strip_nul
  strip_nul-append bytes = ground (arith, get_last?-append bytes 0, drop_last-append bytes 0)

  counted_bytes-Takes :
      (prefix bytes : List ℕ)
      → Takes F C X (Reader.read_uint32 F C X) prefix (pos (length bytes))
      → Takes F C X
          (λ d. then_read F C X (Reader.read_uint32 F C X d) (λ n. Reader.read_each F C X (to_ℕ n)))
          (prefix ++ bytes)
          bytes
  counted_bytes-Takes prefix bytes t =
      then_read-Takes F C X (Reader.read_uint32 F C X) (λ n. Reader.read_each F C X (to_ℕ n)) prefix
        bytes (pos (length bytes)) bytes t (read_each-Takes F C X bytes)

  pub blob-Encodes : (v : List ℕ) → Encodes (blob v)
  unfolding write read Writer.write_bytes Reader.read_bytes
  blob-Encodes v s s' e w =
      let (prefix, written, length_back) = counted v s s' e w in
      (
        prefix ++ v,
        written,
        wrap-Takes blob (Reader.read_bytes F C X) (prefix ++ v) v
            (counted_bytes-Takes prefix v length_back),
      )

  encoded :
      (r : Result (List ℕ)) (s s' : Serializer F C X)
      → write_encoded F C X r s ≡ (ok tt, s')
      → (bytes : List ℕ) × (r ≡ ok bytes)
        × (then_write F C X
              (Writer.write_uint32 F C X (pos (length (bytes ++ 0 ∷ []))) s)
              (Writer.write_bytes_raw F C X (bytes ++ 0 ∷ []))
            ≡ (ok tt, s'))
  encoded (ok bytes) s s' h = (bytes, refl, h)
  encoded (err x) s s' h = absurd (ground (arith, h))

  decoded-Takes :
      (m : Read F C X (List ℕ)) (xs raw : List ℕ) (v : C.Text)
      → Takes F C X m xs raw
      → C.decode (strip_nul F C X raw) ≡ ok v
      → Takes F C X (λ d. then_read F C X (m d) (λ r d'. (C.decode (strip_nul F C X r), d'))) xs v
  decoded-Takes m xs raw v t back d rest at =
      let (d', e, left) = t d rest at in (d', rw e (rw back), left)

  pub text-Encodes : (v : C.Text) → Survives F C X (text v) → Encodes (text v)
  unfolding write read Writer.write_string Reader.read_string
  text-Encodes v h s s' e w =
      let (bytes, encodes, w') = encoded (C.encode v) s s' w in
      let (prefix, written, length_back) = counted (bytes ++ 0 ∷ []) s s' e w' in
      (
        prefix ++ (bytes ++ 0 ∷ []),
        written,
        wrap-Takes text (Reader.read_string F C X) (prefix ++ (bytes ++ 0 ∷ [])) v (
            decoded-Takes
              (λ d.
                then_read F C X (Reader.read_uint32 F C X d) (λ n. Reader.read_each F C X (to_ℕ n)))
              (prefix ++ (bytes ++ 0 ∷ [])) (bytes ++ 0 ∷ []) v
              (counted_bytes-Takes prefix (bytes ++ 0 ∷ []) length_back)
              (rw (strip_nul-append bytes) (h bytes encodes))),
      )

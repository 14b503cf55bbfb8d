-- ===== src/Serialization/Reading.antt =====
-- Reading from a `Deserializer` without the extension, as reading from the bytes that are left.
use opensomeip_python.Prelude.{
  ℕ, ◌+◌, ◌≤◌, ◌≡◌, refl, sym, ap, ◌∙◌, none, List, [], ◌∷◌, ◌++◌, append_assoc, length,
  length-append, length-drop, take, drop, drop_add, take_append, drop_append, arith,
}
use opensomeip_python.Prelude.Int.{pos}
use opensomeip_python.Exceptions.{Result, ok}
use opensomeip_python.Serialization.Struct.{unpack_unsigned, from_be}
use opensomeip_python.Serialization.Native.{Floats, Codec, Extension}
use opensomeip_python.Serialization.Reader.{
  Deserializer, Read, read_slice, read_uint8, read_by, read_each, then_read,
}

module _ (F : Floats) (C : Codec) (X : Extension F) where
  -- The extension is not in use, and these bytes are still to be read.
  pub record At (d : Deserializer F C X) (left : List ℕ) : Type 0 where
    pub in_python : d.cpp ≡ none
    pub within : d.offset ≤ length d.bytes
    pub here : drop d.offset d.bytes ≡ left

  -- A read that takes exactly these bytes off and returns this value.
  abbrev pub Takes : {A : Type 0} → Read F C X A → List ℕ → A → Type 0
  Takes m bytes a =
      (d : Deserializer F C X) (rest : List ℕ)
      → At d (bytes ++ rest)
      → (d' : Deserializer F C X) × (m d ≡ (ok a, d')) × At d' rest

  pub At-length :
      (d : Deserializer F C X) (left : List ℕ) → At d left → length d.bytes ≡ d.offset + length left
  At-length d left a = omega (arith, length-drop d.offset d.bytes, ap length a.here, a.within)

  pub read_slice-Takes : (bytes : List ℕ) → Takes (read_slice F C X (length bytes)) bytes bytes
  unfolding read_slice
  read_slice-Takes bytes d rest a =
      let len = At-length d (bytes ++ rest) a in
      let got : take (length bytes) (drop d.offset d.bytes) ≡ bytes =
        ap (take (length bytes)) a.here ∙ take_append bytes rest in
      (
        record d { offset = d.offset + length bytes },
        ground (arith, len, length-append bytes rest, got),
        record {
          in_python = a.in_python;
          within = omega (arith, len, length-append bytes rest);
          here =
              drop_add d.offset (length bytes) d.bytes
              ∙ ap (drop (length bytes)) a.here
              ∙ drop_append bytes rest;
        },
      )

  read_by-ok :
      {A : Type 0} (method : X.In → Result A × X.In) (n : ℕ) (decode : List ℕ → A)
      (d d' : Deserializer F C X) (bytes : List ℕ) (a : A)
      → d.cpp ≡ none
      → read_slice F C X n d ≡ (ok bytes, d')
      → decode bytes ≡ a
      → read_by F C X method n decode d ≡ (ok a, d')
  read_by-ok method n decode d d' bytes a e slice decoded = ground (arith, e, slice, decoded)

  pub read_by-Takes :
      {A : Type 0} (method : X.In → Result A × X.In) (n : ℕ) (decode : List ℕ → A) (bytes : List ℕ)
      (a : A)
      → length bytes ≡ n
      → decode bytes ≡ a
      → Takes (read_by F C X method n decode) bytes a
  read_by-Takes method n decode bytes a width decoded d rest at =
      let (d', e, left) = read_slice-Takes bytes d rest at in
      let slice : read_slice F C X n d ≡ (ok bytes, d') =
        ap (λ (k : ℕ). read_slice F C X k d) (sym width) ∙ e in
      (d', read_by-ok method n decode d d' bytes a at.in_python slice decoded, left)

  pub then_read-Takes :
      {A B : Type 0} (m : Read F C X A) (k : A → Read F C X B) (xs ys : List ℕ) (a : A) (b : B)
      → Takes m xs a
      → Takes (k a) ys b
      → Takes (λ d. then_read F C X (m d) k) (xs ++ ys) b
  then_read-Takes m k xs ys a b first second d rest at =
      let at' : At d (xs ++ (ys ++ rest)) = record {
        in_python = at.in_python;
        within = at.within;
        here = at.here ∙ append_assoc xs ys rest;
      } in
      let (d', e, left) = first d (ys ++ rest) at' in
      let (d2, e2, left2) = second d' rest left in (d2, rw e e2, left2)

  read_uint8-Takes : (b : ℕ) → Takes (read_uint8 F C X) (b ∷ []) (pos b)
  unfolding read_uint8
  read_uint8-Takes b =
      read_by-Takes (X.deserialize_unsigned 1) 1 (unpack_unsigned 1) (b ∷ []) (pos b) refl
        (unfold unpack_unsigned from_be in ap pos (omega arith))

  pub read_each-Takes : (bytes : List ℕ) → Takes (read_each F C X (length bytes)) bytes bytes
  unfolding read_each
  read_each-Takes [] d rest at = (d, refl, at)
  read_each-Takes (b ∷ bytes) d rest at =
      let (d1, e1, left1) = read_uint8-Takes b d (bytes ++ rest) at in
      let (d2, e2, left2) = read_each-Takes bytes d1 rest left1 in
      (d2, ground (arith, e1, e2), left2)

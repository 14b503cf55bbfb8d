-- ===== src/Examples/Complex/Codes.antt =====
-- Writes and reads that belong together, without the extension, and how they compose.
use opensomeip_python.Prelude.{
  ℕ, ◌≡◌, refl, sym, ap, ◌∙◌, false, none, List, [], ◌++◌, append-nil, append_assoc, arith, inl,
  inr,
}
use mathlib.Core.Path.{subst}
use opensomeip_python.Exceptions.{Result, ok, err, Result-cases}
use opensomeip_python.Serialization.Native.{Floats, Codec, Extension}
use opensomeip_python.Serialization.Writer.{Serializer, Write, new_serializer, to_bytes, then_write}
use opensomeip_python.Serialization.Reader.{
  Deserializer, Read, new_deserializer, then_read, remaining,
}
use opensomeip_python.Serialization.Reading.{Takes, then_read-Takes}
use opensomeip_python.Serialization.Values.{Value, wrap, Survives, write, read}
use opensomeip_python.Serialization.Encoding.{then_write-ok}
use opensomeip_python.Serialization.RoundTrip.{value-Encodes, starts-At, finished}
use opensomeip_python.Examples.Complex.{finish}

module _ (F : Floats) (C : Codec) (X : Extension F) where
  -- What the write adds, the read takes, with this value.
  abbrev pub Codes : {A : Type 0} → Write F C X → Read F C X A → A → Type 0
  Codes w m a =
      (s s' : Serializer F C X)
      → s.cpp ≡ none
      → w s ≡ (ok tt, s')
      → (bytes : List ℕ) × (s' ≡ record s { buf = s.buf ++ bytes }) × Takes F C X m bytes a

  unwrap-Takes :
      {A : Type 0} (f : A → Value F C X) (m : Read F C X A) (bytes : List ℕ) (a : A)
      → ((b c : A) → f b ≡ f c → b ≡ c)
      → Takes F C X (wrap F C X f m) bytes (f a)
      → Takes F C X m bytes a
  unwrap-Takes f m bytes a one t d rest at =
      let (d', e, left) = t d rest at in
      elim (Result-cases (m d).0) [
        | inr (x, fails) ↦ absurd (ground (arith, e, fails))
        | inl (b, returns) ↦
            let same : b ≡ a = one b a (ground (arith, e, returns)) in
            (d', ground (arith, e, returns, same), left)
      ]

  same-Takes :
      {A : Type 0} (m n : Read F C X A) (bytes : List ℕ) (a : A)
      → m ≡ n
      → Takes F C X m bytes a
      → Takes F C X n bytes a
  same-Takes m n bytes a e t = subst (λ k. Takes F C X k bytes a) e t

  -- A value of one of the types that the two classes handle.
  pub value-Codes :
      {A : Type 0} (f : A → Value F C X) (m : Read F C X A) (a : A)
      → ((b c : A) → f b ≡ f c → b ≡ c)
      → read F C X (f a) ≡ wrap F C X f m
      → Survives F C X (f a)
      → Codes (write F C X (f a)) m a
  value-Codes f m a one same h s s' e w =
      let (bytes, written, t) = value-Encodes F C X (f a) h s s' e w in
      (
        bytes,
        written,
        unwrap-Takes f m bytes a one
            (same-Takes (read F C X (f a)) (wrap F C X f m) bytes (f a) same t),
      )

  pub nothing-Codes : {A : Type 0} (a : A) → Codes (λ s. (ok tt, s)) (λ d. (ok a, d)) a
  nothing-Codes a s s' e w = ([], ground (arith, w, append-nil s.buf), λ d rest at. (d, refl, at))

  -- One write after another, and one read after another.
  pub then-Codes :
      {A B : Type 0} (w : Write F C X) (v : Write F C X) (m : Read F C X A) (k : A → Read F C X B)
      (a : A) (b : B)
      → Codes w m a
      → Codes v (k a) b
      → Codes (λ s. then_write F C X (w s) v) (λ d. then_read F C X (m d) k) b
  then-Codes w v m k a b first second s s' e h =
      let (one, two) = then_write-ok F C X (w s) v s' h in
      let (xs, w1, t1) = first s _ e one in
      let (ys, w2, t2) = second _ s' (ap (λ (t : Serializer F C X). t.cpp) w1 ∙ e) two in
      (
        xs ++ ys,
        w2
            ∙ ap (λ (t : Serializer F C X). record t { buf = t.buf ++ ys }) w1
            ∙ ap (λ (b : List ℕ). record s { buf = b }) (append_assoc s.buf xs ys),
        then_read-Takes F C X m k xs ys a b t1 t2,
      )

  -- A last read whose value goes into the result.
  pub result-Codes :
      {A B : Type 0} (w : Write F C X) (m : Read F C X A) (f : A → B) (a : A)
      → Codes w m a
      → Codes w (λ d. then_read F C X (m d) (λ x d'. (ok (f x), d'))) (f a)
  result-Codes w m f a c s s' e h =
      let (bytes, written, t) = c s s' e h in
      (bytes, written, λ d rest at. let (d', r, left) = t d rest at in (d', rw r refl, left))

  finish-ok :
      (t : Result (Unit {0}) × Serializer F C X) (bytes : List ℕ)
      → finish F C X t ≡ ok bytes
      → (s : Serializer F C X) × (t ≡ (ok tt, s)) × (to_bytes F C X s ≡ bytes)
  finish-ok (ok u, s) bytes h = (s, refl, ground (arith, h))
  finish-ok (err x, s) bytes h = absurd (ground (arith, h))

  -- A finished payload is the bytes that the read takes.
  pub finish-Takes :
      {A : Type 0} (w : Write F C X) (m : Read F C X A) (a : A) (bytes : List ℕ)
      → Codes w m a
      → finish F C X (w (new_serializer F C X false)) ≡ ok bytes
      → Takes F C X m bytes a
  unfolding new_serializer to_bytes
  finish-Takes w m a bytes c h =
      let (s, wrote, content) = finish-ok (w (new_serializer F C X false)) bytes h in
      let (added, written, t) = c (new_serializer F C X false) s refl wrote in
      let same : added ≡ bytes = sym (ap (to_bytes F C X) written) ∙ content in rw (sym same) t

  -- A new deserializer of the payload gives the value, and has nothing left.
  pub payload_back :
      {A : Type 0} (m : Read F C X A) (a : A) (bytes : List ℕ)
      → Takes F C X m bytes a
      → (d : Deserializer F C X) × (m (new_deserializer F C X false bytes) ≡ (ok a, d))
        × (remaining F C X d ≡ 0)
  unfolding new_deserializer
  payload_back m a bytes t =
      let (d, back, left) = t _ [] (starts-At F C X bytes) in (d, back, finished F C X d left)

-- ===== src/Serialization/Native.antt =====
-- What serialization.py uses but does not implement: the extension's serializer and deserializer,
-- floating-point numbers, and the codec that `encoding` names.
use opensomeip_python.Prelude.{ℕ, Bool, List}
use opensomeip_python.Prelude.Int.{ℤ}
use opensomeip_python.Exceptions.{Result}

-- `float` and the formats "!f" and "!d" of `struct`.
pub record Floats : Type 1 where
  pub Float : Type 0
  pub pack32 : Float → Result (List ℕ)
  pub pack64 : Float → Result (List ℕ)
  pub unpack32 : List ℕ → Float
  pub unpack64 : List ℕ → Float

-- `str`, with `encode(encoding)` and `decode(encoding)`.
pub record Codec : Type 1 where
  pub Text : Type 0
  pub encode : Text → Result (List ℕ)
  pub decode : List ℕ → Result Text

-- `ext.Serializer` and `ext.Deserializer`: objects of an unknown state, one operation a method.
pub record Extension (F : Floats) : Type 1 where
  pub Out : Type 0
  pub fresh : Out
  pub serialize_bool : Bool → Out → Result (Unit {0}) × Out
  pub serialize_unsigned : ℕ → ℤ → Out → Result (Unit {0}) × Out
  pub serialize_signed : ℕ → ℤ → Out → Result (Unit {0}) × Out
  pub serialize_float : F.Float → Out → Result (Unit {0}) × Out
  pub serialize_double : F.Float → Out → Result (Unit {0}) × Out
  pub get_buffer : Out → List ℕ
  pub reset_out : Out → Out
  pub In : Type 0
  pub deserializer : List ℕ → In
  pub deserialize_bool : In → Result Bool × In
  pub deserialize_unsigned : ℕ → In → Result ℤ × In
  pub deserialize_signed : ℕ → In → Result ℤ × In
  pub deserialize_float : In → Result F.Float × In
  pub deserialize_double : In → Result F.Float × In
  pub get_remaining : In → ℕ
  pub get_position : In → ℕ

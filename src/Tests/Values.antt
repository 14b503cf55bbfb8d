-- ===== src/Tests/Values.antt =====
-- Identifiers, messages and the serializer at concrete inputs.
use opensomeip_python.Prelude.{
  ◌<◌, ◌⊎◌, ◌+◌, ◌≤◌, ℕ, ◌≡◌, refl, sym, true, false, none, List, [], ◌∷◌, arith,
}
use opensomeip_python.Prelude.Int.{pos, negsuc}
use opensomeip_python.Exceptions.{ok, err, value_error, struct_error}
use opensomeip_python.Types.MessageId
use opensomeip_python.Types.MessageId.{MessageId}
use opensomeip_python.Message.{Message, message_eq}
use opensomeip_python.Bridge.{to_cpp_message, from_cpp_message}
use opensomeip_python.Bridge.Laws.{message_round_trip}
use opensomeip_python.Serialization.Native.{Floats, Codec, Extension}
use opensomeip_python.Serialization.Struct.{pack_signed, pack_unsigned, be_bytes}
use opensomeip_python.Serialization.Writer
use opensomeip_python.Serialization.Writer.{Serializer, new_serializer, to_bytes, write_by}
use opensomeip_python.Serialization.Reader.{Deserializer, new_deserializer, remaining}
use opensomeip_python.Serialization.Values.{
  read, Value, uint8, int16, text, write, write_all, read_all,
}
use opensomeip_python.Serialization.Bounds.{read-width}
use opensomeip_python.Serialization.RoundTrip.{read_all-write_all}
use opensomeip_python.Tests.Fixtures.{greeting}

too_large : MessageId.new (pos 65536) (pos 0) ≡ err value_error
unfolding MessageId.new
too_large = refl

signed_bytes : pack_signed 2 (negsuc 1) ≡ ok (255 ∷ 254 ∷ [])
unfolding pack_signed be_bytes
signed_bytes = refl

message_round_trip_example :
    (back : Message) × (from_cpp_message (to_cpp_message greeting) ≡ ok back)
    × (message_eq back greeting ≡ true)
    × (back.source_endpoint ≡ none)
message_round_trip_example = message_round_trip greeting (record {
  message_id_fits = (omega arith, omega arith);
  request_id_fits = (omega arith, omega arith);
  interface_fits = omega arith;
})

-- Bytes stand in for floats and strings; the extension is not in use.
abbrev floats : Floats
floats = record {
  Float = ℕ;
  pack32 = λ x. err struct_error;
  pack64 = λ x. err struct_error;
  unpack32 = λ bytes. 0;
  unpack64 = λ bytes. 0;
}

abbrev pub ascii : Codec
ascii = record { Text = List ℕ; encode = ok; decode = ok }

abbrev unused : Extension floats
unused = record {
  Out = Unit;
  fresh = tt;
  serialize_bool = λ b s. (ok tt, s);
  serialize_unsigned = λ w v s. (ok tt, s);
  serialize_signed = λ w v s. (ok tt, s);
  serialize_float = λ v s. (ok tt, s);
  serialize_double = λ v s. (ok tt, s);
  get_buffer = λ s. [];
  reset_out = λ s. s;
  In = Unit;
  deserializer = λ bytes. tt;
  deserialize_bool = λ s. (ok false, s);
  deserialize_unsigned = λ w s. (ok (pos 0), s);
  deserialize_signed = λ w s. (ok (pos 0), s);
  deserialize_float = λ s. (ok 0, s);
  deserialize_double = λ s. (ok 0, s);
  get_remaining = λ s. 0;
  get_position = λ s. 0;
}

abbrev values : List (Value floats ascii unused)
values = uint8 (pos 7) ∷ int16 (negsuc 1) ∷ text (104 ∷ 105 ∷ []) ∷ []

abbrev written : Serializer floats ascii unused
written = (write_all floats ascii unused values (new_serializer floats ascii unused false)).1

writes :
    write_all floats ascii unused values (new_serializer floats ascii unused false)
    ≡ (ok tt, written)
unfolding write_all write Writer.write_uint8 Writer.write_int16 Writer.write_string
    Writer.write_uint32 Writer.write_bytes_raw new_serializer pack_signed pack_unsigned
writes = refl

read_all-write_all_example :
    (d : Deserializer floats ascii unused) × (read_all floats ascii unused values
        (new_deserializer floats ascii unused false (to_bytes floats ascii unused written))
      ≡ (ok values, d))
    × (remaining floats ascii unused d ≡ 0)
read_all-write_all_example =
    read_all-write_all floats ascii unused values written
      ((7, refl, omega arith), (tt, ((λ bytes h. sym h), tt))) writes

abbrev short : Deserializer floats ascii unused
short = record { bytes = 1 ∷ 2 ∷ []; offset = 1; cpp = none }

read-width_example :
    ((1 + 2 ≤ 2)
      × (a : Value floats ascii unused) × (read floats ascii unused (int16 (pos 0)) short
          ≡ (ok a, record short { offset = 3 })))
    ⊎ ((2 < 1 + 2) × (read floats ascii unused (int16 (pos 0)) short ≡ (err value_error, short)))
read-width_example = read-width floats ascii unused (int16 (pos 0)) 2 short refl refl

-- ===== src/Msgpack/Tests.antt =====
-- Runs of packages/msgpack on small inputs. The floats are numbers under 256 here.
use socket_io_deno.Common.{ℕ, true, some, List, [], ◌∷◌, length, ◌≡◌, ◌≢◌, refl, arith}
use socket_io_deno.Msgpack.{
  Value, missing, flag, negative, real, date_before, array, object, no_values, next_value,
  no_fields, next_field,
}
use socket_io_deno.Msgpack.Utf8.{utf8_length, utf8_write, utf8_read}
use socket_io_deno.Msgpack.Utf8.RoundTrip.{
  IsText, nil, unit, pair, length-utf8_write, utf8_read-write,
}
use socket_io_deno.Msgpack.Encode.{encode}
use socket_io_deno.Msgpack.Encode.Layout.{layout}
use socket_io_deno.Msgpack.Encode.Passes.{encode-layout}
use socket_io_deno.Msgpack.Reads.{ok, out_of_fuel}
use socket_io_deno.Msgpack.Decode.{decode}
use socket_io_deno.Msgpack.Decode.Plain.{IsPlain}
use socket_io_deno.Msgpack.Decode.Inverse.{decode-encode_plain}
use socket_io_deno.Msgpack.Decode.Fuel.{decode-ends}

-- "é" and a pair of surrogates.
abbrev units : List ℕ
units = 0xe9 ∷ 0xd83d ∷ 0xde00 ∷ []

units-IsText : IsText units
units-IsText =
    unit 0xe9 (0xd83d ∷ 0xde00 ∷ []) (omega arith) refl
      (pair 0xd83d 0xde00 [] (omega arith) (omega arith) (omega arith) (omega arith) nil)

abbrev float_bytes : ℕ → List ℕ
float_bytes x = x ∷ 0 ∷ 0 ∷ 0 ∷ 0 ∷ 0 ∷ 0 ∷ 0 ∷ []

abbrev float_value : List ℕ → Value ℕ
float_value [] = missing
float_value (x ∷ bytes) = real x

abbrev no_key : Value ℕ → List ℕ
no_key v = []

-- { "é…": -300, "": [1.5, true, a date before the epoch] }
abbrev message : Value ℕ
message = object (
    next_field units (negative 299) (
      next_field []
        (array
          (next_value (real 7) (next_value (flag true) (next_value (date_before 1) no_values))))
        no_fields))

message-IsPlain : IsPlain message
unfolding IsPlain
message-IsPlain = (
  tt,
  refl,
  units-IsText,
  omega arith,
  ((refl, tt), refl, nil, (tt, (tt, (omega arith, tt))), tt),
)

abbrev message_bytes : List ℕ
message_bytes =
    130 ∷ 166 ∷ 195 ∷ 169 ∷ 240 ∷ 159 ∷ 152 ∷ 128 ∷ 209 ∷ 254 ∷ 212 ∷ 160 ∷ 147 ∷ 203 ∷ 7 ∷ 0 ∷ 0
    ∷ 0 ∷ 0 ∷ 0 ∷ 0 ∷ 0 ∷ 195 ∷ 199 ∷ 12 ∷ 255 ∷ 59 ∷ 124 ∷ 69 ∷ 128 ∷ 255 ∷ 255 ∷ 255 ∷ 255 ∷ 255
    ∷ 255 ∷ 255 ∷ 255 ∷ []

message_encoded : encode float_bytes message ≡ some message_bytes
unfolding encode
message_encoded = refl

length-utf8_write_example : length (utf8_write units) ≡ utf8_length units
length-utf8_write_example = length-utf8_write units

utf8_read-write_example :
    utf8_read 6 (0xc3 ∷ 0xa9 ∷ 0xf0 ∷ 0x9f ∷ 0x98 ∷ 0x80 ∷ 0x2a ∷ []) ≡ some units
unfolding utf8_length utf8_write
utf8_read-write_example = utf8_read-write units (0x2a ∷ []) units-IsText

encode-layout_example : encode float_bytes message ≡ layout float_bytes message
encode-layout_example = encode-layout float_bytes (λ x. refl) message

decode-encode_plain_example : decode float_value float_value no_key message_bytes ≡ ok message
decode-encode_plain_example =
    decode-encode_plain float_bytes float_value float_value no_key (λ x. refl) (λ x. refl) message
      message_bytes message-IsPlain message_encoded

-- A header that announces 65,535 elements, and none of them.
decode-ends_example : decode float_value float_value no_key (0xdc ∷ 0xff ∷ 0xff ∷ []) ≢ out_of_fuel
decode-ends_example = decode-ends float_value float_value no_key (0xdc ∷ 0xff ∷ 0xff ∷ [])

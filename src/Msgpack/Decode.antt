-- ===== src/Msgpack/Decode.antt =====
-- packages/msgpack/lib/decode.ts: the dispatch on the first byte and the recursion.
pub mod Fuel
pub mod RoundTrip
pub mod Numbers
pub mod Plain
pub mod Steps
pub mod Inverse
use Prim.Native.Nat.{bit_and}
use socket_io_deno.Common.{
  ℕ, zero, suc, ◌+◌, ◌-◌, ◌*◌, ◌/◌, ◌^◌, Bool, true, false, Option, none, some, List, [], ◌∷◌, ◌++◌,
  ◌==◌, ltb, leb, length, take, drop, if◌then◌else◌, same_text,
}
use socket_io_deno.Msgpack.Reads.{
  Read, Result, and_read, assign, bind, date_of, date_of_value, failed, get_int, get_slice,
  get_uint, get_whole, is_type, ok, old_date, out_of_fuel, read_buffer, read_ext, read_ext_8,
  read_extension, read_fixext, read_fixext_1, read_fixext_4, read_fixext_8, read_text, signed,
  signed_date_of, sized, timestamp_32, timestamp_64, timestamp_96,
}
use socket_io_deno.Msgpack.{
  Value, null, missing, flag, whole, negative, text, buffer, date, date_before, array, object,
  Values, no_values, next_value, Fields, no_fields, next_field,
}

-- `to_key` is the property that JavaScript makes of a value that is no text.
abbrev pub key_of : {F : Type 0} → (Value F → List ℕ) → Value F → List ℕ
key_of to_key (text s) = s
key_of to_key v = to_key v

-- `float_32` and `float_64` are what `getFloat32` and `getFloat64` read.
module _ {F : Type 0} (float_32 float_64 : List ℕ → Value F) where
  unfoldable pub read_float : ℕ → (List ℕ → Value F) → Read (Value F)
  unfolding get_slice
  read_float n value_of bytes = and_read (get_slice n bytes) (λ bs rest. ok (value_of bs, rest))

  -- The branches of `parse` on the first byte; `read_array` and `read_map` are `_array` and `_map`.
  unfoldable pub dispatch : (ℕ → Read (Value F)) → (ℕ → Read (Value F)) → ℕ → Read (Value F)
  unfolding get_int get_whole read_text read_buffer read_float read_fixext_1 read_fixext_4
      read_fixext_8 read_ext_8 read_ext read_fixext
  dispatch read_array read_map prefix rest =
      if ltb prefix 0xc0
      then (if ltb prefix 0x80
          then ok (whole prefix, rest)
          else if ltb prefix 0x90
          then read_map (bit_and prefix 0x0f) rest
          else if ltb prefix 0xa0
          then read_array (bit_and prefix 0x0f) rest
          else read_text (bit_and prefix 0x1f) rest)
      else if ltb 0xdf prefix
      then ok (negative (0xff - prefix), rest)
      else if prefix == 0xc0
      then ok (null, rest)
      else if prefix == 0xc2
      then ok (flag false, rest)
      else if prefix == 0xc3
      then ok (flag true, rest)
      else if prefix == 0xc4
      then sized 1 read_buffer rest
      else if prefix == 0xc5
      then sized 2 read_buffer rest
      else if prefix == 0xc6
      then sized 4 read_buffer rest
      else if prefix == 0xc7
      then read_ext_8 rest
      else if prefix == 0xc8
      then read_ext 2 rest
      else if prefix == 0xc9
      then read_ext 4 rest
      else if prefix == 0xca
      then read_float 4 float_32 rest
      else if prefix == 0xcb
      then read_float 8 float_64 rest
      else if prefix == 0xcc
      then get_whole 1 rest
      else if prefix == 0xcd
      then get_whole 2 rest
      else if prefix == 0xce
      then get_whole 4 rest
      else if prefix == 0xcf
      then get_whole 8 rest
      else if prefix == 0xd0
      then get_int 0 rest
      else if prefix == 0xd1
      then get_int 1 rest
      else if prefix == 0xd2
      then get_int 3 rest
      else if prefix == 0xd3
      then get_int 7 rest
      else if prefix == 0xd4
      then read_fixext_1 rest
      else if prefix == 0xd5
      then read_fixext 2 rest
      else if prefix == 0xd6
      then read_fixext_4 rest
      else if prefix == 0xd7
      then read_fixext_8 rest
      else if prefix == 0xd8
      then read_fixext 16 rest
      else if prefix == 0xd9
      then sized 1 read_text rest
      else if prefix == 0xda
      then sized 2 read_text rest
      else if prefix == 0xdb
      then sized 4 read_text rest
      else if prefix == 0xdc
      then sized 2 read_array rest
      else if prefix == 0xdd
      then sized 4 read_array rest
      else if prefix == 0xde
      then sized 2 read_map rest
      else if prefix == 0xdf
      then sized 4 read_map rest
      else failed

  abbrev pub start : (ℕ → Read (Value F)) → (ℕ → Read (Value F)) → Read (Value F)
  unfolding dispatch
  start read_array read_map [] = failed
  start read_array read_map (prefix ∷ rest) = dispatch read_array read_map prefix rest

abbrev pub as_array : {F : Type 0} → Result (Values F × List ℕ) → Result (Value F × List ℕ)
as_array r = bind r (λ p. ok (array p.0, p.1))

abbrev pub as_object : {F : Type 0} → Result (Fields F × List ℕ) → Result (Value F × List ℕ)
as_object r = bind r (λ p. ok (object p.0, p.1))

-- `parse`, `_array` and `_map`. Each call takes one unit of fuel.
unfoldable mutual
  unfolding dispatch assign

  pub parse :
      {F : Type 0}
      → (List ℕ → Value F)
      → (List ℕ → Value F)
      → (Value F → List ℕ)
      → ℕ
      → Read (Value F)
  parse f32 f64 to_key zero bytes = out_of_fuel
  parse f32 f64 to_key (suc fuel) bytes =
      start f32 f64 (λ n rest. as_array (parse_array f32 f64 to_key fuel n rest))
        (λ n rest. as_object (parse_map f32 f64 to_key fuel n no_fields rest)) bytes

  pub parse_array :
      {F : Type 0}
      → (List ℕ → Value F)
      → (List ℕ → Value F)
      → (Value F → List ℕ)
      → ℕ
      → ℕ
      → Read (Values F)
  parse_array f32 f64 to_key zero n bytes = out_of_fuel
  parse_array f32 f64 to_key (suc fuel) zero bytes = ok (no_values, bytes)
  parse_array f32 f64 to_key (suc fuel) (suc n) bytes =
      and_read (parse f32 f64 to_key fuel bytes) λ v rest.
        and_read (parse_array f32 f64 to_key fuel n rest) λ vs rest'. ok (next_value v vs, rest')

  pub parse_map :
      {F : Type 0}
      → (List ℕ → Value F)
      → (List ℕ → Value F)
      → (Value F → List ℕ)
      → ℕ
      → ℕ
      → Fields F
      → Read (Fields F)
  parse_map f32 f64 to_key zero n found bytes = out_of_fuel
  parse_map f32 f64 to_key (suc fuel) zero found bytes = ok (found, bytes)
  parse_map f32 f64 to_key (suc fuel) (suc n) found bytes =
      and_read (parse f32 f64 to_key fuel bytes) λ key rest.
        and_read (parse f32 f64 to_key fuel rest)
          λ v rest'. parse_map f32 f64 to_key fuel n (assign (key_of to_key key) v found) rest'

abbrev pub whole_input : {F : Type 0} → Value F → List ℕ → Result (Value F)
whole_input v [] = ok v
whole_input v (_ ∷ _) = failed

-- Every call of `parse` reads a byte, so twice their number is fuel enough.
unfoldable pub decode :
    {F : Type 0}
    → (List ℕ → Value F)
    → (List ℕ → Value F)
    → (Value F → List ℕ)
    → List ℕ
    → Result (Value F)
unfolding parse
decode f32 f64 to_key bytes =
    bind (parse f32 f64 to_key (2 * length bytes + 1) bytes) (λ r. whole_input r.0 r.1)

-- ===== src/Msgpack/Reads.antt =====
-- The reads of packages/msgpack/lib/decode.ts on an `ArrayBuffer`. The state of the decoder is what
-- stands from `_offset` on. A slice that ends behind the buffer is an error at once, as it is at the
-- latest when the offset is compared with the length. Numbers are exact here, also from 2^53 on.
use Prim.Native.Nat.{bit_and}
use socket_io_deno.Common.{
  ℕ, zero, suc, ◌+◌, ◌-◌, ◌*◌, ◌/◌, ◌^◌, Bool, false, none, some, List, [], ◌∷◌, ◌==◌, ltb, leb,
  length, take, drop, if◌then◌else◌, same_text,
}
use socket_io_deno.Msgpack.Utf8.{utf8_read}
use socket_io_deno.Msgpack.{
  Value, missing, whole, negative, text, buffer, date, date_before, array, no_values, next_value,
  Fields, no_fields, next_field,
}

-- "__proto__"
abbrev pub proto : List ℕ
proto = 0x5f ∷ 0x5f ∷ 0x70 ∷ 0x72 ∷ 0x6f ∷ 0x74 ∷ 0x6f ∷ 0x5f ∷ 0x5f ∷ []

pub data Result (A : Type 0) : Type 0 where
  ok : A → Result A
  failed out_of_fuel : Result A

abbrev pub bind : {A B : Type 0} → Result A → (A → Result B) → Result B
bind (ok a) f = f a
bind failed f = failed
bind out_of_fuel f = out_of_fuel

-- A read gives what it read and what stands behind it.
abbrev pub Read : Type 0 → Type 0
Read A = List ℕ → Result (A × List ℕ)

abbrev pub and_read : {A B : Type 0} → Result (A × List ℕ) → (A → Read B) → Result (B × List ℕ)
and_read m f = bind m (λ r. f r.0 r.1)

-- `getUint8`, `getUint16` and `getUint32`; with eight bytes, the high and the low half together.
unfoldable pub get_uint : ℕ → Read ℕ
get_uint zero bytes = ok (0, bytes)
get_uint (suc k) [] = failed
get_uint (suc k) (b ∷ bytes) = and_read (get_uint k bytes) (λ n rest. ok (b * 256 ^ k + n, rest))

-- The slice of the next `n` bytes.
unfoldable pub get_slice : ℕ → Read (List ℕ)
get_slice n bytes = if leb n (length bytes) then ok (take n bytes, drop n bytes) else failed

module _ {F : Type 0} where
  -- A number of `k + 1` bytes in two's complement.
  unfoldable pub signed : ℕ → ℕ → Value F
  signed k n = if ltb n (128 * 256 ^ k) then whole n else negative (256 * 256 ^ k - 1 - n)

  unfoldable pub get_int : ℕ → Read (Value F)
  unfolding get_uint signed
  get_int k bytes = and_read (get_uint (k + 1) bytes) (λ n rest. ok (signed k n, rest))

  unfoldable pub get_whole : ℕ → Read (Value F)
  unfolding get_uint
  get_whole k bytes = and_read (get_uint k bytes) (λ n rest. ok (whole n, rest))

  -- `_str` and `_bin`
  unfoldable pub read_text : ℕ → Read (Value F)
  unfolding utf8_read
  read_text n bytes = elim (utf8_read n bytes) [
    | none ↦ failed
    | some s ↦ ok (text s, drop n bytes)
  ]

  unfoldable pub read_buffer : ℕ → Read (Value F)
  unfolding get_slice
  read_buffer n bytes = and_read (get_slice n bytes) (λ bs rest. ok (buffer bs, rest))

  -- `[type, this._bin(n)]`
  unfoldable pub read_extension : ℕ → Value F → Read (Value F)
  unfolding read_buffer
  read_extension n type bytes =
      and_read (read_buffer n bytes)
        (λ b rest. ok (array (next_value type (next_value b no_values)), rest))

  abbrev pub is_type : ℕ → Value F → Bool
  is_type zero (whole n) = n == 0
  is_type (suc _) (negative n) = n == 0
  is_type _ _ = false

  -- The milliseconds of so many seconds and nanoseconds; `new Date` drops a fraction.
  unfoldable pub date_of : ℕ → ℕ → Value F
  date_of seconds ns = date (seconds * 1000 + ns / 1000000)

  unfoldable pub signed_date_of : ℕ → ℕ → Value F
  unfolding date_of
  signed_date_of seconds ns =
      if ltb seconds (2 ^ 63)
      then date_of seconds ns
      else let before = (2 ^ 64 - seconds) * 1000 in
        let ms = (ns + 999999) / 1000000 in
        if ltb ms before then date_before (before - ms - 1) else date (ns / 1000000 - before)

  unfoldable pub timestamp_32 : Read (Value F)
  unfolding get_uint date_of
  timestamp_32 bytes = and_read (get_uint 4 bytes) (λ s rest. ok (date_of s 0, rest))

  unfoldable pub timestamp_64 : Read (Value F)
  unfolding get_uint date_of
  timestamp_64 bytes = and_read (get_uint 4 bytes) λ hi rest.
      and_read (get_uint 4 rest)
        λ lo rest'. ok (date_of (bit_and hi 0x3 * 2 ^ 32 + lo) (hi / 4), rest')

  unfoldable pub timestamp_96 : Read (Value F)
  unfolding get_uint signed_date_of
  timestamp_96 bytes =
      and_read (get_uint 4 bytes)
        λ ns rest. and_read (get_uint 8 rest) λ s rest'. ok (signed_date_of s ns, rest')

  -- The old encoding of dates, by milliseconds.
  abbrev pub date_of_value : Value F → Value F
  date_of_value (whole n) = date n
  date_of_value (negative n) = date_before n
  date_of_value v = v

  abbrev pub old_date : Read (Value F)
  old_date bytes = and_read (get_int 7 bytes) (λ v rest. ok (date_of_value v, rest))

  unfoldable pub read_fixext_1 : Read (Value F)
  unfolding get_int read_extension
  read_fixext_1 bytes = and_read (get_int 0 bytes) λ type rest.
      if is_type 0 type
      then and_read (get_slice 1 rest) (λ _ rest'. ok (missing, rest'))
      else read_extension 1 type rest

  unfoldable pub read_fixext_4 : Read (Value F)
  unfolding get_int read_extension timestamp_32
  read_fixext_4 bytes =
      and_read (get_int 0 bytes)
        λ type rest. if is_type 1 type then timestamp_32 rest else read_extension 4 type rest

  unfoldable pub read_fixext_8 : Read (Value F)
  unfolding get_int read_extension timestamp_64
  read_fixext_8 bytes = and_read (get_int 0 bytes) λ type rest.
      if is_type 0 type
      then old_date rest
      else if is_type 1 type
      then timestamp_64 rest
      else read_extension 8 type rest

  unfoldable pub read_ext_8 : Read (Value F)
  unfolding get_uint get_int read_extension timestamp_96
  read_ext_8 bytes = and_read (get_uint 1 bytes) λ n rest.
      and_read (get_int 0 rest)
        λ type rest'. if is_type 1 type then timestamp_96 rest' else read_extension n type rest'

  -- An extension with its length in `k` bytes, and one of a fixed length.
  unfoldable pub read_ext : ℕ → Read (Value F)
  unfolding get_uint get_int read_extension
  read_ext k bytes =
      and_read (get_uint k bytes)
        λ n rest. and_read (get_int 0 rest) λ type rest'. read_extension n type rest'

  unfoldable pub read_fixext : ℕ → Read (Value F)
  unfolding get_int read_extension
  read_fixext n bytes = and_read (get_int 0 bytes) λ type rest. read_extension n type rest

  -- A length in `k` bytes, and what it is the length of.
  abbrev pub sized : ℕ → (ℕ → Read (Value F)) → Read (Value F)
  sized k read bytes = and_read (get_uint k bytes) (λ n rest. read n rest)

  -- `value[key] = …`: a key that is there keeps its place.
  unfoldable pub put : List ℕ → Value F → Fields F → Fields F
  put key v no_fields = next_field key v no_fields
  put key v (next_field k w rest) =
      if same_text key k then next_field key v rest else next_field k w (put key v rest)

  -- "__proto__" sets the prototype, and no field.
  unfoldable pub assign : List ℕ → Value F → Fields F → Fields F
  unfolding put
  assign key v fs = if same_text key proto then fs else put key v fs

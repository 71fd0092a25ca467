-- ===== src/Msgpack/Encode.antt =====
-- packages/msgpack/lib/encode.ts. A first pass pushes the bytes of the headers and numbers and puts
-- off texts, floats and buffers; a second one writes all of it to an array of the size that the
-- first found. A pushed number is the byte that `setUint8` will store of it. `none` is an error.
-- An object has no method `toJSON`, nor a text "function" of that name.
pub mod Layout
pub mod Chunks
pub mod Fill
pub mod Passes
use Prim.Native.Nat.{bit_or}
use socket_io_deno.Common.{
  ℕ, zero, suc, ◌+◌, ◌-◌, ◌*◌, ◌/◌, ◌%◌, ◌^◌, Bool, true, false, ◌&&◌, Option, none, some, List, [],
  ◌∷◌, ◌++◌, ◌==◌, ltb, leb, length, if◌then◌else◌,
}
use socket_io_deno.Msgpack.Headers.{
  array_header, big_endian, big_endian_neg, buffer_header, date_before_bytes, date_bytes,
  long_header, negative_bytes, object_header, text_header, whole_bytes,
}
use socket_io_deno.Msgpack.Utf8.{utf8_length, utf8_write}
use socket_io_deno.Msgpack.{
  Value, null, missing, callable, flag, whole, negative, real, text, buffer, view, date,
  date_before, array, object, Values, no_values, next_value, Fields, no_fields, next_field,
}

-- What is put off: `_str`, `_float` or `_bin`.
pub data Piece (F : Type 0) : Type 0 where
  str : List ℕ → Piece F
  float : F → Piece F
  bin : List ℕ → Piece F

-- `DeferredElement`
pub record Deferred (F : Type 0) : Type 0 where
  pub piece : Piece F
  pub size : ℕ
  pub offset : ℕ

-- The arrays `bytes` and `defers`.
pub record Output (F : Type 0) : Type 0 where
  pub bytes : List ℕ
  pub defers : List (Deferred F)

abbrev pub Encoding : Type 0 → Type 0
Encoding F = Output F → Option (Output F × ℕ)

module _ {F : Type 0} where
  abbrev pub push : List ℕ → Encoding F
  push bs o = some (record o { bytes = o.bytes ++ bs }, length bs)

  abbrev pub push_header : Option (List ℕ) → Encoding F
  push_header none o = none
  push_header (some bs) o = push bs o

  abbrev pub defer : Piece F → ℕ → Encoding F
  defer p n o = some (
    record o { defers = o.defers ++ record { piece = p; size = n; offset = length o.bytes } ∷ [] },
    n,
  )

  -- `size += …`
  abbrev pub and_size : ℕ → Option (Output F × ℕ) → Option (Output F × ℕ)
  and_size n none = none
  and_size n (some (o, m)) = some (o, n + m)

  abbrev pub and_then : Option (Output F × ℕ) → Encoding F → Option (Output F × ℕ)
  and_then none g = none
  and_then (some (o, n)) g = and_size n (g o)

  -- `value[key] !== undefined && typeof value[key] !== "function"`
  abbrev pub is_kept : Value F → Bool
  is_kept missing = false
  is_kept callable = false
  is_kept _ = true

  unfoldable pub count_values : Values F → ℕ
  count_values no_values = 0
  count_values (next_value v rest) = 1 + count_values rest

  unfoldable pub count_kept : Fields F → ℕ
  count_kept no_fields = 0
  count_kept (next_field key v rest) = if is_kept v then 1 + count_kept rest else count_kept rest

  unfoldable pub encode_text : List ℕ → Encoding F
  unfolding text_header utf8_length
  encode_text s o =
      and_then (push_header (text_header (utf8_length s)) o) (defer (str s) (utf8_length s))

  unfoldable pub encode_buffer : List ℕ → ℕ → Encoding F
  unfolding buffer_header
  encode_buffer bs n o = and_then (push_header (buffer_header n) o) (defer (bin bs) n)

-- `_encode` and `_encodeObject`; a field that is not kept is passed over in the loop.
unfoldable mutual
  unfolding encode_text encode_buffer array_header object_header whole_bytes negative_bytes
      date_bytes date_before_bytes count_values count_kept

  pub encode_value : {F : Type 0} → Value F → Encoding F
  encode_value null o = push (0xc0 ∷ []) o
  encode_value missing o = push (0xc0 ∷ []) o
  encode_value callable o = none
  encode_value (flag b) o = push ((if b then 0xc3 else 0xc2) ∷ []) o
  encode_value (whole n) o = push (whole_bytes n) o
  encode_value (negative n) o = push (negative_bytes n) o
  encode_value (real x) o = and_then (push (0xcb ∷ []) o) (defer (float x) 8)
  encode_value (text s) o = encode_text s o
  encode_value (buffer bs) o = encode_buffer bs (length bs) o
  encode_value (view bs offset n) o = encode_buffer bs n o
  encode_value (date ms) o = push (date_bytes ms) o
  encode_value (date_before n) o = push (date_before_bytes n) o
  encode_value (array xs) o =
      and_then (push_header (array_header (count_values xs)) o) (λ o'. encode_values xs o')
  encode_value (object fs) o =
      and_then (push_header (object_header (count_kept fs)) o) (λ o'. encode_fields fs o')

  pub encode_values : {F : Type 0} → Values F → Encoding F
  encode_values no_values o = some (o, 0)
  encode_values (next_value v rest) o = and_then (encode_value v o) (λ o'. encode_values rest o')

  pub encode_fields : {F : Type 0} → Fields F → Encoding F
  encode_fields no_fields o = some (o, 0)
  encode_fields (next_field key v rest) o =
      let kept =
        and_then (and_then (encode_text key o) (λ o'. encode_value v o'))
          (λ o'. encode_fields rest o') in
      let passed = encode_fields rest o in if is_kept v then kept else passed

-- `view.setUint8(position, byte)`; a position behind the end throws.
unfoldable pub set_byte : ℕ → ℕ → List ℕ → Option (List ℕ)
set_byte position byte [] = none
set_byte zero byte (x ∷ out) = some (byte ∷ out)
set_byte (suc position) byte (x ∷ out) = elim (set_byte position byte out) [
  | none ↦ none
  | some v ↦ some (x ∷ v)
]

unfoldable pub set_bytes : ℕ → List ℕ → List ℕ → Option (List ℕ)
unfolding set_byte
set_bytes position [] out = some out
set_bytes position (b ∷ bs) out = elim (set_byte position b out) [
  | none ↦ none
  | some v ↦ set_bytes (position + 1) bs v
]

-- `bin[0], …, bin[n - 1]`; what is not there is stored as 0.
unfoldable pub first_bytes : ℕ → List ℕ → List ℕ
first_bytes zero bs = []
first_bytes (suc n) [] = 0 ∷ first_bytes n []
first_bytes (suc n) (b ∷ bs) = b ∷ first_bytes n bs

unfoldable pub zeros : ℕ → List ℕ
zeros zero = []
zeros (suc n) = 0 ∷ zeros n

-- `float_bytes` is what `setFloat64` stores.
module _ {F : Type 0} (float_bytes : F → List ℕ) where
  unfoldable pub piece_bytes : Piece F → ℕ → List ℕ
  unfolding utf8_write first_bytes
  piece_bytes (str s) n = utf8_write s
  piece_bytes (float x) n = float_bytes x
  piece_bytes (bin bs) n = first_bytes n bs

  -- The loop of `encode` over `bytes`, from the index `i`; `written` is `deferWritten`.
  unfoldable pub fill : List ℕ → ℕ → List (Deferred F) → ℕ → List ℕ → Option (List ℕ)
  unfolding set_byte set_bytes piece_bytes
  fill [] i defers written out = some out
  fill (b ∷ bs) i [] written out = elim (set_byte (written + i) b out) [
    | none ↦ none
    | some v ↦ fill bs (i + 1) [] written v
  ]
  fill (b ∷ bs) i (d ∷ ds) written out = elim (set_byte (written + i) b out) [
    | none ↦ none
    | some v ↦
        let with_piece : Option (List ℕ) =
          elim (set_bytes (written + d.offset) (piece_bytes d.piece d.size) v) [
            | none ↦ none
            | some u ↦ fill bs (i + 1) ds (written + d.size) u
          ] in
        let without = fill bs (i + 1) (d ∷ ds) written v in
        if i + 1 == d.offset then with_piece else without
  ]

  unfoldable pub encode : Value F → Option (List ℕ)
  unfolding encode_value fill zeros
  encode value = elim (encode_value value (record { bytes = []; defers = [] })) [
    | none ↦ none
    | some (o, size) ↦ fill o.bytes 0 o.defers 0 (zeros size)
  ]

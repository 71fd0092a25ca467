-- ===== src/Msgpack/Encode/Layout.antt =====
-- The two passes of packages/msgpack/lib/encode.ts against the layout that they are meant to write:
-- every header followed at once by what it announces.
use socket_io_deno.Common.{ℕ, Option, none, some, List, [], ◌∷◌, ◌++◌, length, if◌then◌else◌}
use socket_io_deno.Msgpack.Utf8.{utf8_length, utf8_write}
use socket_io_deno.Msgpack.{
  Value, null, missing, callable, flag, whole, negative, real, text, buffer, view, date,
  date_before, array, object, Values, no_values, next_value, Fields, no_fields, next_field,
}
use socket_io_deno.Msgpack.Headers.{
  text_header, array_header, object_header, buffer_header, whole_bytes, negative_bytes, date_bytes,
  date_before_bytes,
}
use socket_io_deno.Msgpack.Encode.{is_kept, count_values, count_kept, first_bytes}

abbrev pub joined : Option (List ℕ) → Option (List ℕ) → Option (List ℕ)
joined none m = none
joined (some s) none = none
joined (some s) (some t) = some (s ++ t)

-- What the format lays down.
unfoldable mutual
  pub layout : {F : Type 0} → (F → List ℕ) → Value F → Option (List ℕ)
  layout fb null = some (0xc0 ∷ [])
  layout fb missing = some (0xc0 ∷ [])
  layout fb callable = none
  layout fb (flag b) = some ((if b then 0xc3 else 0xc2) ∷ [])
  layout fb (whole n) = some (whole_bytes n)
  layout fb (negative n) = some (negative_bytes n)
  layout fb (real x) = some (0xcb ∷ fb x)
  layout fb (text s) = joined (text_header (utf8_length s)) (some (utf8_write s))
  layout fb (buffer bs) = joined (buffer_header (length bs)) (some bs)
  layout fb (view bs offset n) = joined (buffer_header n) (some (first_bytes n bs))
  layout fb (date ms) = some (date_bytes ms)
  layout fb (date_before n) = some (date_before_bytes n)
  layout fb (array xs) = joined (array_header (count_values xs)) (layout_values fb xs)
  layout fb (object fs) = joined (object_header (count_kept fs)) (layout_fields fb fs)

  pub layout_values : {F : Type 0} → (F → List ℕ) → Values F → Option (List ℕ)
  layout_values fb no_values = some []
  layout_values fb (next_value v rest) = joined (layout fb v) (layout_values fb rest)

  pub layout_fields : {F : Type 0} → (F → List ℕ) → Fields F → Option (List ℕ)
  layout_fields fb no_fields = some []
  layout_fields fb (next_field key v rest) =
      let kept =
        joined
          (joined (joined (text_header (utf8_length key)) (some (utf8_write key))) (layout fb v))
          (layout_fields fb rest) in
      let passed = layout_fields fb rest in if is_kept v then kept else passed

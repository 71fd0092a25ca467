-- ===== src/Msgpack/Decode/Inverse.antt =====
-- What packages/msgpack/lib/encode.ts makes of a value is read back by decode.ts.
use mathlib.Core.List.{append-nil}
use socket_io_deno.Common.{ℕ, ◌+◌, ◌*◌, some, List, [], ◌∷◌, ◌++◌, length, ◌≡◌, sym, ap, ◌∙◌, arith}
use socket_io_deno.Msgpack.Utf8.{utf8_length, utf8_write}
use socket_io_deno.Msgpack.{
  Value, null, missing, callable, flag, whole, negative, real, text, buffer, view, date,
  date_before, array, object, Values, no_values, next_value, Fields, no_fields, next_field,
}
use socket_io_deno.Msgpack.Headers.{
  text_header, whole_bytes, negative_bytes, date_bytes, date_before_bytes,
}
use socket_io_deno.Msgpack.Encode.{encode}
use socket_io_deno.Msgpack.Encode.Layout.{joined, layout, layout_values, layout_fields}
use socket_io_deno.Msgpack.Encode.Passes.{encode-layout}
use socket_io_deno.Msgpack.Reads.{ok, bind}
use socket_io_deno.Msgpack.Decode.{parse, whole_input, decode}
use socket_io_deno.Msgpack.Decode.Numbers.{
  whole_bytes_lem, negative_bytes_lem, date_bytes_lem, date_before_bytes_lem,
}
use socket_io_deno.Msgpack.Decode.Plain.{IsPlain, ArePlain, HasPlain, plain_kept}
use socket_io_deno.Msgpack.Decode.Steps.{
  Gives, GiveAll, GiveFields, leaf, Gives-null, Gives-flag, Gives-text, Gives-buffer, Gives-real,
  Gives-array, Gives-object, GiveAll-none, GiveAll-next, GiveFields-none, GiveFields-next,
}

-- Every plain value, its elements and its fields.
mutual
  unfolding layout IsPlain

  layout-Gives :
      {F : Type 0} (fb : F → List ℕ) (f32 f64 : List ℕ → Value F) (to_key : Value F → List ℕ)
      (eight : (x : F) → length (fb x) ≡ 8) (same : (x : F) → f64 (fb x) ≡ real x) (v : Value F)
      → IsPlain v
      → Gives fb f32 f64 to_key v (layout fb v)
  layout-Gives fb f32 f64 to_key eight same null h = Gives-null fb f32 f64 to_key
  layout-Gives fb f32 f64 to_key eight same missing h = absurd h
  layout-Gives fb f32 f64 to_key eight same callable h = absurd h
  layout-Gives fb f32 f64 to_key eight same (flag b) h = Gives-flag fb f32 f64 to_key b
  layout-Gives fb f32 f64 to_key eight same (whole n) h =
      leaf fb f32 f64 to_key (whole n) (whole_bytes n)
        (λ ra rm rest. whole_bytes_lem f32 f64 ra rm n rest h)
  layout-Gives fb f32 f64 to_key eight same (negative n) h =
      leaf fb f32 f64 to_key (negative n) (negative_bytes n)
        (λ ra rm rest. negative_bytes_lem f32 f64 ra rm n rest h)
  layout-Gives fb f32 f64 to_key eight same (real x) h =
      Gives-real fb f32 f64 to_key x (eight x) (same x)
  layout-Gives fb f32 f64 to_key eight same (text s) h = Gives-text fb f32 f64 to_key s h
  layout-Gives fb f32 f64 to_key eight same (buffer bs) h = Gives-buffer fb f32 f64 to_key bs
  layout-Gives fb f32 f64 to_key eight same (view bs offset n) h = absurd h
  layout-Gives fb f32 f64 to_key eight same (date ms) h =
      leaf fb f32 f64 to_key (date ms) (date_bytes ms)
        (λ ra rm rest. date_bytes_lem f32 f64 ra rm ms rest h)
  layout-Gives fb f32 f64 to_key eight same (date_before n) h =
      leaf fb f32 f64 to_key (date_before n) (date_before_bytes n)
        (λ ra rm rest. date_before_bytes_lem f32 f64 ra rm n rest h)
  layout-Gives fb f32 f64 to_key eight same (array xs) h =
      Gives-array fb f32 f64 to_key xs (layout_values fb xs)
        (layout_values-GiveAll fb f32 f64 to_key eight same xs h)
  layout-Gives fb f32 f64 to_key eight same (object fs) h =
      Gives-object fb f32 f64 to_key fs (layout_fields fb fs)
        (layout_fields-GiveFields fb f32 f64 to_key eight same fs [] h)

  layout_values-GiveAll :
      {F : Type 0} (fb : F → List ℕ) (f32 f64 : List ℕ → Value F) (to_key : Value F → List ℕ)
      (eight : (x : F) → length (fb x) ≡ 8) (same : (x : F) → f64 (fb x) ≡ real x) (xs : Values F)
      → ArePlain xs
      → GiveAll fb f32 f64 to_key xs (layout_values fb xs)
  layout_values-GiveAll fb f32 f64 to_key eight same no_values h = GiveAll-none fb f32 f64 to_key
  layout_values-GiveAll fb f32 f64 to_key eight same (next_value v rest) h =
      GiveAll-next fb f32 f64 to_key v rest (layout fb v) (layout_values fb rest)
        (layout-Gives fb f32 f64 to_key eight same v h.0)
        (layout_values-GiveAll fb f32 f64 to_key eight same rest h.1)

  layout_fields-GiveFields :
      {F : Type 0} (fb : F → List ℕ) (f32 f64 : List ℕ → Value F) (to_key : Value F → List ℕ)
      (eight : (x : F) → length (fb x) ≡ 8) (same : (x : F) → f64 (fb x) ≡ real x) (fs : Fields F)
      (seen : List (List ℕ))
      → HasPlain seen fs
      → GiveFields fb f32 f64 to_key fs seen (layout_fields fb fs)
  layout_fields-GiveFields fb f32 f64 to_key eight same no_fields seen h =
      GiveFields-none fb f32 f64 to_key seen
  layout_fields-GiveFields fb f32 f64 to_key eight same (next_field key v rest) seen
        (new, fair, t, p, q) =
      rw (plain_kept v p) (
        GiveFields-next fb f32 f64 to_key key v rest seen
          (joined (text_header (utf8_length key)) (some (utf8_write key))) (layout fb v)
          (layout_fields fb rest) (plain_kept v p) fair new (Gives-text fb f32 f64 to_key key t)
          (layout-Gives fb f32 f64 to_key eight same v p)
          (layout_fields-GiveFields fb f32 f64 to_key eight same rest (seen ++ key ∷ []) q))

-- If eight bytes of a float are read as the same float, then `decode` gives back every plain value
-- that `encode` has bytes for: texts are well-formed UTF-16, integers and the milliseconds of dates
-- have 64 bits, the keys of an object differ and none is "__proto__", and nothing is undefined, a function or a view.
pub decode-encode_plain :
    {F : Type 0} (fb : F → List ℕ) (f32 f64 : List ℕ → Value F) (to_key : Value F → List ℕ)
    → ((x : F) → length (fb x) ≡ 8)
    → ((x : F) → f64 (fb x) ≡ real x)
    → (v : Value F) (bs : List ℕ) → IsPlain v
    → encode fb v ≡ some bs
    → decode f32 f64 to_key bs ≡ ok v
unfolding decode
decode-encode_plain fb f32 f64 to_key eight same v bs h e =
    ap (λ l. bind (parse f32 f64 to_key (2 * length bs + 1) l) (λ r. whole_input r.0 r.1))
      (sym (append-nil bs))
    ∙ ap (λ r. bind r (λ r'. whole_input r'.0 r'.1))
        (layout-Gives fb f32 f64 to_key eight same v h bs [] (2 * length bs + 1)
          (sym (encode-layout fb eight v) ∙ e) (omega arith) (omega arith))

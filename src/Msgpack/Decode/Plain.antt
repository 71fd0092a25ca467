-- ===== src/Msgpack/Decode/Plain.antt =====
-- The values of packages/msgpack that its decode.ts gives back as its encode.ts got them.
use socket_io_deno.Common.{
  ℕ, ◌^◌, ◌<◌, true, false, none, some, List, [], ◌∷◌, ◌++◌, leb, length, length-append, ◌≡◌, refl,
  sym, ap, ◌∙◌, arith, drop, same_text, take-append, drop-append, All,
}
use socket_io_deno.Msgpack.Utf8.{utf8_length, utf8_write}
use socket_io_deno.Msgpack.Utf8.RoundTrip.{length-utf8_write, IsText, utf8_read-write}
use socket_io_deno.Msgpack.{
  Value, null, missing, callable, flag, whole, negative, real, text, buffer, view, date,
  date_before, array, object, Values, no_values, next_value, Fields, no_fields, next_field,
}
use socket_io_deno.Msgpack.Encode.{is_kept}
use socket_io_deno.Msgpack.Reads.{
  proto, put, Result, ok, failed, and_read, get_slice, read_text, read_buffer, assign,
}
use socket_io_deno.Msgpack.Decode.{read_float}

-- Values of the format itself, with well-formed texts, integers of 64 bits and keys that differ, none
-- of them "__proto__".
-- `seen` are the keys that come before.
unfoldable mutual
  pub IsPlain : {F : Type 0} → Value F → Type 0
  IsPlain missing = ⊥
  IsPlain callable = ⊥
  IsPlain (whole n) = n < 2 ^ 64
  IsPlain (negative n) = n < 2 ^ 63
  IsPlain (text s) = IsText s
  IsPlain (view bs offset n) = ⊥
  IsPlain (date ms) = ms < 2 ^ 63
  IsPlain (date_before n) = n < 2 ^ 63
  IsPlain (array xs) = ArePlain xs
  IsPlain (object fs) = HasPlain [] fs
  IsPlain _ = Unit

  pub ArePlain : {F : Type 0} → Values F → Type 0
  ArePlain no_values = Unit
  ArePlain (next_value v rest) = IsPlain v × ArePlain rest

  pub HasPlain : {F : Type 0} → List (List ℕ) → Fields F → Type 0
  HasPlain seen no_fields = Unit
  HasPlain seen (next_field key v rest) =
      All (λ k. same_text key k ≡ false) seen
      × (same_text key proto ≡ false)
      × IsText key
      × IsPlain v
      × HasPlain (seen ++ key ∷ []) rest

module _ {F : Type 0} where
  pub plain_kept : (v : Value F) → IsPlain v → is_kept v ≡ true
  unfolding IsPlain
  plain_kept missing h = absurd h
  plain_kept callable h = absurd h
  plain_kept null h = refl
  plain_kept (flag b) h = refl
  plain_kept (whole n) h = refl
  plain_kept (negative n) h = refl
  plain_kept (real x) h = refl
  plain_kept (text s) h = refl
  plain_kept (buffer bs) h = refl
  plain_kept (view bs offset n) h = refl
  plain_kept (date ms) h = refl
  plain_kept (date_before n) h = refl
  plain_kept (array xs) h = refl
  plain_kept (object fs) h = refl

  -- The fields of an object that is being read.
  abbrev pub and_fields : Fields F → Fields F → Fields F
  and_fields no_fields fs = fs
  and_fields (next_field key v rest) fs = next_field key v (and_fields rest fs)

  abbrev pub keys_of : Fields F → List (List ℕ)
  keys_of no_fields = []
  keys_of (next_field key v rest) = key ∷ keys_of rest

  pub keys_of-and_fields :
      (fs : Fields F) (key : List ℕ) (v : Value F)
      → keys_of (and_fields fs (next_field key v no_fields)) ≡ keys_of fs ++ key ∷ []
  keys_of-and_fields no_fields key v = refl
  keys_of-and_fields (next_field k w rest) key v = ap (◌∷◌ k) (keys_of-and_fields rest key v)

  pub and_fields-none : (fs : Fields F) → and_fields fs no_fields ≡ fs
  and_fields-none no_fields = refl
  and_fields-none (next_field key v rest) = ap (next_field key v) (and_fields-none rest)

  pub and_fields_step :
      (fs : Fields F) (key : List ℕ) (v : Value F) (rest : Fields F)
      → and_fields (and_fields fs (next_field key v no_fields)) rest
        ≡ and_fields fs (next_field key v rest)
  and_fields_step no_fields key v rest = refl
  and_fields_step (next_field k w fs) key v rest =
      ap (next_field k w) (and_fields_step fs key v rest)

  put_new :
      (key : List ℕ) (v : Value F) (fs : Fields F)
      → All (λ k. same_text key k ≡ false) (keys_of fs)
      → put key v fs ≡ and_fields fs (next_field key v no_fields)
  unfolding put
  put_new key v no_fields h = refl
  put_new key v (next_field k w rest) h = rw h.0 (ap (next_field k w) (put_new key v rest h.1))

  pub assign_new :
      (key : List ℕ) (v : Value F) (fs : Fields F)
      → same_text key proto ≡ false
      → All (λ k. same_text key k ≡ false) (keys_of fs)
      → assign key v fs ≡ and_fields fs (next_field key v no_fields)
  unfolding assign
  assign_new key v fs plain h = rw plain (put_new key v fs h)

  -- What stands behind a header.
  pub read_text_lem :
      (s rest : List ℕ)
      → IsText s
      → read_text {F = F} (utf8_length s) (utf8_write s ++ rest) ≡ ok (text s, rest)
  unfolding read_text
  read_text_lem s rest t =
      let behind : drop (utf8_length s) (utf8_write s ++ rest) ≡ rest =
        ap (λ n. drop n (utf8_write s ++ rest)) (sym (length-utf8_write s))
        ∙ drop-append (utf8_write s) rest in
      ap
        (λ r. elim r as (λ _. Result (Value F × List ℕ)) [
          | none ↦ failed
          | some u ↦ ok (text u, drop (utf8_length s) (utf8_write s ++ rest))
        ])
        (utf8_read-write s rest t)
      ∙ ap (λ l. ok (text s, l)) behind

get_slice_lem : (bs rest : List ℕ) → get_slice (length bs) (bs ++ rest) ≡ ok (bs, rest)
unfolding get_slice
get_slice_lem bs rest =
    let enough : leb (length bs) (length (bs ++ rest)) ≡ true =
      ground (arith, length-append bs rest) in
    rw (enough, take-append bs rest, drop-append bs rest) refl

module _ {F : Type 0} where
  pub read_buffer_lem :
      (bs rest : List ℕ) → read_buffer {F = F} (length bs) (bs ++ rest) ≡ ok (buffer bs, rest)
  unfolding read_buffer
  read_buffer_lem bs rest = ap (λ r. and_read r (λ l q. ok (buffer l, q))) (get_slice_lem bs rest)

  pub read_float_lem :
      (f32 f64 value_of : List ℕ → Value F) (bs rest : List ℕ)
      → read_float f32 f64 (length bs) value_of (bs ++ rest) ≡ ok (value_of bs, rest)
  unfolding read_float
  read_float_lem f32 f64 value_of bs rest =
      ap (λ r. and_read r (λ l q. ok (value_of l, q))) (get_slice_lem bs rest)

-- ===== src/Msgpack/Decode/Fuel.antt =====
-- The recursion of `parse` in packages/msgpack/lib/decode.ts ends: every call reads a byte.
mod Branches
use Prim.Native.Nat.{bit_and}
use socket_io_deno.Common.{
  ℕ, zero, suc, ◌+◌, ◌-◌, ◌*◌, ◌/◌, ◌^◌, ◌≤◌, ◌<◌, Bool, true, false, Option, none, some, List, [],
  ◌∷◌, ◌==◌, ltb, leb, length, take, drop, if◌then◌else◌, ◌≡◌, ◌≢◌, arith, refl,
}
use socket_io_deno.Msgpack.Utf8.{utf8_read}
use socket_io_deno.Msgpack.{
  Value, null, missing, flag, whole, negative, text, buffer, date, date_before, array, object,
  Values, no_values, next_value, Fields, no_fields, next_field,
}
use socket_io_deno.Msgpack.Reads.{
  Result, ok, failed, out_of_fuel, bind, Read, and_read, get_uint, get_slice, signed, get_int,
  get_whole, read_text, read_buffer, read_extension, is_type, timestamp_32, timestamp_64,
  timestamp_96, date_of, signed_date_of, date_of_value, old_date, read_fixext_1, read_fixext_4,
  read_fixext_8, read_ext_8, read_ext, read_fixext, sized, assign,
}
use socket_io_deno.Msgpack.Decode.{
  key_of, read_float, dispatch, start, as_array, as_object, parse, parse_array, parse_map,
  whole_input, decode,
}
use socket_io_deno.Msgpack.Decode.Fuel.Branches.{
  Fine, Fine-if, Fine-weaken, Fine-and, dispatch-Fine,
}

module _ {F : Type 0} (most : ℕ) where
  as_array-Fine : (r : Result (Values F × List ℕ)) → Fine most r → Fine most (as_array r)
  unfolding Fine
  as_array-Fine (ok r) h = h
  as_array-Fine failed h = h
  as_array-Fine out_of_fuel h = absurd h

  as_object-Fine : (r : Result (Fields F × List ℕ)) → Fine most r → Fine most (as_object r)
  unfolding Fine
  as_object-Fine (ok r) h = h
  as_object-Fine failed h = h
  as_object-Fine out_of_fuel h = absurd h

first_call :
    {F : Type 0} (f32 f64 : List ℕ → Value F) (to_key : Value F → List ℕ) (fuel b : ℕ)
    (bytes : List ℕ)
    → Fine (suc (length bytes) - 1) (parse f32 f64 to_key fuel (b ∷ bytes))
    → Fine (length bytes) (parse f32 f64 to_key fuel (b ∷ bytes))
first_call f32 f64 to_key fuel b bytes h = Fine-weaken _ (length bytes) _ (omega arith) h

-- A call on so much fuel ends, and `parse` reads a byte.
mutual
  unfolding parse Fine

  parse-Fine :
      {F : Type 0} (f32 f64 : List ℕ → Value F) (to_key : Value F → List ℕ) (fuel : ℕ)
      (bytes : List ℕ)
      → 2 * length bytes < fuel
      → Fine (length bytes - 1) (parse f32 f64 to_key fuel bytes)
  parse-Fine f32 f64 to_key zero bytes h = absurd (omega arith)
  parse-Fine f32 f64 to_key (suc fuel) [] h = tt
  parse-Fine f32 f64 to_key (suc fuel) (b ∷ rest) h =
      let same : suc (length rest) - 1 ≡ length rest = omega arith in
      rw same (
        dispatch-Fine f32 f64 _ _ b rest
          (λ n bytes k.
            as_array-Fine (length rest) (parse_array f32 f64 to_key fuel n bytes)
              (parse_array-Fine f32 f64 to_key fuel n bytes (length rest) k (omega arith)))
          (λ n bytes k.
            as_object-Fine (length rest) (parse_map f32 f64 to_key fuel n no_fields bytes)
              (parse_map-Fine f32 f64 to_key fuel n no_fields bytes (length rest) k (omega arith))))

  parse_array-Fine :
      {F : Type 0} (f32 f64 : List ℕ → Value F) (to_key : Value F → List ℕ) (fuel n : ℕ)
      (bytes : List ℕ) (most : ℕ)
      → length bytes ≤ most
      → 2 * length bytes + 1 < fuel
      → Fine most (parse_array f32 f64 to_key fuel n bytes)
  parse_array-Fine f32 f64 to_key zero n bytes most k h = absurd (omega arith)
  parse_array-Fine f32 f64 to_key (suc fuel) zero bytes most k h = k
  parse_array-Fine f32 f64 to_key (suc zero) (suc n) bytes most k h = absurd (omega arith)
  parse_array-Fine f32 f64 to_key (suc (suc fuel)) (suc n) [] most k h = tt
  parse_array-Fine f32 f64 to_key (suc (suc fuel)) (suc n) (b ∷ bytes) most k h =
      Fine-and (length bytes) most (parse f32 f64 to_key (suc fuel) (b ∷ bytes))
        (λ v rest.
          and_read (parse_array f32 f64 to_key (suc fuel) n rest)
            λ vs rest'. ok (next_value v vs, rest'))
        (first_call f32 f64 to_key (suc fuel) b bytes
          (parse-Fine f32 f64 to_key (suc fuel) (b ∷ bytes) (omega arith)))
        (λ v rest l.
          Fine-and most most (parse_array f32 f64 to_key (suc fuel) n rest)
            (λ vs rest'. ok (next_value v vs, rest'))
            (parse_array-Fine f32 f64 to_key (suc fuel) n rest most (omega arith) (omega arith))
            (λ vs rest' m. m))

  parse_map-Fine :
      {F : Type 0} (f32 f64 : List ℕ → Value F) (to_key : Value F → List ℕ) (fuel n : ℕ)
      (found : Fields F) (bytes : List ℕ) (most : ℕ)
      → length bytes ≤ most
      → 2 * length bytes + 1 < fuel
      → Fine most (parse_map f32 f64 to_key fuel n found bytes)
  parse_map-Fine f32 f64 to_key zero n found bytes most k h = absurd (omega arith)
  parse_map-Fine f32 f64 to_key (suc fuel) zero found bytes most k h = k
  parse_map-Fine f32 f64 to_key (suc zero) (suc n) found bytes most k h = absurd (omega arith)
  parse_map-Fine f32 f64 to_key (suc (suc fuel)) (suc n) found [] most k h = tt
  parse_map-Fine f32 f64 to_key (suc (suc fuel)) (suc n) found (b ∷ bytes) most k h =
      Fine-and (length bytes) most (parse f32 f64 to_key (suc fuel) (b ∷ bytes))
        (λ key rest. and_read (parse f32 f64 to_key (suc fuel) rest) λ v rest'.
          parse_map f32 f64 to_key (suc fuel) n (assign (key_of to_key key) v found) rest')
        (first_call f32 f64 to_key (suc fuel) b bytes
          (parse-Fine f32 f64 to_key (suc fuel) (b ∷ bytes) (omega arith)))
        (λ key rest l.
          Fine-and (length rest) most (parse f32 f64 to_key (suc fuel) rest)
            (λ v rest'.
              parse_map f32 f64 to_key (suc fuel) n (assign (key_of to_key key) v found) rest')
            (Fine-weaken (length rest - 1) (length rest) _ (omega arith)
              (parse-Fine f32 f64 to_key (suc fuel) rest (omega arith)))
            λ v rest' m.
              parse_map-Fine f32 f64 to_key (suc fuel) n (assign (key_of to_key key) v found) rest'
                most (omega arith) (omega arith))

Fine-ends : {A : Type 0} (most : ℕ) (r : Result (A × List ℕ)) → Fine most r → r ≢ out_of_fuel
unfolding Fine
Fine-ends most (ok r) h e = cc
Fine-ends most failed h e = cc
Fine-ends most out_of_fuel h e = h

whole_input_ends : {F : Type 0} (v : Value F) (rest : List ℕ) → whole_input v rest ≢ out_of_fuel
whole_input_ends v [] e = cc
whole_input_ends v (b ∷ rest) e = cc

bind_ends :
    {A B : Type 0} (r : Result A) (f : A → Result B)
    → r ≢ out_of_fuel
    → ((a : A) → f a ≢ out_of_fuel)
    → bind r f ≢ out_of_fuel
bind_ends (ok a) f h k e = k a e
bind_ends failed f h k e = cc
bind_ends out_of_fuel f h k e = h refl

-- `decode` comes to an end on every input, whatever lengths its headers announce: a call of `parse`
-- for each byte and a round of `_array` or `_map` for each of them are enough.
pub decode-ends :
    {F : Type 0} (f32 f64 : List ℕ → Value F) (to_key : Value F → List ℕ) (bytes : List ℕ)
    → decode f32 f64 to_key bytes ≢ out_of_fuel
unfolding decode
decode-ends f32 f64 to_key bytes =
    bind_ends (parse f32 f64 to_key (2 * length bytes + 1) bytes) (λ r. whole_input r.0 r.1)
      (Fine-ends (length bytes - 1) _
        (parse-Fine f32 f64 to_key (2 * length bytes + 1) bytes (omega arith)))
      (λ r. whole_input_ends r.0 r.1)

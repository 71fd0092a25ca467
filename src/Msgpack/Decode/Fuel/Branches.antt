-- ===== src/Msgpack/Decode/Fuel/Branches.antt =====
-- No branch of `parse` in packages/msgpack/lib/decode.ts gives back bytes, and none but those of arrays
-- and maps calls `parse` again.
use socket_io_deno.Common.{
  ℕ, zero, suc, ◌+◌, ◌*◌, ◌^◌, ◌≤◌, Bool, true, false, none, some, List, [], ◌∷◌, leb, length, take,
  drop, if◌then◌else◌, arith,
}
use socket_io_deno.Msgpack.Utf8.{utf8_read}
use socket_io_deno.Msgpack.{Value, whole, text, buffer, array, no_values, next_value}
use socket_io_deno.Msgpack.Reads.{
  Result, ok, failed, out_of_fuel, Read, and_read, get_uint, get_slice, signed, get_int, get_whole,
  read_text, read_buffer, read_extension, is_type, timestamp_32, timestamp_64, timestamp_96,
  old_date, read_fixext_1, read_fixext_4, read_fixext_8, read_ext_8, read_ext, read_fixext, sized,
}
use socket_io_deno.Msgpack.Decode.{read_float, dispatch}

-- A read that does not run out of fuel and leaves at most so many bytes.
unfoldable pub Fine : {A : Type 0} → ℕ → Result (A × List ℕ) → Type 0
Fine most (ok r) = length r.1 ≤ most
Fine most failed = Unit
Fine most out_of_fuel = ⊥

module _ {A : Type 0} where
  pub Fine-if :
      (most : ℕ) (b : Bool) (x y : Result (A × List ℕ))
      → Fine most x
      → Fine most y
      → Fine most (if b then x else y)
  unfolding Fine
  Fine-if most true x y p q = p
  Fine-if most false x y p q = q

  pub Fine-weaken : (few most : ℕ) (x : Result (A × List ℕ)) → few ≤ most → Fine few x → Fine most x
  unfolding Fine
  Fine-weaken few most (ok r) h p = omega arith
  Fine-weaken few most failed h p = tt
  Fine-weaken few most out_of_fuel h p = absurd p

pub Fine-and :
    {A B : Type 0} (few most : ℕ) (m : Result (A × List ℕ)) (f : A → Read B)
    → Fine few m
    → ((a : A) (bytes : List ℕ) → length bytes ≤ few → Fine most (f a bytes))
    → Fine most (and_read m f)
unfolding Fine
Fine-and few most (ok r) f p q = q r.0 r.1 p
Fine-and few most failed f p q = tt
Fine-and few most out_of_fuel f p q = absurd p

-- A read of something of no fixed depth.
abbrev Shrinks : {A : Type 0} → Read A → Type 0
Shrinks {A} read =
    (bytes : List ℕ) (most : ℕ) → length bytes ≤ most → Fine {A = A} most (read bytes)

Shrinks-and :
    {A B : Type 0} (m : Read A) (f : A → Read B)
    → Shrinks m
    → ((a : A) → Shrinks (f a))
    → Shrinks (λ bytes. and_read (m bytes) f)
Shrinks-and m f p q bytes most h =
    Fine-and most most (m bytes) f (p bytes most h) (λ a rest k. q a rest most k)

Shrinks-if :
    {A : Type 0} (b : Bool) (x y : Read A)
    → Shrinks x
    → Shrinks y
    → Shrinks (λ bytes. if b then x bytes else y bytes)
Shrinks-if b x y p q bytes most h =
    Fine-if most b (x bytes) (y bytes) (p bytes most h) (q bytes most h)

Shrinks-ok : {A : Type 0} (a : A) → Shrinks {A = A} (λ bytes. ok (a, bytes))
unfolding Fine
Shrinks-ok a bytes most h = h

get_uint-Shrinks : (k : ℕ) → Shrinks (get_uint k)
unfolding get_uint Fine
get_uint-Shrinks zero bytes most h = h
get_uint-Shrinks (suc k) [] most h = tt
get_uint-Shrinks (suc k) (b ∷ bytes) most h =
    Shrinks-and (get_uint k) (λ n rest. ok (b * 256 ^ k + n, rest)) (get_uint-Shrinks k)
      (λ n. Shrinks-ok (b * 256 ^ k + n)) bytes most (omega arith)

length-drop-le : (n : ℕ) (bytes : List ℕ) → length (drop n bytes) ≤ length bytes
length-drop-le zero bytes = omega arith
length-drop-le (suc n) [] = omega arith
length-drop-le (suc n) (b ∷ bytes) = omega (arith, length-drop-le n bytes)

get_slice-Shrinks : (n : ℕ) → Shrinks (get_slice n)
unfolding get_slice Fine
get_slice-Shrinks n bytes most h =
    Fine-if most (leb n (length bytes)) (ok (take n bytes, drop n bytes)) failed
      (omega (arith, length-drop-le n bytes)) tt

-- The readers of `parse`.
module _ (F : Type 0) where
  get_int-Shrinks : (k : ℕ) → Shrinks (get_int {F = F} k)
  unfolding get_int Fine
  get_int-Shrinks k =
      Shrinks-and (get_uint (k + 1)) (λ n rest. ok (signed k n, rest)) (get_uint-Shrinks (k + 1))
        (λ _ _ _ h. h)

  get_whole-Shrinks : (k : ℕ) → Shrinks (get_whole {F = F} k)
  unfolding get_whole Fine
  get_whole-Shrinks k =
      Shrinks-and (get_uint k) (λ n rest. ok (whole n, rest)) (get_uint-Shrinks k) (λ _ _ _ h. h)

  read_text-Shrinks : (n : ℕ) → Shrinks (read_text {F = F} n)
  unfolding read_text Fine
  read_text-Shrinks n bytes most h =
      elim (utf8_read n bytes)
        as (λ o.
          Fine {A = Value F} most (elim o [ none ↦ failed | some s ↦ ok (text s, drop n bytes) ])) [
            | none ↦ tt
            | some s ↦ omega (arith, length-drop-le n bytes)
          ]

  read_buffer-Shrinks : (n : ℕ) → Shrinks (read_buffer {F = F} n)
  unfolding read_buffer Fine
  read_buffer-Shrinks n =
      Shrinks-and (get_slice n) (λ bs rest. ok (buffer bs, rest)) (get_slice-Shrinks n)
        (λ _ _ _ h. h)

  read_extension-Shrinks : (n : ℕ) (type : Value F) → Shrinks (read_extension n type)
  unfolding read_extension Fine
  read_extension-Shrinks n type =
      Shrinks-and (read_buffer n)
        (λ b rest. ok (array (next_value type (next_value b no_values)), rest))
        (read_buffer-Shrinks n) (λ _ _ _ h. h)

  timestamp_32-Shrinks : Shrinks (timestamp_32 {F = F})
  unfolding timestamp_32 Fine
  timestamp_32-Shrinks = Shrinks-and (get_uint 4) _ (get_uint-Shrinks 4) (λ _ _ _ h. h)

  timestamp_64-Shrinks : Shrinks (timestamp_64 {F = F})
  unfolding timestamp_64 Fine
  timestamp_64-Shrinks =
      Shrinks-and (get_uint 4) _ (get_uint-Shrinks 4)
        λ hi. Shrinks-and (get_uint 4) _ (get_uint-Shrinks 4) λ _ _ _ h. h

  timestamp_96-Shrinks : Shrinks (timestamp_96 {F = F})
  unfolding timestamp_96 Fine
  timestamp_96-Shrinks =
      Shrinks-and (get_uint 4) _ (get_uint-Shrinks 4)
        λ ns. Shrinks-and (get_uint 8) _ (get_uint-Shrinks 8) (λ _ _ _ h. h)

  old_date-Shrinks : Shrinks (old_date {F = F})
  unfolding Fine
  old_date-Shrinks = Shrinks-and (get_int 7) _ (get_int-Shrinks 7) (λ _ _ _ h. h)

  read_fixext_1-Shrinks : Shrinks (read_fixext_1 {F = F})
  unfolding read_fixext_1 Fine
  read_fixext_1-Shrinks = Shrinks-and (get_int 0) _ (get_int-Shrinks 0) λ type.
      Shrinks-if (is_type 0 type) _ _
        (Shrinks-and (get_slice 1) _ (get_slice-Shrinks 1) (λ _ _ _ h. h))
        (read_extension-Shrinks 1 type)

  read_fixext_4-Shrinks : Shrinks (read_fixext_4 {F = F})
  unfolding read_fixext_4
  read_fixext_4-Shrinks =
      Shrinks-and (get_int 0) _ (get_int-Shrinks 0)
        λ type. Shrinks-if (is_type 1 type) _ _ timestamp_32-Shrinks (read_extension-Shrinks 4 type)

  read_fixext_8-Shrinks : Shrinks (read_fixext_8 {F = F})
  unfolding read_fixext_8
  read_fixext_8-Shrinks = Shrinks-and (get_int 0) _ (get_int-Shrinks 0) λ type.
      Shrinks-if (is_type 0 type) _ _ old_date-Shrinks
        (Shrinks-if (is_type 1 type) _ _ timestamp_64-Shrinks (read_extension-Shrinks 8 type))

  read_ext_8-Shrinks : Shrinks (read_ext_8 {F = F})
  unfolding read_ext_8
  read_ext_8-Shrinks = Shrinks-and (get_uint 1) _ (get_uint-Shrinks 1) λ n.
      Shrinks-and (get_int 0) _ (get_int-Shrinks 0)
        λ type. Shrinks-if (is_type 1 type) _ _ timestamp_96-Shrinks (read_extension-Shrinks n type)

  read_ext-Shrinks : (k : ℕ) → Shrinks (read_ext {F = F} k)
  unfolding read_ext
  read_ext-Shrinks k =
      Shrinks-and (get_uint k) _ (get_uint-Shrinks k)
        λ n. Shrinks-and (get_int 0) _ (get_int-Shrinks 0) (λ type. read_extension-Shrinks n type)

  read_fixext-Shrinks : (n : ℕ) → Shrinks (read_fixext {F = F} n)
  unfolding read_fixext
  read_fixext-Shrinks n =
      Shrinks-and (get_int 0) _ (get_int-Shrinks 0) (λ type. read_extension-Shrinks n type)

  sized-Shrinks :
      (k : ℕ) (read : ℕ → Read (Value F)) → ((n : ℕ) → Shrinks (read n)) → Shrinks (sized k read)
  sized-Shrinks k read p = Shrinks-and (get_uint k) _ (get_uint-Shrinks k) p

module _ {F : Type 0} (bytes : List ℕ) where
  Fine-ok : (v : Value F) → Fine (length bytes) (ok (v, bytes))
  unfolding Fine
  Fine-ok v = omega arith

Fine-failed : (F : Type 0) (most : ℕ) → Fine {A = Value F} most failed
unfolding Fine
Fine-failed F most = tt

same_length : (n : ℕ) → n ≤ n
same_length n = omega arith

-- Every branch on the first byte.
module _ {F : Type 0} (f32 f64 : List ℕ → Value F) where
  read_float-Shrinks :
      (n : ℕ) (value_of : List ℕ → Value F) → Shrinks (read_float f32 f64 n value_of)
  unfolding read_float Fine
  read_float-Shrinks n value_of = Shrinks-and (get_slice n) _ (get_slice-Shrinks n) (λ _ _ _ h. h)

  sized-Fine :
      (k : ℕ) (read : ℕ → Read (Value F)) (bytes : List ℕ)
      → ((n : ℕ) (rest : List ℕ) → length rest ≤ length bytes → Fine (length bytes) (read n rest))
      → Fine (length bytes) (sized k read bytes)
  sized-Fine k read bytes p =
      Fine-and (length bytes) (length bytes) (get_uint k bytes) read
        (get_uint-Shrinks k bytes (length bytes) (omega arith)) p

  pub dispatch-Fine :
      (ra rm : ℕ → Read (Value F)) (prefix : ℕ) (rest : List ℕ)
      → ((n : ℕ) (bytes : List ℕ) → length bytes ≤ length rest → Fine (length rest) (ra n bytes))
      → ((n : ℕ) (bytes : List ℕ) → length bytes ≤ length rest → Fine (length rest) (rm n bytes))
      → Fine (length rest) (dispatch f32 f64 ra rm prefix rest)
  unfolding dispatch
  dispatch-Fine ra rm prefix rest p q =
      search
        (
          Fine-if,
          Fine-ok,
          Fine-failed,
          sized-Fine,
          p,
          q,
          same_length,
          get_int-Shrinks F,
          get_whole-Shrinks F,
          read_text-Shrinks F,
          read_buffer-Shrinks F,
          read_float-Shrinks,
          read_fixext_1-Shrinks F,
          read_fixext_4-Shrinks F,
          read_fixext_8-Shrinks F,
          read_ext_8-Shrinks F,
          read_ext-Shrinks F,
          read_fixext-Shrinks F,
        )
        depth 60 fits 5000

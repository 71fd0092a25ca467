-- ===== src/Msgpack/Decode/RoundTrip.antt =====
-- What packages/msgpack/lib/encode.ts lays down is read back by decode.ts: the headers and the
-- numbers.
use Prim.Native.Nat.{bit_or, bit_and}
use socket_io_deno.Common.{
  ℕ, ◌+◌, ◌-◌, ◌/◌, ◌%◌, ◌^◌, ◌<◌, Bool, true, false, Option, none, some, List, [], ◌∷◌, ◌++◌, ◌==◌,
  ltb, if◌then◌else◌, ◌≡◌, refl, ap, ◌∙◌, arith, holds_under, holds_under_lem,
}
use socket_io_deno.Common.Bits.{bit_and_15, bit_and_31}
use socket_io_deno.Msgpack.{Value}
use socket_io_deno.Msgpack.Headers.{
  big_endian, big_endian_neg, long_header, text_header, array_header, object_header, buffer_header,
}
use socket_io_deno.Msgpack.Reads.{ok, Read, and_read, get_uint, read_text, read_buffer, sized}
use socket_io_deno.Msgpack.Decode.{dispatch, start}

-- The big-endian numbers.
module _ (n : ℕ) (rest : List ℕ) where
  pub get_uint_1 : n < 2 ^ 8 → get_uint 1 (big_endian 1 n ++ rest) ≡ ok (n, rest)
  unfolding get_uint big_endian
  get_uint_1 h = ap (λ (x : ℕ). ok (x, rest)) (omega arith)

  pub get_uint_2 : n < 2 ^ 16 → get_uint 2 (big_endian 2 n ++ rest) ≡ ok (n, rest)
  unfolding get_uint big_endian
  get_uint_2 h = ap (λ (x : ℕ). ok (x, rest)) (omega arith)

  pub get_uint_4 : n < 2 ^ 32 → get_uint 4 (big_endian 4 n ++ rest) ≡ ok (n, rest)
  unfolding get_uint big_endian
  get_uint_4 h = ap (λ (x : ℕ). ok (x, rest)) (omega arith)

  pub get_uint_8 : n < 2 ^ 64 → get_uint 8 (big_endian 8 n ++ rest) ≡ ok (n, rest)
  unfolding get_uint big_endian
  get_uint_8 h = ap (λ (x : ℕ). ok (x, rest)) (omega arith)

  pub get_uint_neg_1 :
      n < 2 ^ 8 → get_uint 1 (big_endian_neg 1 n ++ rest) ≡ ok (2 ^ 8 - 1 - n, rest)
  unfolding get_uint big_endian_neg
  get_uint_neg_1 h = ap (λ (x : ℕ). ok (x, rest)) (omega arith)

  pub get_uint_neg_2 :
      n < 2 ^ 16 → get_uint 2 (big_endian_neg 2 n ++ rest) ≡ ok (2 ^ 16 - 1 - n, rest)
  unfolding get_uint big_endian_neg
  get_uint_neg_2 h = ap (λ (x : ℕ). ok (x, rest)) (omega arith)

  pub get_uint_neg_4 :
      n < 2 ^ 32 → get_uint 4 (big_endian_neg 4 n ++ rest) ≡ ok (2 ^ 32 - 1 - n, rest)
  unfolding get_uint big_endian_neg
  get_uint_neg_4 h = ap (λ (x : ℕ). ok (x, rest)) (omega arith)

  -- The bytes of -(n + 1) are those of its two's complement.
  complements : (m : ℕ) → n + m ≡ 2 ^ 64 - 1 → big_endian_neg 8 n ≡ big_endian 8 m
  unfolding big_endian big_endian_neg
  complements m e =
      let b7 : 255 - n / 256 ^ 7 % 256 ≡ m / 256 ^ 7 % 256 = omega arith in
      let b6 : 255 - n / 256 ^ 6 % 256 ≡ m / 256 ^ 6 % 256 = omega arith in
      let b5 : 255 - n / 256 ^ 5 % 256 ≡ m / 256 ^ 5 % 256 = omega arith in
      let b4 : 255 - n / 256 ^ 4 % 256 ≡ m / 256 ^ 4 % 256 = omega arith in
      let b3 : 255 - n / 256 ^ 3 % 256 ≡ m / 256 ^ 3 % 256 = omega arith in
      let b2 : 255 - n / 256 ^ 2 % 256 ≡ m / 256 ^ 2 % 256 = omega arith in
      let b1 : 255 - n / 256 ^ 1 % 256 ≡ m / 256 ^ 1 % 256 = omega arith in
      let b0 : 255 - n / 256 ^ 0 % 256 ≡ m / 256 ^ 0 % 256 = omega arith in
      λ i. b7 i ∷ b6 i ∷ b5 i ∷ b4 i ∷ b3 i ∷ b2 i ∷ b1 i ∷ b0 i ∷ []

pub get_uint_neg_8 :
    (n : ℕ) (rest : List ℕ)
    → n < 2 ^ 64
    → get_uint 8 (big_endian_neg 8 n ++ rest) ≡ ok (2 ^ 64 - 1 - n, rest)
get_uint_neg_8 n rest h =
    ap (λ bs. get_uint 8 (bs ++ rest)) (complements n rest (2 ^ 64 - 1 - n) (omega arith))
    ∙ get_uint_8 (2 ^ 64 - 1 - n) rest (omega arith)

-- The first bytes that hold a length themselves.
or_text : (n : ℕ) → n < 0x20 → bit_or n 0xa0 ≡ 0xa0 + n
unfolding holds_under
or_text n h = let t = holds_under_lem (λ k. bit_or k 0xa0 == 0xa0 + k) 0x20 n h refl in ground arith

or_array : (n : ℕ) → n < 0x10 → bit_or n 0x90 ≡ 0x90 + n
unfolding holds_under
or_array n h =
    let t = holds_under_lem (λ k. bit_or k 0x90 == 0x90 + k) 0x10 n h refl in ground arith

or_map : (n : ℕ) → n < 0x10 → bit_or n 0x80 ≡ 0x80 + n
unfolding holds_under
or_map n h = let t = holds_under_lem (λ k. bit_or k 0x80 == 0x80 + k) 0x10 n h refl in ground arith

module _ {F : Type 0} (f32 f64 : List ℕ → Value F) (ra rm : ℕ → Read (Value F)) where
  -- What `parse` does behind a header.
  abbrev Starts : Option (List ℕ) → Read (Value F) → Type 0
  Starts o k = (h rest : List ℕ) → o ≡ some h → start f32 f64 ra rm (h ++ rest) ≡ k rest

  Starts-some :
      (bs : List ℕ) (k : Read (Value F))
      → ((rest : List ℕ) → start f32 f64 ra rm (bs ++ rest) ≡ k rest)
      → Starts (some bs) k
  Starts-some bs k p h rest e =
      let same : h ≡ bs = cc in ap (λ l. start f32 f64 ra rm (l ++ rest)) same ∙ p rest

  Starts-if :
      (b : Bool) (x y : Option (List ℕ)) (k : Read (Value F))
      → (b ≡ true → Starts x k)
      → (b ≡ false → Starts y k)
      → Starts (if b then x else y) k
  Starts-if true x y k p q = p refl
  Starts-if false x y k p q = q refl

  sized_lem :
      (k n : ℕ) (read : ℕ → Read (Value F)) (bytes rest : List ℕ)
      → get_uint k bytes ≡ ok (n, rest)
      → sized k read bytes ≡ read n rest
  sized_lem k n read bytes rest e = ap (λ r. and_read r (λ m q. read m q)) e

  long_header-Starts :
      (two four n : ℕ) (read : ℕ → Read (Value F))
      → ((rest : List ℕ) → start f32 f64 ra rm (two ∷ rest) ≡ sized 2 read rest)
      → ((rest : List ℕ) → start f32 f64 ra rm (four ∷ rest) ≡ sized 4 read rest)
      → Starts (long_header two four n) (read n)
  unfolding long_header
  long_header-Starts two four n read p q =
      Starts-if (ltb n 0x10000) _ _ (read n)
        (λ h. Starts-some (two ∷ big_endian 2 n) (read n) λ rest.
          p (big_endian 2 n ++ rest) ∙ sized_lem 2 n read _ rest (get_uint_2 n rest (ground arith)))
        (λ _.
          Starts-if (ltb n 0x100000000) _ _ (read n)
            (λ h. Starts-some (four ∷ big_endian 4 n) (read n) λ rest.
              q (big_endian 4 n ++ rest)
              ∙ sized_lem 4 n read _ rest (get_uint_4 n rest (ground arith)))
            (λ _ h rest e. absurd (none-ne-some e)))
    where
      none-ne-some : {h : List ℕ} → ¬ (none ≡ some h)
      none-ne-some e = cc

  fix_text :
      (n : ℕ) (rest : List ℕ)
      → n < 0x20
      → dispatch f32 f64 ra rm (bit_or n 0xa0) rest ≡ read_text n rest
  unfolding dispatch
  fix_text n rest h =
      let a : ltb (0xa0 + n) 0xc0 ≡ true = ground arith in
      let b : ltb (0xa0 + n) 0x80 ≡ false = ground arith in
      let c : ltb (0xa0 + n) 0x90 ≡ false = ground arith in
      let d : ltb (0xa0 + n) 0xa0 ≡ false = ground arith in
      let m : bit_and (0xa0 + n) 0x1f ≡ n = bit_and_31 (0xa0 + n) ∙ omega arith in
      rw (or_text n h, a, b, c, d, m) refl

  fix_array :
      (n : ℕ) (rest : List ℕ) → n < 0x10 → dispatch f32 f64 ra rm (bit_or n 0x90) rest ≡ ra n rest
  unfolding dispatch
  fix_array n rest h =
      let a : ltb (0x90 + n) 0xc0 ≡ true = ground arith in
      let b : ltb (0x90 + n) 0x80 ≡ false = ground arith in
      let c : ltb (0x90 + n) 0x90 ≡ false = ground arith in
      let d : ltb (0x90 + n) 0xa0 ≡ true = ground arith in
      let m : bit_and (0x90 + n) 0x0f ≡ n = bit_and_15 (0x90 + n) ∙ omega arith in
      rw (or_array n h, a, b, c, d, m) refl

  fix_map :
      (n : ℕ) (rest : List ℕ) → n < 0x10 → dispatch f32 f64 ra rm (bit_or n 0x80) rest ≡ rm n rest
  unfolding dispatch
  fix_map n rest h =
      let a : ltb (0x80 + n) 0xc0 ≡ true = ground arith in
      let b : ltb (0x80 + n) 0x80 ≡ false = ground arith in
      let c : ltb (0x80 + n) 0x90 ≡ true = ground arith in
      let m : bit_and (0x80 + n) 0x0f ≡ n = bit_and_15 (0x80 + n) ∙ omega arith in
      rw (or_map n h, a, b, c, m) refl

  pub text_header-Starts : (n : ℕ) → Starts (text_header n) (read_text n)
  unfolding text_header dispatch
  text_header-Starts n =
      Starts-if (ltb n 0x20) _ _ (read_text n)
        (λ h. Starts-some (bit_or n 0xa0 ∷ []) (read_text n) λ rest. fix_text n rest (ground arith))
        (λ _.
          Starts-if (ltb n 0x100) _ _ (read_text n)
            (λ h. Starts-some (0xd9 ∷ big_endian 1 n) (read_text n) λ rest.
              sized_lem 1 n read_text (big_endian 1 n ++ rest) rest
                (get_uint_1 n rest (ground arith)))
            (λ _. long_header-Starts 0xda 0xdb n read_text (λ rest. refl) (λ rest. refl)))

  pub array_header-Starts : (n : ℕ) → Starts (array_header n) (ra n)
  unfolding array_header dispatch
  array_header-Starts n =
      Starts-if (ltb n 0x10) _ _ (ra n)
        (λ h. Starts-some (bit_or n 0x90 ∷ []) (ra n) λ rest. fix_array n rest (ground arith))
        (λ _. long_header-Starts 0xdc 0xdd n ra (λ rest. refl) (λ rest. refl))

  pub object_header-Starts : (n : ℕ) → Starts (object_header n) (rm n)
  unfolding object_header dispatch
  object_header-Starts n =
      Starts-if (ltb n 0x10) _ _ (rm n)
        (λ h. Starts-some (bit_or n 0x80 ∷ []) (rm n) λ rest. fix_map n rest (ground arith))
        (λ _. long_header-Starts 0xde 0xdf n rm (λ rest. refl) (λ rest. refl))

  pub buffer_header-Starts : (n : ℕ) → Starts (buffer_header n) (read_buffer n)
  unfolding buffer_header dispatch
  buffer_header-Starts n =
      Starts-if (ltb n 0x100) _ _ (read_buffer n)
        (λ h. Starts-some (0xc4 ∷ big_endian 1 n) (read_buffer n) λ rest.
          sized_lem 1 n read_buffer (big_endian 1 n ++ rest) rest
            (get_uint_1 n rest (ground arith)))
        (λ _. long_header-Starts 0xc5 0xc6 n read_buffer (λ rest. refl) (λ rest. refl))

-- ===== src/Msgpack/Decode/Numbers.antt =====
-- What packages/msgpack/lib/encode.ts lays down for a number or a date is read back by decode.ts.
use Prim.Native.Nat.{bit_and}
use socket_io_deno.Common.{
  ℕ, ◌+◌, ◌-◌, ◌*◌, ◌/◌, ◌%◌, ◌^◌, ◌<◌, true, false, ◌&&◌, List, ◌∷◌, ◌++◌, ◌==◌, ltb, leb, ◌≡◌,
  refl, ap, ◌∙◌, inl, inr, arith, Bool-cases,
}
use socket_io_deno.Common.Bits.{bit_and_3}
use socket_io_deno.Msgpack.{Value, whole, negative, date, date_before}
use socket_io_deno.Msgpack.Headers.{
  big_endian, big_endian_neg, whole_bytes, negative_bytes, date_bytes, date_before_bytes,
}
use socket_io_deno.Msgpack.Reads.{
  ok, Read, and_read, get_uint, signed, get_int, get_whole, date_of, signed_date_of, timestamp_32,
  timestamp_64, timestamp_96, read_fixext_4, read_fixext_8, read_ext_8,
}
use socket_io_deno.Msgpack.Decode.{dispatch, start}
use socket_io_deno.Msgpack.Decode.RoundTrip.{
  get_uint_1, get_uint_2, get_uint_4, get_uint_8, get_uint_neg_1, get_uint_neg_2, get_uint_neg_4,
  get_uint_neg_8,
}

module _ {F : Type 0} where
  get_whole_lem :
      (k n : ℕ) (bytes rest : List ℕ)
      → get_uint k bytes ≡ ok (n, rest)
      → get_whole {F = F} k bytes ≡ ok (whole n, rest)
  unfolding get_whole
  get_whole_lem k n bytes rest e = ap (λ r. and_read r (λ m q. ok (whole m, q))) e

  -- A negative number behind the half of its width.
  get_int_lem :
      (k n m : ℕ) (bytes rest : List ℕ)
      → get_uint (k + 1) bytes ≡ ok (m, rest)
      → ltb m (128 * 256 ^ k) ≡ false
      → 256 * 256 ^ k - 1 - m ≡ n
      → get_int {F = F} k bytes ≡ ok (negative n, rest)
  unfolding get_int signed
  get_int_lem k n m bytes rest e h p =
      ap (λ r. and_read r (λ l q. ok (signed k l, q))) e ∙ rw (h, p) refl

module _ {F : Type 0} (f32 f64 : List ℕ → Value F) (ra rm : ℕ → Read (Value F)) where
  small_whole :
      (n : ℕ) (rest : List ℕ) → n < 0x80 → dispatch f32 f64 ra rm n rest ≡ ok (whole n, rest)
  unfolding dispatch
  small_whole n rest h =
      let a : ltb n 0xc0 ≡ true = ground arith in
      let b : ltb n 0x80 ≡ true = ground arith in rw (a, b) refl

  small_negative :
      (n : ℕ) (rest : List ℕ)
      → n < 0x20
      → dispatch f32 f64 ra rm (0xff - n) rest ≡ ok (negative n, rest)
  unfolding dispatch
  small_negative n rest h =
      let a : ltb (0xff - n) 0xc0 ≡ false = ground arith in
      let b : ltb 0xdf (0xff - n) ≡ true = ground arith in
      let c : 0xff - (0xff - n) ≡ n = omega arith in rw (a, b, c) refl

  pub whole_bytes_lem :
      (n : ℕ) (rest : List ℕ)
      → n < 2 ^ 64
      → start f32 f64 ra rm (whole_bytes n ++ rest) ≡ ok (whole n, rest)
  unfolding whole_bytes dispatch
  whole_bytes_lem n rest h = elim (Bool-cases (ltb n 0x80)) [
    | inl a ↦
        let e : n / 256 ^ 0 % 256 ≡ n = ground arith in
        rw a (ap (λ k. dispatch f32 f64 ra rm k rest) e ∙ small_whole n rest (ground arith))
    | inr a ↦ elim (Bool-cases (ltb n 0x100)) [
      | inl b ↦
          rw (a, b)
            (get_whole_lem 1 n (big_endian 1 n ++ rest) rest (get_uint_1 n rest (ground arith)))
      | inr b ↦ elim (Bool-cases (ltb n 0x10000)) [
        | inl c ↦
            rw (a, b, c)
              (get_whole_lem 2 n (big_endian 2 n ++ rest) rest (get_uint_2 n rest (ground arith)))
        | inr c ↦ elim (Bool-cases (ltb n 0x100000000)) [
          | inl d ↦
              rw (a, b, c, d)
                (get_whole_lem 4 n (big_endian 4 n ++ rest) rest (get_uint_4 n rest (ground arith)))
          | inr d ↦
              rw (a, b, c, d)
                (get_whole_lem 8 n (big_endian 8 n ++ rest) rest (get_uint_8 n rest h))
        ]
      ]
    ]
  ]

  pub negative_bytes_lem :
      (n : ℕ) (rest : List ℕ)
      → n < 2 ^ 63
      → start f32 f64 ra rm (negative_bytes n ++ rest) ≡ ok (negative n, rest)
  unfolding negative_bytes dispatch
  negative_bytes_lem n rest h = elim (Bool-cases (ltb n 0x20)) [
    | inl a ↦
        let e : 255 - n / 256 ^ 0 % 256 ≡ 0xff - n = ground arith in
        rw a (ap (λ k. dispatch f32 f64 ra rm k rest) e ∙ small_negative n rest (ground arith))
    | inr a ↦ elim (Bool-cases (ltb n 0x80)) [
      | inl b ↦
          rw (a, b)
            (get_int_lem 0 n (2 ^ 8 - 1 - n) (big_endian_neg 1 n ++ rest) rest
              (get_uint_neg_1 n rest (ground arith)) (ground arith) (ground arith))
      | inr b ↦ elim (Bool-cases (ltb n 0x8000)) [
        | inl c ↦
            rw (a, b, c)
              (get_int_lem 1 n (2 ^ 16 - 1 - n) (big_endian_neg 2 n ++ rest) rest
                (get_uint_neg_2 n rest (ground arith)) (ground arith) (ground arith))
        | inr c ↦ elim (Bool-cases (ltb n 0x80000000)) [
          | inl d ↦
              rw (a, b, c, d)
                (get_int_lem 3 n (2 ^ 32 - 1 - n) (big_endian_neg 4 n ++ rest) rest
                  (get_uint_neg_4 n rest (ground arith)) (ground arith) (ground arith))
          | inr d ↦
              rw (a, b, c, d)
                (get_int_lem 7 n (2 ^ 64 - 1 - n) (big_endian_neg 8 n ++ rest) rest
                  (get_uint_neg_8 n rest (ground arith)) (ground arith) (ground arith))
        ]
      ]
    ]
  ]

  -- The three timestamps.
  fixext_4 :
      (s : ℕ) (rest : List ℕ)
      → s < 2 ^ 32
      → start f32 f64 ra rm (0xd6 ∷ 0xff ∷ big_endian 4 s ++ rest) ≡ ok (date_of s 0, rest)
  unfolding dispatch read_fixext_4 get_int get_uint signed timestamp_32
  fixext_4 s rest h = ap (λ r. and_read r (λ m q. ok (date_of m 0, q))) (get_uint_4 s rest h)

  low_word : (n : ℕ) (rest : List ℕ) → get_uint 4 (big_endian 4 n ++ rest) ≡ ok (n % 2 ^ 32, rest)
  unfolding get_uint big_endian
  low_word n rest = ap (λ (x : ℕ). ok (x, rest)) (omega arith)

  high_word :
      (ns s : ℕ) (rest : List ℕ)
      → ns % 64 ≡ 0
      → ns < 2 ^ 30
      → s < 2 ^ 34
      → get_uint 4 (
          (ns / 2 ^ 22 % 256)
          ∷ (ns / 2 ^ 14 % 256)
          ∷ (ns / 2 ^ 6 % 256)
          ∷ (s / 2 ^ 32 % 256)
          ∷ rest)
        ≡ ok (ns * 4 + s / 2 ^ 32, rest)
  unfolding get_uint
  high_word ns s rest h k l = ap (λ (x : ℕ). ok (x, rest)) (omega arith)

  fixext_8 :
      (ns s : ℕ) (rest : List ℕ)
      → ns % 64 ≡ 0
      → ns < 2 ^ 30
      → s < 2 ^ 34
      → start f32 f64 ra rm (
          0xd7
            ∷ 0xff
            ∷ (ns / 2 ^ 22 % 256)
            ∷ (ns / 2 ^ 14 % 256)
            ∷ (ns / 2 ^ 6 % 256)
            ∷ (s / 2 ^ 32 % 256)
            ∷ big_endian 4 s
          ++ rest)
        ≡ ok (date_of s ns, rest)
  unfolding dispatch read_fixext_8 get_int get_uint signed timestamp_64
  fixext_8 ns s rest h k l =
      ap
        (λ r. and_read r λ hi q.
          and_read (get_uint 4 q) λ lo q'. ok (date_of (bit_and hi 0x3 * 2 ^ 32 + lo) (hi / 4), q'))
        (high_word ns s (big_endian 4 s ++ rest) h k l)
      ∙ ap
          (λ r. and_read r λ lo q'. ok (
            date_of (bit_and (ns * 4 + s / 2 ^ 32) 0x3 * 2 ^ 32 + lo) ((ns * 4 + s / 2 ^ 32) / 4),
            q',
          ))
          (low_word s rest)
      ∙ ap (λ x. ok (date_of x ((ns * 4 + s / 2 ^ 32) / 4), rest))
          (omega (arith, bit_and_3 (ns * 4 + s / 2 ^ 32)))
      ∙ ap (λ x. ok (date_of s x, rest)) (omega arith)

  ext_12 :
      (ns s : ℕ) (bytes rest : List ℕ)
      → ns < 2 ^ 32
      → get_uint 8 bytes ≡ ok (s, rest)
      → start f32 f64 ra rm (0xc7 ∷ 0x0c ∷ 0xff ∷ big_endian 4 ns ++ bytes)
        ≡ ok (signed_date_of s ns, rest)
  unfolding dispatch read_ext_8 get_int get_uint signed timestamp_96
  ext_12 ns s bytes rest h e =
      ap (λ r. and_read r λ n q. and_read (get_uint 8 q) (λ m q'. ok (signed_date_of m n, q')))
        (get_uint_4 ns bytes h)
      ∙ ap (λ r. and_read r (λ m q'. ok (signed_date_of m ns, q'))) e

  pub date_bytes_lem :
      (ms : ℕ) (rest : List ℕ)
      → ms < 2 ^ 63
      → start f32 f64 ra rm (date_bytes ms ++ rest) ≡ ok (date ms, rest)
  unfolding date_bytes date_of signed_date_of
  date_bytes_lem ms rest h =
      let s : ℕ = ms / 1000 in
      let ns : ℕ = (ms - s * 1000) * 1000000 in
      elim (Bool-cases (leb s 0x3ffffffff)) [
        | inl a ↦ elim (Bool-cases (ns == 0 && leb s 0xffffffff)) [
          | inl b ↦
              rw (a, b)
                (fixext_4 s rest (ground arith) ∙ ap (λ (x : ℕ). ok (date x, rest)) (ground arith))
          | inr b ↦
              rw (a, b)
                (fixext_8 ns s rest (omega arith) (omega arith) (ground arith)
                  ∙ ap (λ (x : ℕ). ok (date x, rest)) (omega arith))
        ]
        | inr a ↦
            let early : ltb s (2 ^ 63) ≡ true = ground arith in
            let exact : s * 1000 + ns / 1000000 ≡ ms = omega arith in
            rw a (
              ext_12 ns s (big_endian 8 s ++ rest) rest (omega arith)
                (get_uint_8 s rest (omega arith))
              ∙ rw (early, exact) refl)
      ]

  pub date_before_bytes_lem :
      (n : ℕ) (rest : List ℕ)
      → n < 2 ^ 63
      → start f32 f64 ra rm (date_before_bytes n ++ rest) ≡ ok (date_before n, rest)
  unfolding date_before_bytes signed_date_of
  date_before_bytes_lem n rest h =
      let s : ℕ = 2 ^ 64 - 1 - n / 1000 in
      let ns : ℕ = ((n / 1000 + 1) * 1000 - (n + 1)) * 1000000 in
      let before : ℕ = (2 ^ 64 - s) * 1000 in
      let late : ltb s (2 ^ 63) ≡ false = ground arith in
      let left : ltb ((ns + 999999) / 1000000) before ≡ true = ground arith in
      let exact : before - (ns + 999999) / 1000000 - 1 ≡ n = omega arith in
      ext_12 ns s (big_endian_neg 8 (n / 1000) ++ rest) rest (omega arith)
        (get_uint_neg_8 (n / 1000) rest (omega arith))
      ∙ rw (late, left, exact) refl

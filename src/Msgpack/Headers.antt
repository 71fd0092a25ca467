-- ===== src/Msgpack/Headers.antt =====
-- The bytes of headers, numbers and dates in packages/msgpack/lib/encode.ts. A pushed number is the
-- byte that `setUint8` will store of it. `none` is an error.
use Prim.Native.Nat.{bit_or}
use socket_io_deno.Common.{
  ℕ, zero, suc, ◌+◌, ◌-◌, ◌*◌, ◌/◌, ◌%◌, ◌^◌, ◌&&◌, Option, none, some, List, [], ◌∷◌, ◌++◌, ◌==◌,
  ltb, leb, if◌then◌else◌,
}

-- `n >> 8 * (k - 1), …, n >> 8, n` as bytes, and those of -(n + 1).
unfoldable pub big_endian : ℕ → ℕ → List ℕ
big_endian zero n = []
big_endian (suc k) n = (n / 256 ^ k % 256) ∷ big_endian k n

unfoldable pub big_endian_neg : ℕ → ℕ → List ℕ
big_endian_neg zero n = []
big_endian_neg (suc k) n = (255 - n / 256 ^ k % 256) ∷ big_endian_neg k n

-- The headers of a length, by its size.
unfoldable pub long_header : ℕ → ℕ → ℕ → Option (List ℕ)
unfolding big_endian
long_header two four n =
    if ltb n 0x10000
    then some (two ∷ big_endian 2 n)
    else if ltb n 0x100000000
    then some (four ∷ big_endian 4 n)
    else none

unfoldable pub text_header : ℕ → Option (List ℕ)
unfolding long_header
text_header n =
    if ltb n 0x20
    then some (bit_or n 0xa0 ∷ [])
    else if ltb n 0x100
    then some (0xd9 ∷ big_endian 1 n)
    else long_header 0xda 0xdb n

unfoldable pub array_header : ℕ → Option (List ℕ)
unfolding long_header
array_header n = if ltb n 0x10 then some (bit_or n 0x90 ∷ []) else long_header 0xdc 0xdd n

unfoldable pub object_header : ℕ → Option (List ℕ)
unfolding long_header
object_header n = if ltb n 0x10 then some (bit_or n 0x80 ∷ []) else long_header 0xde 0xdf n

unfoldable pub buffer_header : ℕ → Option (List ℕ)
unfolding long_header
buffer_header n = if ltb n 0x100 then some (0xc4 ∷ big_endian 1 n) else long_header 0xc5 0xc6 n

-- The bytes of an integer that is not negative, and of -(n + 1).
unfoldable pub whole_bytes : ℕ → List ℕ
unfolding big_endian
whole_bytes n =
    if ltb n 0x80
    then big_endian 1 n
    else if ltb n 0x100
    then 0xcc ∷ big_endian 1 n
    else if ltb n 0x10000
    then 0xcd ∷ big_endian 2 n
    else if ltb n 0x100000000
    then 0xce ∷ big_endian 4 n
    else 0xcf ∷ big_endian 8 n

unfoldable pub negative_bytes : ℕ → List ℕ
unfolding big_endian_neg
negative_bytes n =
    if ltb n 0x20
    then big_endian_neg 1 n
    else if ltb n 0x80
    then 0xd0 ∷ big_endian_neg 1 n
    else if ltb n 0x8000
    then 0xd1 ∷ big_endian_neg 2 n
    else if ltb n 0x80000000
    then 0xd2 ∷ big_endian_neg 4 n
    else 0xd3 ∷ big_endian_neg 8 n

-- The three timestamps. `ns` is a whole number of milliseconds, so its six low bits are zero.
unfoldable pub date_bytes : ℕ → List ℕ
unfolding big_endian
date_bytes ms =
    let s = ms / 1000 in
    let ns = (ms - s * 1000) * 1000000 in
    if leb s 0x3ffffffff
    then (if ns == 0 && leb s 0xffffffff
        then 0xd6 ∷ 0xff ∷ big_endian 4 s
        else 0xd7
          ∷ 0xff
          ∷ (ns / 2 ^ 22 % 256)
          ∷ (ns / 2 ^ 14 % 256)
          ∷ (ns / 2 ^ 6 % 256)
          ∷ (s / 2 ^ 32 % 256)
          ∷ big_endian 4 s)
    else 0xc7 ∷ 0x0c ∷ 0xff ∷ (big_endian 4 ns ++ big_endian 8 s)

-- Here `s`, rounded down, is -(n / 1000 + 1).
unfoldable pub date_before_bytes : ℕ → List ℕ
unfolding big_endian big_endian_neg
date_before_bytes n =
    let ns = ((n / 1000 + 1) * 1000 - (n + 1)) * 1000000 in
    0xc7 ∷ 0x0c ∷ 0xff ∷ (big_endian 4 ns ++ big_endian_neg 8 (n / 1000))

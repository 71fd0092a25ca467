-- ===== src/Msgpack/Utf8/Fuel.antt =====
-- The loop of `utf8Read` in packages/msgpack/lib/decode.ts has fuel enough: each round reads a byte.
use Prim.Native.Nat.{bit_and}
use socket_io_deno.Common.{
  ℕ, zero, suc, ◌-◌, ◌≤◌, Bool, true, false, Option, none, some, List, [], ◌∷◌, ◌≡◌, refl, ap,
  if◌then◌else◌, ◌==◌, arith,
}
use socket_io_deno.Msgpack.Utf8.{
  read_two, read_three, read_four, read_char, prepend, utf8_loop, utf8_read,
}

-- The number of bytes of a round.
abbrev bytes_read : Option (List ℕ × ℕ × List ℕ) → ℕ
bytes_read none = 1
bytes_read (some (units, count, rest)) = count

if-bytes_read :
    (b : Bool) (x y : Option (List ℕ × ℕ × List ℕ))
    → 1 ≤ bytes_read x
    → 1 ≤ bytes_read y
    → 1 ≤ bytes_read (if b then x else y)
if-bytes_read true x y h k = h
if-bytes_read false x y h k = k

bytes_read-two : (a : ℕ) (bytes : List ℕ) → 1 ≤ bytes_read (read_two a bytes)
unfolding read_two
bytes_read-two a [] = omega arith
bytes_read-two a (b ∷ rest) = omega arith

bytes_read-three : (a : ℕ) (bytes : List ℕ) → 1 ≤ bytes_read (read_three a bytes)
unfolding read_three
bytes_read-three a [] = omega arith
bytes_read-three a (b ∷ []) = omega arith
bytes_read-three a (b ∷ c ∷ rest) = omega arith

bytes_read-four : (a : ℕ) (bytes : List ℕ) → 1 ≤ bytes_read (read_four a bytes)
unfolding read_four
bytes_read-four a [] = omega arith
bytes_read-four a (b ∷ []) = omega arith
bytes_read-four a (b ∷ c ∷ []) = omega arith
bytes_read-four a (b ∷ c ∷ d ∷ rest) = omega arith

bytes_read-char : (bytes : List ℕ) → 1 ≤ bytes_read (read_char bytes)
unfolding read_char
bytes_read-char [] = omega arith
bytes_read-char (byte ∷ rest) =
    let four : Option (List ℕ × ℕ × List ℕ) =
      if bit_and byte 0xf8 == 0xf0 then read_four byte rest else none in
    let three = if bit_and byte 0xf0 == 0xe0 then read_three byte rest else four in
    let two = if bit_and byte 0xe0 == 0xc0 then read_two byte rest else three in
    let has_four : 1 ≤ bytes_read four =
      if-bytes_read (bit_and byte 0xf8 == 0xf0) (read_four byte rest) none
        (bytes_read-four byte rest) (omega arith) in
    let has_three : 1 ≤ bytes_read three =
      if-bytes_read (bit_and byte 0xf0 == 0xe0) (read_three byte rest) four
        (bytes_read-three byte rest) has_four in
    let has_two : 1 ≤ bytes_read two =
      if-bytes_read (bit_and byte 0xe0 == 0xc0) (read_two byte rest) three
        (bytes_read-two byte rest) has_three in
    if-bytes_read (bit_and byte 0x80 == 0) (some (byte ∷ [], 1, rest)) two (omega arith) has_two

-- Two loops that have fuel for each of the bytes give the same.
utf8_loop-fuel :
    (fuel other length : ℕ) (bytes : List ℕ)
    → length ≤ fuel
    → length ≤ other
    → utf8_loop fuel length bytes ≡ utf8_loop other length bytes
unfolding utf8_loop
utf8_loop-fuel zero zero length bytes h k = refl
utf8_loop-fuel zero (suc other) length bytes h k = ground arith
utf8_loop-fuel (suc fuel) zero length bytes h k = ground arith
utf8_loop-fuel (suc fuel) (suc other) length bytes h k =
    ap (λ r. if length == 0 then some [] else r)
      (go (read_char bytes) (bytes_read-char bytes)
        (λ n rest l l'. utf8_loop-fuel fuel other n rest l l'))
  where
    go :
        (o : Option (List ℕ × ℕ × List ℕ))
        → 1 ≤ bytes_read o
        → ((n : ℕ) (rest : List ℕ)
            → n ≤ fuel
            → n ≤ other
            → utf8_loop fuel n rest ≡ utf8_loop other n rest)
        → Path
            (Option (List ℕ))
            (elim o [
              | none ↦ none
              | some (units, count, rest) ↦ prepend units (utf8_loop fuel (length - count) rest)
            ])
            (elim o [
              | none ↦ none
              | some (units, count, rest) ↦ prepend units (utf8_loop other (length - count) rest)
            ])
    go none c same = refl
    go (some (units, count, rest)) c same =
        ap (prepend units) (same (length - count) rest (omega (arith, c, h)) (omega (arith, c, k)))

-- More fuel than `utf8_read` gives its loop changes nothing, whatever the bytes are.
utf8_read-fuel :
    (fuel length : ℕ) (bytes : List ℕ)
    → length ≤ fuel
    → utf8_loop fuel length bytes ≡ utf8_read length bytes
unfolding utf8_read
utf8_read-fuel fuel length bytes h = utf8_loop-fuel fuel length length bytes h (omega arith)

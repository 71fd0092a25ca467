-- ===== src/Msgpack/Utf8.antt =====
-- `utf8Length` and `utf8Write` of packages/msgpack/lib/encode.ts and `utf8Read` of decode.ts. A text
-- is the list of its UTF-16 code units. The bytes are written one behind the other, and read off the
-- front of what a view holds from an offset on.
pub mod RoundTrip
pub mod Fuel
use Prim.Native.Nat.{bit_and, bit_or}
use socket_io_deno.Common.{
  ℕ, zero, suc, ◌+◌, ◌-◌, ◌*◌, ◌/◌, Bool, true, false, ◌&&◌, Option, none, some, List, [], ◌∷◌,
  ◌++◌, ◌==◌, ltb, leb, if◌then◌else◌,
}

-- `c >= 0xd800 && c < 0xe000`
abbrev pub is_surrogate : ℕ → Bool
is_surrogate c = leb 0xd800 c && ltb c 0xe000

-- The branches of `utf8Write` on a code unit that stands for itself.
unfoldable pub write_two : ℕ → List ℕ
write_two c = bit_or 0xc0 (c / 64) ∷ bit_or 0x80 (bit_and c 0x3f) ∷ []

unfoldable pub write_three : ℕ → List ℕ
write_three c =
    bit_or 0xe0 (c / 4096) ∷ bit_or 0x80 (bit_and (c / 64) 0x3f) ∷ bit_or 0x80 (bit_and c 0x3f) ∷ []

unfoldable pub write_unit : ℕ → List ℕ
unfolding write_two write_three
write_unit c = if ltb c 0x80 then c ∷ [] else if ltb c 0x800 then write_two c else write_three c

-- The branch on a pair of them.
unfoldable pub code_point : ℕ → ℕ → ℕ
code_point c d = 0x10000 + bit_or (bit_and c 0x3ff * 1024) (bit_and d 0x3ff)

unfoldable pub write_four : ℕ → List ℕ
write_four c =
    bit_or 0xf0 (c / 262144)
    ∷ bit_or 0x80 (bit_and (c / 4096) 0x3f)
    ∷ bit_or 0x80 (bit_and (c / 64) 0x3f)
    ∷ bit_or 0x80 (bit_and c 0x3f)
    ∷ []

-- The unit behind the end is `NaN`, which the bit operations take for 0.
unfoldable pub utf8_write : List ℕ → List ℕ
unfolding write_unit write_four code_point
utf8_write [] = []
utf8_write (c ∷ []) = if is_surrogate c then write_four (code_point c 0) else write_unit c
utf8_write (c ∷ d ∷ rest) =
    let next = utf8_write (d ∷ rest) in
    let next_but_one = utf8_write rest in
    if is_surrogate c then write_four (code_point c d) ++ next_but_one else write_unit c ++ next

unfoldable pub unit_length : ℕ → ℕ
unit_length c = if ltb c 0x80 then 1 else if ltb c 0x800 then 2 else 3

unfoldable pub utf8_length : List ℕ → ℕ
unfolding unit_length
utf8_length [] = 0
utf8_length (c ∷ []) = if is_surrogate c then 4 else unit_length c
utf8_length (c ∷ d ∷ rest) =
    let next = utf8_length (d ∷ rest) in
    let next_but_one = utf8_length rest in
    if is_surrogate c then 4 + next_but_one else unit_length c + next

-- The branches of a round of `utf8Read`: the units that it adds, how many bytes it read, and what
-- stands behind them. A read behind the end of the view throws.
unfoldable pub read_two : ℕ → List ℕ → Option (List ℕ × ℕ × List ℕ)
read_two a (b ∷ rest) = some (bit_or (bit_and a 0x1f * 64) (bit_and b 0x3f) ∷ [], 2, rest)
read_two a _ = none

unfoldable pub read_three : ℕ → List ℕ → Option (List ℕ × ℕ × List ℕ)
read_three a (b ∷ c ∷ rest) =
    some
      (bit_or (bit_or (bit_and a 0x0f * 4096) (bit_and b 0x3f * 64)) (bit_and c 0x3f) ∷ [], 3, rest)
read_three a _ = none

unfoldable pub units_of : ℕ → List ℕ
units_of chr =
    if leb 0x10000 chr
    then ((chr - 0x10000) / 1024 + 0xd800) ∷ (bit_and (chr - 0x10000) 0x3ff + 0xdc00) ∷ []
    else chr ∷ []

unfoldable pub read_four : ℕ → List ℕ → Option (List ℕ × ℕ × List ℕ)
unfolding units_of
read_four a (b ∷ c ∷ d ∷ rest) = some (
  units_of (
      bit_or
        (bit_or (bit_or (bit_and a 0x07 * 262144) (bit_and b 0x3f * 4096)) (bit_and c 0x3f * 64))
        (bit_and d 0x3f)),
  4,
  rest,
)
read_four a _ = none

unfoldable pub read_char : List ℕ → Option (List ℕ × ℕ × List ℕ)
unfolding read_two read_three read_four
read_char [] = none
read_char (byte ∷ rest) =
    if bit_and byte 0x80 == 0
    then some (byte ∷ [], 1, rest)
    else if bit_and byte 0xe0 == 0xc0
    then read_two byte rest
    else if bit_and byte 0xf0 == 0xe0
    then read_three byte rest
    else if bit_and byte 0xf8 == 0xf0
    then read_four byte rest
    else none

-- The loop over `length` bytes. A round reads at least one, so a call has fuel for all rounds if it
-- has at least `length`: more of it changes nothing (Utf8/Fuel). The last character may lie in part
-- behind them.
abbrev pub prepend : List ℕ → Option (List ℕ) → Option (List ℕ)
prepend units none = none
prepend units (some s) = some (units ++ s)

unfoldable pub utf8_loop : ℕ → ℕ → List ℕ → Option (List ℕ)
unfolding read_char
utf8_loop zero length bytes = some []
utf8_loop (suc fuel) length bytes =
    let rounds : Option (List ℕ) = elim (read_char bytes) [
      | none ↦ none
      | some (units, count, rest) ↦ prepend units (utf8_loop fuel (length - count) rest)
    ] in
    if length == 0 then some [] else rounds

unfoldable pub utf8_read : ℕ → List ℕ → Option (List ℕ)
unfolding utf8_loop
utf8_read length bytes = utf8_loop length length bytes

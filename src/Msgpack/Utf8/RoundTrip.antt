-- ===== src/Msgpack/Utf8/RoundTrip.antt =====
-- What is written as UTF-8 is read back.
use Prim.Native.Nat.{bit_and, bit_or}
use socket_io_deno.Common.{
  ℕ, zero, suc, ◌+◌, ◌-◌, ◌*◌, ◌/◌, ◌%◌, ◌≤◌, ◌<◌, Bool, true, false, not, ◌&&◌, some, List, [],
  ◌∷◌, ◌++◌, ◌==◌, ltb, leb, if◌then◌else◌, ◌≡◌, inl, inr, refl, ap, sym, ◌∙◌, arith, length,
  length-append, holds_under, holds_under_lem, Bool-cases,
}
use mathlib.Core.List.{append_assoc, append-nil}
use socket_io_deno.Common.Bits.{
  bit_or-shift, bit_and_7, bit_and_15, bit_and_31, bit_and_63, bit_and_1023,
}
use socket_io_deno.Msgpack.Utf8.{
  is_surrogate, write_two, write_three, write_unit, code_point, write_four, utf8_write, unit_length,
  utf8_length, read_two, read_three, units_of, read_four, read_char, prepend, utf8_loop, utf8_read,
}

-- Well-formed UTF-16: a surrogate stands only in a pair.
pub data IsText : List ℕ → Type 0 where
  nil : IsText []
  unit : (c : ℕ) (s : List ℕ) → c < 0x10000 → is_surrogate c ≡ false → IsText s → IsText (c ∷ s)
  pair :
      (c d : ℕ) (s : List ℕ)
      → 0xd800 ≤ c
      → c < 0xdc00
      → 0xdc00 ≤ d
      → d < 0xe000
      → IsText s
      → IsText (c ∷ d ∷ s)

-- The bytes as sums.
tail_byte : (x : ℕ) → bit_or 0x80 (bit_and x 0x3f) ≡ 0x80 + x % 64
tail_byte x = rw bit_and_63 (bit_or-shift 6 2 (x % 64) (omega arith))

write_two_lem : (c : ℕ) → c < 0x800 → write_two c ≡ (0xc0 + c / 64) ∷ (0x80 + c % 64) ∷ []
unfolding write_two
write_two_lem c h = simp (tail_byte, bit_or-shift 5 6 (c / 64) (omega arith))

write_three_lem :
    (c : ℕ)
    → c < 0x10000
    → write_three c ≡ (0xe0 + c / 4096) ∷ (0x80 + c / 64 % 64) ∷ (0x80 + c % 64) ∷ []
unfolding write_three
write_three_lem c h = simp (tail_byte, bit_or-shift 4 14 (c / 4096) (omega arith))

write_four_lem :
    (c : ℕ)
    → c < 0x110000
    → write_four c
      ≡ (0xf0 + c / 262144) ∷ (0x80 + c / 4096 % 64) ∷ (0x80 + c / 64 % 64) ∷ (0x80 + c % 64) ∷ []
unfolding write_four
write_four_lem c h = simp (tail_byte, bit_or-shift 4 15 (c / 262144) (omega arith))

code_point_lem : (c d : ℕ) → code_point c d ≡ 0x10000 + (c % 1024 * 1024 + d % 1024)
unfolding code_point
code_point_lem c d =
    rw (bit_and_1023 c, bit_and_1023 d)
      (ap (λ (x : ℕ). 0x10000 + x) (bit_or-shift 10 (c % 1024) (d % 1024) (omega arith)))

-- The class of a byte by its high bits.
abbrev class_ok : ℕ → Bool
class_ok b =
    (if ltb b 0x80 then bit_and b 0x80 == 0 else not (bit_and b 0x80 == 0))
    && (if leb 0xc0 b && ltb b 0xe0 then bit_and b 0xe0 == 0xc0 else not (bit_and b 0xe0 == 0xc0))
    && (if leb 0xe0 b && ltb b 0xf0 then bit_and b 0xf0 == 0xe0 else not (bit_and b 0xf0 == 0xe0))
    && (if leb 0xf0 b && ltb b 0xf8 then bit_and b 0xf8 == 0xf0 else not (bit_and b 0xf8 == 0xf0))

class_table : holds_under class_ok 256 ≡ true
unfolding holds_under
class_table = refl

class_lem : (b : ℕ) → b < 256 → class_ok b ≡ true
class_lem b h = holds_under_lem class_ok 256 b h class_table

-- Which branch of `utf8Read` a byte takes.
read_char-one : (b : ℕ) (rest : List ℕ) → b < 0x80 → read_char (b ∷ rest) ≡ some (b ∷ [], 1, rest)
unfolding read_char
read_char-one b rest h = ground (arith, class_lem b)

read_char-two :
    (b : ℕ) (rest : List ℕ) → 0xc0 ≤ b → b < 0xe0 → read_char (b ∷ rest) ≡ read_two b rest
unfolding read_char
read_char-two b rest h k = ground (arith, class_lem b)

read_char-three :
    (b : ℕ) (rest : List ℕ) → 0xe0 ≤ b → b < 0xf0 → read_char (b ∷ rest) ≡ read_three b rest
unfolding read_char
read_char-three b rest h k = ground (arith, class_lem b)

read_char-four :
    (b : ℕ) (rest : List ℕ) → 0xf0 ≤ b → b < 0xf8 → read_char (b ∷ rest) ≡ read_four b rest
unfolding read_char
read_char-four b rest h k = ground (arith, class_lem b)

-- The units as sums.
two_units : (a b : ℕ) → bit_or (bit_and a 0x1f * 64) (bit_and b 0x3f) ≡ a % 32 * 64 + b % 64
two_units a b = rw (bit_and_31, bit_and_63) (bit_or-shift 6 (a % 32) (b % 64) (omega arith))

three_units :
    (x b c : ℕ)
    → bit_or (bit_or (x * 4096) (bit_and b 0x3f * 64)) (bit_and c 0x3f)
      ≡ (x * 64 + b % 64) * 64 + c % 64
three_units x b c =
    let inner : bit_or (x * 4096) (b % 64 * 64) ≡ (x * 64 + b % 64) * 64 =
      bit_or-shift 12 x (b % 64 * 64) (omega arith) ∙ omega arith in
    rw (bit_and_63 b, bit_and_63 c, inner) (bit_or-shift 6 (x * 64 + b % 64) (c % 64) (omega arith))

four_units :
    (x b c d : ℕ)
    → bit_or
        (bit_or (bit_or (x * 262144) (bit_and b 0x3f * 4096)) (bit_and c 0x3f * 64))
        (bit_and d 0x3f)
      ≡ ((x * 64 + b % 64) * 64 + c % 64) * 64 + d % 64
four_units x b c d =
    let inner : bit_or (x * 262144) (b % 64 * 4096) ≡ (x * 64 + b % 64) * 4096 =
      bit_or-shift 18 x (b % 64 * 4096) (omega arith) ∙ omega arith in
    rw (bit_and_63 b, inner) (three_units (x * 64 + b % 64) c d)

-- A round reads what a round of the writer wrote.
module _ (c : ℕ) (rest : List ℕ) where
  read-write_two : 0x80 ≤ c → c < 0x800 → read_char (write_two c ++ rest) ≡ some (c ∷ [], 2, rest)
  unfolding read_two
  read-write_two h k =
      ap (λ w. read_char (w ++ rest)) (write_two_lem c k)
      ∙ read_char-two (0xc0 + c / 64) ((0x80 + c % 64) ∷ rest) (omega arith) (omega arith)
      ∙ ap (λ (x : ℕ). some (x ∷ [], 2, rest))
          (two_units (0xc0 + c / 64) (0x80 + c % 64) ∙ omega arith)

  read-write_three :
      0x800 ≤ c → c < 0x10000 → read_char (write_three c ++ rest) ≡ some (c ∷ [], 3, rest)
  unfolding read_three
  read-write_three h k =
      ap (λ w. read_char (w ++ rest)) (write_three_lem c k)
      ∙ read_char-three (0xe0 + c / 4096) ((0x80 + c / 64 % 64) ∷ (0x80 + c % 64) ∷ rest)
          (omega arith) (omega arith)
      ∙ ap (λ (x : ℕ). some (x ∷ [], 3, rest))
          (three_units (bit_and (0xe0 + c / 4096) 0x0f) (0x80 + c / 64 % 64) (0x80 + c % 64)
            ∙ omega (arith, bit_and_15 (0xe0 + c / 4096)))

  read-write_four :
      0x10000 ≤ c → c < 0x110000 → read_char (write_four c ++ rest) ≡ some (units_of c, 4, rest)
  unfolding read_four
  read-write_four h k =
      ap (λ w. read_char (w ++ rest)) (write_four_lem c k)
      ∙ read_char-four (0xf0 + c / 262144)
          ((0x80 + c / 4096 % 64) ∷ (0x80 + c / 64 % 64) ∷ (0x80 + c % 64) ∷ rest) (omega arith)
          (omega arith)
      ∙ ap (λ (x : ℕ). some (units_of x, 4, rest))
          (four_units (bit_and (0xf0 + c / 262144) 0x07) (0x80 + c / 4096 % 64) (0x80 + c / 64 % 64)
              (0x80 + c % 64)
            ∙ omega (arith, bit_and_7 (0xf0 + c / 262144)))

  read-write_unit :
      c < 0x10000 → read_char (write_unit c ++ rest) ≡ some (c ∷ [], unit_length c, rest)
  unfolding write_unit unit_length
  read-write_unit h = elim (Bool-cases (ltb c 0x80)) [
    | inl one ↦ rw one (read_char-one c rest (ground arith))
    | inr more ↦ elim (Bool-cases (ltb c 0x800)) [
      | inl two ↦ rw (more, two) (read-write_two (ground arith) (ground arith))
      | inr three ↦ rw (more, three) (read-write_three (ground arith) h)
    ]
  ]

units_of-code_point :
    (c d : ℕ)
    → 0xd800 ≤ c
    → c < 0xdc00
    → 0xdc00 ≤ d
    → d < 0xe000
    → units_of (code_point c d) ≡ c ∷ d ∷ []
unfolding units_of
units_of-code_point c d h1 h2 h3 h4 =
    let e : code_point c d ≡ 0x10000 + ((c - 0xd800) * 1024 + (d - 0xdc00)) =
      code_point_lem c d ∙ omega arith in
    rw (e, bit_and_1023) (ground arith)

-- The lengths that the two functions go by are the same.
length-write_unit : (c : ℕ) → length (write_unit c) ≡ unit_length c
unfolding write_unit unit_length
length-write_unit c = ground arith

length-write_four : (c : ℕ) → length (write_four c) ≡ 4
unfolding write_four
length-write_four c = omega arith

-- `utf8Length` tells how many bytes `utf8Write` writes, for every text.
pub length-utf8_write : (s : List ℕ) → length (utf8_write s) ≡ utf8_length s
unfolding utf8_write utf8_length
length-utf8_write [] = refl
length-utf8_write (c ∷ []) = ground (arith, length-write_unit c, length-write_four (code_point c 0))
length-utf8_write (c ∷ d ∷ rest) = ground (
  arith,
  length-append (write_four (code_point c d)) (utf8_write rest),
  length-append (write_unit c) (utf8_write (d ∷ rest)),
  length-write_unit c,
  length-write_four (code_point c d),
  length-utf8_write rest,
  length-utf8_write (d ∷ rest),
)

-- The recursion on a unit, and on a pair of surrogates.
utf8_write-unit :
    (c : ℕ) (s : List ℕ)
    → is_surrogate c ≡ false
    → (utf8_write (c ∷ s) ≡ write_unit c ++ utf8_write s)
      × (utf8_length (c ∷ s) ≡ unit_length c + utf8_length s)
unfolding utf8_write utf8_length
utf8_write-unit c [] h = (rw h (sym (append-nil (write_unit c))), rw h (omega arith))
utf8_write-unit c (d ∷ s) h = (rw h refl, rw h refl)

utf8_write-pair :
    (c d : ℕ) (s : List ℕ)
    → 0xd800 ≤ c
    → c < 0xdc00
    → (utf8_write (c ∷ d ∷ s) ≡ write_four (code_point c d) ++ utf8_write s)
      × (utf8_length (c ∷ d ∷ s) ≡ 4 + utf8_length s)
unfolding utf8_write utf8_length
utf8_write-pair c d s h k = let e : is_surrogate c ≡ true = ground arith in (rw e refl, rw e refl)

loop_done : (fuel : ℕ) (bytes : List ℕ) → utf8_loop fuel 0 bytes ≡ some []
unfolding utf8_loop
loop_done zero bytes = refl
loop_done (suc fuel) bytes = refl

loop_round :
    (fuel n k : ℕ) (bytes units rest : List ℕ)
    → read_char bytes ≡ some (units, k, rest)
    → 0 < n
    → utf8_loop (suc fuel) n bytes ≡ prepend units (utf8_loop fuel (n - k) rest)
unfolding utf8_loop
loop_round fuel n k bytes units rest e h =
    let positive : (n == 0) ≡ false = ground arith in rw (positive, e) refl

unit_length_pos : (c : ℕ) → 0 < unit_length c
unfolding unit_length
unit_length_pos c = ground arith

-- A round of the reader that matches a round of the writer.
loop_step :
    (units written s rest : List ℕ) (k fuel : ℕ)
    → read_char (written ++ (utf8_write s ++ rest)) ≡ some (units, k, utf8_write s ++ rest)
    → 0 < k
    → k + utf8_length s ≤ fuel
    → ((f : ℕ) → utf8_length s ≤ f → utf8_loop f (utf8_length s) (utf8_write s ++ rest) ≡ some s)
    → utf8_loop fuel (k + utf8_length s) ((written ++ utf8_write s) ++ rest) ≡ some (units ++ s)
loop_step units written s rest k zero e p h ih = absurd (omega arith)
loop_step units written s rest k (suc fuel) e p h ih =
    let left : k + utf8_length s - k ≡ utf8_length s = omega arith in
    ap (utf8_loop (suc fuel) (k + utf8_length s)) (append_assoc written (utf8_write s) rest)
    ∙ loop_round fuel (k + utf8_length s) k _ units (utf8_write s ++ rest) e (omega arith)
    ∙ ap (λ n. prepend units (utf8_loop fuel n (utf8_write s ++ rest))) left
    ∙ ap (prepend units) (ih fuel (omega arith))

utf8_loop-write :
    {s : List ℕ}
    → IsText s
    → (rest : List ℕ) (fuel : ℕ) → utf8_length s ≤ fuel
    → utf8_loop fuel (utf8_length s) (utf8_write s ++ rest) ≡ some s
utf8_loop-write nil rest fuel h = unfold utf8_length in loop_done fuel (utf8_write [] ++ rest)
utf8_loop-write (unit c s small plain t) rest fuel h =
    let (w, l) = utf8_write-unit c s plain in
    rw (w, l)
      (loop_step (c ∷ []) (write_unit c) s rest (unit_length c) fuel
        (read-write_unit c (utf8_write s ++ rest) small) (unit_length_pos c) (omega (arith, l))
        (utf8_loop-write t rest))
utf8_loop-write (pair c d s h1 h2 h3 h4 t) rest fuel h =
    let (w, l) = utf8_write-pair c d s h1 h2 in
    let e : units_of (code_point c d) ≡ c ∷ d ∷ [] = units_of-code_point c d h1 h2 h3 h4 in
    rw (w, l)
      (loop_step (c ∷ d ∷ []) (write_four (code_point c d)) s rest 4 fuel
        (read-write_four (code_point c d) (utf8_write s ++ rest) (omega (arith, code_point_lem c d))
            (omega (arith, code_point_lem c d))
          ∙ ap (λ u. some (u, 4, utf8_write s ++ rest)) e)
        (omega arith) (omega (arith, l)) (utf8_loop-write t rest))

-- A well-formed text comes back from its bytes, whatever stands behind them.
pub utf8_read-write :
    (s rest : List ℕ) → IsText s → utf8_read (utf8_length s) (utf8_write s ++ rest) ≡ some s
unfolding utf8_read
utf8_read-write s rest t = utf8_loop-write t rest (utf8_length s) (omega arith)

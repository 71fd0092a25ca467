-- ===== src/Common/Bits.antt =====
-- `<<`, `|` and `&` with a mask as arithmetic, at every width.
use Prim.Native.Nat.{
  ℕ, zero, suc, ◌+◌, ◌*◌, ◌/◌, ◌%◌, ◌^◌, ◌≤◌, ◌<◌, min, max, bit_and, bit_or, digits,
  bit_and-bitwise, bit_or-bitwise,
}
use mathlib.Core.Path.{◌≡◌, refl, sym, ap, ◌∙◌}
use native.Mathlib.Nat.{pow-suc}
use native.Mathlib.Decide.{dec_le}
use native.Mathlib.Omega.{arith}

-- The native operations are recursions on binary digits, on as much fuel as the first operand.
module _ (rest : ℕ → ℕ) (op : ℕ → ℕ → ℕ) where
  one_more : (n a b : ℕ) → a ≤ n → digits rest op (suc n) a b ≡ digits rest op n a b
  one_more zero zero b h = refl
  one_more zero (suc a) b h = absurd (omega arith)
  one_more (suc n) zero b h = refl
  one_more (suc n) (suc a) b h = omega (arith, one_more n (suc a / 2) (b / 2) (omega arith))

  spare : (n a b : ℕ) → a ≤ n → digits rest op n a b ≡ digits rest op a a b
  spare zero zero b h = refl
  spare zero (suc a) b h = absurd (omega arith)
  spare (suc n) a b h = elim (dec_le a n) [
    | yes p ↦ one_more n a b p ∙ spare n a b p
    | no p ↦ let e : a ≡ suc n = omega arith in rw e
  ]

  lowest :
      (a b : ℕ)
      → digits rest op (suc a) (suc a) b
        ≡ digits rest op (suc a / 2) (suc a / 2) (b / 2) * 2 + op (suc a % 2) (b % 2)
  lowest a b = omega (arith, spare a (suc a / 2) (b / 2) (omega arith))

-- The laws for the lowest digit.
or_zero_left : (b : ℕ) → bit_or 0 b ≡ b
or_zero_left b = bit_or-bitwise 0 b

or_lowest : (a b : ℕ) → bit_or a b ≡ bit_or (a / 2) (b / 2) * 2 + max (a % 2) (b % 2)
or_lowest zero b = omega (arith, or_zero_left b, or_zero_left (b / 2))
or_lowest (suc a) b =
    bit_or-bitwise (suc a) b
    ∙ lowest (λ r. r) max a b
    ∙ ap (λ (t : ℕ). t * 2 + max (suc a % 2) (b % 2)) (sym (bit_or-bitwise (suc a / 2) (b / 2)))

and_zero_left : (b : ℕ) → bit_and 0 b ≡ 0
and_zero_left b = bit_and-bitwise 0 b

and_lowest : (a b : ℕ) → bit_and a b ≡ bit_and (a / 2) (b / 2) * 2 + min (a % 2) (b % 2)
and_lowest zero b = omega (arith, and_zero_left b, and_zero_left (b / 2))
and_lowest (suc a) b =
    bit_and-bitwise (suc a) b
    ∙ lowest (λ r. zero) min a b
    ∙ ap (λ (t : ℕ). t * 2 + min (suc a % 2) (b % 2)) (sym (bit_and-bitwise (suc a / 2) (b / 2)))

-- Induction on a bound of the number.
or_zero_right : (n a : ℕ) → a ≤ n → bit_or a 0 ≡ a
or_zero_right zero a h = let e : a ≡ 0 = omega arith in rw e
or_zero_right (suc n) a h = elim (dec_le a n) [
  | yes p ↦ or_zero_right n a p
  | no p ↦ omega (arith, or_lowest a 0, or_zero_right n (a / 2) (omega arith))
]

and_zero_right : (n a : ℕ) → a ≤ n → bit_and a 0 ≡ 0
and_zero_right zero a h = let e : a ≡ 0 = omega arith in rw e
and_zero_right (suc n) a h = elim (dec_le a n) [
  | yes p ↦ and_zero_right n a p
  | no p ↦ omega (arith, and_lowest a 0, and_zero_right n (a / 2) (omega arith))
]

-- `(x << k) | y` for a `y` of `k` bits.
pub bit_or-shift : (k x y : ℕ) → y < 2 ^ k → bit_or (x * 2 ^ k) y ≡ x * 2 ^ k + y
bit_or-shift zero x y h =
    let e : y ≡ 0 = omega arith in
    rw e (or_zero_right (x * 2 ^ 0) (x * 2 ^ 0) (omega arith) ∙ omega arith)
bit_or-shift (suc k) x y h =
    let t = x * 2 ^ k in
    let p : 2 ^ suc k ≡ 2 ^ k * 2 = pow-suc 2 k in
    let e : x * 2 ^ suc k ≡ t * 2 = rw p (omega arith) in
    let half : t * 2 / 2 ≡ t = omega arith in
    rw e (
      omega (
        arith,
        p,
        or_lowest (t * 2) y,
        ap (λ (u : ℕ). bit_or u (y / 2)) half,
        bit_or-shift k x (y / 2) (omega (arith, p)),
      ))

-- `a & mask` for masks of ones.
bit_and-one : (a : ℕ) → bit_and a 1 ≡ a % 2
bit_and-one a = omega (arith, and_lowest a 1, and_zero_right (a / 2) (a / 2) (omega arith))

pub bit_and_3 : (a : ℕ) → bit_and a 3 ≡ a % 4
bit_and_3 a = omega (arith, and_lowest a 3, bit_and-one (a / 2))

pub bit_and_7 : (a : ℕ) → bit_and a 7 ≡ a % 8
bit_and_7 a = omega (arith, and_lowest a 7, bit_and_3 (a / 2))

pub bit_and_15 : (a : ℕ) → bit_and a 15 ≡ a % 16
bit_and_15 a = omega (arith, and_lowest a 15, bit_and_7 (a / 2))

pub bit_and_31 : (a : ℕ) → bit_and a 31 ≡ a % 32
bit_and_31 a = omega (arith, and_lowest a 31, bit_and_15 (a / 2))

pub bit_and_63 : (a : ℕ) → bit_and a 63 ≡ a % 64
bit_and_63 a = omega (arith, and_lowest a 63, bit_and_31 (a / 2))

bit_and_127 : (a : ℕ) → bit_and a 127 ≡ a % 128
bit_and_127 a = omega (arith, and_lowest a 127, bit_and_63 (a / 2))

bit_and_255 : (a : ℕ) → bit_and a 255 ≡ a % 256
bit_and_255 a = omega (arith, and_lowest a 255, bit_and_127 (a / 2))

bit_and_511 : (a : ℕ) → bit_and a 511 ≡ a % 512
bit_and_511 a = omega (arith, and_lowest a 511, bit_and_255 (a / 2))

pub bit_and_1023 : (a : ℕ) → bit_and a 1023 ≡ a % 1024
bit_and_1023 a = omega (arith, and_lowest a 1023, bit_and_511 (a / 2))

-- ===== src/Common/Decimal.antt =====
-- Whole numbers in decimal digits, as JavaScript prints them and as `parseInt` reads them. Numbers
-- are exact here, also from 2^53 on.
use socket_io_deno.Common.{
  ℕ, zero, suc, ◌+◌, ◌-◌, ◌*◌, ◌/◌, ◌%◌, ◌<◌, Bool, true, false, ◌&&◌, List, [], ◌∷◌, ◌++◌, ltb,
  leb, if◌then◌else◌, ◌≡◌, ◌≢◌, refl, ◌∙◌, inl, inr, arith, Bool-cases, All, All-append,
}

-- `isValidCharCodeForInteger` is this test too.
abbrev pub is_digit : ℕ → Bool
is_digit c = leb 48 c && leb c 57

-- `"" + n`; one digit for each unit of fuel.
unfoldable decimal_on : ℕ → ℕ → List ℕ
decimal_on zero n = []
decimal_on (suc fuel) n =
    let front = decimal_on fuel (n / 10) in
    if ltb n 10 then (48 + n) ∷ [] else front ++ (48 + n % 10) ∷ []

unfoldable pub decimal : ℕ → List ℕ
unfolding decimal_on
decimal n = decimal_on (suc n) n

-- The digits at the start of a text, and what stands behind them.
unfoldable pub span_digits : List ℕ → List ℕ × List ℕ
span_digits [] = ([], [])
span_digits (c ∷ s) = let r = span_digits s in if is_digit c then (c ∷ r.0, r.1) else ([], c ∷ s)

unfoldable pub value_of_digits : ℕ → List ℕ → ℕ
value_of_digits n [] = n
value_of_digits n (c ∷ s) = value_of_digits (n * 10 + (c - 48)) s

abbrev pub AreDigits : List ℕ → Type 0
AreDigits = All (λ c. is_digit c ≡ true)

-- No digit follows.
abbrev pub EndsDigits : List ℕ → Type 0
EndsDigits [] = Unit
EndsDigits (c ∷ s) = is_digit c ≡ false

decimal_on-AreDigits : (fuel n : ℕ) → AreDigits (decimal_on fuel n)
unfolding decimal_on
decimal_on-AreDigits zero n = tt
decimal_on-AreDigits (suc fuel) n = elim (Bool-cases (ltb n 10)) [
  | inl e ↦ rw e (ground arith, tt)
  | inr e ↦ rw e (
      All-append (λ c. is_digit c ≡ true) (decimal_on fuel (n / 10)) ((48 + n % 10) ∷ [])
        (decimal_on-AreDigits fuel (n / 10), (ground arith, tt)))
]

pub decimal-AreDigits : (n : ℕ) → AreDigits (decimal n)
unfolding decimal
decimal-AreDigits n = decimal_on-AreDigits (suc n) n

pub span_digits-append :
    (s rest : List ℕ) → AreDigits s → EndsDigits rest → span_digits (s ++ rest) ≡ (s, rest)
unfolding span_digits
span_digits-append [] [] h k = refl
span_digits-append [] (c ∷ rest) h k = rw k refl
span_digits-append (c ∷ s) rest h k = rw (h.0, span_digits-append s rest h.1 k) refl

value_of_digits-append :
    (n : ℕ) (s t : List ℕ) → value_of_digits n (s ++ t) ≡ value_of_digits (value_of_digits n s) t
unfolding value_of_digits
value_of_digits-append n [] t = refl
value_of_digits-append n (c ∷ s) t = value_of_digits-append (n * 10 + (c - 48)) s t

value_of_digits-decimal_on : (fuel n : ℕ) → n < fuel → value_of_digits 0 (decimal_on fuel n) ≡ n
unfolding decimal_on value_of_digits
value_of_digits-decimal_on zero n h = absurd (omega arith)
value_of_digits-decimal_on (suc fuel) n h = elim (Bool-cases (ltb n 10)) [
  | inl e ↦ rw e (omega arith)
  | inr e ↦ rw e (
      value_of_digits-append 0 (decimal_on fuel (n / 10)) ((48 + n % 10) ∷ [])
      ∙ ground (arith, value_of_digits-decimal_on fuel (n / 10)))
]

pub value_of_digits-decimal : (n : ℕ) → value_of_digits 0 (decimal n) ≡ n
unfolding decimal
value_of_digits-decimal n = value_of_digits-decimal_on (suc n) n (omega arith)

snoc-cons : (l : List ℕ) (c : ℕ) → l ++ c ∷ [] ≢ []
snoc-cons [] c e = cc
snoc-cons (d ∷ l) c e = cc

decimal-cons : (n : ℕ) → decimal n ≢ []
unfolding decimal decimal_on
decimal-cons n e = ground (arith, snoc-cons (decimal_on n (n / 10)) (48 + n % 10))

-- There is a first digit.
pub first_digit : (n : ℕ) → (c : ℕ) × (s : List ℕ) × (decimal n ≡ c ∷ s) × (is_digit c ≡ true)
first_digit n = go (decimal n) refl (decimal-AreDigits n)
  where
    go :
        (l : List ℕ)
        → decimal n ≡ l
        → AreDigits l
        → (c : ℕ) × (s : List ℕ) × (decimal n ≡ c ∷ s) × (is_digit c ≡ true)
    go [] e h = absurd (decimal-cons n e)
    go (c ∷ s) e h = (c, s, e, h.0)

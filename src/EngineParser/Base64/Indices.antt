-- ===== src/EngineParser/Base64/Indices.antt =====
-- The six-bit indices of a group of three bytes, and the characters for them.
use Prim.Native.Nat.{bit_and, bit_or}
use socket_io_deno.Common.{
  holds_under, holds_under_lem, ℕ, ◌+◌, ◌*◌, ◌/◌, ◌%◌, ◌<◌, true, false, ◌&&◌, [], ◌∷◌, ◌==◌, ◌≡◌,
  refl, ◌∙◌, arith, not, ==_iff,
}
use socket_io_deno.Common.Bits.{bit_or-shift, bit_and_3, bit_and_15, bit_and_63}
use socket_io_deno.EngineParser.Base64.{char_at, lookup, triple}

abbrev pub IsByte : ℕ → Type 0
IsByte b = b < 256

pub table : holds_under (λ i. lookup (char_at i) == i && not (char_at i == b'=')) 64 ≡ true
unfolding holds_under lookup char_at
table = refl

pub lookup-char_at : (i : ℕ) → i < 64 → lookup (char_at i) ≡ i
lookup-char_at i h = (==_iff _ i).0 (
    ground (
      arith,
      holds_under_lem (λ i. lookup (char_at i) == i && not (char_at i == b'=')) 64 i h table,
    ))

pub char_at-ne-pad : (i : ℕ) → i < 64 → (char_at i == b'=') ≡ false
char_at-ne-pad i h =
    ground (
      arith,
      holds_under_lem (λ i. lookup (char_at i) == i && not (char_at i == b'=')) 64 i h table,
    )

pub lookup-pad : lookup b'=' ≡ 0
unfolding lookup
lookup-pad = refl

-- The four indices of a group of bytes.
unfoldable pub index2 : ℕ → ℕ → ℕ
index2 a b = bit_or (bit_and a 3 * 16) (b / 16)

unfoldable pub index3 : ℕ → ℕ → ℕ
index3 b c = bit_or (bit_and b 15 * 4) (c / 64)

pub index2_lem : (a b : ℕ) → IsByte b → index2 a b ≡ a % 4 * 16 + b / 16
unfolding index2
index2_lem a b h = rw bit_and_3 (bit_or-shift 4 (a % 4) (b / 16) (omega arith))

pub index3_lem : (b c : ℕ) → IsByte c → index3 b c ≡ b % 16 * 4 + c / 64
unfolding index3
index3_lem b c h = rw bit_and_15 (bit_or-shift 2 (b % 16) (c / 64) (omega arith))

-- A round of the decoder on characters that stand for the indices of three bytes.
pub triple-indices :
    (a b c c1 c2 c3 c4 : ℕ)
    → IsByte a
    → IsByte b
    → IsByte c
    → lookup c1 ≡ a / 4
    → lookup c2 ≡ a % 4 * 16 + b / 16
    → lookup c3 ≡ b % 16 * 4 + c / 64
    → lookup c4 ≡ c % 64
    → triple c1 c2 c3 c4 ≡ a ∷ b ∷ c ∷ []
unfolding triple
triple-indices a b c c1 c2 c3 c4 ha hb hc h1 h2 h3 h4 =
    rw (h1, h2, h3, h4, bit_and_15, bit_and_3, bit_and_63)
      (rw (first, second, third) (ground arith))
  where
    first : bit_or (a / 4 * 4) ((a % 4 * 16 + b / 16) / 16) ≡ a
    first = bit_or-shift 2 (a / 4) ((a % 4 * 16 + b / 16) / 16) (omega arith) ∙ omega arith

    second : bit_or ((a % 4 * 16 + b / 16) % 16 * 16) ((b % 16 * 4 + c / 64) / 4) ≡ b
    second =
        bit_or-shift 4 ((a % 4 * 16 + b / 16) % 16) ((b % 16 * 4 + c / 64) / 4) (omega arith)
        ∙ omega arith

    third : bit_or ((b % 16 * 4 + c / 64) % 4 * 64) (c % 64 % 64) ≡ c
    third = bit_or-shift 6 ((b % 16 * 4 + c / 64) % 4) (c % 64 % 64) (omega arith) ∙ omega arith

pub index-bounds :
    (a b c : ℕ)
    → IsByte a
    → IsByte b
    → IsByte c
    → (a / 4 < 64) × (index2 a b < 64) × (index3 b c < 64) × (bit_and c 63 < 64)
index-bounds a b c ha hb hc = rw (index2_lem a b hb, index3_lem b c hc, bit_and_63) (omega arith)

-- ===== src/EngineParser/Base64.antt =====
-- packages/engine.io-parser/base64-arraybuffer.ts, and `generateId` of
-- packages/engine.io/lib/util.ts. A buffer is the list of its bytes, a string the list of its code
-- units. `>> k` is a division by `2 ^ k` and `<< k` a product.
pub mod Indices
pub mod RoundTrip
use Prim.Native.Nat.{bit_and, bit_or}
use Prim.Native.Char.{code}
use Prim.Native.String.{String}
use socket_io_deno.Common.{
  ℕ, zero, suc, ◌+◌, ◌-◌, ◌*◌, ◌/◌, ◌%◌, Bool, true, false, ◌&&◌, List, [], ◌∷◌, ◌++◌, map, ◌==◌,
  length, if◌then◌else◌, get_or, leb, take,
}

abbrev pub codes : String → List ℕ
codes String.[] = []
codes (String.◌∷◌ c s) = code c ∷ codes s

abbrev pub chars : List ℕ
chars = codes "ABCDEFGHIJKLMNOPQRSTUVWXYZabcdefghijklmnopqrstuvwxyz0123456789+/"

-- `chars[i]`
unfoldable pub char_at : ℕ → ℕ
char_at i = get_or chars i 0

-- `lookup`: the index that the loop over `chars` stored for a code, and 0 for any other. A code of
-- 256 or more reads `undefined`, which the bit operations take for 0.
unfoldable pub index_from : ℕ → List ℕ → ℕ → ℕ
index_from i [] c = 0
index_from i (d ∷ ds) c = if d == c then i else index_from (suc i) ds c

unfoldable pub lookup : ℕ → ℕ
unfolding index_from
lookup c = index_from 0 chars c

-- The four characters of a round of `encodeToBase64`.
unfoldable pub quad : ℕ → ℕ → ℕ → List ℕ
unfolding char_at
quad a b c =
    char_at (a / 4)
    ∷ char_at (bit_or (bit_and a 3 * 16) (b / 16))
    ∷ char_at (bit_or (bit_and b 15 * 4) (c / 64))
    ∷ char_at (bit_and c 63)
    ∷ []

-- The loop. A byte behind the end is `undefined`, which the bit operations take for 0.
unfoldable pub encode_loop : List ℕ → List ℕ
unfolding quad
encode_loop [] = []
encode_loop (a ∷ []) = quad a 0 0
encode_loop (a ∷ b ∷ []) = quad a b 0
encode_loop (a ∷ b ∷ c ∷ rest) = quad a b c ++ encode_loop rest

-- `base64.substring(0, base64.length - n)`
abbrev drop_last : ℕ → List ℕ → List ℕ
drop_last n s = take (length s - n) s

-- The padding, by the remainder of the number of bytes.
unfoldable pub finish : ℕ → List ℕ → List ℕ
finish remainder base64 =
    if remainder == 2
    then drop_last 1 base64 ++ b'=' ∷ []
    else if remainder == 1
    then drop_last 2 base64 ++ b'=' ∷ b'=' ∷ []
    else base64

unfoldable pub encode_to_base64 : List ℕ → List ℕ
unfolding encode_loop finish
encode_to_base64 bytes = finish (length bytes % 3) (encode_loop bytes)

-- The three bytes of a round of `decodeFromBase64`; a byte array keeps the low eight bits.
unfoldable pub triple : ℕ → ℕ → ℕ → ℕ → List ℕ
unfolding lookup
triple c1 c2 c3 c4 =
    let e1 = lookup c1 in
    let e2 = lookup c2 in
    let e3 = lookup c3 in
    let e4 = lookup c4 in
    (bit_or (e1 * 4) (e2 / 16) % 256)
    ∷ (bit_or (bit_and e2 15 * 16) (e3 / 4) % 256)
    ∷ (bit_or (bit_and e3 3 * 64) (bit_and e4 63) % 256)
    ∷ []

-- The loop. The code of a character behind the end is `NaN`, whose index is `undefined`.
unfoldable pub decode_loop : List ℕ → List ℕ
unfolding triple
decode_loop [] = []
decode_loop (c1 ∷ []) = triple c1 0 0 0
decode_loop (c1 ∷ c2 ∷ []) = triple c1 c2 0 0
decode_loop (c1 ∷ c2 ∷ c3 ∷ []) = triple c1 c2 c3 0
decode_loop (c1 ∷ c2 ∷ c3 ∷ c4 ∷ rest) = triple c1 c2 c3 c4 ++ decode_loop rest

-- How many of the last two characters are padding, by the two nested tests.
unfoldable pub padding : List ℕ → ℕ
padding s =
    if get_or s (length s - 1) 0 == b'=' && leb 1 (length s)
    then (if get_or s (length s - 2) 0 == b'=' && leb 2 (length s) then 2 else 1)
    else 0

-- The buffer has `length * 0.75 - padding` bytes, rounded down; a write behind its end is ignored.
unfoldable pub decode_from_base64 : List ℕ → List ℕ
unfolding decode_loop padding
decode_from_base64 base64 = take ((length base64 * 3 - padding base64 * 4) / 4) (decode_loop base64)

-- `replace(/\//g, "-").replace(/\+/g, "_")` on the text of 15 random bytes.
unfoldable pub replace_code : ℕ → ℕ
replace_code c = if c == b'/' then b'-' else if c == b'+' then b'_' else c

unfoldable pub generate_id : List ℕ → List ℕ
unfolding encode_to_base64 replace_code
generate_id bytes = map replace_code (encode_to_base64 bytes)

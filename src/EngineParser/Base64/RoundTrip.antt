-- ===== src/EngineParser/Base64/RoundTrip.antt =====
-- `decodeFromBase64` inverts `encodeToBase64`.
use Prim.Native.Nat.{bit_and}
use socket_io_deno.Common.{
  holds_under, holds_under_lem, ℕ, zero, suc, ◌+◌, ◌-◌, ◌*◌, ◌/◌, ◌%◌, ◌≤◌, ◌<◌, Bool, true, false,
  ◌&&◌, ◌||◌, leb, List, [], ◌∷◌, ◌++◌, map, ◌==◌, length, take, ◌≡◌, ◌≢◌, Lacks, refl, ◌∙◌, ap,
  arith, All, not,
}
use socket_io_deno.Common.Bits.{bit_and_63}
use socket_io_deno.EngineParser.Base64.{
  char_at, encode_loop, finish, encode_to_base64, triple, decode_loop, padding, decode_from_base64,
  replace_code, generate_id,
}
use socket_io_deno.EngineParser.Base64.Indices.{
  IsByte, lookup-char_at, char_at-ne-pad, lookup-pad, index2, index3, index2_lem, index3_lem,
  triple-indices, index-bounds,
}

-- The text of the encoder, group by group.
groups : List ℕ → List ℕ
groups [] = []
groups (a ∷ []) = char_at (a / 4) ∷ char_at (index2 a 0) ∷ b'=' ∷ b'=' ∷ []
groups (a ∷ b ∷ []) = char_at (a / 4) ∷ char_at (index2 a b) ∷ char_at (index3 b 0) ∷ b'=' ∷ []
groups (a ∷ b ∷ c ∷ rest) =
    char_at (a / 4)
    ∷ char_at (index2 a b)
    ∷ char_at (index3 b c)
    ∷ char_at (bit_and c 63)
    ∷ groups rest

-- The zero bytes that the decoder reads behind the last byte.
zeros : List ℕ → List ℕ
zeros [] = []
zeros (a ∷ []) = 0 ∷ 0 ∷ []
zeros (a ∷ b ∷ []) = 0 ∷ []
zeros (a ∷ b ∷ c ∷ rest) = zeros rest

length-encode_loop : (bs : List ℕ) → length bs % 3 ≢ 0 → 4 ≤ length (encode_loop bs)
unfolding encode_loop
length-encode_loop [] h = absurd (h refl)
length-encode_loop (a ∷ []) h = omega arith
length-encode_loop (a ∷ b ∷ []) h = omega arith
length-encode_loop (a ∷ b ∷ c ∷ rest) h = omega arith

-- Taking characters off the end does not reach the first group, if more follow.
take-group :
    (n : ℕ) (x y z w : ℕ) (s : List ℕ)
    → n ≤ length s
    → take (length (x ∷ y ∷ z ∷ w ∷ s) - n) (x ∷ y ∷ z ∷ w ∷ s)
      ≡ x ∷ y ∷ z ∷ w ∷ take (length s - n) s
take-group n x y z w s h =
    let e : suc (suc (suc (suc (length s)))) - n ≡ suc (suc (suc (suc (length s - n)))) =
      omega arith in
    rw e

finish-group :
    (m x y z w : ℕ) (s : List ℕ)
    → (m ≢ 0 → 2 ≤ length s)
    → m < 3
    → finish m (x ∷ y ∷ z ∷ w ∷ s) ≡ x ∷ y ∷ z ∷ w ∷ finish m s
unfolding finish
finish-group zero x y z w s h lt = refl
finish-group (suc zero) x y z w s h lt =
    ap (λ (t : List ℕ). t ++ b'=' ∷ b'=' ∷ []) (take-group 2 x y z w s (h (λ e. cc)))
finish-group (suc (suc zero)) x y z w s h lt =
    let two : 2 ≤ length s = h (λ e. cc) in
    ap (λ (t : List ℕ). t ++ b'=' ∷ []) (take-group 1 x y z w s (omega arith))
finish-group (suc (suc (suc m))) x y z w s h lt = absurd (omega arith)

encode-groups : (bs : List ℕ) → encode_to_base64 bs ≡ groups bs
unfolding encode_to_base64 groups index2 index3
encode-groups [] = refl
encode-groups (a ∷ []) = refl
encode-groups (a ∷ b ∷ []) = refl
encode-groups (a ∷ b ∷ c ∷ rest) =
    let e : suc (suc (suc (length rest))) % 3 ≡ length rest % 3 = omega arith in
    rw (e, ← encode-groups rest)
      (finish-group (length rest % 3) _ _ _ _ (encode_loop rest)
        (λ h. omega (arith, length-encode_loop rest h)) (omega arith))

decode_loop-group :
    (x y z w : ℕ) (s : List ℕ) → decode_loop (x ∷ y ∷ z ∷ w ∷ s) ≡ triple x y z w ++ decode_loop s
unfolding decode_loop
decode_loop-group x y z w s = refl

decode_loop-groups : (bs : List ℕ) → All IsByte bs → decode_loop (groups bs) ≡ bs ++ zeros bs
unfolding decode_loop groups zeros
decode_loop-groups [] h = refl
decode_loop-groups (a ∷ []) (ha, _) =
    let (h1, h2, h3, h4) = index-bounds a 0 0 ha (omega arith) (omega arith) in
    rw (
      triple-indices a 0 0 _ _ _ _ ha (omega arith) (omega arith) (lookup-char_at (a / 4) h1)
        (lookup-char_at (index2 a 0) h2 ∙ index2_lem a 0 (omega arith)) (lookup-pad ∙ omega arith)
        (lookup-pad ∙ omega arith))
decode_loop-groups (a ∷ b ∷ []) (ha, (hb, _)) =
    let (h1, h2, h3, h4) = index-bounds a b 0 ha hb (omega arith) in
    rw (
      triple-indices a b 0 _ _ _ _ ha hb (omega arith) (lookup-char_at (a / 4) h1)
        (lookup-char_at (index2 a b) h2 ∙ index2_lem a b hb)
        (lookup-char_at (index3 b 0) h3 ∙ index3_lem b 0 (omega arith)) (lookup-pad ∙ omega arith))
decode_loop-groups (a ∷ b ∷ c ∷ rest) (ha, (hb, (hc, hr))) =
    let (h1, h2, h3, h4) = index-bounds a b c ha hb hc in
    let group =
      triple-indices a b c (char_at (a / 4)) (char_at (index2 a b)) (char_at (index3 b c))
        (char_at (bit_and c 63)) ha hb hc (lookup-char_at (a / 4) h1)
        (lookup-char_at (index2 a b) h2 ∙ index2_lem a b hb)
        (lookup-char_at (index3 b c) h3 ∙ index3_lem b c hc)
        (lookup-char_at (bit_and c 63) h4 ∙ bit_and_63 c) in
    decode_loop-group (char_at (a / 4)) (char_at (index2 a b)) (char_at (index3 b c))
      (char_at (bit_and c 63)) (groups rest)
    ∙ ap (λ (t : List ℕ). t ++ decode_loop (groups rest)) group
    ∙ ap (λ (t : List ℕ). a ∷ b ∷ c ∷ t) (decode_loop-groups rest hr)

length-groups : (bs : List ℕ) → length (groups bs) * 3 ≡ (length bs + length (zeros bs)) * 4
unfolding groups zeros
length-groups [] = refl
length-groups (a ∷ []) = refl
length-groups (a ∷ b ∷ []) = refl
length-groups (a ∷ b ∷ c ∷ rest) = omega (arith, length-groups rest)

-- The padding of a text that ends in another group is that of the rest.
padding-group :
    (x y z w x' y' z' w' : ℕ) (s : List ℕ)
    → padding (x ∷ y ∷ z ∷ w ∷ x' ∷ y' ∷ z' ∷ w' ∷ s) ≡ padding (x' ∷ y' ∷ z' ∷ w' ∷ s)
unfolding padding
padding-group x y z w x' y' z' w' s =
    let n : ℕ = length s in
    let e1 : suc (suc (suc (suc (suc (suc (suc (suc n))))))) - 1
        ≡ suc (suc (suc (suc (suc (suc (suc n)))))) =
      omega arith in
    let e2 : suc (suc (suc (suc (suc (suc (suc (suc n))))))) - 2
        ≡ suc (suc (suc (suc (suc (suc n))))) =
      omega arith in
    let e3 : suc (suc (suc (suc n))) - 1 ≡ suc (suc (suc n)) = omega arith in
    let e4 : suc (suc (suc (suc n))) - 2 ≡ suc (suc n) = omega arith in
    rw (e1, e2, e3, e4) (ground arith)

padding-full : (x y z w : ℕ) → (w == b'=') ≡ false → padding (x ∷ y ∷ z ∷ w ∷ []) ≡ 0
unfolding padding
padding-full x y z w h = rw h

padding-one : (x y z : ℕ) → (z == b'=') ≡ false → padding (x ∷ y ∷ z ∷ b'=' ∷ []) ≡ 1
unfolding padding
padding-one x y z h = rw h

padding-groups : (bs : List ℕ) → All IsByte bs → padding (groups bs) ≡ length (zeros bs)
unfolding groups zeros
padding-groups [] h = unfold padding in refl
padding-groups (a ∷ []) h = unfold padding in refl
padding-groups (a ∷ b ∷ []) (ha, (hb, _)) =
    let (h1, h2, h3, h4) = index-bounds a b 0 ha hb (omega arith) in
    padding-one _ _ _ (char_at-ne-pad (index3 b 0) h3)
padding-groups (a ∷ b ∷ c ∷ []) (ha, (hb, (hc, _))) =
    let (h1, h2, h3, h4) = index-bounds a b c ha hb hc in
    padding-full _ _ _ _ (char_at-ne-pad (bit_and c 63) h4)
padding-groups (a ∷ b ∷ c ∷ d ∷ []) (ha, (hb, (hc, hr))) =
    padding-group _ _ _ _ _ _ _ _ [] ∙ padding-groups (d ∷ []) hr
padding-groups (a ∷ b ∷ c ∷ d ∷ e ∷ []) (ha, (hb, (hc, hr))) =
    padding-group _ _ _ _ _ _ _ _ [] ∙ padding-groups (d ∷ e ∷ []) hr
padding-groups (a ∷ b ∷ c ∷ d ∷ e ∷ f ∷ rest) (ha, (hb, (hc, hr))) =
    padding-group _ _ _ _ _ _ _ _ (groups rest) ∙ padding-groups (d ∷ e ∷ f ∷ rest) hr

take-append : (bs zs : List ℕ) → take (length bs) (bs ++ zs) ≡ bs
take-append [] zs = refl
take-append (b ∷ bs) zs = ap (◌∷◌ b) (take-append bs zs)

-- Decoding the text of a buffer gives its bytes back, whatever their number.
pub decode-encode : (bs : List ℕ) → All IsByte bs → decode_from_base64 (encode_to_base64 bs) ≡ bs
unfolding decode_from_base64
decode-encode bs h =
    let e : (length (groups bs) * 3 - length (zeros bs) * 4) / 4 ≡ length bs =
      omega (arith, length-groups bs) in
    rw (encode-groups bs, padding-groups bs h, e, decode_loop-groups bs h)
      (take-append bs (zeros bs))

length-groups_thirds : (bs : List ℕ) → length (groups bs) ≡ (length bs + 2) / 3 * 4
unfolding groups
length-groups_thirds [] = refl
length-groups_thirds (a ∷ []) = refl
length-groups_thirds (a ∷ b ∷ []) = refl
length-groups_thirds (a ∷ b ∷ c ∷ rest) = omega (arith, length-groups_thirds rest)

-- The text has four characters for each three bytes or part of three.
pub length-encode : (bs : List ℕ) → length (encode_to_base64 bs) ≡ (length bs + 2) / 3 * 4
length-encode bs = rw (encode-groups bs) (length-groups_thirds bs)

-- The characters of an id: letters, digits, `-` and `_`.
abbrev pub is_id_char : ℕ → Bool
is_id_char c =
    (leb b'a' c && leb c b'z')
    || (leb b'A' c && leb c b'Z')
    || (leb b'0' c && leb c b'9')
    || (c == b'-')
    || (c == b'_')

id_table : holds_under (λ i. is_id_char (replace_code (char_at i))) 64 ≡ true
unfolding holds_under char_at replace_code
id_table = refl

replaced-is_id_char : (i : ℕ) → i < 64 → is_id_char (replace_code (char_at i)) ≡ true
replaced-is_id_char i h =
    holds_under_lem (λ i. is_id_char (replace_code (char_at i))) 64 i h id_table

groups-is_id_char :
    (bs : List ℕ)
    → All IsByte bs
    → length bs % 3 ≡ 0
    → All (λ c. is_id_char c ≡ true) (map replace_code (groups bs))
unfolding groups
groups-is_id_char [] h e = tt
groups-is_id_char (a ∷ []) h e = absurd (omega arith)
groups-is_id_char (a ∷ b ∷ []) h e = absurd (omega arith)
groups-is_id_char (a ∷ b ∷ c ∷ rest) (ha, (hb, (hc, hr))) e =
    let (h1, h2, h3, h4) = index-bounds a b c ha hb hc in
    (
      replaced-is_id_char _ h1,
      (
        replaced-is_id_char _ h2,
        (
          replaced-is_id_char _ h3,
          (replaced-is_id_char _ h4, groups-is_id_char rest hr (omega arith)),
        ),
      ),
    )

length-map : (f : ℕ → ℕ) (s : List ℕ) → length (map f s) ≡ length s
length-map f [] = refl
length-map f (c ∷ s) = ap suc (length-map f s)

-- An id of 15 random bytes has 20 characters, all of them letters, digits, `-` or `_`: no padding
-- and nothing that a URL would have to escape.
pub generate_id-is_id_char :
    (bs : List ℕ)
    → All IsByte bs
    → length bs ≡ 15
    → (length (generate_id bs) ≡ 20) × All (λ c. is_id_char c ≡ true) (generate_id bs)
unfolding generate_id
generate_id-is_id_char bs h e = (
  omega (arith, length-map replace_code (encode_to_base64 bs), length-encode bs),
  rw (encode-groups bs) (groups-is_id_char bs h (omega arith)),
)

control_table : holds_under (λ i. not (char_at i == 30)) 64 ≡ true
unfolding holds_under char_at
control_table = refl

char_at-ne-separator : (i : ℕ) → i < 64 → (char_at i == 30) ≡ false
char_at-ne-separator i h =
    ground (arith, holds_under_lem (λ i. not (char_at i == 30)) 64 i h control_table)

groups-Lacks : (bs : List ℕ) → All IsByte bs → Lacks 30 (groups bs)
unfolding groups
groups-Lacks [] h = tt
groups-Lacks (a ∷ []) (ha, _) =
    let (h1, h2, h3, h4) = index-bounds a 0 0 ha (omega arith) (omega arith) in
    (char_at-ne-separator _ h1, (char_at-ne-separator _ h2, (refl, (refl, tt))))
groups-Lacks (a ∷ b ∷ []) (ha, (hb, _)) =
    let (h1, h2, h3, h4) = index-bounds a b 0 ha hb (omega arith) in
    (
      char_at-ne-separator _ h1,
      (char_at-ne-separator _ h2, (char_at-ne-separator _ h3, (refl, tt))),
    )
groups-Lacks (a ∷ b ∷ c ∷ rest) (ha, (hb, (hc, hr))) =
    let (h1, h2, h3, h4) = index-bounds a b c ha hb hc in
    (
      char_at-ne-separator _ h1,
      (
        char_at-ne-separator _ h2,
        (char_at-ne-separator _ h3, (char_at-ne-separator _ h4, groups-Lacks rest hr)),
      ),
    )

-- The text of a buffer does not hold the separator of a payload.
pub encode-Lacks : (bs : List ℕ) → All IsByte bs → Lacks 30 (encode_to_base64 bs)
encode-Lacks bs h = rw (encode-groups bs) (groups-Lacks bs h)

-- ===== src/Msgpack/Encode/Passes.antt =====
-- The two passes of packages/msgpack/lib/encode.ts together.
use mathlib.Core.List.{append_assoc, append-nil}
use socket_io_deno.Common.{
  ℕ, zero, suc, ◌+◌, Bool, true, false, Option, none, some, List, [], ◌∷◌, ◌++◌, length,
  length-append, if◌then◌else◌, ◌≡◌, ◌≢◌, refl, sym, ap, subst, ◌∙◌, arith,
}
use socket_io_deno.Msgpack.Utf8.{utf8_length, utf8_write}
use socket_io_deno.Msgpack.Utf8.RoundTrip.{length-utf8_write}
use socket_io_deno.Msgpack.{
  Value, null, missing, callable, flag, whole, negative, real, text, buffer, view, date,
  date_before, array, object, Values, no_values, next_value, Fields, no_fields, next_field,
}
use socket_io_deno.Msgpack.Headers.{
  long_header, text_header, array_header, object_header, buffer_header, whole_bytes, negative_bytes,
  date_bytes, date_before_bytes,
}
use socket_io_deno.Msgpack.Encode.{
  Piece, str, float, bin, Output, Encoding, push, push_header, defer, and_size, and_then, is_kept,
  count_values, count_kept, encode_text, encode_buffer, encode_value, encode_values, encode_fields,
  first_bytes, piece_bytes, encode,
}
use socket_io_deno.Msgpack.Encode.Chunks.{Chunk, bytes_of, defers_of}
use socket_io_deno.Msgpack.Encode.Layout.{joined, layout, layout_values, layout_fields}
use socket_io_deno.Msgpack.Encode.Chunks.{out, plain, attach, push-out, defer-out}
use socket_io_deno.Msgpack.Encode.Fill.{flat, flat-append, IsExact, fill-flat}

module _ {F : Type 0} (fb : F → List ℕ) where
  -- What the first pass makes of an output that holds `cs`, next to the layout: both fail, or the
  -- layout is added.
  data Adds (cs : List (Chunk F)) (r : Option (Output F × ℕ)) (l : Option (List ℕ)) : Type 0 where
    both_fail : r ≡ none → l ≡ none → Adds cs r l
    both_add :
        (ds : List (Chunk F))
        → IsExact fb ds
        → r ≡ some (out (cs ++ ds), length (flat fb ds))
        → l ≡ some (flat fb ds)
        → Adds cs r l

  abbrev Lays : Encoding F → Option (List ℕ) → Type 0
  Lays f l = (cs : List (Chunk F)) → Adds cs (f (out cs)) l

  IsExact-append : (cs ds : List (Chunk F)) → IsExact fb cs → IsExact fb ds → IsExact fb (cs ++ ds)
  IsExact-append [] ds x y = y
  IsExact-append ((b, none) ∷ cs) ds x y = IsExact-append cs ds x y
  IsExact-append ((b, some (p, n)) ∷ cs) ds (e, x) y = (e, IsExact-append cs ds x y)

  IsExact-plain : (bs : List ℕ) → IsExact fb (plain bs)
  unfolding plain
  IsExact-plain [] = tt
  IsExact-plain (b ∷ bs) = IsExact-plain bs

  flat-plain : (bs : List ℕ) → flat fb (plain bs) ≡ bs
  unfolding flat plain
  flat-plain [] = refl
  flat-plain (b ∷ bs) = ap (◌∷◌ b) (flat-plain bs)

  flat-attach :
      (b : ℕ) (bs : List ℕ) (p : Piece F) (n : ℕ)
      → flat fb (attach (b ∷ bs) p n) ≡ (b ∷ bs) ++ piece_bytes fb p n
  unfolding flat attach
  flat-attach b [] p n = ap (◌∷◌ b) (append-nil (piece_bytes fb p n))
  flat-attach b (c ∷ bs) p n = ap (◌∷◌ b) (flat-attach c bs p n)

  IsExact-attach :
      (b : ℕ) (bs : List ℕ) (p : Piece F) (n : ℕ)
      → length (piece_bytes fb p n) ≡ n
      → IsExact fb (attach (b ∷ bs) p n)
  unfolding attach
  IsExact-attach b [] p n e = (e, tt)
  IsExact-attach b (c ∷ bs) p n e = IsExact-attach c bs p n e

  push-Lays : (bs : List ℕ) → Lays (push bs) (some bs)
  push-Lays bs cs =
      both_add (plain bs) (IsExact-plain bs)
        (push-out cs bs
          ∙ ap (λ (n : ℕ). some (out (cs ++ plain bs), n)) (ap length (sym (flat-plain bs))))
        (ap some (sym (flat-plain bs)))

  header-Lays : (h : Option (List ℕ)) → Lays (push_header h) h
  header-Lays none cs = both_fail refl refl
  header-Lays (some bs) cs = push-Lays bs cs

  -- A header and what it announces.
  defer-Lays :
      (h : Option (List ℕ)) (p : Piece F) (n : ℕ)
      → h ≢ some []
      → length (piece_bytes fb p n) ≡ n
      → Lays (λ o. and_then (push_header h o) (defer p n)) (joined h (some (piece_bytes fb p n)))
  defer-Lays none p n h e cs = both_fail refl refl
  defer-Lays (some []) p n h e cs = absurd (h refl)
  defer-Lays (some (b ∷ bs)) p n h e cs =
      both_add (attach (b ∷ bs) p n) (IsExact-attach b bs p n e)
        (defer-out cs b bs p n
          ∙ ap (λ (k : ℕ). some (out (cs ++ attach (b ∷ bs) p n), k))
              (ap (λ (k : ℕ). length (b ∷ bs) + k) (sym e)
                ∙ sym (length-append (b ∷ bs) (piece_bytes fb p n))
                ∙ ap length (sym (flat-attach b bs p n))))
        (ap some (sym (flat-attach b bs p n)))

  then_added :
      (cs ds : List (Chunk F)) (g : Encoding F) (m : Option (List ℕ))
      → IsExact fb ds
      → Adds (cs ++ ds) (g (out (cs ++ ds))) m
      → Adds cs (and_size (length (flat fb ds)) (g (out (cs ++ ds)))) (joined (some (flat fb ds)) m)
  then_added cs ds g m x (both_fail e k) = both_fail (rw e refl) (rw k refl)
  then_added cs ds g m x (both_add es y e k) =
      both_add (ds ++ es) (IsExact-append ds es x y)
        (rw e (
          ap (λ (q : Output F × ℕ). some q)
            (λ i. (
              out (append_assoc cs ds es i),
              (sym (length-append (flat fb ds) (flat fb es))
                    ∙ ap length (sym (flat-append fb ds es)))
                  i,
            ))))
        (rw k (ap some (sym (flat-append fb ds es))))

  then-Lays :
      (f g : Encoding F) (l m : Option (List ℕ))
      → Lays f l
      → Lays g m
      → Lays (λ o. and_then (f o) g) (joined l m)
  then-Lays f g l m hf hg cs = go (hf cs)
    where
      go : Adds cs (f (out cs)) l → Adds cs (and_then (f (out cs)) g) (joined l m)
      go (both_fail e k) = both_fail (rw e refl) (rw k refl)
      go (both_add ds x e k) = rw (e, k) (then_added cs ds g m x (hg (cs ++ ds)))

pub long_header-some : (two four n : ℕ) → long_header two four n ≢ some []
unfolding long_header
long_header-some two four n h = ground arith

pub text_header-some : (n : ℕ) → text_header n ≢ some []
unfolding text_header
text_header-some n h = ground (arith, long_header-some 0xda 0xdb n)

pub buffer_header-some : (n : ℕ) → buffer_header n ≢ some []
unfolding buffer_header
buffer_header-some n h = ground (arith, long_header-some 0xc5 0xc6 n)

length-first_bytes : (n : ℕ) (bs : List ℕ) → length (first_bytes n bs) ≡ n
unfolding first_bytes
length-first_bytes zero bs = refl
length-first_bytes (suc n) [] = omega (arith, length-first_bytes n [])
length-first_bytes (suc n) (b ∷ bs) = omega (arith, length-first_bytes n bs)

first_bytes-length : (bs : List ℕ) → first_bytes (length bs) bs ≡ bs
unfolding first_bytes
first_bytes-length [] = refl
first_bytes-length (b ∷ bs) = ap (◌∷◌ b) (first_bytes-length bs)

-- `setFloat64` stores eight bytes.
module _ {F : Type 0} (fb : F → List ℕ) (eight : (x : F) → length (fb x) ≡ 8) where
  encode_text-Lays :
      (s : List ℕ)
      → Lays fb (encode_text s) (joined (text_header (utf8_length s)) (some (utf8_write s)))
  unfolding encode_text piece_bytes
  encode_text-Lays s =
      defer-Lays fb (text_header (utf8_length s)) (str s) (utf8_length s)
        (text_header-some (utf8_length s)) (length-utf8_write s)

  encode_buffer-Lays :
      (bs : List ℕ) (n : ℕ)
      → Lays fb (encode_buffer bs n) (joined (buffer_header n) (some (first_bytes n bs)))
  unfolding encode_buffer piece_bytes
  encode_buffer-Lays bs n =
      defer-Lays fb (buffer_header n) (bin bs) n (buffer_header-some n) (length-first_bytes n bs)

  encode_real-Lays :
      (x : F)
      → Lays fb (λ o. and_then (push (0xcb ∷ []) o) (defer (float x) 8)) (some (0xcb ∷ fb x))
  unfolding piece_bytes
  encode_real-Lays x = defer-Lays fb (some (0xcb ∷ [])) (float x) 8 (λ h. cc) (eight x)

module _ {F : Type 0} (fb : F → List ℕ) where
  nothing-Lays : Lays fb (λ o. some (o, 0)) (some [])
  unfolding flat
  nothing-Lays cs = both_add [] tt (ap (λ ds. some (out ds, 0)) (sym (append-nil cs))) refl

  if-Lays :
      (b : Bool) (f g : Encoding F) (l m : Option (List ℕ))
      → Lays fb f l
      → Lays fb g m
      → Lays fb (λ o. if b then f o else g o) (if b then l else m)
  if-Lays true f g l m p q = p
  if-Lays false f g l m p q = q

mutual
  unfolding encode_value layout

  encode_value-Lays :
      {F : Type 0} (fb : F → List ℕ) (eight : (x : F) → length (fb x) ≡ 8) (v : Value F)
      → Lays fb (encode_value v) (layout fb v)
  encode_value-Lays fb eight null = push-Lays fb (0xc0 ∷ [])
  encode_value-Lays fb eight missing = push-Lays fb (0xc0 ∷ [])
  encode_value-Lays fb eight callable = λ cs. both_fail refl refl
  encode_value-Lays fb eight (flag b) = push-Lays fb ((if b then 0xc3 else 0xc2) ∷ [])
  encode_value-Lays fb eight (whole n) = push-Lays fb (whole_bytes n)
  encode_value-Lays fb eight (negative n) = push-Lays fb (negative_bytes n)
  encode_value-Lays fb eight (real x) = encode_real-Lays fb eight x
  encode_value-Lays fb eight (text s) = encode_text-Lays fb eight s
  encode_value-Lays fb eight (buffer bs) =
      subst
        (λ l. Lays fb (encode_buffer bs (length bs)) (joined (buffer_header (length bs)) (some l)))
        (first_bytes-length bs) (encode_buffer-Lays fb eight bs (length bs))
  encode_value-Lays fb eight (view bs offset n) = encode_buffer-Lays fb eight bs n
  encode_value-Lays fb eight (date ms) = push-Lays fb (date_bytes ms)
  encode_value-Lays fb eight (date_before n) = push-Lays fb (date_before_bytes n)
  encode_value-Lays fb eight (array xs) =
      then-Lays fb (push_header (array_header (count_values xs))) (encode_values xs)
        (array_header (count_values xs)) (layout_values fb xs)
        (header-Lays fb (array_header (count_values xs))) (encode_values-Lays fb eight xs)
  encode_value-Lays fb eight (object fs) =
      then-Lays fb (push_header (object_header (count_kept fs))) (encode_fields fs)
        (object_header (count_kept fs)) (layout_fields fb fs)
        (header-Lays fb (object_header (count_kept fs))) (encode_fields-Lays fb eight fs)

  encode_values-Lays :
      {F : Type 0} (fb : F → List ℕ) (eight : (x : F) → length (fb x) ≡ 8) (xs : Values F)
      → Lays fb (encode_values xs) (layout_values fb xs)
  encode_values-Lays fb eight no_values = nothing-Lays fb
  encode_values-Lays fb eight (next_value v rest) =
      then-Lays fb (encode_value v) (encode_values rest) (layout fb v) (layout_values fb rest)
        (encode_value-Lays fb eight v) (encode_values-Lays fb eight rest)

  encode_fields-Lays :
      {F : Type 0} (fb : F → List ℕ) (eight : (x : F) → length (fb x) ≡ 8) (fs : Fields F)
      → Lays fb (encode_fields fs) (layout_fields fb fs)
  encode_fields-Lays fb eight no_fields = nothing-Lays fb
  encode_fields-Lays fb eight (next_field key v rest) =
      if-Lays fb (is_kept v)
        (λ o.
          and_then (and_then (encode_text key o) (λ o'. encode_value v o'))
            (λ o'. encode_fields rest o'))
        (encode_fields rest)
        (joined
          (joined (joined (text_header (utf8_length key)) (some (utf8_write key))) (layout fb v))
          (layout_fields fb rest))
        (layout_fields fb rest)
        (then-Lays fb (λ o. and_then (encode_text key o) (λ o'. encode_value v o'))
          (encode_fields rest)
          (joined (joined (text_header (utf8_length key)) (some (utf8_write key))) (layout fb v))
          (layout_fields fb rest)
          (then-Lays fb (encode_text key) (encode_value v)
            (joined (text_header (utf8_length key)) (some (utf8_write key))) (layout fb v)
            (encode_text-Lays fb eight key) (encode_value-Lays fb eight v))
          (encode_fields-Lays fb eight rest))
        (encode_fields-Lays fb eight rest)

filled :
    {F : Type 0} (fb : F → List ℕ) (v : Value F)
    → Adds fb [] (encode_value v (record { bytes = []; defers = [] })) (layout fb v)
    → encode fb v ≡ layout fb v
unfolding encode out bytes_of
filled fb v (both_fail e k) = rw (e, encode) (sym k)
filled fb v (both_add ds x e k) = rw (e, encode) (fill-flat fb ds 0 0 [] x refl ∙ sym k)

-- If a float takes eight bytes, then the two passes of `encode` lay down every value as the format
-- says: each header followed at once by its text, buffer, float, elements or fields. The second pass
-- never writes out of the array that the size of the first calls for, and fills it. `encode` fails
-- exactly where the layout does: at a function, and at a length of 2^32 or more.
pub encode-layout :
    {F : Type 0} (fb : F → List ℕ)
    → ((x : F) → length (fb x) ≡ 8)
    → (v : Value F) → encode fb v ≡ layout fb v
unfolding out bytes_of defers_of
encode-layout fb eight v = filled fb v (encode_value-Lays fb eight v [])

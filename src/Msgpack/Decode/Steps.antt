-- ===== src/Msgpack/Decode/Steps.antt =====
-- What packages/msgpack/lib/encode.ts lays down for one value is read back by decode.ts, if its parts
-- are.
use mathlib.Core.List.{append_assoc}
use socket_io_deno.Common.{
  ℕ, zero, suc, ◌+◌, ◌*◌, ◌≤◌, ◌<◌, Bool, true, false, Option, none, some, List, [], ◌∷◌, ◌++◌,
  length, length-append, if◌then◌else◌, ◌≡◌, ◌≢◌, refl, sym, ap, subst, ◌∙◌, arith, All, same_text,
}
use socket_io_deno.Msgpack.Utf8.{utf8_length, utf8_write}
use socket_io_deno.Msgpack.Utf8.RoundTrip.{IsText}
use socket_io_deno.Msgpack.{
  Value, null, flag, real, text, buffer, array, object, Values, no_values, next_value, Fields,
  no_fields, next_field,
}
use socket_io_deno.Msgpack.Headers.{text_header, array_header, object_header, buffer_header}
use socket_io_deno.Msgpack.Encode.{is_kept, count_values, count_kept}
use socket_io_deno.Msgpack.Encode.Layout.{joined}
use socket_io_deno.Msgpack.Encode.Passes.{long_header-some, text_header-some, buffer_header-some}
use socket_io_deno.Msgpack.Reads.{ok, failed, Read, and_read, read_text, read_buffer, assign, proto}
use socket_io_deno.Msgpack.Decode.{
  read_float, start, dispatch, key_of, as_array, as_object, parse, parse_array, parse_map,
}
use socket_io_deno.Msgpack.Decode.RoundTrip.{
  text_header-Starts, array_header-Starts, object_header-Starts, buffer_header-Starts,
}
use socket_io_deno.Msgpack.Decode.Plain.{
  and_fields, keys_of, keys_of-and_fields, and_fields_step, and_fields-none, assign_new,
  read_text_lem, read_buffer_lem, read_float_lem,
}

array_header-some : (n : ℕ) → array_header n ≢ some []
unfolding array_header
array_header-some n h = ground (arith, long_header-some 0xdc 0xdd n)

object_header-some : (n : ℕ) → object_header n ≢ some []
unfolding object_header
object_header-some n h = ground (arith, long_header-some 0xde 0xdf n)

-- The two parts of what is joined.
abbrev Parts : Option (List ℕ) → Option (List ℕ) → List ℕ → Type 0
Parts x y bs = (a : List ℕ) × (b : List ℕ) × (x ≡ some a) × (y ≡ some b) × (bs ≡ a ++ b)

joined-Parts : (x y : Option (List ℕ)) (bs : List ℕ) → joined x y ≡ some bs → Parts x y bs
joined-Parts none y bs e = absurd (none_some e)
  where
    none_some : ¬ (none ≡ some bs)
    none_some p = cc
joined-Parts (some a) none bs e = absurd (none_some e)
  where
    none_some : ¬ (none ≡ some bs)
    none_some p = cc
joined-Parts (some a) (some b) bs e = (a, b, refl, refl, cc)

some_same : (a b : List ℕ) → some a ≡ some b → a ≡ b
some_same a b e = cc

one_more : (n : ℕ) → 1 + n ≡ suc n
one_more n = omega arith

module _ {F : Type 0} (fb : F → List ℕ) (f32 f64 : List ℕ → Value F)
    (to_key : Value F → List ℕ) where
  -- `parse` gives the value of the bytes, and leaves what stands behind them.
  abbrev pub Gives : Value F → Option (List ℕ) → Type 0
  Gives v o =
      (bs rest : List ℕ) (fuel : ℕ)
      → o ≡ some bs
      → 2 * length bs ≤ fuel
      → 0 < fuel
      → parse f32 f64 to_key fuel (bs ++ rest) ≡ ok (v, rest)

  -- At least one byte is read.
  pub Gives-pos :
      (v : Value F) (o : Option (List ℕ)) (bs : List ℕ) → Gives v o → o ≡ some bs → 0 < length bs
  unfolding parse
  Gives-pos v o [] g e = absurd (not_ok (v, []) (g [] [] 1 e (omega arith) (omega arith)))
    where
      not_ok : (r : Value F × List ℕ) → ¬ (failed ≡ ok r)
      not_ok r p = cc
  Gives-pos v o (b ∷ bs) g e = omega arith

  -- What `parse` calls with one unit of fuel less.
  abbrev arrays : ℕ → ℕ → Read (Value F)
  arrays fuel n rest = as_array (parse_array f32 f64 to_key fuel n rest)

  abbrev maps : ℕ → ℕ → Read (Value F)
  maps fuel n rest = as_object (parse_map f32 f64 to_key fuel n no_fields rest)

  -- A value whose bytes need no further call.
  pub leaf :
      (v : Value F) (bs : List ℕ)
      → ((ra rm : ℕ → Read (Value F)) (rest : List ℕ)
          → start f32 f64 ra rm (bs ++ rest) ≡ ok (v, rest))
      → Gives v (some bs)
  unfolding parse
  leaf v bs p cs rest zero e h k = absurd (omega arith)
  leaf v bs p cs rest (suc fuel) e h k =
      ap (λ l. parse f32 f64 to_key (suc fuel) (l ++ rest)) (sym (some_same bs cs e))
      ∙ p (arrays fuel) (maps fuel) rest

  -- A header and what it announces.
  headed :
      (v : Value F) (header body : Option (List ℕ)) (k : ℕ → Read (Value F))
      → header ≢ some []
      → ((fuel : ℕ) (h rest : List ℕ)
          → header ≡ some h
          → start f32 f64 (arrays fuel) (maps fuel) (h ++ rest) ≡ k fuel rest)
      → ((fuel : ℕ) (b rest : List ℕ)
          → body ≡ some b
          → 2 * length b + 1 ≤ fuel
          → k fuel (b ++ rest) ≡ ok (v, rest))
      → Gives v (joined header body)
  unfolding parse
  headed v header body k some_byte p q bs rest zero e h pos = absurd (omega arith)
  headed v header body k some_byte p q bs rest (suc fuel) e h pos =
      let (a, b, ea, eb, same) = joined-Parts header body bs e in
      let long : 2 * length b + 1 ≤ fuel = enough a ea b same in
      ap (λ l. parse f32 f64 to_key (suc fuel) (l ++ rest)) same
      ∙ ap (parse f32 f64 to_key (suc fuel)) (append_assoc a b rest)
      ∙ p fuel a (b ++ rest) ea
      ∙ q fuel b rest eb long
    where
      enough : (a : List ℕ) → header ≡ some a → (b : List ℕ) → bs ≡ a ++ b → 2 * length b + 1 ≤ fuel
      enough [] ea b same = absurd (some_byte ea)
      enough (x ∷ a) ea b same = omega (arith, ap length same, length-append a b)

  pub Gives-null : Gives null (some (0xc0 ∷ []))
  unfolding dispatch
  Gives-null = leaf null (0xc0 ∷ []) (λ ra rm rest. refl)

  pub Gives-flag : (b : Bool) → Gives (flag b) (some ((if b then 0xc3 else 0xc2) ∷ []))
  unfolding dispatch
  Gives-flag true = leaf (flag true) (0xc3 ∷ []) (λ ra rm rest. refl)
  Gives-flag false = leaf (flag false) (0xc2 ∷ []) (λ ra rm rest. refl)

  pub Gives-text :
      (s : List ℕ)
      → IsText s
      → Gives (text s) (joined (text_header (utf8_length s)) (some (utf8_write s)))
  Gives-text s t =
      headed (text s) (text_header (utf8_length s)) (some (utf8_write s))
        (λ _. read_text (utf8_length s)) (text_header-some (utf8_length s))
        (λ fuel. text_header-Starts f32 f64 (arrays fuel) (maps fuel) (utf8_length s))
        (λ fuel b rest e _.
          ap (λ l. read_text (utf8_length s) (l ++ rest)) (sym (some_same (utf8_write s) b e))
          ∙ read_text_lem s rest t)

  pub Gives-buffer : (l : List ℕ) → Gives (buffer l) (joined (buffer_header (length l)) (some l))
  Gives-buffer l =
      headed (buffer l) (buffer_header (length l)) (some l) (λ _. read_buffer (length l))
        (buffer_header-some (length l))
        (λ fuel. buffer_header-Starts f32 f64 (arrays fuel) (maps fuel) (length l))
        (λ fuel b rest e _.
          ap (λ m. read_buffer (length l) (m ++ rest)) (sym (some_same l b e))
          ∙ read_buffer_lem l rest)

  pub Gives-real :
      (x : F) → length (fb x) ≡ 8 → f64 (fb x) ≡ real x → Gives (real x) (some (0xcb ∷ fb x))
  unfolding dispatch
  Gives-real x eight e = leaf (real x) (0xcb ∷ fb x) λ ra rm rest.
      ap (λ n. read_float f32 f64 n f64 (fb x ++ rest)) (sym eight)
      ∙ read_float_lem f32 f64 f64 (fb x) rest
      ∙ ap (λ v. ok (v, rest)) e

  -- The same of the elements of an array and of the fields of an object.
  abbrev pub GiveAll : Values F → Option (List ℕ) → Type 0
  GiveAll xs o =
      (bs rest : List ℕ) (fuel : ℕ)
      → o ≡ some bs
      → 2 * length bs + 1 ≤ fuel
      → parse_array f32 f64 to_key fuel (count_values xs) (bs ++ rest) ≡ ok (xs, rest)

  abbrev pub GiveFields : Fields F → List (List ℕ) → Option (List ℕ) → Type 0
  GiveFields fs seen o =
      (found : Fields F) (bs rest : List ℕ) (fuel : ℕ)
      → keys_of found ≡ seen
      → o ≡ some bs
      → 2 * length bs + 1 ≤ fuel
      → parse_map f32 f64 to_key fuel (count_kept fs) found (bs ++ rest)
        ≡ ok (and_fields found fs, rest)

  pub Gives-array :
      (xs : Values F) (o : Option (List ℕ))
      → GiveAll xs o
      → Gives (array xs) (joined (array_header (count_values xs)) o)
  Gives-array xs o g =
      headed (array xs) (array_header (count_values xs)) o (λ fuel. arrays fuel (count_values xs))
        (array_header-some (count_values xs))
        (λ fuel. array_header-Starts f32 f64 (arrays fuel) (maps fuel) (count_values xs))
        (λ fuel b rest e h. ap as_array (g b rest fuel e h))

  pub Gives-object :
      (fs : Fields F) (o : Option (List ℕ))
      → GiveFields fs [] o
      → Gives (object fs) (joined (object_header (count_kept fs)) o)
  Gives-object fs o g =
      headed (object fs) (object_header (count_kept fs)) o (λ fuel. maps fuel (count_kept fs))
        (object_header-some (count_kept fs))
        (λ fuel. object_header-Starts f32 f64 (arrays fuel) (maps fuel) (count_kept fs))
        (λ fuel b rest e h. ap as_object (g no_fields b rest fuel refl e h))

  pub GiveAll-none : GiveAll no_values (some [])
  unfolding parse_array count_values
  GiveAll-none bs rest zero e h = absurd (omega arith)
  GiveAll-none bs rest (suc fuel) e h =
      ap (λ l. ok (no_values, l ++ rest)) (sym (some_same [] bs e))

  pub GiveAll-next :
      (v : Value F) (xs : Values F) (o p : Option (List ℕ))
      → Gives v o
      → GiveAll xs p
      → GiveAll (next_value v xs) (joined o p)
  unfolding parse_array count_values
  GiveAll-next v xs o p g gs bs rest zero e h = absurd (omega arith)
  GiveAll-next v xs o p g gs bs rest (suc fuel) e h =
      let (a, b, ea, eb, same) = joined-Parts o p bs e in
      let some_byte : 0 < length a = Gives-pos v o a g ea in
      let size : length bs ≡ length a + length b = ap length same ∙ length-append a b in
      ap (λ n. parse_array f32 f64 to_key (suc fuel) n (bs ++ rest)) (one_more (count_values xs))
      ∙ ap (λ l. parse_array f32 f64 to_key (suc fuel) (suc (count_values xs)) (l ++ rest)) same
      ∙ ap (parse_array f32 f64 to_key (suc fuel) (suc (count_values xs))) (append_assoc a b rest)
      ∙ ap
          (λ r. and_read r λ w l.
            and_read (parse_array f32 f64 to_key fuel (count_values xs) l)
              λ ws l'. ok (next_value w ws, l'))
          (g a (b ++ rest) fuel ea (omega arith) (omega arith))
      ∙ ap (λ r. and_read r (λ ws l'. ok (next_value v ws, l'))) (gs b rest fuel eb (omega arith))

  pub GiveFields-none : (seen : List (List ℕ)) → GiveFields no_fields seen (some [])
  unfolding parse_map count_kept
  GiveFields-none seen found bs rest zero ks e h = absurd (omega arith)
  GiveFields-none seen found bs rest (suc fuel) ks e h =
      ap (λ l. ok (found, l ++ rest)) (sym (some_same [] bs e))
      ∙ ap (λ fs. ok (fs, rest)) (sym (and_fields-none found))

  -- A field: its key and its value are read, and the key is a new one.
  pub GiveFields-next :
      (key : List ℕ) (v : Value F) (fs : Fields F) (seen : List (List ℕ))
      (kp vp fp : Option (List ℕ))
      → is_kept v ≡ true
      → same_text key proto ≡ false
      → All (λ k. same_text key k ≡ false) seen
      → Gives (text key) kp
      → Gives v vp
      → GiveFields fs (seen ++ key ∷ []) fp
      → GiveFields (next_field key v fs) seen (joined (joined kp vp) fp)
  unfolding parse_map count_kept
  GiveFields-next key v fs seen kp vp fp kept plain new gk g gs found bs rest zero ks e h =
      absurd (omega arith)
  GiveFields-next key v fs seen kp vp fp kept plain new gk g gs found bs rest (suc fuel) ks e h =
      let (ab, c, eab, ec, same) = joined-Parts (joined kp vp) fp bs e in
      let (a, b, ea, eb, same_ab) = joined-Parts kp vp ab eab in
      let key_byte : 0 < length a = Gives-pos (text key) kp a gk ea in
      let some_byte : 0 < length b = Gives-pos v vp b g eb in
      let size : length bs ≡ length ab + length c = ap length same ∙ length-append ab c in
      let size_ab : length ab ≡ length a + length b = ap length same_ab ∙ length-append a b in
      let bytes : bs ++ rest ≡ a ++ (b ++ (c ++ rest)) =
        ap (λ l. l ++ rest) (same ∙ ap (λ l. l ++ c) same_ab)
        ∙ append_assoc (a ++ b) c rest
        ∙ append_assoc a b (c ++ rest) in
      let next : Fields F = and_fields found (next_field key v no_fields) in
      let is_next : assign key v found ≡ next =
        assign_new key v found plain (subst (All (λ k. same_text key k ≡ false)) (sym ks) new) in
      let keys : keys_of next ≡ seen ++ key ∷ [] =
        keys_of-and_fields found key v ∙ ap (λ l. l ++ key ∷ []) ks in
      ap
        (λ (t : Bool).
          parse_map f32 f64 to_key (suc fuel) (if t then 1 + count_kept fs else count_kept fs) found
            (bs ++ rest))
        kept
      ∙ ap (λ n. parse_map f32 f64 to_key (suc fuel) n found (bs ++ rest))
          (one_more (count_kept fs))
      ∙ ap (parse_map f32 f64 to_key (suc fuel) (suc (count_kept fs)) found) bytes
      ∙ ap
          (λ r. and_read r λ k l. and_read (parse f32 f64 to_key fuel l) λ w l'.
            parse_map f32 f64 to_key fuel (count_kept fs) (assign (key_of to_key k) w found) l')
          (gk a (b ++ (c ++ rest)) fuel ea (omega arith) (omega arith))
      ∙ ap
          (λ r.
            and_read r
              λ w l'. parse_map f32 f64 to_key fuel (count_kept fs) (assign key w found) l')
          (g b (c ++ rest) fuel eb (omega arith) (omega arith))
      ∙ ap (λ fs'. parse_map f32 f64 to_key fuel (count_kept fs) fs' (c ++ rest)) is_next
      ∙ gs next c rest fuel keys ec (omega arith)
      ∙ ap (λ fs'. ok (fs', rest)) (and_fields_step found key v fs)

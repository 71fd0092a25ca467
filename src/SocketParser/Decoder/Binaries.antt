-- ===== src/SocketParser/Decoder/Binaries.antt =====
-- packages/socket.io-parser/mod.ts: the attachments behind the text of a packet.
use mathlib.Core.List.{append_assoc}
use socket_io_deno.Common.{
  ℕ, true, false, Option, none, some, List, [], ◌∷◌, ◌++◌, length, length-append, ◌≡◌, refl, sym,
  arith,
}
use socket_io_deno.SocketParser.{
  Value, missing, null, flag, number, date, text, attachment, array, object, Values, no_values,
  next_value, Fields, no_fields, next_field, extract, extract_element, extract_values,
  extract_fields,
}
use socket_io_deno.SocketParser.Attachments.{contents, contents_values, contents_fields}
use socket_io_deno.SocketParser.Packets.{Packet, binary, binaries}
use socket_io_deno.SocketParser.Decoder.{packet, add, add_all, is_count, injected}

empty-append : {A : Type 0} (xs ys : List A) → xs ++ ys ≡ [] → (xs ≡ []) × (ys ≡ [])
empty-append [] ys e = (refl, e)
empty-append (x ∷ xs) ys e = absurd (cc)

-- Data without attachments is left as it is.
mutual
  unfolding extract_element contents

  untouched-element :
      {B : Type 0} (v : Value B) (found : List B)
      → contents v ≡ []
      → extract_element v found ≡ (v, found)
  untouched-element missing found h = refl
  untouched-element null found h = refl
  untouched-element (flag b) found h = refl
  untouched-element (number n) found h = refl
  untouched-element (date n) found h = refl
  untouched-element (text s) found h = refl
  untouched-element (attachment b) found h = absurd (cc)
  untouched-element (array xs) found h = rw (untouched-values xs found h) refl
  untouched-element (object fs) found h = rw (untouched-fields fs found h) refl

  untouched-values :
      {B : Type 0} (xs : Values B) (found : List B)
      → contents_values xs ≡ []
      → extract_values xs found ≡ (xs, found)
  untouched-values no_values found h = refl
  untouched-values (next_value v rest) found h =
      let (hv, hr) = empty-append (contents v) (contents_values rest) h in
      rw (untouched-element v found hv, untouched-values rest found hr) refl

  untouched-fields :
      {B : Type 0} (fs : Fields B) (found : List B)
      → contents_fields fs ≡ []
      → extract_fields fs found ≡ (fs, found)
  untouched-fields no_fields found h = refl
  untouched-fields (next_field key v rest) found h =
      let (hv, hr) = empty-append (contents v) (contents_fields rest) h in
      rw (untouched-element v found hv, untouched-fields rest found hr) refl

count-itself : (n : ℕ) → is_count n (some n) ≡ true
count-itself n = ground arith

count-more :
    {A : Type 0} (xs : List A) (a b : A) (rest : List A)
    → is_count (length (xs ++ a ∷ [])) (some (length (xs ++ a ∷ b ∷ rest))) ≡ false
count-more xs a b rest = ground (arith, length-append xs (a ∷ []), length-append xs (a ∷ b ∷ rest))

-- Without attachments the data stays as it is.
pub untouched : {B : Type 0} (v : Value B) → contents v ≡ [] → extract v [] ≡ (v, [])
unfolding extract contents
untouched (attachment b) h = absurd (cc)
untouched missing h = untouched-element missing [] h
untouched null h = untouched-element null [] h
untouched (flag b) h = untouched-element (flag b) [] h
untouched (number n) h = untouched-element (number n) [] h
untouched (date n) h = untouched-element (date n) [] h
untouched (text s) h = untouched-element (text s) [] h
untouched (array xs) h = untouched-element (array xs) [] h
untouched (object fs) h = untouched-element (object fs) [] h

module _ {B : Type 0} (parse : List ℕ → Option (Value B)) where
  add-last :
      (p : Packet B) (got : List B) (b : B)
      → p.attachments ≡ some (length (got ++ b ∷ []))
      → add parse (some (p, got)) (binary b) ≡ (none, packet (injected p (got ++ b ∷ [])) ∷ [])
  unfolding add
  add-last p got b h = rw (h, count-itself (length (got ++ b ∷ []))) refl

  add-more :
      (p : Packet B) (got : List B) (b c : B) (rest : List B)
      → p.attachments ≡ some (length (got ++ b ∷ c ∷ rest))
      → add parse (some (p, got)) (binary b) ≡ (some (p, got ++ b ∷ []), [])
  unfolding add
  add-more p got b c rest h = rw (h, count-more got b c rest) refl

  -- The attachments behind a text: with the last one the packet is complete.
  pub add_all-binaries :
      (p : Packet B) (got : List B) (b : B) (rest : List B)
      → p.attachments ≡ some (length (got ++ b ∷ rest))
      → add_all parse (some (p, got)) (binaries (b ∷ rest))
        ≡ (none, packet (injected p (got ++ b ∷ rest)) ∷ [])
  unfolding add_all
  add_all-binaries p got b [] h = rw (add-last p got b h) refl
  add_all-binaries p got b (c ∷ rest) h =
      rw (add-more p got b c rest h, sym (append_assoc got (b ∷ []) (c ∷ rest)))
        (add_all-binaries p (got ++ b ∷ []) c rest (rw (append_assoc got (b ∷ []) (c ∷ rest)) h))

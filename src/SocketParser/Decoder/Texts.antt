-- ===== src/SocketParser/Decoder/Texts.antt =====
-- packages/socket.io-parser/mod.ts: `decodeString` on what `encodeAsString` wrote.
use mathlib.Core.List.{append-nil, append_assoc}
use socket_io_deno.Common.{
  ℕ, ◌+◌, true, false, Option, none, some, List, [], ◌∷◌, ◌++◌, ◌==◌, ◌≡◌, refl, ap, sym, subst,
  ◌∙◌, ◌⊎◌, inl, inr, arith, All,
}
use socket_io_deno.Common.Decimal.{
  is_digit, decimal, span_digits, span_digits-append, value_of_digits, value_of_digits-decimal,
  AreDigits, EndsDigits, decimal-AreDigits, first_digit,
}
use socket_io_deno.SocketParser.{Value, missing}
use socket_io_deno.SocketParser.Packets.{
  PacketType, connect, disconnect, event, ack, connect_error, binary_event, binary_ack, type_code,
  type_of, is_binary, Packet, count_part, namespace_part, id_part, data_part, is_truthy,
  encode_as_string,
}
use socket_io_deno.SocketParser.Decoder.{
  until, is_white, skip_white, parse_int, read_count, read_namespace, read_id, read_data,
  is_payload_valid, decode_string,
}

-- No character of the text is `mark`.
abbrev pub Lacks : ℕ → List ℕ → Type 0
Lacks mark = All (λ c. (c == mark) ≡ false)

until-append :
    (mark : ℕ) (s rest : List ℕ)
    → Lacks mark s
    → (mark == mark) ≡ true
    → until mark (s ++ mark ∷ rest) ≡ (s, some rest)
unfolding until
until-append mark [] rest h k = rw k refl
until-append mark (c ∷ s) rest h k = rw (h.0, until-append mark s rest h.1 k) refl

-- Only a packet with attachments has a count of them.
unfoldable pub HasCount : PacketType → Option ℕ → Type 0
HasCount type none = is_binary type ≡ false
HasCount type (some n) = is_binary type ≡ true

-- A name of a namespace: it starts with "/" and holds no ",".
unfoldable pub IsPath : List ℕ → Type 0
IsPath [] = ⊥
IsPath (c ∷ s) = (c ≡ 0x2f) × Lacks 0x2c s

-- What is printed behind the name of a namespace does not start with "/".
unfoldable pub OpensData : List ℕ → Type 0
OpensData [] = Unit
OpensData (c ∷ s) = (c == 0x2f) ≡ false

digits-Lacks : (s : List ℕ) → AreDigits s → Lacks 0x2d s
digits-Lacks [] h = tt
digits-Lacks (c ∷ s) h = (ground (arith, h.0), digits-Lacks s h.1)

not_white : (c : ℕ) → is_digit c ≡ true → is_white c ≡ false
not_white c h = ground (arith, h)

not_plus : (c : ℕ) → is_digit c ≡ true → (c == 0x2b) ≡ false
not_plus c h = ground (arith, h)

span_digits-all : (s : List ℕ) → AreDigits s → span_digits s ≡ (s, [])
span_digits-all s h = ap span_digits (sym (append-nil s)) ∙ span_digits-append s [] h tt

parse_int-digits :
    (c : ℕ) (s : List ℕ) → AreDigits (c ∷ s) → parse_int (c ∷ s) ≡ some (value_of_digits 0 (c ∷ s))
unfolding skip_white
parse_int-digits c s h = rw (not_white c h.0, not_plus c h.0, span_digits-all (c ∷ s) h) refl

parse_int-decimal : (n : ℕ) → parse_int (decimal n) ≡ some n
parse_int-decimal n =
    let (c, s, e, h) = first_digit n in
    ap parse_int e
    ∙ parse_int-digits c s (subst AreDigits e (decimal-AreDigits n))
    ∙ ap (λ t. some (value_of_digits 0 t)) (sym e)
    ∙ ap some (value_of_digits-decimal n)

-- The parts of the text, each read in front of the parts behind it.
read_count-count_part :
    (type : PacketType) (count : Option ℕ) (rest : List ℕ)
    → HasCount type count
    → read_count type (count_part type count ++ rest) ≡ some (count, rest)
unfolding HasCount
read_count-count_part type none rest h = rw h refl
read_count-count_part type (some n) rest h =
    rw
      (
        h,
        append_assoc (decimal n) (0x2d ∷ []) rest,
        until-append 0x2d (decimal n) rest (digits-Lacks (decimal n) (decimal-AreDigits n)) refl,
        parse_int-decimal n,
      )
      refl

read_namespace-path :
    (s rest : List ℕ) → Lacks 0x2c s → read_namespace (0x2f ∷ s ++ 0x2c ∷ rest) ≡ (0x2f ∷ s, rest)
read_namespace-path s rest h = rw (until-append 0x2c (0x2f ∷ s) rest (refl, h) refl) refl

read_namespace-namespace_part :
    (nsp rest : List ℕ)
    → IsPath nsp
    → OpensData rest
    → read_namespace (namespace_part nsp ++ rest) ≡ (nsp, rest)
unfolding IsPath OpensData
read_namespace-namespace_part [] rest h k = absurd h
read_namespace-namespace_part (c ∷ []) [] h k = rw h.0 refl
read_namespace-namespace_part (c ∷ []) (d ∷ rest) h k = rw (h.0, k) refl
read_namespace-namespace_part (c ∷ d ∷ s) rest h k =
    rw (h.0, append_assoc s (0x2c ∷ []) rest) (read_namespace-path (d ∷ s) rest h.1)

read_id-digits :
    (c : ℕ) (s rest : List ℕ)
    → AreDigits (c ∷ s)
    → EndsDigits rest
    → read_id (c ∷ s ++ rest) ≡ (some (value_of_digits 0 (c ∷ s)), rest)
read_id-digits c s rest h k = rw (span_digits-append (c ∷ s) rest h k, h.0) refl

read_id-id_part :
    (id : Option ℕ) (rest : List ℕ) → EndsDigits rest → read_id (id_part id ++ rest) ≡ (id, rest)
read_id-id_part none [] h = refl
read_id-id_part none (c ∷ rest) h = rw h refl
read_id-id_part (some n) rest h =
    let (c, s, e, k) = first_digit n in
    ap (λ t. read_id (t ++ rest)) e
    ∙ read_id-digits c s rest (subst AreDigits e (decimal-AreDigits n)) h
    ∙ ap (λ t. (some (value_of_digits 0 t), rest)) (sym e)
    ∙ ap (λ m. (some m, rest)) (value_of_digits-decimal n)

type_of-type_code : (type : PacketType) → type_of (48 + type_code type) ≡ some type
unfolding type_of
type_of-type_code connect = refl
type_of-type_code disconnect = refl
type_of-type_code event = refl
type_of-type_code ack = refl
type_of-type_code connect_error = refl
type_of-type_code binary_event = refl
type_of-type_code binary_ack = refl

-- What `JSON.stringify` prints at the start of a text or of an object: neither a digit nor "/".
unfoldable pub OpensJson : List ℕ → Type 0
OpensJson [] = ⊥
OpensJson (c ∷ s) = (is_digit c ≡ false) × ((c == 0x2f) ≡ false)

OpensJson-EndsDigits : (s : List ℕ) → OpensJson s → EndsDigits s
unfolding OpensJson
OpensJson-EndsDigits [] h = absurd h
OpensJson-EndsDigits (c ∷ s) h = h.0

-- An identifier or data that open so do not look like a namespace.
OpensJson-OpensData : (s : List ℕ) → OpensJson s → OpensData s
unfolding OpensJson OpensData
OpensJson-OpensData [] h = absurd h
OpensJson-OpensData (c ∷ s) h = h.1

digits-OpensData : (c : ℕ) (s rest : List ℕ) → is_digit c ≡ true → OpensData (c ∷ s ++ rest)
unfolding OpensData
digits-OpensData c s rest h = ground (arith, h)

id_part-OpensData : (id : Option ℕ) (s : List ℕ) → OpensData s → OpensData (id_part id ++ s)
id_part-OpensData none s h = h
id_part-OpensData (some n) s h =
    let (c, t, e, k) = first_digit n in
    subst (λ l. OpensData (l ++ s)) (sym e) (digits-OpensData c t s k)

module _ {B : Type 0} (stringify : Value B → List ℕ) (parse : List ℕ → Option (Value B)) where
  -- Data that `JSON` prints and reads back, of a type that the decoder takes.
  unfoldable pub IsPrinted : PacketType → Value B → Type 0
  IsPrinted type v =
      (is_truthy v ≡ true)
      × (is_payload_valid type v ≡ true)
      × OpensJson (stringify v)
      × (parse (stringify v) ≡ some v)

  -- No data, or such data.
  unfoldable pub IsPrintable : PacketType → Value B → Type 0
  IsPrintable type v = (v ≡ missing) ⊎ IsPrinted type v

  read_data-stringify :
      (type : PacketType) (v : Value B)
      → IsPrinted type v
      → read_data parse type (stringify v) ≡ some v
  unfolding IsPrinted OpensJson
  read_data-stringify type v h = read_back (stringify v) h.2 h.3
    where
      read_back : (s : List ℕ) → OpensJson s → parse s ≡ some v → read_data parse type s ≡ some v
      read_back [] k e = absurd k
      read_back (c ∷ s) k e = rw (e, h.1) refl

  printed :
      (type : PacketType) (v : Value B) → IsPrinted type v → data_part stringify v ≡ stringify v
  unfolding IsPrinted
  printed type v h = rw h.0 refl

  opened : (type : PacketType) (v : Value B) → IsPrinted type v → OpensJson (stringify v)
  unfolding IsPrinted
  opened type v h = h.2

  -- Data at the end of the text.
  read_data-data_part :
      (type : PacketType) (v : Value B)
      → IsPrintable type v
      → read_data parse type (data_part stringify v) ≡ some v
  unfolding IsPrintable
  read_data-data_part type v (inl e) = rw e refl
  read_data-data_part type v (inr h) = rw (printed type v h) (read_data-stringify type v h)

  data_part-EndsDigits :
      (type : PacketType) (v : Value B) → IsPrintable type v → EndsDigits (data_part stringify v)
  unfolding IsPrintable
  data_part-EndsDigits type v (inl e) = rw e tt
  data_part-EndsDigits type v (inr h) =
      rw (printed type v h) (OpensJson-EndsDigits (stringify v) (opened type v h))

  data_part-OpensData :
      (type : PacketType) (v : Value B) → IsPrintable type v → OpensData (data_part stringify v)
  unfolding IsPrintable OpensData
  data_part-OpensData type v (inl e) = rw e tt
  data_part-OpensData type v (inr h) =
      rw (printed type v h) (OpensJson-OpensData (stringify v) (opened type v h))

  pub decode_string-encode_as_string :
      (p : Packet B)
      → HasCount p.type p.attachments
      → IsPath p.nsp
      → IsPrintable p.type p.payload
      → decode_string parse (encode_as_string stringify p) ≡ some p
  unfolding decode_string encode_as_string
  decode_string-encode_as_string p h k j =
      rw
        (
          type_of-type_code p.type,
          read_count-count_part p.type p.attachments
              (namespace_part p.nsp ++ (id_part p.id ++ data_part stringify p.payload)) h,
          read_namespace-namespace_part p.nsp (id_part p.id ++ data_part stringify p.payload) k (
              id_part-OpensData p.id (data_part stringify p.payload)
                (data_part-OpensData p.type p.payload j)),
          read_id-id_part p.id (data_part stringify p.payload)
              (data_part-EndsDigits p.type p.payload j),
          read_data-data_part p.type p.payload j,
        )
        refl

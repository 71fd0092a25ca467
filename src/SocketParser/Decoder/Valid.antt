-- ===== src/SocketParser/Decoder/Valid.antt =====
-- packages/socket.io-parser/mod.ts: what `Decoder` emits, whatever it is given.
use socket_io_deno.Common.{
  ℕ, zero, suc, ◌<◌, true, false, Option, none, some, List, [], ◌∷◌, ◌++◌, ◌==◌, length,
  length-append, ◌≡◌, refl, sym, subst, ◌∙◌, ◌⊎◌, inl, inr, arith, Bool-cases, All, All-append,
}
use socket_io_deno.SocketParser.{
  Value, missing, null, flag, number, date, text, attachment, object, array, no_values, next_value,
  inject,
}
use socket_io_deno.SocketParser.Packets.{
  PacketType, connect, disconnect, event, ack, connect_error, binary_event, binary_ack, is_binary,
  type_of, Packet, RawData, plain, binary,
}
use socket_io_deno.SocketParser.Decoder.{
  until, read_count, counted, with_count, parse_int, read_namespace, read_id, read_data, checked,
  with_data, is_payload_valid, is_object, is_text, is_missing, is_array, is_filled, decode_string,
  decode_typed, decode_parts, Buffer, DecoderEvent, packet, error, add, add_text, decoded, add_all,
  is_count, injected,
}
use socket_io_deno.SocketParser.Decoder.Texts.{HasCount, IsPath, Lacks}

until-Lacks : (mark : ℕ) (s : List ℕ) → Lacks mark (until mark s).0
unfolding until
until-Lacks mark [] = tt
until-Lacks mark (c ∷ s) = elim (Bool-cases (c == mark)) [
  | inl e ↦ rw e tt
  | inr e ↦ rw e (e, until-Lacks mark s)
]

slash : (c : ℕ) → (c == 0x2f) ≡ true → c ≡ 0x2f
slash c e = ground (arith, e)

read_namespace-IsPath : (s : List ℕ) → IsPath (read_namespace s).0
unfolding IsPath until
read_namespace-IsPath [] = (refl, tt)
read_namespace-IsPath (c ∷ s) = elim (Bool-cases (c == 0x2f)) [
  | inl e ↦
      subst (λ c. IsPath (read_namespace (c ∷ s)).0) (sym (slash c e)) (refl, until-Lacks 0x2c s)
  | inr e ↦ rw e (refl, tt)
]

-- A count that was read fits the type.
unfoldable CountFits : PacketType → Option (Option ℕ × List ℕ) → Type 0
CountFits type none = Unit
CountFits type (some (count, s)) = HasCount type count

with_count-CountFits :
    (type : PacketType) (n : Option ℕ) (rest : List ℕ)
    → is_binary type ≡ true
    → CountFits type (with_count n rest)
unfolding CountFits HasCount
with_count-CountFits type none rest h = tt
with_count-CountFits type (some n) rest h = h

counted-CountFits :
    (type : PacketType) (r : List ℕ × Option (List ℕ))
    → is_binary type ≡ true
    → CountFits type (counted r)
unfolding CountFits
counted-CountFits type (s, none) h = tt
counted-CountFits type (s, some rest) h = with_count-CountFits type (parse_int s) rest h

read_count-CountFits : (type : PacketType) (s : List ℕ) → CountFits type (read_count type s)
unfolding CountFits HasCount
read_count-CountFits type s = elim (Bool-cases (is_binary type)) [
  | inl e ↦ rw e (counted-CountFits type (until 0x2d s) e)
  | inr e ↦ rw e e
]

kinds-inject :
    {B : Type 0} (v : Value B) (bs : List B)
    → let w = (inject v bs).0 in
      (is_object w ≡ is_object v)
      × (is_text w ≡ is_text v)
      × (is_missing w ≡ is_missing v)
      × (is_array w ≡ is_array v)
      × (is_filled w ≡ is_filled v)
unfolding inject
kinds-inject (array no_values) bs = (refl, refl, refl, refl, refl)
kinds-inject (array (next_value v rest)) bs = (refl, refl, refl, refl, refl)
kinds-inject missing bs = (refl, refl, refl, refl, refl)
kinds-inject null bs = (refl, refl, refl, refl, refl)
kinds-inject (flag b) bs = (refl, refl, refl, refl, refl)
kinds-inject (number n) bs = (refl, refl, refl, refl, refl)
kinds-inject (date n) bs = (refl, refl, refl, refl, refl)
kinds-inject (text s) bs = (refl, refl, refl, refl, refl)
kinds-inject (attachment b) bs = (refl, refl, refl, refl, refl)
kinds-inject (object fs) bs = (refl, refl, refl, refl, refl)

-- Putting attachments in leaves the kind of the data.
same_kind :
    {B : Type 0} (type : PacketType) (v : Value B) (bs : List B)
    → is_payload_valid type (inject v bs).0 ≡ is_payload_valid type v
unfolding is_payload_valid
same_kind connect v bs = (kinds-inject v bs).0
same_kind disconnect v bs = (kinds-inject v bs).2
same_kind connect_error v bs = rw ((kinds-inject v bs).0, (kinds-inject v bs).1) refl
same_kind event v bs = rw ((kinds-inject v bs).3, (kinds-inject v bs).4) refl
same_kind ack v bs = (kinds-inject v bs).3
same_kind binary_event v bs = rw ((kinds-inject v bs).3, (kinds-inject v bs).4) refl
same_kind binary_ack v bs = (kinds-inject v bs).3

module _ {B : Type 0} where
  -- The data that a packet of the type may have.
  abbrev pub FitsType : PacketType → Value B → Type 0
  FitsType type v = (v ≡ missing) ⊎ (is_payload_valid type v ≡ true)

  -- A packet as its type says: with a number of attachments if and only if the type is binary, with
  -- the name of a namespace, and without data or with data of the type.
  unfoldable pub IsTyped : Packet B → Type 0
  IsTyped p = HasCount p.type p.attachments × IsPath p.nsp × FitsType p.type p.payload

  unfoldable pub DataFits : PacketType → Option (Value B) → Type 0
  DataFits type none = Unit
  DataFits type (some v) = FitsType type v

  unfoldable pub MaybeTyped : Option (Packet B) → Type 0
  MaybeTyped none = Unit
  MaybeTyped (some p) = IsTyped p

  with_data-MaybeTyped :
      (type : PacketType) (nsp : List ℕ) (count id : Option ℕ) (v : Option (Value B))
      → HasCount type count
      → IsPath nsp
      → DataFits type v
      → MaybeTyped (with_data type nsp count id v)
  unfolding MaybeTyped DataFits IsTyped
  with_data-MaybeTyped type nsp count id none h k j = tt
  with_data-MaybeTyped type nsp count id (some v) h k j = (h, k, j)

  checked-DataFits :
      (parse : List ℕ → Option (Value B)) (type : PacketType) (v : Option (Value B))
      → DataFits type (checked parse type v)
  unfolding DataFits
  checked-DataFits parse type none = tt
  checked-DataFits parse type (some v) = elim (Bool-cases (is_payload_valid type v)) [
    | inl e ↦ rw e (inr e)
    | inr e ↦ rw e tt
  ]

  read_data-DataFits :
      (parse : List ℕ → Option (Value B)) (type : PacketType) (s : List ℕ)
      → DataFits type (read_data parse type s)
  unfolding DataFits
  read_data-DataFits parse type [] = inl refl
  read_data-DataFits parse type (c ∷ s) = checked-DataFits parse type (parse (c ∷ s))

  decode_parts-MaybeTyped :
      (parse : List ℕ → Option (Value B)) (type : PacketType) (r : Option (Option ℕ × List ℕ))
      → CountFits type r
      → MaybeTyped (decode_parts parse type r)
  unfolding CountFits MaybeTyped
  decode_parts-MaybeTyped parse type none h = tt
  decode_parts-MaybeTyped parse type (some (count, s)) h =
      let nsp = read_namespace s in
      let id = read_id nsp.1 in
      with_data-MaybeTyped type nsp.0 count id.0 (read_data parse type id.1) h
        (read_namespace-IsPath s) (read_data-DataFits parse type id.1)

  decode_typed-MaybeTyped :
      (parse : List ℕ → Option (Value B)) (type : Option PacketType) (s : List ℕ)
      → MaybeTyped (decode_typed parse type s)
  unfolding MaybeTyped
  decode_typed-MaybeTyped parse none s = tt
  decode_typed-MaybeTyped parse (some type) s =
      decode_parts-MaybeTyped parse type (read_count type s) (read_count-CountFits type s)

  decode_string-MaybeTyped :
      (parse : List ℕ → Option (Value B)) (s : List ℕ) → MaybeTyped (decode_string parse s)
  unfolding MaybeTyped decode_string
  decode_string-MaybeTyped parse [] = tt
  decode_string-MaybeTyped parse (c ∷ s) = decode_typed-MaybeTyped parse (type_of c) s

  -- Putting attachments in leaves the kind of the data.
  FitsType-inject :
      (type : PacketType) (v : Value B) (bs : List B)
      → FitsType type v
      → FitsType type (inject v bs).0
  unfolding inject
  FitsType-inject type v bs (inl e) = rw e (inl refl)
  FitsType-inject type v bs (inr e) = inr (same_kind type v bs ∙ e)

  -- The buffer of a decoder: a packet that still waits for at least one of its attachments.
  unfoldable pub IsWaiting : Buffer B → Type 0
  IsWaiting none = Unit
  IsWaiting (some (p, got)) = IsTyped p × ((n : ℕ) × (p.attachments ≡ some n) × (length got < n))

  unfoldable pub IsTypedEvent : DecoderEvent B → Type 0
  IsTypedEvent error = Unit
  IsTypedEvent (packet p) = IsTyped p

  abbrev pub AreTyped : List (DecoderEvent B) → Type 0
  AreTyped = All IsTypedEvent

  decoded-Waiting :
      (p : Packet B) (n : Option ℕ)
      → p.attachments ≡ n
      → IsTyped p
      → let r = decoded p n in IsWaiting r.0 × AreTyped r.1
  unfolding IsWaiting IsTypedEvent
  decoded-Waiting p none e h = (tt, (h, tt))
  decoded-Waiting p (some zero) e h = (tt, (h, tt))
  decoded-Waiting p (some (suc n)) e h = ((h, (suc n, e, omega arith)), tt)

  add_text-Waiting :
      (parse : List ℕ → Option (Value B)) (o : Option (Packet B))
      → MaybeTyped o
      → let r = add_text parse o in IsWaiting r.0 × AreTyped r.1
  unfolding MaybeTyped IsWaiting IsTypedEvent
  add_text-Waiting parse none h = (tt, (tt, tt))
  add_text-Waiting parse (some p) h = decoded-Waiting p p.attachments refl h

  injected-Typed : (p : Packet B) (got : List B) → IsTyped p → IsTyped (injected p got)
  unfolding IsTyped
  injected-Typed p got (h, k, j) = (h, k, FitsType-inject p.type p.payload got j)

  -- One more attachment, and not the last one.
  still-IsWaiting :
      (p : Packet B) (got : List B) (b : B)
      → IsWaiting (some (p, got))
      → is_count (length (got ++ b ∷ [])) p.attachments ≡ false
      → IsWaiting (some (p, got ++ b ∷ []))
  unfolding IsWaiting
  still-IsWaiting p got b (h, (n, e, l)) c =
      let k = subst (λ m. is_count (length (got ++ b ∷ [])) m ≡ false) e c in
      (h, (n, e, ground (arith, length-append got (b ∷ []), k, l)))

  add-Waiting :
      (parse : List ℕ → Option (Value B)) (buffer : Buffer B) (d : RawData B)
      → IsWaiting buffer
      → let r = add parse buffer d in IsWaiting r.0 × AreTyped r.1
  unfolding IsWaiting IsTypedEvent add
  add-Waiting parse (some waiting) (plain s) h = (h, (tt, tt))
  add-Waiting parse none (plain s) h =
      add_text-Waiting parse (decode_string parse s) (decode_string-MaybeTyped parse s)
  add-Waiting parse none (binary b) h = (tt, (tt, tt))
  add-Waiting parse (some (p, got)) (binary b) h =
      elim (Bool-cases (is_count (length (got ++ b ∷ [])) p.attachments)) [
        | inl e ↦ rw e (tt, (injected-Typed p (got ++ b ∷ []) h.0, tt))
        | inr e ↦ simp e (still-IsWaiting p got b h e, tt)
      ]

  -- Whatever texts and attachments a decoder is given, each packet that it emits is as its type
  -- says: it has a number of attachments if and only if the type is a binary one; its namespace
  -- starts with "/" and holds no "," after that; its data is missing or passes `isPayloadValid`. This
  -- holds of a decoder without a buffer and of one whose buffer holds such a packet with fewer
  -- attachments than its number, and it is such a decoder again afterwards.
  pub add_all-Waiting :
      (parse : List ℕ → Option (Value B)) (buffer : Buffer B) (l : List (RawData B))
      → IsWaiting buffer
      → let r = add_all parse buffer l in IsWaiting r.0 × AreTyped r.1
  unfolding add_all
  add_all-Waiting parse buffer [] h = (h, tt)
  add_all-Waiting parse buffer (d ∷ rest) h =
      let r = add parse buffer d in
      let (w, t) = add-Waiting parse buffer d h in
      let (u, s) = add_all-Waiting parse r.0 rest w in
      (u, All-append IsTypedEvent r.1 (add_all parse r.0 rest).1 (t, s))

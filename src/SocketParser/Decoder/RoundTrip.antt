-- ===== src/SocketParser/Decoder/RoundTrip.antt =====
-- packages/socket.io-parser/mod.ts: `Decoder.add` on what `Encoder.encode` gives.
use socket_io_deno.Common.{
  ℕ, true, false, Option, none, some, List, [], ◌∷◌, length, ◌≡◌, refl, ap, sym, subst, ◌∙◌, inl,
  inr,
}
use socket_io_deno.SocketParser.{Value, array, Values, inject, extract}
use socket_io_deno.SocketParser.Attachments.{contents, inject-extract, is_plain, are_plain}
use socket_io_deno.SocketParser.Packets.{
  PacketType, connect, disconnect, event, ack, connect_error, binary_event, binary_ack, is_binary,
  Packet, RawData, plain, binaries, encode, encode_typed, encode_extracted, as_binary,
  encode_as_string,
}
use socket_io_deno.SocketParser.Decoder.{Buffer, packet, add, add_all, injected, add_text, decoded}
use socket_io_deno.SocketParser.Decoder.Texts.{
  HasCount, IsPath, IsPrinted, IsPrintable, decode_string-encode_as_string,
}
use socket_io_deno.SocketParser.Decoder.Arrays.{
  extracted_array, kept, MayCarry, HasCount-as_binary, is_payload_valid-as_binary,
  is_payload_valid-array,
}
use socket_io_deno.SocketParser.Decoder.Binaries.{untouched, add_all-binaries}

module _ {B : Type 0} where
  -- The data in the text of a packet, and the attachments that follow it.
  abbrev pub written : PacketType → Value B → Value B
  written event v = (extract v []).0
  written ack v = (extract v []).0
  written type v = v

  abbrev pub carried : PacketType → Value B → List B
  carried event v = contents v
  carried ack v = contents v
  carried type v = []

  -- With attachments the type changes, and their number is part of the packet.
  abbrev pub marked_binary : Packet B → List B → Packet B
  marked_binary p [] = p
  marked_binary p (b ∷ bs) = record p {
    type = as_binary p.type;
    attachments = some (length (b ∷ bs));
  }

  abbrev pub received : Packet B → Packet B
  received p = marked_binary p (carried p.type p.payload)

module _ {B : Type 0} (stringify : Value B → List ℕ) (parse : List ℕ → Option (Value B)) where
  -- What the encoder may be given: a packet whose type is not a binary one, for a namespace whose
  -- name starts with "/" and holds no ",", with no data or with data that the type may have.
  abbrev pub IsSendable : Packet B → Type 0
  IsSendable p =
      (is_binary p.type ≡ false)
      × (p.attachments ≡ none)
      × IsPath p.nsp
      × (is_plain p.payload ≡ true)
      × IsPrintable stringify parse p.type (written p.type p.payload)

  -- A text without attachments is a packet at once.
  add_all-text :
      (p : Packet B)
      → p.attachments ≡ none
      → HasCount p.type p.attachments
      → IsPath p.nsp
      → IsPrintable stringify parse p.type p.payload
      → add_all parse none (plain (encode_as_string stringify p) ∷ []) ≡ (none, packet p ∷ [])
  unfolding add_all add
  add_all-text p e h k j = rw (decode_string-encode_as_string stringify parse p h k j, e) refl

  add_text-more :
      (q : Packet B) (b : B) (bs : List B)
      → q.attachments ≡ some (length (b ∷ bs))
      → HasCount q.type q.attachments
      → IsPath q.nsp
      → IsPrintable stringify parse q.type q.payload
      → add parse none (plain (encode_as_string stringify q)) ≡ (some (q, []), [])
  unfolding add
  add_text-more q b bs e h k j =
      ap (add_text parse) (decode_string-encode_as_string stringify parse q h k j)
      ∙ ap (decoded q) e

  add_all-silent :
      (d : RawData B) (buffer : Buffer B) (rest : List (RawData B))
      → add parse none d ≡ (buffer, [])
      → add_all parse none (d ∷ rest) ≡ add_all parse buffer rest
  unfolding add_all
  add_all-silent d buffer rest e = rw e refl

  -- A text with a number of attachments waits for them.
  add_all-more :
      (q : Packet B) (b : B) (bs : List B)
      → q.attachments ≡ some (length (b ∷ bs))
      → HasCount q.type q.attachments
      → IsPath q.nsp
      → IsPrintable stringify parse q.type q.payload
      → add_all parse none (plain (encode_as_string stringify q) ∷ binaries (b ∷ bs))
        ≡ (none, packet (injected q (b ∷ bs)) ∷ [])
  add_all-more q b bs e h k j =
      add_all-silent (plain (encode_as_string stringify q)) (some (q, [])) (binaries (b ∷ bs))
        (add_text-more q b bs e h k j)
      ∙ add_all-binaries parse q [] b bs e

  -- Data without attachments.
  add_all-extracted_none :
      (p : Packet B)
      → extract p.payload [] ≡ (p.payload, [])
      → p.attachments ≡ none
      → HasCount p.type p.attachments
      → IsPath p.nsp
      → IsPrintable stringify parse p.type p.payload
      → add_all parse none (encode_extracted stringify p (extract p.payload []))
        ≡ (none, packet p ∷ [])
  add_all-extracted_none p u e h k j =
      ap (λ r. add_all parse none (encode_extracted stringify p r)) u ∙ add_all-text p e h k j

  -- Data with attachments.
  add_all-extracted_more :
      (p : Packet B) (xs : Values B) (b : B) (bs : List B)
      → p.payload ≡ array xs
      → are_plain xs ≡ true
      → contents (array xs) ≡ b ∷ bs
      → HasCount (as_binary p.type) (some (length (b ∷ bs)))
      → IsPath p.nsp
      → IsPrintable stringify parse (as_binary p.type) (extract (array xs) []).0
      → add_all parse none (encode_extracted stringify p (extract (array xs) []))
        ≡ (none, packet (marked_binary (record p { payload = array xs }) (b ∷ bs)) ∷ [])
  add_all-extracted_more p xs b bs u m c h k j =
      let (found, back) = inject-extract xs m in
      let d = (extract (array xs) []).0 in
      let n = some (length (b ∷ bs)) in
      let q = record p { type = as_binary p.type; payload = d; attachments = n } in
      let restored = ap (λ l. (inject d l).0) (sym (found ∙ c)) ∙ ap (λ r. r.0) back in
      ap (λ l. add_all parse none (encode_extracted stringify p (d, l))) (found ∙ c)
      ∙ add_all-more q b bs refl h k j
      ∙ ap (λ v. (none, packet (record q { payload = v }) ∷ [])) restored

  IsPrintable-as_binary :
      (t : PacketType) (v : Value B)
      → MayCarry t
      → IsPrintable stringify parse t v
      → IsPrintable stringify parse (as_binary t) v
  unfolding IsPrintable IsPrinted
  IsPrintable-as_binary t v m (inl e) = inl e
  IsPrintable-as_binary t v m (inr h) = inr (h.0, is_payload_valid-as_binary t v m ∙ h.1, h.2, h.3)

  -- Attachments are found in arrays only.
  carried_array :
      (t : PacketType) (v : Value B) (b : B) (bs : List B)
      → MayCarry t
      → contents v ≡ b ∷ bs
      → IsPrintable stringify parse t (extract v []).0
      → (xs : Values B) × (v ≡ array xs)
  unfolding IsPrintable IsPrinted
  carried_array t v b bs m c (inl e) = absurd (kept v e b bs c)
  carried_array t v b bs m c (inr h) =
      let (ys, e) = is_payload_valid-array t (extract v []).0 m h.1 in extracted_array v ys e

  add_all-found :
      (p : Packet B) (l : List B)
      → contents p.payload ≡ l
      → MayCarry p.type
      → p.attachments ≡ none
      → HasCount p.type p.attachments
      → IsPath p.nsp
      → is_plain p.payload ≡ true
      → IsPrintable stringify parse p.type (extract p.payload []).0
      → add_all parse none (encode_extracted stringify p (extract p.payload []))
        ≡ (none, packet (marked_binary p l) ∷ [])
  unfolding are_plain is_plain
  add_all-found p [] c m e h k f j =
      let u = untouched p.payload c in
      add_all-extracted_none p u e h k (subst (λ r. IsPrintable stringify parse p.type r.0) u j)
  add_all-found p (b ∷ bs) c m e h k f j =
      let (xs, a) = carried_array p.type p.payload b bs m c j in
      ap (λ v. add_all parse none (encode_extracted stringify p (extract v []))) a
      ∙ add_all-extracted_more p xs b bs a (subst (λ v. is_plain v ≡ true) a f)
          (ap contents (sym a) ∙ c) (HasCount-as_binary p.type (length (b ∷ bs)) m) k
          (IsPrintable-as_binary p.type (extract (array xs) []).0 m
            (subst (λ v. IsPrintable stringify parse p.type (extract v []).0) a j))
      ∙ ap (λ v. (none, packet (marked_binary (record p { payload = v }) (b ∷ bs)) ∷ [])) (sym a)

  add_all-typed :
      (t : PacketType) (p : Packet B)
      → p.type ≡ t
      → p.attachments ≡ none
      → HasCount p.type p.attachments
      → IsPath p.nsp
      → is_plain p.payload ≡ true
      → IsPrintable stringify parse p.type (written t p.payload)
      → add_all parse none (encode_typed stringify t p)
        ≡ (none, packet (marked_binary p (carried t p.payload)) ∷ [])
  unfolding encode_typed
  add_all-typed event p t e h k f j = add_all-found p (contents p.payload) refl (inl t) e h k f j
  add_all-typed ack p t e h k f j = add_all-found p (contents p.payload) refl (inr t) e h k f j
  add_all-typed connect p t e h k f j = add_all-text p e h k j
  add_all-typed disconnect p t e h k f j = add_all-text p e h k j
  add_all-typed connect_error p t e h k f j = add_all-text p e h k j
  add_all-typed binary_event p t e h k f j = add_all-text p e h k j
  add_all-typed binary_ack p t e h k f j = add_all-text p e h k j

  -- Let a packet have a type other than the binary ones, the name of a namespace that starts with
  -- "/" and holds no ",", and no data, or truthy data of its type in which no object looks like a
  -- placeholder. Let `JSON.stringify` of the data, with the placeholders in it, start neither with a
  -- digit nor with "/", and let `JSON.parse` read it back. Then a decoder without a buffer that is
  -- given all that `encode` makes of the packet emits exactly one packet, the same one, with its
  -- attachments back in the data. It is left without a buffer. If an event or an acknowledgement had
  -- attachments, then the packet has the binary type and their number; all else is as it was.
  pub add_all-encode :
      (p : Packet B)
      → IsSendable p
      → add_all parse none (encode stringify p) ≡ (none, packet (received p) ∷ [])
  unfolding HasCount
  add_all-encode p (h, e, k, f, j) =
      add_all-typed p.type p refl e (subst (HasCount p.type) (sym e) h) k f j

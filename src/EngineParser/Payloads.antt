-- ===== src/EngineParser/Payloads.antt =====
-- A payload: several packets in one text.
use socket_io_deno.Common.{
  ℕ, false, Option, some, List, [], ◌∷◌, ◌==◌, ◌≡◌, ◌≢◌, refl, ap, arith, All, All-append, Lacks,
  map, split-join, join,
}
use socket_io_deno.Common.Dict.{or_empty}
use socket_io_deno.EngineParser.Base64.RoundTrip.{encode-Lacks}
use socket_io_deno.EngineParser.Packets.{IsSendable, bare, textual, binary, decode-encode_packet}
use socket_io_deno.EngineParser.{
  PacketType, open_packet, close_packet, ping, pong, message, upgrade, noop, error_packet, RawData,
  text, Packet, type_text, as_array_buffer, encode_data, encode_packet, decode_packet, decode_loop,
  decode_payload, encode_payload, separator, as_text, is_error,
}

-- The text of a packet does not hold the separator.
abbrev pub IsClean : Option RawData → Type 0
IsClean (some (text s)) = Lacks separator s
IsClean _ = Unit {0}

type_text-Lacks : (t : PacketType) → Lacks separator (type_text t)
unfolding type_text
type_text-Lacks open_packet = (refl, tt)
type_text-Lacks close_packet = (refl, tt)
type_text-Lacks ping = (refl, tt)
type_text-Lacks pong = (refl, tt)
type_text-Lacks message = (refl, tt)
type_text-Lacks upgrade = (refl, tt)
type_text-Lacks noop = (refl, tt)
type_text-Lacks error_packet = ground arith

is_error_ne : (t : PacketType) → t ≢ error_packet → is_error t ≡ false
is_error_ne error_packet h = absurd (h refl)
is_error_ne open_packet h = refl
is_error_ne _ h = refl

module _ (read_as_data_url : List ℕ → List ℕ) where
  abbrev pub IsPayload : List Packet → Type 0
  IsPayload = All (λ p. IsSendable p × IsClean p.contents)

  abbrev texts : List Packet → List (List ℕ)
  texts = map (λ q. as_text (encode_packet read_as_data_url q false))

  encode_packet-text :
      (p : Packet)
      → IsSendable p
      → IsClean p.contents
      → (encode_packet read_as_data_url p false
          ≡ text (as_text (encode_packet read_as_data_url p false)))
        × Lacks separator (as_text (encode_packet read_as_data_url p false))
  unfolding encode_packet encode_data
  encode_packet-text p (bare t h) c = (refl, type_text-Lacks t)
  encode_packet-text p (textual t d s h) c = (
    refl,
    All-append (λ k. (k == separator) ≡ false) (type_text t) (d ∷ s) (type_text-Lacks t, c),
  )
  encode_packet-text p (binary bs h) c = (refl, (refl, encode-Lacks bs h))

  texts-Lacks : (ps : List Packet) → IsPayload ps → All (Lacks separator) (texts ps)
  texts-Lacks [] h = tt
  texts-Lacks (p ∷ ps) ((h, c), hs) = ((encode_packet-text p h c).1, texts-Lacks ps hs)

  is_error-IsSendable : (p : Packet) → IsSendable p → is_error p.type ≡ false
  is_error-IsSendable p (bare t h) = is_error_ne t h
  is_error-IsSendable p (textual t c s h) = is_error_ne t h
  is_error-IsSendable p (binary bs h) = refl

  decode_loop-texts :
      (ps : List Packet) → IsPayload ps → decode_loop (texts ps) as_array_buffer ≡ ps
  unfolding decode_loop
  decode_loop-texts [] h = refl
  decode_loop-texts (p ∷ ps) ((h, c), hs) =
      let back : decode_packet (text (as_text (encode_packet read_as_data_url p false)))
            as_array_buffer
          ≡ p =
        rw (encode_packet-text p h c).0 at (decode-encode_packet read_as_data_url p false h) in
      rw (back, is_error-IsSendable p h, decode_loop-texts ps hs)

  -- A nonempty list of packets comes back from its payload, decoded to array buffers, all of them
  -- and in order, if each is of a type of the protocol other than the error packet and has no data or
  -- a nonempty text that does not hold the separator, or is a message with the bytes of an
  -- ArrayBuffer. Views, Blobs, empty texts, and binary data in a packet that is not a message are not
  -- meant.
  pub decode-encode_payload :
      (p : Packet) (ps : List Packet) (s : List ℕ)
      → IsPayload (p ∷ ps)
      → encode_payload read_as_data_url (p ∷ ps) ≡ some s
      → decode_payload s as_array_buffer ≡ p ∷ ps
  unfolding encode_payload decode_payload
  decode-encode_payload p ps s h e =
      let e' : join separator (texts (p ∷ ps)) ≡ s = ap or_empty e in
      rw (← e', split-join separator _ (texts ps) (texts-Lacks (p ∷ ps) h))
        (decode_loop-texts (p ∷ ps) h)

-- ===== src/SocketParser/Tests.antt =====
-- The theorems about the attachments of a packet at concrete inputs.
use socket_io_deno.Common.{
  ℕ, [], ◌∷◌, ◌≡◌, refl, List, Option, none, arith, some, inr, if◌then◌else◌, same_text,
}
use socket_io_deno.EngineParser.Base64.{codes}
use socket_io_deno.SocketParser.{
  Value, text, attachment, array, object, Values, no_values, next_value, no_fields, next_field,
  extract, inject,
}
use socket_io_deno.SocketParser.Attachments.{contents, inject-extract, contents-extract, is_plain}
use socket_io_deno.SocketParser.Packets.{
  Packet, type_code, RawData, plain, binary, encode, binary_event,
}
use socket_io_deno.SocketParser.Packets
use socket_io_deno.SocketParser.Decoder.{is_payload_valid, packet, add_all}
use socket_io_deno.SocketParser.Decoder.Texts.{IsPath, IsPrinted, IsPrintable, OpensJson, HasCount}
use socket_io_deno.SocketParser.Decoder.RoundTrip.{received, add_all-encode}
use socket_io_deno.SocketParser.Decoder.Valid.{IsTyped, IsWaiting, AreTyped, add_all-Waiting}

-- `["image", { bytes: 7 }, 8]`, where 7 and 8 are attachments.
abbrev event : Values ℕ
event = next_value (text (codes "image")) (
    next_value (object (next_field (codes "bytes") (attachment 7) no_fields))
      (next_value (attachment 8) no_values))

found : (extract (array event) []).1 ≡ 7 ∷ 8 ∷ []
unfolding extract
found = refl

taken_out_and_put_in :
    ((extract (array event) []).1 ≡ contents (array event))
    × (inject (extract (array event) []).0 (extract (array event) []).1 ≡ (array event, []))
unfolding is_plain
taken_out_and_put_in = inject-extract event refl

nothing_left : contents (extract (array event) (5 ∷ [])).0 ≡ []
nothing_left = contents-extract event (5 ∷ [])

-- The event above, printed, and a `JSON` that knows it.
abbrev event_text : List ℕ
event_text =
    codes
      "[\"image\",{\"bytes\":{\"_placeholder\":true,\"num\":0}},{\"_placeholder\":true,\"num\":1}]"

abbrev printed_event : Value ℕ
printed_event = (extract (array event) []).0

abbrev print : Value ℕ → List ℕ
print v = event_text

abbrev read : List ℕ → Option (Value ℕ)
read s = if same_text s event_text then some printed_event else none

abbrev event_packet : Packet ℕ
event_packet = record {
  type = Packets.event;
  nsp = codes "/chat";
  payload = array event;
  id = some 12;
  attachments = none;
}

abbrev waiting_packet : Packet ℕ
waiting_packet = record {
  type = binary_event;
  nsp = codes "/chat";
  payload = printed_event;
  id = some 12;
  attachments = some 2;
}

add_all-encode_example :
    add_all read none (encode print event_packet) ≡ (none, packet (received event_packet) ∷ [])
unfolding is_payload_valid is_plain IsPath IsPrintable IsPrinted OpensJson extract
add_all-encode_example = add_all-encode print read event_packet (
  refl,
  refl,
  (refl, (refl, (refl, (refl, (refl, tt))))),
  refl,
  inr (refl, refl, (refl, refl), refl),
)

abbrev chunks : List (RawData ℕ)
chunks = binary 7 ∷ binary 8 ∷ plain (codes "2/chat,12[") ∷ plain (0x32 ∷ event_text) ∷ []

add_all-Waiting_example :
    let r = add_all read (some (waiting_packet, 5 ∷ [])) chunks in IsWaiting r.0 × AreTyped r.1
unfolding is_payload_valid IsWaiting IsTyped IsPath HasCount extract
add_all-Waiting_example =
    add_all-Waiting read (some (waiting_packet, 5 ∷ [])) chunks
      ((refl, (refl, (refl, (refl, (refl, (refl, tt))))), inr refl), (2, refl, omega arith))

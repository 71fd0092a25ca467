-- ===== src/EngineParser.antt =====
-- packages/engine.io-parser/mod.ts: the packets of Engine.IO and their text form. A string is the
-- list of its UTF-16 code units, a buffer the list of its bytes.
pub mod Base64
pub mod Packets
pub mod Payloads
mod Tests
use socket_io_deno.Common.{
  ℕ, zero, suc, ◌+◌, ◌-◌, Bool, true, false, Option, none, some, List, [], ◌∷◌, ◌++◌, map, ◌==◌,
  if◌then◌else◌, take, drop, split, join,
}
use Base64.{codes, encode_to_base64, decode_from_base64}

-- `PacketType`; `error_packet` is "error".
pub data PacketType : Type 0 where
  open_packet close_packet ping pong message upgrade noop error_packet : PacketType

-- `RawData`. A view has its buffer, its offset and its length.
pub data RawData : Type 0 where
  text : List ℕ → RawData
  array_buffer : List ℕ → RawData
  view : List ℕ → ℕ → ℕ → RawData
  blob : List ℕ → RawData

pub record Packet : Type 0 where
  pub type : PacketType
  pub contents : Option RawData

-- `PACKET_TYPES.get(type)`, as a text: "undefined" for a type that is not in the map.
unfoldable pub type_text : PacketType → List ℕ
type_text open_packet = codes "0"
type_text close_packet = codes "1"
type_text ping = codes "2"
type_text pong = codes "3"
type_text message = codes "4"
type_text upgrade = codes "5"
type_text noop = codes "6"
type_text error_packet = codes "undefined"

-- `PACKET_TYPES_REVERSE.get(typeChar)`
unfoldable pub type_of_code : ℕ → Option PacketType
type_of_code c =
    if c == b'0'
    then some open_packet
    else if c == b'1'
    then some close_packet
    else if c == b'2'
    then some ping
    else if c == b'3'
    then some pong
    else if c == b'4'
    then some message
    else if c == b'5'
    then some upgrade
    else if c == b'6'
    then some noop
    else none

-- `ERROR_PACKET`
abbrev pub parser_error : Packet
parser_error = record { type = error_packet; contents = some (text (codes "parser error")) }

pub data BinaryType : Type 0 where
  as_array_buffer as_blob : BinaryType

-- `mapBinary`; the bytes of a value, where a `Blob` is made of it.
unfoldable pub bytes_of : RawData → List ℕ
bytes_of (text s) = s
bytes_of (array_buffer bs) = bs
bytes_of (view bs offset length) = take length (drop offset bs)
bytes_of (blob bs) = bs

unfoldable pub map_binary : RawData → BinaryType → RawData
unfolding bytes_of
map_binary d as_array_buffer = d
map_binary d as_blob = blob (bytes_of d)

-- `split(",")[1]`
abbrev second : List (List ℕ) → List ℕ
second [] = codes "undefined"
second (x ∷ []) = codes "undefined"
second (x ∷ y ∷ xs) = y

-- `SEPARATOR`
abbrev pub separator : ℕ
separator = 30

-- An encoded packet of a payload is a text.
abbrev pub as_text : RawData → List ℕ
as_text (text s) = s
as_text _ = []

-- `read_as_data_url` is what `FileReader.readAsDataURL` gives for the bytes of a `Blob`.
module _ (read_as_data_url : List ℕ → List ℕ) where
  unfoldable pub encode_blob_as_base64 : List ℕ → RawData
  encode_blob_as_base64 bs = text (b'b' ∷ second (split b',' (read_as_data_url bs)))

  -- The branches of `encodePacket` on the data. A view is encoded by the buffer that it lies in:
  -- `array.buffer` is that buffer whole.
  unfoldable pub encode_data : PacketType → RawData → Bool → RawData
  unfolding type_text encode_to_base64 encode_blob_as_base64
  encode_data type (blob bs) supports_binary =
      if supports_binary then blob bs else encode_blob_as_base64 bs
  encode_data type (array_buffer bs) supports_binary =
      if supports_binary then array_buffer bs else text (b'b' ∷ encode_to_base64 bs)
  encode_data type (view bs offset length) supports_binary =
      if supports_binary then view bs offset length else text (b'b' ∷ encode_to_base64 bs)
  encode_data type (text s) supports_binary = text (type_text type ++ s)

  -- What `encodePacket` hands to its callback.
  unfoldable pub encode_packet : Packet → Bool → RawData
  unfolding encode_data type_text
  encode_packet p supports_binary = elim p.contents [
    | none ↦ text (type_text p.type)
    | some d ↦ encode_data p.type d supports_binary
  ]

  -- What `encodePayload` hands to its callback, which is not called for no packet.
  unfoldable pub encode_payload : List Packet → Option (List ℕ)
  unfolding encode_packet join
  encode_payload [] = none
  encode_payload (p ∷ ps) =
      some (join separator (map (λ q. as_text (encode_packet q false)) (p ∷ ps)))

-- What stands behind the type, if anything does.
abbrev rest_data : List ℕ → Option RawData
rest_data [] = none
rest_data (c ∷ s) = some (text (c ∷ s))

-- `decodePacket` on a text: the first character tells the type.
unfoldable pub decode_text : List ℕ → BinaryType → Packet
unfolding type_of_code map_binary decode_from_base64
decode_text [] binary_type = parser_error
decode_text (c ∷ rest) binary_type =
    if c == b'b'
    then record {
      type = message;
      contents = some (map_binary (array_buffer (decode_from_base64 rest)) binary_type);
    }
    else elim (type_of_code c) [
      | none ↦ parser_error
      | some type ↦ record { type = type; contents = rest_data rest }
    ]

unfoldable pub decode_packet : RawData → BinaryType → Packet
unfolding decode_text map_binary
decode_packet (text s) binary_type = decode_text s binary_type
decode_packet d binary_type = record { type = message; contents = some (map_binary d binary_type) }

abbrev is_error : PacketType → Bool
is_error error_packet = true
is_error _ = false

-- The loop of `decodePayload`, which stops behind the first error.
unfoldable pub decode_loop : List (List ℕ) → BinaryType → List Packet
unfolding decode_packet
decode_loop [] binary_type = []
decode_loop (s ∷ rest) binary_type =
    let p = decode_packet (text s) binary_type in
    let more = decode_loop rest binary_type in if is_error p.type then p ∷ [] else p ∷ more

unfoldable pub decode_payload : List ℕ → BinaryType → List Packet
unfolding split decode_loop
decode_payload s binary_type = decode_loop (split separator s) binary_type

-- ===== src/SocketParser/Packets.antt =====
-- packages/socket.io-parser/mod.ts: packets and `Encoder`. `JSON.stringify` is a parameter. The
-- packet that `encode` changes in place is not given back.
use socket_io_deno.Common.{
  ℕ, zero, ◌+◌, Bool, true, false, Option, none, some, List, [], ◌∷◌, ◌++◌, ◌==◌, length,
  if◌then◌else◌, same_text,
}
use socket_io_deno.Common.Decimal.{decimal}
use socket_io_deno.EngineParser.Base64.{codes}
use socket_io_deno.SocketParser.{Value, missing, null, flag, number, text, extract}

pub data PacketType : Type 0 where
  connect disconnect event ack connect_error binary_event binary_ack : PacketType

-- The number of a type, and `PacketType[type]`.
abbrev pub type_code : PacketType → ℕ
type_code connect = 0
type_code disconnect = 1
type_code event = 2
type_code ack = 3
type_code connect_error = 4
type_code binary_event = 5
type_code binary_ack = 6

unfoldable pub type_of : ℕ → Option PacketType
type_of c =
    if c == 48
    then some connect
    else if c == 49
    then some disconnect
    else if c == 50
    then some event
    else if c == 51
    then some ack
    else if c == 52
    then some connect_error
    else if c == 53
    then some binary_event
    else if c == 54
    then some binary_ack
    else none

abbrev pub is_binary : PacketType → Bool
is_binary binary_event = true
is_binary binary_ack = true
is_binary _ = false

-- A packet without data has the payload `missing`.
pub record Packet (B : Type 0) : Type 0 where
  pub type : PacketType
  pub nsp : List ℕ
  pub payload : Value B
  pub id : Option ℕ
  pub attachments : Option ℕ

-- `RawData`
pub data RawData (B : Type 0) : Type 0 where
  plain : List ℕ → RawData B
  binary : B → RawData B

abbrev pub root : List ℕ
root = 0x2f ∷ []

-- `if (packet.data)`
abbrev pub is_truthy : {B : Type 0} → Value B → Bool
is_truthy missing = false
is_truthy null = false
is_truthy (flag b) = b
is_truthy (number zero) = false
is_truthy (text []) = false
is_truthy _ = true

-- The parts of the text, in its order.
abbrev pub count_part : PacketType → Option ℕ → List ℕ
count_part type none = if is_binary type then codes "undefined-" else []
count_part type (some n) = if is_binary type then decimal n ++ 0x2d ∷ [] else []

abbrev pub namespace_part : List ℕ → List ℕ
namespace_part nsp = if same_text nsp root then [] else nsp ++ 0x2c ∷ []

abbrev pub id_part : Option ℕ → List ℕ
id_part none = []
id_part (some n) = decimal n

-- The type of a packet with attachments.
abbrev pub as_binary : PacketType → PacketType
as_binary event = binary_event
as_binary ack = binary_ack
as_binary type = type

abbrev pub binaries : {B : Type 0} → List B → List (RawData B)
binaries [] = []
binaries (b ∷ bs) = binary b ∷ binaries bs

module _ {B : Type 0} (stringify : Value B → List ℕ) where
  abbrev pub data_part : Value B → List ℕ
  data_part v = if is_truthy v then stringify v else []

  unfoldable pub encode_as_string : Packet B → List ℕ
  encode_as_string p =
      (48 + type_code p.type)
      ∷ (count_part p.type p.attachments
          ++ (namespace_part p.nsp ++ (id_part p.id ++ data_part p.payload)))

  -- `Encoder.encode` of an event or an acknowledgement, after `extractAttachments`.
  abbrev pub encode_extracted : Packet B → Value B × List B → List (RawData B)
  encode_extracted p (v, []) = plain (encode_as_string (record p { payload = v })) ∷ []
  encode_extracted p (v, b ∷ bs) =
      plain (
        encode_as_string
          (record p { payload = v; type = as_binary p.type; attachments = some (length (b ∷ bs)) }))
      ∷ binaries (b ∷ bs)

  unfoldable pub encode_typed : PacketType → Packet B → List (RawData B)
  unfolding extract encode_as_string
  encode_typed event p = encode_extracted p (extract p.payload [])
  encode_typed ack p = encode_extracted p (extract p.payload [])
  encode_typed _ p = plain (encode_as_string p) ∷ []

  abbrev pub encode : Packet B → List (RawData B)
  encode p = encode_typed p.type p

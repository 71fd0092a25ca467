-- ===== src/SocketParser/Decoder.antt =====
-- packages/socket.io-parser/mod.ts: `Decoder`. `JSON.parse` is a parameter: `none` stands for an
-- exception. Where the code moves a cursor, these functions keep what stands behind it.
pub mod Arrays
pub mod Binaries
pub mod RoundTrip
pub mod Texts
pub mod Valid
use socket_io_deno.Common.{
  ℕ, zero, suc, ◌+◌, ◌-◌, Bool, true, false, not, ◌&&◌, ◌||◌, Option, none, some, List, [], ◌∷◌,
  ◌++◌, ◌==◌, ltb, leb, length, if◌then◌else◌,
}
use socket_io_deno.Common.Decimal.{is_digit, span_digits, value_of_digits}
use socket_io_deno.SocketParser.{
  Value, missing, null, date, text, attachment, array, object, next_value, inject,
}
use socket_io_deno.SocketParser.Packets.{
  PacketType, connect, disconnect, event, ack, connect_error, binary_event, binary_ack, type_of,
  is_binary, Packet, RawData, plain, binary, root,
}

-- The text before the first `mark`, and the text behind it; none when there is no `mark`.
unfoldable pub until : ℕ → List ℕ → List ℕ × Option (List ℕ)
until mark [] = ([], none)
until mark (c ∷ s) = let r = until mark s in if c == mark then ([], some s) else (c ∷ r.0, r.1)

-- White space and line terminators of JavaScript.
abbrev pub is_white : ℕ → Bool
is_white c =
    leb 9 c && leb c 13
    || c == 0x20
    || c == 0xa0
    || c == 0x1680
    || leb 0x2000 c && leb c 0x200a
    || c == 0x2028
    || c == 0x2029
    || c == 0x202f
    || c == 0x205f
    || c == 0x3000
    || c == 0xfeff

unfoldable pub skip_white : List ℕ → List ℕ
skip_white [] = []
skip_white (c ∷ s) = let rest = skip_white s in if is_white c then rest else c ∷ s

abbrev pub skip_plus : List ℕ → List ℕ
skip_plus [] = []
skip_plus (c ∷ s) = if c == 0x2b then s else c ∷ s

abbrev pub read_number : List ℕ → Option ℕ
read_number [] = none
read_number (c ∷ s) = some (value_of_digits 0 (c ∷ s))

-- `parseInt(s, 10)` of a text without "-"; `none` is `NaN`.
abbrev pub parse_int : List ℕ → Option ℕ
parse_int s = read_number (span_digits (skip_plus (skip_white s))).0

abbrev pub with_count : Option ℕ → List ℕ → Option (Option ℕ × List ℕ)
with_count none rest = none
with_count (some n) rest = some (some n, rest)

abbrev pub counted : List ℕ × Option (List ℕ) → Option (Option ℕ × List ℕ)
counted (digits, none) = none
counted (digits, some rest) = with_count (parse_int digits) rest

-- `packet.attachments`
abbrev pub read_count : PacketType → List ℕ → Option (Option ℕ × List ℕ)
read_count type s = if is_binary type then counted (until 0x2d s) else some (none, s)

abbrev pub behind : Option (List ℕ) → List ℕ
behind none = []
behind (some s) = s

-- `packet.nsp`
abbrev pub read_namespace : List ℕ → List ℕ × List ℕ
read_namespace [] = (root, [])
read_namespace (c ∷ s) =
    let r = until 0x2c (c ∷ s) in if c == 0x2f then (r.0, behind r.1) else (root, c ∷ s)

-- `packet.id`
abbrev pub read_id : List ℕ → Option ℕ × List ℕ
read_id [] = (none, [])
read_id (c ∷ s) =
    let r = span_digits (c ∷ s) in
    if is_digit c then (some (value_of_digits 0 r.0), r.1) else (none, c ∷ s)

-- `typeof payload === "object"`
abbrev pub is_object : {B : Type 0} → Value B → Bool
is_object null = true
is_object (date n) = true
is_object (attachment b) = true
is_object (array xs) = true
is_object (object fs) = true
is_object _ = false

-- `typeof payload === "string"`
abbrev pub is_text : {B : Type 0} → Value B → Bool
is_text (text s) = true
is_text _ = false

abbrev pub is_missing : {B : Type 0} → Value B → Bool
is_missing missing = true
is_missing _ = false

-- `Array.isArray(payload)`
abbrev pub is_array : {B : Type 0} → Value B → Bool
is_array (array xs) = true
is_array _ = false

-- `payload.length > 0`, of an array.
abbrev pub is_filled : {B : Type 0} → Value B → Bool
is_filled (array (next_value v rest)) = true
is_filled _ = false

unfoldable pub is_payload_valid : {B : Type 0} → PacketType → Value B → Bool
is_payload_valid connect v = is_object v
is_payload_valid disconnect v = is_missing v
is_payload_valid connect_error v = is_text v || is_object v
is_payload_valid event v = is_array v && is_filled v
is_payload_valid binary_event v = is_array v && is_filled v
is_payload_valid ack v = is_array v
is_payload_valid binary_ack v = is_array v

-- `this.buffer`: the packet that waits, and its attachments so far.
abbrev pub Buffer : Type 0 → Type 0
Buffer B = Option (Packet B × List B)

pub data DecoderEvent (B : Type 0) : Type 0 where
  packet : Packet B → DecoderEvent B
  error : DecoderEvent B

-- `attachments.length === packet.attachments`
abbrev pub is_count : ℕ → Option ℕ → Bool
is_count n none = false
is_count n (some m) = n == m

module _ {B : Type 0} where
  abbrev pub with_data :
      PacketType → List ℕ → Option ℕ → Option ℕ → Option (Value B) → Option (Packet B)
  with_data type nsp count id none = none
  with_data type nsp count id (some v) =
      some (record { type = type; nsp = nsp; payload = v; id = id; attachments = count })

  -- `if (packet.attachments)`
  abbrev pub decoded : Packet B → Option ℕ → Buffer B × List (DecoderEvent B)
  decoded p (some (suc n)) = (some (p, []), [])
  decoded p _ = (none, packet p ∷ [])

  abbrev pub injected : Packet B → List B → Packet B
  injected p got = record p { payload = (inject p.payload got).0 }

  -- `Decoder.destroy`
  abbrev pub destroy : Buffer B → Buffer B
  destroy buffer = none

module _ {B : Type 0} (parse : List ℕ → Option (Value B)) where
  abbrev pub checked : PacketType → Option (Value B) → Option (Value B)
  checked type none = none
  checked type (some v) = if is_payload_valid type v then some v else none

  abbrev pub read_data : PacketType → List ℕ → Option (Value B)
  read_data type [] = some missing
  read_data type (c ∷ s) = checked type (parse (c ∷ s))

  abbrev pub decode_parts : PacketType → Option (Option ℕ × List ℕ) → Option (Packet B)
  decode_parts type none = none
  decode_parts type (some (count, s)) =
      let nsp = read_namespace s in
      let id = read_id nsp.1 in with_data type nsp.0 count id.0 (read_data type id.1)

  abbrev pub decode_typed : Option PacketType → List ℕ → Option (Packet B)
  decode_typed none s = none
  decode_typed (some type) s = decode_parts type (read_count type s)

  unfoldable pub decode_string : List ℕ → Option (Packet B)
  decode_string [] = none
  decode_string (c ∷ s) = decode_typed (type_of c) s

  abbrev pub add_text : Option (Packet B) → Buffer B × List (DecoderEvent B)
  add_text none = (none, error ∷ [])
  add_text (some p) = decoded p p.attachments

  -- `Decoder.add`: the buffer after it, and what it emits.
  unfoldable pub add : Buffer B → RawData B → Buffer B × List (DecoderEvent B)
  add (some waiting) (plain s) = (some waiting, error ∷ [])
  add none (plain s) = add_text (decode_string s)
  add none (binary b) = (none, error ∷ [])
  add (some (p, got)) (binary b) =
      let all = got ++ b ∷ [] in
      if is_count (length all) p.attachments
      then (none, packet (injected p all) ∷ [])
      else (some (p, all), [])

  -- A run of the decoder.
  unfoldable pub add_all : Buffer B → List (RawData B) → Buffer B × List (DecoderEvent B)
  add_all buffer [] = (buffer, [])
  add_all buffer (d ∷ rest) = let r = add buffer d in let s = add_all r.0 rest in (s.0, r.1 ++ s.1)

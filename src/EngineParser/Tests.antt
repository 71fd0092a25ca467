-- ===== src/EngineParser/Tests.antt =====
-- The theorems about the Engine.IO parser at concrete inputs.
use socket_io_deno.Common.{
  ℕ, true, false, some, List, [], ◌∷◌, ◌++◌, ◌≡◌, ◌≢◌, refl, length, All, arith,
}
use socket_io_deno.EngineParser.Base64.{codes, encode_to_base64, decode_from_base64, generate_id}
use socket_io_deno.EngineParser.Base64.RoundTrip.{decode-encode, generate_id-is_id_char, is_id_char}
use socket_io_deno.EngineParser.Packets.{
  IsSendable, textual, binary, decode-encode_packet, decode-encode_packet_view,
}
use socket_io_deno.EngineParser.Payloads.{decode-encode_payload}
use socket_io_deno.EngineParser.{
  Packet, message, text, array_buffer, view, as_array_buffer, encode_packet, decode_packet,
  encode_payload, decode_payload, bytes_of,
}

encoded_hello : encode_to_base64 (codes "hello") ≡ codes "aGVsbG8="
unfolding encode_to_base64
encoded_hello = refl

decode-encode_example :
    decode_from_base64 (encode_to_base64 (1 ∷ 2 ∷ 3 ∷ 4 ∷ [])) ≡ 1 ∷ 2 ∷ 3 ∷ 4 ∷ []
decode-encode_example = decode-encode (1 ∷ 2 ∷ 3 ∷ 4 ∷ []) (omega arith)

abbrev random : List ℕ
random = 0 ∷ 1 ∷ 2 ∷ 3 ∷ 4 ∷ 5 ∷ 6 ∷ 7 ∷ 8 ∷ 9 ∷ 10 ∷ 11 ∷ 12 ∷ 254 ∷ 255 ∷ []

generate_id-is_id_char_example :
    (length (generate_id random) ≡ 20) × All (λ c. is_id_char c ≡ true) (generate_id random)
generate_id-is_id_char_example = generate_id-is_id_char random (omega arith) refl

-- No `Blob` is read.
abbrev no_reader : List ℕ → List ℕ
no_reader bs = []

abbrev greeting : Packet
greeting = record { type = message; contents = some (text (codes "hi")) }

abbrev bytes : Packet
bytes = record { type = message; contents = some (array_buffer (1 ∷ 255 ∷ [])) }

greeting-IsSendable : IsSendable greeting
greeting-IsSendable = textual message b'h' (codes "i") (λ e. cc)

bytes-IsSendable : IsSendable bytes
bytes-IsSendable = binary (1 ∷ 255 ∷ []) (omega arith)

decode-encode_packet_example :
    decode_packet (encode_packet no_reader bytes false) as_array_buffer ≡ bytes
decode-encode_packet_example = decode-encode_packet no_reader bytes false bytes-IsSendable

decode-encode_packet_view_example :
    let p : Packet = record { type = message; contents = some (view (1 ∷ 2 ∷ 3 ∷ []) 1 2) } in
    let q = decode_packet (encode_packet no_reader p false) as_array_buffer in
    (q ≡ record { type = message; contents = some (array_buffer (1 ∷ 2 ∷ 3 ∷ [])) })
    × (q.contents ≢ some (array_buffer (bytes_of (view (1 ∷ 2 ∷ 3 ∷ []) 1 2))))
decode-encode_packet_view_example =
    decode-encode_packet_view no_reader (1 ∷ 2 ∷ 3 ∷ []) 1 2 (omega arith) (omega arith)

-- The two texts with the separator between them.
abbrev payload : List ℕ
payload = codes "4hi" ++ 30 ∷ codes "bAf8="

decode-encode_payload_example : decode_payload payload as_array_buffer ≡ greeting ∷ bytes ∷ []
unfolding encode_payload
decode-encode_payload_example =
    decode-encode_payload no_reader greeting (bytes ∷ []) payload
      ((greeting-IsSendable, (refl, (refl, tt))), ((bytes-IsSendable, tt), tt)) refl

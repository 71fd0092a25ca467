-- ===== src/EngineParser/Packets.antt =====
-- One packet, encoded and decoded.
use socket_io_deno.Common.{
  ℕ, ◌<◌, Bool, true, false, none, some, List, [], ◌∷◌, ◌++◌, ◌≡◌, ◌≢◌, refl, ap, arith, All,
  length, drop, sym, ◌∙◌, length-take-le,
}
use mathlib.Core.List.{append-nil}
use socket_io_deno.EngineParser.Base64.Indices.{IsByte}
use socket_io_deno.EngineParser.Base64.RoundTrip.{decode-encode}
use socket_io_deno.EngineParser.{
  PacketType, open_packet, close_packet, ping, pong, message, upgrade, noop, error_packet, text,
  array_buffer, view, Packet, type_text, BinaryType, as_array_buffer, map_binary, encode_data,
  encode_packet, decode_text, decode_packet, rest_data, bytes_of,
}

-- Packets whose encoded form tells them: of a type of the protocol other than the error packet, with
-- no data or a nonempty text, or a message with the bytes of an ArrayBuffer. Not among them are
-- views, Blobs, empty texts, and binary data in a packet that is not a message.
pub data IsSendable : Packet → Type 0 where
  bare : (t : PacketType) → t ≢ error_packet → IsSendable (record { type = t; contents = none })
  textual :
      (t : PacketType) (c : ℕ) (s : List ℕ)
      → t ≢ error_packet
      → IsSendable (record { type = t; contents = some (text (c ∷ s)) })
  binary :
      (bs : List ℕ)
      → All IsByte bs
      → IsSendable (record { type = message; contents = some (array_buffer bs) })

decode_text-type :
    (t : PacketType) (s : List ℕ) (b : BinaryType)
    → t ≢ error_packet
    → decode_text (type_text t ++ s) b ≡ record { type = t; contents = rest_data s }
unfolding decode_text type_text
decode_text-type open_packet s b h = refl
decode_text-type close_packet s b h = refl
decode_text-type ping s b h = refl
decode_text-type pong s b h = refl
decode_text-type message s b h = refl
decode_text-type upgrade s b h = refl
decode_text-type noop s b h = refl
decode_text-type error_packet s b h = absurd (h refl)

array_buffer-injective :
    {xs ys : List ℕ} → some (array_buffer xs) ≡ some (array_buffer ys) → xs ≡ ys
array_buffer-injective e = cc

module _ (read_as_data_url : List ℕ → List ℕ) where
  -- A packet of a type of the protocol other than the error packet, with no data or with a nonempty
  -- text, or a message with the bytes of an ArrayBuffer, comes back as it was if it is encoded and
  -- then decoded to array buffers, whether the transport carries binary data or not. Views, Blobs,
  -- empty texts, and binary data in a packet that is not a message are not meant.
  pub decode-encode_packet :
      (p : Packet) (supports_binary : Bool)
      → IsSendable p
      → decode_packet (encode_packet read_as_data_url p supports_binary) as_array_buffer ≡ p
  unfolding encode_packet decode_packet encode_data
  decode-encode_packet p b (bare t h) = rw append-nil at (decode_text-type t [] as_array_buffer h)
  decode-encode_packet p b (textual t c s h) = decode_text-type t (c ∷ s) as_array_buffer h
  decode-encode_packet p true (binary bs h) = unfold map_binary in refl
  decode-encode_packet p false (binary bs h) =
      unfold map_binary decode_text in rw (decode-encode bs h)

  -- A view that is shorter than its buffer of bytes, sent where the transport carries no binary data,
  -- arrives as the whole buffer, and so not as the bytes of the view.
  pub decode-encode_packet_view :
      (bs : List ℕ) (offset n : ℕ)
      → All IsByte bs
      → n < length bs
      → let p : Packet = record { type = message; contents = some (view bs offset n) } in
        let q = decode_packet (encode_packet read_as_data_url p false) as_array_buffer in
        (q ≡ record { type = message; contents = some (array_buffer bs) })
        × (q.contents ≢ some (array_buffer (bytes_of (view bs offset n))))
  unfolding encode_packet decode_packet decode_text map_binary bytes_of
  decode-encode_packet_view bs offset n h short = (
    rw (decode-encode bs h),
    λ e. absurd (
        omega (
          arith,
          short,
          length-take-le n (drop offset bs),
          ap length (sym (decode-encode bs h) ∙ array_buffer-injective e),
        )),
  )

-- ===== src/SocketParser/Decoder/Arrays.antt =====
-- packages/socket.io-parser/mod.ts: the data in which `Encoder` looks for attachments is an array.
use socket_io_deno.Common.{
  ℕ, true, some, List, [], ◌∷◌, ◌≡◌, ◌≢◌, refl, sym, subst, ◌∙◌, ◌⊎◌, inl, inr,
}
use socket_io_deno.SocketParser.{
  Value, missing, null, flag, number, date, text, attachment, object, array, Values, extract,
  extract_element,
}
use socket_io_deno.SocketParser.Attachments.{contents, both}
use socket_io_deno.SocketParser.Packets.{PacketType, event, ack, as_binary}
use socket_io_deno.SocketParser.Decoder.{is_payload_valid, is_array, is_filled}
use socket_io_deno.SocketParser.Decoder.Texts.{HasCount}

-- Only an array becomes an array.
pub extracted_array :
    {B : Type 0} (v : Value B) (ys : Values B)
    → (extract v []).0 ≡ array ys
    → (xs : Values B) × (v ≡ array xs)
unfolding extract extract_element
extracted_array (array xs) ys h = (xs, refl)
extracted_array missing ys h = absurd (cc)
extracted_array null ys h = absurd (cc)
extracted_array (flag b) ys h = absurd (cc)
extracted_array (number n) ys h = absurd (cc)
extracted_array (date n) ys h = absurd (cc)
extracted_array (text s) ys h = absurd (cc)
extracted_array (attachment b) ys h = absurd (cc)
extracted_array (object fs) ys h = absurd (cc)

extracted_missing : {B : Type 0} (v : Value B) → (extract v []).0 ≡ missing → contents v ≡ []
unfolding extract extract_element contents
extracted_missing missing e = refl
extracted_missing null e = refl
extracted_missing (flag b) e = refl
extracted_missing (number n) e = refl
extracted_missing (date n) e = refl
extracted_missing (text s) e = refl
extracted_missing (attachment b) e = absurd (cc)
extracted_missing (array xs) e = absurd (cc)
extracted_missing (object fs) e = absurd (cc)

pub kept :
    {B : Type 0} (v : Value B)
    → (extract v []).0 ≡ missing
    → (b : B) (bs : List B) → contents v ≢ b ∷ bs
kept v e b bs c = cc (sym c ∙ extracted_missing v e)

-- The two types whose data is looked through for attachments.
abbrev pub MayCarry : PacketType → Type 0
MayCarry t = (t ≡ event) ⊎ (t ≡ ack)

pub HasCount-as_binary : (t : PacketType) (n : ℕ) → MayCarry t → HasCount (as_binary t) (some n)
unfolding HasCount
HasCount-as_binary t n (inl e) = rw e refl
HasCount-as_binary t n (inr e) = rw e refl

pub is_payload_valid-as_binary :
    {B : Type 0} (t : PacketType) (v : Value B)
    → MayCarry t
    → is_payload_valid (as_binary t) v ≡ is_payload_valid t v
unfolding is_payload_valid
is_payload_valid-as_binary t v (inl e) = rw e refl
is_payload_valid-as_binary t v (inr e) = rw e refl

is_array-array : {B : Type 0} (v : Value B) → is_array v ≡ true → (xs : Values B) × (v ≡ array xs)
is_array-array (array xs) h = (xs, refl)
is_array-array missing h = absurd (cc)
is_array-array null h = absurd (cc)
is_array-array (flag b) h = absurd (cc)
is_array-array (number n) h = absurd (cc)
is_array-array (date n) h = absurd (cc)
is_array-array (text s) h = absurd (cc)
is_array-array (attachment b) h = absurd (cc)
is_array-array (object fs) h = absurd (cc)

-- Their data is an array.
pub is_payload_valid-array :
    {B : Type 0} (t : PacketType) (v : Value B)
    → MayCarry t
    → is_payload_valid t v ≡ true
    → (xs : Values B) × (v ≡ array xs)
unfolding is_payload_valid
is_payload_valid-array t v (inl e) h =
    let k = subst (λ t. is_payload_valid t v ≡ true) e h in
    is_array-array v (both (is_array v) (is_filled v) k).0
is_payload_valid-array t v (inr e) h =
    is_array-array v (subst (λ t. is_payload_valid t v ≡ true) e h)

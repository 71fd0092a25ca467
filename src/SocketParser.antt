-- ===== src/SocketParser.antt =====
-- packages/socket.io-parser/mod.ts: the binary attachments of a packet, which travel behind the text
-- of the packet. A text is the list of its code units; an attachment is a value of `B`.
pub mod Attachments
pub mod Packets
pub mod Decoder
mod Tests
use socket_io_deno.Common.{
  ℕ, suc, Bool, true, false, not, ◌&&◌, ◌||◌, Option, none, some, List, [], ◌∷◌, ◌++◌, ◌==◌, length,
  if◌then◌else◌, same_text,
}
use socket_io_deno.EngineParser.Base64.{codes}

-- The data of a packet. `date` is an object that is not looked into; `missing` is `undefined`.
mutual
  pub data Value (B : Type 0) : Type 0 where
    missing null : Value B
    flag : Bool → Value B
    number date : ℕ → Value B
    text : List ℕ → Value B
    attachment : B → Value B
    array : Values B → Value B
    object : Fields B → Value B

  pub data Values (B : Type 0) : Type 0 where
    no_values : Values B
    next_value : Value B → Values B → Values B

  pub data Fields (B : Type 0) : Type 0 where
    no_fields : Fields B
    next_field : List ℕ → Value B → Fields B → Fields B

module _ {B : Type 0} where
  -- `{ _placeholder: true, num }`
  abbrev pub placeholder : ℕ → Value B
  placeholder num = object (
      next_field (codes "_placeholder") (flag true)
        (next_field (codes "num") (number num) no_fields))

  -- `elem && elem._placeholder === true`
  abbrev pub is_true : Value B → Bool
  is_true (flag b) = b
  is_true _ = false

  unfoldable pub marked : Fields B → Bool
  marked no_fields = false
  marked (next_field key v rest) =
      if same_text key (codes "_placeholder") then is_true v else marked rest

  abbrev pub is_placeholder : Value B → Bool
  is_placeholder (object fs) = marked fs
  is_placeholder _ = false

-- `extractAttachments`: the data after it, and the array of attachments. The data is a tree.
unfoldable mutual
  -- A round of the two loops: an attachment is replaced, other data is looked into.
  pub extract_element : {B : Type 0} → Value B → List B → Value B × List B
  extract_element (attachment b) found = (placeholder (length found), found ++ b ∷ [])
  extract_element (array xs) found = let r = extract_values xs found in (array r.0, r.1)
  extract_element (object fs) found = let r = extract_fields fs found in (object r.0, r.1)
  extract_element v found = (v, found)

  pub extract_values : {B : Type 0} → Values B → List B → Values B × List B
  extract_values no_values found = (no_values, found)
  extract_values (next_value v rest) found =
      let r = extract_element v found in
      let s = extract_values rest r.1 in (next_value r.0 s.0, s.1)

  pub extract_fields : {B : Type 0} → Fields B → List B → Fields B × List B
  extract_fields no_fields found = (no_fields, found)
  extract_fields (next_field key v rest) found =
      let r = extract_element v found in
      let s = extract_fields rest r.1 in (next_field key r.0 s.0, s.1)

-- At the root an attachment is not replaced.
unfoldable pub extract : {B : Type 0} → Value B → List B → Value B × List B
unfolding extract_element
extract (attachment b) found = (attachment b, found)
extract v found = extract_element v found

-- `attachments.shift()`
abbrev pub shift : {B : Type 0} → List B → Value B × List B
shift [] = (missing, [])
shift (b ∷ bs) = (attachment b, bs)

-- `injectAttachments`: the data after it, and what is left of the attachments.
unfoldable mutual
  unfolding marked

  pub inject : {B : Type 0} → Value B → List B → Value B × List B
  inject (array xs) bs = let r = inject_values xs bs in (array r.0, r.1)
  inject (object fs) bs = let r = inject_fields fs bs in (object r.0, r.1)
  inject v bs = (v, bs)

  pub inject_values : {B : Type 0} → Values B → List B → Values B × List B
  inject_values no_values bs = (no_values, bs)
  inject_values (next_value v rest) bs =
      let inner = inject v bs in
      let r = if is_placeholder v then shift bs else inner in
      let s = inject_values rest r.1 in (next_value r.0 s.0, s.1)

  pub inject_fields : {B : Type 0} → Fields B → List B → Fields B × List B
  inject_fields no_fields bs = (no_fields, bs)
  inject_fields (next_field key v rest) bs =
      let inner = inject v bs in
      let r = if is_placeholder v then shift bs else inner in
      let s = inject_fields rest r.1 in (next_field key r.0 s.0, s.1)

-- ===== src/SocketParser/Attachments.antt =====
-- What `extractAttachments` and `injectAttachments` of packages/socket.io-parser/mod.ts do together.
use socket_io_deno.Common.{
  Bool, true, false, not, ◌&&◌, ◌≡◌, refl, ap, sym, ◌∙◌, List, [], ◌∷◌, ◌++◌, if◌then◌else◌,
}
use mathlib.Core.List.{append-nil, append_assoc}
use socket_io_deno.SocketParser.{
  Value, missing, null, flag, number, date, text, attachment, array, object, Values, no_values,
  next_value, Fields, no_fields, next_field, is_true, marked, is_placeholder, extract,
  extract_element, extract_values, extract_fields, shift, inject, inject_values, inject_fields,
}

-- The attachments of some data, in the order in which they stand there.
unfoldable mutual
  pub contents : {B : Type 0} → Value B → List B
  contents (attachment b) = b ∷ []
  contents (array xs) = contents_values xs
  contents (object fs) = contents_fields fs
  contents v = []

  pub contents_values : {B : Type 0} → Values B → List B
  contents_values no_values = []
  contents_values (next_value v rest) = contents v ++ contents_values rest

  pub contents_fields : {B : Type 0} → Fields B → List B
  contents_fields no_fields = []
  contents_fields (next_field key v rest) = contents v ++ contents_fields rest

-- Data that holds no object that looks like a placeholder.
unfoldable mutual
  unfolding marked

  pub is_plain : {B : Type 0} → Value B → Bool
  is_plain (array xs) = are_plain xs
  is_plain (object fs) = not (marked fs) && fields_are_plain fs
  is_plain v = true

  pub are_plain : {B : Type 0} → Values B → Bool
  are_plain no_values = true
  are_plain (next_value v rest) = is_plain v && are_plain rest

  pub fields_are_plain : {B : Type 0} → Fields B → Bool
  fields_are_plain no_fields = true
  fields_are_plain (next_field key v rest) = is_plain v && fields_are_plain rest

is_true-extract_element :
    {B : Type 0} (v : Value B) (found : List B) → is_true (extract_element v found).0 ≡ is_true v
unfolding extract_element
is_true-extract_element missing found = refl
is_true-extract_element null found = refl
is_true-extract_element (flag b) found = refl
is_true-extract_element (number n) found = refl
is_true-extract_element (date n) found = refl
is_true-extract_element (text s) found = refl
is_true-extract_element (attachment b) found = refl
is_true-extract_element (array xs) found = refl
is_true-extract_element (object fs) found = refl

-- Taking the attachments out makes no placeholder of an object.
marked-extract_fields :
    {B : Type 0} (fs : Fields B) (found : List B) → marked (extract_fields fs found).0 ≡ marked fs
unfolding marked extract_fields
marked-extract_fields no_fields found = refl
marked-extract_fields (next_field key v rest) found =
    rw (is_true-extract_element v found, marked-extract_fields rest (extract_element v found).1)
      refl

-- What is found are the contents, in their order.
mutual
  unfolding extract_element contents

  found-element :
      {B : Type 0} (v : Value B) (found : List B)
      → (extract_element v found).1 ≡ found ++ contents v
  found-element missing found = sym (append-nil found)
  found-element null found = sym (append-nil found)
  found-element (flag b) found = sym (append-nil found)
  found-element (number n) found = sym (append-nil found)
  found-element (date n) found = sym (append-nil found)
  found-element (text s) found = sym (append-nil found)
  found-element (attachment b) found = refl
  found-element (array xs) found = found-values xs found
  found-element (object fs) found = found-fields fs found

  found-values :
      {B : Type 0} (xs : Values B) (found : List B)
      → (extract_values xs found).1 ≡ found ++ contents_values xs
  found-values no_values found = sym (append-nil found)
  found-values (next_value v rest) found =
      found-values rest (extract_element v found).1
      ∙ ap (λ l. l ++ contents_values rest) (found-element v found)
      ∙ append_assoc found (contents v) (contents_values rest)

  found-fields :
      {B : Type 0} (fs : Fields B) (found : List B)
      → (extract_fields fs found).1 ≡ found ++ contents_fields fs
  found-fields no_fields found = sym (append-nil found)
  found-fields (next_field key v rest) found =
      found-fields rest (extract_element v found).1
      ∙ ap (λ l. l ++ contents_fields rest) (found-element v found)
      ∙ append_assoc found (contents v) (contents_fields rest)

pub both : (a b : Bool) → (a && b) ≡ true → (a ≡ true) × (b ≡ true)
both true b h = (refl, h)
both false b h = absurd (clash h)
  where
    clash : ¬ (false ≡ true)
    clash e = cc

not-true : (b : Bool) → not b ≡ true → b ≡ false
not-true true h = sym h
not-true false h = refl

-- Putting the contents back in restores the data, and leaves what stood behind them.
mutual
  unfolding extract_element contents inject is_plain

  restored-values :
      {B : Type 0} (xs : Values B) (found more : List B)
      → are_plain xs ≡ true
      → inject_values (extract_values xs found).0 (contents_values xs ++ more) ≡ (xs, more)
  restored-values no_values found more h = refl
  restored-values (next_value v rest) found more h =
      let (hv, hr) = both (is_plain v) (are_plain rest) h in
      rw
        (
          append_assoc (contents v) (contents_values rest) more,
          restored-element v found (contents_values rest ++ more) hv,
          restored-values rest (extract_element v found).1 more hr,
        )
        refl

  restored-element :
      {B : Type 0} (v : Value B) (found more : List B)
      → is_plain v ≡ true
      → let w = (extract_element v found).0 in
        let bs = contents v ++ more in
        (if is_placeholder w then shift bs else inject w bs) ≡ (v, more)
  restored-element missing found more h = refl
  restored-element null found more h = refl
  restored-element (flag b) found more h = refl
  restored-element (number n) found more h = refl
  restored-element (date n) found more h = refl
  restored-element (text s) found more h = refl
  restored-element (attachment b) found more h = refl
  restored-element (array xs) found more h = rw (restored-values xs found more h) refl
  restored-element (object fs) found more h =
      let (hm, hf) = both (not (marked fs)) (fields_are_plain fs) h in
      rw (marked-extract_fields fs found, not-true (marked fs) hm, restored-fields fs found more hf)
        refl

  restored-fields :
      {B : Type 0} (fs : Fields B) (found more : List B)
      → fields_are_plain fs ≡ true
      → inject_fields (extract_fields fs found).0 (contents_fields fs ++ more) ≡ (fs, more)
  restored-fields no_fields found more h = refl
  restored-fields (next_field key v rest) found more h =
      let (hv, hr) = both (is_plain v) (fields_are_plain rest) h in
      rw
        (
          append_assoc (contents v) (contents_fields rest) more,
          restored-element v found (contents_fields rest ++ more) hv,
          restored-fields rest (extract_element v found).1 more hr,
        )
        refl

-- The data of an event or of an acknowledgement is an array. If nothing in it looks like a
-- placeholder, then `extractAttachments` finds its attachments in the order in which they stand in
-- it, and `injectAttachments` with what was found gives the data back and uses all of it up.
pub inject-extract :
    {B : Type 0} (xs : Values B)
    → are_plain xs ≡ true
    → ((extract (array xs) []).1 ≡ contents (array xs))
      × (inject (extract (array xs) []).0 (extract (array xs) []).1 ≡ (array xs, []))
unfolding extract extract_element contents inject
inject-extract xs h = (
  found-values xs [],
  rw (found-values xs [], sym (append-nil (contents_values xs)))
      (rw (restored-values xs [] [] h) refl),
)

-- What is left to be written as text holds no attachment.
mutual
  unfolding extract_element contents

  cleared-element :
      {B : Type 0} (v : Value B) (found : List B) → contents (extract_element v found).0 ≡ []
  cleared-element missing found = refl
  cleared-element null found = refl
  cleared-element (flag b) found = refl
  cleared-element (number n) found = refl
  cleared-element (date n) found = refl
  cleared-element (text s) found = refl
  cleared-element (attachment b) found = refl
  cleared-element (array xs) found = cleared-values xs found
  cleared-element (object fs) found = cleared-fields fs found

  cleared-values :
      {B : Type 0} (xs : Values B) (found : List B)
      → contents_values (extract_values xs found).0 ≡ []
  cleared-values no_values found = refl
  cleared-values (next_value v rest) found =
      rw (cleared-element v found) (cleared-values rest (extract_element v found).1)

  cleared-fields :
      {B : Type 0} (fs : Fields B) (found : List B)
      → contents_fields (extract_fields fs found).0 ≡ []
  cleared-fields no_fields found = refl
  cleared-fields (next_field key v rest) found =
      rw (cleared-element v found) (cleared-fields rest (extract_element v found).1)

-- The data of an event or of an acknowledgement holds no attachment any more when
-- `extractAttachments` is through, whatever it held.
pub contents-extract :
    {B : Type 0} (xs : Values B) (found : List B) → contents (extract (array xs) found).0 ≡ []
unfolding extract extract_element contents
contents-extract xs found = cleared-values xs found

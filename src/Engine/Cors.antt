-- ===== src/Engine/Cors.antt =====
-- packages/engine.io/lib/cors.ts: the response headers of Cross-Origin Resource Sharing. A text is
-- the list of its code units; `test` is what a regular expression says of an origin.
pub mod Caching
mod Tests
use socket_io_deno.Common.{
  ℕ, suc, Bool, true, false, not, ◌&&◌, ◌||◌, Option, none, some, List, [], ◌∷◌, ◌++◌, ◌==◌,
  if◌then◌else◌, same_text,
}
use socket_io_deno.EngineParser.Base64.{codes}

-- `string | RegExp`
pub data Pattern (R : Type 0) : Type 0 where
  exactly : List ℕ → Pattern R
  regexp : R → Pattern R

-- `OriginOption`
pub data OriginOption (R : Type 0) : Type 0 where
  flag : Bool → OriginOption R
  pattern_of : Pattern R → OriginOption R
  one_of : List (Pattern R) → OriginOption R

-- `string | string[]`
pub data Names : Type 0 where
  name : List ℕ → Names
  names : List (List ℕ) → Names

-- `CorsOptions`. A text or number that JavaScript takes for false counts as not given.
pub record CorsOptions (R : Type 0) : Type 0 where
  pub origin : Option (OriginOption R)
  pub methods : Option Names
  pub allowed_headers : Option Names
  pub exposed_headers : Option Names
  pub credentials : Bool
  pub max_age : Option (List ℕ)

-- What is read of a request: whether its method is `OPTIONS`, and two headers.
pub record Request : Type 0 where
  pub is_options : Bool
  pub origin : Option (List ℕ)
  pub requested_headers : Option (List ℕ)

-- The names of the headers that are written.
pub data Header : Type 0 where
  allow_origin allow_methods allow_headers expose_headers allow_credentials max_age_header vary :
      Header

abbrev pub header_code : Header → ℕ
header_code allow_origin = 0
header_code allow_methods = 1
header_code allow_headers = 2
header_code expose_headers = 3
header_code allow_credentials = 4
header_code max_age_header = 5
header_code vary = 6

-- `Headers`, an entry for each value.
abbrev pub Headers : Type 0
Headers = List (Header × List ℕ)

unfoldable pub remove : Header → Headers → Headers
remove h [] = []
remove h (e ∷ es) =
    let rest = remove h es in if header_code e.0 == header_code h then rest else e ∷ rest

-- `headers.set` and `headers.append`
unfoldable pub set : Header → List ℕ → Headers → Headers
unfolding remove
set h value es = remove h es ++ (h, value) ∷ []

unfoldable pub append : Header → List ℕ → Headers → Headers
append h value es = es ++ (h, value) ∷ []

-- `arg.join(",")` of an array.
unfoldable pub join_all : List (List ℕ) → List ℕ
join_all [] = []
join_all (x ∷ []) = x
join_all (x ∷ y ∷ xs) = x ++ b',' ∷ join_all (y ∷ xs)

unfoldable pub join_names : Names → List ℕ
unfolding join_all
join_names (name s) = s
join_names (names xs) = join_all xs

unfoldable pub add_methods : {R : Type 0} → CorsOptions R → Headers → Headers
unfolding set join_names
add_methods opts h = elim opts.methods [ none ↦ h | some ns ↦ set allow_methods (join_names ns) h ]

-- The headers that are requested, if the text is given and not empty.
unfoldable pub allow_requested : Option (List ℕ) → Headers → Headers
unfolding set append
allow_requested none h = h
allow_requested (some []) h = h
allow_requested (some (c ∷ s)) h =
    set allow_headers (c ∷ s) (append vary (codes "Access-Control-Request-Headers") h)

unfoldable pub add_allowed_headers : {R : Type 0} → CorsOptions R → Request → Headers → Headers
unfolding allow_requested set join_names
add_allowed_headers opts req h = elim opts.allowed_headers [
  | some ns ↦ set allow_headers (join_names ns) h
  | none ↦ allow_requested req.requested_headers h
]

unfoldable pub add_exposed_headers : {R : Type 0} → CorsOptions R → Headers → Headers
unfolding set join_names
add_exposed_headers opts h = elim opts.exposed_headers [
  | none ↦ h
  | some ns ↦ set expose_headers (join_names ns) h
]

unfoldable pub add_credentials : {R : Type 0} → CorsOptions R → Headers → Headers
unfolding set
add_credentials opts h = if opts.credentials then set allow_credentials (codes "true") h else h

unfoldable pub add_max_age : {R : Type 0} → CorsOptions R → Headers → Headers
unfolding set
add_max_age opts h = elim opts.max_age [ none ↦ h | some s ↦ set max_age_header s h ]

-- The text that a header value is converted to; a missing header reads `null`.
abbrev pub shown : Option (List ℕ) → List ℕ
shown none = codes "null"
shown (some s) = s

module _ {R : Type 0} (test : R → List ℕ → Bool) where
  -- `isOriginAllowed` on a string or a regular expression.
  abbrev pub matches : Pattern R → Option (List ℕ) → Bool
  matches (exactly s) none = false
  matches (exactly s) (some origin) = same_text s origin
  matches (regexp r) origin = test r (shown origin)

  -- The loop over an array.
  unfoldable pub any_matches : List (Pattern R) → Option (List ℕ) → Bool
  any_matches [] origin = false
  any_matches (p ∷ ps) origin = if matches p origin then true else any_matches ps origin

  unfoldable pub is_origin_allowed : OriginOption R → Option (List ℕ) → Bool
  unfolding any_matches
  is_origin_allowed (flag b) origin = b
  is_origin_allowed (pattern_of p) origin = matches p origin
  is_origin_allowed (one_of ps) origin = any_matches ps origin

  -- The last branch of `addOrigin`.
  unfoldable pub reflect_origin : OriginOption R → Request → Headers → Headers
  unfolding is_origin_allowed set append
  reflect_origin allowed req h = append vary (codes "Origin") (
      set allow_origin
        (if is_origin_allowed allowed req.origin then shown req.origin else codes "false") h)

  -- An empty text is false, as `false` and no option are.
  abbrev pub add_origin_of : Option (OriginOption R) → Request → Headers → Headers
  add_origin_of none req h = set allow_origin (codes "*") h
  add_origin_of (some (flag false)) req h = set allow_origin (codes "*") h
  add_origin_of (some (flag true)) req h = reflect_origin (flag true) req h
  add_origin_of (some (pattern_of (exactly s))) req h =
      if same_text s [] || same_text s (codes "*")
      then set allow_origin (codes "*") h
      else append vary (codes "Origin") (set allow_origin s h)
  add_origin_of (some (pattern_of (regexp r))) req h = reflect_origin (pattern_of (regexp r)) req h
  add_origin_of (some (one_of ps)) req h = reflect_origin (one_of ps) req h

  unfoldable pub add_origin : CorsOptions R → Request → Headers → Headers
  unfolding reflect_origin set append
  add_origin opts req h = add_origin_of opts.origin req h

  -- `addCorsHeaders`
  unfoldable pub add_cors_headers : CorsOptions R → Request → Headers → Headers
  unfolding add_origin add_credentials add_exposed_headers add_methods add_allowed_headers
      add_max_age
  add_cors_headers opts req h =
      let common = add_exposed_headers opts (add_credentials opts (add_origin opts req h)) in
      if req.is_options
      then add_max_age opts (add_allowed_headers opts req (add_methods opts common))
      else common

-- ===== src/Engine/Cors/Caching.antt =====
-- What the headers of cors.ts tell a cache and a browser: whether the answer depends on the origin
-- of the request, and which origins are let in.
use socket_io_deno.Common.{
  ℕ, Bool, true, false, ◌&&◌, ◌||◌, Option, none, some, List, [], ◌∷◌, ◌++◌, ◌==◌, ◌≡◌, ◌⊎◌, inl,
  inr, refl, sym, ap, ◌∙◌, if◌then◌else◌, arith, ==_iff, same_text, Bool-cases, Option-cases,
}
use socket_io_deno.EngineParser.Base64.{codes}
use socket_io_deno.Engine.Cors.{
  exactly, regexp, OriginOption, flag, pattern_of, one_of, CorsOptions, Request, Header,
  allow_methods, allow_headers, expose_headers, allow_credentials, max_age_header, vary,
  header_code, Headers, remove, set, append, reflect_origin, add_origin, add_origin_of,
  add_credentials, add_exposed_headers, add_methods, add_allowed_headers, add_max_age,
  add_cors_headers, join_names, allow_requested,
}

or-false : (b : Bool) → (b || false) ≡ b
or-false true = refl
or-false false = refl

or-true : (b : Bool) → (b || true) ≡ true
or-true true = refl
or-true false = refl

-- Whether the headers hold a value.
abbrev is_entry : Header → List ℕ → Header × List ℕ → Bool
is_entry n v e = header_code e.0 == header_code n && same_text e.1 v

unfoldable pub has : Header → List ℕ → Headers → Bool
has n v [] = false
has n v (e ∷ es) = is_entry n v e || has n v es

has-append :
    (n : Header) (v : List ℕ) (h : Headers) (e : Header × List ℕ)
    → has n v (h ++ e ∷ []) ≡ (has n v h || is_entry n v e)
unfolding has
has-append n v [] e = ground arith
has-append n v (d ∷ h) e = ground (arith, has-append n v h e)

eq-ne : (a b c : ℕ) → (a == b) ≡ true → (c == b) ≡ false → (a == c) ≡ false
eq-ne a b c h k = let e : a ≡ b = (==_iff a b).0 h in ground (arith, e)

has-remove :
    (n m : Header) (v : List ℕ) (h : Headers)
    → (header_code n == header_code m) ≡ false
    → has n v (remove m h) ≡ has n v h
unfolding has remove
has-remove n m v [] d = refl
has-remove n m v (e ∷ h) d = elim (Bool-cases (header_code e.0 == header_code m)) [
  | inl same ↦
      rw (same, eq-ne (header_code e.0) (header_code m) (header_code n) same d)
        (has-remove n m v h d)
  | inr other ↦ rw (other, has-remove n m v h d) refl
]

-- Setting another header changes nothing.
has-set :
    (n m : Header) (v w : List ℕ) (h : Headers)
    → (header_code n == header_code m) ≡ false
    → (header_code m == header_code n) ≡ false
    → has n v (set m w h) ≡ has n v h
unfolding set
has-set n m v w h d d' =
    rw (has-append n v (remove m h) (m, w), d', has-remove n m v h d) (or-false (has n v h))

-- The headers that only `addOrigin` and the list of `Vary` are about.
abbrev is_free : Header → Bool
is_free n = header_code n == 0 || header_code n == 6

free-ne :
    (n m : Header)
    → is_free n ≡ true
    → is_free m ≡ false
    → ((header_code n == header_code m) ≡ false) × ((header_code m == header_code n) ≡ false)
free-ne n m f g = codes_ne (header_code n) (header_code m) f g
  where
    codes_ne :
        (a b : ℕ)
        → (a == 0 || a == 6) ≡ true
        → (b == 0 || b == 6) ≡ false
        → ((a == b) ≡ false) × ((b == a) ≡ false)
    codes_ne a b f g = ground arith

module _ {R : Type 0} (opts : CorsOptions R) (n : Header) (v : List ℕ) (f : is_free n ≡ true) where
  has-set_other :
      (m : Header) (w : List ℕ) (h : Headers) → is_free m ≡ false → has n v (set m w h) ≡ has n v h
  has-set_other m w h g = has-set n m v w h (free-ne n m f g).0 (free-ne n m f g).1

  has-add_methods : (h : Headers) → has n v (add_methods opts h) ≡ has n v h
  unfolding add_methods
  has-add_methods h = elim (Option-cases opts.methods) [
    | inl e ↦ rw e refl
    | inr (ns, e) ↦ rw e (has-set_other allow_methods (join_names ns) h refl)
  ]

  has-add_exposed_headers : (h : Headers) → has n v (add_exposed_headers opts h) ≡ has n v h
  unfolding add_exposed_headers
  has-add_exposed_headers h = elim (Option-cases opts.exposed_headers) [
    | inl e ↦ rw e refl
    | inr (ns, e) ↦ rw e (has-set_other expose_headers (join_names ns) h refl)
  ]

  has-add_credentials : (h : Headers) → has n v (add_credentials opts h) ≡ has n v h
  unfolding add_credentials
  has-add_credentials h = elim (Bool-cases opts.credentials) [
    | inl e ↦ rw e (has-set_other allow_credentials (codes "true") h refl)
    | inr e ↦ rw e refl
  ]

  has-add_max_age : (h : Headers) → has n v (add_max_age opts h) ≡ has n v h
  unfolding add_max_age
  has-add_max_age h = elim (Option-cases opts.max_age) [
    | inl e ↦ rw e refl
    | inr (s, e) ↦ rw e (has-set_other max_age_header s h refl)
  ]

  has-allow_requested :
      (o : Option (List ℕ)) (h : Headers)
      → is_entry n v (vary, codes "Access-Control-Request-Headers") ≡ false
      → has n v (allow_requested o h) ≡ has n v h
  unfolding allow_requested append
  has-allow_requested none h d = refl
  has-allow_requested (some []) h d = refl
  has-allow_requested (some (c ∷ s)) h d =
      let noted = h ++ (vary, codes "Access-Control-Request-Headers") ∷ [] in
      let step : has n v noted ≡ has n v h =
        rw (has-append n v h (vary, codes "Access-Control-Request-Headers"), d)
          (or-false (has n v h)) in
      has-set_other allow_headers (c ∷ s) noted refl ∙ step

  has-add_allowed_headers :
      (req : Request) (h : Headers)
      → is_entry n v (vary, codes "Access-Control-Request-Headers") ≡ false
      → has n v (add_allowed_headers opts req h) ≡ has n v h
  unfolding add_allowed_headers
  has-add_allowed_headers req h d = elim (Option-cases opts.allowed_headers) [
    | inr (ns, e) ↦ rw e (has-set_other allow_headers (join_names ns) h refl)
    | inl e ↦ rw e (has-allow_requested req.requested_headers h d)
  ]

  has-if :
      {k : Bool} (b : Bool) (x y : Headers)
      → has n v x ≡ k
      → has n v y ≡ k
      → has n v (if b then x else y) ≡ k
  has-if true x y p q = p
  has-if false x y p q = q

  -- All that comes after `addOrigin` leaves these headers alone.
  has-add_cors_headers :
      (test : R → List ℕ → Bool) (req : Request) (h : Headers)
      → is_entry n v (vary, codes "Access-Control-Request-Headers") ≡ false
      → has n v (add_cors_headers test opts req h) ≡ has n v (add_origin test opts req h)
  unfolding add_cors_headers
  has-add_cors_headers test req h d =
      let a = add_origin test opts req h in
      let b = add_credentials opts a in
      let c = add_exposed_headers opts b in
      let common : has n v c ≡ has n v a = has-add_exposed_headers b ∙ has-add_credentials a in
      has-if req.is_options _ c
        (has-add_max_age (add_allowed_headers opts req (add_methods opts c))
          ∙ has-add_allowed_headers req (add_methods opts c) d
          ∙ has-add_methods c
          ∙ common)
        common

-- Whether the answer says that it varies with the origin.
abbrev pub says_vary : Headers → Bool
says_vary h = has vary (codes "Origin") h

abbrev pub request_of : Bool → Option (List ℕ) → Option (List ℕ) → Request
request_of b requested o = record { is_options = b; origin = o; requested_headers = requested }

module _ {R : Type 0} (test : R → List ℕ → Bool) where
  says-reflect_origin :
      (o : OriginOption R) (req : Request) (h : Headers)
      → says_vary (reflect_origin test o req h) ≡ true
  unfolding reflect_origin append
  says-reflect_origin o req h =
      has-append vary (codes "Origin") _ (vary, codes "Origin") ∙ or-true _

  same-or-says :
      (o : Option (OriginOption R)) (r r' : Request) (h : Headers)
      → (add_origin_of test o r h ≡ add_origin_of test o r' h)
        ⊎ (says_vary (add_origin_of test o r h) ≡ true)
  same-or-says none r r' h = inl refl
  same-or-says (some (flag false)) r r' h = inl refl
  same-or-says (some (flag true)) r r' h = inr (says-reflect_origin (flag true) r h)
  same-or-says (some (pattern_of (exactly s))) r r' h = inl refl
  same-or-says (some (pattern_of (regexp e))) r r' h =
      inr (says-reflect_origin (pattern_of (regexp e)) r h)
  same-or-says (some (one_of ps)) r r' h = inr (says-reflect_origin (one_of ps) r h)

  -- Two requests with the same method and the same requested headers, whatever their origins: if the
  -- headers for the one do not hold `Vary: Origin`, then the other gets the same headers.
  pub add_cors_headers-says_vary :
      (opts : CorsOptions R) (b : Bool) (o o' requested : Option (List ℕ)) (h : Headers)
      → says_vary (add_cors_headers test opts (request_of b requested o) h) ≡ false
      → add_cors_headers test opts (request_of b requested o) h
        ≡ add_cors_headers test opts (request_of b requested o') h
  unfolding add_cors_headers add_origin add_allowed_headers
  add_cors_headers-says_vary opts b o o' requested h d =
      let req = request_of b requested o in
      elim (same-or-says opts.origin req (request_of b requested o') h) [
        | inl e ↦
            ap
              (λ (x : Headers).
                let c = add_exposed_headers opts (add_credentials opts x) in
                if b
                then add_max_age opts (add_allowed_headers opts req (add_methods opts c))
                else c)
              e
        | inr e ↦
            let after = has-add_cors_headers opts vary (codes "Origin") refl test req h refl in
            absurd (clash (sym d ∙ after ∙ e))
      ]
    where
      clash : ¬ (false ≡ true)
      clash e = cc

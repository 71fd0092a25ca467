-- ===== src/Engine/Cors/Tests.antt =====
-- The theorems about the headers of cors.ts at concrete inputs.
use socket_io_deno.Common.{ℕ, Bool, true, false, none, some, List, [], ◌∷◌, ◌≡◌, refl}
use socket_io_deno.EngineParser.Base64.{codes}
use socket_io_deno.Engine.Cors.{
  exactly, one_of, CorsOptions, allow_origin, vary, name, pattern_of, add_cors_headers,
}
use socket_io_deno.Engine.Cors.Caching.{add_cors_headers-says_vary, request_of, has}

-- No regular expression is used.
abbrev no_test : ℕ → List ℕ → Bool
no_test r s = false

abbrev everyone : CorsOptions ℕ
everyone = record {
  origin = some (pattern_of (exactly (codes "*")));
  methods = some (name (codes "GET"));
  allowed_headers = none;
  exposed_headers = none;
  credentials = true;
  max_age = none;
}

abbrev two_origins : CorsOptions ℕ
two_origins = record everyone {
  origin = some (one_of (exactly (codes "a") ∷ exactly (codes "b") ∷ []));
  credentials = false;
}

reflected :
    add_cors_headers no_test two_origins (request_of false none (some (codes "b"))) []
    ≡ (allow_origin, codes "b") ∷ (vary, codes "Origin") ∷ []
unfolding add_cors_headers
reflected = refl

refused :
    add_cors_headers no_test two_origins (request_of false none (some (codes "c"))) []
    ≡ (allow_origin, codes "false") ∷ (vary, codes "Origin") ∷ []
unfolding add_cors_headers
refused = refl

add_cors_headers-says_vary_example :
    add_cors_headers no_test everyone (request_of true none (some (codes "a"))) []
    ≡ add_cors_headers no_test everyone (request_of true none none) []
unfolding add_cors_headers has
add_cors_headers-says_vary_example =
    add_cors_headers-says_vary no_test everyone true (some (codes "a")) none none [] refl

-- ===== src/Engine/Server/Tests.antt =====
-- The theorems about the server of Engine.IO at concrete inputs, and runs of it.
use socket_io_deno.Common.{
  ℕ, Bool, true, false, Option, none, some, List, [], ◌∷◌, ◌≡◌, ◌↔◌, refl, ℕ_discrete,
}
use socket_io_deno.Common.Dict
use socket_io_deno.EngineParser.{text}
use socket_io_deno.EngineParser.Base64.{codes}
use socket_io_deno.Engine.Session.{is_closed}
use socket_io_deno.Engine.Socket.{sends, closes, polls, ping_falls_due, pong_is_overdue}
use socket_io_deno.Engine.Server.{
  Request, Response, get_method, post_method, options_method, Server, Happening, request, goes_on,
  session_input, listeners_off, verify, handle_request, continue_request, undefined_client,
  happen_all, preflight, refused, unknown_sid, handed_over, bad_handshake_method,
}
use socket_io_deno.Engine.Server.Requests.{IsAcceptable, verify-IsAcceptable}

abbrev first_poll : Request ℕ
first_poll = record {
  method = get_method;
  has_upgrade = false;
  transport = some (codes "polling");
  sid = none;
  protocol = some (codes "4");
  size = 0;
  packets = [];
}

abbrev second_poll : Request ℕ
second_poll = record first_poll { sid = some 7; protocol = none }

abbrev empty : Server ℕ
empty = record {
  clients = [];
  max_size = 100;
  has_cors = true;
  waiting = [];
  unheard = λ id. false;
}

-- A client polls twice.
abbrev happenings : List (Happening ℕ)
happenings = request first_poll ∷ goes_on 0 true 7 (codes "{}") ∷ request second_poll ∷ []

abbrev started : Server ℕ
started = happen_all ℕ_discrete happenings empty

-- `close` of a client whose session still has something to send: the session waits for "drain", its
-- listeners are taken off, and it is closed by a timer in the end.
abbrev closings_late : List (Happening ℕ)
closings_late =
    session_input 7 (sends (text (1 ∷ [])))
    ∷ session_input 7 closes
    ∷ listeners_off 7
    ∷ session_input 7 polls
    ∷ session_input 7 ping_falls_due
    ∷ session_input 7 pong_is_overdue
    ∷ []

-- Whether the server has a session, and whether that is closed.
abbrev state_of : ℕ → Server ℕ → Option Bool
state_of id sv = elim (Dict.get ℕ_discrete id sv.clients) [
  | none ↦ none
  | some s ↦ some (is_closed s.ready)
]

abbrev response_of : Request ℕ → Server ℕ → Option (Response ℕ)
response_of req sv = (handle_request ℕ_discrete req sv).0

posted_first :
    response_of (record first_poll { method = post_method }) empty
    ≡ some (refused bad_handshake_method)
unfolding handle_request
posted_first = refl

asked_first : response_of (record first_poll { method = options_method }) empty ≡ some preflight
unfolding handle_request
asked_first = refl

unknown : response_of second_poll empty ≡ some (refused unknown_sid)
unfolding handle_request
unknown = refl

handed : (continue_request ℕ_discrete true 8 [] second_poll started).0 ≡ handed_over 7
unfolding continue_request happen_all ℕ_discrete
handed = refl

-- The session ends between `verify` and the lookup.
vanished :
    (continue_request ℕ_discrete true 8 [] second_poll
      (happen_all ℕ_discrete (session_input 7 closes ∷ []) started)).0
    ≡ undefined_client
unfolding continue_request happen_all ℕ_discrete
vanished = refl

closed_at_once : state_of 7 (happen_all ℕ_discrete (session_input 7 closes ∷ []) started) ≡ none
unfolding happen_all ℕ_discrete
closed_at_once = refl

left_behind : state_of 7 (happen_all ℕ_discrete closings_late started) ≡ some true
unfolding happen_all ℕ_discrete
left_behind = refl

verify-IsAcceptable_example :
    (verify ℕ_discrete first_poll empty ≡ none) ↔ IsAcceptable ℕ_discrete first_poll empty
verify-IsAcceptable_example = verify-IsAcceptable ℕ_discrete first_poll empty

-- ===== src/Engine/Server.antt =====
-- `Server` of packages/engine.io/lib/server.ts: which requests are let in, and the sessions that the
-- server keeps. A session id is a key; an empty parameter of the URL counts as not given. The hooks
-- that edit headers are taken not to be set. A request is handled in two steps, for the handling
-- awaits `verify` and `allowRequest`, and all else may happen in between. A request to change the
-- transport ends here in the answer `upgrades`: the session is then handed to `_maybeUpgrade`.
pub mod Requests
pub mod Healthy
pub mod Sessions
mod Tests
use socket_io_deno.Common.{
  ℕ, zero, suc, Bool, true, false, not, ◌&&◌, ◌||◌, Option, none, some, List, [], ◌∷◌, ◌++◌,
  if◌then◌else◌, same_text, same, ltb,
}
use socket_io_deno.Common.Dict
use socket_io_deno.EngineParser.{Packet}
use socket_io_deno.EngineParser.Base64.{codes}
use socket_io_deno.Engine.Session.{Session, Kind, polling, websocket, closings}
use socket_io_deno.Engine.Socket.{init, Input, step, close, off, on_poll_request, on_data_request}

-- `ERROR_CODES`
pub data ErrorCode : Type 0 where
  unknown_transport unknown_sid bad_handshake_method bad_request forbidden
        unsupported_protocol_version :
      ErrorCode

pub data Method : Type 0 where
  get_method post_method options_method other_method : Method

-- What is read of a request: its method, whether it has the header "upgrade", the parameters
-- "transport", "sid" and "EIO" of its URL, and the length and the packets of its body.
pub record Request (K : Type 0) : Type 0 where
  pub method : Method
  pub has_upgrade : Bool
  pub transport : Option (List ℕ)
  pub sid : Option K
  pub protocol : Option (List ℕ)
  pub size : ℕ
  pub packets : List Packet

-- `refused` stands for the answer with the code and for the event "connection_error", `preflight`
-- for the answer 204. `undefined_client` is a request that finds no session behind the checks.
pub data Response (K : Type 0) : Type 0 where
  preflight : Response K
  refused : ErrorCode → Response K
  upgrades handed_over : K → Response K
  bad_method undefined_client : Response K
  connected : K → Response K

-- The map `clients`, the options `maxHttpBufferSize` and `cors`, if that is set, and the requests
-- that have passed `verify` and whose handling has not gone on yet, for it is awaited, and
-- `allowRequest` after it. `unheard` tells of a session whether the listener of its event "close",
-- which `handshake` sets, was taken off.
pub record Server (K : Type 0) : Type 0 where
  pub clients : List (K × Session)
  pub max_size : ℕ
  pub has_cors : Bool
  pub waiting : List (Request K)
  pub unheard : K → Bool

abbrev pub text_of : Option (List ℕ) → List ℕ
text_of none = []
text_of (some s) = s

-- `TRANSPORTS.includes(transport)`
abbrev pub is_transport : List ℕ → Bool
is_transport s = same_text s (codes "polling") || same_text s (codes "websocket")

abbrev pub is_get : Method → Bool
is_get get_method = true
is_get _ = false

abbrev pub is_websocket : Kind → Bool
is_websocket websocket = true
is_websocket polling = false

abbrev pub is_options : Method → Bool
is_options options_method = true
is_options _ = false

-- What can happen to a server: a request comes in; the n-th of the waiting requests goes on, with
-- what `allowRequest` said and what `generateId` would give it; something happens to a session; a
-- client takes the listeners of its session off; the server is closed.
pub data Happening (K : Type 0) : Type 0 where
  request : Request K → Happening K
  goes_on : ℕ → Bool → K → List ℕ → Happening K
  session_input : K → Input → Happening K
  listeners_off : K → Happening K
  closes : Happening K

-- An element at a position, and the others.
abbrev pub put_back {ℓ} : {A : Type ℓ} → A → Option (A × List A) → Option (A × List A)
put_back x none = none
put_back x (some (y, ys)) = some (y, x ∷ ys)

unfoldable pub take_out {ℓ} : {A : Type ℓ} → ℕ → List A → Option (A × List A)
take_out n [] = none
take_out zero (x ∷ xs) = some (x, xs)
take_out (suc n) (x ∷ xs) = put_back x (take_out n xs)

-- Whether a session emitted "close" from one state to the next.
abbrev pub has_closed : Session → Session → Bool
has_closed before after = ltb (closings before.log) (closings after.log)

module _ {K : Type 0} (dk : Discrete K) where
  -- The checks on the session that a request names.
  abbrev pub verify_client : Option Session → Option ErrorCode
  verify_client none = some unknown_sid
  verify_client (some s) = if is_websocket s.kind then some bad_request else none

  -- The checks on the first request of a session.
  abbrev pub verify_handshake : Request K → Option ErrorCode
  verify_handshake req =
      if is_get req.method
      then (if same_text (text_of req.protocol) (codes "4")
          then none
          else some unsupported_protocol_version)
      else some bad_handshake_method

  -- `verify`: the code of the error, if the promise is rejected.
  unfoldable pub verify : Request K → Server K → Option ErrorCode
  unfolding Dict.get
  verify req sv =
      if is_transport (text_of req.transport)
      then elim req.sid [
        | none ↦ verify_handshake req
        | some id ↦ verify_client (Dict.get dk id sv.clients)
      ]
      else some unknown_transport

  -- A session in the state that follows one of its operations. If that emitted "close", then the
  -- listener takes the session out of the map, unless it was taken off before.
  unfoldable pub keep : K → Session → Session → Server K → Server K
  unfolding closings Dict.set Dict.delete
  keep id before after sv = record sv {
    clients =
        if has_closed before after && not (sv.unheard id)
        then Dict.delete dk id sv.clients
        else Dict.set dk id after sv.clients;
  }

  -- `handshake`: the session stands in the map, with the listener, when its first request comes.
  -- `id` is what `generateId` gave, `opened` the text of the "open" packet. A WebSocket opens later.
  abbrev pub first_request : Kind → Session → Session
  first_request polling s = on_poll_request s
  first_request websocket s = s

  abbrev pub kind_of : Request K → Kind
  kind_of req = if req.has_upgrade then websocket else polling

  abbrev pub add_client : K → Session → Server K → Server K
  add_client id s sv = record sv {
    clients = Dict.set dk id s sv.clients;
    unheard = λ other. not (same dk other id) && sv.unheard other;
  }

  unfoldable pub handshake : K → List ℕ → Request K → Server K → Response K × Server K
  unfolding keep init on_poll_request Dict.set
  handshake id opened req sv =
      let s = init (kind_of req) opened in
      (connected id, keep id s (first_request (kind_of req) s) (add_client id s sv))

  -- `Polling.onRequest`
  abbrev pub on_request : K → Request K → Method → Session → Server K → Response K × Server K
  on_request id req get_method s sv = (handed_over id, keep id s (on_poll_request s) sv)
  on_request id req post_method s sv =
      (handed_over id, keep id s (on_data_request sv.max_size req.size req.packets s) sv)
  on_request id req _ s sv = (bad_method, sv)

  -- The last part of `handleRequest`, on the session that the id stands for then.
  abbrev pub dispatch : K → Request K → Option Session → Server K → Response K × Server K
  dispatch id req none sv = (undefined_client, sv)
  dispatch id req (some s) sv =
      if req.has_upgrade then (upgrades id, sv) else on_request id req req.method s sv

  -- The part of `handleRequest` behind the checks.
  abbrev pub enter : K → List ℕ → Request K → Option K → Server K → Response K × Server K
  enter id opened req none sv = handshake id opened req sv
  enter id opened req (some sid) sv = dispatch sid req (Dict.get dk sid sv.clients) sv

  -- `handleRequest` up to `await this.verify(…)`: the answer, or none if the request waits.
  abbrev pub admit : Option ErrorCode → Request K → Server K → Option (Response K) × Server K
  admit (some code) req sv = (some (refused code), sv)
  admit none req sv = (none, record sv { waiting = sv.waiting ++ req ∷ [] })

  unfoldable pub handle_request : Request K → Server K → Option (Response K) × Server K
  unfolding verify
  handle_request req sv =
      if sv.has_cors && is_options req.method
      then (some preflight, sv)
      else admit (verify req sv) req sv

  -- The rest of `handleRequest`, with what `allowRequest` said. The session is looked up only now.
  unfoldable pub continue_request : Bool → K → List ℕ → Request K → Server K → Response K × Server K
  unfolding handshake keep on_poll_request on_data_request Dict.get
  continue_request allowed id opened req sv =
      if allowed then enter id opened req req.sid sv else (refused forbidden, sv)

  abbrev pub continue_with :
      Bool → K → List ℕ → Option (Request K × List (Request K)) → Server K → Server K
  continue_with allowed id opened none sv = sv
  continue_with allowed id opened (some (req, rest)) sv =
      (continue_request allowed id opened req (record sv { waiting = rest })).1

  -- An operation of a session in the map.
  abbrev pub update_found : K → (Session → Session) → Option Session → Server K → Server K
  update_found id f none sv = sv
  update_found id f (some s) sv = keep id s (f s) sv

  unfoldable pub update_client : K → (Session → Session) → Server K → Server K
  unfolding keep Dict.get
  update_client id f sv = update_found id f (Dict.get dk id sv.clients) sv

  -- `close`: every session of the map.
  unfoldable pub close_each : List (K × Session) → Server K → Server K
  unfolding update_client close
  close_each [] sv = sv
  close_each ((id, s) ∷ rest) sv = close_each rest (update_client id close sv)

  unfoldable pub close_all : Server K → Server K
  unfolding close_each
  close_all sv = close_each sv.clients sv

  -- `conn.off()` of a client: the server no longer hears of the end of the session.
  unfoldable pub take_off : K → Server K → Server K
  unfolding update_client
  take_off id sv =
      update_client id off (record sv { unheard = λ other. same dk other id || sv.unheard other })

  unfoldable pub happen : Happening K → Server K → Server K
  unfolding handle_request continue_request take_out update_client take_off close_all step
  happen (request req) sv = (handle_request req sv).1
  happen (goes_on n allowed id opened) sv =
      continue_with allowed id opened (take_out n sv.waiting) sv
  happen (session_input id i) sv = update_client id (step sv.max_size i) sv
  happen (listeners_off id) sv = take_off id sv
  happen closes sv = close_all sv

  unfoldable pub happen_all : List (Happening K) → Server K → Server K
  unfolding happen
  happen_all [] sv = sv
  happen_all (h ∷ hs) sv = happen_all hs (happen h sv)

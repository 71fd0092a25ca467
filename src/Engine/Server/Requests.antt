-- ===== src/Engine/Server/Requests.antt =====
-- Which requests pass `verify` of packages/engine.io/lib/server.ts.
use socket_io_deno.Common.{
  Bool, true, false, Option, none, some, ◌≡◌, ◌↔◌, refl, if◌then◌else◌, same_text,
}
use socket_io_deno.Common.Dict
use socket_io_deno.EngineParser.Base64.{codes}
use socket_io_deno.Engine.Session.{Session, Kind, polling, websocket}
use socket_io_deno.Engine.Server.{
  unknown_transport, bad_handshake_method, bad_request, unsupported_protocol_version, Method,
  get_method, post_method, options_method, other_method, Request, Server, text_of, is_transport,
  is_get, is_websocket, verify_client, verify_handshake, verify,
}

module _ {K : Type 0} (dk : Discrete K) where
  -- The requests to let in: the first one of a session in the fourth revision of the protocol, and
  -- any for a session that still polls.
  pub data IsAcceptable (req : Request K) (sv : Server K) : Type 0 where
    first :
        is_transport (text_of req.transport) ≡ true
        → req.sid ≡ none
        → req.method ≡ get_method
        → same_text (text_of req.protocol) (codes "4") ≡ true
        → IsAcceptable req sv
    later :
        (id : K) (s : Session)
        → is_transport (text_of req.transport) ≡ true
        → req.sid ≡ some id
        → Dict.get dk id sv.clients ≡ some s
        → s.kind ≡ polling
        → IsAcceptable req sv

  module _ (req : Request K) (sv : Server K) where
    accepted_first :
        (m : Method) (p : Bool)
        → is_transport (text_of req.transport) ≡ true
        → req.sid ≡ none
        → req.method ≡ m
        → same_text (text_of req.protocol) (codes "4") ≡ p
        → (if is_get m
            then (if p then none else some unsupported_protocol_version)
            else some bad_handshake_method)
          ≡ none
        → IsAcceptable req sv
    accepted_first get_method true t e m p h = first t e m p
    accepted_first get_method false t e m p h = cc
    accepted_first post_method p t e m _ h = cc
    accepted_first options_method p t e m _ h = cc
    accepted_first other_method p t e m _ h = cc

    accepted_later :
        (id : K) (s : Session) (k : Kind)
        → is_transport (text_of req.transport) ≡ true
        → req.sid ≡ some id
        → Dict.get dk id sv.clients ≡ some s
        → s.kind ≡ k
        → (if is_websocket k then some bad_request else none) ≡ none
        → IsAcceptable req sv
    accepted_later id s polling t e g k h = later id s t e g k
    accepted_later id s websocket t e g k h = cc

    accepted_client :
        (id : K) (o : Option Session)
        → is_transport (text_of req.transport) ≡ true
        → req.sid ≡ some id
        → Dict.get dk id sv.clients ≡ o
        → verify_client dk o ≡ none
        → IsAcceptable req sv
    accepted_client id none t e g h = cc
    accepted_client id (some s) t e g h = accepted_later id s s.kind t e g refl h

    accepted :
        (t : Bool) (o : Option K)
        → is_transport (text_of req.transport) ≡ t
        → req.sid ≡ o
        → (if t
            then elim o [
              | none ↦ verify_handshake dk req
              | some id ↦ verify_client dk (Dict.get dk id sv.clients)
            ]
            else some unknown_transport)
          ≡ none
        → IsAcceptable req sv
    accepted true none t e h = accepted_first req.method _ t e refl refl h
    accepted true (some id) t e h = accepted_client id (Dict.get dk id sv.clients) t e refl h
    accepted false o t e h = cc

    lets_in : IsAcceptable req sv → verify dk req sv ≡ none
    unfolding verify
    lets_in (first t e m p) = simp (t, e, m, p)
    lets_in (later id s t e g k) = simp (t, e, g, k)

  -- `verify` lets in exactly these requests: a known transport is named, and either the request
  -- names no session, is a GET and asks for revision 4, or it names a session in the map whose
  -- transport is HTTP long-polling.
  pub verify-IsAcceptable :
      (req : Request K) (sv : Server K) → (verify dk req sv ≡ none) ↔ IsAcceptable req sv
  unfolding verify
  verify-IsAcceptable req sv = (accepted req sv _ req.sid refl refl, lets_in req sv)

-- ===== src/Engine/Socket/Announced.antt =====
-- Whatever happens to a session of packages/engine.io/lib/socket.ts, it emits "close" when it is
-- closed, and only then.
use socket_io_deno.Common.{
  ℕ, ◌+◌, ◌-◌, true, false, some, List, [], ◌∷◌, if◌then◌else◌, ltb, ◌≡◌, refl, ◌∙◌,
}
use socket_io_deno.EngineParser.{Packet, PacketType, ping, pong, message, open_packet, text}
use socket_io_deno.Engine.Session.{
  Kind, Session, emit, closings, is_ready_open, is_empty, bare, closing, is_open, transport_error,
  transport_close, ping_timeout, parse_error, polling, websocket, on_heartbeat, on_packet,
  on_message, on_open,
}
use socket_io_deno.Engine.Socket.{
  socket_on_close, force_close, send_packet, send, close, react, socket_on_packet,
  transport_on_error, transport_on_packet, transport_drain, on_poll_request, on_packets,
  on_data_request, ws_opened, ws_message, ws_closed, ping_due, pong_overdue, init, Input, sends,
  closes, polls, ws_opens, ws_closes, ping_falls_due, pong_is_overdue, posts, ws_receives, step_by,
  step, run, is_close,
}
use socket_io_deno.Engine.Socket.Closing.{
  IsAnnounced, Keeps, zero_if_open, emit-Keeps, if-IsAnnounced, socket_on_close-Keeps,
  force_close-Keeps, transport_on_close-Keeps, do_close-Keeps, flush-Keeps, send_packet-Keeps,
}

pub close-Keeps : Keeps close
unfolding close
close-Keeps s h = if-IsAnnounced (is_ready_open s.ready) _ _ (λ e. opened e) (λ _. h)
  where
    opened :
        is_ready_open s.ready ≡ true
        → IsAnnounced (
            if is_empty s.buffer
            then force_close (record s { ready = closing })
            else record s { ready = closing; close_on_drain = true })
    opened e =
        if-IsAnnounced (is_empty s.buffer) _ _
          (λ _. force_close-Keeps (record s { ready = closing }) (unclosed e)) (λ _. unclosed e)
      where
        unclosed : is_ready_open s.ready ≡ true → IsAnnounced (record s { ready = closing })
        unclosed e = h ∙ zero_if_open s.ready e

react-Keeps : (p : Packet) (t : PacketType) → Keeps (react p t)
react-Keeps p pong s h =
    emit-Keeps on_heartbeat refl (record s { awaits_pong = false; pings = s.pings + 1 }) h
react-Keeps p message s h = emit-Keeps (on_message p.contents) refl s h
react-Keeps p _ s h = socket_on_close-Keeps parse_error s h

socket_on_packet-Keeps : (p : Packet) → Keeps (socket_on_packet p)
unfolding socket_on_packet
socket_on_packet-Keeps p s h =
    if-IsAnnounced (is_ready_open s.ready) _ _
      (λ _. react-Keeps p p.type (emit (on_packet p) s) (emit-Keeps (on_packet p) refl s h))
      (λ _. h)

transport_on_error-Keeps : Keeps transport_on_error
unfolding transport_on_error
transport_on_error-Keeps s h =
    if-IsAnnounced s.bound _ _ (λ _. socket_on_close-Keeps transport_error s h) (λ _. h)

transport_on_packet-Keeps : (p : Packet) → Keeps (transport_on_packet p)
unfolding transport_on_packet
transport_on_packet-Keeps p s h =
    if-IsAnnounced (is_close p.type) _ _
      (λ _.
        do_close-Keeps (socket_on_close transport_close) (socket_on_close-Keeps transport_close) s
          h)
      (λ _. if-IsAnnounced s.bound _ _ (λ _. socket_on_packet-Keeps p s h) (λ _. h))

transport_drain-Keeps : Keeps transport_drain
unfolding transport_drain
transport_drain-Keeps s h = if-IsAnnounced s.bound _ _ (λ _. flush-Keeps s h) (λ _. h)

pub on_poll_request-Keeps : Keeps on_poll_request
unfolding on_poll_request
on_poll_request-Keeps s h =
    if-IsAnnounced s.poll _ _ (λ _. transport_on_error-Keeps s h)
      (λ _. transport_drain-Keeps (record s { poll = true; writable = true }) h)

on_packets-Keeps : (ps : List Packet) → Keeps (on_packets ps)
unfolding on_packets
on_packets-Keeps [] s h = h
on_packets-Keeps (p ∷ ps) s h =
    on_packets-Keeps ps (transport_on_packet p s) (transport_on_packet-Keeps p s h)

pub on_data_request-Keeps :
    (max_size size : ℕ) (ps : List Packet) → Keeps (on_data_request max_size size ps)
unfolding on_data_request
on_data_request-Keeps max_size size ps s h =
    if-IsAnnounced (ltb max_size size) _ _ (λ _. transport_on_error-Keeps s h)
      (λ _. on_packets-Keeps ps s h)

ws_message-Keeps : (max_size size : ℕ) (p : Packet) → Keeps (ws_message max_size size p)
unfolding ws_message
ws_message-Keeps max_size size p s h =
    if-IsAnnounced (ltb max_size size) _ _ (λ _. transport_on_error-Keeps s h)
      (λ _. transport_on_packet-Keeps p s h)

ws_closed-Keeps : Keeps ws_closed
unfolding ws_closed
ws_closed-Keeps s h =
    transport_on_close-Keeps (socket_on_close transport_close)
      (socket_on_close-Keeps transport_close) (record s { writable = false; ws_is_open = false }) h

ping_due-Keeps : Keeps ping_due
unfolding ping_due
ping_due-Keeps s h = send_packet-Keeps (bare ping) (record s { pings = s.pings - 1 }) h

step_by-Keeps : (max_size : ℕ) (k : Kind) (i : Input) → Keeps (step_by max_size k i)
unfolding send pong_overdue ws_opened
step_by-Keeps m k (sends d) s h =
    send_packet-Keeps (record { type = message; contents = some d }) s h
step_by-Keeps m k closes s h = close-Keeps s h
step_by-Keeps m k ping_falls_due s h =
    if-IsAnnounced (ltb 0 s.pings) _ _ (λ _. ping_due-Keeps s h) (λ _. h)
step_by-Keeps m k pong_is_overdue s h =
    if-IsAnnounced s.awaits_pong _ _
      (λ _. socket_on_close-Keeps ping_timeout (record s { awaits_pong = false }) h) (λ _. h)
step_by-Keeps m polling polls s h = on_poll_request-Keeps s h
step_by-Keeps m polling (posts size ps) s h = on_data_request-Keeps m size ps s h
step_by-Keeps m polling ws_opens s h = h
step_by-Keeps m polling ws_closes s h = h
step_by-Keeps m polling (ws_receives size p) s h = h
step_by-Keeps m websocket ws_opens s h =
    transport_drain-Keeps (record s { ws_is_open = true; writable = true }) h
step_by-Keeps m websocket ws_closes s h = ws_closed-Keeps s h
step_by-Keeps m websocket (ws_receives size p) s h = ws_message-Keeps m size p s h
step_by-Keeps m websocket polls s h = h
step_by-Keeps m websocket (posts size ps) s h = h

pub step-Keeps : (max_size : ℕ) (i : Input) → Keeps (step max_size i)
unfolding step
step-Keeps m i s h = step_by-Keeps m s.kind i s h

run-Keeps : (max_size : ℕ) (is : List Input) → Keeps (run max_size is)
unfolding run
run-Keeps m [] s h = h
run-Keeps m (i ∷ is) s h = run-Keeps m is (step m i s) (step-Keeps m i s h)

pub init-IsAnnounced : (kind : Kind) (handshake : List ℕ) → IsAnnounced (init kind handshake)
unfolding init closings
init-IsAnnounced kind handshake =
    let s : Session = record {
      ready = is_open;
      buffer = [];
      close_on_drain = false;
      pings = 0;
      awaits_pong = false;
      kind = kind;
      transport = is_open;
      bound = true;
      writable = false;
      poll = false;
      ws_is_open = false;
      log = [];
    } in
    let p : Packet = record { type = open_packet; contents = some (text handshake) } in
    emit-Keeps on_open refl (send_packet p s) (send_packet-Keeps p s refl)

-- Whatever happens to a session over either transport, in any order: if it is closed, then it has
-- emitted "close" exactly once, and otherwise never.
pub run-init-IsAnnounced :
    (max_size : ℕ) (kind : Kind) (handshake : List ℕ) (is : List Input)
    → IsAnnounced (run max_size is (init kind handshake))
run-init-IsAnnounced m kind handshake is =
    run-Keeps m is (init kind handshake) (init-IsAnnounced kind handshake)

-- ===== src/Engine/Socket.antt =====
-- `Socket` of packages/engine.io/lib/socket.ts over its transport, and the requests and WebSocket
-- events that drive it. The user's listeners are taken to leave the session alone while they run.
pub mod Faithful
pub mod Delivery
pub mod Closing
pub mod Announced
mod Tests
use socket_io_deno.Common.{
  ℕ, zero, suc, ◌+◌, ◌-◌, Bool, true, false, not, ◌&&◌, ◌||◌, Option, none, some, List, [], ◌∷◌,
  ◌++◌, if◌then◌else◌, ltb,
}
use socket_io_deno.EngineParser.{
  Packet, PacketType, open_packet, close_packet, ping, pong, message, upgrade, noop, error_packet,
  RawData, text,
}
use socket_io_deno.Engine.Session.{
  ReadyState, CloseReason, Kind, Output, Session, emit, is_closed, is_ready_open, is_closing,
  is_ending, is_empty, write, ws_send, transport_send, transport_on_close, bare, do_close,
  transport_close_with, close_transport, opening, is_open, closing, closed, transport_error,
  transport_close, forced_close, ping_timeout, parse_error, polling, websocket, on_open,
  on_heartbeat, on_drain, on_packet, on_packet_create, on_message, on_flush, on_close, answered,
  framed, ws_close,
}

-- `Socket.onClose`
unfoldable pub socket_on_close : CloseReason → Session → Session
unfolding close_transport emit
socket_on_close reason s =
    if is_closed s.ready
    then s
    else emit (on_close reason)
        (close_transport (record s { ready = closed; pings = s.pings - 1; awaits_pong = false }))

-- The function `close` inside `Socket.close`.
unfoldable pub force_close : Session → Session
unfolding socket_on_close close_transport
force_close s = socket_on_close forced_close (close_transport s)

-- The one-time listener of "drain", if there is one.
unfoldable pub drained : Session → Session
unfolding force_close
drained s = if s.close_on_drain then force_close (record s { close_on_drain = false }) else s

unfoldable pub flush : Session → Session
unfolding drained transport_send emit
flush s =
    if not (is_closed s.ready) && s.writable && not (is_empty s.buffer)
    then drained (
        emit on_drain
          (transport_send s.buffer (record (emit (on_flush s.buffer) s) { buffer = [] })))
    else s

unfoldable pub send_packet : Packet → Session → Session
unfolding flush emit
send_packet p s =
    if is_ending s.ready
    then s
    else flush (record (emit (on_packet_create p) s) { buffer = s.buffer ++ p ∷ [] })

-- `send`
unfoldable pub send : RawData → Session → Session
unfolding send_packet
send d s = send_packet (record { type = message; contents = some d }) s

unfoldable pub close : Session → Session
unfolding force_close
close s =
    if is_ready_open s.ready
    then (if is_empty s.buffer
        then force_close (record s { ready = closing })
        else record s { ready = closing; close_on_drain = true })
    else s

-- `off()` of the emitter, by which `onclose` of a client takes away all listeners of its session:
-- the one-time listener of "drain" is one of them.
abbrev pub off : Session → Session
off s = record s { close_on_drain = false }

-- `onPacket` of the socket, by the type of the packet.
abbrev pub react : Packet → PacketType → Session → Session
react p pong s = emit on_heartbeat (record s { awaits_pong = false; pings = s.pings + 1 })
react p message s = emit (on_message p.contents) s
react p _ s = socket_on_close parse_error s

unfoldable pub socket_on_packet : Packet → Session → Session
unfolding emit socket_on_close
socket_on_packet p s = if is_ready_open s.ready then react p p.type (emit (on_packet p) s) else s

-- `onError` of the transport, and of the socket by its listener.
unfoldable pub transport_on_error : Session → Session
unfolding socket_on_close
transport_on_error s = if s.bound then socket_on_close transport_error s else s

-- `onPacket` of the transport.
abbrev pub is_close : PacketType → Bool
is_close close_packet = true
is_close _ = false

unfoldable pub transport_on_packet : Packet → Session → Session
unfolding do_close socket_on_close socket_on_packet
transport_on_packet p s =
    if is_close p.type
    then do_close (socket_on_close transport_close) s
    else if s.bound
    then socket_on_packet p s
    else s

-- The "drain" of the transport.
unfoldable pub transport_drain : Session → Session
unfolding flush
transport_drain s = if s.bound then flush s else s

-- `onPollRequest`: a second poll is refused with status 400.
unfoldable pub on_poll_request : Session → Session
unfolding transport_on_error transport_drain
on_poll_request s =
    if s.poll
    then transport_on_error s
    else transport_drain (record s { poll = true; writable = true })

-- `onDataRequest`, on the length of the body and its decoded packets.
unfoldable pub on_packets : List Packet → Session → Session
unfolding transport_on_packet
on_packets [] s = s
on_packets (p ∷ ps) s = on_packets ps (transport_on_packet p s)

unfoldable pub on_data_request : ℕ → ℕ → List Packet → Session → Session
unfolding on_packets transport_on_error
on_data_request max_size size ps s =
    if ltb max_size size then transport_on_error s else on_packets ps s

-- The handlers that `WS.onRequest` sets.
unfoldable pub ws_opened : Session → Session
unfolding transport_drain
ws_opened s = transport_drain (record s { ws_is_open = true; writable = true })

unfoldable pub ws_message : ℕ → ℕ → Packet → Session → Session
unfolding transport_on_packet transport_on_error
ws_message max_size size p s =
    if ltb max_size size then transport_on_error s else transport_on_packet p s

unfoldable pub ws_closed : Session → Session
unfolding transport_on_close socket_on_close
ws_closed s =
    transport_on_close (socket_on_close transport_close)
      (record s { writable = false; ws_is_open = false })

-- The callbacks of the timers of `schedulePing` and `resetPingTimeout`.
unfoldable pub ping_due : Session → Session
unfolding send_packet
ping_due s = record (send_packet (bare ping) (record s { pings = s.pings - 1 })) {
  awaits_pong = true;
}

unfoldable pub pong_overdue : Session → Session
unfolding socket_on_close
pong_overdue s = socket_on_close ping_timeout (record s { awaits_pong = false })

-- The constructor; `handshake` is the text of the "open" packet.
unfoldable pub init : Kind → List ℕ → Session
unfolding emit send_packet
init kind handshake =
    let s : Session = record {
      ready = is_open;
      buffer = [];
      close_on_drain = false;
      pings = 0;
      awaits_pong = false;
      kind = kind;
      transport = is_open;
      bound = true;
      writable = false;
      poll = false;
      ws_is_open = false;
      log = [];
    } in
    let opened =
      emit on_open
        (send_packet (record { type = open_packet; contents = some (text handshake) }) s) in
    record opened { pings = opened.pings + 1 }

-- What can happen to a session.
pub data Input : Type 0 where
  sends : RawData → Input
  closes polls ws_opens ws_closes ping_falls_due pong_is_overdue : Input
  posts : ℕ → List Packet → Input
  ws_receives : ℕ → Packet → Input

-- `max_size` is `maxHttpBufferSize`. A timer fires only if it is armed, and a transport gets only
-- the inputs of its kind.
abbrev pub step_by : ℕ → Kind → Input → Session → Session
step_by max_size kind (sends d) s = send d s
step_by max_size kind closes s = close s
step_by max_size kind ping_falls_due s = if ltb 0 s.pings then ping_due s else s
step_by max_size kind pong_is_overdue s = if s.awaits_pong then pong_overdue s else s
step_by max_size polling polls s = on_poll_request s
step_by max_size polling (posts size ps) s = on_data_request max_size size ps s
step_by max_size websocket ws_opens s = ws_opened s
step_by max_size websocket ws_closes s = ws_closed s
step_by max_size websocket (ws_receives size p) s = ws_message max_size size p s
step_by max_size _ _ s = s

unfoldable pub step : ℕ → Input → Session → Session
unfolding send close ping_due pong_overdue on_poll_request on_data_request ws_opened ws_closed
    ws_message
step max_size i s = step_by max_size s.kind i s

unfoldable pub run : ℕ → List Input → Session → Session
unfolding step
run max_size [] s = s
run max_size (i ∷ is) s = run max_size is (step max_size i s)

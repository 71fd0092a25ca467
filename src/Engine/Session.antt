-- ===== src/Engine/Session.antt =====
-- A socket of Engine.IO with its transport: the state of `Socket` in packages/engine.io/lib/socket.ts,
-- and `Transport` of transport.ts with `Polling` and `WS` of the folder transports. One record holds
-- both objects; what they emit and write is a log.
use socket_io_deno.Common.{
  ℕ, ◌+◌, Bool, true, false, ◌&&◌, Option, none, List, [], ◌∷◌, ◌++◌, if◌then◌else◌,
}
use socket_io_deno.EngineParser.{Packet, PacketType, close_packet, noop, RawData}

-- `ReadyState` of the socket, and of the transport, which knows no `opening`.
pub data ReadyState : Type 0 where
  opening is_open closing closed : ReadyState

pub data CloseReason : Type 0 where
  transport_error transport_close forced_close ping_timeout parse_error : CloseReason

pub data Kind : Type 0 where
  polling websocket : Kind

-- What leaves the session: the reserved events of the socket, the answer to the pending poll, and
-- what the WebSocket is told.
pub data Output : Type 0 where
  on_open on_heartbeat on_drain : Output
  on_packet on_packet_create : Packet → Output
  on_message : Option RawData → Output
  on_flush : List Packet → Output
  on_close : CloseReason → Output
  answered : List Packet → Output
  framed : Packet → Output
  ws_close : Output

-- `poll` tells whether `pollingPromise` is set, `ws_is_open` whether the WebSocket is `OPEN`, and
-- `bound` whether the transport has the socket's listeners. `close_on_drain` is the one-time
-- listener of `close`. `pings` counts the armed ping timers, of which the socket keeps the id of the
-- last, and `awaits_pong` tells whether the ping timeout is armed.
pub record Session : Type 0 where
  pub ready : ReadyState
  pub buffer : List Packet
  pub close_on_drain : Bool
  pub pings : ℕ
  pub awaits_pong : Bool
  pub kind : Kind
  pub transport : ReadyState
  pub bound : Bool
  pub writable : Bool
  pub poll : Bool
  pub ws_is_open : Bool
  pub log : List Output

unfoldable pub emit : Output → Session → Session
emit o s = record s { log = s.log ++ o ∷ [] }

-- How many of the outputs are the event "close".
abbrev pub one_if_close : Output → ℕ
one_if_close (on_close reason) = 1
one_if_close _ = 0

unfoldable pub closings : List Output → ℕ
closings [] = 0
closings (o ∷ log) = one_if_close o + closings log

abbrev pub is_closed : ReadyState → Bool
is_closed closed = true
is_closed _ = false

abbrev pub is_ready_open : ReadyState → Bool
is_ready_open is_open = true
is_ready_open _ = false

abbrev pub is_closing : ReadyState → Bool
is_closing closing = true
is_closing _ = false

-- `["closing", "closed"].includes(readyState)`
abbrev pub is_ending : ReadyState → Bool
is_ending closing = true
is_ending closed = true
is_ending _ = false

abbrev pub is_empty : List Packet → Bool
is_empty [] = true
is_empty (p ∷ ps) = false

-- `Polling.write`
unfoldable pub write : List Packet → Session → Session
unfolding emit
write ps s = if s.poll then emit (answered ps) (record s { poll = false }) else s

-- `WS.send`, a packet at a time.
unfoldable pub ws_send : List Packet → Session → Session
unfolding emit
ws_send [] s = s
ws_send (p ∷ ps) s = ws_send ps (if s.writable && s.ws_is_open then emit (framed p) s else s)

-- `transport.send`; no call is made with an empty list.
abbrev pub send_by : Kind → List Packet → Session → Session
send_by polling ps s = write ps (record s { writable = false })
send_by websocket ps s = ws_send ps s

unfoldable pub transport_send : List Packet → Session → Session
unfolding write ws_send
transport_send ps s = send_by s.kind ps s

-- `Transport.onClose`; `handler` is the listener of "close", if the socket's are attached.
unfoldable pub transport_on_close : (Session → Session) → Session → Session
transport_on_close handler s =
    let s' = record s { transport = closed } in if s.bound then handler s' else s'

abbrev pub bare : PacketType → Packet
bare t = record { type = t; contents = none }

-- `doClose`
abbrev pub do_close_by : Kind → (Session → Session) → Session → Session
do_close_by polling handler s = transport_on_close handler (
    if s.writable
    then transport_send ((if is_closing s.transport then bare close_packet else bare noop) ∷ []) s
    else s)
do_close_by websocket handler s = emit ws_close (record s { ws_is_open = false })

unfoldable pub do_close : (Session → Session) → Session → Session
unfolding transport_on_close transport_send emit
do_close handler s = do_close_by s.kind handler s

-- `Transport.close`
unfoldable pub transport_close_with : (Session → Session) → Session → Session
unfolding do_close
transport_close_with handler s =
    if is_ending s.transport then s else do_close handler (record s { transport = closing })

-- `closeTransport`: the transport has no listeners any more when it is closed.
unfoldable pub close_transport : Session → Session
unfolding transport_close_with
close_transport s = transport_close_with (λ t. t) (record s { bound = false })

-- ===== src/Engine/Socket/Closing.antt =====
-- How often a session of packages/engine.io/lib/socket.ts emits "close".
use socket_io_deno.Common.{
  ℕ, ◌+◌, ◌-◌, Bool, true, false, not, ◌&&◌, List, [], ◌∷◌, ◌++◌, if◌then◌else◌, ◌≡◌, refl, ◌∙◌,
  arith,
}
use socket_io_deno.EngineParser.{Packet, close_packet, noop}
use socket_io_deno.Engine.Session.{
  ReadyState, CloseReason, Kind, Output, Session, emit, one_if_close, closings, is_closed,
  is_ready_open, is_closing, is_ending, is_empty, write, ws_send, transport_send, send_by,
  do_close_by, transport_on_close, bare, do_close, close_transport, opening, is_open, closing,
  closed, forced_close, polling, websocket, on_drain, on_packet_create, on_flush, on_close,
  answered, framed, ws_close,
}
use socket_io_deno.Engine.Socket.{socket_on_close, force_close, drained, flush, send_packet}

abbrev pub one_if_closed : ReadyState → ℕ
one_if_closed closed = 1
one_if_closed _ = 0

closings-append :
    (l : List Output) (o : Output) → closings (l ++ o ∷ []) ≡ closings l + one_if_close o
unfolding closings
closings-append [] o = omega arith
closings-append (p ∷ l) o = omega (arith, closings-append l o)

-- `due` is 1 between the change to "closed" and the event.
abbrev IsDue : ℕ → Session → Type 0
IsDue due s = closings s.log + due ≡ one_if_closed s.ready

-- A session has emitted "close" once if it is closed, and never if it is not.
abbrev pub IsAnnounced : Session → Type 0
IsAnnounced s = closings s.log ≡ one_if_closed s.ready

module _ (due : ℕ) where
  emit-IsDue : (o : Output) (s : Session) → one_if_close o ≡ 0 → IsDue due s → IsDue due (emit o s)
  unfolding emit
  emit-IsDue o s n h = omega (arith, closings-append s.log o, n, h)

  write-IsDue : (ps : List Packet) (s : Session) → IsDue due s → IsDue due (write ps s)
  unfolding write
  write-IsDue ps s h = go s.poll
    where
      go : (b : Bool) → IsDue due (if b then emit (answered ps) (record s { poll = false }) else s)
      go true = emit-IsDue (answered ps) (record s { poll = false }) refl h
      go false = h

  ws_send-IsDue : (ps : List Packet) (s : Session) → IsDue due s → IsDue due (ws_send ps s)
  unfolding ws_send
  ws_send-IsDue [] s h = h
  ws_send-IsDue (p ∷ ps) s h = ws_send-IsDue ps _ (go (s.writable && s.ws_is_open))
    where
      go : (b : Bool) → IsDue due (if b then emit (framed p) s else s)
      go true = emit-IsDue (framed p) s refl h
      go false = h

  transport_send-IsDue :
      (ps : List Packet) (s : Session) → IsDue due s → IsDue due (transport_send ps s)
  unfolding transport_send
  transport_send-IsDue ps s h = go s.kind
    where
      go : (k : Kind) → IsDue due (send_by k ps s)
      go polling = write-IsDue ps _ h
      go websocket = ws_send-IsDue ps s h

  transport_on_close-IsDue :
      (f : Session → Session)
      → ((s : Session) → IsDue due s → IsDue due (f s))
      → (s : Session) → IsDue due s
      → IsDue due (transport_on_close f s)
  unfolding transport_on_close
  transport_on_close-IsDue f k s h = go s.bound
    where
      go :
          (b : Bool)
          → IsDue due
              (if b then f (record s { transport = closed }) else record s { transport = closed })
      go true = k (record s { transport = closed }) h
      go false = h

  do_close-IsDue :
      (f : Session → Session)
      → ((s : Session) → IsDue due s → IsDue due (f s))
      → (s : Session) → IsDue due s
      → IsDue due (do_close f s)
  unfolding do_close
  do_close-IsDue f k s h = go s.kind
    where
      ended :
          (w c : Bool)
          → IsDue due (
              if w then transport_send ((if c then bare close_packet else bare noop) ∷ []) s else s)
      ended true c = transport_send-IsDue _ s h
      ended false c = h

      go : (t : Kind) → IsDue due (do_close_by t f s)
      go polling =
          let t : Session =
            if s.writable
            then transport_send
                ((if is_closing s.transport then bare close_packet else bare noop) ∷ []) s
            else s in
          transport_on_close-IsDue f k t (ended s.writable (is_closing s.transport))
      go websocket = emit-IsDue ws_close (record s { ws_is_open = false }) refl h

  close_transport-IsDue : (s : Session) → IsDue due s → IsDue due (close_transport s)
  unfolding close_transport
  close_transport-IsDue s h = go (is_ending s.transport)
    where
      go :
          (b : Bool)
          → IsDue due (
              if b
              then record s { bound = false }
              else do_close (λ t. t) (record s { bound = false; transport = closing }))
      go true = h
      go false =
          do_close-IsDue (λ t. t) (λ t g. g) (record s { bound = false; transport = closing }) h

-- What keeps the count.
abbrev pub Keeps : (Session → Session) → Type 0
Keeps f = (s : Session) → IsAnnounced s → IsAnnounced (f s)

pub emit-Keeps : (o : Output) → one_if_close o ≡ 0 → Keeps (emit o)
unfolding emit
emit-Keeps o n s h = omega (arith, closings-append s.log o, n, h)

pub if-IsAnnounced :
    (b : Bool) (s t : Session)
    → (b ≡ true → IsAnnounced s)
    → (b ≡ false → IsAnnounced t)
    → IsAnnounced (if b then s else t)
if-IsAnnounced true s t h k = h refl
if-IsAnnounced false s t h k = k refl

pub zero_if_open : (r : ReadyState) → is_ready_open r ≡ true → one_if_closed r ≡ 0
zero_if_open is_open h = refl
zero_if_open opening h = refl
zero_if_open closing h = refl
zero_if_open closed h = cc

pub zero_unless_closed : (r : ReadyState) → is_closed r ≡ false → one_if_closed r ≡ 0
zero_unless_closed closed h = cc
zero_unless_closed opening h = refl
zero_unless_closed is_open h = refl
zero_unless_closed closing h = refl

pub socket_on_close-Keeps : (reason : CloseReason) → Keeps (socket_on_close reason)
unfolding socket_on_close emit
socket_on_close-Keeps reason s h =
    if-IsAnnounced (is_closed s.ready) _ _ (λ _. h)
      λ e.
        let t : Session = record s { ready = closed; pings = s.pings - 1; awaits_pong = false } in
        let due : IsDue 1 t = omega (arith, h, zero_unless_closed s.ready e) in
        closings-append (close_transport t).log (on_close reason) ∙ close_transport-IsDue 1 t due

pub force_close-Keeps : Keeps force_close
unfolding force_close
force_close-Keeps s h =
    socket_on_close-Keeps forced_close (close_transport s)
      (omega (arith, close_transport-IsDue 0 s (omega (arith, h))))

drained-Keeps : Keeps drained
unfolding drained
drained-Keeps s h =
    if-IsAnnounced s.close_on_drain _ _
      (λ _. force_close-Keeps (record s { close_on_drain = false }) h) (λ _. h)

transport_send-Keeps : (ps : List Packet) → Keeps (transport_send ps)
transport_send-Keeps ps s h = omega (arith, transport_send-IsDue 0 ps s (omega (arith, h)))

pub transport_on_close-Keeps : (f : Session → Session) → Keeps f → Keeps (transport_on_close f)
transport_on_close-Keeps f k s h = omega (
  arith,
  transport_on_close-IsDue 0 f (λ t g. omega (arith, k t (omega (arith, g)))) s (omega (arith, h)),
)

pub do_close-Keeps : (f : Session → Session) → Keeps f → Keeps (do_close f)
do_close-Keeps f k s h =
    omega (
      arith,
      do_close-IsDue 0 f (λ t g. omega (arith, k t (omega (arith, g)))) s (omega (arith, h)),
    )

pub flush-Keeps : Keeps flush
unfolding flush
flush-Keeps s h =
    let noted : Session = record (emit (on_flush s.buffer) s) { buffer = [] } in
    let sent = transport_send s.buffer noted in
    if-IsAnnounced (not (is_closed s.ready) && s.writable && not (is_empty s.buffer)) _ _
      (λ _. drained-Keeps (emit on_drain sent) (
        emit-Keeps on_drain refl sent
          (transport_send-Keeps s.buffer noted (emit-Keeps (on_flush s.buffer) refl s h))))
      (λ _. h)

pub send_packet-Keeps : (p : Packet) → Keeps (send_packet p)
unfolding send_packet
send_packet-Keeps p s h =
    if-IsAnnounced (is_ending s.ready) _ _ (λ _. h)
      λ _.
        flush-Keeps (record (emit (on_packet_create p) s) { buffer = s.buffer ++ p ∷ [] })
          (emit-Keeps (on_packet_create p) refl s h)

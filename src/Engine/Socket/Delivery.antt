-- ===== src/Engine/Socket/Delivery.antt =====
-- Over HTTP long-polling no packet is lost, doubled or overtaken, whatever happens to a session.
use socket_io_deno.Common.{
  ℕ, ◌+◌, ◌-◌, Bool, true, false, some, List, [], ◌∷◌, ◌++◌, if◌then◌else◌, ltb, refl, sym, subst,
  All-append,
}
use mathlib.Core.List.{append-nil, append_assoc}
use socket_io_deno.EngineParser.{Packet, PacketType, ping, pong, message}
use socket_io_deno.Engine.Session.{
  emit, is_ready_open, is_ending, is_empty, bare, do_close, closing, transport_error,
  transport_close, ping_timeout, parse_error, polling, on_heartbeat, on_packet, on_packet_create,
  on_message,
}
use socket_io_deno.Engine.Socket.{
  socket_on_close, force_close, flush, send_packet, send, close, react, socket_on_packet,
  transport_on_error, transport_on_packet, transport_drain, on_poll_request, on_packets,
  on_data_request, ping_due, pong_overdue, init, Input, sends, closes, polls, ping_falls_due,
  pong_is_overdue, posts, step_by, step, run, is_close,
}
use socket_io_deno.Engine.Socket.Faithful.{
  IsData, delivered, created-append, delivered-append, IsFaithful, emit-IsFaithful, Keeps,
  do_close-Keeps, with_ready, socket_on_close-Keeps, force_close-Keeps, flush-Keeps,
}

send_packet-Keeps : (p : Packet) → IsData p → Keeps (send_packet p)
unfolding send_packet emit
send_packet-Keeps p d s f = go (is_ending s.ready)
  where
    stored : IsFaithful (record (emit (on_packet_create p) s) { buffer = s.buffer ++ p ∷ [] })
    stored = record {
      is_polling = f.is_polling;
      waits = f.waits;
      clean = All-append IsData s.buffer (p ∷ []) (f.clean, (d, tt));
      kept =
          simp (created-append, delivered-append, append-nil)
            (rw (f.kept) (append_assoc (delivered s.log) s.buffer (p ∷ [])));
    }

    go :
        (b : Bool)
        → IsFaithful (
            if b
            then s
            else flush (record (emit (on_packet_create p) s) { buffer = s.buffer ++ p ∷ [] }))
    go true = f
    go false = flush-Keeps _ stored

close-Keeps : Keeps close
unfolding close
close-Keeps s f = go (is_ready_open s.ready) (is_empty s.buffer)
  where
    go :
        (o e : Bool)
        → IsFaithful (
            if o
            then (if e
                then force_close (record s { ready = closing })
                else record s { ready = closing; close_on_drain = true })
            else s)
    go true true =
        force_close-Keeps _ (with_ready closing s.close_on_drain s.pings s.awaits_pong s f)
    go true false = with_ready closing true s.pings s.awaits_pong s f
    go false e = f

react-Keeps : (p : Packet) (t : PacketType) → Keeps (react p t)
react-Keeps p pong s f =
    emit-IsFaithful on_heartbeat _ (refl, refl)
      (with_ready s.ready s.close_on_drain (s.pings + 1) false s f)
react-Keeps p message s f = emit-IsFaithful (on_message p.contents) s (refl, refl) f
react-Keeps p _ s f = socket_on_close-Keeps parse_error s f

socket_on_packet-Keeps : (p : Packet) → Keeps (socket_on_packet p)
unfolding socket_on_packet
socket_on_packet-Keeps p s f = go (is_ready_open s.ready)
  where
    go : (b : Bool) → IsFaithful (if b then react p p.type (emit (on_packet p) s) else s)
    go true = react-Keeps p p.type _ (emit-IsFaithful (on_packet p) s (refl, refl) f)
    go false = f

transport_on_error-Keeps : Keeps transport_on_error
unfolding transport_on_error
transport_on_error-Keeps s f = go s.bound
  where
    go : (b : Bool) → IsFaithful (if b then socket_on_close transport_error s else s)
    go true = socket_on_close-Keeps transport_error s f
    go false = f

transport_on_packet-Keeps : (p : Packet) → Keeps (transport_on_packet p)
unfolding transport_on_packet
transport_on_packet-Keeps p s f = go (is_close p.type) s.bound
  where
    go :
        (c b : Bool)
        → IsFaithful (
            if c
            then do_close (socket_on_close transport_close) s
            else if b
            then socket_on_packet p s
            else s)
    go true b = do_close-Keeps _ (socket_on_close-Keeps transport_close) s f
    go false true = socket_on_packet-Keeps p s f
    go false false = f

on_packets-Keeps : (ps : List Packet) → Keeps (on_packets ps)
unfolding on_packets
on_packets-Keeps [] s f = f
on_packets-Keeps (p ∷ ps) s f = on_packets-Keeps ps _ (transport_on_packet-Keeps p s f)

poll-Keeps : Keeps on_poll_request
unfolding on_poll_request transport_drain
poll-Keeps s f = go s.poll s.bound
  where
    open_poll : IsFaithful (record s { poll = true; writable = true })
    open_poll = record { is_polling = f.is_polling; waits = refl; clean = f.clean; kept = f.kept }

    go :
        (p b : Bool)
        → IsFaithful (
            if p
            then transport_on_error s
            else if b
            then flush (record s { poll = true; writable = true })
            else record s { poll = true; writable = true })
    go true b = transport_on_error-Keeps s f
    go false true = flush-Keeps _ open_poll
    go false false = open_poll

post-Keeps : (max_size size : ℕ) (ps : List Packet) → Keeps (on_data_request max_size size ps)
unfolding on_data_request
post-Keeps max_size size ps s f = go (ltb max_size size)
  where
    go : (b : Bool) → IsFaithful (if b then transport_on_error s else on_packets ps s)
    go true = transport_on_error-Keeps s f
    go false = on_packets-Keeps ps s f

ping_due-Keeps : Keeps ping_due
unfolding ping_due
ping_due-Keeps s f =
    let s' = record s { pings = s.pings - 1 } in
    let sent =
      send_packet-Keeps (bare ping) refl s'
        (with_ready s.ready s.close_on_drain (s.pings - 1) s.awaits_pong s f) in
    with_ready (send_packet (bare ping) s').ready (send_packet (bare ping) s').close_on_drain
      (send_packet (bare ping) s').pings true (send_packet (bare ping) s') sent

-- A polling session ignores the inputs of a WebSocket.
step_by-Keeps : (max_size : ℕ) (i : Input) → Keeps (step_by max_size polling i)
step_by-Keeps m (sends d) s f =
    unfold send in send_packet-Keeps (record { type = message; contents = some d }) refl s f
step_by-Keeps m closes s f = close-Keeps s f
step_by-Keeps m ping_falls_due s f = go (ltb 0 s.pings)
  where
    go : (b : Bool) → IsFaithful (if b then ping_due s else s)
    go true = ping_due-Keeps s f
    go false = f
step_by-Keeps m pong_is_overdue s f = go s.awaits_pong
  where
    go : (b : Bool) → IsFaithful (if b then pong_overdue s else s)
    go true =
        unfold pong_overdue in
        socket_on_close-Keeps ping_timeout _ (with_ready s.ready s.close_on_drain s.pings false s f)
    go false = f
step_by-Keeps m polls s f = poll-Keeps s f
step_by-Keeps m (posts size ps) s f = post-Keeps m size ps s f
step_by-Keeps m _ s f = f

step-Keeps : (max_size : ℕ) (i : Input) → Keeps (step max_size i)
unfolding step
step-Keeps m i s f =
    subst (λ k. IsFaithful (step_by m k i s)) (sym f.is_polling) (step_by-Keeps m i s f)

run-Keeps : (max_size : ℕ) (is : List Input) → Keeps (run max_size is)
unfolding run
run-Keeps m [] s f = f
run-Keeps m (i ∷ is) s f = run-Keeps m is _ (step-Keeps m i s f)

init-IsFaithful : (handshake : List ℕ) → IsFaithful (init polling handshake)
unfolding init
init-IsFaithful handshake = record {
  is_polling = refl;
  waits = refl;
  clean = (refl, tt);
  kept = refl;
}

-- Over HTTP long-polling, whatever happens to a session and in which order: the packets that it
-- created are those that were answered to polls, but for the transport's own "noop" and "close",
-- each once and in the order of creation, followed by those that its buffer still holds; and the
-- transport is writable exactly when a poll waits.
pub run-init-IsFaithful :
    (max_size : ℕ) (handshake : List ℕ) (is : List Input)
    → IsFaithful (run max_size is (init polling handshake))
run-init-IsFaithful m handshake is = run-Keeps m is _ (init-IsFaithful handshake)

-- ===== src/Engine/Socket/Faithful.antt =====
-- The invariant of a polling session: no packet is lost, doubled or overtaken. It is kept by the
-- operations of the transport and by what the socket builds on them first.
use socket_io_deno.Common.{
  ℕ, ◌-◌, Bool, true, false, not, ◌&&◌, List, [], ◌∷◌, ◌++◌, if◌then◌else◌, ◌≡◌, refl, sym, ◌∙◌, ap,
  subst, arith, All,
}
use mathlib.Core.List.{append-nil, append_assoc}
use socket_io_deno.EngineParser.{Packet, PacketType, close_packet, noop}
use socket_io_deno.Engine.Session.{
  ReadyState, CloseReason, Output, Session, emit, is_closed, is_closing, is_ending, is_empty, write,
  transport_send, send_by, do_close_by, transport_on_close, bare, do_close, close_transport,
  closing, closed, forced_close, polling, on_open, on_drain, on_packet_create, on_flush, on_close,
  answered, framed,
}
use socket_io_deno.Engine.Socket.{socket_on_close, force_close, drained, flush}

-- The packets by which a transport ends a poll without data.
abbrev pub is_control : PacketType → Bool
is_control noop = true
is_control close_packet = true
is_control _ = false

abbrev pub IsData : Packet → Type 0
IsData p = is_control p.type ≡ false

abbrev pub data_packets : List Packet → List Packet
data_packets [] = []
data_packets (p ∷ ps) = if is_control p.type then data_packets ps else p ∷ data_packets ps

-- The packets that the socket created, and those that left it, in the order of the log.
abbrev pub created : List Output → List Packet
created [] = []
created (on_packet_create p ∷ log) = p ∷ created log
created (_ ∷ log) = created log

abbrev pub delivered : List Output → List Packet
delivered [] = []
delivered (answered ps ∷ log) = data_packets ps ++ delivered log
delivered (framed p ∷ log) = data_packets (p ∷ []) ++ delivered log
delivered (_ ∷ log) = delivered log

pub created-append : (l m : List Output) → created (l ++ m) ≡ created l ++ created m
created-append [] m = refl
created-append (on_packet_create p ∷ l) m = ap (◌∷◌ p) (created-append l m)
created-append (on_open ∷ l) m = created-append l m
created-append (_ ∷ l) m = created-append l m

pub delivered-append : (l m : List Output) → delivered (l ++ m) ≡ delivered l ++ delivered m
delivered-append [] m = refl
delivered-append (answered ps ∷ l) m =
    ap (◌++◌ (data_packets ps)) (delivered-append l m) ∙ sym (append_assoc (data_packets ps) _ _)
delivered-append (framed p ∷ l) m =
    ap (◌++◌ (data_packets (p ∷ []))) (delivered-append l m)
    ∙ sym (append_assoc (data_packets (p ∷ [])) _ _)
delivered-append (on_open ∷ l) m = delivered-append l m
delivered-append (_ ∷ l) m = delivered-append l m

pub data_packets-IsData : (ps : List Packet) → All IsData ps → data_packets ps ≡ ps
data_packets-IsData [] h = refl
data_packets-IsData (p ∷ ps) h = ground (arith, h.0, data_packets-IsData ps h.1)

-- A polling session can write exactly when a poll waits, and what it created is what it delivered
-- and what its buffer holds, in order.
pub record IsFaithful (s : Session) : Type 0 where
  pub is_polling : s.kind ≡ polling
  pub waits : s.writable ≡ s.poll
  pub clean : All IsData s.buffer
  pub kept : created s.log ≡ delivered s.log ++ s.buffer

-- An output that is neither.
abbrev pub IsNeutral : Output → Type 0
IsNeutral o = (created (o ∷ []) ≡ []) × (delivered (o ∷ []) ≡ [])

pub kept-append :
    (l m : List Output) (b : List Packet)
    → created l ≡ delivered l ++ b
    → created m ≡ []
    → delivered m ≡ []
    → created (l ++ m) ≡ delivered (l ++ m) ++ b
kept-append l m b h c d =
    rw (created-append l m, delivered-append l m, c, d, append-nil, append-nil) h

pub emit-IsFaithful :
    (o : Output) (s : Session) → IsNeutral o → IsFaithful s → IsFaithful (emit o s)
unfolding emit
emit-IsFaithful o s n f = record {
  is_polling = f.is_polling;
  waits = f.waits;
  clean = f.clean;
  kept = kept-append s.log (o ∷ []) s.buffer f.kept n.0 n.1;
}

-- The answer to a poll with a control packet.
pub control-IsFaithful :
    (t : PacketType) (s : Session)
    → is_control t ≡ true
    → IsFaithful s
    → IsFaithful (transport_send (bare t ∷ []) s)
unfolding transport_send write emit
control-IsFaithful t s c f =
    subst (λ k. IsFaithful (send_by k (bare t ∷ []) s)) (sym f.is_polling) (go s.poll refl)
  where
    go :
        (b : Bool)
        → s.poll ≡ b
        → IsFaithful (
            if b
            then emit (answered (bare t ∷ [])) (record s { writable = false; poll = false })
            else record s { writable = false })
    go true e = record {
      is_polling = f.is_polling;
      waits = refl;
      clean = f.clean;
      kept = kept-append s.log (answered (bare t ∷ []) ∷ []) s.buffer f.kept refl (rw c);
    }
    go false e = record { is_polling = f.is_polling; waits = sym e; clean = f.clean; kept = f.kept }

-- What keeps a session faithful.
abbrev pub Keeps : (Session → Session) → Type 0
Keeps h = (s : Session) → IsFaithful s → IsFaithful (h s)

pub on_close-Keeps : (h : Session → Session) → Keeps h → Keeps (transport_on_close h)
unfolding transport_on_close
on_close-Keeps h k s f = go s.bound
  where
    closed_too : IsFaithful (record s { transport = closed })
    closed_too = record {
      is_polling = f.is_polling;
      waits = f.waits;
      clean = f.clean;
      kept = f.kept;
    }

    go :
        (b : Bool)
        → IsFaithful
            (if b then h (record s { transport = closed }) else record s { transport = closed })
    go true = k _ closed_too
    go false = closed_too

pub do_close-Keeps : (h : Session → Session) → Keeps h → Keeps (do_close h)
unfolding do_close
do_close-Keeps h k s f =
    subst (λ t. IsFaithful (do_close_by t h s)) (sym f.is_polling)
      (on_close-Keeps h k _ (go s.writable (is_closing s.transport)))
  where
    go :
        (w c : Bool)
        → IsFaithful
            (if w then transport_send ((if c then bare close_packet else bare noop) ∷ []) s else s)
    go true true = control-IsFaithful close_packet s refl f
    go true false = control-IsFaithful noop s refl f
    go false c = f

pub with_transport :
    (t : ReadyState) (b : Bool) (s : Session)
    → IsFaithful s
    → IsFaithful (record s { transport = t; bound = b })
with_transport t b s f = record {
  is_polling = f.is_polling;
  waits = f.waits;
  clean = f.clean;
  kept = f.kept;
}

pub close_transport-Keeps : Keeps close_transport
unfolding close_transport
close_transport-Keeps s f = go (is_ending s.transport)
  where
    go :
        (b : Bool)
        → IsFaithful (
            if b
            then record s { bound = false }
            else do_close (λ t. t) (record s { bound = false; transport = closing }))
    go true = with_transport s.transport false s f
    go false = do_close-Keeps (λ t. t) (λ t g. g) _ (with_transport closing false s f)

pub with_ready :
    (r : ReadyState) (d : Bool) (n : ℕ) (a : Bool) (s : Session)
    → IsFaithful s
    → IsFaithful (record s { ready = r; close_on_drain = d; pings = n; awaits_pong = a })
with_ready r d n a s f = record {
  is_polling = f.is_polling;
  waits = f.waits;
  clean = f.clean;
  kept = f.kept;
}

pub socket_on_close-Keeps : (reason : CloseReason) → Keeps (socket_on_close reason)
unfolding socket_on_close
socket_on_close-Keeps reason s f = go (is_closed s.ready)
  where
    go :
        (b : Bool)
        → IsFaithful (
            if b
            then s
            else emit (on_close reason) (
                close_transport
                  (record s { ready = closed; pings = s.pings - 1; awaits_pong = false })))
    go true = f
    go false =
        emit-IsFaithful (on_close reason) _ (refl, refl)
          (close_transport-Keeps _ (with_ready closed s.close_on_drain (s.pings - 1) false s f))

pub force_close-Keeps : Keeps force_close
unfolding force_close
force_close-Keeps s f = socket_on_close-Keeps forced_close _ (close_transport-Keeps s f)

pub drained-Keeps : Keeps drained
unfolding drained
drained-Keeps s f = go s.close_on_drain
  where
    go :
        (b : Bool) → IsFaithful (if b then force_close (record s { close_on_drain = false }) else s)
    go true = force_close-Keeps _ (with_ready s.ready false s.pings s.awaits_pong s f)
    go false = f

-- The whole buffer goes out as the answer to the poll that waits.
pub deliver-IsFaithful :
    (s : Session)
    → s.writable ≡ true
    → IsFaithful s
    → IsFaithful (transport_send s.buffer (record (emit (on_flush s.buffer) s) { buffer = [] }))
unfolding transport_send write emit
deliver-IsFaithful s w f =
    subst
      (λ k.
        IsFaithful
          (send_by k s.buffer (record s { buffer = []; log = s.log ++ on_flush s.buffer ∷ [] })))
      (sym f.is_polling) (go s.poll (sym f.waits ∙ w))
  where
    go :
        (b : Bool)
        → b ≡ true
        → IsFaithful (
            if b
            then emit (answered s.buffer) (record s {
              writable = false;
              poll = false;
              buffer = [];
              log = s.log ++ on_flush s.buffer ∷ [];
            })
            else record s { writable = false; buffer = []; log = s.log ++ on_flush s.buffer ∷ [] })
    go true e = record {
      is_polling = f.is_polling;
      waits = refl;
      clean = tt;
      kept =
          simp (created-append, delivered-append, append-nil, data_packets-IsData s.buffer f.clean)
            f.kept;
    }
    go false e = absurd (cc)

pub flush-Keeps : Keeps flush
unfolding flush
flush-Keeps s f = go (is_closed s.ready) s.writable (is_empty s.buffer) refl
  where
    go :
        (c w e : Bool)
        → s.writable ≡ w
        → IsFaithful (
            if not c && w && not e
            then drained (
                emit on_drain
                  (transport_send s.buffer (record (emit (on_flush s.buffer) s) { buffer = [] })))
            else s)
    go false true false h =
        drained-Keeps _ (emit-IsFaithful on_drain _ (refl, refl) (deliver-IsFaithful s h f))
    go true w e h = f
    go false false e h = f
    go false true true h = f

-- ===== src/SocketAcks.antt =====
-- packages/socket.io/lib/socket.ts: `emit`, and the acknowledgements of what was emitted. A callback
-- is a value of `F`; timers are known by the number that `setTimeout` gives.
pub mod Entries
pub mod Once
mod Tests
use socket_io_deno.Common.{
  ℕ, ◌+◌, Bool, true, false, Option, none, some, List, [], ◌∷◌, ◌++◌, if◌then◌else◌, ℕ_discrete,
}
use socket_io_deno.Common.Dict
use socket_io_deno.Operator.{EventName, is_reserved, Argument, pop_ack}

-- What `_acks` holds: the callback itself, or the function that also clears a timer.
pub data Registered (F : Type 0) : Type 0 where
  without_timer : F → Registered F
  with_timer : F → ℕ → Registered F

-- An event packet; its namespace is that of the socket.
pub record Outgoing (E V F : Type 0) : Type 0 where
  pub event : EventName E
  pub args : List (Argument V F)
  pub id : Option ℕ

-- What the socket does, oldest first: listeners are notified of a packet, a packet is written, a
-- callback is registered under an id, or called with what came, with `null` before it, or with the
-- error of the timeout.
pub data Effect (E V F : Type 0) : Type 0 where
  notified written : Outgoing E V F → Effect E V F
  registered : ℕ → F → Effect E V F
  called called_with_null : ℕ → F → List V → Effect E V F
  timed_out : ℕ → F → Effect E V F

-- `ids` is `nsp._ids`; a running timer is for the callback of an id.
pub record Socket (E V F : Type 0) : Type 0 where
  pub connected : Bool
  pub ids : ℕ
  pub timeout : Option ℕ
  pub acks : List (ℕ × Registered F)
  pub timers : List (ℕ × (ℕ × F))
  pub next_timer : ℕ
  pub pre_connect_buffer : List (Outgoing E V F)
  pub effects : List (Effect E V F)

module _ {E V F : Type 0} where
  abbrev pub new_socket : ℕ → Socket E V F
  new_socket ids = record {
    connected = false;
    ids = ids;
    timeout = none;
    acks = [];
    timers = [];
    next_timer = 0;
    pre_connect_buffer = [];
    effects = [];
  }

  abbrev pub note : Effect E V F → Socket E V F → Socket E V F
  note e s = record s { effects = s.effects ++ e ∷ [] }

  -- `registerAckCallback`
  abbrev pub register_for : Option ℕ → ℕ → F → Socket E V F → Socket E V F
  register_for none id f s = record s { acks = Dict.set ℕ_discrete id (without_timer f) s.acks }
  register_for (some delay) id f s = record s {
    acks = Dict.set ℕ_discrete id (with_timer f s.next_timer) s.acks;
    timers = Dict.set ℕ_discrete s.next_timer (id, f) s.timers;
    next_timer = s.next_timer + 1;
  }

  unfoldable pub register_ack_callback : ℕ → F → Socket E V F → Socket E V F
  unfolding Dict.set
  register_ack_callback id f s = register_for s.timeout id f (note (registered id f) s)

  -- `socket._acks.set(packet.id, ack)` in `broadcastWithAck` of the adapter: no timer is set.
  abbrev pub broadcast_ack : ℕ → F → Socket E V F → Socket E V F
  broadcast_ack id f s = register_for none id f (note (registered id f) s)

  -- `flags.timeout` is reset; the packet is written, or kept until the socket is connected.
  unfoldable pub send : Outgoing E V F → Socket E V F → Socket E V F
  send p s =
      let t = record s { timeout = none } in
      if t.connected
      then note (written p) (note (notified p) t)
      else record t { pre_connect_buffer = t.pre_connect_buffer ++ p ∷ [] }

  abbrev pub emit_popped :
      EventName E
      → List (Argument V F)
      → Option (List (Argument V F) × F)
      → Socket E V F
      → Socket E V F
  emit_popped ev args none s = send (record { event = ev; args = args; id = none }) s
  emit_popped ev args (some (rest, f)) s =
      send (record { event = ev; args = rest; id = some s.ids })
        (register_ack_callback s.ids f (record s { ids = s.ids + 1 }))

  -- `emit`; none stands for the error for a reserved name.
  unfoldable pub emit : EventName E → List (Argument V F) → Socket E V F → Option (Socket E V F)
  unfolding pop_ack register_ack_callback send
  emit ev args s = if is_reserved ev then none else some (emit_popped ev args (pop_ack args) s)

  -- The timer of a callback, if it still runs.
  abbrev pub expire : ℕ → Option (ℕ × F) → Socket E V F → Socket E V F
  expire timer none s = s
  expire timer (some (id, f)) s = note (timed_out id f) (record s {
    timers = Dict.delete ℕ_discrete timer s.timers;
    acks = Dict.delete ℕ_discrete id s.acks;
  })

  unfoldable pub on_timer : ℕ → Socket E V F → Socket E V F
  unfolding Dict.get Dict.delete
  on_timer timer s = expire timer (Dict.get ℕ_discrete timer s.timers) s

  abbrev pub call_ack : ℕ → List V → Option (Registered F) → Socket E V F → Socket E V F
  call_ack id args none s = s
  call_ack id args (some (without_timer f)) s =
      note (called id f args) (record s { acks = Dict.delete ℕ_discrete id s.acks })
  call_ack id args (some (with_timer f timer)) s = note (called_with_null id f args) (record s {
    timers = Dict.delete ℕ_discrete timer s.timers;
    acks = Dict.delete ℕ_discrete id s.acks;
  })

  -- `onack`
  unfoldable pub on_ack : ℕ → List V → Socket E V F → Socket E V F
  unfolding Dict.get Dict.delete
  on_ack id args s = call_ack id args (Dict.get ℕ_discrete id s.acks) s

  unfoldable pub write_each : List (Outgoing E V F) → Socket E V F → Socket E V F
  write_each [] s = s
  write_each (p ∷ rest) s = write_each rest (note (written p) (note (notified p) s))

  -- `_onconnect`, of the packets that were kept.
  unfoldable pub on_connect : Socket E V F → Socket E V F
  unfolding write_each
  on_connect s =
      let t = write_each s.pre_connect_buffer (record s { connected = true }) in
      record t { pre_connect_buffer = [] }

  -- `timeout(delay)`
  abbrev pub set_timeout : ℕ → Socket E V F → Socket E V F
  set_timeout delay s = record s { timeout = some delay }

-- What may happen to a socket, in any order. `broadcasting` is a broadcast with an acknowledgement
-- that reaches this socket: it takes an id of the namespace, and `broadcastWithAck` of the adapter
-- sets its callback in `_acks`. `used_id` is a use of the counter of the namespace that does not touch
-- this socket, and an acknowledgement comes while the socket is connected.
pub data Input (E V F : Type 0) : Type 0 where
  emitting : EventName E → List (Argument V F) → Input E V F
  acknowledged : ℕ → List V → Input E V F
  timer_over setting_timeout : ℕ → Input E V F
  broadcasting : F → Input E V F
  connecting closing used_id : Input E V F

module _ {E V F : Type 0} where
  abbrev pub or_same : Option (Socket E V F) → Socket E V F → Socket E V F
  or_same none s = s
  or_same (some t) s = t

  unfoldable pub step : Input E V F → Socket E V F → Socket E V F
  unfolding emit on_ack on_timer on_connect
  step (emitting ev args) s = or_same (emit ev args s) s
  step (acknowledged id args) s = if s.connected then on_ack id args s else s
  step (timer_over timer) s = on_timer timer s
  step (setting_timeout delay) s = set_timeout delay s
  step connecting s = on_connect s
  step closing s = record s { connected = false }
  step used_id s = record s { ids = s.ids + 1 }
  step (broadcasting f) s = broadcast_ack s.ids f (record s { ids = s.ids + 1 })

  unfoldable pub run : List (Input E V F) → Socket E V F → Socket E V F
  unfolding step
  run [] s = s
  run (i ∷ rest) s = run rest (step i s)

-- ===== src/Operator.antt =====
-- packages/socket.io/lib/broadcast-operator.ts: the operator that a chain of calls builds. `to` and
-- its like give a new operator, so an operator is a value here.
pub mod Acks
pub mod Chains
pub mod Answers
mod Tests
use socket_io_deno.Common.{ℕ, Bool, true, false, Option, none, some, List, [], ◌∷◌, if◌then◌else◌}
use socket_io_deno.Common.KeySet
use socket_io_deno.Adapter.{BroadcastFlags, BroadcastOptions}
use socket_io_deno.Adapter.Apply.{Namespace, fetch_sockets, add_sockets, del_sockets}
use socket_io_deno.Adapter.Broadcast.{Packet, Hub, broadcast, broadcast_with_ack}
use socket_io_deno.Operator.Acks.{Waiting, started, on_client_count}

-- `Room | Room[]`
pub data Target (R : Type 0) : Type 0 where
  one : R → Target R
  many : List R → Target R

abbrev pub rooms_of : {R : Type 0} → Target R → List R
rooms_of (one room) = room ∷ []
rooms_of (many rooms) = rooms

-- `BroadcastOperator`, but for its adapter.
pub record Operator (R : Type 0) : Type 0 where
  pub rooms : List R
  pub except_rooms : List R
  pub flags : BroadcastFlags

abbrev pub no_flags : BroadcastFlags
no_flags = record { volatile = false; local = false; broadcast = false; timeout = none }

abbrev pub fresh : {R : Type 0} → Operator R
fresh = record { rooms = []; except_rooms = []; flags = no_flags }

abbrev pub options : {R : Type 0} → Operator R → BroadcastOptions R
options op = record { rooms = op.rooms; except = op.except_rooms; flags = some op.flags }

module _ {R : Type 0} (dr : Discrete R) where
  unfoldable pub add_targets : List R → List R → List R
  unfolding KeySet.add
  add_targets [] rooms = rooms
  add_targets (r ∷ rest) rooms = add_targets rest (KeySet.add dr r rooms)

  unfoldable pub to : Target R → Operator R → Operator R
  unfolding add_targets
  to room op = record op { rooms = add_targets (rooms_of room) op.rooms }

  unfoldable pub except : Target R → Operator R → Operator R
  unfolding add_targets
  except room op = record op { except_rooms = add_targets (rooms_of room) op.except_rooms }

module _ {R : Type 0} where
  abbrev pub volatile : Operator R → Operator R
  volatile op = record op { flags = record (op.flags) { volatile = true } }

  abbrev pub local : Operator R → Operator R
  local op = record op { flags = record (op.flags) { local = true } }

  abbrev pub timeout : ℕ → Operator R → Operator R
  timeout delay op = record op { flags = record (op.flags) { timeout = some delay } }

-- A call in a chain.
pub data Link (R : Type 0) : Type 0 where
  to_rooms except_rooms : Target R → Link R
  set_volatile set_local : Link R
  set_timeout : ℕ → Link R

unfoldable pub chain : {R : Type 0} → Discrete R → List (Link R) → Operator R → Operator R
unfolding to except
chain dr [] op = op
chain dr (to_rooms room ∷ rest) op = chain dr rest (to dr room op)
chain dr (except_rooms room ∷ rest) op = chain dr rest (except dr room op)
chain dr (set_volatile ∷ rest) op = chain dr rest (volatile op)
chain dr (set_local ∷ rest) op = chain dr rest (local op)
chain dr (set_timeout delay ∷ rest) op = chain dr rest (timeout delay op)

-- The names of `RESERVED_EVENTS`, and any other.
pub data EventName (E : Type 0) : Type 0 where
  connect connect_error disconnect disconnecting new_listener remove_listener : EventName E
  named : E → EventName E

abbrev pub is_reserved : {E : Type 0} → EventName E → Bool
is_reserved (named e) = false
is_reserved _ = true

-- An argument of `emit`, which may be a function.
pub data Argument (V F : Type 0) : Type 0 where
  plain : V → Argument V F
  function : F → Argument V F

-- `data.pop()`, if the last argument is a function.
unfoldable pub pop_ack : {V F : Type 0} → List (Argument V F) → Option (List (Argument V F) × F)
pop_ack [] = none
pop_ack (plain v ∷ []) = none
pop_ack (function f ∷ []) = some ([], f)
pop_ack (a ∷ b ∷ rest) = elim (pop_ack (b ∷ rest)) [ none ↦ none | some p ↦ some (a ∷ p.0, p.1) ]

-- What `emit` comes to: the error for a reserved name, or the state behind it. With a callback, that
-- is told of by what waits for the responses.
pub data Emitted (H V F : Type 0) : Type 0 where
  refused : Emitted H V F
  sent : H → Emitted H V F
  waiting : H → Waiting V → F → Emitted H V F

-- `C` are the callbacks that a socket keeps, and `client_response` the one that `emit` makes. The
-- adapter in memory calls back with the number of its clients before `emit` returns.
module _ {R S N E V F X C : Type 0} (dr : Discrete R) (ds : Discrete S)
    (encode : Packet N (EventName E × List (Argument V F)) → List X) (client_response : C) where
  unfoldable pub emit :
      EventName E
      → List (Argument V F)
      → Operator R
      → Hub R S N (EventName E × List (Argument V F)) X C
      → Emitted (Hub R S N (EventName E × List (Argument V F)) X C) V F
  unfolding broadcast broadcast_with_ack pop_ack on_client_count
  emit ev args op h = if is_reserved ev then refused else elim (pop_ack args) [
    | none ↦ sent (
        broadcast dr ds encode (record { nsp = h.name; id = none; payload = (ev, args) })
          (options op) h)
    | some p ↦
        let packet : Packet N (EventName E × List (Argument V F)) = record {
          nsp = h.name;
          id = none;
          payload = (ev, p.0);
        } in
        let r = broadcast_with_ack dr ds encode packet (options op) client_response h in
        waiting (r.1) (on_client_count (r.0) started) (p.1)
  ]

module _ {R S : Type 0} (dr : Discrete R) (ds : Discrete S) where
  unfoldable pub fetch : Operator R → Namespace R S → List S
  unfolding fetch_sockets
  fetch op n = fetch_sockets dr ds (options op) n

  unfoldable pub sockets_join : Target R → Operator R → Namespace R S → Namespace R S
  unfolding add_sockets
  sockets_join room op n = add_sockets dr ds (options op) (rooms_of room) n

  unfoldable pub sockets_leave : Target R → Operator R → Namespace R S → Namespace R S
  unfolding del_sockets
  sockets_leave room op n = del_sockets dr ds (options op) (rooms_of room) n

-- The operator of a `RemoteSocket`: the room of its own id.
abbrev pub remote_operator : {S : Type 0} → S → Operator S
remote_operator id = record fresh { rooms = id ∷ [] }

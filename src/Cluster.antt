-- ===== src/Cluster.antt =====
-- The class `Adapter` of packages/socket.io/lib/adapter.ts, by which the servers of a cluster work
-- together: what a server keeps, and what it publishes. `publishRequest` and `publishResponse` are
-- abstract there; here their calls are in the log `sent`. `I` are the ids: those that `generateId`
-- gives, and those by which the callbacks of a call are known.
pub mod Handlers
pub mod Requests
pub mod Runs
pub mod Settled
pub mod Once
pub mod Complete
pub mod Moves
pub mod Fetching
mod Tests
use socket_io_deno.Common.{
  ℕ, ◌+◌, ◌-◌, Bool, true, false, Option, none, some, List, [], ◌∷◌, ◌++◌, ◌==◌, map, length,
  if◌then◌else◌,
}
use socket_io_deno.Common.Dict
use socket_io_deno.Common.Dict.{or_empty}
use socket_io_deno.Adapter.{Adapter, BroadcastFlags, BroadcastOptions, socket_rooms}
use socket_io_deno.Adapter.Apply
use socket_io_deno.Adapter.Apply.{Namespace}
use socket_io_deno.Adapter.Broadcast
use socket_io_deno.Adapter.Broadcast.{Packet, Hub}

-- The data of a `ClusterRequest`, by its type; an option is there if its key is.
pub data Request (R N D I : Type 0) : Type 0 where
  broadcast_all : Packet N D → List R → List R → Option BroadcastFlags → Option I → Request R N D I
  sockets_join sockets_leave : List R → List R → List R → Request R N D I
  disconnect_all : List R → List R → Bool → Request R N D I
  fetch_all : List R → List R → I → Request R N D I
  emit_all : List D → Option I → Request R N D I
  other_request : Request R N D I

pub record ClusterRequest (R N D I : Type 0) : Type 0 where
  pub uid : I
  pub request : Request R N D I

-- What a pending request collects: a socket of this server, what `serializeSocket` tells of one of
-- another server, by its id and its rooms, and an argument of an acknowledgement.
pub data Reply (R S D : Type 0) : Type 0 where
  own_socket : S → Reply R S D
  remote_socket : S → List R → Reply R S D
  argument : D → Reply R S D

-- `ClusterResponse`, with its `requestId`.
pub data Response (R S D I : Type 0) : Type 0 where
  fetched : I → List (Reply R S D) → Response R S D I
  emitted_ack : I → D → Response R S D I
  counted_clients : I → ℕ → Response R S D I
  client_ack : I → D → Response R S D I
  other_response : I → Response R S D I

-- The two methods that wait for responses.
pub data Method : Type 0 where
  fetching emitting : Method

-- `PendingRequest`. Its timer has no state of its own: it is cleared when the entry is removed.
pub record PendingRequest (R S D : Type 0) : Type 0 where
  pub method : Method
  pub expected_count : ℕ
  pub current_count : ℕ
  pub responses : List (Reply R S D)

-- What waits for `serverCount()`.
pub data Counting (R S D : Type 0) : Type 0 where
  counting_fetch : List R → List R → List S → Counting R S D
  counting_emit : List D → Counting R S D

-- The acknowledgement callbacks that the sockets are given: those of a caller, and those that
-- answer a request of another server.
pub data AckCallback (I : Type 0) : Type 0 where
  own_ack : I → AckCallback I
  remote_ack : I → I → AckCallback I

-- What `setTimeout(..., 0)` puts off.
pub data Deferred (R N D I : Type 0) : Type 0 where
  later_broadcast : Packet N D → BroadcastOptions R → Deferred R N D I
  later_broadcast_with_ack : Packet N D → BroadcastOptions R → I → Deferred R N D I

-- What leaves the adapter: what it publishes, how promises and callbacks of its callers end, and
-- the arguments that `_onServerSideEmit` gets, with the number of the callback behind them.
pub data Sent (R S N D I : Type 0) : Type 0 where
  published : ClusterRequest R N D I → Sent R S N D I
  responded : I → Response R S D I → Sent R S N D I
  resolved : Method → I → List (Reply R S D) → Sent R S N D I
  timed_out : Method → I → ℕ → ℕ → List (Reply R S D) → Sent R S N D I
  told_count : I → ℕ → Sent R S N D I
  told_ack : I → D → Sent R S N D I
  side_emitted : List D → Option ℕ → Sent R S N D I

-- The callback of a server-side emit of another server: `called`, and where its answer goes.
pub record Callback (I : Type 0) : Type 0 where
  pub called : Bool
  pub requester : I
  pub request_id : I

pub record Node (R S N D E I : Type 0) : Type 0 where
  pub uid : I
  pub hub : Hub R S N D E (AckCallback I)
  pub pending : List (I × PendingRequest R S D)
  pub ack_requests : List I
  pub counting : List (I × Counting R S D)
  pub deferred : List (Deferred R N D I)
  pub callbacks : List (ℕ × Callback I)
  pub sent : List (Sent R S N D I)

-- `opts.flags?.local`
abbrev pub is_local : {R : Type 0} → BroadcastOptions R → Bool
is_local opts = elim opts.flags [ none ↦ false | some f ↦ f.local ]

module _ {R S N D E I : Type 0} where
  abbrev pub log : Sent R S N D I → Node R S N D E I → Node R S N D E I
  log e n = record n { sent = n.sent ++ e ∷ [] }

  abbrev pub publish : Request R N D I → Node R S N D E I → Node R S N D E I
  publish r n = log (published (record { uid = n.uid; request = r })) n

  abbrev pub on_namespace : (Namespace R S → Namespace R S) → Node R S N D E I → Node R S N D E I
  on_namespace f n = record n { hub = record (n.hub) { namespace = f n.hub.namespace } }

  abbrev pub publish_unless : Bool → Request R N D I → Node R S N D E I → Node R S N D E I
  publish_unless local r n = if local then n else publish r n

module _ {R S N D E I : Type 0} (dr : Discrete R) (ds : Discrete S) where
  unfoldable pub add_sockets : BroadcastOptions R → List R → Node R S N D E I → Node R S N D E I
  unfolding Apply.add_sockets
  add_sockets opts rooms n =
      publish_unless (is_local opts) (sockets_join opts.rooms opts.except rooms)
        (on_namespace (Apply.add_sockets dr ds opts rooms) n)

  unfoldable pub del_sockets : BroadcastOptions R → List R → Node R S N D E I → Node R S N D E I
  unfolding Apply.del_sockets
  del_sockets opts rooms n =
      publish_unless (is_local opts) (sockets_leave opts.rooms opts.except rooms)
        (on_namespace (Apply.del_sockets dr ds opts rooms) n)

-- `InMemoryAdapter.disconnectSockets`; `disconnect` is `socket.disconnect`, as far as it changes the
-- namespace.
unfoldable pub disconnect_local :
    {R S : Type 0} (dr : Discrete R) (ds : Discrete S)
    (disconnect : Bool → S → Namespace R S → Namespace R S)
    → BroadcastOptions R
    → Bool
    → Namespace R S
    → Namespace R S
unfolding Apply.apply
disconnect_local dr ds disconnect opts close = Apply.apply dr ds (λ n. n) (disconnect close) opts

module _ {R S N D E I : Type 0} (dr : Discrete R) (ds : Discrete S)
    (disconnect : Bool → S → Namespace R S → Namespace R S) where
  unfoldable pub disconnect_sockets :
      BroadcastOptions R → Bool → Node R S N D E I → Node R S N D E I
  unfolding disconnect_local
  disconnect_sockets opts close n =
      publish_unless (is_local opts) (disconnect_all opts.rooms opts.except close)
        (on_namespace (disconnect_local dr ds disconnect opts close) n)

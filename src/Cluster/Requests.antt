-- ===== src/Cluster/Requests.antt =====
-- The class `Adapter` of packages/socket.io/lib/adapter.ts: its `fetchSockets` and `broadcast`,
-- `onRequest`, and an adapter in a cluster as a state machine.
use socket_io_deno.Common.{
  ℕ, Bool, true, false, Option, none, some, List, [], ◌∷◌, ◌++◌, map, length, if◌then◌else◌, same,
  ℕ_discrete,
}
use socket_io_deno.Common.Dict
use socket_io_deno.Adapter.{BroadcastOptions}
use socket_io_deno.Adapter.Apply
use socket_io_deno.Adapter.Apply.{Namespace}
use socket_io_deno.Adapter.Broadcast
use socket_io_deno.Adapter.Broadcast.{Packet, Hub}
use socket_io_deno.Cluster.{
  Request, broadcast_all, sockets_join, sockets_leave, disconnect_all, fetch_all, emit_all,
  other_request, ClusterRequest, own_socket, Reply, fetched, emitted_ack, counted_clients,
  client_ack, fetching, counting_fetch, AckCallback, own_ack, remote_ack, Deferred, later_broadcast,
  later_broadcast_with_ack, responded, resolved, told_count, told_ack, side_emitted, Callback, Node,
  is_local, log, publish_unless, on_namespace, disconnect_local,
}
use socket_io_deno.Cluster.Handlers.{plain_options, serialize_socket}

module _ {R S N D E I : Type 0} where
  -- The local part is put off.
  abbrev pub broadcast : Packet N D → BroadcastOptions R → Node R S N D E I → Node R S N D E I
  broadcast packet opts n =
      let r = broadcast_all packet opts.rooms opts.except opts.flags none in
      let m = publish_unless (is_local opts) r n in
      record m { deferred = n.deferred ++ later_broadcast packet opts ∷ [] }

  -- The callbacks that the sockets were given, when a client acknowledges.
  abbrev pub on_client_ack : AckCallback I → D → Node R S N D E I → Node R S N D E I
  on_client_ack (own_ack q) d n = log (told_ack q d) n
  on_client_ack (remote_ack uid q) d n = log (responded uid (client_ack q d)) n

  abbrev pub call_back : ℕ → D → Option (Callback I) → Node R S N D E I → Node R S N D E I
  call_back i d none n = n
  call_back i d (some c) n =
      if c.called
      then n
      else log (responded c.requester (emitted_ack c.request_id d))
          (record n { callbacks = Dict.set ℕ_discrete i (record c { called = true }) n.callbacks })

  -- A listener calls the callback of a server-side emit.
  unfoldable pub on_callback : ℕ → D → Node R S N D E I → Node R S N D E I
  unfolding Dict.get Dict.set
  on_callback i d n = call_back i d (Dict.get ℕ_discrete i n.callbacks) n

  -- `_onServerSideEmit`, with a callback that answers the request `q` of `uid`.
  unfoldable pub side_emit : I → List D → Option I → Node R S N D E I → Node R S N D E I
  unfolding Dict.set
  side_emit uid packet none n = log (side_emitted packet none) n
  side_emit uid packet (some q) n =
      let i = length n.callbacks in
      log (side_emitted packet (some i)) (record n {
        callbacks =
            n.callbacks ++ (i, record { called = false; requester = uid; request_id = q }) ∷ [];
      })

module _ {R S N D E I : Type 0} (dr : Discrete R) (ds : Discrete S) where
  abbrev pub fetch_local : List R → List R → Node R S N D E I → List S
  fetch_local rooms except n =
      Apply.fetch_sockets dr ds (plain_options rooms except) n.hub.namespace

  -- The sockets that another server asks for.
  abbrev pub serialized : List R → List R → Node R S N D E I → List (Reply R S D)
  serialized rooms except n =
      map (serialize_socket dr ds n.hub.namespace.adapter) (fetch_local rooms except n)

module _ {R S N D E I : Type 0} (dr : Discrete R) (ds : Discrete S) (di : Discrete I) where
  unfoldable pub fetch_sockets : BroadcastOptions R → I → Node R S N D E I → Node R S N D E I
  unfolding Apply.fetch_sockets Dict.set
  fetch_sockets opts q n =
      let found = Apply.fetch_sockets dr ds opts n.hub.namespace in
      if is_local opts then log (resolved fetching q (map own_socket found)) n else record n {
        counting = Dict.set di q (counting_fetch opts.rooms opts.except found) n.counting;
      }

module _ {R S N D E I : Type 0} (dr : Discrete R) (ds : Discrete S) (di : Discrete I)
    (encode : Packet N D → List E) (disconnect : Bool → S → Namespace R S → Namespace R S) where
  -- `super.broadcast` and `super.broadcastWithAck`
  abbrev broadcast_local : Packet N D → BroadcastOptions R → Node R S N D E I → Node R S N D E I
  broadcast_local packet opts n = record n {
    hub = Broadcast.broadcast dr ds encode packet opts n.hub;
  }

  abbrev broadcast_local_with_ack :
      Packet N D → BroadcastOptions R → AckCallback I → Node R S N D E I → ℕ × Node R S N D E I
  broadcast_local_with_ack packet opts ack n =
      let r = Broadcast.broadcast_with_ack dr ds encode packet opts ack n.hub in
      (r.0, record n { hub = r.1 })

  abbrev pub perform : Deferred R N D I → Node R S N D E I → Node R S N D E I
  perform (later_broadcast packet opts) n = broadcast_local packet opts n
  perform (later_broadcast_with_ack packet opts q) n =
      let r = broadcast_local_with_ack packet opts (own_ack q) n in log (told_count q r.0) r.1

  -- What was put off runs in its order.
  unfoldable pub run_deferred : List (Deferred R N D I) → Node R S N D E I → Node R S N D E I
  unfolding Broadcast.broadcast Broadcast.broadcast_with_ack
  run_deferred [] n = n
  run_deferred (d ∷ rest) n = perform d (record n { deferred = rest })

  abbrev pub broadcast_for :
      I → Packet N D → BroadcastOptions R → Option I → Node R S N D E I → Node R S N D E I
  broadcast_for uid packet opts none n = broadcast_local packet opts n
  broadcast_for uid packet opts (some q) n =
      let r = broadcast_local_with_ack packet opts (remote_ack uid q) n in
      log (responded uid (counted_clients q r.0)) r.1

  -- The cases of `onRequest`.
  unfoldable pub handle : I → Request R N D I → Node R S N D E I → Node R S N D E I
  unfolding Broadcast.broadcast Broadcast.broadcast_with_ack Apply.add_sockets Apply.del_sockets
      Apply.fetch_sockets disconnect_local side_emit
  handle uid (broadcast_all packet rooms except flags id) n =
      broadcast_for uid packet (plain_options rooms except) id n
  handle uid (sockets_join rooms except joined) n =
      on_namespace (Apply.add_sockets dr ds (plain_options rooms except) joined) n
  handle uid (sockets_leave rooms except left) n =
      on_namespace (Apply.del_sockets dr ds (plain_options rooms except) left) n
  handle uid (disconnect_all rooms except close) n =
      on_namespace (disconnect_local dr ds disconnect (plain_options rooms except) close) n
  handle uid (fetch_all rooms except q) n =
      log (responded uid (fetched q (serialized dr ds rooms except n))) n
  handle uid (emit_all packet id) n = side_emit uid packet id n
  handle uid other_request n = n

  unfoldable pub on_request : ClusterRequest R N D I → Node R S N D E I → Node R S N D E I
  unfolding handle
  on_request r n = if same di r.uid n.uid then n else handle r.uid r.request n

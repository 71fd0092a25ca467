-- ===== src/Cluster/Handlers.antt =====
-- The class `Adapter` of packages/socket.io/lib/adapter.ts: the methods that wait for other servers,
-- `onRequest` and `onResponse`, and the timers and callbacks between them. A method that awaits
-- `serverCount()` goes on with the input `server_count`.
use socket_io_deno.Common.{
  ℕ, ◌+◌, ◌-◌, Option, none, some, List, [], ◌∷◌, ◌++◌, ◌==◌, map, if◌then◌else◌,
}
use socket_io_deno.Common.Dict
use socket_io_deno.Common.KeySet
use socket_io_deno.Common.Dict.{or_empty}
use socket_io_deno.Adapter.{Adapter, BroadcastOptions, socket_rooms}
use socket_io_deno.Adapter.Broadcast.{Packet}
use socket_io_deno.Cluster.{
  broadcast_all, fetch_all, emit_all, Reply, own_socket, remote_socket, argument, Response, fetched,
  emitted_ack, counted_clients, client_ack, other_response, Method, fetching, emitting,
  PendingRequest, Counting, counting_fetch, counting_emit, later_broadcast_with_ack, resolved,
  timed_out, told_count, told_ack, Node, is_local, log, publish,
}

-- `{ rooms: new Set(opts.rooms), except: new Set(opts.except) }`, without flags.
abbrev pub plain_options : {R : Type 0} → List R → List R → BroadcastOptions R
plain_options rooms except = record { rooms = rooms; except = except; flags = none }

-- `serializeSocket`, without the handshake and the data of the socket.
abbrev pub serialize_socket :
    {R S D : Type 0} → Discrete R → Discrete S → Adapter R S → S → Reply R S D
serialize_socket dr ds a s = remote_socket s (or_empty (socket_rooms dr ds s a))

-- `serverSideEmit` of a packet without an acknowledgement.
abbrev pub server_side_emit : {R S N D E I : Type 0} → List D → Node R S N D E I → Node R S N D E I
server_side_emit packet n = publish (emit_all packet none) n

module _ {R S N D E I : Type 0} (di : Discrete I) where
  abbrev pub wait : Method → I → ℕ → List (Reply R S D) → Node R S N D E I → Node R S N D E I
  wait method q expected found n = record n {
    pending =
        Dict.set di q
          (record {
            method = method;
            expected_count = expected;
            current_count = 0;
            responses = found;
          })
          n.pending;
  }

  -- `fetchSockets` and `#serverSideEmitWithAck` behind `await this.serverCount()`.
  abbrev pub counted_fetch : List R → List R → List S → I → ℕ → Node R S N D E I → Node R S N D E I
  counted_fetch rooms except found q servers n =
      if servers == 1
      then log (resolved fetching q (map own_socket found)) n
      else publish (fetch_all rooms except q)
          (wait fetching q (servers - 1) (map own_socket found) n)

  abbrev pub counted_emit : List D → I → ℕ → Node R S N D E I → Node R S N D E I
  counted_emit packet q servers n =
      if servers == 1
      then log (resolved emitting q []) n
      else publish (emit_all packet (some q)) (wait emitting q (servers - 1) [] n)

  unfoldable pub counted : Counting R S D → I → ℕ → Node R S N D E I → Node R S N D E I
  unfolding Dict.set
  counted (counting_fetch rooms except found) q servers n =
      counted_fetch rooms except found q servers n
  counted (counting_emit packet) q servers n = counted_emit packet q servers n

  abbrev pub go_on : I → ℕ → Option (Counting R S D) → Node R S N D E I → Node R S N D E I
  go_on q servers none n = n
  go_on q servers (some c) n =
      counted c q servers (record n { counting = Dict.delete di q n.counting })

  unfoldable pub on_server_count : I → ℕ → Node R S N D E I → Node R S N D E I
  unfolding counted Dict.get Dict.delete
  on_server_count q servers n = go_on q servers (Dict.get di q n.counting) n

  -- `serverSideEmit` of a packet with an acknowledgement.
  unfoldable pub server_side_emit_with_ack : List D → I → Node R S N D E I → Node R S N D E I
  unfolding Dict.set
  server_side_emit_with_ack packet q n = record n {
    counting = Dict.set di q (counting_emit packet) n.counting;
  }

  -- The timer of a pending request.
  abbrev pub give_up : I → Option (PendingRequest R S D) → Node R S N D E I → Node R S N D E I
  give_up q none n = n
  give_up q (some p) n =
      log (timed_out p.method q p.current_count p.expected_count p.responses)
        (record n { pending = Dict.delete di q n.pending })

  unfoldable pub on_timer : I → Node R S N D E I → Node R S N D E I
  unfolding Dict.get Dict.delete
  on_timer q n = give_up q (Dict.get di q n.pending) n

  unfoldable pub broadcast_with_ack :
      Packet N D → BroadcastOptions R → I → Node R S N D E I → Node R S N D E I
  unfolding KeySet.add
  broadcast_with_ack packet opts q n =
      let m = publish (broadcast_all packet opts.rooms opts.except opts.flags (some q)) n in
      let asked =
        if is_local opts then n else record m { ack_requests = KeySet.add di q n.ack_requests } in
      record asked { deferred = n.deferred ++ later_broadcast_with_ack packet opts q ∷ [] }

  -- The timer of it.
  unfoldable pub forget_ack : I → Node R S N D E I → Node R S N D E I
  unfolding KeySet.delete
  forget_ack q n = record n { ack_requests = KeySet.delete di q n.ack_requests }

  -- Another response of a pending request.
  unfoldable pub collect :
      I → List (Reply R S D) → PendingRequest R S D → Node R S N D E I → Node R S N D E I
  unfolding Dict.set Dict.delete
  collect q replies p n =
      let responses = p.responses ++ replies in
      let current = p.current_count + 1 in
      if current == p.expected_count
      then log (resolved p.method q responses) (record n { pending = Dict.delete di q n.pending })
      else record n {
        pending =
            Dict.set di q (record p { current_count = current; responses = responses }) n.pending;
      }

  abbrev pub respond_to :
      I → List (Reply R S D) → Option (PendingRequest R S D) → Node R S N D E I → Node R S N D E I
  respond_to q replies none n = n
  respond_to q replies (some p) n = collect q replies p n

  abbrev pub respond_pending : I → List (Reply R S D) → Node R S N D E I → Node R S N D E I
  respond_pending q replies n = respond_to q replies (Dict.get di q n.pending) n

  unfoldable pub on_response : Response R S D I → Node R S N D E I → Node R S N D E I
  unfolding Dict.get collect KeySet.has
  on_response (fetched q sockets) n = respond_pending q sockets n
  on_response (emitted_ack q d) n = respond_pending q (argument d ∷ []) n
  on_response (counted_clients q count) n =
      if KeySet.has di q n.ack_requests then log (told_count q count) n else n
  on_response (client_ack q d) n =
      if KeySet.has di q n.ack_requests then log (told_ack q d) n else n
  on_response (other_response q) n = n

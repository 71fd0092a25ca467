-- ===== src/Cluster/Runs.antt =====
-- The class `Adapter` of packages/socket.io/lib/adapter.ts as a state machine: what may reach the
-- adapter of one server, in any order.
use socket_io_deno.Common.{ℕ, Bool, List, [], ◌∷◌}
use socket_io_deno.Adapter.{BroadcastOptions}
use socket_io_deno.Adapter.Apply.{Namespace}
use socket_io_deno.Adapter.Broadcast.{Packet, Hub}
use socket_io_deno.Cluster.{
  ClusterRequest, Response, AckCallback, Node, add_sockets, del_sockets, disconnect_sockets,
}
use socket_io_deno.Cluster.Handlers.{
  on_server_count, server_side_emit, server_side_emit_with_ack, on_timer, broadcast_with_ack,
  forget_ack, on_response,
}
use socket_io_deno.Cluster.Requests.{
  broadcast, on_client_ack, on_callback, fetch_sockets, run_deferred, on_request,
}

-- The calls of its methods, the messages of other servers, the answers of `serverCount()`, the
-- timers, and the calls of the callbacks that it gave away.
pub data Input (R S N D I : Type 0) : Type 0 where
  adding deleting : BroadcastOptions R → List R → Input R S N D I
  disconnecting : BroadcastOptions R → Bool → Input R S N D I
  fetching_sockets : BroadcastOptions R → I → Input R S N D I
  side_emitting : List D → Input R S N D I
  side_emitting_with_ack : List D → I → Input R S N D I
  broadcasting : Packet N D → BroadcastOptions R → Input R S N D I
  broadcasting_with_ack : Packet N D → BroadcastOptions R → I → Input R S N D I
  requested : ClusterRequest R N D I → Input R S N D I
  answered : Response R S D I → Input R S N D I
  server_count : I → ℕ → Input R S N D I
  time_over ack_time_over : I → Input R S N D I
  deferred_run : Input R S N D I
  acknowledged : AckCallback I → D → Input R S N D I
  called_back : ℕ → D → Input R S N D I

-- The constructor, behind that of `InMemoryAdapter`.
abbrev pub new_node : {R S N D E I : Type 0} → I → Hub R S N D E (AckCallback I) → Node R S N D E I
new_node uid hub = record {
  uid = uid;
  hub = hub;
  pending = [];
  ack_requests = [];
  counting = [];
  deferred = [];
  callbacks = [];
  sent = [];
}

module _ {R S N D E I : Type 0} (dr : Discrete R) (ds : Discrete S) (di : Discrete I)
    (encode : Packet N D → List E) (disconnect : Bool → S → Namespace R S → Namespace R S) where
  unfoldable pub step : Input R S N D I → Node R S N D E I → Node R S N D E I
  unfolding add_sockets del_sockets disconnect_sockets fetch_sockets on_server_count
      server_side_emit_with_ack on_timer broadcast_with_ack forget_ack on_response on_callback
      run_deferred on_request
  step (adding opts rooms) n = add_sockets dr ds opts rooms n
  step (deleting opts rooms) n = del_sockets dr ds opts rooms n
  step (disconnecting opts close) n = disconnect_sockets dr ds disconnect opts close n
  step (fetching_sockets opts q) n = fetch_sockets dr ds di opts q n
  step (side_emitting packet) n = server_side_emit packet n
  step (side_emitting_with_ack packet q) n = server_side_emit_with_ack di packet q n
  step (broadcasting packet opts) n = broadcast packet opts n
  step (broadcasting_with_ack packet opts q) n = broadcast_with_ack di packet opts q n
  step (requested r) n = on_request dr ds di encode disconnect r n
  step (answered r) n = on_response di r n
  step (server_count q servers) n = on_server_count di q servers n
  step (time_over q) n = on_timer di q n
  step (ack_time_over q) n = forget_ack di q n
  step deferred_run n = run_deferred dr ds di encode disconnect n.deferred n
  step (acknowledged ack d) n = on_client_ack ack d n
  step (called_back i d) n = on_callback i d n

  unfoldable pub run : List (Input R S N D I) → Node R S N D E I → Node R S N D E I
  unfolding step
  run [] n = n
  run (i ∷ rest) n = run rest (step i n)

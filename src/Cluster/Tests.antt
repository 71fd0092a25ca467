-- ===== src/Cluster/Tests.antt =====
-- The theorems about a cluster at concrete inputs, and runs. Rooms, sockets, servers and calls are
-- numbers.
use socket_io_deno.Common.{
  ℕ, ◌+◌, Bool, none, List, [], ◌∷◌, ◌++◌, map, length, ◌≡◌, refl, arith, ℕ_discrete, All,
}
use socket_io_deno.Common.KeySet
use socket_io_deno.Adapter.{BroadcastOptions, init, add_all, del_all}
use socket_io_deno.Adapter
use socket_io_deno.Adapter.Apply
use socket_io_deno.Adapter.Apply.{Namespace}
use socket_io_deno.Adapter.Broadcast.{Packet, Hub}
use socket_io_deno.Cluster.{
  AckCallback, fetch_all, ClusterRequest, own_socket, remote_socket, Response, fetched, emitted_ack,
  fetching, published, resolved, Node,
}
use socket_io_deno.Cluster.Requests.{serialized, on_request}
use socket_io_deno.Cluster.Runs.{
  Input, fetching_sockets, server_count, answered, time_over, broadcasting, deferred_run, run,
  new_node,
}
use socket_io_deno.Cluster.Settled.{outcomes, waiting}
use socket_io_deno.Cluster.Once.{calls_of, calls_by, total-run-new_node}
use socket_io_deno.Cluster.Complete.{respond_all, brought_all, concat}
use socket_io_deno.Cluster.Moves.{
  join, called, asked, moved, own_namespace, own_namespace-on_request-called,
}
use socket_io_deno.Cluster.Fetching.{Answers, fetching_from, respond_all-fetch_sockets}

abbrev dec : Discrete ℕ
dec = ℕ_discrete

-- A server with one socket, which is in the room 1.
abbrev server_hub : ℕ → Hub ℕ ℕ ℕ ℕ ℕ (AckCallback ℕ)
server_hub socket = record {
  name = 0;
  namespace = record {
    adapter = Adapter.add_all dec dec socket (1 ∷ []) Adapter.init;
    sockets = socket ∷ [];
  };
  ids = 0;
  acks = [];
  effects = [];
}

abbrev server : ℕ → ℕ → Node ℕ ℕ ℕ ℕ ℕ ℕ
server uid socket = new_node uid (server_hub socket)

abbrev encode : Packet ℕ ℕ → List ℕ
encode p = p.payload ∷ []

abbrev disconnect : Bool → ℕ → Namespace ℕ ℕ → Namespace ℕ ℕ
disconnect close s n = record {
  adapter = Adapter.del_all dec dec s n.adapter;
  sockets = KeySet.delete ℕ_discrete s n.sockets;
}

abbrev in_room_one : BroadcastOptions ℕ
in_room_one = record { rooms = 1 ∷ []; except = []; flags = none }

abbrev requester : Node ℕ ℕ ℕ ℕ ℕ ℕ
requester = server 10 5

abbrev joining : ClusterRequest ℕ ℕ ℕ ℕ
joining = asked (join in_room_one (2 ∷ [])) 10

own_namespace-on_request-called_example :
    ((called dec dec disconnect (join in_room_one (2 ∷ [])) requester).sent
      ≡ [] ++ published joining ∷ [])
    × (map own_namespace (
          map (on_request dec dec dec encode disconnect joining) (
            server 20 6
            ∷ called dec dec disconnect (join in_room_one (2 ∷ [])) requester
            ∷ server 30 7
            ∷ []))
        ≡ map
            (λ n. moved dec dec disconnect (join in_room_one (2 ∷ [])) (own_namespace n))
            (server 20 6 ∷ requester ∷ server 30 7 ∷ []))
unfolding ℕ_discrete
own_namespace-on_request-called_example =
    own_namespace-on_request-called dec dec dec encode disconnect (join in_room_one (2 ∷ []))
      (server 20 6 ∷ []) (server 30 7 ∷ []) requester refl (refl, tt) (refl, tt)

-- The call waits for the responses of two servers.
abbrev fetch_inputs : List (Input ℕ ℕ ℕ ℕ ℕ)
fetch_inputs =
    fetching_sockets in_room_one 100
    ∷ server_count 100 3
    ∷ broadcasting (record { nsp = 0; id = none; payload = 4 }) in_room_one
    ∷ answered (fetched 100 (remote_socket 6 (1 ∷ []) ∷ []))
    ∷ deferred_run
    ∷ answered (fetched 100 (remote_socket 7 (1 ∷ []) ∷ []))
    ∷ time_over 100
    ∷ answered (fetched 100 [])
    ∷ []

abbrev fetched_node : Node ℕ ℕ ℕ ℕ ℕ ℕ
fetched_node = run dec dec dec encode disconnect fetch_inputs requester

settled_once :
    outcomes dec 100 fetched_node.sent
    ≡ resolved fetching 100
        (own_socket 5 ∷ remote_socket 6 (1 ∷ []) ∷ remote_socket 7 (1 ∷ []) ∷ [])
      ∷ []
unfolding run outcomes ℕ_discrete init
settled_once = refl

total-run-new_node_example :
    length (outcomes dec 100 fetched_node.sent) + waiting dec 100 fetched_node
    ≡ calls_of dec 100 fetch_inputs
unfolding calls_of calls_by ℕ_discrete
total-run-new_node_example =
    total-run-new_node dec dec dec encode disconnect 100 10 (server_hub 5) fetch_inputs
      (omega arith)

-- The two answers, and a response to another request.
abbrev responses : List (Response ℕ ℕ ℕ ℕ)
responses =
    fetched 100 (remote_socket 6 (1 ∷ []) ∷ [])
    ∷ emitted_ack 101 3
    ∷ fetched 100 (remote_socket 7 (1 ∷ []) ∷ [])
    ∷ []

abbrev fetch_request : ClusterRequest ℕ ℕ ℕ ℕ
fetch_request = record { uid = 10; request = fetch_all (1 ∷ []) [] 100 }

respond_all-fetch_sockets_example :
    let asked = fetching_from dec dec dec in_room_one 100 3 requester in
    let found = map own_socket (Apply.fetch_sockets dec dec in_room_one requester.hub.namespace) in
    let rest = concat (map (serialized dec dec (1 ∷ []) []) (server 20 6 ∷ server 30 7 ∷ [])) in
    (asked.sent ≡ [] ++ published fetch_request ∷ [])
    × All
        (Answers dec dec dec encode disconnect fetch_request (1 ∷ []) [] 100)
        (server 20 6 ∷ server 30 7 ∷ [])
    × (outcomes dec 100 asked.sent ≡ outcomes dec 100 [])
    × (outcomes dec 100 (respond_all dec responses asked).sent
        ≡ outcomes dec 100 [] ++ resolved fetching 100 (found ++ rest) ∷ [])
unfolding brought_all ℕ_discrete Apply.fetch_sockets Adapter.add_all Adapter.init
    Adapter.socket_rooms
respond_all-fetch_sockets_example =
    respond_all-fetch_sockets dec dec dec encode disconnect in_room_one 100 requester (server 20 6)
      (server 30 7 ∷ []) responses refl (refl, (refl, tt)) refl

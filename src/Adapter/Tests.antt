-- ===== src/Adapter/Tests.antt =====
-- The theorems about `InMemoryAdapter` at concrete inputs, and runs of it.
use socket_io_deno.Common.{ℕ, false, not, ◌&&◌, ◌||◌, none, List, [], ◌∷◌, ◌≡◌, refl, ℕ_discrete}
use socket_io_deno.Common.KeySet
use socket_io_deno.Adapter.{
  Adapter, create_room, delete_room, join_room, leave_room, BroadcastOptions, Call, add_alls, dels,
  del_alls, run, add_all, del, del_all, init, in_room,
}
use socket_io_deno.Adapter.Apply.{Namespace, fetch_sockets, add_sockets, del_sockets}
use socket_io_deno.Adapter.Broadcast.{
  Packet, Hub, broadcast, broadcast_with_ack, Acked, deliveries, broadcast-fetch_sockets,
  broadcast_with_ack-fetch_sockets,
}
use socket_io_deno.Adapter.Events.{IsTold, run-init-IsTold}
use socket_io_deno.Adapter.Invariant.{
  IsConsistent, after_calls, run-init-IsConsistent, in_room-run-init,
}
use socket_io_deno.Adapter.Targets.Fetch.{has-fetch_sockets, fetch_sockets-Distinct}
use socket_io_deno.Adapter.Targets.Moves.{in_room-add_sockets, in_room-del_sockets}
use socket_io_deno.Adapter.Targets.{in_any}

-- Sockets 1, 2 and 3 join rooms 10 and 20; socket 2 leaves one, socket 3 everything.
abbrev history : List (Call ℕ ℕ)
history =
    add_alls 1 (10 ∷ 20 ∷ [])
    ∷ add_alls 2 (10 ∷ 20 ∷ [])
    ∷ add_alls 3 (20 ∷ 30 ∷ [])
    ∷ dels 2 10
    ∷ del_alls 3
    ∷ []

abbrev after : Adapter ℕ ℕ
after = run ℕ_discrete ℕ_discrete history init

abbrev to_20 : BroadcastOptions ℕ
to_20 = record { rooms = 10 ∷ 20 ∷ []; except = []; flags = none }

abbrev not_10 : BroadcastOptions ℕ
not_10 = record { rooms = 20 ∷ []; except = 10 ∷ []; flags = none }

abbrev namespace : Namespace ℕ ℕ
namespace = record { adapter = after; sockets = 1 ∷ 2 ∷ [] }

emitted_events :
    after.emitted
    ≡ create_room 10
      ∷ join_room 10 1
      ∷ create_room 20
      ∷ join_room 20 1
      ∷ join_room 10 2
      ∷ join_room 20 2
      ∷ join_room 20 3
      ∷ create_room 30
      ∷ join_room 30 3
      ∷ leave_room 10 2
      ∷ leave_room 20 3
      ∷ leave_room 30 3
      ∷ delete_room 30
      ∷ []
unfolding run add_all del del_all init ℕ_discrete
emitted_events = refl

fetched : fetch_sockets ℕ_discrete ℕ_discrete to_20 namespace ≡ 1 ∷ 2 ∷ []
unfolding fetch_sockets run add_all del del_all init ℕ_discrete
fetched = refl

fetched_except : fetch_sockets ℕ_discrete ℕ_discrete not_10 namespace ≡ 2 ∷ []
unfolding fetch_sockets run add_all del del_all init ℕ_discrete
fetched_except = refl

in_room-run-init_example :
    in_room ℕ_discrete ℕ_discrete after ≡ after_calls ℕ_discrete ℕ_discrete history (λ r s. false)
in_room-run-init_example = in_room-run-init ℕ_discrete ℕ_discrete history

run-init-IsConsistent_example : IsConsistent ℕ_discrete ℕ_discrete after
run-init-IsConsistent_example = run-init-IsConsistent ℕ_discrete ℕ_discrete history

run-init-IsTold_example : IsTold ℕ_discrete ℕ_discrete after
run-init-IsTold_example = run-init-IsTold ℕ_discrete ℕ_discrete history

has-fetch_sockets_example :
    KeySet.has ℕ_discrete 2 (fetch_sockets ℕ_discrete ℕ_discrete not_10 namespace) ≡ (
      not (in_any ℕ_discrete ℕ_discrete after (10 ∷ []) 2)
      && KeySet.has ℕ_discrete 2 (1 ∷ 2 ∷ [])
      && in_any ℕ_discrete ℕ_discrete after (20 ∷ []) 2)
has-fetch_sockets_example = has-fetch_sockets ℕ_discrete ℕ_discrete not_10 namespace 2

fetch_sockets-Distinct_example :
    KeySet.Distinct ℕ_discrete (fetch_sockets ℕ_discrete ℕ_discrete to_20 namespace)
fetch_sockets-Distinct_example =
    fetch_sockets-Distinct ℕ_discrete ℕ_discrete history to_20 (1 ∷ 2 ∷ [])

in_room-add_sockets_example :
    in_room ℕ_discrete ℕ_discrete
      (add_sockets ℕ_discrete ℕ_discrete not_10 (40 ∷ []) namespace).adapter
      40
      2
    ≡ (KeySet.has ℕ_discrete 2 (fetch_sockets ℕ_discrete ℕ_discrete not_10 namespace)
          && KeySet.has ℕ_discrete 40 (40 ∷ [])
        || in_room ℕ_discrete ℕ_discrete after 40 2)
in_room-add_sockets_example =
    in_room-add_sockets ℕ_discrete ℕ_discrete not_10 (40 ∷ []) namespace 40 2

in_room-del_sockets_example :
    in_room ℕ_discrete ℕ_discrete
      (del_sockets ℕ_discrete ℕ_discrete to_20 (20 ∷ []) namespace).adapter
      20
      1
    ≡ (not (
          KeySet.has ℕ_discrete 1 (fetch_sockets ℕ_discrete ℕ_discrete to_20 namespace)
          && KeySet.has ℕ_discrete 20 (20 ∷ []))
        && in_room ℕ_discrete ℕ_discrete after 20 1)
in_room-del_sockets_example =
    in_room-del_sockets ℕ_discrete ℕ_discrete to_20 (20 ∷ []) namespace 20 1

-- An encoder that shows the name, the id and the content.
abbrev encode : Packet ℕ ℕ → List ℕ
encode p = p.nsp ∷ p.payload ∷ []

abbrev hub : Hub ℕ ℕ ℕ ℕ ℕ ℕ
hub = record { name = 7; namespace = namespace; ids = 5; acks = []; effects = [] }

abbrev hello : Packet ℕ ℕ
hello = record { nsp = 7; id = none; payload = 99 }

broadcast-fetch_sockets_example :
    broadcast ℕ_discrete ℕ_discrete encode hello to_20 hub ≡ record hub {
      effects =
          deliveries 99 (7 ∷ 99 ∷ []) false (fetch_sockets ℕ_discrete ℕ_discrete to_20 namespace);
    }
broadcast-fetch_sockets_example =
    broadcast-fetch_sockets ℕ_discrete ℕ_discrete encode hello to_20 hub

broadcast_with_ack-fetch_sockets_example :
    Acked ℕ_discrete ℕ_discrete encode 5 3 99
      (7 ∷ 99 ∷ [])
      false
      (fetch_sockets ℕ_discrete ℕ_discrete to_20 namespace)
      (0, record hub { ids = 6 })
      (broadcast_with_ack ℕ_discrete ℕ_discrete encode hello to_20 3 hub)
broadcast_with_ack-fetch_sockets_example =
    broadcast_with_ack-fetch_sockets ℕ_discrete ℕ_discrete encode hello to_20 3 hub

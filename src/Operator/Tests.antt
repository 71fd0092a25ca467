-- ===== src/Operator/Tests.antt =====
-- Runs of packages/socket.io/lib/broadcast-operator.ts: two sockets, 1 in the room 20 and 2 in 20 and
-- 30.
use socket_io_deno.Common.{ℕ, true, ℕ_discrete, List, [], ◌∷◌, ◌++◌, length, ◌≡◌, refl, arith}
use socket_io_deno.Common.KeySet
use socket_io_deno.Common.Dict
use socket_io_deno.Adapter.Apply.{Namespace, fetch_sockets}
use socket_io_deno.Adapter.Broadcast.{Packet, Hub}
use socket_io_deno.Operator.{
  one, many, Link, to_rooms, except_rooms, set_volatile, fresh, chain, fetch, EventName, connect,
  named, Argument, plain, function, emit, refused, pop_ack,
}
use socket_io_deno.Operator.Acks.{
  in_time, started, Happening, client_count, server_count, client_response, time_over, run,
}
use socket_io_deno.Operator.Acks.Once.{run-time_over-once}
use socket_io_deno.Operator.Acks.Complete.{run_complete}
use socket_io_deno.Operator.Chains.{has-fetch-chain}
use socket_io_deno.Operator.Answers.{answers, replies, emit-answers}

abbrev namespace : Namespace ℕ ℕ
namespace = record {
  adapter = record {
    rooms = (20, 1 ∷ 2 ∷ []) ∷ (30, 2 ∷ []) ∷ [];
    sids = (1, 20 ∷ []) ∷ (2, 20 ∷ 30 ∷ []) ∷ [];
    emitted = [];
  };
  sockets = 1 ∷ 2 ∷ [];
}

abbrev links : List (Link ℕ)
links = to_rooms (one 20) ∷ set_volatile ∷ except_rooms (many (30 ∷ 40 ∷ [])) ∷ []

abbrev hub : Hub ℕ ℕ ℕ (EventName ℕ × List (Argument ℕ ℕ)) ℕ ℕ
hub = record { name = 7; namespace = namespace; ids = 5; acks = []; effects = [] }

abbrev encode : Packet ℕ (EventName ℕ × List (Argument ℕ ℕ)) → List ℕ
encode p = p.nsp ∷ []

refuses : emit ℕ_discrete ℕ_discrete encode 3 connect [] fresh hub ≡ refused
unfolding emit
refuses = refl

has-fetch-chain_example :
    KeySet.has ℕ_discrete 1 (fetch ℕ_discrete ℕ_discrete (chain ℕ_discrete links fresh) namespace)
    ≡ true
unfolding KeySet.has Dict.get ℕ_discrete
has-fetch-chain_example = has-fetch-chain ℕ_discrete ℕ_discrete links namespace 1

abbrev unruly : List (Happening ℕ)
unruly = client_count 1 ∷ server_count 1 ∷ client_response 8 ∷ client_response 9 ∷ []

run-time_over-once_example : length ((run (unruly ++ time_over ∷ []) started).calls) ≡ 1
run-time_over-once_example = run-time_over-once unruly (omega arith)

-- The two servers report before and after the number of servers is known.
abbrev early : List (Happening ℕ)
early = client_count 1 ∷ client_response 8 ∷ []

abbrev late : List (Happening ℕ)
late = client_count 1 ∷ client_response 9 ∷ []

run_complete_example :
    (run (early ++ server_count 2 ∷ late) started).calls ≡ in_time (8 ∷ 9 ∷ []) ∷ []
run_complete_example = run_complete early late 2 tt tt refl refl

emit-answers_example :
    answers
      (emit ℕ_discrete ℕ_discrete encode 3
        (named 4)
        (plain 6 ∷ function 9 ∷ [])
        (chain ℕ_discrete links fresh)
        hub)
      (server_count 1 ∷ replies (8 ∷ []))
    ≡ in_time (8 ∷ []) ∷ []
unfolding fetch pop_ack fetch_sockets chain ℕ_discrete
emit-answers_example =
    emit-answers ℕ_discrete ℕ_discrete encode 3 (named 4) (plain 6 ∷ function 9 ∷ []) (plain 6 ∷ [])
      9 (chain ℕ_discrete links fresh) hub (8 ∷ []) refl refl refl

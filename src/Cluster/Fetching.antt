-- ===== src/Cluster/Fetching.antt =====
-- The class `Adapter` of packages/socket.io/lib/adapter.ts: `fetchSockets` over all the servers.
use socket_io_deno.Common.{
  ℕ, suc, ◌-◌, Bool, false, some, List, [], ◌∷◌, ◌++◌, ◌==◌, map, length, ◌≡◌, refl, ap, ◌∙◌, arith,
  same, All,
}
use socket_io_deno.Common.Dict
use socket_io_deno.Adapter.{BroadcastOptions}
use socket_io_deno.Adapter.Apply
use socket_io_deno.Adapter.Apply.{Namespace}
use socket_io_deno.Adapter.Broadcast.{Packet}
use socket_io_deno.Cluster.{
  fetch_all, ClusterRequest, Reply, own_socket, Response, fetched, fetching, counting_fetch,
  published, responded, resolved, Node, is_local,
}
use socket_io_deno.Cluster.Handlers.{on_server_count, counted}
use socket_io_deno.Cluster.Requests.{fetch_sockets, serialized, on_request, handle}
use socket_io_deno.Cluster.Settled.{is_outcome, outcomes}
use socket_io_deno.Cluster.Complete.{
  brought_all, respond_all, concat, outcomes-quiet, same_self, respond_all-resolved,
}

more-servers : (k : ℕ) → (suc (suc k) == 1) ≡ false
more-servers k = ground arith

other-servers : (k : ℕ) → suc (suc k) - 1 ≡ suc k
other-servers k = omega arith

length-map : {A B : Type 0} (f : A → B) (l : List A) → length (map f l) ≡ length l
length-map f [] = refl
length-map f (a ∷ l) = omega (arith, length-map f l)

module _ {R S N D E I : Type 0} (dr : Discrete R) (ds : Discrete S) (di : Discrete I) where
  -- The call, and the number of servers.
  abbrev pub fetching_from : BroadcastOptions R → I → ℕ → Node R S N D E I → Node R S N D E I
  fetching_from opts q servers n = on_server_count di q servers (fetch_sockets dr ds di opts q n)

  abbrev own_sockets : BroadcastOptions R → Node R S N D E I → List (Reply R S D)
  own_sockets opts n = map own_socket (Apply.fetch_sockets dr ds opts n.hub.namespace)

  fetching_from-sent :
      (opts : BroadcastOptions R) (q : I) (k : ℕ) (n : Node R S N D E I)
      → is_local opts ≡ false
      → let m = fetching_from opts q (suc (suc k)) n in
        (m.sent
          ≡ n.sent
            ++ published (record { uid = n.uid; request = fetch_all opts.rooms opts.except q })
              ∷ [])
        × (Dict.get di q m.pending
            ≡ some (record {
              method = fetching;
              expected_count = suc k;
              current_count = 0;
              responses = own_sockets opts n;
            }))
  unfolding on_server_count fetch_sockets counted
  fetching_from-sent opts q k n h =
      let found = Apply.fetch_sockets dr ds opts n.hub.namespace in
      let c = counting_fetch opts.rooms opts.except found in
      rw (h, Dict.get-set di q q c n.counting, same_self di q, more-servers k, other-servers k)
        (refl, Dict.get-set di q q _ n.pending ∙ rw (same_self di q) refl)

module _ {R S N D E I : Type 0} (dr : Discrete R) (ds : Discrete S) (di : Discrete I)
    (encode : Packet N D → List E) (disconnect : Bool → S → Namespace R S → Namespace R S) where
  -- Another server answers the request.
  abbrev pub Answers : ClusterRequest R N D I → List R → List R → I → Node R S N D E I → Type 0
  Answers r rooms except q n =
      (on_request dr ds di encode disconnect r n).sent
      ≡ n.sent ++ responded r.uid (fetched q (serialized dr ds rooms except n)) ∷ []

  on_request-Answers :
      (uid q : I) (rooms except : List R) (l : List (Node R S N D E I))
      → All (λ n. same di uid n.uid ≡ false) l
      → All (Answers (record { uid = uid; request = fetch_all rooms except q }) rooms except q) l
  unfolding on_request handle
  on_request-Answers uid q rooms except [] h = tt
  on_request-Answers uid q rooms except (n ∷ l) h =
      (rw h.0 refl, on_request-Answers uid q rooms except l h.1)

  -- Let `fetchSockets` be called at one server of a cluster of at least two, without the flag
  -- `local`; let the uids of the other servers differ from its own, and let it be told the number
  -- of the servers. Then it publishes one request, and each of the others, given that request,
  -- answers with its own sockets that the options reach, with their rooms. Let these answers come in,
  -- in any order of the servers, before the timer, and among any responses to other requests. Then
  -- the promise, until then not settled, is resolved with the sockets of its own server that the
  -- options reach, followed by those of the answers.
  pub respond_all-fetch_sockets :
      (opts : BroadcastOptions R) (q : I) (origin other : Node R S N D E I)
      (others : List (Node R S N D E I)) (l : List (Response R S D I))
      → is_local opts ≡ false
      → All (λ n. same di origin.uid n.uid ≡ false) (other ∷ others)
      → brought_all di q l ≡ map (serialized dr ds opts.rooms opts.except) (other ∷ others)
      → let r : ClusterRequest R N D I = record {
        uid = origin.uid;
        request = fetch_all opts.rooms opts.except q;
      } in
        let asked = fetching_from dr ds di opts q (length (origin ∷ other ∷ others)) origin in
        let found = map own_socket (Apply.fetch_sockets dr ds opts origin.hub.namespace) in
        let rest = concat (map (serialized dr ds opts.rooms opts.except) (other ∷ others)) in
        (asked.sent ≡ origin.sent ++ published r ∷ [])
        × All (Answers r opts.rooms opts.except q) (other ∷ others)
        × (outcomes di q asked.sent ≡ outcomes di q origin.sent)
        × (outcomes di q (respond_all di l asked).sent
            ≡ outcomes di q origin.sent ++ resolved fetching q (found ++ rest) ∷ [])
  unfolding is_outcome
  respond_all-fetch_sockets opts q origin other others l h k b =
      let (sent, pending) = fetching_from-sent dr ds di opts q (length others) origin h in
      let r : ClusterRequest R N D I = record {
        uid = origin.uid;
        request = fetch_all opts.rooms opts.except q;
      } in
      let quiet = ap (outcomes di q) sent ∙ outcomes-quiet di q origin.sent (published r) refl in
      let f = serialized dr ds opts.rooms opts.except in
      let found = map own_socket (Apply.fetch_sockets dr ds opts origin.hub.namespace) in
      let count = length-map f (other ∷ others) in
      (
        sent,
        on_request-Answers origin.uid q opts.rooms opts.except (other ∷ others) k,
        quiet,
        respond_all-resolved di q l (f other) (map f others) _
              (fetching_from dr ds di opts q (length (origin ∷ other ∷ others)) origin) b pending
              (omega (arith, count))
            ∙ ap (λ o. o ++ resolved fetching q (found ++ concat (map f (other ∷ others))) ∷ [])
                quiet,
      )

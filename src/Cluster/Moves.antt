-- ===== src/Cluster/Moves.antt =====
-- The class `Adapter` of packages/socket.io/lib/adapter.ts: `addSockets`, `delSockets` and
-- `disconnectSockets` in a cluster, against what they do on one server.
use socket_io_deno.Common.{
  Bool, true, false, List, [], ◌∷◌, ◌++◌, map, ◌≡◌, refl, ap, same, All, arith,
}
use socket_io_deno.Adapter.{BroadcastOptions}
use socket_io_deno.Adapter.Apply
use socket_io_deno.Adapter.Apply.{Namespace}
use socket_io_deno.Adapter.Broadcast.{Packet}
use socket_io_deno.Cluster.{
  Request, sockets_join, sockets_leave, disconnect_all, ClusterRequest, published, Node, is_local,
  add_sockets, del_sockets, disconnect_sockets, disconnect_local,
}
use socket_io_deno.Cluster.Requests.{on_request, handle}

-- A call of one of the three methods.
pub data Move (R : Type 0) : Type 0 where
  join leave : BroadcastOptions R → List R → Move R
  drop : BroadcastOptions R → Bool → Move R

abbrev pub options_of : {R : Type 0} → Move R → BroadcastOptions R
options_of (join opts rooms) = opts
options_of (leave opts rooms) = opts
options_of (drop opts close) = opts

-- The request that it publishes.
abbrev pub demand : {R N D I : Type 0} → Move R → Request R N D I
demand (join opts rooms) = sockets_join opts.rooms opts.except rooms
demand (leave opts rooms) = sockets_leave opts.rooms opts.except rooms
demand (drop opts close) = disconnect_all opts.rooms opts.except close

abbrev pub asked : {R N D I : Type 0} → Move R → I → ClusterRequest R N D I
asked m uid = record { uid = uid; request = demand m }

same-itself : {A : Type 0} (da : Discrete A) (a b : A) → a ≡ b → same da b a ≡ true
same-itself da a b h = ground (arith, h)

abbrev pub own_namespace : {R S N D E I : Type 0} → Node R S N D E I → Namespace R S
own_namespace n = n.hub.namespace

module _ {R S : Type 0} (dr : Discrete R) (ds : Discrete S)
    (disconnect : Bool → S → Namespace R S → Namespace R S) where
  -- The method of `InMemoryAdapter`.
  abbrev pub moved : Move R → Namespace R S → Namespace R S
  moved (join opts rooms) n = Apply.add_sockets dr ds opts rooms n
  moved (leave opts rooms) n = Apply.del_sockets dr ds opts rooms n
  moved (drop opts close) n = disconnect_local dr ds disconnect opts close n

module _ {R S N D E I : Type 0} (dr : Discrete R) (ds : Discrete S)
    (disconnect : Bool → S → Namespace R S → Namespace R S) where
  -- The method of `Adapter`.
  abbrev pub called : Move R → Node R S N D E I → Node R S N D E I
  called (join opts rooms) n = add_sockets dr ds opts rooms n
  called (leave opts rooms) n = del_sockets dr ds opts rooms n
  called (drop opts close) n = disconnect_sockets dr ds disconnect opts close n

  called-publish :
      (m : Move R) (n : Node R S N D E I)
      → is_local (options_of m) ≡ false
      → ((called m n).sent ≡ n.sent ++ published (asked m n.uid) ∷ [])
        × ((called m n).uid ≡ n.uid)
        × (own_namespace (called m n) ≡ moved dr ds disconnect m (own_namespace n))
  unfolding add_sockets del_sockets disconnect_sockets
  called-publish (join opts rooms) n h = rw h (refl, refl, refl)
  called-publish (leave opts rooms) n h = rw h (refl, refl, refl)
  called-publish (drop opts close) n h = rw h (refl, refl, refl)

module _ {R S N D E I : Type 0} (dr : Discrete R) (ds : Discrete S) (di : Discrete I)
    (encode : Packet N D → List E) (disconnect : Bool → S → Namespace R S → Namespace R S) where
  -- Another server does the same.
  own_namespace-on_request :
      (m : Move R) (uid : I) (n : Node R S N D E I)
      → same di uid n.uid ≡ false
      → own_namespace (on_request dr ds di encode disconnect (asked m uid) n)
        ≡ moved dr ds disconnect m (own_namespace n)
  unfolding on_request handle Apply.add_sockets Apply.del_sockets disconnect_local
  own_namespace-on_request (join opts rooms) uid n h = rw h refl
  own_namespace-on_request (leave opts rooms) uid n h = rw h refl
  own_namespace-on_request (drop opts close) uid n h = rw h refl

  on_request_self :
      (m : Move R) (uid : I) (n : Node R S N D E I)
      → n.uid ≡ uid
      → on_request dr ds di encode disconnect (asked m uid) n ≡ n
  unfolding on_request
  on_request_self m uid n h = rw (same-itself di n.uid uid h) refl

  own_namespace_others :
      (m : Move R) (uid : I) (l : List (Node R S N D E I))
      → All (λ n. same di uid n.uid ≡ false) l
      → map own_namespace (map (on_request dr ds di encode disconnect (asked m uid)) l)
        ≡ map (λ n. moved dr ds disconnect m (own_namespace n)) l
  own_namespace_others m uid [] h = refl
  own_namespace_others m uid (n ∷ l) h =
      rw (own_namespace-on_request m uid n h.0, own_namespace_others m uid l h.1) refl

  own_namespace_each :
      (m : Move R) (before after : List (Node R S N D E I)) (origin o : Node R S N D E I)
      → o.uid ≡ origin.uid
      → own_namespace o ≡ moved dr ds disconnect m (own_namespace origin)
      → All (λ n. same di origin.uid n.uid ≡ false) before
      → All (λ n. same di origin.uid n.uid ≡ false) after
      → map own_namespace
          (map (on_request dr ds di encode disconnect (asked m origin.uid)) (before ++ o ∷ after))
        ≡ map (λ n. moved dr ds disconnect m (own_namespace n)) (before ++ origin ∷ after)
  own_namespace_each m [] after origin o e own k j =
      rw (on_request_self m origin.uid o e, own_namespace_others m origin.uid after j)
        (ap (λ v. v ∷ map (λ n. moved dr ds disconnect m (own_namespace n)) after) own)
  own_namespace_each m (n ∷ before) after origin o e own k j =
      rw
        (
          own_namespace-on_request m origin.uid n k.0,
          own_namespace_each m before after origin o e own k.1 j,
        )
        refl

  -- Let `addSockets`, `delSockets` or `disconnectSockets` be called at one server of a cluster,
  -- without the flag `local`, and let the uids of the servers differ from the one of this server.
  -- Then it publishes exactly one request; when each server has been given it, the calling one too,
  -- then on each server exactly once has been done what `InMemoryAdapter` does for the call there.
  pub own_namespace-on_request-called :
      (m : Move R) (before after : List (Node R S N D E I)) (origin : Node R S N D E I)
      → is_local (options_of m) ≡ false
      → All (λ n. same di origin.uid n.uid ≡ false) before
      → All (λ n. same di origin.uid n.uid ≡ false) after
      → ((called dr ds disconnect m origin).sent
          ≡ origin.sent ++ published (asked m origin.uid) ∷ [])
        × (map own_namespace (
              map
                (on_request dr ds di encode disconnect (asked m origin.uid))
                (before ++ called dr ds disconnect m origin ∷ after))
            ≡ map (λ n. moved dr ds disconnect m (own_namespace n)) (before ++ origin ∷ after))
  own_namespace-on_request-called m before after origin h k j =
      let (sent, same_uid, own) = called-publish dr ds disconnect m origin h in
      (
        sent,
        own_namespace_each m before after origin (called dr ds disconnect m origin) same_uid own k
            j,
      )

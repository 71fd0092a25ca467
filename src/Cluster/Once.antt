-- ===== src/Cluster/Once.antt =====
-- The class `Adapter` of packages/socket.io/lib/adapter.ts: a call that waits for other servers is
-- settled once.
use socket_io_deno.Common.{
  ℕ, ◌+◌, ◌≤◌, Bool, true, false, Option, none, some, List, [], ◌∷◌, ◌++◌, length, if◌then◌else◌,
  ◌≡◌, refl, ap, inl, inr, arith, same, Bool-cases, ℕ_discrete,
}
use socket_io_deno.Common.Dict
use socket_io_deno.Common.Dict.{keys}
use socket_io_deno.Common.KeySet.{has}
use socket_io_deno.Adapter.{BroadcastOptions}
use socket_io_deno.Adapter.Apply
use socket_io_deno.Adapter.Apply.{Namespace}
use socket_io_deno.Adapter.Broadcast
use socket_io_deno.Adapter.Broadcast.{Packet, Hub}
use socket_io_deno.Cluster.{
  Request, broadcast_all, sockets_join, sockets_leave, disconnect_all, fetch_all, emit_all,
  other_request, ClusterRequest, argument, Response, fetched, emitted_ack, counted_clients,
  client_ack, other_response, counting_emit, AckCallback, own_ack, remote_ack, Deferred,
  later_broadcast, later_broadcast_with_ack, Sent, published, responded, told_count, told_ack,
  side_emitted, Callback, Node, is_local, log, publish_unless, on_namespace, disconnect_local,
  add_sockets, del_sockets, disconnect_sockets,
}
use socket_io_deno.Cluster.Handlers.{
  plain_options, server_side_emit_with_ack, broadcast_with_ack, on_response,
}
use socket_io_deno.Cluster.Requests.{
  on_client_ack, call_back, fetch_sockets, run_deferred, handle, on_request, side_emit, serialized,
}
use socket_io_deno.Cluster.Runs.{
  Input, adding, deleting, disconnecting, fetching_sockets, side_emitting, side_emitting_with_ack,
  broadcasting, broadcasting_with_ack, requested, answered, server_count, time_over, ack_time_over,
  deferred_run, acknowledged, called_back, step, run, new_node,
}
use socket_io_deno.Common.Flags.{flag}
use socket_io_deno.Cluster.Settled.{
  is_outcome, outcomes, waiting, total, total-log, total-timer, total-respond, total-counting,
  total-server_count,
}

module _ {R S N D I : Type 0} (di : Discrete I) where
  -- The calls that an input makes.
  unfoldable pub calls_by : I → Input R S N D I → ℕ
  calls_by q (fetching_sockets opts j) = flag (same di q j)
  calls_by q (side_emitting_with_ack packet j) = flag (same di q j)
  calls_by q _ = 0

  unfoldable pub calls_of : I → List (Input R S N D I) → ℕ
  calls_of q [] = 0
  calls_of q (i ∷ rest) = calls_by q i + calls_of q rest

module _ {R S N D E I : Type 0} (di : Discrete I) where
  total-quiet :
      (q : I) (e : Sent R S N D I) (n : Node R S N D E I)
      → is_outcome di q e ≡ false
      → total di q (log e n) ≡ total di q n
  total-quiet q e n h = omega (arith, total-log di q e n, ap flag h)

  total-publish_unless :
      (q : I) (local : Bool) (r : Request R N D I) (n : Node R S N D E I)
      → total di q (publish_unless local r n) ≡ total di q n
  unfolding is_outcome
  total-publish_unless q true r n = refl
  total-publish_unless q false r n = total-quiet q _ n refl

  total-broadcast_with_ack :
      (q j : I) (packet : Packet N D) (opts : BroadcastOptions R) (n : Node R S N D E I)
      → total di q (broadcast_with_ack di packet opts j n) ≡ total di q n
  unfolding broadcast_with_ack is_outcome total
  total-broadcast_with_ack q j packet opts n = elim (Bool-cases (is_local opts)) [
    | inl e ↦ rw e refl
    | inr e ↦ rw e (
        total-quiet q
          (published (record {
            uid = n.uid;
            request = broadcast_all packet opts.rooms opts.except opts.flags (some j);
          }))
          n refl)
  ]

  total-call_back :
      (q : I) (i : ℕ) (d : D) (o : Option (Callback I)) (n : Node R S N D E I)
      → total di q (call_back i d o n) ≡ total di q n
  unfolding is_outcome total
  total-call_back q i d none n = refl
  total-call_back q i d (some c) n = elim (Bool-cases c.called) [
    | inl e ↦ rw e refl
    | inr e ↦ rw e (
        total-quiet q _
          (record n { callbacks = Dict.set ℕ_discrete i (record c { called = true }) n.callbacks })
          refl)
  ]

  total-client_ack :
      (q : I) (ack : AckCallback I) (d : D) (n : Node R S N D E I)
      → total di q (on_client_ack ack d n) ≡ total di q n
  unfolding is_outcome
  total-client_ack q (own_ack j) d n = total-quiet q _ n refl
  total-client_ack q (remote_ack uid j) d n = total-quiet q _ n refl

  total-told :
      (q : I) (b : Bool) (e : Sent R S N D I) (n : Node R S N D E I)
      → is_outcome di q e ≡ false
      → total di q (if b then log e n else n) ≡ total di q n
  total-told q true e n h = total-quiet q e n h
  total-told q false e n h = refl

  total-response :
      (q : I) (r : Response R S D I) (n : Node R S N D E I)
      → total di q (on_response di r n) ≡ total di q n
  unfolding on_response is_outcome
  total-response q (fetched j sockets) n = total-respond di q j sockets n
  total-response q (emitted_ack j d) n = total-respond di q j (argument d ∷ []) n
  total-response q (counted_clients j count) n =
      total-told q (has di j n.ack_requests) (told_count j count) n refl
  total-response q (client_ack j d) n = total-told q (has di j n.ack_requests) (told_ack j d) n refl
  total-response q (other_response j) n = refl

  total-side_emit :
      (q uid : I) (packet : List D) (id : Option I) (n : Node R S N D E I)
      → total di q (side_emit uid packet id n) ≡ total di q n
  unfolding side_emit is_outcome total
  total-side_emit q uid packet none n = total-quiet q (side_emitted packet none) n refl
  total-side_emit q uid packet (some j) n =
      let i = length n.callbacks in
      let c : ℕ × Callback I = (i, record { called = false; requester = uid; request_id = j }) in
      total-quiet q (side_emitted packet (some i)) (record n { callbacks = n.callbacks ++ c ∷ [] })
        refl

module _ {R S N D E I : Type 0} (dr : Discrete R) (ds : Discrete S) (di : Discrete I) where
  total-fetch_sockets :
      (q j : I) (opts : BroadcastOptions R) (n : Node R S N D E I)
      → total di q n + flag (same di q j) ≤ 1
      → total di q (fetch_sockets dr ds di opts j n) ≡ total di q n + flag (same di q j)
  unfolding fetch_sockets is_outcome
  total-fetch_sockets q j opts n h = elim (Bool-cases (is_local opts)) [
    | inl e ↦ rw e (total-log di q _ n)
    | inr e ↦ rw e (total-counting di q j _ n h)
  ]

module _ {R S N D E I : Type 0} (dr : Discrete R) (ds : Discrete S) (di : Discrete I)
    (encode : Packet N D → List E) (disconnect : Bool → S → Namespace R S → Namespace R S) where
  total-handle :
      (q uid : I) (r : Request R N D I) (n : Node R S N D E I)
      → total di q (handle dr ds di encode disconnect uid r n) ≡ total di q n
  unfolding handle is_outcome total
  total-handle q uid (broadcast_all packet rooms except flags none) n = refl
  total-handle q uid (broadcast_all packet rooms except flags (some j)) n =
      let opts = plain_options rooms except in
      let r = Broadcast.broadcast_with_ack dr ds encode packet opts (remote_ack uid j) n.hub in
      total-quiet di q (responded uid (counted_clients j r.0)) (record n { hub = r.1 }) refl
  total-handle q uid (sockets_join rooms except joined) n = refl
  total-handle q uid (sockets_leave rooms except left) n = refl
  total-handle q uid (disconnect_all rooms except close) n = refl
  total-handle q uid (fetch_all rooms except j) n =
      total-quiet di q (responded uid (fetched j (serialized dr ds rooms except n))) n refl
  total-handle q uid (emit_all packet id) n = total-side_emit di q uid packet id n
  total-handle q uid other_request n = refl

  total-request :
      (q : I) (r : ClusterRequest R N D I) (n : Node R S N D E I)
      → total di q (on_request dr ds di encode disconnect r n) ≡ total di q n
  unfolding on_request
  total-request q r n = elim (Bool-cases (same di r.uid n.uid)) [
    | inl e ↦ rw e refl
    | inr e ↦ rw e (total-handle q r.uid r.request n)
  ]

  total-deferred :
      (q : I) (l : List (Deferred R N D I)) (n : Node R S N D E I)
      → total di q (run_deferred dr ds di encode disconnect l n) ≡ total di q n
  unfolding run_deferred is_outcome total
  total-deferred q [] n = refl
  total-deferred q (later_broadcast packet opts ∷ rest) n = refl
  total-deferred q (later_broadcast_with_ack packet opts j ∷ rest) n =
      let r = Broadcast.broadcast_with_ack dr ds encode packet opts (own_ack j) n.hub in
      total-quiet di q (told_count j r.0) (record n { deferred = rest; hub = r.1 }) refl

  total-step :
      (q : I) (i : Input R S N D I) (n : Node R S N D E I)
      → total di q n + calls_by di q i ≤ 1
      → total di q (step dr ds di encode disconnect i n) ≡ total di q n + calls_by di q i
  unfolding step calls_by is_outcome server_side_emit_with_ack add_sockets del_sockets
      disconnect_sockets total
  total-step q (adding opts rooms) n h = omega (
    arith,
    total-publish_unless di q (is_local opts) (sockets_join opts.rooms opts.except rooms)
        (on_namespace (Apply.add_sockets dr ds opts rooms) n),
  )
  total-step q (deleting opts rooms) n h = omega (
    arith,
    total-publish_unless di q (is_local opts) (sockets_leave opts.rooms opts.except rooms)
        (on_namespace (Apply.del_sockets dr ds opts rooms) n),
  )
  total-step q (disconnecting opts close) n h = omega (
    arith,
    total-publish_unless di q (is_local opts) (disconnect_all opts.rooms opts.except close)
        (on_namespace (disconnect_local dr ds disconnect opts close) n),
  )
  total-step q (fetching_sockets opts j) n h = total-fetch_sockets dr ds di q j opts n h
  total-step q (side_emitting packet) n h = omega (
    arith,
    total-quiet di q (published (record { uid = n.uid; request = emit_all packet none })) n refl,
  )
  total-step q (side_emitting_with_ack packet j) n h =
      total-counting di q j (counting_emit packet) n h
  total-step q (broadcasting packet opts) n h = omega (
    arith,
    total-publish_unless di q (is_local opts)
        (broadcast_all packet opts.rooms opts.except opts.flags none) n,
  )
  total-step q (broadcasting_with_ack packet opts j) n h =
      omega (arith, total-broadcast_with_ack di q j packet opts n)
  total-step q (requested r) n h = omega (arith, total-request q r n)
  total-step q (answered r) n h = omega (arith, total-response di q r n)
  total-step q (server_count j servers) n h =
      omega (arith, total-server_count di q j servers n (omega (arith, h)))
  total-step q (time_over j) n h = omega (arith, total-timer di q j n)
  total-step q (ack_time_over j) n h = omega arith
  total-step q deferred_run n h = omega (arith, total-deferred q n.deferred n)
  total-step q (acknowledged ack d) n h = omega (arith, total-client_ack di q ack d n)
  total-step q (called_back i d) n h =
      omega (arith, total-call_back di q i d (Dict.get ℕ_discrete i n.callbacks) n)

  total-run :
      (q : I) (l : List (Input R S N D I)) (n : Node R S N D E I)
      → total di q n + calls_of di q l ≤ 1
      → total di q (run dr ds di encode disconnect l n) ≡ total di q n + calls_of di q l
  unfolding run calls_of
  total-run q [] n h = omega arith
  total-run q (i ∷ rest) n h =
      let k = total-step q i n (omega (arith, h)) in
      omega (arith, k, total-run q rest (step dr ds di encode disconnect i n) (omega (arith, k, h)))

  -- Let an adapter of a cluster be made, and then reached by any inputs in any order, among which
  -- at most one call of `fetchSockets` or of `serverSideEmit` with an acknowledgement has the id `q`.
  -- Then the times that its promise or its callback has been settled, with an answer or with the
  -- error of the timeout, and the places in which it still waits, for `serverCount()` or among the
  -- pending requests, are together as many as the calls: a call that was made either waits or has
  -- been settled exactly once, and without a call nothing is settled.
  pub total-run-new_node :
      (q uid : I) (hub : Hub R S N D E (AckCallback I)) (l : List (Input R S N D I))
      → calls_of di q l ≤ 1
      → let n = run dr ds di encode disconnect l (new_node uid hub) in
        length (outcomes di q n.sent) + waiting di q n ≡ calls_of di q l
  unfolding total outcomes has
  total-run-new_node q uid hub l h =
      omega (arith, total-run q l (new_node uid hub) (omega (arith, h)))

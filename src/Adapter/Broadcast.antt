-- ===== src/Adapter/Broadcast.antt =====
-- `broadcast` and `broadcastWithAck` of packages/socket.io/lib/adapter.ts. The encoder is the one
-- that the server's options give; an encoded packet is a value of `E`, a packet's content of `D`,
-- and an acknowledgement callback of `K`.
use socket_io_deno.Common.{
  ℕ, ◌+◌, Bool, true, false, ◌&&◌, Option, none, some, ℕ_discrete, List, [], ◌∷◌, ◌++◌, ◌≡◌, refl,
  ◌∙◌, ap, arith, same, if◌then◌else◌, length,
}
use mathlib.Core.List.{append-nil, append_assoc}
use socket_io_deno.Common.Dict
use socket_io_deno.Common.Dict.{or_empty}
use socket_io_deno.Common.KeySet
use socket_io_deno.Adapter.{BroadcastOptions}
use socket_io_deno.Adapter.Apply.{Namespace, apply, fetch_sockets}
use socket_io_deno.Adapter.Targets.{apply-fetch_sockets, calls}

-- The part of a packet that these operations read or write.
pub record Packet (N D : Type 0) : Type 0 where
  pub nsp : N
  pub id : Option ℕ
  pub payload : D

-- What a callback does to its socket, as `_notifyOutgoingListeners` and `_writeToEngine` see it.
pub data Effect (S D E : Type 0) : Type 0 where
  notified : S → D → Effect S D E
  written : S → List E → Bool → Effect S D E

-- The namespace, its ack counter `_ids`, the `_acks` map of each socket, and the effects so far.
pub record Hub (R S N D E K : Type 0) : Type 0 where
  pub name : N
  pub namespace : Namespace R S
  pub ids : ℕ
  pub acks : List (S × List (ℕ × K))
  pub effects : List (Effect S D E)

-- `opts.flags && opts.flags.volatile`
abbrev pub is_volatile : {R : Type 0} → BroadcastOptions R → Bool
is_volatile opts = elim opts.flags [ none ↦ false | some f ↦ f.volatile ]

-- The effects on the sockets of a list, in its order.
abbrev pub deliveries : {S D E : Type 0} → D → List E → Bool → List S → List (Effect S D E)
deliveries args encoded volatile [] = []
deliveries args encoded volatile (s ∷ l) =
    notified s args ∷ written s encoded volatile ∷ deliveries args encoded volatile l

module _ {R S N D E K : Type 0} (dr : Discrete R) (ds : Discrete S)
    (encode : Packet N D → List E) where
  abbrev send : D → List E → Bool → S → Hub R S N D E K → Hub R S N D E K
  send args encoded volatile id h = record h {
    effects = h.effects ++ notified id args ∷ written id encoded volatile ∷ [];
  }

  unfoldable pub broadcast : Packet N D → BroadcastOptions R → Hub R S N D E K → Hub R S N D E K
  unfolding apply
  broadcast packet opts h =
      apply dr ds (λ w. w.namespace) (send packet.payload (encode packet) (is_volatile opts)) opts h

  -- `socket._acks.set(packet.id, ack)`
  unfoldable pub register_ack : ℕ → K → S → Hub R S N D E K → Hub R S N D E K
  unfolding Dict.get Dict.set
  register_ack id ack s h = record h {
    acks = Dict.set ds s (Dict.set ℕ_discrete id ack (or_empty (Dict.get ds s h.acks))) h.acks;
  }

  -- The callback also counts the clients.
  unfoldable pub send_with_ack :
      ℕ → K → D → List E → Bool → S → ℕ × Hub R S N D E K → ℕ × Hub R S N D E K
  unfolding register_ack
  send_with_ack id ack args encoded volatile s (count, h) =
      (count + 1, send args encoded volatile s (register_ack id ack s h))

  -- The number is what `clientCountCallback` is called with.
  unfoldable pub broadcast_with_ack :
      Packet N D → BroadcastOptions R → K → Hub R S N D E K → ℕ × Hub R S N D E K
  unfolding apply send_with_ack
  broadcast_with_ack packet opts ack h =
      let packet' : Packet N D = record packet { nsp = h.name; id = some h.ids } in
      apply dr ds (λ w. w.1.namespace)
        (send_with_ack h.ids ack packet'.payload (encode packet') (is_volatile opts)) opts
        (0, record h { ids = h.ids + 1 })

  calls-send :
      (args : D) (encoded : List E) (volatile : Bool) (l : List S) (h : Hub R S N D E K)
      → calls dr ds (send args encoded volatile) l h
        ≡ record h { effects = h.effects ++ deliveries args encoded volatile l }
  calls-send args encoded volatile [] h = rw append-nil
  calls-send args encoded volatile (s ∷ l) h =
      calls-send args encoded volatile l (send args encoded volatile s h)
      ∙ ap (λ (x : List (Effect S D E)). record h { effects = x })
          (append_assoc h.effects (notified s args ∷ written s encoded volatile ∷ []) _)

  -- `broadcast` notifies and writes to each socket that `fetchSockets` returns, once and in that
  -- order, every write with the same encoded packet and the volatile flag, and does nothing else.
  pub broadcast-fetch_sockets :
      (packet : Packet N D) (opts : BroadcastOptions R) (h : Hub R S N D E K)
      → broadcast packet opts h ≡ record h {
        effects =
            h.effects
            ++ deliveries packet.payload
                (encode packet)
                (is_volatile opts)
                (fetch_sockets dr ds opts h.namespace);
      }
  unfolding broadcast
  broadcast-fetch_sockets packet opts h =
      let f = send packet.payload (encode packet) (is_volatile opts) in
      apply-fetch_sockets dr ds (λ w. w.namespace) f (λ s w. refl) opts h
      ∙ calls-send packet.payload (encode packet) (is_volatile opts) _ h

  -- The callback that a socket holds for a packet id.
  abbrev pub ack_of : Hub R S N D E K → S → ℕ → Option K
  ack_of h s id = Dict.get ℕ_discrete id (or_empty (Dict.get ds s h.acks))

  ack_of-register :
      (id : ℕ) (ack : K) (t : S) (h : Hub R S N D E K) (s : S) (j : ℕ)
      → ack_of (register_ack id ack t h) s j
        ≡ (if same ds s t && same ℕ_discrete j id then some ack else ack_of h s j)
  unfolding register_ack
  ack_of-register id ack t h s j = ground (
    arith,
    Dict.or_empty-set ds s t (Dict.set ℕ_discrete id ack (or_empty (Dict.get ds t h.acks))) h.acks,
    Dict.get-set ℕ_discrete j id ack (or_empty (Dict.get ds t h.acks)),
    same_get t s h.acks,
  )
    where
      same_get :
          (t s : S) (m : List (S × List (ℕ × K)))
          → same ds s t ≡ true
          → Dict.get ds s m ≡ Dict.get ds t m
      same_get t s m e = ground arith

  -- After the callback ran for the sockets of `l`: the count went up by their number, each was
  -- notified and written to, and for the id each holds the callback; nothing else changed.
  pub record Acked (id : ℕ) (ack : K) (args : D) (encoded : List E) (volatile : Bool) (l : List S)
      (start : ℕ × Hub R S N D E K) (r : ℕ × Hub R S N D E K) : Type 0 where
    pub counted : r.0 ≡ start.0 + length l
    pub sent : r.1.effects ≡ start.1.effects ++ deliveries args encoded volatile l
    pub kept : (r.1.ids ≡ start.1.ids) × (r.1.namespace ≡ start.1.namespace)
    pub registered :
        (s : S) (j : ℕ)
        → ack_of r.1 s j
          ≡ (if KeySet.has ds s l && same ℕ_discrete j id then some ack else ack_of start.1 s j)

  Acked-cons :
      (id : ℕ) (ack : K) (args : D) (encoded : List E) (volatile : Bool) (t : S) (l : List S)
      (count : ℕ) (h : Hub R S N D E K) (r : ℕ × Hub R S N D E K)
      → Acked id ack args encoded volatile l
          (send_with_ack id ack args encoded volatile t (count, h))
          r
      → Acked id ack args encoded volatile (t ∷ l) (count, h) r
  unfolding send_with_ack KeySet.has
  Acked-cons id ack args encoded volatile t l count h r rest = record {
    counted = omega (arith, rest.counted);
    sent = rest.sent ∙ append_assoc h.effects _ _;
    kept = unfold register_ack in rest.kept;
    registered = λ s j. ground (arith, rest.registered s j, ack_of-register id ack t h s j);
  }

  calls-send_with_ack :
      (id : ℕ) (ack : K) (args : D) (encoded : List E) (volatile : Bool) (l : List S)
      (start : ℕ × Hub R S N D E K)
      → Acked id ack args encoded volatile l start
          (calls dr ds (send_with_ack id ack args encoded volatile) l start)
  unfolding KeySet.has
  calls-send_with_ack id ack args encoded volatile [] start = record {
    counted = omega arith;
    sent = rw append-nil;
    kept = (refl, refl);
    registered = λ s j. refl;
  }
  calls-send_with_ack id ack args encoded volatile (t ∷ l) (count, h) =
      Acked-cons id ack args encoded volatile t l count h _ (
        calls-send_with_ack id ack args encoded volatile l
          (send_with_ack id ack args encoded volatile t (count, h)))

  -- `broadcastWithAck` reports as client count the number of sockets that `fetchSockets` returns.
  -- Each of them is notified and written to once, in that order, with the packet under the
  -- namespace's name and its next ack id, and holds the callback for that id. No other callback
  -- changes, and the ack id is used up.
  pub broadcast_with_ack-fetch_sockets :
      (packet : Packet N D) (opts : BroadcastOptions R) (ack : K) (h : Hub R S N D E K)
      → Acked h.ids ack packet.payload
          (encode (record { nsp = h.name; id = some h.ids; payload = packet.payload }))
          (is_volatile opts)
          (fetch_sockets dr ds opts h.namespace)
          (0, record h { ids = h.ids + 1 })
          (broadcast_with_ack packet opts ack h)
  unfolding broadcast_with_ack register_ack
  broadcast_with_ack-fetch_sockets packet opts ack h =
      let p : Packet N D = record { nsp = h.name; id = some h.ids; payload = packet.payload } in
      let f = send_with_ack h.ids ack packet.payload (encode p) (is_volatile opts) in
      let start : ℕ × Hub R S N D E K = (0, record h { ids = h.ids + 1 }) in
      rw (apply-fetch_sockets dr ds (λ w. w.1.namespace) f (λ s w. refl) opts start)
        (calls-send_with_ack h.ids ack packet.payload (encode p) (is_volatile opts) _ start)

-- ===== src/Operator/Chains.antt =====
-- Whom an operator reaches that a chain of calls built.
use socket_io_deno.Common.{
  Bool, true, false, not, ◌&&◌, ◌||◌, List, [], ◌∷◌, ◌++◌, if◌then◌else◌, ◌≡◌, refl, ◌∙◌, arith,
}
use socket_io_deno.Common.KeySet
use socket_io_deno.Common.Dict.{keys}
use socket_io_deno.Adapter.{Adapter, is_empty, in_room}
use socket_io_deno.Adapter.Apply.{Namespace}
use socket_io_deno.Adapter.Targets.{in_any}
use socket_io_deno.Adapter.Targets.Fetch.{has-fetch_sockets}
use socket_io_deno.Operator.{
  rooms_of, Operator, fresh, options, add_targets, to, except, volatile, local, timeout, Link,
  to_rooms, except_rooms, set_volatile, set_local, set_timeout, chain, fetch,
}

-- The rooms that the calls of a chain name, to reach and to leave out.
abbrev pub reached : {R : Type 0} → List (Link R) → List R
reached [] = []
reached (to_rooms room ∷ rest) = rooms_of room ++ reached rest
reached (_ ∷ rest) = reached rest

abbrev pub left_out : {R : Type 0} → List (Link R) → List R
left_out [] = []
left_out (except_rooms room ∷ rest) = rooms_of room ++ left_out rest
left_out (_ ∷ rest) = left_out rest

module _ {R S : Type 0} (dr : Discrete R) (ds : Discrete S) (a : Adapter R S) (s : S) where
  abbrev In : List R → Bool
  In rooms = in_any dr ds a rooms s

  in_any-append : (rs qs : List R) → In (rs ++ qs) ≡ (In rs || In qs)
  in_any-append [] qs = refl
  in_any-append (r ∷ rs) qs = ground (arith, in_any-append rs qs)

  in_any-has :
      (r : R) (rs : List R) → KeySet.has dr r rs ≡ true → in_room dr ds a r s ≡ true → In rs ≡ true
  unfolding KeySet.has
  in_any-has r [] h k = ground arith
  in_any-has r (q ∷ rs) h k = ground (arith, in_any-has r rs)

  in_any-add : (r : R) (rs : List R) → In (KeySet.add dr r rs) ≡ (In rs || in_room dr ds a r s)
  unfolding KeySet.add
  in_any-add r rs = ground (arith, in_any-append rs (r ∷ []), in_any-has r rs)

  in_any-add_targets : (new rs : List R) → In (add_targets dr new rs) ≡ (In rs || In new)
  unfolding add_targets
  in_any-add_targets [] rs = ground arith
  in_any-add_targets (r ∷ new) rs =
      ground (arith, in_any-add_targets new (KeySet.add dr r rs), in_any-add r rs)

  chain-rooms :
      (links : List (Link R)) (op : Operator R)
      → In ((chain dr links op).rooms) ≡ (In op.rooms || In (reached links))
  unfolding chain to except
  chain-rooms [] op = ground arith
  chain-rooms (to_rooms room ∷ rest) op = ground (
    arith,
    chain-rooms rest (to dr room op),
    in_any-add_targets (rooms_of room) op.rooms,
    in_any-append (rooms_of room) (reached rest),
  )
  chain-rooms (except_rooms room ∷ rest) op = chain-rooms rest (except dr room op)
  chain-rooms (set_volatile ∷ rest) op = chain-rooms rest (volatile op)
  chain-rooms (set_local ∷ rest) op = chain-rooms rest (local op)
  chain-rooms (set_timeout delay ∷ rest) op = chain-rooms rest (timeout delay op)

  chain-except_rooms :
      (links : List (Link R)) (op : Operator R)
      → In ((chain dr links op).except_rooms) ≡ (In op.except_rooms || In (left_out links))
  unfolding chain to except
  chain-except_rooms [] op = ground arith
  chain-except_rooms (to_rooms room ∷ rest) op = chain-except_rooms rest (to dr room op)
  chain-except_rooms (except_rooms room ∷ rest) op = ground (
    arith,
    chain-except_rooms rest (except dr room op),
    in_any-add_targets (rooms_of room) op.except_rooms,
    in_any-append (rooms_of room) (left_out rest),
  )
  chain-except_rooms (set_volatile ∷ rest) op = chain-except_rooms rest (volatile op)
  chain-except_rooms (set_local ∷ rest) op = chain-except_rooms rest (local op)
  chain-except_rooms (set_timeout delay ∷ rest) op = chain-except_rooms rest (timeout delay op)

-- Whether there is a room to reach at all.
module _ {R : Type 0} (dr : Discrete R) where
  is_empty-append : (rs qs : List R) → is_empty (rs ++ qs) ≡ (is_empty rs && is_empty qs)
  is_empty-append [] qs = refl
  is_empty-append (r ∷ rs) qs = refl

  is_empty-add : (r : R) (rs : List R) → is_empty (KeySet.add dr r rs) ≡ false
  unfolding KeySet.add KeySet.has
  is_empty-add r [] = refl
  is_empty-add r (q ∷ rs) = ground arith

  is_empty-add_targets :
      (new rs : List R) → is_empty (add_targets dr new rs) ≡ (is_empty rs && is_empty new)
  unfolding add_targets
  is_empty-add_targets [] rs = ground arith
  is_empty-add_targets (r ∷ new) rs =
      ground (arith, is_empty-add_targets new (KeySet.add dr r rs), is_empty-add r rs)

  is_empty-chain :
      (links : List (Link R)) (op : Operator R)
      → is_empty ((chain dr links op).rooms) ≡ (is_empty op.rooms && is_empty (reached links))
  unfolding chain to except
  is_empty-chain [] op = ground arith
  is_empty-chain (to_rooms room ∷ rest) op = ground (
    arith,
    is_empty-chain rest (to dr room op),
    is_empty-add_targets (rooms_of room) op.rooms,
    is_empty-append (rooms_of room) (reached rest),
  )
  is_empty-chain (except_rooms room ∷ rest) op = is_empty-chain rest (except dr room op)
  is_empty-chain (set_volatile ∷ rest) op = is_empty-chain rest (volatile op)
  is_empty-chain (set_local ∷ rest) op = is_empty-chain rest (local op)
  is_empty-chain (set_timeout delay ∷ rest) op = is_empty-chain rest (timeout delay op)

-- The operator of a chain reaches a socket exactly when it is connected to the namespace, is in none
-- of the rooms of the chain's `except` calls, and is in one of the rooms of its `to` calls or, if
-- these name none, known to the adapter.
pub has-fetch-chain :
    {R S : Type 0} (dr : Discrete R) (ds : Discrete S) (links : List (Link R)) (n : Namespace R S)
    (s : S)
    → KeySet.has ds s (fetch dr ds (chain dr links fresh) n) ≡ (
        not (in_any dr ds n.adapter (left_out links) s)
        && KeySet.has ds s n.sockets
        && (if is_empty (reached links)
            then KeySet.has ds s (keys n.adapter.sids)
            else in_any dr ds n.adapter (reached links) s))
unfolding fetch
has-fetch-chain dr ds links n s =
    let op = chain dr links fresh in
    has-fetch_sockets dr ds (options op) n s
    ∙ ground (
      arith,
      chain-rooms dr ds n.adapter s links fresh,
      chain-except_rooms dr ds n.adapter s links fresh,
      is_empty-chain dr links fresh,
    )

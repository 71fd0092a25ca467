-- ===== src/Adapter/Targets/Moves.antt =====
-- `addSockets` and `delSockets`: the loop reads the maps that its own callbacks change.
use socket_io_deno.Common.{
  Bool, not, ◌&&◌, ◌||◌, List, [], ◌∷◌, ◌++◌, ◌≡◌, refl, sym, arith, same, if◌then◌else◌, subst,
}
use socket_io_deno.Common.Dict
use socket_io_deno.Common.Dict.{or_empty, keys}
use socket_io_deno.Common.KeySet
use socket_io_deno.Adapter.{Adapter, BroadcastOptions, in_room, add_all, del}
use socket_io_deno.Adapter.Membership.{in_room-add_all, in_room-del}
use socket_io_deno.Adapter.Apply.{
  Namespace, compute_except_sids, fetch_sockets, visit_one, visit, visit_rooms, visit_sids, apply,
  add_sockets, del_sockets, leave_each,
}
use socket_io_deno.Adapter.Targets.{in_any, has-compute_except_sids, chosen_one, chosen}
use socket_io_deno.Adapter.Targets.Fetch.{has-chosen, has-fetch_sockets, same-has}

-- `change` is what the callback does to the adapter, and `effect` what it does to the membership of
-- its socket; no other socket is touched, and a second call changes nothing.
module _ {R S : Type 0} (dr : Discrete R) (ds : Discrete S) (change : S → Adapter R S → Adapter R S)
    (effect : R → Bool → Bool)
    (changes : (id : S) (a : Adapter R S) (r : R) (s : S)
      → in_room dr ds (change id a) r s
        ≡ (if same ds s id then effect r (in_room dr ds a r s) else in_room dr ds a r s))
    (settles : (r : R) (b : Bool) → effect r (effect r b) ≡ effect r b) where
  abbrev callback : S → Namespace R S → Namespace R S
  callback id m = record m { adapter = change id m.adapter }

  abbrev changed : Namespace R S → List S → R → S → Bool
  changed n ids r s =
      if KeySet.has ds s ids
      then effect r (in_room dr ds n.adapter r s)
      else in_room dr ds n.adapter r s

  -- `m` is `n` after the callbacks for `ids`.
  record IsAfter (n : Namespace R S) (ids : List S) (m : Namespace R S) : Type 0 where
    kept_sockets : m.sockets ≡ n.sockets
    moved : (r : R) (s : S) → in_room dr ds m.adapter r s ≡ changed n ids r s

  callback-IsAfter :
      (n m : Namespace R S) (ids : List S) (id : S)
      → IsAfter n ids m
      → IsAfter n (ids ++ id ∷ []) (callback id m)
  unfolding KeySet.has
  callback-IsAfter n m ids id h = record {
    kept_sockets = h.kept_sockets;
    moved = λ r s. ground (
      arith,
      h.moved r s,
      changes id m.adapter r s,
      settles r (in_room dr ds n.adapter r s),
      KeySet.has-append ds s ids (id ∷ []),
    );
  }

  abbrev Goes : Namespace R S → List S → List S × Namespace R S → Type 0
  Goes n ids r = (r.0 ≡ ids) × IsAfter n ids r.1

  visit_one-Goes :
      (n m : Namespace R S) (except ids : List S) (id : S)
      → IsAfter n ids m
      → Goes n
          (chosen_one dr ds except n.sockets id ids)
          (visit_one dr ds (λ w. w) callback except id (ids, m))
  unfolding visit_one KeySet.add
  visit_one-Goes n m except ids id h =
      ground (arith, h.kept_sockets, h, callback-IsAfter n m ids id h)

  visit-Goes :
      (n : Namespace R S) (except l ids : List S) (s : List S × Namespace R S)
      → Goes n ids s
      → Goes n (chosen dr ds except n.sockets l ids) (visit dr ds (λ w. w) callback except l s)
  unfolding visit chosen
  visit-Goes n except [] ids s h = h
  visit-Goes n except (id ∷ l) ids s h =
      visit-Goes n except l (chosen_one dr ds except n.sockets id ids) _
        (rw h.0 (visit_one-Goes n s.1 except ids id h.1))

  -- A pass that starts at `ids` and calls what `reached` tells.
  abbrev Reaches : Namespace R S → List S → (S → Bool) → List S × Namespace R S → Type 0
  Reaches n ids reached r =
      ((s : S) → KeySet.has ds s r.0 ≡ (KeySet.has ds s ids || reached s)) × IsAfter n r.0 r.1

  members-IsAfter :
      (n m : Namespace R S) (ids : List S) (r : R) (s : S)
      → IsAfter n ids m
      → (KeySet.has ds s ids || in_room dr ds m.adapter r s)
        ≡ (KeySet.has ds s ids || in_room dr ds n.adapter r s)
  members-IsAfter n m ids r s h = ground (arith, h.moved r s)

  visit-IsAfter :
      (n : Namespace R S) (except l : List S) (s : List S × Namespace R S)
      → IsAfter n s.0 s.1
      → IsAfter n
          (visit dr ds (λ w. w) callback except l s).0
          (visit dr ds (λ w. w) callback except l s).1
  visit-IsAfter n except l s h =
      let (ids, after) = visit-Goes n except l s.0 s (refl, h) in
      subst (λ x. IsAfter n x (visit dr ds (λ w. w) callback except l s).1) (sym ids) after

  visit_rooms-Reaches :
      (n : Namespace R S) (except : List S) (rs : List R) (s : List S × Namespace R S)
      → IsAfter n s.0 s.1
      → Reaches n s.0
          (λ i.
            not (KeySet.has ds i except)
            && KeySet.has ds i n.sockets
            && in_any dr ds n.adapter rs i)
          (visit_rooms dr ds (λ w. w) callback except rs s)
  unfolding visit_rooms
  visit_rooms-Reaches n except [] s h = (λ i. ground arith, h)
  visit_rooms-Reaches n except (r ∷ rs) s h =
      let l = or_empty (Dict.get dr r s.1.adapter.rooms) in
      let s' = visit dr ds (λ w. w) callback except l s in
      let first = visit-Goes n except l s.0 s (refl, h) in
      let rest = visit_rooms-Reaches n except rs s' (visit-IsAfter n except l s h) in
      (
        λ i. ground (
          arith,
          first.0,
          rest.0 i,
          has-chosen dr ds except n.sockets l s.0 i,
          members-IsAfter n s.1 s.0 r i h,
        ),
        rest.1,
      )

  abbrev taken_one : List S → List S → S → List S → List S
  taken_one except sockets id ids =
      if KeySet.has ds id except
      then ids
      else if KeySet.has ds id sockets
      then ids ++ id ∷ []
      else ids

  taken : List S → List S → List S → List S → List S
  taken except sockets [] ids = ids
  taken except sockets (id ∷ l) ids = taken except sockets l (taken_one except sockets id ids)

  has-taken :
      (except sockets l ids : List S) (s : S)
      → KeySet.has ds s (taken except sockets l ids) ≡ (
          KeySet.has ds s ids
          || not (KeySet.has ds s except) && KeySet.has ds s sockets && KeySet.has ds s l)
  unfolding taken KeySet.has
  has-taken except sockets [] ids s = ground arith
  has-taken except sockets (id ∷ l) ids s = ground (
    arith,
    has-taken except sockets l (taken_one except sockets id ids) s,
    same-has dr ds s id except,
    same-has dr ds s id sockets,
    KeySet.has-append ds s ids (id ∷ []),
  )

  visit_sids-IsAfter :
      (n : Namespace R S) (except l ids : List S) (m : Namespace R S)
      → IsAfter n ids m
      → IsAfter n (taken except n.sockets l ids) (visit_sids dr ds (λ w. w) callback except l m)
  unfolding visit_sids taken
  visit_sids-IsAfter n except [] ids m h = h
  visit_sids-IsAfter n except (id ∷ l) ids m h =
      visit_sids-IsAfter n except l (taken_one except n.sockets id ids) _ one
    where
      one : IsAfter n (taken_one except n.sockets id ids) (
          if KeySet.has ds id except
          then m
          else if KeySet.has ds id m.sockets
          then callback id m
          else m)
      one = ground (arith, h.kept_sockets, h, callback-IsAfter n m ids id h)

  start-IsAfter : (n : Namespace R S) → IsAfter n [] n
  unfolding KeySet.has
  start-IsAfter n = record { kept_sockets = refl; moved = λ r s. refl }

  -- The operation moves exactly the sockets that `fetchSockets` returns at its start.
  apply-moves :
      (opts : BroadcastOptions R) (n : Namespace R S) (r : R) (s : S)
      → in_room dr ds (apply dr ds (λ w. w) callback opts n).adapter r s
        ≡ changed n (fetch_sockets dr ds opts n) r s
  unfolding apply KeySet.has
  apply-moves opts n r s =
      let except = compute_except_sids dr ds opts.except n.adapter in
      let by_rooms = visit_rooms-Reaches n except opts.rooms ([], n) (start-IsAfter n) in
      let l = keys n.adapter.sids in
      let by_sids = visit_sids-IsAfter n except l [] n (start-IsAfter n) in
      ground (
        arith,
        by_rooms.0 s,
        by_rooms.1.moved r s,
        by_sids.moved r s,
        has-taken except n.sockets l [] s,
        has-fetch_sockets dr ds opts n s,
        has-compute_except_sids dr ds opts.except n.adapter s,
      )

module _ {R S : Type 0} (dr : Discrete R) (ds : Discrete S) (opts : BroadcastOptions R)
    (rooms : List R) (n : Namespace R S) where
  -- `addSockets` puts exactly the sockets that `fetchSockets` returned before it into the given
  -- rooms, and changes no other membership.
  pub in_room-add_sockets :
      (r : R) (s : S)
      → in_room dr ds (add_sockets dr ds opts rooms n).adapter r s ≡ (
          KeySet.has ds s (fetch_sockets dr ds opts n) && KeySet.has dr r rooms
          || in_room dr ds n.adapter r s)
  unfolding add_sockets
  in_room-add_sockets r s = ground (
    arith,
    apply-moves dr ds (λ id. add_all dr ds id rooms) (λ q b. KeySet.has dr q rooms || b)
        (λ id a q i. ground (arith, in_room-add_all dr ds id rooms a q i)) (λ q b. ground arith)
        opts n r s,
  )

module _ {R S : Type 0} (dr : Discrete R) (ds : Discrete S) where
  in_room-leave_each :
      (id : S) (rooms : List R) (a : Adapter R S) (r : R) (s : S)
      → in_room dr ds (leave_each dr ds id rooms a) r s
        ≡ (not (same ds s id && KeySet.has dr r rooms) && in_room dr ds a r s)
  unfolding leave_each KeySet.has
  in_room-leave_each id [] a r s = ground arith
  in_room-leave_each id (q ∷ rooms) a r s =
      ground
        (arith, in_room-leave_each id rooms (del dr ds id q a) r s, in_room-del dr ds id q a r s)

  -- `delSockets` takes exactly the sockets that `fetchSockets` returned before it out of the given
  -- rooms, and changes no other membership.
  pub in_room-del_sockets :
      (opts : BroadcastOptions R) (rooms : List R) (n : Namespace R S) (r : R) (s : S)
      → in_room dr ds (del_sockets dr ds opts rooms n).adapter r s ≡ (
          not (KeySet.has ds s (fetch_sockets dr ds opts n) && KeySet.has dr r rooms)
          && in_room dr ds n.adapter r s)
  unfolding del_sockets
  in_room-del_sockets opts rooms n r s = ground (
    arith,
    apply-moves dr ds (λ id. leave_each dr ds id rooms) (λ q b. not (KeySet.has dr q rooms) && b)
        (λ id a q i. ground (arith, in_room-leave_each id rooms a q i)) (λ q b. ground arith) opts n
        r s,
  )

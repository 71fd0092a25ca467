-- ===== src/Adapter/Apply.antt =====
-- `apply` of packages/socket.io/lib/adapter.ts, which finds the sockets that an operation on rooms
-- reaches, and the operations that change no packet: `fetchSockets`, `addSockets`, `delSockets`.
-- A callback gets the state as the calls before it left it. Of the set that is iterated a callback
-- changes at most the entry of the socket at hand, so a loop goes over the set as it found it.
use socket_io_deno.Common.{◌||◌, List, [], ◌∷◌, ◌++◌, map, if◌then◌else◌}
use socket_io_deno.Common.Dict
use socket_io_deno.Common.Dict.{or_empty}
use socket_io_deno.Common.KeySet
use socket_io_deno.Adapter.{Adapter, BroadcastOptions, add_all, del, is_empty}

-- What `apply` reads of a namespace: its adapter and the ids in `nsp.sockets`.
pub record Namespace (R S : Type 0) : Type 0 where
  pub adapter : Adapter R S
  pub sockets : List S

module _ {R S : Type 0} (dr : Discrete R) (ds : Discrete S) where
  -- `forEach((sid) => exceptSids.add(sid))`
  unfoldable pub add_each : List S → List S → List S
  unfolding KeySet.add
  add_each [] acc = acc
  add_each (id ∷ rest) acc = add_each rest (KeySet.add ds id acc)

  -- The loop of `computeExceptSids`, from the ids found so far.
  unfoldable pub except_loop : List R → Adapter R S → List S → List S
  unfolding add_each Dict.get
  except_loop [] a acc = acc
  except_loop (room ∷ rest) a acc =
      except_loop rest a (add_each (or_empty (Dict.get dr room a.rooms)) acc)

  unfoldable pub compute_except_sids : List R → Adapter R S → List S
  unfolding except_loop
  compute_except_sids except a = except_loop except a []

  -- `W` is all the state that a callback may change.
  module _ {W : Type 0} (view : W → Namespace R S) (callback : S → W → W) where
    -- One round of the inner loop: `ids` are the sockets that were called.
    unfoldable pub visit_one : List S → S → List S × W → List S × W
    unfolding KeySet.has KeySet.add
    visit_one except id (ids, w) =
        if KeySet.has ds id ids || KeySet.has ds id except
        then (ids, w)
        else if KeySet.has ds id (view w).sockets
        then (KeySet.add ds id ids, callback id w)
        else (ids, w)

    unfoldable pub visit : List S → List S → List S × W → List S × W
    unfolding visit_one
    visit except [] s = s
    visit except (id ∷ rest) s = visit except rest (visit_one except id s)

    -- The loop over the rooms of the options.
    unfoldable pub visit_rooms : List S → List R → List S × W → List S × W
    unfolding visit Dict.get
    visit_rooms except [] s = s
    visit_rooms except (room ∷ rest) s =
        visit_rooms except rest
          (visit except (or_empty (Dict.get dr room (view s.1).adapter.rooms)) s)

    -- The loop over all the sockets of the adapter.
    unfoldable pub visit_sids : List S → List S → W → W
    unfolding KeySet.has
    visit_sids except [] w = w
    visit_sids except (id ∷ rest) w = visit_sids except rest (
        if KeySet.has ds id except
        then w
        else if KeySet.has ds id (view w).sockets
        then callback id w
        else w)

    unfoldable pub apply : BroadcastOptions R → W → W
    unfolding compute_except_sids visit_rooms visit_sids
    apply opts w =
        let a = (view w).adapter in
        let except = compute_except_sids opts.except a in
        if is_empty opts.rooms
        then visit_sids except (map (λ e. e.0) a.sids) w
        else (visit_rooms except opts.rooms ([], w)).1

  -- `sockets.push(socket)`; a socket stands for itself by its id.
  abbrev pub push : S → Namespace R S × List S → Namespace R S × List S
  push id (n, found) = (n, found ++ id ∷ [])

  unfoldable pub fetch_sockets : BroadcastOptions R → Namespace R S → List S
  unfolding apply
  fetch_sockets opts n = (apply (λ w. w.0) push opts (n, [])).1

  -- `socket.join(rooms)`: the argument becomes a `Set`.
  unfoldable pub add_sockets : BroadcastOptions R → List R → Namespace R S → Namespace R S
  unfolding apply add_all
  add_sockets opts rooms =
      apply (λ n. n) (λ id n. record n { adapter = add_all dr ds id rooms n.adapter }) opts

  -- `rooms.forEach((room) => socket.leave(room))`
  unfoldable pub leave_each : S → List R → Adapter R S → Adapter R S
  unfolding del
  leave_each id [] a = a
  leave_each id (room ∷ rest) a = leave_each id rest (del dr ds id room a)

  unfoldable pub del_sockets : BroadcastOptions R → List R → Namespace R S → Namespace R S
  unfolding apply leave_each
  del_sockets opts rooms =
      apply (λ n. n) (λ id n. record n { adapter = leave_each id rooms n.adapter }) opts

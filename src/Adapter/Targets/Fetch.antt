-- ===== src/Adapter/Targets/Fetch.antt =====
-- Which sockets `fetchSockets` returns, and that none is returned twice.
use socket_io_deno.Common.{
  true, false, not, ◌&&◌, ◌||◌, List, [], ◌∷◌, ◌++◌, ◌≡◌, refl, ◌∙◌, inl, inr, arith, same,
  if◌then◌else◌, Option-cases,
}
use socket_io_deno.Common.Dict
use socket_io_deno.Common.Dict.{or_empty, keys}
use socket_io_deno.Common.KeySet
use socket_io_deno.Adapter.{
  Adapter, BroadcastOptions, is_empty, Call, add_alls, dels, del_alls, step, run, init, add_rooms,
  remove_from_rooms, remove_sid_from_room, emit, create_if_missing, join_if_missing, note_room,
  leave_if_member, drop_if_empty, add_all, del, del_all, forget_room,
}
use socket_io_deno.Adapter.Apply.{Namespace, compute_except_sids, fetch_sockets}
use socket_io_deno.Adapter.Targets.{
  in_any, has-compute_except_sids, chosen_one, chosen, chosen_rooms, kept, targets,
  fetch_sockets-targets,
}

module _ {R S : Type 0} (dr : Discrete R) (ds : Discrete S) where
  pub same-has :
      (s id : S) (m : List S) → same ds s id ≡ true → KeySet.has ds s m ≡ KeySet.has ds id m
  same-has s id m e = ground arith

  pub has-chosen :
      (except sockets l ids : List S) (s : S)
      → KeySet.has ds s (chosen dr ds except sockets l ids) ≡ (
          KeySet.has ds s ids
          || not (KeySet.has ds s except) && KeySet.has ds s sockets && KeySet.has ds s l)
  unfolding chosen KeySet.has
  has-chosen except sockets [] ids s = ground arith
  has-chosen except sockets (id ∷ l) ids s = ground (
    arith,
    has-chosen except sockets l (chosen_one dr ds except sockets id ids) s,
    KeySet.has-append ds s ids (id ∷ []),
    same-has s id ids,
    same-has s id except,
    same-has s id sockets,
  )

  has-chosen_rooms :
      (except : List S) (n : Namespace R S) (rs : List R) (ids : List S) (s : S)
      → KeySet.has ds s (chosen_rooms dr ds except n rs ids) ≡ (
          KeySet.has ds s ids
          || not (KeySet.has ds s except)
            && KeySet.has ds s n.sockets
            && in_any dr ds n.adapter rs s)
  unfolding chosen_rooms
  has-chosen_rooms except n [] ids s = ground arith
  has-chosen_rooms except n (r ∷ rs) ids s =
      let l = or_empty (Dict.get dr r n.adapter.rooms) in
      ground (
        arith,
        has-chosen_rooms except n rs (chosen dr ds except n.sockets l ids) s,
        has-chosen except n.sockets l ids s,
      )

  has-kept :
      (except sockets l : List S) (s : S)
      → KeySet.has ds s (kept dr ds except sockets l)
        ≡ (not (KeySet.has ds s except) && KeySet.has ds s sockets && KeySet.has ds s l)
  unfolding kept KeySet.has
  has-kept except sockets [] s = ground arith
  has-kept except sockets (id ∷ l) s =
      ground (arith, has-kept except sockets l s, same-has s id except, same-has s id sockets)

  -- A socket is returned exactly when it is connected to the namespace, is in none of the rooms to
  -- leave out, and is in one of the rooms to reach or, if none is given, known to the adapter.
  pub has-fetch_sockets :
      (opts : BroadcastOptions R) (n : Namespace R S) (s : S)
      → KeySet.has ds s (fetch_sockets dr ds opts n) ≡ (
          not (in_any dr ds n.adapter opts.except s)
          && KeySet.has ds s n.sockets
          && (if is_empty opts.rooms
              then KeySet.has ds s (keys n.adapter.sids)
              else in_any dr ds n.adapter opts.rooms s))
  unfolding targets KeySet.has
  has-fetch_sockets opts n s =
      let except = compute_except_sids dr ds opts.except n.adapter in
      rw (fetch_sockets-targets dr ds opts n) (
        ground (
          arith,
          has-compute_except_sids dr ds opts.except n.adapter s,
          has-chosen_rooms except n opts.rooms [] s,
          has-kept except n.sockets (keys n.adapter.sids) s,
        ))

  abbrev Distinct : List S → Type 0
  Distinct l = KeySet.Distinct ds l

  chosen-Distinct :
      (except sockets l ids : List S) → Distinct ids → Distinct (chosen dr ds except sockets l ids)
  unfolding chosen
  chosen-Distinct except sockets [] ids d = d
  chosen-Distinct except sockets (id ∷ l) ids d =
      chosen-Distinct except sockets l (chosen_one dr ds except sockets id ids)
        (one_more (KeySet.append-Distinct ds ids id d))
    where
      one_more :
          (KeySet.has ds id ids ≡ false → Distinct (ids ++ id ∷ []))
          → Distinct (chosen_one dr ds except sockets id ids)
      one_more h = ground (arith, d)

  chosen_rooms-Distinct :
      (except : List S) (n : Namespace R S) (rs : List R) (ids : List S)
      → Distinct ids
      → Distinct (chosen_rooms dr ds except n rs ids)
  unfolding chosen_rooms
  chosen_rooms-Distinct except n [] ids d = d
  chosen_rooms-Distinct except n (r ∷ rs) ids d =
      let l = or_empty (Dict.get dr r n.adapter.rooms) in
      chosen_rooms-Distinct except n rs _ (chosen-Distinct except n.sockets l ids d)

  kept-Distinct : (except sockets l : List S) → Distinct l → Distinct (kept dr ds except sockets l)
  unfolding kept
  kept-Distinct except sockets [] d = tt
  kept-Distinct except sockets (id ∷ l) d =
      ground (arith, kept-Distinct except sockets l d.1, has-kept except sockets l id)

  -- No socket id is a key of `sids` twice.
  abbrev HasKeys : Adapter R S → Type 0
  HasKeys a = Distinct (keys a.sids)

  join-HasKeys :
      (i : S) (q : R) (a : Adapter R S)
      → HasKeys a
      → HasKeys (join_if_missing dr ds i q (create_if_missing dr ds q (note_room dr ds i q a)))
  unfolding join_if_missing create_if_missing note_room emit
  join-HasKeys i q a d =
      let rooms = KeySet.add dr q (or_empty (Dict.get ds i a.sids)) in
      ground (arith, Dict.set-Distinct ds i rooms a.sids d)

  add_rooms-HasKeys :
      (i : S) (rooms : List R) (a : Adapter R S) → HasKeys a → HasKeys (add_rooms dr ds i rooms a)
  unfolding add_rooms
  add_rooms-HasKeys i [] a d = d
  add_rooms-HasKeys i (q ∷ rest) a d = add_rooms-HasKeys i rest _ (join-HasKeys i q a d)

  sids-remove : (q : R) (i : S) (a : Adapter R S) → (remove_sid_from_room dr ds q i a).sids ≡ a.sids
  unfolding remove_sid_from_room leave_if_member drop_if_empty emit
  sids-remove q i a = ground arith

  sids-remove_from_rooms :
      (i : S) (rooms : List R) (a : Adapter R S) → (remove_from_rooms dr ds i rooms a).sids ≡ a.sids
  unfolding remove_from_rooms
  sids-remove_from_rooms i [] a = refl
  sids-remove_from_rooms i (q ∷ rest) a =
      sids-remove_from_rooms i rest (remove_sid_from_room dr ds q i a) ∙ sids-remove q i a

  step-HasKeys : (c : Call R S) (a : Adapter R S) → HasKeys a → HasKeys (step dr ds c a)
  unfolding step add_all del forget_room del_all
  step-HasKeys (add_alls i rooms) a d = elim (Option-cases (Dict.get ds i a.sids)) [
    | inl e ↦
        rw (e, add_all)
          (add_rooms-HasKeys i rooms _ (Dict.set-Distinct {V = List R} ds i [] a.sids d))
    | inr (_, e) ↦ rw (e, add_all) (add_rooms-HasKeys i rooms a d)
  ]
  step-HasKeys (dels i q) a d = elim (Option-cases (Dict.get ds i a.sids)) [
    | inl e ↦ rw (e, forget_room, sids-remove q i a) d
    | inr (rooms, e) ↦
        let b = record a { sids = Dict.set ds i (KeySet.delete dr q rooms) a.sids } in
        rw (e, forget_room, sids-remove q i b) (Dict.set-Distinct ds i _ a.sids d)
  ]
  step-HasKeys (del_alls i) a d = elim (Option-cases (Dict.get ds i a.sids)) [
    | inl e ↦ rw (e, del_all) d
    | inr (rooms, e) ↦
        rw (e, del_all, sids-remove_from_rooms i rooms a) (Dict.delete-Distinct ds i a.sids d)
  ]

  run-HasKeys : (cs : List (Call R S)) (a : Adapter R S) → HasKeys a → HasKeys (run dr ds cs a)
  unfolding run
  run-HasKeys [] a d = d
  run-HasKeys (c ∷ cs) a d = run-HasKeys cs (step dr ds c a) (step-HasKeys c a d)

  -- Whatever the calls on the adapter were, no socket is returned twice, also where it is in several
  -- of the rooms.
  pub fetch_sockets-Distinct :
      (cs : List (Call R S)) (opts : BroadcastOptions R) (sockets : List S)
      → KeySet.Distinct ds
          (fetch_sockets dr ds opts (record { adapter = run dr ds cs init; sockets = sockets }))
  unfolding targets init
  fetch_sockets-Distinct cs opts sockets =
      let n : Namespace R S = record { adapter = run dr ds cs init; sockets = sockets } in
      let except = compute_except_sids dr ds opts.except n.adapter in
      rw (fetch_sockets-targets dr ds opts n) (
        ground (
          arith,
          chosen_rooms-Distinct except n opts.rooms [] tt,
          kept-Distinct except sockets (keys n.adapter.sids) (run-HasKeys cs init tt),
        ))

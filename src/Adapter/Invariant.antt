-- ===== src/Adapter/Invariant.antt =====
-- The invariant of `InMemoryAdapter`: its two maps agree, and no room is empty.
use socket_io_deno.Common.{
  Bool, true, false, not, ◌&&◌, ◌||◌, some, List, [], ◌∷◌, ◌≡◌, ◌≢◌, refl, ◌∙◌, inl, inr, arith,
  same, Option-cases, ap, fun_ext,
}
use socket_io_deno.Common.Dict
use socket_io_deno.Common.Dict.{or_empty}
use socket_io_deno.Common.KeySet
use socket_io_deno.Adapter.{
  Adapter, emit, create_if_missing, join_if_missing, note_room, add_rooms, add_all, leave_if_member,
  drop_if_empty, remove_sid_from_room, forget_room, del, remove_from_rooms, del_all, in_room,
  lists_room, init, Call, add_alls, dels, del_alls, step, run,
}
use socket_io_deno.Adapter.Membership.{
  in_room-add_all, lists_room-add_all, in_room-del, lists_room-del, in_room-remove_from_rooms,
  lists_room-remove_from_rooms, get-same_sid,
}

pub record IsConsistent {R S : Type 0} (dr : Discrete R) (ds : Discrete S) (a : Adapter R S)
    : Type 0 where
  pub agree : (r : R) (s : S) → in_room dr ds a r s ≡ lists_room dr ds a r s
  pub occupied : (r : R) → Dict.get dr r a.rooms ≢ some []

module _ {R S : Type 0} (dr : Discrete R) (ds : Discrete S) where
  pub in_room-del_all :
      (i : S) (a : Adapter R S) (r : R) (s : S)
      → IsConsistent dr ds a
      → in_room dr ds (del_all dr ds i a) r s ≡ (not (same ds s i) && in_room dr ds a r s)
  unfolding del_all KeySet.has
  in_room-del_all i a r s c = elim (Option-cases (Dict.get ds i a.sids)) [
    | inl e ↦ rw (e, del_all) (ground (arith, c.agree r s, get-same_sid dr ds i s a.sids))
    | inr (rooms, e) ↦
        rw (e, del_all)
          (ground (
            arith,
            in_room-remove_from_rooms dr ds i rooms a r s,
            c.agree r s,
            get-same_sid dr ds i s a.sids,
          ))
  ]

  lists_room-del_all :
      (i : S) (a : Adapter R S) (r : R) (s : S)
      → lists_room dr ds (del_all dr ds i a) r s ≡ (not (same ds s i) && lists_room dr ds a r s)
  unfolding del_all KeySet.has
  lists_room-del_all i a r s = elim (Option-cases (Dict.get ds i a.sids)) [
    | inl e ↦ rw (e, del_all) (ground (arith, get-same_sid dr ds i s a.sids))
    | inr (rooms, e) ↦
        let b = remove_from_rooms dr ds i rooms a in
        rw (e, del_all)
          (ground (
            arith,
            Dict.or_empty-delete ds s i b.sids,
            lists_room-remove_from_rooms dr ds i rooms a r s,
          ))
  ]

  -- Every room that is stored has a member.
  abbrev Occupied : Adapter R S → Type 0
  Occupied a = (r : R) → Dict.get dr r a.rooms ≢ some []

  add-ne-nil : (i : S) (s : List S) → KeySet.add ds i s ≢ []
  unfolding KeySet.add KeySet.has
  add-ne-nil i [] = λ e. cc
  add-ne-nil i (x ∷ s) = ground arith

  get-same :
      (q r : R) (m : List (R × List S)) → same dr r q ≡ true → Dict.get dr r m ≡ Dict.get dr q m
  get-same q r m e = ground arith

  join-Occupied :
      (i : S) (q : R) (a : Adapter R S)
      → Occupied a
      → Occupied (join_if_missing dr ds i q (create_if_missing dr ds q a))
  unfolding join_if_missing create_if_missing emit KeySet.has
  join-Occupied i q a o r = elim (Option-cases (Dict.get dr q a.rooms)) [
    | inl e ↦
        let m = Dict.set dr q [] a.rooms in
        rw (e, create_if_missing)
          (ground (
            arith,
            o r,
            Dict.get-set dr r q [] a.rooms,
            Dict.get-set dr q q [] a.rooms,
            Dict.get-set dr r q (KeySet.add ds i []) m,
            add-ne-nil i [],
          ))
    | inr (members, e) ↦
        rw (e, create_if_missing)
          (ground (
            arith,
            o r,
            e,
            Dict.get-set dr r q (KeySet.add ds i members) a.rooms,
            add-ne-nil i members,
          ))
  ]

  add_rooms-Occupied :
      (i : S) (rooms : List R) (a : Adapter R S) → Occupied a → Occupied (add_rooms dr ds i rooms a)
  unfolding add_rooms
  add_rooms-Occupied i [] a o = o
  add_rooms-Occupied i (q ∷ rest) a o =
      add_rooms-Occupied i rest _
        (join-Occupied i q (note_room dr ds i q a) (unfold note_room in o))

  remove-Occupied :
      (q : R) (i : S) (a : Adapter R S) → Occupied a → Occupied (remove_sid_from_room dr ds q i a)
  unfolding remove_sid_from_room leave_if_member drop_if_empty emit
  remove-Occupied q i a o r = elim (Option-cases (Dict.get dr q a.rooms)) [
    | inl e ↦ rw (e, remove_sid_from_room) (o r)
    | inr (members, e) ↦
        let left = KeySet.delete ds i members in
        let b = leave_if_member dr ds q i members a in
        rw (e, remove_sid_from_room)
          (ground (
            arith,
            o r,
            Dict.get-set dr r q left a.rooms,
            Dict.get-delete dr r q a.rooms,
            Dict.get-delete dr r q b.rooms,
          ))
  ]

  remove_from_rooms-Occupied :
      (i : S) (rooms : List R) (a : Adapter R S)
      → Occupied a
      → Occupied (remove_from_rooms dr ds i rooms a)
  unfolding remove_from_rooms
  remove_from_rooms-Occupied i [] a o = o
  remove_from_rooms-Occupied i (q ∷ rest) a o =
      remove_from_rooms-Occupied i rest _ (remove-Occupied q i a o)

  add_all-Occupied :
      (i : S) (rooms : List R) (a : Adapter R S) → Occupied a → Occupied (add_all dr ds i rooms a)
  unfolding add_all
  add_all-Occupied i rooms a o = elim (Option-cases (Dict.get ds i a.sids)) [
    | inl e ↦ rw (e, add_all) (add_rooms-Occupied i rooms _ o)
    | inr (_, e) ↦ rw (e, add_all) (add_rooms-Occupied i rooms a o)
  ]

  del-Occupied : (i : S) (q : R) (a : Adapter R S) → Occupied a → Occupied (del dr ds i q a)
  unfolding del forget_room
  del-Occupied i q a o = elim (Option-cases (Dict.get ds i a.sids)) [
    | inl e ↦ rw (e, forget_room) (remove-Occupied q i a o)
    | inr (_, e) ↦ rw (e, forget_room) (remove-Occupied q i _ o)
  ]

  del_all-Occupied : (i : S) (a : Adapter R S) → Occupied a → Occupied (del_all dr ds i a)
  unfolding del_all
  del_all-Occupied i a o = elim (Option-cases (Dict.get ds i a.sids)) [
    | inl e ↦ rw (e, del_all) o
    | inr (rooms, e) ↦ rw (e, del_all) (remove_from_rooms-Occupied i rooms a o)
  ]

  -- Every call keeps the two maps in agreement and leaves no empty room behind.
  pub step-IsConsistent :
      (c : Call R S) (a : Adapter R S) → IsConsistent dr ds a → IsConsistent dr ds (step dr ds c a)
  unfolding step
  step-IsConsistent (add_alls i rooms) a v = record {
    agree = λ r s. ground (
      arith,
      v.agree r s,
      in_room-add_all dr ds i rooms a r s,
      lists_room-add_all dr ds i rooms a r s,
    );
    occupied = add_all-Occupied i rooms a v.occupied;
  }
  step-IsConsistent (dels i q) a v = record {
    agree = λ r s.
        ground (arith, v.agree r s, in_room-del dr ds i q a r s, lists_room-del dr ds i q a r s);
    occupied = del-Occupied i q a v.occupied;
  }
  step-IsConsistent (del_alls i) a v = record {
    agree =
        λ r s. ground (arith, v.agree r s, in_room-del_all i a r s v, lists_room-del_all i a r s);
    occupied = del_all-Occupied i a v.occupied;
  }

  init-IsConsistent : IsConsistent dr ds init
  unfolding init Dict.get KeySet.has
  init-IsConsistent = record { agree = λ r s. refl; occupied = λ r e. cc }

  pub run-IsConsistent :
      (cs : List (Call R S)) (a : Adapter R S)
      → IsConsistent dr ds a
      → IsConsistent dr ds (run dr ds cs a)
  unfolding run
  run-IsConsistent [] a v = v
  run-IsConsistent (c ∷ cs) a v = run-IsConsistent cs (step dr ds c a) (step-IsConsistent c a v)

  -- After any calls on a new adapter, a socket is listed in a room exactly when the room is listed
  -- under the socket, and every room that is stored has a member.
  pub run-init-IsConsistent : (cs : List (Call R S)) → IsConsistent dr ds (run dr ds cs init)
  run-init-IsConsistent cs = run-IsConsistent cs init init-IsConsistent

  -- Whether socket `s` is in room `r`, from the calls alone.
  abbrev pub after_call : Call R S → (R → S → Bool) → R → S → Bool
  after_call (add_alls i rooms) m r s = same ds s i && KeySet.has dr r rooms || m r s
  after_call (dels i q) m r s = not (same dr r q && same ds s i) && m r s
  after_call (del_alls i) m r s = not (same ds s i) && m r s

  abbrev pub after_calls : List (Call R S) → (R → S → Bool) → R → S → Bool
  after_calls [] m = m
  after_calls (c ∷ cs) m = after_calls cs (after_call c m)

  in_room-step :
      (c : Call R S) (a : Adapter R S) (r : R) (s : S)
      → IsConsistent dr ds a
      → in_room dr ds (step dr ds c a) r s ≡ after_call c (in_room dr ds a) r s
  unfolding step
  in_room-step (add_alls i rooms) a r s v = in_room-add_all dr ds i rooms a r s
  in_room-step (dels i q) a r s v = in_room-del dr ds i q a r s
  in_room-step (del_alls i) a r s v = in_room-del_all i a r s v

  in_room-run :
      (cs : List (Call R S)) (a : Adapter R S)
      → IsConsistent dr ds a
      → in_room dr ds (run dr ds cs a) ≡ after_calls cs (in_room dr ds a)
  unfolding run
  in_room-run [] a v = refl
  in_room-run (c ∷ cs) a v =
      in_room-run cs (step dr ds c a) (step-IsConsistent c a v)
      ∙ ap (after_calls cs) (fun_ext (λ r. fun_ext (λ s. in_room-step c a r s v)))

  -- The two maps refine a relation between rooms and sockets: after any calls on a new adapter a
  -- socket is in a room exactly when the calls say so, the later call winning.
  pub in_room-run-init :
      (cs : List (Call R S)) → in_room dr ds (run dr ds cs init) ≡ after_calls cs (λ r s. false)
  unfolding init Dict.get KeySet.has
  in_room-run-init cs = in_room-run cs init init-IsConsistent

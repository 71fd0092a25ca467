-- ===== src/Adapter/Membership.antt =====
-- What the operations of `InMemoryAdapter` do to membership, and the invariant that ties the
-- two maps together.
use socket_io_deno.Common.{
  true, not, ◌&&◌, ◌||◌, List, [], ◌∷◌, ◌≡◌, refl, ◌∙◌, inl, inr, arith, same, Option-cases,
}
use socket_io_deno.Common.Dict
use socket_io_deno.Common.Dict.{or_empty}
use socket_io_deno.Common.KeySet
use socket_io_deno.Adapter.{
  Adapter, emit, create_if_missing, join_if_missing, note_room, add_rooms, add_all, leave_if_member,
  drop_if_empty, remove_sid_from_room, forget_room, del, remove_from_rooms, in_room, lists_room,
}

module _ {R S : Type 0} (dr : Discrete R) (ds : Discrete S) where
  pub get-same :
      (q r : R) (m : List (R × List S)) → same dr r q ≡ true → Dict.get dr r m ≡ Dict.get dr q m
  get-same q r m e = ground arith

  pub in_room-create :
      (q : R) (a : Adapter R S) (r : R) (s : S)
      → in_room dr ds (create_if_missing dr ds q a) r s ≡ in_room dr ds a r s
  unfolding create_if_missing emit KeySet.has
  in_room-create q a r s = ground (arith, Dict.or_empty-set dr r q [] a.rooms, get-same q r a.rooms)

  pub in_room-join :
      (i : S) (q : R) (a : Adapter R S) (r : R) (s : S)
      → in_room dr ds (join_if_missing dr ds i q a) r s
        ≡ (same dr r q && same ds s i || in_room dr ds a r s)
  unfolding join_if_missing emit
  in_room-join i q a r s = ground (
    arith,
    Dict.or_empty-set dr r q (KeySet.add ds i (or_empty (Dict.get dr q a.rooms))) a.rooms,
    get-same q r a.rooms,
    KeySet.has-add ds s i (or_empty (Dict.get dr q a.rooms)),
  )

  pub in_room-note :
      (i : S) (q : R) (a : Adapter R S) (r : R) (s : S)
      → in_room dr ds (note_room dr ds i q a) r s ≡ in_room dr ds a r s
  unfolding note_room
  in_room-note i q a r s = refl

  pub get-same_sid :
      (i s : S) (m : List (S × List R)) → same ds s i ≡ true → Dict.get ds s m ≡ Dict.get ds i m
  get-same_sid i s m e = ground arith

  pub lists_room-create :
      (q : R) (a : Adapter R S) (r : R) (s : S)
      → lists_room dr ds (create_if_missing dr ds q a) r s ≡ lists_room dr ds a r s
  unfolding create_if_missing emit
  lists_room-create q a r s = ground arith

  pub lists_room-join :
      (i : S) (q : R) (a : Adapter R S) (r : R) (s : S)
      → lists_room dr ds (join_if_missing dr ds i q a) r s ≡ lists_room dr ds a r s
  unfolding join_if_missing emit
  lists_room-join i q a r s = ground arith

  pub lists_room-note :
      (i : S) (q : R) (a : Adapter R S) (r : R) (s : S)
      → lists_room dr ds (note_room dr ds i q a) r s
        ≡ (same dr r q && same ds s i || lists_room dr ds a r s)
  unfolding note_room
  lists_room-note i q a r s = ground (
    arith,
    Dict.or_empty-set ds s i (KeySet.add dr q (or_empty (Dict.get ds i a.sids))) a.sids,
    get-same_sid i s a.sids,
    KeySet.has-add dr r q (or_empty (Dict.get ds i a.sids)),
  )

  pub in_room-add_rooms :
      (i : S) (rooms : List R) (a : Adapter R S) (r : R) (s : S)
      → in_room dr ds (add_rooms dr ds i rooms a) r s
        ≡ (same ds s i && KeySet.has dr r rooms || in_room dr ds a r s)
  unfolding add_rooms KeySet.has
  in_room-add_rooms i [] a r s = ground arith
  in_room-add_rooms i (q ∷ rest) a r s =
      let b = note_room dr ds i q a in
      let c = create_if_missing dr ds q b in
      ground (
        arith,
        in_room-add_rooms i rest (join_if_missing dr ds i q c) r s,
        in_room-join i q c r s,
        in_room-create q b r s,
        in_room-note i q a r s,
      )

  pub lists_room-add_rooms :
      (i : S) (rooms : List R) (a : Adapter R S) (r : R) (s : S)
      → lists_room dr ds (add_rooms dr ds i rooms a) r s
        ≡ (same ds s i && KeySet.has dr r rooms || lists_room dr ds a r s)
  unfolding add_rooms KeySet.has
  lists_room-add_rooms i [] a r s = ground arith
  lists_room-add_rooms i (q ∷ rest) a r s =
      let b = note_room dr ds i q a in
      let c = create_if_missing dr ds q b in
      ground (
        arith,
        lists_room-add_rooms i rest (join_if_missing dr ds i q c) r s,
        lists_room-join i q c r s,
        lists_room-create q b r s,
        lists_room-note i q a r s,
      )

  pub in_room-add_all :
      (i : S) (rooms : List R) (a : Adapter R S) (r : R) (s : S)
      → in_room dr ds (add_all dr ds i rooms a) r s
        ≡ (same ds s i && KeySet.has dr r rooms || in_room dr ds a r s)
  unfolding add_all
  in_room-add_all i rooms a r s = elim (Option-cases (Dict.get ds i a.sids)) [
    | inl e ↦ rw (e, add_all) (in_room-add_rooms i rooms _ r s)
    | inr (_, e) ↦ rw (e, add_all) (in_room-add_rooms i rooms a r s)
  ]

  pub lists_room-add_all :
      (i : S) (rooms : List R) (a : Adapter R S) (r : R) (s : S)
      → lists_room dr ds (add_all dr ds i rooms a) r s
        ≡ (same ds s i && KeySet.has dr r rooms || lists_room dr ds a r s)
  unfolding add_all KeySet.has
  lists_room-add_all i rooms a r s = elim (Option-cases (Dict.get ds i a.sids)) [
    | inl e ↦
        let b = record a { sids = Dict.set ds i [] a.sids } in
        rw (e, add_all)
          (ground (
            arith,
            lists_room-add_rooms i rooms b r s,
            Dict.or_empty-set ds s i [] a.sids,
            get-same_sid i s a.sids,
          ))
    | inr (_, e) ↦ rw (e, add_all) (lists_room-add_rooms i rooms a r s)
  ]

  pub in_room-remove :
      (q : R) (i : S) (a : Adapter R S) (r : R) (s : S)
      → in_room dr ds (remove_sid_from_room dr ds q i a) r s
        ≡ (not (same dr r q && same ds s i) && in_room dr ds a r s)
  unfolding remove_sid_from_room leave_if_member drop_if_empty emit KeySet.has
  in_room-remove q i a r s = elim (Option-cases (Dict.get dr q a.rooms)) [
    | inl e ↦ rw (e, remove_sid_from_room) (ground (arith, get-same q r a.rooms))
    | inr (members, e) ↦
        let left = KeySet.delete ds i members in
        let b = leave_if_member dr ds q i members a in
        rw (e, remove_sid_from_room)
          (ground (
            arith,
            Dict.or_empty-set dr r q left a.rooms,
            Dict.or_empty-delete dr r q a.rooms,
            Dict.or_empty-delete dr r q b.rooms,
            get-same q r a.rooms,
            KeySet.has-delete ds s i members,
          ))
  ]

  pub lists_room-remove :
      (q : R) (i : S) (a : Adapter R S) (r : R) (s : S)
      → lists_room dr ds (remove_sid_from_room dr ds q i a) r s ≡ lists_room dr ds a r s
  unfolding remove_sid_from_room leave_if_member drop_if_empty emit
  lists_room-remove q i a r s = ground arith

  pub lists_room-forget :
      (i : S) (q : R) (a : Adapter R S) (r : R) (s : S)
      → lists_room dr ds (forget_room dr ds i q a) r s
        ≡ (not (same dr r q && same ds s i) && lists_room dr ds a r s)
  unfolding forget_room KeySet.has
  lists_room-forget i q a r s = elim (Option-cases (Dict.get ds i a.sids)) [
    | inl e ↦ rw (e, forget_room) (ground (arith, get-same_sid i s a.sids))
    | inr (rooms, e) ↦
        rw (e, forget_room)
          (ground (
            arith,
            Dict.or_empty-set ds s i (KeySet.delete dr q rooms) a.sids,
            get-same_sid i s a.sids,
            KeySet.has-delete dr r q rooms,
          ))
  ]

  pub in_room-forget :
      (i : S) (q : R) (a : Adapter R S) (r : R) (s : S)
      → in_room dr ds (forget_room dr ds i q a) r s ≡ in_room dr ds a r s
  unfolding forget_room
  in_room-forget i q a r s = ground arith

  pub in_room-del :
      (i : S) (q : R) (a : Adapter R S) (r : R) (s : S)
      → in_room dr ds (del dr ds i q a) r s
        ≡ (not (same dr r q && same ds s i) && in_room dr ds a r s)
  unfolding del
  in_room-del i q a r s =
      in_room-remove q i (forget_room dr ds i q a) r s ∙ rw (in_room-forget i q a r s)

  pub lists_room-del :
      (i : S) (q : R) (a : Adapter R S) (r : R) (s : S)
      → lists_room dr ds (del dr ds i q a) r s
        ≡ (not (same dr r q && same ds s i) && lists_room dr ds a r s)
  unfolding del
  lists_room-del i q a r s =
      lists_room-remove q i (forget_room dr ds i q a) r s ∙ lists_room-forget i q a r s

  pub in_room-remove_from_rooms :
      (i : S) (rooms : List R) (a : Adapter R S) (r : R) (s : S)
      → in_room dr ds (remove_from_rooms dr ds i rooms a) r s
        ≡ (not (KeySet.has dr r rooms && same ds s i) && in_room dr ds a r s)
  unfolding remove_from_rooms KeySet.has
  in_room-remove_from_rooms i [] a r s = ground arith
  in_room-remove_from_rooms i (q ∷ rest) a r s = ground (
    arith,
    in_room-remove_from_rooms i rest (remove_sid_from_room dr ds q i a) r s,
    in_room-remove q i a r s,
  )

  pub lists_room-remove_from_rooms :
      (i : S) (rooms : List R) (a : Adapter R S) (r : R) (s : S)
      → lists_room dr ds (remove_from_rooms dr ds i rooms a) r s ≡ lists_room dr ds a r s
  unfolding remove_from_rooms
  lists_room-remove_from_rooms i [] a r s = refl
  lists_room-remove_from_rooms i (q ∷ rest) a r s =
      lists_room-remove_from_rooms i rest (remove_sid_from_room dr ds q i a) r s
      ∙ lists_room-remove q i a r s

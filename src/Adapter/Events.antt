-- ===== src/Adapter/Events.antt =====
-- The reserved events of `InMemoryAdapter`, as a listener sees them that keeps its own record of
-- the rooms and of their members.
use socket_io_deno.Common.{
  Bool, true, false, not, ◌&&◌, ◌||◌, none, some, List, [], ◌∷◌, ◌++◌, ◌≡◌, refl, inl, inr, arith,
  same, Bool-cases, Option-cases, fun_ext,
}
use socket_io_deno.Common.Dict
use socket_io_deno.Common.Dict.{or_empty}
use socket_io_deno.Common.KeySet
use socket_io_deno.Adapter.{
  Adapter, Event, create_room, delete_room, join_room, leave_room, emit, create_if_missing,
  join_if_missing, note_room, add_rooms, add_all, leave_if_member, drop_if_empty,
  remove_sid_from_room, forget_room, del, remove_from_rooms, del_all, in_room, init, Call, add_alls,
  dels, del_alls, step, run,
}
use socket_io_deno.Adapter.Membership.{get-same}

abbrev pub is_stored : {R S : Type 0} → Discrete R → Adapter R S → R → Bool
is_stored dr a r = elim (Dict.get dr r a.rooms) [ none ↦ false | some _ ↦ true ]

module _ {R S : Type 0} (dr : Discrete R) (ds : Discrete S) where
  -- What an event tells of the members and of the rooms.
  abbrev pub members_after : Event R S → (R → S → Bool) → R → S → Bool
  members_after (create_room q) m r s = m r s
  members_after (delete_room q) m r s = m r s
  members_after (join_room q i) m r s = same dr r q && same ds s i || m r s
  members_after (leave_room q i) m r s = not (same dr r q && same ds s i) && m r s

  abbrev pub rooms_after : Event R S → (R → Bool) → R → Bool
  rooms_after (create_room q) x r = same dr r q || x r
  rooms_after (delete_room q) x r = not (same dr r q) && x r
  rooms_after (join_room q i) x r = x r
  rooms_after (leave_room q i) x r = x r

-- When an event is news: a room is created that was not there, deleted when it is there and has
-- no member, joined by a socket that was not in it, and left by one that was.
abbrev pub IsNews : {R S : Type 0} → Event R S → (R → S → Bool) → (R → Bool) → Type 0
IsNews (create_room q) m x = x q ≡ false
IsNews {S = S} (delete_room q) m x = (x q ≡ true) × ((s : S) → m q s ≡ false)
IsNews (join_room q i) m x = (x q ≡ true) × (m q i ≡ false)
IsNews (leave_room q i) m x = (x q ≡ true) × (m q i ≡ true)

-- `IsLog dr ds es m x`: the events are news one after the other, from no room on, and tell the
-- members `m` and the rooms `x`.
pub data IsLog {R S : Type 0} (dr : Discrete R) (ds : Discrete S)
    : List (Event R S) → (R → S → Bool) → (R → Bool) → Type 0 where
  start : IsLog dr ds [] (λ r s. false) (λ r. false)
  next :
      {es : List (Event R S)} {m : R → S → Bool} {x : R → Bool}
      → IsLog dr ds es m x
      → (e : Event R S) → IsNews e m x
      → IsLog dr ds (es ++ e ∷ []) (members_after dr ds e m) (rooms_after dr ds e x)

module _ {R S : Type 0} (dr : Discrete R) (ds : Discrete S) where
  -- The events that an adapter emitted tell its rooms and their members.
  abbrev pub IsTold : Adapter R S → Type 0
  IsTold a = IsLog dr ds a.emitted (in_room dr ds a) (is_stored dr a)

  told :
      {es : List (Event R S)} {m m' : R → S → Bool} {x x' : R → Bool}
      → IsLog dr ds es m x
      → (e : Event R S) → IsNews e m x
      → ((r : R) (s : S) → m' r s ≡ members_after dr ds e m r s)
      → ((r : R) → x' r ≡ rooms_after dr ds e x r)
      → IsLog dr ds (es ++ e ∷ []) m' x'
  told {es} {m} {m'} {x} {x'} log e news hm hx =
      rw (fun_ext (λ r. fun_ext (λ s. hm r s)), fun_ext hx) (next log e news)

  create-IsTold : (q : R) (a : Adapter R S) → IsTold a → IsTold (create_if_missing dr ds q a)
  unfolding create_if_missing emit KeySet.has
  create-IsTold q a t = elim (Option-cases (Dict.get dr q a.rooms)) [
    | inl e ↦
        rw (e, create_if_missing)
          (told t (create_room q) (ground (arith, e))
            (λ r s. ground (arith, Dict.or_empty-set dr r q [] a.rooms, get-same dr ds q r a.rooms))
            (λ r. ground (arith, Dict.get-set dr r q [] a.rooms)))
    | inr (_, e) ↦ rw (e, create_if_missing) t
  ]

  join-IsTold :
      (i : S) (q : R) (a : Adapter R S)
      → is_stored dr a q ≡ true
      → IsTold a
      → IsTold (join_if_missing dr ds i q a)
  unfolding join_if_missing emit
  join-IsTold i q a h t = elim (Bool-cases (in_room dr ds a q i)) [
    | inl e ↦ rw (e, join_if_missing) t
    | inr e ↦
        let members = KeySet.add ds i (or_empty (Dict.get dr q a.rooms)) in
        rw (e, join_if_missing)
          (told t (join_room q i) (h, e)
            (λ r s. ground (
              arith,
              Dict.or_empty-set dr r q members a.rooms,
              get-same dr ds q r a.rooms,
              KeySet.has-add ds s i (or_empty (Dict.get dr q a.rooms)),
            ))
            (λ r. ground (arith, Dict.get-set dr r q members a.rooms, get-same dr ds q r a.rooms)))
  ]

  leave-IsTold :
      (q : R) (i : S) (members : List S) (a : Adapter R S)
      → Dict.get dr q a.rooms ≡ some members
      → IsTold a
      → IsTold (leave_if_member dr ds q i members a)
  unfolding leave_if_member emit
  leave-IsTold q i members a h t = elim (Bool-cases (KeySet.has ds i members)) [
    | inl e ↦
        let left = KeySet.delete ds i members in
        rw (e, leave_if_member)
          (told t (leave_room q i) (ground (arith, h), ground (arith, h))
            (λ r s. ground (
              arith,
              h,
              Dict.or_empty-set dr r q left a.rooms,
              get-same dr ds q r a.rooms,
              KeySet.has-delete ds s i members,
            ))
            (λ r. ground (arith, h, Dict.get-set dr r q left a.rooms, get-same dr ds q r a.rooms)))
    | inr e ↦ rw (e, leave_if_member) t
  ]

  drop-IsTold :
      (q : R) (left : List S) (a : Adapter R S)
      → is_stored dr a q ≡ true
      → ((s : S) → left ≡ [] → in_room dr ds a q s ≡ false)
      → IsTold a
      → IsTold (drop_if_empty dr ds q left a)
  unfolding drop_if_empty emit KeySet.has
  drop-IsTold q [] a h none_left t =
      told t (delete_room q) (h, λ s. none_left s refl)
        (λ r s. ground (
          arith,
          none_left s refl,
          Dict.or_empty-delete dr r q a.rooms,
          get-same dr ds q r a.rooms,
        ))
        (λ r. ground (arith, Dict.get-delete dr r q a.rooms))
  drop-IsTold q (x ∷ left) a h none_left t = t

  remove-IsTold :
      (q : R) (i : S) (a : Adapter R S) → IsTold a → IsTold (remove_sid_from_room dr ds q i a)
  unfolding remove_sid_from_room
  remove-IsTold q i a t = elim (Option-cases (Dict.get dr q a.rooms)) [
    | inl e ↦ rw (e, remove_sid_from_room) t
    | inr (members, e) ↦
        rw (e, remove_sid_from_room)
          (drop-IsTold q (KeySet.delete ds i members) (leave_if_member dr ds q i members a)
            (still_stored members e) (none_left members e) (leave-IsTold q i members a e t))
  ]
    where
      still_stored :
          (members : List S)
          → Dict.get dr q a.rooms ≡ some members
          → is_stored dr (leave_if_member dr ds q i members a) q ≡ true
      still_stored members e =
          unfold leave_if_member emit in
          ground (arith, e, Dict.get-set dr q q (KeySet.delete ds i members) a.rooms)

      none_left :
          (members : List S)
          → Dict.get dr q a.rooms ≡ some members
          → (s : S) → KeySet.delete ds i members ≡ []
          → in_room dr ds (leave_if_member dr ds q i members a) q s ≡ false
      none_left members e s h =
          unfold leave_if_member emit KeySet.has in
          ground (
            arith,
            e,
            h,
            Dict.get-set dr q q (KeySet.delete ds i members) a.rooms,
            KeySet.has-delete ds s i members,
          )

  add_rooms-IsTold :
      (i : S) (rooms : List R) (a : Adapter R S) → IsTold a → IsTold (add_rooms dr ds i rooms a)
  unfolding add_rooms note_room
  add_rooms-IsTold i [] a t = t
  add_rooms-IsTold i (q ∷ rest) a t =
      let b = note_room dr ds i q a in
      add_rooms-IsTold i rest _
        (join-IsTold i q (create_if_missing dr ds q b) (now_stored b) (create-IsTold q b t))
    where
      now_stored : (b : Adapter R S) → is_stored dr (create_if_missing dr ds q b) q ≡ true
      now_stored b = unfold create_if_missing emit in ground (arith, Dict.get-set dr q q [] b.rooms)

  remove_from_rooms-IsTold :
      (i : S) (rooms : List R) (a : Adapter R S)
      → IsTold a
      → IsTold (remove_from_rooms dr ds i rooms a)
  unfolding remove_from_rooms
  remove_from_rooms-IsTold i [] a t = t
  remove_from_rooms-IsTold i (q ∷ rest) a t =
      remove_from_rooms-IsTold i rest _ (remove-IsTold q i a t)

  step-IsTold : (c : Call R S) (a : Adapter R S) → IsTold a → IsTold (step dr ds c a)
  unfolding step add_all del del_all forget_room
  step-IsTold (add_alls i rooms) a t = elim (Option-cases (Dict.get ds i a.sids)) [
    | inl e ↦ rw (e, add_all) (add_rooms-IsTold i rooms _ t)
    | inr (_, e) ↦ rw (e, add_all) (add_rooms-IsTold i rooms a t)
  ]
  step-IsTold (dels i q) a t = elim (Option-cases (Dict.get ds i a.sids)) [
    | inl e ↦ rw (e, forget_room) (remove-IsTold q i a t)
    | inr (_, e) ↦ rw (e, forget_room) (remove-IsTold q i _ t)
  ]
  step-IsTold (del_alls i) a t = elim (Option-cases (Dict.get ds i a.sids)) [
    | inl e ↦ rw (e, del_all) t
    | inr (rooms, e) ↦ rw (e, del_all) (remove_from_rooms-IsTold i rooms a t)
  ]

  run-IsTold : (cs : List (Call R S)) (a : Adapter R S) → IsTold a → IsTold (run dr ds cs a)
  unfolding run
  run-IsTold [] a t = t
  run-IsTold (c ∷ cs) a t = run-IsTold cs (step dr ds c a) (step-IsTold c a t)

  -- After any calls on a new adapter, the events emitted so far are news one after the other, and
  -- whoever listened to them knows exactly the rooms that are stored and who is in which.
  pub run-init-IsTold : (cs : List (Call R S)) → IsTold (run dr ds cs init)
  unfolding init Dict.get KeySet.has
  run-init-IsTold cs = run-IsTold cs init start

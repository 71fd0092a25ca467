-- ===== src/Adapter.antt =====
-- `InMemoryAdapter` of packages/socket.io/lib/adapter.ts: who is in which room, and which sockets
-- an operation on rooms reaches. Rooms and socket ids are keys with a decidable equality; a `Map`
-- is an association list and a `Set` a list, both in the order of insertion.
pub mod Membership
pub mod Invariant
pub mod Events
pub mod Apply
pub mod Targets
pub mod Broadcast
mod Tests
use socket_io_deno.Common.{
  ℕ, Bool, true, false, not, ◌&&◌, ◌||◌, Option, none, some, List, [], ◌∷◌, ◌++◌, if◌then◌else◌,
}
use socket_io_deno.Common.Dict
use socket_io_deno.Common.Dict.{or_empty}
use socket_io_deno.Common.KeySet

-- The reserved events of the adapter; "error" is one that only a cluster emits.
pub data Event (R S : Type 0) : Type 0 where
  create_room delete_room : R → Event R S
  join_room leave_room : R → S → Event R S

-- `emitted` lists what `emitReserved` was called with, oldest first.
pub record Adapter (R S : Type 0) : Type 0 where
  pub rooms : List (R × List S)
  pub sids : List (S × List R)
  pub emitted : List (Event R S)

-- `BroadcastFlags`; a flag that is not set is false.
pub record BroadcastFlags : Type 0 where
  pub volatile : Bool
  pub local : Bool
  pub broadcast : Bool
  pub timeout : Option ℕ

-- `BroadcastOptions`: the rooms to reach and the rooms to leave out.
pub record BroadcastOptions (R : Type 0) : Type 0 where
  pub rooms : List R
  pub except : List R
  pub flags : Option BroadcastFlags

abbrev pub is_empty : {A : Type 0} → List A → Bool
is_empty [] = true
is_empty (x ∷ xs) = false

-- The calls by which membership changes.
pub data Call (R S : Type 0) : Type 0 where
  add_alls : S → List R → Call R S
  dels : S → R → Call R S
  del_alls : S → Call R S

module _ {R S : Type 0} where
  -- The constructor.
  unfoldable pub init : Adapter R S
  init = record { rooms = []; sids = []; emitted = [] }

  unfoldable pub emit : Event R S → Adapter R S → Adapter R S
  emit e a = record a { emitted = a.emitted ++ e ∷ [] }

module _ {R S : Type 0} (dr : Discrete R) (ds : Discrete S) where
  -- The part of the loop of `addAll` that finds or makes the room.
  unfoldable pub create_if_missing : R → Adapter R S → Adapter R S
  unfolding emit Dict.get Dict.set
  create_if_missing room a = elim (Dict.get dr room a.rooms) [
    | none ↦ emit (create_room room) (record a { rooms = Dict.set dr room [] a.rooms })
    | some _ ↦ a
  ]

  -- The part of it that adds the socket.
  unfoldable pub join_if_missing : S → R → Adapter R S → Adapter R S
  unfolding emit Dict.get Dict.set KeySet.has KeySet.add
  join_if_missing id room a =
      let members = or_empty (Dict.get dr room a.rooms) in
      if KeySet.has ds id members
      then a
      else emit (join_room room id)
          (record a { rooms = Dict.set dr room (KeySet.add ds id members) a.rooms })

  -- `roomsForSid.add(room)`; `roomsForSid` is the set that `sids` holds under `id`.
  unfoldable pub note_room : S → R → Adapter R S → Adapter R S
  unfolding Dict.get Dict.set KeySet.add
  note_room id room a = record a {
    sids = Dict.set ds id (KeySet.add dr room (or_empty (Dict.get ds id a.sids))) a.sids;
  }

  -- The loop of `addAll`.
  unfoldable pub add_rooms : S → List R → Adapter R S → Adapter R S
  unfolding create_if_missing join_if_missing note_room
  add_rooms id [] a = a
  add_rooms id (room ∷ rest) a =
      add_rooms id rest (join_if_missing id room (create_if_missing room (note_room id room a)))

  unfoldable pub add_all : S → List R → Adapter R S → Adapter R S
  unfolding add_rooms Dict.get Dict.set
  add_all id rooms a = elim (Dict.get ds id a.sids) [
    | none ↦ add_rooms id rooms (record a { sids = Dict.set ds id [] a.sids })
    | some _ ↦ add_rooms id rooms a
  ]

  -- `sids.delete(id)` and the event for a member.
  unfoldable pub leave_if_member : R → S → List S → Adapter R S → Adapter R S
  unfolding emit Dict.set KeySet.has KeySet.delete
  leave_if_member room id members a =
      if KeySet.has ds id members
      then emit (leave_room room id)
          (record a { rooms = Dict.set dr room (KeySet.delete ds id members) a.rooms })
      else a

  -- A room without members is dropped.
  unfoldable pub drop_if_empty : R → List S → Adapter R S → Adapter R S
  unfolding emit Dict.delete
  drop_if_empty room members a =
      if is_empty members
      then emit (delete_room room) (record a { rooms = Dict.delete dr room a.rooms })
      else a

  unfoldable pub remove_sid_from_room : R → S → Adapter R S → Adapter R S
  unfolding leave_if_member drop_if_empty Dict.get KeySet.delete
  remove_sid_from_room room id a = elim (Dict.get dr room a.rooms) [
    | none ↦ a
    | some members ↦
        drop_if_empty room (KeySet.delete ds id members) (leave_if_member room id members a)
  ]

  -- `this.sids.get(id)?.delete(room)`
  unfoldable pub forget_room : S → R → Adapter R S → Adapter R S
  unfolding Dict.get Dict.set KeySet.delete
  forget_room id room a = elim (Dict.get ds id a.sids) [
    | none ↦ a
    | some rooms ↦ record a { sids = Dict.set ds id (KeySet.delete dr room rooms) a.sids }
  ]

  unfoldable pub del : S → R → Adapter R S → Adapter R S
  unfolding forget_room remove_sid_from_room
  del id room a = remove_sid_from_room room id (forget_room id room a)

  -- The loop of `delAll`.
  unfoldable pub remove_from_rooms : S → List R → Adapter R S → Adapter R S
  unfolding remove_sid_from_room
  remove_from_rooms id [] a = a
  remove_from_rooms id (room ∷ rest) a = remove_from_rooms id rest (remove_sid_from_room room id a)

  unfoldable pub del_all : S → Adapter R S → Adapter R S
  unfolding remove_from_rooms Dict.get Dict.delete
  del_all id a = elim (Dict.get ds id a.sids) [
    | none ↦ a
    | some rooms ↦
        let b = remove_from_rooms id rooms a in record b { sids = Dict.delete ds id b.sids }
  ]

  -- `socketRooms`
  unfoldable pub socket_rooms : S → Adapter R S → Option (List R)
  unfolding Dict.get
  socket_rooms id a = Dict.get ds id a.sids

  -- Whether a socket is in a room, by the one map and by the other.
  abbrev pub in_room : Adapter R S → R → S → Bool
  in_room a room id = KeySet.has ds id (or_empty (Dict.get dr room a.rooms))

  abbrev pub lists_room : Adapter R S → R → S → Bool
  lists_room a room id = KeySet.has dr room (or_empty (Dict.get ds id a.sids))

  unfoldable pub step : Call R S → Adapter R S → Adapter R S
  step (add_alls id rooms) a = add_all id rooms a
  step (dels id room) a = del id room a
  step (del_alls id) a = del_all id a

  unfoldable pub run : List (Call R S) → Adapter R S → Adapter R S
  unfolding step
  run [] a = a
  run (c ∷ cs) a = run cs (step c a)

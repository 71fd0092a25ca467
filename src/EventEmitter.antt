-- ===== src/EventEmitter.antt =====
-- `BaseEventEmitter` of packages/event-emitter/mod.ts. A function object is known by its identity,
-- a key of `F`; what a listener does is a parameter, and may change the emitter itself.
pub mod Registry
pub mod Emission
mod Tests
use socket_io_deno.Common.{
  Bool, true, false, ◌||◌, Option, none, some, List, [], ◌∷◌, ◌++◌, ◌==◌, length, same,
  if◌then◌else◌,
}
use socket_io_deno.Common.Dict
use socket_io_deno.Common.Dict.{or_empty}

-- An entry of a listener array: a function that was given to `on`, or the wrapper that `once` made
-- and its `fn`.
pub data Listener (F : Type 0) : Type 0 where
  plain : F → Listener F
  once_of : F → F → Listener F

-- `_listeners`
abbrev pub Emitter : Type 0 → Type 0 → Type 0
Emitter Ev F = List (Ev × List (Listener F))

module _ {Ev F : Type 0} (de : Discrete Ev) (df : Discrete F) where
  unfoldable pub on : Ev → Listener F → Emitter Ev F → Emitter Ev F
  unfolding Dict.get Dict.set
  on event listener m = elim (Dict.get de event m) [
    | none ↦ Dict.set de event (listener ∷ []) m
    | some listeners ↦ Dict.set de event (listeners ++ listener ∷ []) m
  ]

  -- `wrapper` is the identity of the function object that the call makes.
  unfoldable pub once : Ev → F → F → Emitter Ev F → Emitter Ev F
  unfolding on
  once event wrapper listener m = on event (once_of wrapper listener) m

  -- `listeners[i] === listener || listeners[i].fn === listener`
  unfoldable pub matches : Listener F → F → Bool
  matches (plain g) f = same df g f
  matches (once_of wrapper g) f = same df wrapper f || same df g f

  -- The loop of `off`, which stops after the first match.
  unfoldable pub remove_first : F → List (Listener F) → List (Listener F)
  unfolding matches
  remove_first f [] = []
  remove_first f (l ∷ ls) = if matches l f then ls else l ∷ remove_first f ls

  abbrev pub drop_if_empty : Ev → List (Listener F) → Emitter Ev F → Emitter Ev F
  drop_if_empty event [] m = Dict.delete de event m
  drop_if_empty event (l ∷ ls) m = m

  -- `off(event, listener)`
  unfoldable pub off_listener : Ev → F → Emitter Ev F → Emitter Ev F
  unfolding remove_first Dict.get Dict.set Dict.delete
  off_listener event f m = elim (Dict.get de event m) [
    | none ↦ m
    | some listeners ↦
        let rest = remove_first f listeners in drop_if_empty event rest (Dict.set de event rest m)
  ]

  -- An argument that is not given is `none`; so is an empty event name.
  unfoldable pub off : Option Ev → Option F → Emitter Ev F → Emitter Ev F
  unfolding off_listener
  off none listener m = []
  off (some event) none m = Dict.delete de event m
  off (some event) (some f) m = off_listener event f m

  unfoldable pub listeners : Ev → Emitter Ev F → List (Listener F)
  unfolding Dict.get
  listeners event m = or_empty (Dict.get de event m)

  -- `act` is what a function does when it is called, to the emitter and to all else, `U`.
  module _ {U : Type 0} (act : F → Emitter Ev F × U → Emitter Ev F × U) where
    -- `listener.apply(this, args)`
    unfoldable pub call : Ev → Listener F → Emitter Ev F × U → Emitter Ev F × U
    unfolding off_listener
    call event (plain f) s = act f s
    call event (once_of wrapper f) (m, u) = act f (off_listener event wrapper m, u)

    -- The loop over the copy of the array.
    unfoldable pub call_all : Ev → List (Listener F) → Emitter Ev F × U → Emitter Ev F × U
    unfolding call
    call_all event [] s = s
    call_all event (l ∷ ls) s = call_all event ls (call event l s)

    -- `listeners[0].apply(this, args)`
    unfoldable pub call_first : Ev → List (Listener F) → Emitter Ev F × U → Emitter Ev F × U
    unfolding call
    call_first event [] s = s
    call_first event (l ∷ ls) s = call event l s

    -- `emit`, and `emitReserved` with it: the result and the state after it.
    unfoldable pub emit : Ev → Emitter Ev F × U → Bool × (Emitter Ev F × U)
    unfolding call_all call_first Dict.get
    emit event (m, u) = elim (Dict.get de event m) [
      | none ↦ (false, (m, u))
      | some ls ↦
          (true, if length ls == 1 then call_first event ls (m, u) else call_all event ls (m, u))
    ]

-- ===== src/EventEmitter/Emission.antt =====
-- What `emit` calls, while its listeners may change the emitter.
use socket_io_deno.Common.{
  Bool, true, false, not, some, List, [], ◌∷◌, ◌++◌, map, ◌≡◌, refl, sym, ◌∙◌, arith, same,
  if◌then◌else◌, inl, inr, Option-cases, All, length, ◌==◌,
}
use mathlib.Core.List.{append-nil, append_assoc}
use socket_io_deno.Common.Dict
use socket_io_deno.Common.Dict.{or_empty}
use socket_io_deno.EventEmitter.{
  Listener, plain, once_of, Emitter, matches, remove_first, off_listener, listeners, call, call_all,
  call_first, emit,
}
use socket_io_deno.EventEmitter.Registry.{IsTidy, listeners-off_listener}

-- The function that a listener runs: the one that was given to `on` or `once`.
abbrev pub target : {F : Type 0} → Listener F → F
target (plain f) = f
target (once_of wrapper f) = f

abbrev pub is_nil : {A : Type 0} → List A → Bool
is_nil [] = true
is_nil (x ∷ xs) = false

module _ {Ev F : Type 0} (de : Discrete Ev) (df : Discrete F) where
  -- `emit` with one listener takes no copy, and does what it does with several.
  emit-call_all :
      {U : Type 0} (act : F → Emitter Ev F × U → Emitter Ev F × U) (e : Ev) (m : Emitter Ev F)
      (u : U)
      → (emit de df act e (m, u)).1 ≡ call_all de df act e (listeners de df e m) (m, u)
  unfolding emit listeners
  emit-call_all act e m u = elim (Option-cases (Dict.get de e m)) [
    | inl h ↦ rw (h, emit) refl
    | inr (ls, h) ↦ rw (h, emit) (one_or_more ls)
  ]
    where
      one_or_more :
          (ls : List (Listener F))
          → (if length ls == 1
              then call_first de df act e ls (m, u)
              else call_all de df act e ls (m, u))
            ≡ call_all de df act e ls (m, u)
      one_or_more [] = refl
      one_or_more (l ∷ []) = refl
      one_or_more (l ∷ k ∷ ls) = ground arith

  module _ {U : Type 0} (act : F → Emitter Ev F × U → Emitter Ev F × U) where
    -- The same, noting each function that is called.
    abbrev pub noting : F → Emitter Ev F × (List F × U) → Emitter Ev F × (List F × U)
    noting f (m, (log, u)) = let r = act f (m, u) in (r.0, (log ++ f ∷ [], r.1))

    call-noting :
        (e : Ev) (l : Listener F) (m : Emitter Ev F) (log : List F) (u : U)
        → call de df noting e l (m, (log, u))
          ≡ ((call de df act e l (m, u)).0, (log ++ target l ∷ [], (call de df act e l (m, u)).1))
    unfolding call
    call-noting e (plain f) m log u = refl
    call-noting e (once_of w f) m log u = refl

    call_all-noting :
        (e : Ev) (ls : List (Listener F)) (m : Emitter Ev F) (log : List F) (u : U)
        → call_all de df noting e ls (m, (log, u)) ≡ (
          (call_all de df act e ls (m, u)).0,
          (log ++ map target ls, (call_all de df act e ls (m, u)).1),
        )
    unfolding call_all
    call_all-noting e [] m log u = rw append-nil
    call_all-noting e (l ∷ ls) m log u =
        let s = call de df act e l (m, u) in
        rw (call-noting e l m log u) (
          call_all-noting e ls s.0 (log ++ target l ∷ []) s.1
          ∙ rw (append_assoc log (target l ∷ []) (map target ls)))

    -- Whatever the listeners do to the emitter while they run, `emit` calls the functions that were
    -- registered for the event when it began, all of them, once each and in the order of
    -- registration; and noting them changes nothing else.
    pub emit-noting :
        (e : Ev) (m : Emitter Ev F) (log : List F) (u : U)
        → (emit de df noting e (m, (log, u))).1 ≡ (
          (emit de df act e (m, u)).1.0,
          (log ++ map target (listeners de df e m), (emit de df act e (m, u)).1.1),
        )
    emit-noting e m log u =
        rw (emit-call_all noting e m (log, u), emit-call_all act e m u)
          (call_all-noting e (listeners de df e m) m log u)

    -- In an emitter that keeps no event with an empty array, `emit` answers whether the event has a
    -- listener.
    pub emit-is_nil :
        (e : Ev) (m : Emitter Ev F) (u : U)
        → IsTidy de df m
        → (emit de df act e (m, u)).0 ≡ not (is_nil (listeners de df e m))
    unfolding emit listeners
    emit-is_nil e m u t = elim (Option-cases (Dict.get de e m)) [
      | inl h ↦ rw (h, emit) refl
      | inr (ls, h) ↦ rw (h, emit) (some_left ls h)
    ]
      where
        some_left : (ls : List (Listener F)) → Dict.get de e m ≡ some ls → true ≡ not (is_nil ls)
        some_left [] h = absurd (t e h)
        some_left (l ∷ ls) h = refl

  abbrev pub plain_only : List (Listener F) → List (Listener F)
  plain_only [] = []
  plain_only (plain f ∷ ls) = plain f ∷ plain_only ls
  plain_only (once_of w f ∷ ls) = plain_only ls

  -- No wrapper that `once` made was itself given to `on`: a wrapper never matches one of the plain
  -- functions before it, of which `done` stand in front.
  abbrev pub IsFresh : List F → List (Listener F) → Type 0
  IsFresh done [] = Unit {0}
  IsFresh done (plain f ∷ ls) = IsFresh (done ++ f ∷ []) ls
  IsFresh done (once_of w f ∷ ls) = All (λ g. same df g w ≡ false) done × IsFresh done ls

  remove_first-done :
      (w f : F) (done : List F) (ls : List (Listener F))
      → All (λ g. same df g w ≡ false) done
      → remove_first de df w (map plain done ++ once_of w f ∷ ls) ≡ map plain done ++ ls
  unfolding remove_first matches
  remove_first-done w f [] ls h = ground arith
  remove_first-done w f (g ∷ done) ls h = ground (arith, h.0, remove_first-done w f done ls h.1)

  plains-append :
      (f : F) (done : List F) (ls : List (Listener F))
      → map plain (done ++ f ∷ []) ++ ls ≡ map plain done ++ plain f ∷ ls
  plains-append f [] ls = refl
  plains-append f (g ∷ done) ls = rw (plains-append f done ls)

  module _ {U : Type 0} (effect : F → U → U) where
    call_all-once :
        (e : Ev) (ls : List (Listener F)) (done : List F) (m : Emitter Ev F) (u : U)
        → listeners de df e m ≡ map plain done ++ ls
        → IsFresh done ls
        → listeners de df e (call_all de df (λ f s. (s.0, effect f s.1)) e ls (m, u)).0
          ≡ map plain done ++ plain_only ls
    unfolding call_all call
    call_all-once e [] done m u h fresh = h
    call_all-once e (plain f ∷ ls) done m u h fresh =
        call_all-once e ls (done ++ f ∷ []) m (effect f u) (h ∙ sym (plains-append f done ls)) fresh
        ∙ plains-append f done (plain_only ls)
    call_all-once e (once_of w f ∷ ls) done m u h fresh =
        call_all-once e ls done (off_listener de df e w m) (effect f u)
          (ground
            (arith, listeners-off_listener de df e e w m, h, remove_first-done w f done ls fresh.0))
          fresh.1

    -- If the listeners of an event leave the emitter alone, and no wrapper that `once` made stands
    -- behind a plain listener that is the same function, then one `emit` uses up the one-time
    -- listeners among them: the others stay, in order.
    pub listeners-emit_once :
        (e : Ev) (m : Emitter Ev F) (u : U)
        → IsFresh [] (listeners de df e m)
        → listeners de df e (emit de df (λ f s. (s.0, effect f s.1)) e (m, u)).1.0
          ≡ plain_only (listeners de df e m)
    listeners-emit_once e m u fresh =
        rw (emit-call_all (λ f s. (s.0, effect f s.1)) e m u)
          (call_all-once e (listeners de df e m) [] m u refl fresh)

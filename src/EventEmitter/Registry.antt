-- ===== src/EventEmitter/Registry.antt =====
-- Registering and removing listeners.
use socket_io_deno.Common.{
  Bool, true, false, Option, none, some, List, [], ◌∷◌, ◌++◌, ◌≡◌, ◌≢◌, ◌⊎◌, refl, sym, ap, subst,
  arith, same, if◌then◌else◌, inl, inr, Option-cases, Bool-cases, All,
}
use socket_io_deno.Common.Dict
use socket_io_deno.Common.Dict.{or_empty}
use socket_io_deno.EventEmitter.{
  Listener, plain, once_of, Emitter, on, once, matches, remove_first, off_listener, off, listeners,
}

module _ {Ev F : Type 0} (de : Discrete Ev) (df : Discrete F) where
  get-same :
      (e e' : Ev) (m : Emitter Ev F) → same de e e' ≡ true → Dict.get de e m ≡ Dict.get de e' m
  get-same e e' m h = ground arith

  -- `on` puts the listener behind the others of its event, and leaves the other events alone.
  pub listeners-on :
      (e e' : Ev) (l : Listener F) (m : Emitter Ev F)
      → listeners de df e (on de df e' l m)
        ≡ (if same de e e' then listeners de df e m ++ l ∷ [] else listeners de df e m)
  unfolding listeners on
  listeners-on e e' l m = elim (Option-cases (Dict.get de e' m)) [
    | inl h ↦ rw (h, on) (ground (arith, Dict.or_empty-set de e e' (l ∷ []) m, get-same e e' m, h))
    | inr (ls, h) ↦
        rw (h, on) (ground (arith, Dict.or_empty-set de e e' (ls ++ l ∷ []) m, get-same e e' m, h))
  ]

  pub listeners-off_listener :
      (e e' : Ev) (f : F) (m : Emitter Ev F)
      → listeners de df e (off_listener de df e' f m)
        ≡ (if same de e e' then remove_first de df f (listeners de df e m) else listeners de df e m)
  unfolding listeners off_listener
  listeners-off_listener e e' f m = elim (Option-cases (Dict.get de e' m)) [
    | inl h ↦ rw (h, off_listener) (ground (arith, get-same e e' m, h))
    | inr (ls, h) ↦
        let rest = remove_first de df f ls in
        let m' = Dict.set de e' rest m in
        rw (h, off_listener)
          (ground (
            arith,
            Dict.or_empty-set de e e' rest m,
            Dict.or_empty-delete de e e' m',
            get-same e e' m,
            h,
          ))
  ]

  remove_first-append :
      (f : F) (ls : List (Listener F)) (l : Listener F)
      → All (λ k. matches de df k f ≡ false) ls
      → matches de df l f ≡ true
      → remove_first de df f (ls ++ l ∷ []) ≡ ls
  unfolding remove_first
  remove_first-append f [] l none_before h = ground arith
  remove_first-append f (k ∷ ls) l none_before h =
      ground (arith, none_before.0, remove_first-append f ls l none_before.1)

  -- A one-time listener can be taken away by the function that was given to `once`: if nothing
  -- matched that function before, every event has the listeners it had.
  pub off_listener-once :
      (e e' : Ev) (w f : F) (m : Emitter Ev F)
      → All (λ k. matches de df k f ≡ false) (listeners de df e' m)
      → listeners de df e (off_listener de df e' f (once de df e' w f m)) ≡ listeners de df e m
  unfolding once matches
  off_listener-once e e' w f m none_before = ground (
    arith,
    listeners-off_listener e e' f (on de df e' (once_of w f) m),
    listeners-on e e' (once_of w f) m,
    listeners-on e' e' (once_of w f) m,
    remove_first-append f (listeners de df e' m) (once_of w f) none_before,
    get-same_listeners,
  )
    where
      get-same_listeners : same de e e' ≡ true → listeners de df e m ≡ listeners de df e' m
      get-same_listeners h = ground arith

  -- What a function stands for in an array: the function itself, a wrapper of it, or a wrapper.
  abbrev pub IsFor : Listener F → F → Type 0
  IsFor (plain g) f = g ≡ f
  IsFor (once_of wrapper g) f = (wrapper ≡ f) ⊎ (g ≡ f)

  -- The array without the first of its listeners that the function stands for, if there is one.
  pub data IsRemoved (f : F) (ls rest : List (Listener F)) : Type 0 where
    absent : All (λ l. ¬ IsFor l f) ls → rest ≡ ls → IsRemoved f ls rest
    removed :
        (before : List (Listener F)) (l : Listener F) (after : List (Listener F))
        → All (λ k. ¬ IsFor k f) before
        → IsFor l f
        → ls ≡ before ++ l ∷ after
        → rest ≡ before ++ after
        → IsRemoved f ls rest

  matches-IsFor : (l : Listener F) (f : F) → matches de df l f ≡ true → IsFor l f
  unfolding matches
  matches-IsFor (plain g) f h = ground arith
  matches-IsFor (once_of wrapper g) f h = elim (Bool-cases (same df wrapper f)) [
    | inl e ↦ inl (ground arith)
    | inr e ↦ inr (ground arith)
  ]

  not_matches-IsFor : (l : Listener F) (f : F) → matches de df l f ≡ false → ¬ IsFor l f
  unfolding matches
  not_matches-IsFor (plain g) f h e = ground arith
  not_matches-IsFor (once_of wrapper g) f h (inl e) = ground arith
  not_matches-IsFor (once_of wrapper g) f h (inr e) = ground arith

  IsRemoved-behind :
      (f : F) (l : Listener F) (ls rest : List (Listener F))
      → ¬ IsFor l f
      → IsRemoved f ls rest
      → IsRemoved f (l ∷ ls) (l ∷ rest)
  IsRemoved-behind f l ls rest n (absent a e) = absent (n, a) (ap (◌∷◌ l) e)
  IsRemoved-behind f l ls rest n (removed before k after a i e e') =
      removed (l ∷ before) k after (n, a) i (ap (◌∷◌ l) e) (ap (◌∷◌ l) e')

  remove_first-IsRemoved :
      (f : F) (ls : List (Listener F)) → IsRemoved f ls (remove_first de df f ls)
  unfolding remove_first
  remove_first-IsRemoved f [] = absent tt refl
  remove_first-IsRemoved f (l ∷ ls) = go (matches de df l f) refl (remove_first-IsRemoved f ls)
    where
      go :
          (b : Bool)
          → matches de df l f ≡ b
          → IsRemoved f ls (remove_first de df f ls)
          → IsRemoved f (l ∷ ls) (if b then ls else l ∷ remove_first de df f ls)
      go true e r = removed [] l ls tt (matches-IsFor l f e) refl refl
      go false e r = IsRemoved-behind f l ls (remove_first de df f ls) (not_matches-IsFor l f e) r

  -- `off` with a listener takes from the array of the event the first entry that is the function
  -- itself, a one-time wrapper of it, or the wrapper that it is, and no other entry; without such an
  -- entry the array stays as it is. The listeners of every other event stay as they are.
  pub off_listener-IsRemoved :
      (e e' : Ev) (f : F) (m : Emitter Ev F)
      → let m' = off_listener de df e f m in
        IsRemoved f (listeners de df e m) (listeners de df e m')
        × (listeners de df e' m'
            ≡ (if same de e' e then listeners de df e m' else listeners de df e' m))
  off_listener-IsRemoved e e' f m = (
    subst (IsRemoved f (listeners de df e m)) (sym here)
        (remove_first-IsRemoved f (listeners de df e m)),
    ground (arith, here, listeners-off_listener e' e f m, get-same_listeners),
  )
    where
      here :
          listeners de df e (off_listener de df e f m) ≡ remove_first de df f (listeners de df e m)
      here = ground (arith, listeners-off_listener e e f m)

      get-same_listeners : same de e' e ≡ true → listeners de df e' m ≡ listeners de df e m
      get-same_listeners h = ground arith

  -- No event is kept with an empty array.
  abbrev pub IsTidy : Emitter Ev F → Type 0
  IsTidy m = (e : Ev) → Dict.get de e m ≢ some []

  append-ne-nil : (ls : List (Listener F)) (l : Listener F) → ls ++ l ∷ [] ≢ []
  append-ne-nil [] l = λ h. cc
  append-ne-nil (k ∷ ls) l = λ h. cc

  pub on-IsTidy : (e : Ev) (l : Listener F) (m : Emitter Ev F) → IsTidy m → IsTidy (on de df e l m)
  unfolding on
  on-IsTidy e l m t e' = elim (Option-cases (Dict.get de e m)) [
    | inl h ↦ rw (h, on) (ground (arith, t e', Dict.get-set de e' e (l ∷ []) m))
    | inr (ls, h) ↦
        rw (h, on) (ground (arith, t e', Dict.get-set de e' e (ls ++ l ∷ []) m, append-ne-nil ls l))
  ]

  pub off_listener-IsTidy :
      (e : Ev) (f : F) (m : Emitter Ev F) → IsTidy m → IsTidy (off_listener de df e f m)
  unfolding off_listener
  off_listener-IsTidy e f m t e' = elim (Option-cases (Dict.get de e m)) [
    | inl h ↦ rw (h, off_listener) (t e')
    | inr (ls, h) ↦
        let rest = remove_first de df f ls in
        let m' = Dict.set de e rest m in
        rw (h, off_listener)
          (ground (arith, t e', Dict.get-set de e' e rest m, Dict.get-delete de e' e m'))
  ]

  pub off-IsTidy :
      (e : Option Ev) (f : Option F) (m : Emitter Ev F) → IsTidy m → IsTidy (off de df e f m)
  unfolding off Dict.get
  off-IsTidy none f m t e' = λ h. cc
  off-IsTidy (some e) none m t e' = ground (arith, t e', Dict.get-delete de e' e m)
  off-IsTidy (some e) (some f) m t e' = off_listener-IsTidy e f m t e'

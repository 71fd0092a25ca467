-- ===== src/Adapter/Targets.antt =====
-- Which sockets `apply` calls back, in which order and how often.
pub mod Fetch
pub mod Moves
use socket_io_deno.Common.{
  Bool, true, false, not, ◌&&◌, ◌||◌, Option, none, some, List, [], ◌∷◌, ◌++◌, map, ◌≡◌, ◌≢◌, refl,
  sym, ◌∙◌, ap, inl, inr, arith, same, if◌then◌else◌, Bool-cases, Option-cases,
}
use mathlib.Core.List.{append-nil, append_assoc}
use socket_io_deno.Common.Dict
use socket_io_deno.Common.Dict.{or_empty}
use socket_io_deno.Common.KeySet
use socket_io_deno.Adapter.{Adapter, BroadcastOptions, in_room, is_empty}
use socket_io_deno.Adapter.Apply.{
  Namespace, add_each, except_loop, compute_except_sids, visit_one, visit, visit_rooms, visit_sids,
  apply, push, fetch_sockets,
}

module _ {R S : Type 0} (dr : Discrete R) (ds : Discrete S) where
  -- Whether a socket is in one of the rooms.
  abbrev pub in_any : Adapter R S → List R → S → Bool
  in_any a [] s = false
  in_any a (r ∷ rs) s = in_room dr ds a r s || in_any a rs s

  has-add_each :
      (l acc : List S) (s : S)
      → KeySet.has ds s (add_each dr ds l acc) ≡ (KeySet.has ds s acc || KeySet.has ds s l)
  unfolding add_each KeySet.has
  has-add_each [] acc s = ground arith
  has-add_each (i ∷ l) acc s =
      ground (arith, has-add_each l (KeySet.add ds i acc) s, KeySet.has-add ds s i acc)

  has-except_loop :
      (rs : List R) (a : Adapter R S) (acc : List S) (s : S)
      → KeySet.has ds s (except_loop dr ds rs a acc) ≡ (KeySet.has ds s acc || in_any a rs s)
  unfolding except_loop
  has-except_loop [] a acc s = ground arith
  has-except_loop (r ∷ rs) a acc s =
      let members = or_empty (Dict.get dr r a.rooms) in
      ground
        (arith, has-except_loop rs a (add_each dr ds members acc) s, has-add_each members acc s)

  -- The sockets left out are those in one of the rooms to leave out.
  pub has-compute_except_sids :
      (rs : List R) (a : Adapter R S) (s : S)
      → KeySet.has ds s (compute_except_sids dr ds rs a) ≡ in_any a rs s
  unfolding compute_except_sids KeySet.has
  has-compute_except_sids rs a s = has-except_loop rs a [] s

  -- The ids called after a loop over `l`, where `ids` were called before.
  abbrev pub chosen_one : List S → List S → S → List S → List S
  chosen_one except sockets id ids =
      if KeySet.has ds id ids || KeySet.has ds id except
      then ids
      else if KeySet.has ds id sockets
      then ids ++ id ∷ []
      else ids

  pub chosen : List S → List S → List S → List S → List S
  chosen except sockets [] ids = ids
  chosen except sockets (id ∷ l) ids = chosen except sockets l (chosen_one except sockets id ids)

  chosen_rooms : List S → Namespace R S → List R → List S → List S
  unfolding chosen
  chosen_rooms except n [] ids = ids
  chosen_rooms except n (r ∷ rs) ids =
      chosen_rooms except n rs
        (chosen except n.sockets (or_empty (Dict.get dr r n.adapter.rooms)) ids)

  kept : List S → List S → List S → List S
  kept except sockets [] = []
  kept except sockets (id ∷ l) =
      if KeySet.has ds id except
      then kept except sockets l
      else if KeySet.has ds id sockets
      then id ∷ kept except sockets l
      else kept except sockets l

  targets : BroadcastOptions R → Namespace R S → List S
  unfolding chosen_rooms kept
  targets opts n =
      let except = compute_except_sids dr ds opts.except n.adapter in
      if is_empty opts.rooms
      then kept except n.sockets (map (λ e. e.0) n.adapter.sids)
      else chosen_rooms except n opts.rooms []

  abbrev pub calls : {W : Type 0} → (S → W → W) → List S → W → W
  calls callback [] w = w
  calls callback (id ∷ l) w = calls callback l (callback id w)

  module _ {W : Type 0} (view : W → Namespace R S) (callback : S → W → W)
      (keeps : (s : S) (w : W) → view (callback s w) ≡ view w) where
    calls-append :
        (l : List S) (id : S) (w : W)
        → calls callback (l ++ id ∷ []) w ≡ callback id (calls callback l w)
    calls-append [] id w = refl
    calls-append (i ∷ l) id w = calls-append l id (callback i w)

    view-calls : (l : List S) (w : W) → view (calls callback l w) ≡ view w
    view-calls [] w = refl
    view-calls (id ∷ l) w = view-calls l (callback id w) ∙ keeps id w

    visit_one-chosen :
        (except : List S) (id : S) (ids : List S) (w : W)
        → visit_one dr ds view callback except id (ids, calls callback ids w) ≡ (
          chosen_one except (view w).sockets id ids,
          calls callback (chosen_one except (view w).sockets id ids) w,
        )
    unfolding visit_one KeySet.add
    visit_one-chosen except id ids w =
        ground
          (arith, ap (λ (n : Namespace R S). n.sockets) (view-calls ids w), calls-append ids id w)

    visit-chosen :
        (except l ids : List S) (w : W)
        → visit dr ds view callback except l (ids, calls callback ids w) ≡ (
          chosen except (view w).sockets l ids,
          calls callback (chosen except (view w).sockets l ids) w,
        )
    unfolding visit chosen
    visit-chosen except [] ids w = refl
    visit-chosen except (id ∷ l) ids w =
        rw (visit_one-chosen except id ids w)
          (visit-chosen except l (chosen_one except (view w).sockets id ids) w)

    visit_rooms-chosen :
        (except : List S) (rs : List R) (ids : List S) (w : W)
        → visit_rooms dr ds view callback except rs (ids, calls callback ids w) ≡ (
          chosen_rooms except (view w) rs ids,
          calls callback (chosen_rooms except (view w) rs ids) w,
        )
    unfolding visit_rooms chosen_rooms
    visit_rooms-chosen except [] ids w = refl
    visit_rooms-chosen except (r ∷ rs) ids w =
        let l = or_empty (Dict.get dr r (view w).adapter.rooms) in
        rw (view-calls ids w, visit-chosen except l ids w)
          (visit_rooms-chosen except rs (chosen except (view w).sockets l ids) w)

    visit_sids-kept :
        (except l : List S) (w : W)
        → visit_sids dr ds view callback except l w
          ≡ calls callback (kept except (view w).sockets l) w
    unfolding visit_sids kept
    visit_sids-kept except [] w = refl
    visit_sids-kept except (id ∷ l) w =
        ground
          (arith, visit_sids-kept except l w, visit_sids-kept except l (callback id w), keeps id w)

    apply-targets :
        (opts : BroadcastOptions R) (w : W)
        → apply dr ds view callback opts w ≡ calls callback (targets opts (view w)) w
    unfolding apply targets
    apply-targets opts w =
        let except = compute_except_sids dr ds opts.except (view w).adapter in
        ground (
          arith,
          visit_rooms-chosen except opts.rooms [] w,
          visit_sids-kept except (map (λ e. e.0) (view w).adapter.sids) w,
        )

  calls-push : (l acc : List S) (n : Namespace R S) → calls (push dr ds) l (n, acc) ≡ (n, acc ++ l)
  calls-push [] acc n = rw append-nil
  calls-push (id ∷ l) acc n =
      calls-push l (acc ++ id ∷ []) n ∙ ap (λ (x : List S). (n, x)) (append_assoc acc (id ∷ []) l)

  fetch_sockets-targets :
      (opts : BroadcastOptions R) (n : Namespace R S) → fetch_sockets dr ds opts n ≡ targets opts n
  unfolding fetch_sockets
  fetch_sockets-targets opts n =
      ap (λ (w : Namespace R S × List S). w.1)
        (apply-targets (λ w. w.0) (push dr ds) (λ s w. refl) opts (n, [])
          ∙ calls-push (targets opts n) [] n)

  -- A callback that leaves the namespace as it is runs once for each socket that `fetchSockets`
  -- returns, in that order.
  pub apply-fetch_sockets :
      {W : Type 0} (view : W → Namespace R S) (callback : S → W → W)
      → ((s : S) (w : W) → view (callback s w) ≡ view w)
      → (opts : BroadcastOptions R) (w : W)
      → apply dr ds view callback opts w ≡ calls callback (fetch_sockets dr ds opts (view w)) w
  apply-fetch_sockets view callback keeps opts w =
      rw (fetch_sockets-targets opts (view w)) (apply-targets view callback keeps opts w)

-- ===== src/Engine/Server/Healthy.antt =====
-- What the operations of packages/engine.io/lib/server.ts that change the map of sessions keep: its
-- sessions announce their end, and those that are closed are no longer heard of.
use socket_io_deno.Common.{
  ℕ, Bool, true, false, not, ◌&&◌, ◌||◌, Option, none, some, List, ◌≡◌, refl, sym, ◌∙◌, same,
  if◌then◌else◌, arith, subst, Bool-cases, inl, inr,
}
use socket_io_deno.Common.Dict
use socket_io_deno.Engine.Session.{
  ReadyState, opening, is_open, closing, closed, Session, Kind, polling, websocket, emit, closings,
  is_closed,
}
use socket_io_deno.Engine.Socket.{init, off, send_packet, flush}
use socket_io_deno.Engine.Socket.Closing.{IsAnnounced, one_if_closed, Keeps, zero_unless_closed}
use socket_io_deno.Engine.Socket.Announced.{on_poll_request-Keeps, init-IsAnnounced}
use socket_io_deno.Engine.Server.{
  Request, Server, has_closed, keep, first_request, kind_of, add_client, handshake, update_found,
  update_client, take_off,
}

-- A session that is closed only if nobody hears of it, and that has emitted "close" as it should.
abbrev pub IsHealthy : Bool → Session → Type 0
IsHealthy unheard s = IsAnnounced s × (is_closed s.ready ≡ true → unheard ≡ true)

one_if_is_closed : (r : ReadyState) → is_closed r ≡ true → one_if_closed r ≡ 1
one_if_is_closed closed h = refl
one_if_is_closed opening h = cc
one_if_is_closed is_open h = cc
one_if_is_closed closing h = cc

closed_if_one : (r : ReadyState) → one_if_closed r ≡ 1 → is_closed r ≡ true
closed_if_one closed h = refl
closed_if_one opening h = absurd (omega (arith, h))
closed_if_one is_open h = absurd (omega (arith, h))
closed_if_one closing h = absurd (omega (arith, h))

-- A session stays in the map after an operation: if that closed it, then nobody was told.
stays-IsHealthy :
    (unheard : Bool) (before after : Session)
    → IsHealthy unheard before
    → IsAnnounced after
    → (has_closed before after && not unheard) ≡ false
    → IsHealthy unheard after
stays-IsHealthy true before after h a e = (a, λ _. refl)
stays-IsHealthy false before after h a e = (a, λ c. h.1 (was_closed c))
  where
    was_closed : is_closed after.ready ≡ true → is_closed before.ready ≡ true
    was_closed c =
        let one : closings after.log ≡ 1 = a ∙ one_if_is_closed after.ready c in
        elim (Bool-cases (is_closed before.ready)) [
          | inl k ↦ k
          | inr k ↦
              let none_yet : closings before.log ≡ 0 = h.0 ∙ zero_unless_closed before.ready k in
              absurd (ground (arith, one, none_yet, e))
        ]

module _ {K : Type 0} (dk : Discrete K) where
  abbrev pub HasHealthy : (K → Bool) → List (K × Session) → Type 0
  HasHealthy unheard m =
      (id : K) (s : Session) → Dict.get dk id m ≡ some s → IsHealthy (unheard id) s

  HasHealthy-set :
      (u v : K → Bool) (id : K) (s : Session) (m : List (K × Session))
      → HasHealthy u m
      → ((j : K) → same dk j id ≡ false → u j ≡ true → v j ≡ true)
      → IsHealthy (v id) s
      → HasHealthy v (Dict.set dk id s m)
  HasHealthy-set u v id s m l w h j r e =
      go (same dk j id) refl (sym (Dict.get-set dk j id s m) ∙ e)
    where
      go :
          (b : Bool)
          → same dk j id ≡ b
          → (if b then some s else Dict.get dk j m) ≡ some r
          → IsHealthy (v j) r
      go true k f =
          let same_id : j ≡ id = ground arith in
          let same_session : s ≡ r = cc in
          subst (λ i. IsHealthy (v i) r) (sym same_id) (subst (IsHealthy (v id)) same_session h)
      go false k f = ((l j r f).0, λ c. w j k ((l j r f).1 c))

  HasHealthy-delete :
      (u : K → Bool) (id : K) (m : List (K × Session))
      → HasHealthy u m
      → HasHealthy u (Dict.delete dk id m)
  HasHealthy-delete u id m l j r h = go (same dk j id) (sym (Dict.get-delete dk j id m) ∙ h)
    where
      go : (b : Bool) → (if b then none else Dict.get dk j m) ≡ some r → IsHealthy (u j) r
      go true e = absurd (cc)
      go false e = l j r e

  abbrev pub IsHealthyServer : Server K → Type 0
  IsHealthyServer sv = HasHealthy sv.unheard sv.clients

  pub keep-IsHealthyServer :
      (id : K) (before after : Session) (sv : Server K)
      → IsHealthyServer sv
      → IsHealthy (sv.unheard id) before
      → IsAnnounced after
      → IsHealthyServer (keep dk id before after sv)
  unfolding keep
  keep-IsHealthyServer id before after sv l h a =
      go (has_closed before after && not (sv.unheard id)) refl
    where
      go :
          (b : Bool)
          → (has_closed before after && not (sv.unheard id)) ≡ b
          → HasHealthy sv.unheard
              (if b then Dict.delete dk id sv.clients else Dict.set dk id after sv.clients)
      go true e = HasHealthy-delete sv.unheard id sv.clients l
      go false e =
          HasHealthy-set sv.unheard sv.unheard id after sv.clients l (λ j _ c. c)
            (stays-IsHealthy (sv.unheard id) before after h a e)

  pub update_client-IsHealthyServer :
      (id : K) (f : Session → Session) (sv : Server K)
      → Keeps f
      → IsHealthyServer sv
      → IsHealthyServer (update_client dk id f sv)
  unfolding update_client
  update_client-IsHealthyServer id f sv k l = go (Dict.get dk id sv.clients) refl
    where
      go :
          (o : Option Session)
          → Dict.get dk id sv.clients ≡ o
          → IsHealthyServer (update_found dk id f o sv)
      go none e = l
      go (some s) e = keep-IsHealthyServer id s (f s) sv l (l id s e) (k s (l id s e).0)

  pub take_off-IsHealthyServer :
      (id : K) (sv : Server K) → IsHealthyServer sv → IsHealthyServer (take_off dk id sv)
  unfolding take_off
  take_off-IsHealthyServer id sv l =
      update_client-IsHealthyServer id off (record sv { unheard = unheard_too }) (λ s h. h)
        (λ j r e. ((l j r e).0, λ c. or_too (same dk j id) (sv.unheard j) ((l j r e).1 c)))
    where
      unheard_too : K → Bool
      unheard_too j = same dk j id || sv.unheard j

      or_too : (b c : Bool) → c ≡ true → (b || c) ≡ true
      or_too true c h = refl
      or_too false c h = h

  first_request-IsAnnounced :
      (k : Kind) (s : Session) → IsAnnounced s → IsAnnounced (first_request dk k s)
  first_request-IsAnnounced polling s h = on_poll_request-Keeps s h
  first_request-IsAnnounced websocket s h = h

  init-unclosed : (k : Kind) (opened : List ℕ) → is_closed (init k opened).ready ≡ false
  unfolding init send_packet flush emit
  init-unclosed k opened = refl

  pub handshake-IsHealthyServer :
      (id : K) (opened : List ℕ) (req : Request K) (sv : Server K)
      → IsHealthyServer sv
      → IsHealthyServer (handshake dk id opened req sv).1
  unfolding handshake
  handshake-IsHealthyServer id opened req sv l =
      keep-IsHealthyServer id s (first_request dk (kind_of dk req) s) (add_client dk id s sv)
        (HasHealthy-set sv.unheard (add_client dk id s sv).unheard id s sv.clients l
          (λ j e c. ground (arith, e, c)) new_session)
        new_session
        (first_request-IsAnnounced (kind_of dk req) s (init-IsAnnounced (kind_of dk req) opened))
    where
      s : Session
      s = init (kind_of dk req) opened

      new_session : IsHealthy ((add_client dk id s sv).unheard id) s
      new_session = (
        init-IsAnnounced (kind_of dk req) opened,
        λ c. absurd (ground (arith, c, init-unclosed (kind_of dk req) opened)),
      )

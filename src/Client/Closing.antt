-- ===== src/Client/Closing.antt =====
-- packages/socket.io/lib/client.ts and socket.ts: sockets that close, and what they have told.
use socket_io_deno.Common.{
  ℕ, ◌+◌, ◌≤◌, Bool, true, false, Option, none, some, List, [], ◌∷◌, ◌++◌, if◌then◌else◌, ◌≡◌, inl,
  inr, refl, ap, ◌∙◌, arith, same, Bool-cases,
}
use socket_io_deno.Common.Dict
use socket_io_deno.Common.Dict.{keys}
use socket_io_deno.Client.{
  DisconnectReason, forced_close, server_namespace_disconnect, Told, connect_packet, event_packet,
  disconnect_packet, connect_error_packet, connection, disconnecting, disconnected, received, asked,
  conn_closed, Socket, State, tell, when_connected, write, write_each, update_namespace, cleanup,
  remove, close_connected, socket_on_close, close_each, on_close, close, leave, leave_each,
  disconnect_all, socket_disconnect,
}

-- 1 for a socket that is connected.
abbrev pub live_socket : {K : Type 0} → Option (Socket K) → ℕ
live_socket none = 0
live_socket (some s) = if s.connected then 1 else 0

abbrev as_count : Bool → ℕ
as_count c = if c then 1 else 0

pub one_or_none : {c d : Bool} → c ≡ d → as_count c ≡ as_count d
one_or_none e = ap as_count e

module _ {K : Type 0} (dk : Discrete K) (id j : K) where
  pub get-same :
      (m : List (K × Socket K)) → same dk id j ≡ true → Dict.get dk id m ≡ Dict.get dk j m
  get-same m e = ground arith

  pub set-same :
      (s : Socket K) (m : List (K × Socket K))
      → same dk id j ≡ true
      → Dict.get dk id (Dict.set dk j s m) ≡ some s
  set-same s m e = ground (arith, Dict.get-set dk id j s m)

  pub set-other :
      (s : Socket K) (m : List (K × Socket K))
      → same dk id j ≡ false
      → Dict.get dk id (Dict.set dk j s m) ≡ Dict.get dk id m
  set-other s m e = ground (arith, Dict.get-set dk id j s m)

module _ {K D : Type 0} (dk : Discrete K) (id : K) where
  -- How often the socket has told of its connection, and of its end.
  abbrev pub beginnings : List (Told K D) → ℕ
  beginnings [] = 0
  beginnings (connection j ∷ rest) = if same dk id j then 1 + beginnings rest else beginnings rest
  beginnings (_ ∷ rest) = beginnings rest

  abbrev pub ends : List (Told K D) → ℕ
  ends [] = 0
  ends (disconnected j reason ∷ rest) = if same dk id j then 1 + ends rest else ends rest
  ends (_ ∷ rest) = ends rest

  pub beginnings-append :
      (l m : List (Told K D)) → beginnings (l ++ m) ≡ beginnings l + beginnings m
  beginnings-append [] m = omega arith
  beginnings-append (connection j ∷ l) m = ground (arith, beginnings-append l m)
  beginnings-append (connect_packet n j ∷ l) m = beginnings-append l m
  beginnings-append (event_packet n d ∷ l) m = beginnings-append l m
  beginnings-append (disconnect_packet n ∷ l) m = beginnings-append l m
  beginnings-append (connect_error_packet n ∷ l) m = beginnings-append l m
  beginnings-append (disconnecting j r ∷ l) m = beginnings-append l m
  beginnings-append (disconnected j r ∷ l) m = beginnings-append l m
  beginnings-append (received j d ∷ l) m = beginnings-append l m
  beginnings-append (asked n ∷ l) m = beginnings-append l m
  beginnings-append (conn_closed ∷ l) m = beginnings-append l m

  pub ends-append : (l m : List (Told K D)) → ends (l ++ m) ≡ ends l + ends m
  ends-append [] m = omega arith
  ends-append (disconnected j r ∷ l) m = ground (arith, ends-append l m)
  ends-append (connection j ∷ l) m = ends-append l m
  ends-append (connect_packet n j ∷ l) m = ends-append l m
  ends-append (event_packet n d ∷ l) m = ends-append l m
  ends-append (disconnect_packet n ∷ l) m = ends-append l m
  ends-append (connect_error_packet n ∷ l) m = ends-append l m
  ends-append (disconnecting j r ∷ l) m = ends-append l m
  ends-append (received j d ∷ l) m = ends-append l m
  ends-append (asked n ∷ l) m = ends-append l m
  ends-append (conn_closed ∷ l) m = ends-append l m

  -- At most one beginning, which has had its end or has not; none without the socket.
  pub record Balanced (told : List (Told K D)) (socket : Option (Socket K)) : Type 0 where
    pub even : beginnings told ≡ ends told + live_socket socket
    pub once : beginnings told ≤ 1
    pub unknown : socket ≡ none → beginnings told ≡ 0

  abbrev pub IsBalanced : State K D → Type 0
  IsBalanced w = Balanced w.told (Dict.get dk id w.known)

  -- What is neither a beginning nor an end.
  pub tell-IsBalanced :
      (t : Told K D) (w : State K D)
      → beginnings (t ∷ []) ≡ 0
      → ends (t ∷ []) ≡ 0
      → IsBalanced w
      → IsBalanced (tell t w)
  tell-IsBalanced t w h k b = record {
    even = omega (arith, b.even, beginnings-append w.told (t ∷ []), ends-append w.told (t ∷ []));
    once = omega (arith, b.once, beginnings-append w.told (t ∷ []));
    unknown = λ e. omega (arith, b.unknown e, beginnings-append w.told (t ∷ []));
  }

  pub if-IsBalanced :
      (c : Bool) (w v : State K D)
      → (c ≡ true → IsBalanced w)
      → IsBalanced v
      → IsBalanced (if c then w else v)
  if-IsBalanced true w v p q = p refl
  if-IsBalanced false w v p q = q

  pub write-IsBalanced :
      (t : Told K D) (w : State K D)
      → beginnings (t ∷ []) ≡ 0
      → ends (t ∷ []) ≡ 0
      → IsBalanced w
      → IsBalanced (write t w)
  unfolding write
  write-IsBalanced t w h k b =
      if-IsBalanced w.is_open (tell t w) w (λ _. tell-IsBalanced t w h k b) b

  write_each-IsBalanced :
      (name : K) (ds : List D) (w : State K D) → IsBalanced w → IsBalanced (write_each name ds w)
  unfolding write_each
  write_each-IsBalanced name [] w b = b
  write_each-IsBalanced name (d ∷ ds) w b =
      write_each-IsBalanced name ds (write (event_packet name d) w)
        (write-IsBalanced (event_packet name d) w refl refl b)

  -- A new socket that is not connected.
  pub cleanup-IsBalanced :
      (j name : K) (w : State K D)
      → Dict.get dk j w.known ≡ none
      → IsBalanced w
      → IsBalanced (cleanup dk j (record { nsp = name; connected = false; can_join = true }) w)
  unfolding cleanup update_namespace
  cleanup-IsBalanced j name w fresh b =
      let s : Socket K = record { nsp = name; connected = false; can_join = false } in
      elim (Bool-cases (same dk id j)) [
        | inl e ↦
            let none_yet : beginnings w.told ≡ 0 = b.unknown (get-same dk id j w.known e ∙ fresh) in
            rw (set-same dk id j s w.known e)
              record { even = omega (arith, b.even); once = omega arith; unknown = λ _. none_yet }
        | inr e ↦ rw (set-other dk id j s w.known e) b
      ]

  end-Balanced :
      (t : Told K D) (w : State K D) (s : Socket K)
      → beginnings (t ∷ []) ≡ 0
      → ends (t ∷ []) ≡ 1
      → s.connected ≡ false
      → live_socket (Dict.get dk id w.known) ≡ 1
      → IsBalanced w
      → Balanced (w.told ++ t ∷ []) (some s)
  end-Balanced t w s h k c l b = record {
    even = omega (
      arith,
      b.even,
      beginnings-append w.told (t ∷ []),
      ends-append w.told (t ∷ []),
      one_or_none c,
    );
    once = omega (arith, b.once, beginnings-append w.told (t ∷ []));
    unknown = λ e. absurd (some-none e);
  }
    where
      some-none : ¬ (some s ≡ none)
      some-none e = cc

  close_connected-IsBalanced :
      (reason : DisconnectReason) (j : K) (s : Socket K) (w : State K D)
      → Dict.get dk j w.known ≡ some s
      → s.connected ≡ true
      → IsBalanced w
      → IsBalanced (close_connected dk reason j s w)
  unfolding close_connected cleanup update_namespace remove
  close_connected-IsBalanced reason j s w e c b =
      let s1 : Socket K = record s { can_join = false } in
      let s2 : Socket K = record s { can_join = false; connected = false } in
      let m = Dict.set dk j s1 w.known in
      let b' = tell-IsBalanced (disconnecting j reason) w refl refl b in
      elim (Bool-cases (same dk id j)) [
        | inl h ↦
            let was : live_socket (Dict.get dk id w.known) ≡ 1 =
              ap live_socket (get-same dk id j w.known h ∙ e) ∙ one_or_none c in
            let one : ends (disconnected j reason ∷ []) ≡ 1 = rw h refl in
            rw (set-same dk id j s2 m h) (
              end-Balanced (disconnected j reason) (tell (disconnecting j reason) w) s2 refl one
                refl was b')
        | inr h ↦
            let zero_ends : ends (disconnected j reason ∷ []) ≡ 0 = rw h refl in
            rw (set-other dk id j s2 m h, set-other dk id j s1 w.known h)
              (tell-IsBalanced (disconnected j reason) (tell (disconnecting j reason) w) refl
                zero_ends b')
      ]

  pub when-IsBalanced :
      (o : Option (Socket K)) (f : Socket K → State K D) (w : State K D)
      → ((s : Socket K) → o ≡ some s → s.connected ≡ true → IsBalanced (f s))
      → IsBalanced w
      → IsBalanced (when_connected o f w)
  when-IsBalanced none f w p b = b
  when-IsBalanced (some s) f w p b = if-IsBalanced s.connected (f s) w (p s refl) b

  pub socket_on_close-IsBalanced :
      (reason : DisconnectReason) (j : K) (w : State K D)
      → IsBalanced w
      → IsBalanced (socket_on_close dk reason j w)
  unfolding socket_on_close
  socket_on_close-IsBalanced reason j w b =
      when-IsBalanced (Dict.get dk j w.known) (λ s. close_connected dk reason j s w) w
        (λ s e c. close_connected-IsBalanced reason j s w e c b) b

  close_each-IsBalanced :
      (reason : DisconnectReason) (l : List (K × K)) (w : State K D)
      → IsBalanced w
      → IsBalanced (close_each dk reason l w)
  unfolding close_each
  close_each-IsBalanced reason [] w b = b
  close_each-IsBalanced reason ((name, j) ∷ l) w b =
      close_each-IsBalanced reason l (socket_on_close dk reason j w)
        (socket_on_close-IsBalanced reason j w b)

  pub on_close-IsBalanced :
      (reason : DisconnectReason) (w : State K D) → IsBalanced w → IsBalanced (on_close dk reason w)
  unfolding on_close
  on_close-IsBalanced reason w b =
      close_each-IsBalanced reason w.sockets (record w { listening = false; timer = false }) b

  pub close-IsBalanced : (w : State K D) → IsBalanced w → IsBalanced (close dk w)
  unfolding close
  close-IsBalanced w b =
      let closed : State K D = tell conn_closed (record w { is_open = false }) in
      if-IsBalanced w.is_open (on_close dk forced_close closed) w
        (λ _.
          on_close-IsBalanced forced_close closed
            (tell-IsBalanced conn_closed (record w { is_open = false }) refl refl b))
        b

  leave-IsBalanced : (j : K) (w : State K D) → IsBalanced w → IsBalanced (leave dk j w)
  unfolding leave
  leave-IsBalanced j w b =
      when-IsBalanced (Dict.get dk j w.known) _ w
        (λ s e c.
          socket_on_close-IsBalanced server_namespace_disconnect j
            (write (disconnect_packet s.nsp) w)
            (write-IsBalanced (disconnect_packet s.nsp) w refl refl b))
        b

  leave_each-IsBalanced :
      (l : List (K × K)) (w : State K D) → IsBalanced w → IsBalanced (leave_each dk l w)
  unfolding leave_each
  leave_each-IsBalanced [] w b = b
  leave_each-IsBalanced ((name, j) ∷ l) w b =
      leave_each-IsBalanced l (leave dk j w) (leave-IsBalanced j w b)

  disconnect_all-IsBalanced : (w : State K D) → IsBalanced w → IsBalanced (disconnect_all dk w)
  unfolding disconnect_all
  disconnect_all-IsBalanced w b =
      close-IsBalanced (record (leave_each dk w.sockets w) { sockets = [] })
        (leave_each-IsBalanced w.sockets w b)

  pub socket_disconnect-IsBalanced :
      (j : K) (closing : Bool) (w : State K D)
      → IsBalanced w
      → IsBalanced (socket_disconnect dk j closing w)
  unfolding socket_disconnect
  socket_disconnect-IsBalanced j closing w b =
      when-IsBalanced (Dict.get dk j w.known)
        (λ s. if closing then disconnect_all dk w else leave dk j w) w
        (λ s e c.
          if-IsBalanced closing (disconnect_all dk w) (leave dk j w)
            (λ _. disconnect_all-IsBalanced w b) (leave-IsBalanced j w b))
        b

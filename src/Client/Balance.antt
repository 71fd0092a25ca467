-- ===== src/Client/Balance.antt =====
-- Every socket of packages/socket.io that has told of its connection tells once of its end.
use socket_io_deno.Common.{
  Bool, true, false, ◌&&◌, Option, none, some, List, [], ◌∷◌, ◌++◌, if◌then◌else◌, ◌≡◌, inl, inr,
  refl, ◌∙◌, arith, same, Bool-cases,
}
use socket_io_deno.Common.Dict
use socket_io_deno.Common.Dict.{keys}
use socket_io_deno.Common.KeySet
use socket_io_deno.Adapter.{add_all}
use socket_io_deno.Client.{
  parse_error, client_namespace_disconnect, Told, connect_packet, event_packet,
  connect_error_packet, connection, received, asked, Socket, State, Outcome, accepted, denied,
  Incoming, connect, connect_error, disconnect, content, tell, write, write_each, update_namespace,
  on_close, close, connect_socket, add, socket_on_packet, pass, on_packet, connect_timeout, is_idle,
  connect_to, start, Event, packet, checked, added, ended, broken, disconnects, time_over, step,
  run,
}
use socket_io_deno.Client.Closing.{
  Balanced, one_or_none, get-same, set-same, set-other, beginnings, ends, beginnings-append,
  ends-append, IsBalanced, tell-IsBalanced, if-IsBalanced, write-IsBalanced, cleanup-IsBalanced,
  when-IsBalanced, socket_on_close-IsBalanced, on_close-IsBalanced, close-IsBalanced,
  socket_disconnect-IsBalanced,
}

module _ {K D : Type 0} (dk : Discrete K) (id : K) where
  begin-Balanced :
      (t : Told K D) (w : State K D) (s : Socket K)
      → beginnings dk id (t ∷ []) ≡ 1
      → ends dk id (t ∷ []) ≡ 0
      → s.connected ≡ true
      → beginnings dk id w.told ≡ 0
      → ends dk id w.told ≡ 0
      → Balanced dk id (w.told ++ t ∷ []) (some s)
  begin-Balanced t w s h k c z y = record {
    even = omega (
      arith,
      beginnings-append dk id w.told (t ∷ []),
      ends-append dk id w.told (t ∷ []),
      one_or_none c,
    );
    once = omega (arith, beginnings-append dk id w.told (t ∷ []));
    unknown = λ e. absurd (some-none e);
  }
    where
      some-none : ¬ (some s ≡ none)
      some-none e = cc

  -- The same for a log alone.
  tell-Balanced :
      (t : Told K D) (l : List (Told K D)) (o : Option (Socket K))
      → beginnings dk id (t ∷ []) ≡ 0
      → ends dk id (t ∷ []) ≡ 0
      → Balanced dk id l o
      → Balanced dk id (l ++ t ∷ []) o
  tell-Balanced t l o h k b = record {
    even = omega (arith, b.even, beginnings-append dk id l (t ∷ []), ends-append dk id l (t ∷ []));
    once = omega (arith, b.once, beginnings-append dk id l (t ∷ []));
    unknown = λ e. omega (arith, b.unknown e, beginnings-append dk id l (t ∷ []));
  }

  write-Balanced :
      (t : Told K D) (w : State K D) (o : Option (Socket K))
      → beginnings dk id (t ∷ []) ≡ 0
      → ends dk id (t ∷ []) ≡ 0
      → Balanced dk id w.told o
      → Balanced dk id ((write t w).told) o
  unfolding write
  write-Balanced t w o h k b = go w.is_open
    where
      go : (c : Bool) → Balanced dk id ((if c then tell t w else w).told) o
      go true = tell-Balanced t w.told o h k b
      go false = b

  write_each-Balanced :
      (name : K) (ds : List D) (w : State K D) (o : Option (Socket K))
      → Balanced dk id w.told o
      → Balanced dk id ((write_each name ds w).told) o
  unfolding write_each
  write_each-Balanced name [] w o b = b
  write_each-Balanced name (d ∷ ds) w o b =
      write_each-Balanced name ds (write (event_packet name d) w) o
        (write-Balanced (event_packet name d) w o refl refl b)

  write-known : (t : Told K D) (w : State K D) → (write t w).known ≡ w.known
  unfolding write
  write-known t w = ground arith

  write_each-known :
      (name : K) (ds : List D) (w : State K D) → (write_each name ds w).known ≡ w.known
  unfolding write_each
  write_each-known name [] w = refl
  write_each-known name (d ∷ ds) w =
      write_each-known name ds (write (event_packet name d) w) ∙ write-known (event_packet name d) w

  -- `none` is what was known of the id before.
  connected_now :
      (j : K) (s : Socket K) (w : State K D) (m : List (K × Socket K))
      → s.connected ≡ true
      → Dict.get dk j m ≡ none
      → w.known ≡ Dict.set dk j s m
      → Balanced dk id w.told (Dict.get dk id m)
      → Balanced dk id (w.told ++ connection j ∷ []) (Dict.get dk id w.known)
  connected_now j s w m c fresh k b = elim (Bool-cases (same dk id j)) [
    | inl e ↦
        let none_before : Dict.get dk id m ≡ none = get-same dk id j m e ∙ fresh in
        let zero_begun : beginnings dk id w.told ≡ 0 = b.unknown none_before in
        let one : beginnings {D = D} dk id (connection j ∷ []) ≡ 1 = rw e refl in
        rw (k, set-same dk id j s m e)
          (begin-Balanced (connection j) w s one refl c zero_begun (omega (arith, b.even)))
    | inr e ↦
        let zero : beginnings {D = D} dk id (connection j ∷ []) ≡ 0 = rw e refl in
        rw (k, set-other dk id j s m e)
          (tell-Balanced (connection j) w.told (Dict.get dk id m) zero refl b)
  ]

  connect_socket-IsBalanced :
      (name j : K) (buffer : List D) (w : State K D)
      → Dict.get dk j w.known ≡ none
      → IsBalanced dk id w
      → IsBalanced dk id (connect_socket dk name j buffer w)
  unfolding connect_socket update_namespace
  connect_socket-IsBalanced name j buffer w fresh b =
      let s : Socket K = record { nsp = name; connected = true; can_join = true } in
      let v : State K D =
        update_namespace dk name
          (λ n. record {
            adapter = add_all dk dk j (j ∷ []) n.adapter;
            sockets = KeySet.add dk j n.sockets;
          })
          (record w { known = Dict.set dk j s w.known }) in
      let u = write (connect_packet name j) v in
      connected_now j s (write_each name buffer u) w.known refl fresh
        (write_each-known name buffer u ∙ write-known (connect_packet name j) v)
        (write_each-Balanced name buffer u (Dict.get dk id w.known)
          (write-Balanced (connect_packet name j) v (Dict.get dk id w.known) refl refl b))

  add-IsBalanced :
      (name j : K) (outcome : Outcome D) (w : State K D)
      → Dict.get dk j w.known ≡ none
      → IsBalanced dk id w
      → IsBalanced dk id (add dk name j outcome w)
  unfolding add
  add-IsBalanced name j denied w fresh b =
      write-IsBalanced dk id (connect_error_packet name) _ refl refl
        (cleanup-IsBalanced dk id j name w fresh b)
  add-IsBalanced name j (accepted buffer) w fresh b =
      if-IsBalanced dk id w.is_open (connect_socket dk name j buffer w) _
        (λ _. connect_socket-IsBalanced name j buffer w fresh b)
        (cleanup-IsBalanced dk id j name w fresh b)

  pass-IsBalanced :
      (p : Incoming D) (name : K) (o : Option K) (w : State K D)
      → IsBalanced dk id w
      → IsBalanced dk id (pass dk p name o w)
  unfolding pass socket_on_packet
  pass-IsBalanced connect name none w b = tell-IsBalanced dk id (asked name) w refl refl b
  pass-IsBalanced connect name (some j) w b = close-IsBalanced dk id w b
  pass-IsBalanced connect_error name none w b = close-IsBalanced dk id w b
  pass-IsBalanced connect_error name (some j) w b = close-IsBalanced dk id w b
  pass-IsBalanced disconnect name none w b = close-IsBalanced dk id w b
  pass-IsBalanced disconnect name (some j) w b =
      socket_on_close-IsBalanced dk id client_namespace_disconnect j w b
  pass-IsBalanced (content d) name none w b = close-IsBalanced dk id w b
  pass-IsBalanced (content d) name (some j) w b =
      when-IsBalanced dk id (Dict.get dk j w.known) (λ s. tell (received j d) w) w
        (λ s e c. tell-IsBalanced dk id (received j d) w refl refl b) b

  connect_to-IsBalanced :
      (name : K) (allowed : Bool) (w : State K D)
      → IsBalanced dk id w
      → IsBalanced dk id (connect_to dk name allowed w)
  unfolding connect_to update_namespace
  connect_to-IsBalanced name allowed w b =
      if-IsBalanced dk id (KeySet.has dk name (keys w.nsps)) w _ (λ _. b)
        (if-IsBalanced dk id allowed (update_namespace dk name (λ n. n) w)
          (write (connect_error_packet name) w) (λ _. b)
          (write-IsBalanced dk id (connect_error_packet name) w refl refl b))

  -- A new socket has a new id.
  abbrev pub MayHappen : Event K D → State K D → Type 0
  MayHappen (added name j outcome) w = Dict.get dk j w.known ≡ none
  MayHappen _ w = Unit

  step-IsBalanced :
      (e : Event K D) (w : State K D)
      → MayHappen e w
      → IsBalanced dk id w
      → IsBalanced dk id (step dk e w)
  unfolding step on_packet connect_timeout
  step-IsBalanced (packet p name) w m b =
      if-IsBalanced dk id w.listening (on_packet dk p name w) w
        (λ _. pass-IsBalanced p name (Dict.get dk name w.sockets) w b) b
  step-IsBalanced (checked name allowed) w m b = connect_to-IsBalanced name allowed w b
  step-IsBalanced (added name j outcome) w m b = add-IsBalanced name j outcome w m b
  step-IsBalanced (ended reason) w m b =
      let gone = record w { is_open = false } in
      if-IsBalanced dk id w.listening (on_close dk reason gone) gone
        (λ _. on_close-IsBalanced dk id reason gone b) b
  step-IsBalanced broken w m b =
      if-IsBalanced dk id w.listening (on_close dk parse_error w) w
        (λ _. on_close-IsBalanced dk id parse_error w b) b
  step-IsBalanced (disconnects j closing) w m b = socket_disconnect-IsBalanced dk id j closing w b
  step-IsBalanced time_over w m b =
      if-IsBalanced dk id (w.timer && is_idle w.sockets) (close dk w) w
        (λ _. close-IsBalanced dk id w b) b

  -- Every new socket in a history has a new id.
  abbrev pub HaveNewIds : List (Event K D) → State K D → Type 0
  HaveNewIds [] w = Unit
  HaveNewIds (e ∷ rest) w = MayHappen e w × HaveNewIds rest (step dk e w)

  run-IsBalanced :
      (es : List (Event K D)) (w : State K D)
      → HaveNewIds es w
      → IsBalanced dk id w
      → IsBalanced dk id (run dk es w)
  unfolding run
  run-IsBalanced [] w h b = b
  run-IsBalanced (e ∷ rest) w h b =
      run-IsBalanced rest (step dk e w) h.1 (step-IsBalanced e w h.0 b)

  -- Whatever happens to a client, in whatever order, if new sockets have new ids, then the socket of
  -- an id has told of its connection at most once, and it has told of its end as often, but for once
  -- while it is connected.
  pub run-start-IsBalanced :
      (es : List (Event K D)) → HaveNewIds es start → IsBalanced dk id (run dk es start)
  unfolding Dict.get
  run-start-IsBalanced es h =
      run-IsBalanced es start h
        (record { even = omega arith; once = omega arith; unknown = λ e. refl })

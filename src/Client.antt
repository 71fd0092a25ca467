-- ===== src/Client.antt =====
-- The life of a connection: packages/socket.io/lib/client.ts with what namespace.ts and socket.ts do
-- for it. Names of namespaces and ids of sockets are texts, so keys of one type. Listeners of the
-- user do not come back into these calls. The engine's own event behind `conn.close()` finds nothing
-- left to do, so it is left aside.
pub mod Closing
pub mod Balance
mod Tests
use socket_io_deno.Common.{
  ℕ, Bool, true, false, not, ◌&&◌, Option, none, some, List, [], ◌∷◌, ◌++◌, map, if◌then◌else◌,
}
use socket_io_deno.Common.Dict
use socket_io_deno.Common.Dict.{keys}
use socket_io_deno.Common.KeySet
use socket_io_deno.Adapter.{Adapter, init, add_all, del_all}
use socket_io_deno.Adapter.Apply.{Namespace}

-- `DisconnectReason`; the first is a reason of Engine.IO.
pub data DisconnectReason : Type 0 where
  transport forced_close parse_error : DisconnectReason
  client_namespace_disconnect server_namespace_disconnect : DisconnectReason

-- What is seen from outside: packets written to the connection, events, and what is asked for.
pub data Told (K D : Type 0) : Type 0 where
  connect_packet : K → K → Told K D
  event_packet : K → D → Told K D
  disconnect_packet connect_error_packet : K → Told K D
  connection : K → Told K D
  disconnecting disconnected : K → DisconnectReason → Told K D
  received : K → D → Told K D
  asked : K → Told K D
  conn_closed : Told K D

-- `Socket`: `can_join` is false behind `_cleanup`.
pub record Socket (K : Type 0) : Type 0 where
  pub nsp : K
  pub connected : Bool
  pub can_join : Bool

-- `is_open` is `conn.readyState === "open"`, `listening` that the client listens to the connection,
-- `sockets` the map of the client, `known` the socket objects by their ids.
pub record State (K D : Type 0) : Type 0 where
  pub is_open : Bool
  pub listening : Bool
  pub timer : Bool
  pub sockets : List (K × K)
  pub nsps : List (K × Namespace K K)
  pub known : List (K × Socket K)
  pub told : List (Told K D)

-- What the middlewares of a namespace come to, and the packets that a socket put off meanwhile.
pub data Outcome (D : Type 0) : Type 0 where
  accepted : List D → Outcome D
  denied : Outcome D

-- The packets of a client by their type.
pub data Incoming (D : Type 0) : Type 0 where
  connect connect_error disconnect : Incoming D
  content : D → Incoming D

-- `server.of(name)` of a name that is not there.
abbrev pub new_namespace : {K : Type 0} → Namespace K K
new_namespace = record { adapter = init; sockets = [] }

abbrev pub namespace_of : {K : Type 0} → Option (Namespace K K) → Namespace K K
namespace_of none = new_namespace
namespace_of (some n) = n

-- `this.sockets.size === 0`
abbrev pub is_idle : {K : Type 0} → List (K × K) → Bool
is_idle [] = true
is_idle (_ ∷ _) = false

module _ {K D : Type 0} where
  abbrev pub tell : Told K D → State K D → State K D
  tell t w = record w { told = w.told ++ t ∷ [] }

  -- `if (!this.connected) return`; a socket that is not there has no calls.
  abbrev pub when_connected : Option (Socket K) → (Socket K → State K D) → State K D → State K D
  when_connected none f w = w
  when_connected (some s) f w = if s.connected then f s else w

  -- `_packet`
  unfoldable pub write : Told K D → State K D → State K D
  write t w = if w.is_open then tell t w else w

  unfoldable pub write_each : K → List D → State K D → State K D
  unfolding write
  write_each name [] w = w
  write_each name (d ∷ rest) w = write_each name rest (write (event_packet name d) w)

module _ {K D : Type 0} (dk : Discrete K) where
  unfoldable pub update_namespace : K → (Namespace K K → Namespace K K) → State K D → State K D
  unfolding Dict.get Dict.set
  update_namespace name f w = record w {
    nsps = Dict.set dk name (f (namespace_of (Dict.get dk name w.nsps))) w.nsps;
  }

  -- `_cleanup`
  unfoldable pub cleanup : K → Socket K → State K D → State K D
  unfolding update_namespace del_all
  cleanup id s w =
      update_namespace s.nsp (λ n. record n { adapter = del_all dk dk id n.adapter })
        (record w { known = Dict.set dk id (record s { can_join = false }) w.known })

  -- `client._remove` deletes by the id of the socket.
  unfoldable pub remove : K → State K D → State K D
  unfolding Dict.delete
  remove id w = record w { sockets = Dict.delete dk id w.sockets }

  unfoldable pub close_connected : DisconnectReason → K → Socket K → State K D → State K D
  unfolding cleanup update_namespace remove
  close_connected reason id s w =
      let cleaned = cleanup id s (tell (disconnecting id reason) w) in
      let left = remove id (
        update_namespace s.nsp (λ n. record n { sockets = KeySet.delete dk id n.sockets })
          cleaned) in
      tell (disconnected id reason) (record left {
        known = Dict.set dk id (record s { can_join = false; connected = false }) left.known;
      })

  -- `Socket._onclose`
  unfoldable pub socket_on_close : DisconnectReason → K → State K D → State K D
  unfolding close_connected Dict.get
  socket_on_close reason id w =
      when_connected (Dict.get dk id w.known) (λ s. close_connected reason id s w) w

  unfoldable pub close_each : DisconnectReason → List (K × K) → State K D → State K D
  unfolding socket_on_close
  close_each reason [] w = w
  close_each reason ((name, id) ∷ rest) w = close_each reason rest (socket_on_close reason id w)

  -- `Client.onclose` and `Client.close`
  unfoldable pub on_close : DisconnectReason → State K D → State K D
  unfolding close_each
  on_close reason w =
      let quiet = record w { listening = false; timer = false } in
      record (close_each reason w.sockets quiet) { sockets = [] }

  unfoldable pub close : State K D → State K D
  unfolding on_close
  close w =
      if w.is_open
      then on_close forced_close (tell conn_closed (record w { is_open = false }))
      else w

  -- `disconnect(false)` of a connected socket.
  unfoldable pub leave : K → State K D → State K D
  unfolding write socket_on_close Dict.get
  leave id w =
      when_connected (Dict.get dk id w.known)
        (λ s. socket_on_close server_namespace_disconnect id (write (disconnect_packet s.nsp) w)) w

  unfoldable pub leave_each : List (K × K) → State K D → State K D
  unfolding leave
  leave_each [] w = w
  leave_each ((name, id) ∷ rest) w = leave_each rest (leave id w)

  -- `Client._disconnect`
  unfoldable pub disconnect_all : State K D → State K D
  unfolding leave_each close
  disconnect_all w = close (record (leave_each w.sockets w) { sockets = [] })

  -- `Socket.disconnect`
  unfoldable pub socket_disconnect : K → Bool → State K D → State K D
  unfolding leave disconnect_all Dict.get
  socket_disconnect id closing w =
      when_connected (Dict.get dk id w.known)
        (λ s. if closing then disconnect_all w else leave id w) w

  -- `_add` when the middlewares have ended, on the new socket `id`.
  unfoldable pub connect_socket : K → K → List D → State K D → State K D
  unfolding update_namespace write write_each add_all KeySet.add
  connect_socket name id buffer w =
      let s : Socket K = record { nsp = name; connected = true; can_join = true } in
      let tracked =
        update_namespace name
          (λ n. record {
            adapter = add_all dk dk id (id ∷ []) n.adapter;
            sockets = KeySet.add dk id n.sockets;
          })
          (record w { known = Dict.set dk id s w.known }) in
      let written = write_each name buffer (write (connect_packet name id) tracked) in
      tell (connection id)
        (record written { sockets = Dict.set dk name id written.sockets; timer = false })

  unfoldable pub add : K → K → Outcome D → State K D → State K D
  unfolding cleanup write connect_socket
  add name id denied w =
      write (connect_error_packet name)
        (cleanup id (record { nsp = name; connected = false; can_join = true }) w)
  add name id (accepted buffer) w =
      if w.is_open
      then connect_socket name id buffer w
      else cleanup id (record { nsp = name; connected = false; can_join = true }) w

  -- `Socket._onpacket`, on what a packet brings
  unfoldable pub socket_on_packet : Incoming D → K → State K D → State K D
  unfolding socket_on_close Dict.get
  socket_on_packet disconnect id w = socket_on_close client_namespace_disconnect id w
  socket_on_packet (content d) id w =
      when_connected (Dict.get dk id w.known) (λ s. tell (received id d) w) w
  socket_on_packet _ id w = w

  unfoldable pub pass : Incoming D → K → Option K → State K D → State K D
  unfolding socket_on_packet close
  pass connect name none w = tell (asked name) w
  pass disconnect name (some id) w = socket_on_packet disconnect id w
  pass (content d) name (some id) w = socket_on_packet (content d) id w
  pass _ name _ w = close w

  -- `Client.onPacket`
  unfoldable pub on_packet : Incoming D → K → State K D → State K D
  unfolding pass Dict.get
  on_packet p name w = pass p name (Dict.get dk name w.sockets) w

  -- The timer of the constructor.
  unfoldable pub connect_timeout : State K D → State K D
  unfolding close
  connect_timeout w = if w.timer && is_idle w.sockets then close w else w

  -- `connect`, up to `_add`: `allowed` is what `_checkNamespace` says of a name that is not there,
  -- and `server.of` makes the namespace.
  unfoldable pub connect_to : K → Bool → State K D → State K D
  unfolding update_namespace write KeySet.has
  connect_to name allowed w =
      if KeySet.has dk name (keys w.nsps)
      then w
      else if allowed
      then update_namespace name (λ n. n) w
      else write (connect_error_packet name) w

abbrev pub start : {K D : Type 0} → State K D
start = record {
  is_open = true;
  listening = true;
  timer = true;
  sockets = [];
  nsps = [];
  known = [];
  told = [];
}

-- What happens to a client, in any order: a packet, the answer of `_checkNamespace`, the end of the
-- middlewares, the end of the connection, a packet that is none (`broken`), the timer, and a call of
-- `disconnect`. What comes from the connection is lost when the client does not listen.
pub data Event (K D : Type 0) : Type 0 where
  packet : Incoming D → K → Event K D
  checked : K → Bool → Event K D
  added : K → K → Outcome D → Event K D
  ended : DisconnectReason → Event K D
  broken time_over : Event K D
  disconnects : K → Bool → Event K D

unfoldable pub step : {K D : Type 0} → Discrete K → Event K D → State K D → State K D
unfolding on_packet connect_to add on_close socket_disconnect connect_timeout
step dk (packet p name) w = if w.listening then on_packet dk p name w else w
step dk (checked name allowed) w = connect_to dk name allowed w
step dk (added name id outcome) w = add dk name id outcome w
step dk (ended reason) w =
    let gone = record w { is_open = false } in if w.listening then on_close dk reason gone else gone
step dk (disconnects id closing) w = socket_disconnect dk id closing w
step dk broken w = if w.listening then on_close dk parse_error w else w
step dk time_over w = connect_timeout dk w

unfoldable pub run : {K D : Type 0} → Discrete K → List (Event K D) → State K D → State K D
unfolding step
run dk [] w = w
run dk (e ∷ rest) w = run dk rest (step dk e w)

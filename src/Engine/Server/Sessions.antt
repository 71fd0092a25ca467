-- ===== src/Engine/Server/Sessions.antt =====
-- The sessions that a server of packages/engine.io/lib/server.ts keeps.
use socket_io_deno.Common.{true, some, ◌≡◌}
use socket_io_deno.Common.Dict
use socket_io_deno.Engine.Session.{Session, is_closed}
use socket_io_deno.Engine.Server.{Server}

module _ {K : Type 0} (dk : Discrete K) where
  -- A closed session stands in the map only if a client has taken the server's listener off.
  abbrev pub IsLive : Server K → Type 0
  IsLive sv =
      (id : K) (s : Session)
      → Dict.get dk id sv.clients ≡ some s
      → is_closed s.ready ≡ true
      → sv.unheard id ≡ true

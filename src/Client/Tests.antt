-- ===== src/Client/Tests.antt =====
-- A run of packages/socket.io/lib/client.ts: the namespace 10, and the sockets 1 and 2.
use socket_io_deno.Common.{ℕ, true, false, ℕ_discrete, List, [], ◌∷◌, ◌≡◌, refl}
use socket_io_deno.Common.Dict
use socket_io_deno.Client.{
  accepted, connect, disconnect, content, start, Event, packet, checked, added, step, run,
}
use socket_io_deno.Client.Closing.{IsBalanced}
use socket_io_deno.Client.Balance.{run-start-IsBalanced}

abbrev history : List (Event ℕ ℕ)
history =
    packet connect 10
    ∷ checked 10 true
    ∷ added 10 1 (accepted (7 ∷ []))
    ∷ packet (content 8) 10
    ∷ packet disconnect 10
    ∷ []

-- The client keeps the name of the namespace that it left, so it is closed when it comes back.
rejoins : (run ℕ_discrete (packet connect 10 ∷ []) (run ℕ_discrete history start)).is_open ≡ false
unfolding run ℕ_discrete
rejoins = refl

run-start-IsBalanced_example : IsBalanced ℕ_discrete 1 (run ℕ_discrete history start)
unfolding step Dict.get ℕ_discrete
run-start-IsBalanced_example =
    run-start-IsBalanced ℕ_discrete 1 history (tt, (tt, (refl, (tt, (tt, tt)))))

-- ===== src/SocketAcks/Tests.antt =====
-- The theorem about acknowledgements at a concrete run, and the run.
use socket_io_deno.Common.{ℕ, ◌+◌, ◌≤◌, some, List, [], ◌∷◌, ◌≡◌, refl, ℕ_discrete}
use socket_io_deno.Operator.{named, plain, function}
use socket_io_deno.SocketAcks.{
  Outgoing, notified, written, registered, called_with_null, timed_out, new_socket, Input, emitting,
  acknowledged, timer_over, setting_timeout, connecting, used_id, run,
}
use socket_io_deno.SocketAcks.Entries.{registrations, calls, waiting}
use socket_io_deno.SocketAcks.Once.{run-new_socket-calls}

-- Two events with callbacks 7 and 8 and a timeout, one before the socket is connected; the first is
-- acknowledged twice, and the timers of both run out.
abbrev inputs : List (Input ℕ ℕ ℕ)
inputs =
    setting_timeout 100
    ∷ emitting (named 1) (plain 5 ∷ function 7 ∷ [])
    ∷ connecting
    ∷ used_id
    ∷ setting_timeout 100
    ∷ emitting (named 2) (function 8 ∷ [])
    ∷ acknowledged 3 (6 ∷ [])
    ∷ acknowledged 3 (6 ∷ [])
    ∷ timer_over 0
    ∷ timer_over 1
    ∷ []

abbrev first : Outgoing ℕ ℕ ℕ
first = record { event = named 1; args = plain 5 ∷ []; id = some 3 }

abbrev second : Outgoing ℕ ℕ ℕ
second = record { event = named 2; args = []; id = some 5 }

told :
    (run inputs (new_socket 3)).effects
    ≡ registered 3 7
      ∷ notified first
      ∷ written first
      ∷ registered 5 8
      ∷ notified second
      ∷ written second
      ∷ called_with_null 3 7 (6 ∷ [])
      ∷ timed_out 5 8
      ∷ []
unfolding run ℕ_discrete
told = refl

run-new_socket-calls_example :
    let s = run inputs (new_socket 3) in
    (registrations 3 s ≤ 1) × (registrations 3 s ≡ calls 3 s + waiting 3 s)
run-new_socket-calls_example = run-new_socket-calls 3 inputs 3

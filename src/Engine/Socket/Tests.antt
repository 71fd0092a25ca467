-- ===== src/Engine/Socket/Tests.antt =====
-- The theorems about an Engine.IO session at concrete inputs.
use socket_io_deno.Common.{List, [], ◌∷◌}
use socket_io_deno.EngineParser.{text}
use socket_io_deno.Engine.Session.{polling}
use socket_io_deno.Engine.Socket.{init, run, Input, sends, polls, closes, ping_falls_due}
use socket_io_deno.Engine.Socket.Announced.{run-init-IsAnnounced}
use socket_io_deno.Engine.Socket.Closing.{IsAnnounced}
use socket_io_deno.Engine.Socket.Delivery.{run-init-IsFaithful}
use socket_io_deno.Engine.Socket.Faithful.{IsFaithful}

abbrev inputs : List Input
inputs =
    polls ∷ sends (text (1 ∷ [])) ∷ sends (text (2 ∷ [])) ∷ ping_falls_due ∷ closes ∷ polls ∷ []

run-init-IsFaithful_example : IsFaithful (run 1000 inputs (init polling (123 ∷ [])))
run-init-IsFaithful_example = run-init-IsFaithful 1000 (123 ∷ []) inputs

run-init-IsAnnounced_example : IsAnnounced (run 1000 inputs (init polling (123 ∷ [])))
run-init-IsAnnounced_example = run-init-IsAnnounced 1000 polling (123 ∷ []) inputs

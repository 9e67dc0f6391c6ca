-- ===== src/Examples/Early.antt =====
-- A keygen message that comes too early, at a concrete input.
use mpc_server.Common.{ℕ, ◌≡◌, refl, [], ◌∷◌, none, Text, bytes, lookup, text_eq, done}
use mpc_server.External.RoundBased.{Msg}
use mpc_server.Messages
use mpc_server.Messages.{IncomingMessage, ProtocolError}
use mpc_server.Prom.{messages_keygen_handled}
use mpc_server.Coordinator.State.{Coordinator, counts, schedules, sends_keygen}
use mpc_server.Coordinator.Incoming.{envelope}
use mpc_server.Coordinator.Outputs.{handle_keygen_error}
use mpc_server.Coordinator.Dispatch.{handle_coordinator_message}
use mpc_server.Coordinator.Routing.{with_effects}
use mpc_server.Coordinator.Early.{again, early_handed_again}
use mpc_server.Examples.Instances.{libraries}
use mpc_server.Examples.Inputs.{room, idle, from_bob, broadcast_text}

abbrev body : Msg Text
body = record { sender = 2; receiver = none; body = bytes "hello" }

abbrev refused : ProtocolError ℕ (IncomingMessage (Msg Text))
refused = record { room = room; error = 1; message = envelope (from_bob broadcast_text) body }

abbrev generating : Coordinator
generating = record idle { keygen_runners = (room, 7) ∷ []; started = 8 }

early_handed_again_example :
    (handle_keygen_error {E = Unit {0}} refused idle
      ≡ done tt (with_effects idle (schedules 2 (again refused 0) ∷ [])))
    × (handle_coordinator_message {E = Unit {0}} (Messages.retry (again refused 0)) generating
        ≡ done tt (
            with_effects generating (
              sends_keygen 7 (envelope (from_bob broadcast_text) body)
              ∷ counts messages_keygen_handled
              ∷ [])))
unfolding lookup text_eq
early_handed_again_example =
    early_handed_again refused idle generating 7 body refl refl refl refl refl

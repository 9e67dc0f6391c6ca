-- ===== src/Examples/Routing.antt =====
-- The coordinator's messages at concrete inputs.
use mpc_server.Common.{ℕ, zero, suc, ◌≡◌, ◌↔◌, [], ◌∷◌, none, bytes, lookup, text_eq, done}
use mpc_server.Externals.{the_sled, the_crypto, the_gg20, the_groups, the_generic}
use mpc_server.Prom.{messages_keygen_handled}
use mpc_server.Coordinator.State.{Coordinator, Effect, counts, sends_keygen}
use mpc_server.Coordinator.Incoming.{handle_incoming_unsafe, valid_sender_and_receiver}
use mpc_server.Coordinator.Routing.{handle_incoming_unsafe_lem, to_offline, to_signer, to_keygen}
use mpc_server.Coordinator.Acceptance.{IsAccepted, valid_sender_and_receiver_iff}
use mpc_server.Examples.Instances.{libraries}
use mpc_server.Examples.Inputs.{room, idle, from_bob, broadcast_text}

-- A coordinator with a keygen player for the room.
abbrev running : Coordinator
running = record idle { keygen_runners = (room, 7) ∷ []; started = 8 }

handle_incoming_unsafe_example :
    handle_incoming_unsafe {E = Unit {0}} (from_bob broadcast_text) 0 0 running
    ≡ done tt (record running {
      effects =
          sends_keygen 7 (record {
            room = room;
            wire_message = from_bob broadcast_text;
            message = record { sender = 2; receiver = none; body = bytes "hello" };
          })
          ∷ counts messages_keygen_handled
          ∷ [];
    })
unfolding to_offline to_signer to_keygen lookup text_eq
handle_incoming_unsafe_example = handle_incoming_unsafe_lem (from_bob broadcast_text) 0 0 running

valid_sender_and_receiver_iff_example :
    (valid_sender_and_receiver (from_bob broadcast_text) idle ≡ done tt idle)
    ↔ IsAccepted idle.db (from_bob broadcast_text)
valid_sender_and_receiver_iff_example = valid_sender_and_receiver_iff (from_bob broadcast_text) idle

-- A room that gets its player after the second timer.
abbrev states : ℕ → Coordinator
states zero = idle
states (suc zero) = idle
states (suc (suc i)) = running

abbrev handover : Effect
handover = sends_keygen 7 (record {
  room = room;
  wire_message = from_bob broadcast_text;
  message = record { sender = 2; receiver = none; body = bytes "hello" };
})

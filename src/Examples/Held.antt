-- ===== src/Examples/Held.antt =====
-- A message of a stranger for the room of alice and bob.
use mpc_server.Common.{◌≡◌, refl, false, ok, failed, bytes, lookup, text_eq}
use mpc_server.Externals.{the_sled, the_crypto, the_generic, the_groups}
use mpc_server.Failure.{Failure}
use mpc_server.Group.{get_index}
use mpc_server.Messages.{RetryMessage, retry as retry_message}
use mpc_server.Proto.{WireMessage}
use mpc_server.Room.{extract_group_id, split}
use mpc_server.Storage.GroupStore.{retrieve_group}
use mpc_server.Coordinator.State.{wrong_public_key}
use mpc_server.Coordinator.Incoming.{valid_sender_and_receiver}
use mpc_server.Coordinator.Acceptance.{IsAccepted, valid_sender_and_receiver_iff}
use mpc_server.Coordinator.Preserves.{OnAny}
use mpc_server.Coordinator.Dispatch.{handle_stream, handle_coordinator_message}
use mpc_server.Coordinator.Held.{IsHeld, unaccepted-IsHeld}
use mpc_server.Examples.Instances.{libraries}
use mpc_server.Examples.Inputs.{idle, from_bob, broadcast_text}

abbrev of_stranger : WireMessage
of_stranger = record (from_bob broadcast_text) { sender_public_key = bytes "02carol000" }

abbrev to_check : RetryMessage
to_check = record {
  message = of_stranger;
  initial_timestamp = 0;
  attempts = 3;
  check_passed = false;
}

fails_check : valid_sender_and_receiver of_stranger idle ≡ failed wrong_public_key idle
unfolding valid_sender_and_receiver extract_group_id split retrieve_group lookup text_eq get_index
fails_check = refl

refused : ¬ IsAccepted idle.db of_stranger
refused accepted = cc (fails_check, (valid_sender_and_receiver_iff of_stranger idle).1 accepted)

unaccepted-IsHeld_example :
    OnAny (IsHeld idle) (handle_stream {E = Failure} (ok of_stranger) idle)
    × OnAny (IsHeld idle) (handle_coordinator_message {E = Failure} (retry_message to_check) idle)
unaccepted-IsHeld_example = unaccepted-IsHeld Failure to_check idle refused refl

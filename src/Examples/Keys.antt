-- ===== src/Examples/Keys.antt =====
-- A key generation of alice, from the last message of its player to the check of its request.
use mathlib.Core.List.{Memᴰ}
use mathlib.Core.List.Memᴰ.{head}
use mpc_server.Common.{◌≡◌, refl, none, ok, [], ◌∷◌, Text, bytes, slice, done}
use mpc_server.Externals.{the_sled, the_crypto, the_gg20}
use mpc_server.Failure.{Failure}
use mpc_server.Group
use mpc_server.Messages.{ProtocolOutput}
use mpc_server.Player
use mpc_server.Player.{Sent}
use mpc_server.Player.Preserves.{Event, run, step}
use mpc_server.Proto.{KeygenRequest, RequestType, RequestStatus}
use mpc_server.Server.{check_result}
use mpc_server.Coordinator.State.{Coordinator}
use mpc_server.Coordinator.Requests.{response}
use mpc_server.Coordinator.Outputs.{handle_keygen_output}
use mpc_server.System.{leave, save_response}
use mpc_server.System.Answers.{idle, with_no_effects}
use mpc_server.System.Keys.{sent_by, key_answered}
use mpc_server.Examples.Instances.{libraries, map_sled_laws, response_serde, response_laws}
use mpc_server.Examples.Inputs.{room, group, from_bob, broadcast_text}
use mpc_server.Examples.Reach.{request, created}
use mpc_server.Examples.Server.{reliable}

abbrev last_message : Event Text
last_message = Event.message 5 (record {
  room = room;
  wire_message = from_bob broadcast_text;
  message = record { sender = 2; receiver = none; body = bytes "hello" };
})

abbrev key_of_alice : ProtocolOutput KeygenRequest Text
key_of_alice = record { input = request; output = bytes "k" }

is_sent : Memᴰ (Sent.result key_of_alice) (sent_by request room 1 8 (last_message ∷ []))
unfolding run step Player.new Player.handle Player.handle_incoming Player.maybe_proceed
    Player.send_outgoing Player.outgoings Player.proceed_if_needed Player.refresh_timer
    Player.after_proceed Player.finish_if_possible Player.finish_with Player.report
    Player.after_incoming
is_sent = head refl

key_answered_example :
    (c' : Coordinator) × (handle_keygen_output {E = Failure} key_of_alice (with_no_effects created)
      ≡ done tt c')
    × (check_result (bytes "r") (save_response (leave (idle [] created []) c')).api.results_db
        ≡ ok (response (bytes "r") (bytes "k") RequestType.keygen RequestStatus.done))
unfolding Group.new slice
key_answered_example =
    key_answered map_sled_laws response_laws reliable request room 1 8 (last_message ∷ [])
      key_of_alice group [] created [] is_sent refl

-- ===== src/Examples/Starts.antt =====
-- Requests that start a player, at concrete inputs.
use mpc_server.Common.{◌⊎◌, remove, ◌≡◌, refl, [], ◌∷◌, bytes, text_eq, slice, done}
use mpc_server.Externals.{the_sled, the_crypto, the_gg20, the_shares}
use mpc_server.Group
use mpc_server.Group.{get_index, get_i}
use mpc_server.Proto.{KeygenRequest, SignRequest}
use mpc_server.Room.{make_room_id}
use mpc_server.Coordinator.State.{Coordinator}
use mpc_server.Coordinator.Requests.{handle_keygen_request}
use mpc_server.Coordinator.Outputs.{handle_offline_output}
use mpc_server.Coordinator.Signing.{Completed, IsRefused, IsSigning, handle_offline_output_lem}
use mpc_server.Coordinator.Registration.{IsStarted, keygen_effects, handle_keygen_request-IsStarted}
use mpc_server.Examples.Instances.{libraries}
use mpc_server.Examples.Inputs.{room, alice, bob, group, group_id, idle}

abbrev keygen_request : KeygenRequest
keygen_request = record {
  request_id = bytes "r";
  participant_public_keys = alice ∷ bob ∷ [];
  threshold = 1;
}

handle_keygen_request-IsStarted_example :
    let room = make_room_id (bytes "r") group_id in
    (s' : Coordinator) × (handle_keygen_request keygen_request idle ≡ done tt s')
    × IsStarted idle s' room [] s'.keygen_runners (keygen_effects keygen_request 0 room 1 1)
unfolding Group.new slice get_i get_index text_eq
handle_keygen_request-IsStarted_example =
    handle_keygen_request-IsStarted keygen_request idle group 1 1 refl refl refl

abbrev signing : SignRequest
signing = record {
  request_id = bytes "r";
  participant_public_keys = alice ∷ bob ∷ [];
  public_key = bytes "k";
  hash = bytes "hash";
}

abbrev pub completed : Completed
completed = record {
  input = record { inner = signing; room = room; i = 1; s_l = 1 ∷ 2 ∷ [] };
  output = bytes "stage";
}

abbrev preparing : Coordinator
preparing = record idle { offline_state_runners = (room, 7) ∷ []; started = 8 }

handle_offline_output_lem_example :
    (s' : Coordinator) × (handle_offline_output {E = Unit {0}} completed preparing ≡ done tt s')
    × (s'.offline_state_runners ≡ [])
    × (IsRefused completed preparing s' ⊎ IsSigning completed preparing s')
unfolding remove text_eq
handle_offline_output_lem_example = handle_offline_output_lem completed preparing

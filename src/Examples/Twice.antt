-- ===== src/Examples/Twice.antt =====
-- One key generation that alice's server is asked for twice.
use mpc_server.Common.{
  ◌≡◌, ◌≢◌, refl, [], ◌++◌, ok, some, true, bytes, slice, lookup, text_eq, done,
}
use mpc_server.Externals.{the_sled, the_crypto, the_gg20}
use mpc_server.Group
use mpc_server.Group.{get_i, get_index, get_group_id}
use mpc_server.Room.{make_room_id}
use mpc_server.Server.{MpcImp, keygen}
use mpc_server.Coordinator.State.{Coordinator, new}
use mpc_server.Coordinator.Requests.{handle_keygen_request}
use mpc_server.Coordinator.Reach.{here}
use mpc_server.Coordinator.Registration.{keygen_effects}
use mpc_server.System.Twice.{first_player_lost}
use mpc_server.Examples.Instances.{libraries}
use mpc_server.Examples.Inputs.{alice, group, group_id}
use mpc_server.Examples.Reach.{request}

abbrev api : MpcImp
api = record {
  tx = record { is_open = true; queue = [] };
  tx_res = record { is_open = true; queue = [] };
  results_db = [];
}

abbrev of_alice : Coordinator
of_alice = new alice [] 0

first_player_lost_example :
    let room = make_room_id (bytes "r") group_id in
    ((keygen request api).0 ≡ ok (bytes "r"))
    × ((keygen request (keygen request api).1).0 ≡ ok (bytes "r"))
    × (t : Coordinator) × (handle_keygen_request request of_alice ≡ done tt t)
    × (u : Coordinator) × (handle_keygen_request request t ≡ done tt u)
    × (u.effects ≡ keygen_effects request 0 room 1 1 ++ keygen_effects request 1 room 1 1)
    × (lookup room t.keygen_runners ≡ some 0)
    × (lookup room u.keygen_runners ≡ some 1)
    × (lookup (bytes "other") u.keygen_runners ≢ some 0)
unfolding Group.new slice get_i get_index text_eq lookup new
first_player_lost_example =
    first_player_lost alice [] 0 of_alice request api group 1 1 (bytes "other") refl refl here refl
      refl refl

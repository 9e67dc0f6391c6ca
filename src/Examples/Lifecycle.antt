-- ===== src/Examples/Lifecycle.antt =====
-- A key that is generated and then signs, at concrete inputs.
use mpc_server.Common.{
  inr, ◌≡◌, refl, ok, [], ◌∷◌, ◌++◌, Text, bytes, lookup, insert, text_eq, slice, done,
}
use mpc_server.Externals.{the_sled, the_crypto, the_gg20, the_groups, the_shares}
use mpc_server.Failure.{Failure}
use mpc_server.Group
use mpc_server.Group.{get_index, get_i, get_group_id}
use mpc_server.Messages.{ProtocolOutput}
use mpc_server.Proto.{KeygenRequest, SignRequest}
use mpc_server.Room.{make_room_id}
use mpc_server.Storage.ShareStore.{save, encrypt}
use mpc_server.Coordinator.State.{Coordinator, new}
use mpc_server.Coordinator.Requests.{
  handle_sign_request, signing_indices, found_indices, missing_indices,
}
use mpc_server.Coordinator.Registration.{IsStarted, sign_effects}
use mpc_server.Coordinator.Outputs.{handle_keygen_output}
use mpc_server.Coordinator.Lifecycle.{share_of, with_key, sign_after_keygen}
use mpc_server.Examples.Codec.{pack}
use mpc_server.Examples.Instances.{
  libraries, map_sled_laws, plain_crypto_laws, text_laws, shares_laws,
}
use mpc_server.Examples.Inputs.{alice, bob, group, group_id, idle}

abbrev key_output : ProtocolOutput KeygenRequest Text
key_output = record {
  input = record {
    request_id = bytes "r";
    participant_public_keys = alice ∷ bob ∷ [];
    threshold = 1;
  };
  output = bytes "k";
}

abbrev empty : Coordinator
empty = record idle { db = [] }

abbrev sign_request : SignRequest
sign_request = record {
  request_id = bytes "s";
  participant_public_keys = alice ∷ bob ∷ [];
  public_key = bytes "k";
  hash = bytes "hash";
}

abbrev with_key_share : the_sled.Db
with_key_share = (bytes "k", pack (alice ∷ (alice ++ bytes "k") ∷ alice ∷ bob ∷ [])) ∷ []

saves_share : save [] (share_of key_output empty) ≡ ok with_key_share
unfolding save encrypt lookup insert
saves_share = refl

-- The same server, started again.
abbrev restarted : Coordinator
restarted = new alice with_key_share 0

sign_after_keygen_example :
    let room = make_room_id (bytes "s") group_id in
    (handle_keygen_output {E = Failure} key_output empty
      ≡ done tt (with_key key_output empty group with_key_share))
    × (u : Coordinator) × (handle_sign_request sign_request restarted ≡ done tt u)
    × IsStarted restarted u room [] u.offline_state_runners
        (sign_effects sign_request 0 room 1 (1 ∷ 2 ∷ []) 1)
unfolding Group.new slice signing_indices found_indices missing_indices get_i get_index lookup
    text_eq new
sign_after_keygen_example =
    sign_after_keygen map_sled_laws plain_crypto_laws text_laws shares_laws key_output empty
      restarted group group with_key_share sign_request (1 ∷ 2 ∷ []) 1 1 0 1 refl refl refl
      saves_share (inr refl) refl refl refl refl refl refl

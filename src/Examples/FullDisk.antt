-- ===== src/Examples/FullDisk.antt =====
-- A disk that takes no new share.
use mpc_server.Common.{
  ◌≡◌, refl, none, err, failed, [], ◌∷◌, Text, bytes, lookup, text_eq, slice, done,
}
use mpc_server.Externals.{Externals, the_sled, the_crypto, the_gg20, the_groups, the_shares}
use mpc_server.Failure.{Failure, save_to_db, retrieve_local_share}
use mpc_server.Group
use mpc_server.Group.{PublicKeyGroup}
use mpc_server.Messages.{ProtocolOutput}
use mpc_server.Prom.{requests_sign_handled}
use mpc_server.Proto.{KeygenRequest, SignRequest}
use mpc_server.Storage.ShareStore.{save, encrypt}
use mpc_server.Coordinator.State.{Coordinator, after_effect, counts}
use mpc_server.Coordinator.Requests.{handle_sign_request}
use mpc_server.Coordinator.Outputs.{handle_keygen_output}
use mpc_server.Coordinator.Lifecycle.{share_of, with_key, sign_after_unsaved_key}
use mpc_server.Examples.Instances.{
  map_sled, plain_crypto, text_gg20, raw_value, generic_serde, sealed_serde, groups_serde,
  shares_serde,
}

instance abbrev full : Externals
full = record {
  sled = record map_sled { compare_and_swap = λ db k old new. none };
  crypto = plain_crypto;
  gg20 = text_gg20;
  raw = raw_value;
  generic = generic_serde;
  sealed = sealed_serde;
  groups = groups_serde;
  shares = shares_serde;
}

abbrev one_party : PublicKeyGroup
one_party = record {
  group_id = bytes "alice000";
  t = 0;
  public_keys = bytes "02alice000" ∷ [];
  own_public_key = bytes "02alice000";
}

abbrev unsaved_output : ProtocolOutput KeygenRequest Text
unsaved_output = record {
  input = record {
    request_id = bytes "r";
    participant_public_keys = bytes "02alice000" ∷ [];
    threshold = 0;
  };
  output = bytes "k";
}

abbrev on_full_disk : Coordinator
on_full_disk = record {
  pk_str = bytes "02alice000";
  sk = bytes "02alice000";
  db = [];
  keygen_runners = [];
  offline_state_runners = [];
  signers = [];
  started = 0;
  clock = 0;
  effects = [];
}

abbrev later : SignRequest
later = record {
  request_id = bytes "s";
  participant_public_keys = bytes "02alice000" ∷ [];
  public_key = bytes "k";
  hash = bytes "hash";
}

not_saved : save [] (share_of unsaved_output on_full_disk) ≡ err save_to_db
unfolding save encrypt
not_saved = refl

sign_after_unsaved_key_example :
    let t = with_key unsaved_output on_full_disk one_party [] in
    (handle_keygen_output {E = Failure} unsaved_output on_full_disk ≡ done tt t)
    × (handle_sign_request later t
        ≡ failed retrieve_local_share (after_effect (counts requests_sign_handled) t))
unfolding Group.new slice lookup text_eq
sign_after_unsaved_key_example =
    sign_after_unsaved_key unsaved_output on_full_disk one_party save_to_db later refl refl
      not_saved refl

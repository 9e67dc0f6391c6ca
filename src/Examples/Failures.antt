-- ===== src/Examples/Failures.antt =====
-- Sign requests that fail, at concrete inputs.
use mpc_server.Common.{◌≡◌, refl, [], ◌∷◌, ◌++◌, Text, bytes, lookup, text_eq, slice, panicked}
use mpc_server.Externals.{the_sled, the_crypto, the_gg20, the_shares}
use mpc_server.Group
use mpc_server.Group.{PublicKeyGroup, get_index}
use mpc_server.Proto.{SignRequest}
use mpc_server.Storage.ShareStore.{StoredLocalShare, retrieve, decrypt}
use mpc_server.Coordinator.State.{Coordinator}
use mpc_server.Coordinator.Requests.{
  handle_sign_request, signing_indices, found_indices, missing_indices,
}
use mpc_server.Coordinator.Failures.{handle_sign_request-panics}
use mpc_server.Examples.Codec.{pack}
use mpc_server.Examples.Instances.{libraries, drop_key}
use mpc_server.Examples.Inputs.{alice, bob, idle}

abbrev carol : Text
carol = bytes "02carol000"

-- For a key of alice, bob and carol, without alice.
abbrev request : SignRequest
request = record {
  request_id = bytes "r";
  participant_public_keys = bob ∷ carol ∷ [];
  public_key = bytes "k";
  hash = bytes "hash";
}

abbrev share : StoredLocalShare Text
share = record { public_keys = alice ∷ bob ∷ carol ∷ []; own_public_key = alice; share = bytes "k" }

abbrev with_share : Coordinator
with_share = record idle {
  db = (bytes "k", pack (alice ∷ (alice ++ bytes "k") ∷ alice ∷ bob ∷ carol ∷ [])) ∷ [];
}

abbrev group : PublicKeyGroup
group = record {
  group_id = bytes "alice000bob00000carol000";
  t = 1;
  public_keys = alice ∷ bob ∷ carol ∷ [];
  own_public_key = alice;
}

abbrev subgroup : PublicKeyGroup
subgroup = record {
  group_id = bytes "bob00000carol000";
  t = 1;
  public_keys = bob ∷ carol ∷ [];
  own_public_key = alice;
}

handle_sign_request-panics_example : handle_sign_request request with_share ≡ panicked
unfolding retrieve decrypt drop_key Group.new slice signing_indices found_indices missing_indices
    get_index lookup text_eq
handle_sign_request-panics_example =
    handle_sign_request-panics request with_share share group subgroup (2 ∷ 3 ∷ []) refl refl refl
      refl refl

-- ===== src/Examples/Stores.antt =====
-- The stores at concrete inputs.
use mpc_server.Common.{◌≡◌, refl, ok, [], ◌∷◌, Text, bytes, ◌++◌, lookup, insert}
use mpc_server.Externals.{the_sled, the_crypto, the_gg20, the_groups, the_shares}
use mpc_server.Storage.ShareStore.{StoredLocalShare, encrypt, save, retrieve}
use mpc_server.Storage.RoundTrip.{retrieve-save}
use mpc_server.Examples.Codec.{pack}
use mpc_server.Examples.Instances.{
  libraries, map_sled_laws, plain_crypto_laws, shares_laws, text_laws,
}
use mpc_server.Examples.Inputs.{alice, bob}

abbrev share : StoredLocalShare Text
share = record { public_keys = alice ∷ bob ∷ []; own_public_key = alice; share = bytes "key" }

abbrev share_text : Text
share_text = pack (alice ∷ (alice ++ bytes "key") ∷ alice ∷ bob ∷ [])

abbrev with_share : the_sled.Db
with_share = (bytes "key", share_text) ∷ []

saved_share : save [] share ≡ ok with_share
unfolding save encrypt lookup insert
saved_share = refl

retrieve-save_example : retrieve with_share alice (bytes "key") ≡ ok share
unfolding lookup
retrieve-save_example =
    retrieve-save map_sled_laws plain_crypto_laws text_laws shares_laws [] with_share alice share
      refl refl saved_share

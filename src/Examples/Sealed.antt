-- ===== src/Examples/Sealed.antt =====
-- What bob has of the group of alice and bob, and what he sends.
use mpc_server.Common.{[], ◌∷◌, ◌++◌, Text}
use mpc_server.Externals.{
  the_sled, the_crypto, the_raw, the_generic, the_sealed, the_groups, the_gg20,
}
use mpc_server.Group.{PublicKeyGroup}
use mpc_server.Examples.Codec.{pack}
use mpc_server.Examples.Instances.{libraries, wire_serde}
use mpc_server.Examples.Inputs.{alice, bob, group, group_id, room}
use mpc_server.Examples.Messages.{sealed_text}

abbrev pub group_of_bob : PublicKeyGroup
group_of_bob = record group { own_public_key = bob }

abbrev pub stored_by_bob : Text
stored_by_bob = pack (group_id ∷ (1 ∷ []) ∷ bob ∷ alice ∷ bob ∷ [])

-- An encrypted message of his, as it goes to the broker.
abbrev pub text : Text
text = pack (room ∷ sealed_text ∷ bob ∷ (bob ++ the_crypto.sha256 sealed_text) ∷ [])

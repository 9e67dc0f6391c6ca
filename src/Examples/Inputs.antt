-- ===== src/Examples/Inputs.antt =====
-- The inputs: two parties, their group, a room of theirs and a coordinator.
use mpc_server.Common.{ℕ, [], ◌∷◌, ◌++◌, Text, bytes}
use mpc_server.Externals.{the_sled, the_crypto}
use mpc_server.Group.{PublicKeyGroup}
use mpc_server.Proto.{WireMessage}
use mpc_server.Coordinator.State.{Coordinator}
use mpc_server.Examples.Codec.{pack}
use mpc_server.Examples.Instances.{libraries}

abbrev pub alice : Text
alice = bytes "02alice000"

abbrev pub bob : Text
bob = bytes "02bob00000"

abbrev pub group_id : Text
group_id = bytes "alice000bob00000"

abbrev pub room : Text
room = bytes "r@alice000bob00000"

-- The group of both, as alice has it.
abbrev pub group : PublicKeyGroup
group = record {
  group_id = group_id;
  t = 1;
  public_keys = alice ∷ bob ∷ [];
  own_public_key = alice;
}

abbrev pub stored_group : Text
stored_group = pack (group_id ∷ (1 ∷ []) ∷ alice ∷ alice ∷ bob ∷ [])

-- A message of party 2, as text.
abbrev pub broadcast_text : Text
broadcast_text = pack ((2 ∷ []) ∷ bytes "hello" ∷ [])

abbrev pub message_text : ℕ → Text
message_text i = pack ((2 ∷ []) ∷ bytes "hello" ∷ (i ∷ []) ∷ [])

abbrev pub from_bob : Text → WireMessage
from_bob text = record {
  room = room;
  payload = text;
  sender_public_key = bob;
  signature = bob ++ text;
}

-- alice's coordinator, which knows the group and runs nothing.
abbrev pub idle : Coordinator
idle = record {
  pk_str = alice;
  sk = alice;
  db = (group_id, stored_group) ∷ [];
  keygen_runners = [];
  offline_state_runners = [];
  signers = [];
  started = 0;
  clock = 0;
  effects = [];
}

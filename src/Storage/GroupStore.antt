-- ===== src/Storage/GroupStore.antt =====
-- src/storage/group_store.rs; each call takes the database and returns it if it writes.
use mpc_server.Common.{none, some, Result, ok_or, Text}
use mpc_server.Common.Fallible.{◌>>=◌}
use mpc_server.External.Sled.{Sled}
use mpc_server.External.Serde.{Serde}
use mpc_server.Failure.{
  Failure, external, retrieving_group, decode_group, serialize_local_share, save_to_db,
}
use mpc_server.Group.{PublicKeyGroup, get_group_id}

module _ ⦃sled : Sled⦄ ⦃serde : Serde PublicKeyGroup⦄ where
  -- `retrieve_group`
  unfoldable pub retrieve_group : sled.Db → Text → Result Failure PublicKeyGroup
  retrieve_group db group_id = do
    found ← ok_or (sled.get db group_id) external
    group ← ok_or found retrieving_group
    ok_or (serde.read group) decode_group

  -- `save_group`: a group that is stored already stays.
  unfoldable pub save_group : sled.Db → PublicKeyGroup → Result Failure sled.Db
  save_group db group = do
    value ← ok_or (serde.write group) serialize_local_share
    ok_or (sled.compare_and_swap db (get_group_id group) none (some value)) save_to_db

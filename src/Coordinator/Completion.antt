-- ===== src/Coordinator/Completion.antt =====
-- What the end of a protocol changes.
use mpc_server.Common.{◌≡◌, refl, [], ◌∷◌, ◌++◌, some, Result, ok, err, done, remove}
use mpc_server.Externals.{Externals, the_crypto, the_gg20, the_sled, the_shares}
use mpc_server.Group
use mpc_server.Group.{get_group_id, as_u16}
use mpc_server.Messages.{ProtocolOutput}
use mpc_server.Proto.{KeygenRequest, RequestType, RequestStatus}
use mpc_server.Room.{make_room_id}
use mpc_server.Storage.ShareStore.{sum_pk, save}
use mpc_server.Prom.{requests_keygen_done}
use mpc_server.Coordinator.State.{
  Coordinator, Effect, responds, counts, keep_db, emit, after_effect,
}
use mpc_server.Common.Handler.{◌>>◌}
use mpc_server.Coordinator.Requests.{response}
use mpc_server.Coordinator.Outputs.{handle_keygen_output}

module _ ⦃x : Externals⦄ where
  -- Whether the database was written or not, only it changes before the effect.
  keep_then_emit :
      {E F : Type 0} (r : Result F x.sled.Db) (e : Effect) (s : Coordinator)
      → (s' : Coordinator) × ((keep_db {E = E} r >> emit e) s ≡ done tt s')
        × (s'.keygen_runners ≡ s.keygen_runners)
        × (s'.offline_state_runners ≡ s.offline_state_runners)
        × (s'.effects ≡ s.effects ++ (e ∷ []))
  keep_then_emit (ok db) e s = (after_effect e (record s { db = db }), refl, refl, refl, refl)
  keep_then_emit (err f) e s = (after_effect e s, refl, refl, refl, refl)

  -- After the output of a key generation, which does not panic if the group can be made, the
  -- requester is told the public key, the room is taken out of the offline runners, and the keygen
  -- runners are all still there, the one of the finished room too.
  pub handle_keygen_output_lem :
      {E : Type 0} (msg : ProtocolOutput KeygenRequest x.gg20.LocalKey) (s : Coordinator)
      (group : Group.PublicKeyGroup)
      → Group.new msg.input.participant_public_keys (as_u16 msg.input.threshold) s.pk_str
        ≡ some group
      → (s' : Coordinator) × (handle_keygen_output {E = E} msg s ≡ done tt s')
        × (s'.keygen_runners ≡ s.keygen_runners)
        × (s'.offline_state_runners
            ≡ remove
                (make_room_id msg.input.request_id (get_group_id group))
                s.offline_state_runners)
        × (s'.effects
            ≡ (s.effects ++ (counts requests_keygen_done ∷ []))
              ++ (responds (
                    response msg.input.request_id
                      (sum_pk msg.output)
                      RequestType.keygen
                      RequestStatus.done)
                  ∷ []))
  unfolding handle_keygen_output
  handle_keygen_output_lem msg s group made = rw made (
      keep_then_emit
        (save s.db (record {
          public_keys = msg.input.participant_public_keys;
          own_public_key = s.pk_str;
          share = msg.output;
        }))
        (responds
          (response msg.input.request_id (sum_pk msg.output) RequestType.keygen RequestStatus.done))
        (record s {
          effects = s.effects ++ (counts requests_keygen_done ∷ []);
          offline_state_runners =
              remove (make_room_id msg.input.request_id (get_group_id group))
                s.offline_state_runners;
        }))

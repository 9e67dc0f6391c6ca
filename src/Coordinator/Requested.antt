-- ===== src/Coordinator/Requested.antt =====
-- Requests, outputs and errors keep the coordinator sound.
use mpc_server.Common.{
  suc, refl, Bool, true, false, [], ◌∷◌, ◌++◌, Result, ok, err, ok_or, map_err, Text, remove,
}
use mpc_server.External.RoundBased.{Msg}
use mpc_server.Externals.{
  Externals, the_sled, the_crypto, the_gg20, the_raw, the_generic, the_sealed, the_groups,
  the_shares,
}
use mpc_server.Failure.{
  Failure, external, create_state_machine, retrieve_local_share, find_index_of_participants,
}
use mpc_server.Group
use mpc_server.Group.{PublicKeyGroup, get_i, get_t, get_n, get_group_id, as_u16}
use mpc_server.Messages.{ProtocolOutput, ProtocolError, IncomingMessage, EnrichedSignRequest}
use mpc_server.Player
use mpc_server.Prom.{
  requests_keygen_handled, requests_sign_handled, requests_keygen_done, requests_offline_done,
  requests_sign_done,
}
use mpc_server.Proto.{
  WireMessage, KeygenRequest, SignRequest, RequestType, RequestStatus, CheckResultResponse,
}
use mpc_server.Room.{make_room_id}
use mpc_server.Signer
use mpc_server.Storage.GroupStore.{save_group}
use mpc_server.Storage.ShareStore.{retrieve, save}
use mpc_server.Coordinator.State.{
  Coordinator, after_effect, counts, responds, starts_keygen, starts_offline, starts_signer,
}
use mpc_server.Coordinator.Requests.{
  handle_keygen_request, handle_sign_request, signing_indices, response,
}
use mpc_server.Coordinator.Outputs.{
  handle_keygen_error, handle_offline_error, handle_keygen_output, handle_offline_output,
  handle_sign_output, retry_early, start_signer, or_error,
}
use mpc_server.Coordinator.Actors.{keygen_player, offline_player, signer_actor, IsSound}
use mpc_server.Coordinator.Logged.{
  quiet-IsSound, start-IsSound, keygen_runners-IsSound, offline_runners-IsSound, signers-IsSound,
  offline_removed-IsSound, rest-IsSound,
}
use mpc_server.Coordinator.Preserves.{
  OnAny, lift-OnAny, or_panic-OnAny, attempt-OnAny, keep_db-OnAny, retry-IsSound,
}
use mpc_server.Coordinator.Handlers.{counts-IsSound}

module _ ⦃x : Externals⦄ where
  responds-IsSound :
      (s : Coordinator) (r : CheckResultResponse)
      → IsSound s
      → IsSound (after_effect (responds r) s)
  responds-IsSound s r h = quiet-IsSound s (responds r) h (refl, λ a q. absurd (cc q))

  pub handle_keygen_request-IsSound :
      (req : KeygenRequest) (s : Coordinator)
      → IsSound s
      → OnAny IsSound (handle_keygen_request req s)
  unfolding handle_keygen_request Player.new
  handle_keygen_request-IsSound req s h =
      let begun = after_effect (counts requests_keygen_handled) s in
      let told =
        after_effect
          (responds (response req.request_id [] RequestType.keygen RequestStatus.processing))
          begun in
      let h' : IsSound told = responds-IsSound begun _ (counts-IsSound s _ h) in
      or_panic-OnAny IsSound (Group.new req.participant_public_keys (as_u16 req.threshold) s.pk_str)
        _ told
        λ group. or_panic-OnAny IsSound (get_i group) _ told λ i.
          let room = make_room_id req.request_id (get_group_id group) in
          lift-OnAny IsSound
            (ok_or (x.gg20.new_keygen i (get_t group) (get_n group)) create_state_machine) _ told h'
            λ state.
              let (h'', started) =
                start-IsSound told (starts_keygen told.started (Player.new req room i state))
                  (record { kind = keygen_player; address = told.started; room = room }) h' refl
                  refl refl in
              let after =
                after_effect (starts_keygen told.started (Player.new req room i state))
                  (record told { started = suc told.started }) in
              keep_db-OnAny IsSound (save_group s.db group) _ after λ db.
                keygen_runners-IsSound (record after { db = db }) room told.started
                  (rest-IsSound after db after.clock h'') started

  pub handle_sign_request-IsSound :
      (req : SignRequest) (s : Coordinator) → IsSound s → OnAny IsSound (handle_sign_request req s)
  unfolding handle_sign_request Player.new
  handle_sign_request-IsSound req s h =
      let begun = after_effect (counts requests_sign_handled) s in
      let h' : IsSound begun = counts-IsSound s _ h in
      lift-OnAny IsSound (map_err (retrieve s.db s.sk req.public_key) retrieve_local_share) _ begun
        h'
        λ share.
          let t = x.gg20.key_threshold share.share in
          or_panic-OnAny IsSound (Group.new share.public_keys t s.pk_str) _ begun λ group.
            or_panic-OnAny IsSound (Group.new req.participant_public_keys t s.pk_str) _ begun
              λ subgroup. keep_db-OnAny IsSound (save_group s.db subgroup) _ begun λ db.
                let saved = record begun { db = db } in
                let h'' : IsSound saved = rest-IsSound begun db begun.clock h' in
                lift-OnAny IsSound
                  (map_err (signing_indices group t req.participant_public_keys)
                    find_index_of_participants)
                  _ saved h''
                  λ s_l.
                    let told =
                      after_effect
                        (responds
                          (response req.request_id [] RequestType.sign RequestStatus.processing))
                        saved in
                    let h3 : IsSound told = responds-IsSound saved _ h'' in
                    or_panic-OnAny IsSound (get_i group) _ told λ i.
                      or_panic-OnAny IsSound (get_i subgroup) _ told λ index.
                        let room = make_room_id req.request_id (get_group_id subgroup) in
                        let enriched : EnrichedSignRequest = record {
                          inner = req;
                          room = room;
                          i = index;
                          s_l = s_l;
                        } in
                        lift-OnAny IsSound
                          (ok_or (x.gg20.new_offline index s_l share.share) create_state_machine) _
                          told h3
                          λ state.
                            let (h4, started) =
                              start-IsSound told
                                (starts_offline told.started (Player.new enriched room index state))
                                (record {
                                  kind = offline_player;
                                  address = told.started;
                                  room = room;
                                })
                                h3 refl refl refl in
                            offline_runners-IsSound
                              (after_effect
                                (starts_offline told.started (Player.new enriched room index state))
                                (record told { started = suc told.started }))
                              room told.started h4 started

  module _ (E : Type 0) where
    retry_early-IsSound :
        (early : Bool) (m : WireMessage) (s : Coordinator)
        → IsSound s
        → OnAny IsSound (retry_early {E = E} early m s)
    unfolding retry_early
    retry_early-IsSound true m s h = retry-IsSound E _ s h
    retry_early-IsSound false m s h = h

    pub handle_keygen_error-IsSound :
        (e : ProtocolError x.gg20.KeygenError (IncomingMessage (Msg x.gg20.KeygenBody)))
        (s : Coordinator)
        → IsSound s
        → OnAny IsSound (handle_keygen_error {E = E} e s)
    unfolding handle_keygen_error
    handle_keygen_error-IsSound e s h = retry_early-IsSound _ _ s h

    pub handle_offline_error-IsSound :
        (e : ProtocolError x.gg20.OfflineError (IncomingMessage (Msg x.gg20.OfflineBody)))
        (s : Coordinator)
        → IsSound s
        → OnAny IsSound (handle_offline_error {E = E} e s)
    unfolding handle_offline_error
    handle_offline_error-IsSound e s h = retry_early-IsSound _ _ s h

    pub handle_keygen_output-IsSound :
        (msg : ProtocolOutput KeygenRequest x.gg20.LocalKey) (s : Coordinator)
        → IsSound s
        → OnAny IsSound (handle_keygen_output {E = E} msg s)
    unfolding handle_keygen_output
    handle_keygen_output-IsSound msg s h =
        let begun = after_effect (counts requests_keygen_done) s in
        or_panic-OnAny IsSound
          (Group.new msg.input.participant_public_keys (as_u16 msg.input.threshold) s.pk_str) _
          begun
          λ group.
            let room = make_room_id msg.input.request_id (get_group_id group) in
            let removed = record begun {
              offline_state_runners = remove room s.offline_state_runners;
            } in
            let h' : IsSound removed = offline_removed-IsSound begun room (counts-IsSound s _ h) in
            keep_db-OnAny IsSound
              (save s.db (record {
                public_keys = msg.input.participant_public_keys;
                own_public_key = s.pk_str;
                share = msg.output;
              }))
              _ removed
              λ db.
                responds-IsSound (record removed { db = db }) _
                  (rest-IsSound removed db removed.clock h')

    pub handle_sign_output-IsSound :
        (msg : ProtocolOutput EnrichedSignRequest x.gg20.SignatureRecid) (s : Coordinator)
        → IsSound s
        → OnAny IsSound (handle_sign_output {E = E} msg s)
    unfolding handle_sign_output
    handle_sign_output-IsSound msg s h =
        responds-IsSound (after_effect (counts requests_sign_done) s) _ (counts-IsSound s _ h)

    or_error-IsSound :
        (id : Text) (r : Result Failure (Unit {0})) (s : Coordinator)
        → IsSound s
        → OnAny IsSound (or_error {E = E} id r s)
    unfolding or_error
    or_error-IsSound id (ok u) s h = h
    or_error-IsSound id (err e) s h = responds-IsSound s _ h

    start_signer-IsSound :
        (msg : ProtocolOutput EnrichedSignRequest x.gg20.CompletedOfflineStage) (s : Coordinator)
        → IsSound s
        → OnAny IsSound (start_signer msg s)
    unfolding start_signer Signer.new
    start_signer-IsSound msg s h =
        lift-OnAny IsSound (ok_or (x.gg20.from_hex msg.input.inner.hash) external) _ s h λ hash.
          let (h', started) =
            start-IsSound s (starts_signer s.started _)
              (record { kind = signer_actor; address = s.started; room = msg.input.room }) h refl
              refl refl in
          responds-IsSound _ _ (signers-IsSound _ msg.input.room s.started h' started)

    pub handle_offline_output-IsSound :
        (msg : ProtocolOutput EnrichedSignRequest x.gg20.CompletedOfflineStage) (s : Coordinator)
        → IsSound s
        → OnAny IsSound (handle_offline_output {E = E} msg s)
    unfolding handle_offline_output
    handle_offline_output-IsSound msg s h =
        let removed = record s {
          offline_state_runners = remove msg.input.room s.offline_state_runners;
          effects = s.effects ++ (counts requests_offline_done ∷ []);
        } in
        attempt-OnAny IsSound IsSound (start_signer msg removed) _
          (start_signer-IsSound msg removed (
            offline_removed-IsSound (after_effect (counts requests_offline_done) s) msg.input.room
              (counts-IsSound s _ h)))
          λ r t h'. or_error-IsSound msg.input.inner.request_id r t h'

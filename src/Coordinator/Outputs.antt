-- ===== src/Coordinator/Outputs.antt =====
-- The protocol outputs and errors that players and signers send to the coordinator.
use mpc_server.Common.{
  ℕ, ◌+◌, ◌%◌, Bool, true, [], ◌++◌, Result, ok, err, ok_or, Text, bytes, insert, remove,
  if◌then◌else◌, Exec, length,
}
use mpc_server.Common.Handler.{◌>>=◌, ◌>>◌, pure, gets, lift, or_panic, modify, attempt}
use mpc_server.External.RoundBased.{Msg}
use mpc_server.Externals.{Externals, the_sled, the_crypto, the_gg20, the_shares}
use mpc_server.Failure.{Failure, external}
use mpc_server.Group
use mpc_server.Group.{get_group_id, as_u16}
use mpc_server.Messages.{
  ProtocolOutput, ProtocolError, IncomingMessage, EnrichedSignRequest, SignTask,
}
use mpc_server.Prom.{requests_keygen_done, requests_offline_done, requests_sign_done}
use mpc_server.Proto.{KeygenRequest, RequestType, RequestStatus, WireMessage}
use mpc_server.Room.{make_room_id}
use mpc_server.Signer
use mpc_server.Storage.ShareStore.{save, sum_pk}
use mpc_server.Coordinator.State.{
  Coordinator, emit, start, keep_db, counts, responds, starts_signer,
}
use mpc_server.Coordinator.Retry.{retry}
use mpc_server.Coordinator.Requests.{response}

-- `n - 1` on a 64-bit usize.
abbrev pub usize_pred : ℕ → ℕ
usize_pred n = (n + 18446744073709551615) % 18446744073709551616

module _ ⦃x : Externals⦄ where
  open x.gg20 use {
    LocalKey, CompletedOfflineStage, SignatureRecid, KeygenBody, KeygenError, OfflineBody,
    OfflineError, PartialSignature, BigInt,
  }

  -- A message that came too early is tried again, as a first attempt.
  unfoldable pub retry_early : {E : Type 0} → Bool → WireMessage → Exec Coordinator E (Unit {0})
  retry_early early wire_message =
      if early
      then (do
        now ← gets (λ s. s.clock)
        retry (record {
          message = wire_message;
          initial_timestamp = now;
          attempts = 1;
          check_passed = true;
        }))
      else pure tt

  -- The text of a signature.
  pub signature_text : SignatureRecid → Text
  signature_text sig =
      bytes "0x"
      ++ (x.crypto.hex_encode (x.gg20.r_bytes sig)
          ++ (x.crypto.hex_encode (x.gg20.s_bytes sig)
              ++ x.crypto.hex_encode (x.gg20.recid_bytes sig)))

  module _ {E : Type 0} where
    -- `Handler<ProtocolErrorKG>`
    unfoldable pub handle_keygen_error :
        ProtocolError KeygenError (IncomingMessage (Msg KeygenBody)) → Exec Coordinator E (Unit {0})
    unfolding retry_early
    handle_keygen_error msg =
        retry_early (x.gg20.keygen_out_of_order msg.error) msg.message.wire_message

    -- `Handler<ProtocolErrorO>`
    unfoldable pub handle_offline_error :
        ProtocolError OfflineError (IncomingMessage (Msg OfflineBody))
        → Exec Coordinator E (Unit {0})
    unfolding retry_early
    handle_offline_error msg =
        retry_early (x.gg20.offline_out_of_order msg.error) msg.message.wire_message

    -- `Handler<ProtocolOutputKG>`
    unfoldable pub handle_keygen_output :
        ProtocolOutput KeygenRequest LocalKey → Exec Coordinator E (Unit {0})
    handle_keygen_output msg = do
      emit (counts requests_keygen_done)
      pk_str ← gets (λ s. s.pk_str)
      group ←
          or_panic (Group.new msg.input.participant_public_keys (as_u16 msg.input.threshold) pk_str)
      let room = make_room_id msg.input.request_id (get_group_id group)
      modify (λ s. record s { offline_state_runners = remove room s.offline_state_runners })
      db ← gets (λ s. s.db)
      keep_db (
          save db (record {
            public_keys = msg.input.participant_public_keys;
            own_public_key = pk_str;
            share = msg.output;
          }))
      emit (
          responds (
            response msg.input.request_id (sum_pk msg.output) RequestType.keygen
              RequestStatus.done))

    -- `Handler<ProtocolOutputS>`
    unfoldable pub handle_sign_output :
        ProtocolOutput EnrichedSignRequest SignatureRecid → Exec Coordinator E (Unit {0})
    handle_sign_output msg = do
      emit (counts requests_sign_done)
      emit (
          responds (
            response msg.input.inner.request_id (signature_text msg.output) RequestType.sign
              RequestStatus.done))

  -- The closure `do_it`.
  unfoldable pub start_signer :
      ProtocolOutput EnrichedSignRequest CompletedOfflineStage → Exec Coordinator Failure (Unit {0})
  start_signer msg = do
    message ← lift (ok_or (x.gg20.from_hex msg.input.inner.hash) external)
    let task : SignTask BigInt CompletedOfflineStage = record {
      room = msg.input.room;
      index = msg.input.i;
      t = usize_pred (length msg.input.s_l);
      message = message;
      completed_offline_stage = msg.output;
    }
    signer ← start (λ addr. starts_signer addr (Signer.new msg.input task))
    modify (λ s. record s { signers = insert msg.input.room signer s.signers })
    emit (
        responds (response msg.input.inner.request_id [] RequestType.sign RequestStatus.processing))

  module _ {E : Type 0} where
    unfoldable pub or_error : Text → Result Failure (Unit {0}) → Exec Coordinator E (Unit {0})
    or_error request_id (ok _) = pure tt
    or_error request_id (err _) =
        emit (responds (response request_id [] RequestType.sign RequestStatus.error))

    -- `Handler<ProtocolOutputO>`
    unfoldable pub handle_offline_output :
        ProtocolOutput EnrichedSignRequest CompletedOfflineStage → Exec Coordinator E (Unit {0})
    unfolding start_signer or_error
    handle_offline_output msg = do
      emit (counts requests_offline_done)
      modify
          (λ s. record s { offline_state_runners = remove msg.input.room s.offline_state_runners })
      r ← attempt (start_signer msg)
      or_error msg.input.inner.request_id r

-- ===== src/Coordinator/Dispatch.antt =====
-- `handle_coordinator_message` of src/actors/coordinator.rs.
use mpc_server.Common.{Result, ok, err, if◌then◌else◌, Exec}
use mpc_server.Common.Handler.{◌>>=◌, pure, gets, attempt}
use mpc_server.Cipher.{maybe_encrypt}
use mpc_server.Externals.{
  Externals, the_sled, the_crypto, the_raw, the_generic, the_sealed, the_groups,
}
use mpc_server.Failure.{Failure}
use mpc_server.Messages.{
  CoordinatorMessage, incoming, retry, outgoing, sign_request, keygen_request,
}
use mpc_server.Proto.{CoreMessage, WireMessage}
use mpc_server.Coordinator.State.{Coordinator, emit, sends_out}
use mpc_server.Coordinator.Incoming.{handle_incoming, handle_incoming_unsafe, handle_retry}
use mpc_server.Coordinator.Requests.{handle_keygen_request, handle_sign_request}

module _ ⦃x : Externals⦄ {E : Type 0} where
  unfoldable pub send_encrypted : Result Failure CoreMessage → Exec Coordinator E (Unit {0})
  send_encrypted (ok msg) = emit (sends_out msg)
  send_encrypted (err _) = pure tt

  unfoldable pub handle_coordinator_message : CoordinatorMessage → Exec Coordinator E (Unit {0})
  unfolding send_encrypted
  handle_coordinator_message (incoming msg) = handle_incoming msg
  handle_coordinator_message (retry msg) =
      if msg.check_passed
      then handle_incoming_unsafe msg.message msg.initial_timestamp msg.attempts
      else handle_retry msg
  handle_coordinator_message (outgoing msg) = do
    db ← gets (λ s. s.db)
    send_encrypted (maybe_encrypt db msg)
  handle_coordinator_message (keygen_request req) = do
    _ ← attempt (handle_keygen_request req)
    pure tt
  handle_coordinator_message (sign_request req) = do _ ← attempt (handle_sign_request req); pure tt

  -- `StreamHandler`, of the stream that `Coordinator::new` makes of the incoming messages.
  unfoldable pub handle_stream : Result Failure WireMessage → Exec Coordinator E (Unit {0})
  handle_stream (ok msg) = handle_coordinator_message (incoming msg)
  handle_stream (err _) = pure tt

-- ===== src/Coordinator/Incoming.antt =====
-- The incoming messages of src/actors/coordinator.rs: validation, decryption, routing and retries.
use mpc_server.Common.{
  ℕ, ◌+◌, ◌%◌, Bool, true, false, not, ◌||◌, Option, none, some, Result, ok, err, ok_or, map_err,
  slice, contains, lookup, if◌then◌else◌, ◌==◌, Exec,
}
use mpc_server.Common.Handler.{◌>>=◌, ◌>>◌, pure, gets, lift, or_panic, attempt}
use mpc_server.Cipher.{maybe_decrypt}
use mpc_server.Externals.{
  Externals, the_sled, the_crypto, the_raw, the_generic, the_sealed, the_groups,
}
use mpc_server.Failure.{
  Failure, external, cant_find_mpc_player, not_found_mpc_player, not_found_signer,
  deserialize_message,
}
use mpc_server.Group.{PublicKeyGroup, get_index, get_i}
use mpc_server.Messages.{RetryMessage, IncomingMessage}
use mpc_server.Prom.{
  messages_total_received, messages_keygen_handled, messages_offline_handled, messages_sign_handled,
  messages_dropped,
}
use mpc_server.Proto.{WireMessage}
use mpc_server.Room.{extract_group_id}
use mpc_server.Storage.GroupStore.{retrieve_group}
use mpc_server.Coordinator.State.{
  Coordinator, CoordinatorError, unknown_group, invalid_room, wrong_public_key, not_for_me,
  invalid_payload, emit, counts, sends_keygen, sends_offline, sends_partial,
}
use mpc_server.Coordinator.Retry.{retry}

abbrev pub is_ok : {E A : Type 0} → Result E A → Bool
is_ok (ok a) = true
is_ok (err e) = false

abbrev pub envelope : {M : Type 0} → WireMessage → M → IncomingMessage M
envelope message msg = record { room = message.room; wire_message = message; message = msg }

module _ ⦃x : Externals⦄ where
  -- The receiver of a message, if it has one, is this party's index in the group.
  unfoldable pub check_receiver :
      PublicKeyGroup → Option ℕ → Exec Coordinator CoordinatorError (Unit {0})
  check_receiver group none = pure tt
  check_receiver group (some receiver) = do
    i ← or_panic (get_i group)
    if receiver == i then pure tt else lift (err not_for_me)

  unfoldable pub valid_sender_and_receiver :
      WireMessage → Exec Coordinator CoordinatorError (Unit {0})
  unfolding check_receiver
  valid_sender_and_receiver msg = do
    group_id ← lift (map_err (extract_group_id msg.room) invalid_room)
    db ← gets (λ s. s.db)
    group ← lift (map_err (retrieve_group db group_id) unknown_group)
    _ ← lift (ok_or (get_index group msg.sender_public_key) wrong_public_key)
    m ← lift (ok_or (x.generic.read msg.payload) invalid_payload)
    check_receiver group m.receiver

  unfoldable pub handle_incoming_keygen : WireMessage → Exec Coordinator Failure (Unit {0})
  handle_incoming_keygen message = do
    runners ← gets (λ s. s.keygen_runners)
    addr ← lift (ok_or (lookup message.room runners) cant_find_mpc_player)
    msg ← lift (ok_or (x.gg20.keygen_msg.read message.payload) deserialize_message)
    emit (sends_keygen addr (envelope message msg))
    emit (counts messages_keygen_handled)

  unfoldable pub handle_incoming_offline : WireMessage → Exec Coordinator Failure (Unit {0})
  handle_incoming_offline message = do
    runners ← gets (λ s. s.offline_state_runners)
    addr ← lift (ok_or (lookup message.room runners) not_found_mpc_player)
    msg ← lift (ok_or (x.gg20.offline_msg.read message.payload) deserialize_message)
    emit (sends_offline addr (envelope message msg))
    emit (counts messages_offline_handled)

  unfoldable pub handle_incoming_sign : WireMessage → Exec Coordinator Failure (Unit {0})
  handle_incoming_sign message = do
    signers ← gets (λ s. s.signers)
    addr ← lift (ok_or (lookup message.room signers) not_found_signer)
    msg ← lift (ok_or (x.gg20.partial_msg.read message.payload) deserialize_message)
    emit (sends_partial addr (envelope message msg))
    emit (counts messages_sign_handled)

  module _ {E : Type 0} where
    -- All three handlers see the message; it is retried if none of them took it. `attempts` is a u16.
    unfoldable pub handle_incoming_unsafe : WireMessage → ℕ → ℕ → Exec Coordinator E (Unit {0})
    handle_incoming_unsafe message init_ts attempts = do
      h1 ← attempt (handle_incoming_offline message)
      h2 ← attempt (handle_incoming_sign message)
      h3 ← attempt (handle_incoming_keygen message)
      if is_ok h1 || is_ok h2 || is_ok h3
          then pure tt
          else retry (record {
            message = message;
            initial_timestamp = init_ts;
            attempts = (attempts + 1) % 65536;
            check_passed = true;
          })

    unfoldable pub handle_decrypted : Result Failure WireMessage → Exec Coordinator E (Unit {0})
    handle_decrypted (err e) = pure tt
    handle_decrypted (ok transformed) = do
      now ← gets (λ s. s.clock)
      handle_incoming_unsafe transformed now 0

    unfoldable pub handle_checked :
        WireMessage → Result CoordinatorError (Unit {0}) → Exec Coordinator E (Unit {0})
    handle_checked msg (ok _) = do sk ← gets (λ s. s.sk); handle_decrypted (maybe_decrypt sk msg)
    handle_checked msg (err not_for_me) = emit (counts messages_dropped)
    handle_checked msg (err _) = do
      now ← gets (λ s. s.clock)
      retry (record { message = msg; initial_timestamp = now; attempts = 1; check_passed = false })

    unfoldable pub handle_incoming : WireMessage → Exec Coordinator E (Unit {0})
    unfolding handle_decrypted handle_checked
    handle_incoming msg = do
      emit (counts messages_total_received)
      pk_str ← gets (λ s. s.pk_str)
      part ← or_panic (slice pk_str 2 10)
      if not (contains msg.room part)
          then emit (counts messages_dropped)
          else do checked ← attempt (valid_sender_and_receiver msg); handle_checked msg checked

  -- `precheck_message`: the message as it is after it.
  unfoldable pub precheck_message : WireMessage → Exec Coordinator Failure WireMessage
  precheck_message msg = do
    checked ← attempt (valid_sender_and_receiver msg)
    _ ← lift (map_err checked external)
    sk ← gets (λ s. s.sk)
    lift (maybe_decrypt sk msg)

  module _ {E : Type 0} where
    unfoldable pub handle_prechecked :
        RetryMessage → Result Failure WireMessage → Exec Coordinator E (Unit {0})
    handle_prechecked msg (ok adapted) =
        handle_incoming_unsafe adapted msg.initial_timestamp msg.attempts
    handle_prechecked msg (err _) =
        retry (record msg { attempts = (msg.attempts + 1) % 65536; check_passed = false })

    unfoldable pub handle_retry : RetryMessage → Exec Coordinator E (Unit {0})
    unfolding handle_prechecked
    handle_retry msg = do
      adapted ← attempt (precheck_message msg.message)
      handle_prechecked msg adapted

-- ===== src/Coordinator/Early.antt =====
-- What becomes of a keygen message that came too early.
use mpc_server.Common.{ℕ, ◌≡◌, refl, ◌∙◌, true, none, some, [], ◌∷◌, lookup, done}
use mpc_server.External.RoundBased.{Msg}
use mpc_server.Externals.{Externals, the_gg20}
use mpc_server.Messages
use mpc_server.Messages.{RetryMessage, IncomingMessage, ProtocolError}
use mpc_server.Prom.{messages_keygen_handled}
use mpc_server.Proto.{WireMessage}
use mpc_server.Coordinator.State.{Coordinator, counts, schedules, sends_keygen}
use mpc_server.Coordinator.Retry.{delay}
use mpc_server.Coordinator.Incoming.{envelope}
use mpc_server.Coordinator.Outputs.{handle_keygen_error}
use mpc_server.Coordinator.Dispatch.{handle_coordinator_message}
use mpc_server.Coordinator.Routing.{
  with_effects, retried, retry_lem, handle_incoming_unsafe_lem, to_offline, to_signer, to_keygen,
}

module _ ⦃x : Externals⦄ where
  open x.gg20 use {KeygenBody, KeygenError}

  -- The message of an error, as it is tried again at a time.
  abbrev pub again : ProtocolError KeygenError (IncomingMessage (Msg KeygenBody)) → ℕ → RetryMessage
  again e now = record {
    message = e.message.wire_message;
    initial_timestamp = now;
    attempts = 1;
    check_passed = true;
  }

  early_scheduled :
      {F : Type 0} (e : ProtocolError KeygenError (IncomingMessage (Msg KeygenBody)))
      (s : Coordinator)
      → x.gg20.keygen_out_of_order e.error ≡ true
      → handle_keygen_error {E = F} e s
        ≡ done tt (with_effects s (schedules 2 (again e s.clock) ∷ []))
  unfolding handle_keygen_error
  early_scheduled e s early =
      rw (early, handle_keygen_error)
        (retry_lem (again e s.clock) s ∙ (unfold retried delay in refl))

  handed_to_keygen :
      {F : Type 0} (m : WireMessage) (ts addr : ℕ) (msg : Msg KeygenBody) (t : Coordinator)
      → lookup m.room t.offline_state_runners ≡ none
      → lookup m.room t.signers ≡ none
      → lookup m.room t.keygen_runners ≡ some addr
      → x.gg20.keygen_msg.read m.payload ≡ some msg
      → handle_coordinator_message {E = F}
          (Messages.retry
            (record { message = m; initial_timestamp = ts; attempts = 1; check_passed = true }))
          t
        ≡ done tt (
            with_effects t
              (sends_keygen addr (envelope m msg) ∷ counts messages_keygen_handled ∷ []))
  unfolding handle_coordinator_message to_offline to_signer to_keygen
  handed_to_keygen m ts addr msg t no_offline no_signer runner reads =
      handle_incoming_unsafe_lem m ts 1 t ∙ rw (no_offline, no_signer, runner, reads) refl

  -- A keygen message that its player refuses as out of order is tried again after two seconds as
  -- a first attempt, and goes to the player of its room again then, if that is the only actor of
  -- the room: refused again, it comes back as a first attempt, so no number of refusals drops it.
  pub early_handed_again :
      {F : Type 0} (e : ProtocolError KeygenError (IncomingMessage (Msg KeygenBody)))
      (s t : Coordinator) (addr : ℕ) (msg : Msg KeygenBody)
      → x.gg20.keygen_out_of_order e.error ≡ true
      → lookup e.message.wire_message.room t.offline_state_runners ≡ none
      → lookup e.message.wire_message.room t.signers ≡ none
      → lookup e.message.wire_message.room t.keygen_runners ≡ some addr
      → x.gg20.keygen_msg.read e.message.wire_message.payload ≡ some msg
      → (handle_keygen_error {E = F} e s
          ≡ done tt (with_effects s (schedules 2 (again e s.clock) ∷ [])))
        × (handle_coordinator_message {E = F} (Messages.retry (again e s.clock)) t
            ≡ done tt (
                with_effects t (
                  sends_keygen addr (envelope e.message.wire_message msg)
                  ∷ counts messages_keygen_handled
                  ∷ [])))
  early_handed_again e s t addr msg early no_offline no_signer runner reads = (
    early_scheduled e s early,
    handed_to_keygen e.message.wire_message s.clock addr msg t no_offline no_signer runner reads,
  )

-- ===== src/Signer.antt =====
-- src/actors/signer.rs: an actor that collects partial signatures. `sent` lists what has left it.
pub mod Collect
use mpc_server.Common.{
  ℕ, ◌+◌, Bool, true, false, Option, none, some, List, [], ◌∷◌, ◌++◌, Text, length, if◌then◌else◌,
  ◌==◌,
}
use mpc_server.External.RoundBased.{Msg}
use mpc_server.External.Gg20.{Gg20}
use mpc_server.External.Serde.{Serde}
use mpc_server.Messages.{IncomingMessage, ProtocolOutput, SignTask}
use mpc_server.Proto.{CoreMessage}

module _ ⦃gg20 : Gg20⦄ where
  open gg20 use {BigInt, CompletedOfflineStage, PartialSignature, SignatureRecid, SignManual}

  abbrev pub Task : Type 0
  Task = SignTask BigInt CompletedOfflineStage

  pub data Sent (I : Type 0) : Type 0 where
    outgoing : CoreMessage → Sent I
    result : ProtocolOutput I SignatureRecid → Sent I

  pub record Signer (I : Type 0) : Type 0 where
    pub input : I
    pub task : Task
    pub partial_sigs : List PartialSignature
    pub sent : List (Sent I)

  -- `Msg { sender, receiver: None, body }`
  abbrev pub sig_msg : ℕ → PartialSignature → Msg PartialSignature
  sig_msg index partial_sig = record { sender = index; receiver = none; body = partial_sig }

  -- The signature of the collected parts, if it can be completed.
  unfoldable pub complete : Task → List PartialSignature → Option SignatureRecid
  complete task sigs = elim (gg20.new_sign_manual task.message task.completed_offline_stage) [
    | none ↦ none
    | some (state, _) ↦ gg20.complete state sigs
  ]

  module _ {I : Type 0} where
    -- `Signer::new`
    unfoldable pub new : I → Task → Signer I
    new input task = record { input = input; task = task; partial_sigs = []; sent = [] }

    abbrev pub send : Sent I → Signer I → Signer I
    send e s = record s { sent = s.sent ++ (e ∷ []) }

    unfoldable pub broadcast : Option Text → Signer I → Signer I
    broadcast none s = s
    broadcast (some serialized) s =
        send (outgoing (record { room = s.task.room; message = serialized })) s

    -- `send_my_partial_signature`; its error is thrown away by its caller.
    unfoldable pub send_my_partial_signature : Signer I → Signer I
    unfolding broadcast
    send_my_partial_signature s =
        elim (gg20.new_sign_manual s.task.message s.task.completed_offline_stage) [
          | none ↦ s
          | some (_, partial_sig) ↦
              broadcast (gg20.partial_msg.write (sig_msg s.task.index partial_sig)) s
        ]

    -- `started`: what an actor does before it handles a message
    unfoldable pub started : Signer I → Signer I
    started s = send_my_partial_signature s

    unfoldable pub report : Option SignatureRecid → Signer I → Signer I
    report none s = s
    report (some signature) s = send (result (record { input = s.input; output = signature })) s

    -- `finish_if_possible`; its error is thrown away.
    pub finish_if_possible : Signer I → Signer I
    unfolding report
    finish_if_possible s =
        if length s.partial_sigs == s.task.t then report (complete s.task s.partial_sigs) s else s

    -- `Handler<IncomingMessage>`
    pub handle : IncomingMessage (Msg PartialSignature) → Signer I → Signer I
    handle msg s =
        if msg.message.sender == s.task.index
        then s
        else finish_if_possible
            (record s { partial_sigs = s.partial_sigs ++ (msg.message.body ∷ []) })

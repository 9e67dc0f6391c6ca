-- ===== src/Coordinator/Signing.antt =====
-- From a completed offline stage to the signer.
use mpc_server.Common.{
  suc, ◌≡◌, ◌⊎◌, inl, inr, refl, none, some, [], ◌∷◌, ◌++◌, remove, length, done, Option-cases,
}
use mathlib.Core.List.{append_assoc}
use mpc_server.Externals.{Externals, the_gg20}
use mpc_server.Messages.{ProtocolOutput, EnrichedSignRequest, SignTask}
use mpc_server.Prom.{requests_offline_done}
use mpc_server.Proto.{RequestType, RequestStatus}
use mpc_server.Signer
use mpc_server.Coordinator.State.{Coordinator, counts, responds, starts_signer}
use mpc_server.Coordinator.Requests.{response}
use mpc_server.Coordinator.Outputs.{handle_offline_output, usize_pred}
use mpc_server.Coordinator.Registration.{IsRegistered, insert-IsRegistered, three}

module _ ⦃x : Externals⦄ where
  open x.gg20 use {BigInt, CompletedOfflineStage}

  abbrev pub Completed : Type 0
  Completed = ProtocolOutput EnrichedSignRequest CompletedOfflineStage

  -- The task of the signer: one signature fewer to collect than there are participants.
  abbrev pub task_of : Completed → BigInt → SignTask BigInt CompletedOfflineStage
  task_of msg hash = record {
    room = msg.input.room;
    index = msg.input.i;
    t = usize_pred (length msg.input.s_l);
    message = hash;
    completed_offline_stage = msg.output;
  }

  -- The hash does not read: no signer is started, and the requester gets an error.
  abbrev pub IsRefused : Completed → Coordinator → Coordinator → Type 0
  IsRefused msg s s' =
      (x.gg20.from_hex msg.input.inner.hash ≡ none)
      × (s'.signers ≡ s.signers)
      × (s'.effects
          ≡ s.effects
            ++ (counts requests_offline_done
                ∷ responds
                    (response msg.input.inner.request_id [] RequestType.sign RequestStatus.error)
                ∷ []))

  -- The hash reads: a signer is started for it, and has the messages of the room.
  abbrev pub IsSigning : Completed → Coordinator → Coordinator → Type 0
  IsSigning msg s s' =
      (hash : BigInt) × (x.gg20.from_hex msg.input.inner.hash ≡ some hash)
      × IsRegistered msg.input.room s.started s.signers s'.signers
      × (s'.started ≡ suc s.started)
      × (s'.effects
          ≡ s.effects
            ++ (counts requests_offline_done
                ∷ starts_signer s.started (Signer.new msg.input (task_of msg hash))
                ∷ responds (
                    response msg.input.inner.request_id [] RequestType.sign
                      RequestStatus.processing)
                ∷ []))

  -- When an offline stage is completed, its player is taken out of the runners, and either the
  -- hash of the request does not read and the requester gets an error, or a signer for the hash is
  -- started and registered under the room, and the requester is told that it goes on.
  pub handle_offline_output_lem :
      {E : Type 0} (msg : Completed) (s : Coordinator)
      → (s' : Coordinator) × (handle_offline_output {E = E} msg s ≡ done tt s')
        × (s'.offline_state_runners ≡ remove msg.input.room s.offline_state_runners)
        × (IsRefused msg s s' ⊎ IsSigning msg s s')
  unfolding handle_offline_output
  handle_offline_output_lem msg s = elim (Option-cases (x.gg20.from_hex msg.input.inner.hash)) [
    | inl e ↦
        rw (e, handle_offline_output) (_, refl, refl, inl (refl, refl, append_assoc s.effects _ _))
    | inr (hash, e) ↦
        rw (e, handle_offline_output)
          (
            _,
            refl,
            refl,
            inr (
              hash,
              refl,
              insert-IsRegistered _ s.started s.signers,
              refl,
              three s.effects _ _ _,
            ),
          )
  ]

-- ===== src/System/Signatures.antt =====
-- A signature, from the offline stage to what `check_result` returns.
use mpc_server.Common.{
  ℕ, suc, ◌-◌, ◌≡◌, ◌≤◌, inl, inr, refl, sym, ap, ◌∙◌, some, List, [], ◌∷◌, ◌++◌, ok, done, length,
  take, arith,
}
use mpc_server.Common.Fallible.{some-injective}
use mpc_server.External.RoundBased.{Msg}
use mpc_server.External.Serde.{Serde, SerdeLaws}
use mpc_server.External.Sled.{SledLaws}
use mpc_server.Externals.{Externals, the_sled, the_crypto, the_gg20}
use mpc_server.Failure.{Failure}
use mpc_server.Messages.{IncomingMessage, ProtocolOutput, EnrichedSignRequest}
use mpc_server.Prom.{Counter, requests_offline_done, requests_sign_done}
use mpc_server.Proto.{CheckResultResponse, RequestType, RequestStatus}
use mpc_server.Server.{check_result}
use mpc_server.Server.Results.{IsReliable}
use mpc_server.Signer
use mpc_server.Signer.{Signer, result, complete, started}
use mpc_server.Signer.Collect.{deliver, foreign, own_partial, result_of_complete, sent-deliver}
use mpc_server.Coordinator.State.{Coordinator, Effect, counts, responds, starts_signer}
use mpc_server.Coordinator.Requests.{response}
use mpc_server.Coordinator.Outputs.{
  handle_offline_output, handle_sign_output, signature_text, usize_pred,
}
use mpc_server.Coordinator.Signing.{Completed, task_of, handle_offline_output_lem}
use mpc_server.System.{leave, sent, send_all}
use mpc_server.System.Answers.{idle, with_no_effects, saved_twice, saved_two, check_saved}

usize_pred_lem : (n : ℕ) → 1 ≤ n → n ≤ 18446744073709551616 → usize_pred n ≡ n - 1
usize_pred_lem n h b = omega arith

module _ ⦃x : Externals⦄ ⦃serde : Serde CheckResultResponse⦄ where
  open x.gg20 use {BigInt, PartialSignature, SignatureRecid}

  abbrev pub SignMessages : Type 0
  SignMessages = List (IncomingMessage (Msg PartialSignature))

  -- The result that the signer of an offline stage sends.
  abbrev pub output_of :
      Completed → SignatureRecid → ProtocolOutput EnrichedSignRequest SignatureRecid
  output_of msg signature = record { input = msg.input; output = signature }

  -- A new signer of an offline stage, once it has started and its mailbox has enough signatures of
  -- others, has sent its own partial signature and the signature.
  signer_completes :
      (msg : Completed) (hash : BigInt) (ms : SignMessages) (signature : SignatureRecid)
      → 2 ≤ length msg.input.s_l
      → length msg.input.s_l ≤ 18446744073709551616
      → length msg.input.s_l ≤ suc (length (foreign msg.input.i ms))
      → complete (task_of msg hash) (take (length msg.input.s_l - 1) (foreign msg.input.i ms))
        ≡ some signature
      → (deliver (started (Signer.new msg.input (task_of msg hash))) ms).sent
        ≡ own_partial (task_of msg hash) ++ (result (output_of msg signature) ∷ [])
  signer_completes msg hash ms signature two fits enough completes =
      let t = usize_pred_lem (length msg.input.s_l) (omega arith) fits in
      sent-deliver msg.input (task_of msg hash) ms (omega (arith, t))
      ∙ ap (λ l. own_partial (task_of msg hash) ++ l)
          (result_of_complete msg.input (task_of msg hash) (foreign msg.input.i ms) signature
            (omega (arith, t))
            (ap (λ n. complete (task_of msg hash) (take n (foreign msg.input.i ms))) t ∙ completes))

  -- The effects of a coordinator that starts the signer.
  abbrev pub signing_effects : Completed → BigInt → ℕ → List Effect
  signing_effects msg hash addr =
      counts requests_offline_done
      ∷ starts_signer addr (Signer.new msg.input (task_of msg hash))
      ∷ responds (response msg.input.inner.request_id [] RequestType.sign RequestStatus.processing)
      ∷ []

  offline_signs :
      (msg : Completed) (hash : BigInt) (c : Coordinator)
      → x.gg20.from_hex msg.input.inner.hash ≡ some hash
      → (c' : Coordinator) × (handle_offline_output {E = Failure} msg (with_no_effects c)
          ≡ done tt c')
        × (c'.effects ≡ signing_effects msg hash c.started)
  offline_signs msg hash c reads =
      let (c', handled, gone, cases) =
        handle_offline_output_lem {E = Failure} msg (with_no_effects c) in
      elim cases [
        | inl (unread, same, told) ↦ absurd (cc (reads, unread))
        | inr (hash', reads', registered, counted, told) ↦ (
          c',
          handled,
          told ∙ ap (λ h. signing_effects msg h c.started) (some-injective (sym reads' ∙ reads)),
        )
      ]

  abbrev sign_done : Completed → SignatureRecid → CheckResultResponse
  sign_done msg signature =
      response msg.input.inner.request_id (signature_text signature) RequestType.sign
        RequestStatus.done

  -- A server whose disk takes every write completes the offline stage of a request, of at least
  -- two participants and at most 2 ^ 64, and has no response on its way; the hash of the request is hex. It starts a
  -- signer; with enough signatures of others in its mailbox, which complete to a signature, the
  -- signer sends its own partial signature, where that can be written, then that signature to the
  -- coordinator, and nothing else. When the coordinator has handled it and the responses are saved,
  -- a check of the request's id returns the text of that signature.
  pub signature_answered :
      (stored : SledLaws) (json : SerdeLaws CheckResultResponse)
      → IsReliable stored json
      → (msg : Completed) (hash : BigInt) (ms : SignMessages) (signature : SignatureRecid)
        (db : x.sled.Db) (c : Coordinator) (counted : List Counter)
      → x.gg20.from_hex msg.input.inner.hash ≡ some hash
      → 2 ≤ length msg.input.s_l
      → length msg.input.s_l ≤ 18446744073709551616
      → length msg.input.s_l ≤ suc (length (foreign msg.input.i ms))
      → complete (task_of msg hash) (take (length msg.input.s_l - 1) (foreign msg.input.i ms))
        ≡ some signature
      → let signer = Signer.new msg.input (task_of msg hash) in
        (c1 : Coordinator) × (handle_offline_output {E = Failure} msg (with_no_effects c)
          ≡ done tt c1)
        × (c1.effects ≡ signing_effects msg hash c.started)
        × ((deliver (started signer) ms).sent
            ≡ own_partial (task_of msg hash) ++ (result (output_of msg signature) ∷ []))
        × (c2 : Coordinator) × (handle_sign_output {E = Failure}
              (output_of msg signature)
              (with_no_effects c1)
            ≡ done tt c2)
        × (check_result msg.input.inner.request_id
              (saved_twice (leave (leave (idle db c counted) c1) c2)).api.results_db
            ≡ ok (sign_done msg signature))
  unfolding handle_sign_output
  signature_answered stored json reliable msg hash ms signature db c counted reads two fits enough
        completes =
      let (c1, handled, told) = offline_signs msg hash c reads in
      let c2 : Coordinator = record c1 {
        effects = counts requests_sign_done ∷ responds (sign_done msg signature) ∷ [];
      } in
      let u = leave (leave (idle db c counted) c1) c2 in
      let first =
        response msg.input.inner.request_id [] RequestType.sign RequestStatus.processing in
      let queued : u.api.tx_res.queue ≡ first ∷ sign_done msg signature ∷ [] =
        ap
          (λ es.
            (send_all (sign_done msg signature ∷ [])
              (send_all (sent es) (idle db c counted).api.tx_res)).queue)
          told in
      (
        c1,
        handled,
        told,
        signer_completes msg hash ms signature two fits enough completes,
        c2,
        refl,
        ap (λ v. check_result msg.input.inner.request_id v.api.results_db)
              (saved_two u first (sign_done msg signature) queued)
            ∙ check_saved stored json reliable _ (sign_done msg signature),
      )

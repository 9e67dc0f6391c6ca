-- ===== src/Signer/Collect.antt =====
-- Which result a signer sends.
use mpc_server.Common.{
  ==_iff, ◌≢◌, ℕ, ◌+◌, ◌≡◌, ◌≤◌, ◌<◌, refl, sym, ap, ◌∙◌, true, false, List, [], ◌∷◌, ◌++◌, Option,
  none, some, length, length-append, take, take-append_length, leb, if◌then◌else◌, ◌==◌, Bool-cases,
  Text, inl, inr, arith,
}
use mathlib.Core.List.{append_assoc, append-nil}
use mpc_server.External.RoundBased.{Msg}
use mpc_server.External.Gg20.{Gg20}
use mpc_server.Messages.{IncomingMessage}
use mpc_server.Signer.{
  new, Signer, Sent, outgoing, sig_msg, started, broadcast, send_my_partial_signature, result, Task,
  handle, complete, finish_if_possible, report,
}

holds_leb : (a b : ℕ) → a ≤ b → leb a b ≡ true
holds_leb a b h = ground arith

module _ ⦃gg20 : Gg20⦄ where
  open gg20 use {PartialSignature}

  -- The signatures of the others, in the order of their arrival.
  unfoldable pub foreign : ℕ → List (IncomingMessage (Msg PartialSignature)) → List PartialSignature
  foreign index [] = []
  foreign index (m ∷ ms) =
      let rest = foreign index ms in
      if m.message.sender == index then rest else m.message.body ∷ rest

module _ ⦃gg20 : Gg20⦄ {I : Type 0} where
  open gg20 use {PartialSignature, SignatureRecid, SignManual}

  -- The messages of a mailbox, one by one, to a signer that has started.
  pub deliver : Signer I → List (IncomingMessage (Msg PartialSignature)) → Signer I
  deliver s [] = s
  deliver s (m ∷ ms) = deliver (handle m s) ms

  abbrev sent_result : I → Option SignatureRecid → List (Sent I)
  sent_result input none = []
  sent_result input (some signature) = result (record { input = input; output = signature }) ∷ []

  -- The result for the first `t` signatures, if there are so many.
  unfoldable pub result_of : I → Task → List PartialSignature → List (Sent I)
  result_of input task sigs =
      if leb task.t (length sigs) then sent_result input (complete task (take task.t sigs)) else []

  report_lem :
      (o : Option SignatureRecid) (s : Signer I)
      → report o s ≡ record s { sent = s.sent ++ sent_result s.input o }
  unfolding report
  report_lem none s = ap (λ l. record s { sent = l }) (sym (append-nil s.sent))
  report_lem (some sig) s = refl

  abbrev with_sig : Signer I → PartialSignature → Signer I
  with_sig s b = record s { partial_sigs = s.partial_sigs ++ (b ∷ []) }

  handle_own :
      (m : IncomingMessage (Msg PartialSignature)) (s : Signer I)
      → (m.message.sender == s.task.index) ≡ true
      → handle m s ≡ s
  unfolding handle
  handle_own m s e = rw e

  handle_foreign :
      (m : IncomingMessage (Msg PartialSignature)) (s : Signer I)
      → (m.message.sender == s.task.index) ≡ false
      → handle m s ≡ finish_if_possible (with_sig s m.message.body)
  unfolding handle
  handle_foreign m s e = rw e

  finish_at :
      (s : Signer I)
      → length s.partial_sigs ≡ s.task.t
      → finish_if_possible s
        ≡ record s { sent = s.sent ++ sent_result s.input (complete s.task s.partial_sigs) }
  unfolding finish_if_possible
  finish_at s e = rw ((==_iff (length s.partial_sigs) s.task.t).1 e) (report_lem _ s)

  finish_not_at : (s : Signer I) → length s.partial_sigs ≢ s.task.t → finish_if_possible s ≡ s
  unfolding finish_if_possible
  finish_not_at s ne = elim (Bool-cases (length s.partial_sigs == s.task.t)) [
    | inl e ↦ absurd (ne ((==_iff (length s.partial_sigs) s.task.t).0 e))
    | inr e ↦ rw e
  ]

  length-with_sig :
      (s : Signer I) (b : PartialSignature)
      → length (with_sig s b).partial_sigs ≡ length s.partial_sigs + 1
  length-with_sig s b = length-append s.partial_sigs (b ∷ [])

  -- Once there are `t` signatures nothing more is sent.
  deliver_late :
      (ms : List (IncomingMessage (Msg PartialSignature))) (s : Signer I)
      → s.task.t ≤ length s.partial_sigs
      → (deliver s ms).sent ≡ s.sent
  unfolding deliver
  deliver_late [] s h = refl
  deliver_late (m ∷ ms) s h = elim (Bool-cases (m.message.sender == s.task.index)) [
    | inl e ↦ ap (λ r. (deliver r ms).sent) (handle_own m s e) ∙ deliver_late ms s h
    | inr e ↦
        let more = length-with_sig s m.message.body in
        ap (λ r. (deliver r ms).sent)
          (handle_foreign m s e
            ∙ finish_not_at (with_sig s m.message.body) (λ q. absurd (omega arith)))
        ∙ deliver_late ms (with_sig s m.message.body) (omega arith)
  ]

  result_of_few :
      (input : I) (task : Task) (sigs : List PartialSignature)
      → length sigs < task.t
      → result_of input task sigs ≡ []
  unfolding result_of
  result_of_few input task sigs h = ground arith

  result_of_enough :
      (input : I) (task : Task) (sigs more : List PartialSignature)
      → length sigs ≡ task.t
      → result_of input task (sigs ++ more) ≡ sent_result input (complete task sigs)
  unfolding result_of
  result_of_enough input task sigs more h =
      rw
        (
          holds_leb task.t (length (sigs ++ more)) (omega (arith, length-append sigs more)),
          sym h,
          take-append_length sigs more,
        )
        refl

  pub result_of_complete :
      (input : I) (task : Task) (sigs : List PartialSignature) (signature : SignatureRecid)
      → task.t ≤ length sigs
      → complete task (take task.t sigs) ≡ some signature
      → result_of input task sigs ≡ result (record { input = input; output = signature }) ∷ []
  unfolding result_of
  result_of_complete input task sigs signature enough completes =
      rw (holds_leb task.t (length sigs) enough, completes) refl

  -- The step that brings the last signature.
  deliver_last :
      (m : IncomingMessage (Msg PartialSignature))
      (ms : List (IncomingMessage (Msg PartialSignature))) (s : Signer I)
      → (m.message.sender == s.task.index) ≡ false
      → length (with_sig s m.message.body).partial_sigs ≡ s.task.t
      → (deliver (handle m s) ms).sent
        ≡ s.sent
          ++ result_of s.input s.task (s.partial_sigs ++ (m.message.body ∷ foreign s.task.index ms))
  deliver_last m ms s e last =
      let s' = with_sig s m.message.body in
      ap (λ r. (deliver r ms).sent) (handle_foreign m s e ∙ finish_at s' last)
      ∙ deliver_late ms
          (record s' { sent = s'.sent ++ sent_result s'.input (complete s'.task s'.partial_sigs) })
          (omega (arith, last))
      ∙ ap (λ l. s.sent ++ l)
          (sym (
            ap (result_of s.input s.task)
              (sym (append_assoc s.partial_sigs (m.message.body ∷ []) (foreign s.task.index ms)))
            ∙ result_of_enough s.input s.task s'.partial_sigs (foreign s.task.index ms) last))

  deliver_early :
      (ms : List (IncomingMessage (Msg PartialSignature))) (s : Signer I)
      → length s.partial_sigs < s.task.t
      → (deliver s ms).sent
        ≡ s.sent ++ result_of s.input s.task (s.partial_sigs ++ foreign s.task.index ms)
  unfolding deliver foreign
  deliver_early [] s h = sym (
      ap (λ l. s.sent ++ l)
        (ap (result_of s.input s.task) (append-nil s.partial_sigs)
          ∙ result_of_few s.input s.task s.partial_sigs h)
      ∙ append-nil s.sent)
  deliver_early (m ∷ ms) s h = elim (Bool-cases (m.message.sender == s.task.index)) [
    | inl e ↦ ap (λ r. (deliver r ms).sent) (handle_own m s e) ∙ rw e (deliver_early ms s h)
    | inr e ↦
        let s' = with_sig s m.message.body in
        let more = length-with_sig s m.message.body in
        rw e (elim (Bool-cases (length s'.partial_sigs == s.task.t)) [
          | inl q ↦ deliver_last m ms s e ((==_iff (length s'.partial_sigs) s.task.t).0 q)
          | inr q ↦
              let ne : length s'.partial_sigs ≢ s.task.t = λ p. ground arith in
              ap (λ r. (deliver r ms).sent) (handle_foreign m s e ∙ finish_not_at s' ne)
              ∙ deliver_early ms s' (omega (arith, more, h, ne))
              ∙ ap (λ l. s.sent ++ result_of s.input s.task l)
                  (append_assoc s.partial_sigs (m.message.body ∷ []) (foreign s.task.index ms))
        ])
  ]

  abbrev posted : Text → Option Text → List (Sent I)
  posted room none = []
  posted room (some message) = outgoing (record { room = room; message = message }) ∷ []

  -- What a signer has sent when it has started: the message with its own partial signature, where
  -- that can be made and written.
  unfoldable pub own_partial : Task → List (Sent I)
  own_partial task = elim (gg20.new_sign_manual task.message task.completed_offline_stage) [
    | none ↦ []
    | some (_, partial_sig) ↦
        posted task.room (gg20.partial_msg.write (sig_msg task.index partial_sig))
  ]

  broadcast_lem :
      (text : Option Text) (s : Signer I)
      → broadcast text s ≡ record s { sent = s.sent ++ posted s.task.room text }
  unfolding broadcast
  broadcast_lem none s = ap (λ l. record s { sent = l }) (sym (append-nil s.sent))
  broadcast_lem (some text) s = refl

  opened_lem :
      (o : Option (SignManual × PartialSignature)) (s : Signer I)
      → (elim o [
        | none ↦ s
        | some (_, partial_sig) ↦
            broadcast (gg20.partial_msg.write (sig_msg s.task.index partial_sig)) s
      ])
        ≡ record s {
          sent = s.sent ++ (elim o [
            | none ↦ []
            | some (_, partial_sig) ↦
                posted s.task.room (gg20.partial_msg.write (sig_msg s.task.index partial_sig))
          ]);
        }
  opened_lem none s = ap (λ l. record s { sent = l }) (sym (append-nil s.sent))
  opened_lem (some (_, partial_sig)) s =
      broadcast_lem (gg20.partial_msg.write (sig_msg s.task.index partial_sig)) s

  started_lem : (s : Signer I) → started s ≡ record s { sent = s.sent ++ own_partial s.task }
  unfolding started send_my_partial_signature own_partial
  started_lem s = opened_lem (gg20.new_sign_manual s.task.message s.task.completed_offline_stage) s

  -- A new signer that starts and is given the messages of its mailbox sends its own partial
  -- signature, where that can be made and written, and then one result, or none: the one that
  -- `complete` makes of the first `t` signatures of other senders, where there are so many; for a
  -- `t` above 0.
  pub sent-deliver :
      (input : I) (task : Task) (ms : List (IncomingMessage (Msg PartialSignature)))
      → 0 < task.t
      → (deliver (started (new input task)) ms).sent
        ≡ own_partial task ++ result_of input task (foreign task.index ms)
  unfolding new
  sent-deliver input task ms h =
      ap (λ s. (deliver s ms).sent) (started_lem (new input task))
      ∙ deliver_early ms (record (new input task) { sent = own_partial task }) h

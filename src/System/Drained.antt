-- ===== src/System/Drained.antt =====
-- Every request that was accepted is handled, after as many rounds as there is work.
use mpc_server.Common.{
  ℕ, zero, suc, ◌+◌, ◌≡◌, refl, sym, ap, ◌∙◌, true, subst, Option, none, some, List, [], ◌∷◌, ◌++◌,
  Outcome, panicked, failed, done, length, length-append, Option-cases, inl, inr, arith,
}
use mathlib.Core.List.{append-nil}
use mpc_server.Common.Fallible.{some-injective}
use mpc_server.Externals.{Externals, the_sled, the_crypto, the_gg20}
use mpc_server.External.Serde.{Serde}
use mpc_server.Coordinator.State.{Coordinator}
use mpc_server.Failure.{Failure}
use mpc_server.Messages.{CoordinatorMessage}
use mpc_server.Proto.{Request, CheckResultResponse}
use mpc_server.System.{
  System, handle, do_send, stop, receive_from, receive_request, after_message, take_from,
  take_message, save_from, save_response, call_keygen, call_sign,
}
use mpc_server.System.Runs.{
  Run, here, calls_keygen, calls_sign, receives, told, takes, saves, works, stops, pending,
}
use mpc_server.System.Order.{received_running, after_message-kept, requests_in_order}

module _ ⦃x : Externals⦄ ⦃serde : Serde CheckResultResponse⦄ where
  abbrev then : Option System → (System → Option System) → Option System
  then none f = none
  then (some s) f = f s

  -- In a round the loop of `bootstrap` has a turn, and then the coordinator.
  unfoldable pub rounds : ℕ → System → Option System
  rounds zero s = some s
  rounds (suc n) s = then (take_message (receive_request s)) (rounds n)

  -- What is still to be done: messages in the mailbox and requests in the queue.
  abbrev pub work : System → ℕ
  work s = length s.mailbox + length s.api.tx.queue

  after_message-left :
      (s t : System) (o : Outcome Coordinator Failure (Unit {0}))
      → after_message s o ≡ some t
      → (t.mailbox ≡ s.mailbox) × (t.api.tx.queue ≡ s.api.tx.queue) × (t.is_running ≡ s.is_running)
  after_message-left s t panicked e = absurd (cc e)
  after_message-left s t (failed f c) e = (
    ap (λ v. v.mailbox) (sym (some-injective e)),
    ap (λ v. v.api.tx.queue) (sym (some-injective e)),
    ap (λ v. v.is_running) (sym (some-injective e)),
  )
  after_message-left s t (done a c) e = (
    ap (λ v. v.mailbox) (sym (some-injective e)),
    ap (λ v. v.api.tx.queue) (sym (some-injective e)),
    ap (λ v. v.is_running) (sym (some-injective e)),
  )

  length-do_send :
      (s : System) (m : CoordinatorMessage)
      → s.is_running ≡ true
      → length (do_send s.is_running m s.mailbox) ≡ length s.mailbox + 1
  length-do_send s m on =
      ap (λ b. length (do_send b m s.mailbox)) on ∙ length-append s.mailbox (m ∷ [])

  -- A turn of the loop keeps the work that there is, and leaves a message where there is any.
  receive_work :
      (queue : List Request) (s : System)
      → s.is_running ≡ true
      → s.api.tx.queue ≡ queue
      → work (receive_from queue s) ≡ work s
  receive_work [] s on e = refl
  receive_work (r ∷ rest) s on e = omega (arith, length-do_send s (handle r).1 on, ap length e)

  receive_leaves :
      (queue : List Request) (s : System)
      → s.is_running ≡ true
      → s.api.tx.queue ≡ queue
      → (receive_from queue s).mailbox ≡ []
      → work s ≡ 0
  receive_leaves [] s on e empty = omega (arith, ap length e, ap length empty)
  receive_leaves (r ∷ rest) s on e empty =
      absurd (omega (arith, ap length empty, length-do_send s (handle r).1 on))

  module _ {start : System} {ins : List Request} where
    -- A round of a server that has work to do is two steps of its run, and there is less work.
    one_round :
        (ms : List CoordinatorMessage) (outs : List Request) (s t : System)
        → s.mailbox ≡ ms
        → Run start ins outs s
        → (s.mailbox ≡ [] → ⊥)
        → take_from ms s ≡ some t
        → (outs' : List Request) × Run start ins outs' t
          × (suc (work t) ≡ work s)
          × (t.is_running ≡ s.is_running)
    unfolding take_message
    one_round [] outs s t at run busy taken = absurd (busy at)
    one_round (m ∷ rest) outs s t at run busy taken =
        let (mailbox, queue, same) = after_message-left (record s { mailbox = rest }) t _ taken in
        (
          _,
          takes run m rest at (ap (λ ms. take_from ms s) at ∙ taken),
          omega (arith, ap length at, ap length mailbox, ap length queue),
          same,
        )

    all_rounds :
        (n : ℕ) (outs : List Request) (s t : System)
        → s.is_running ≡ true
        → Run start ins outs s
        → work s ≡ n
        → rounds n s ≡ some t
        → (outs' : List Request) × Run start ins outs' t × (work t ≡ 0) × (t.is_running ≡ true)
    unfolding rounds receive_request take_message
    all_rounds zero outs s t on run all h = (
      outs,
      subst (Run start ins outs) (some-injective h) run,
      ap work (sym (some-injective h)) ∙ all,
      ap (λ v. v.is_running) (sym (some-injective h)) ∙ on,
    )
    all_rounds (suc n) outs s t on run all h =
        let u = receive_request s in
        let same : work u ≡ work s = receive_work s.api.tx.queue s on refl in
        elim (Option-cases (take_message u)) [
          | inl panics ↦ absurd (cc (panics, h))
          | inr (v, taken) ↦
              let (outs', run', less, still) =
                one_round u.mailbox outs u v refl (receives run)
                  (λ empty.
                    absurd (omega (arith, all, receive_leaves s.api.tx.queue s on refl empty)))
                  taken in
              all_rounds n outs' v t (still ∙ received_running s.api.tx.queue s ∙ on) run'
                (omega (arith, less, same, all)) (ap (λ o. then o (rounds n)) (sym taken) ∙ h)
        ]

  length_zero : {A : Type 0} (l : List A) → length l ≡ 0 → l ≡ []
  length_zero [] h = refl
  length_zero (a ∷ l) h = absurd (omega (arith, h))

  pending_none : (t : System) → work t ≡ 0 → pending t ≡ []
  pending_none t h =
      rw (length_zero t.mailbox (omega (arith, h)), length_zero t.api.tx.queue (omega (arith, h)))
        refl

  saved_running :
      (queue : List CheckResultResponse) (s : System)
      → (save_from queue s).is_running ≡ s.is_running
  saved_running [] s = refl
  saved_running (r ∷ rest) s = refl

  -- A coordinator that runs has always run.
  Run-running :
      (s t : System) (ins outs : List Request)
      → Run s ins outs t
      → t.is_running ≡ true
      → s.is_running ≡ true
  unfolding receive_request take_message save_response call_keygen call_sign stop
  Run-running s t ins outs here on = on
  Run-running s t ins outs (calls_keygen {ins = calls} {t = u} run r) on =
      Run-running s u calls outs run on
  Run-running s t ins outs (calls_sign {ins = calls} {t = u} run r) on =
      Run-running s u calls outs run on
  Run-running s t ins outs (receives {t = u} run) on =
      Run-running s u ins outs run (sym (received_running u.api.tx.queue u) ∙ on)
  Run-running s t ins outs (told {t = u} run m other) on = Run-running s u ins outs run on
  Run-running s t ins outs (takes {outs = before} {t = u} run m rest at h) on =
      let (_, same) =
        after_message-kept (record u { mailbox = rest }) t _
          (ap (λ ms. take_from ms u) (sym at) ∙ h) in
      Run-running s u ins before run (sym same ∙ on)
  Run-running s t ins outs (saves {t = u} run) on =
      Run-running s u ins outs run (sym (saved_running u.api.tx_res.queue u) ∙ on)
  Run-running s t ins outs (works {t = u} run c) on = Run-running s u ins outs run on
  Run-running s t ins outs (stops run responses) on = absurd (cc on)

  -- A server that began with no request waiting has come to any state in which its coordinator
  -- still runs: after as many rounds as there are messages in the mailbox and requests in the
  -- queue, in none of which the coordinator panics, nothing waits any more, and the coordinator
  -- has handled exactly the requests whose calls were accepted, in the order of the calls.
  pub accepted_handled :
      (start s t : System) (ins outs : List Request)
      → pending start ≡ []
      → Run start ins outs s
      → s.is_running ≡ true
      → rounds (work s) s ≡ some t
      → Run start ins ins t × (work t ≡ 0)
  accepted_handled start s t ins outs begins run on h =
      let (outs', run', settled, still) = all_rounds (work s) outs s t on run refl h in
      elim (requests_in_order start t ins outs' (Run-running start s ins outs run on) begins run') [
        | inr (off, _, _, _) ↦ absurd (cc (still, off))
        | inl (_, waits) ↦
            let all : ins ≡ outs' =
              waits ∙ ap (λ l. outs' ++ l) (pending_none t settled) ∙ append-nil outs' in
            (subst (λ l. Run start ins l t) (sym all) run', settled)
      ]

-- ===== src/Player/Preserves.antt =====
-- What every message and every timer keeps of a player, by what each of its changes keeps.
use mpc_server.Common.{
  ℕ, ◌≡◌, Option, List, [], ◌∷◌, ◌++◌, Result, ok, err, Text, ◌==◌, Bool-cases, inl, inr, true,
}
use mpc_server.External.RoundBased.{Msg, StateMachine}
use mpc_server.Messages.{IncomingMessage}
use mpc_server.Player.{
  MpcPlayer, error, maybe_proceed_later, handle_incoming, proceed_if_needed, after_incoming,
  send_outgoing, finish_with, finish_if_possible, refresh_timer, after_proceed, maybe_proceed,
  report, handle, handle_maybe_proceed, is_round, valid_receiver,
}

-- What a player is given: a message or its timer, at a time.
pub data Event (M : Type 0) : Type 0 where
  message : ℕ → IncomingMessage (Msg M) → Event M
  timer : ℕ → Event M

module _ {I SM M E O : Type 0} (machine : StateMachine SM M E O) (write : Msg M → Option Text) where
  unfoldable pub step : Event M → MpcPlayer I SM M E O → MpcPlayer I SM M E O
  step (message now msg) p = handle machine write now msg p
  step (timer now) p = handle_maybe_proceed machine write now p

  unfoldable pub run : List (Event M) → MpcPlayer I SM M E O → MpcPlayer I SM M E O
  unfolding step
  run [] p = p
  run (e ∷ es) p = run es (step e p)

  -- Each change of a player keeps the predicate.
  pub record IsKept {ℓ} (P : MpcPlayer I SM M E O → Type ℓ) : Type ℓ where
    pub counts : (n : ℕ) (p : MpcPlayer I SM M E O) → P p → P (record p { msg_count = n })
    pub times :
        (round deadline : Option ℕ) (p : MpcPlayer I SM M E O)
        → P p
        → P (record p { current_round = round; deadline = deadline })
    pub errs :
        (e : E) (msg : IncomingMessage (Msg M)) (p : MpcPlayer I SM M E O)
        → P p
        → P (record p {
          sent = p.sent ++ (error (record { room = p.room; error = e; message = msg }) ∷ []);
        })
    pub waits :
        (p : MpcPlayer I SM M E O)
        → P p
        → P (record p { sent = p.sent ++ (maybe_proceed_later 250 ∷ []) })
    pub takes :
        (m : Msg M) (p : MpcPlayer I SM M E O)
        → P p
        → P (record p { state = (machine.handle_incoming p.state m).1 })
    pub proceeds :
        (p : MpcPlayer I SM M E O) → P p → P (record p { state = (machine.proceed p.state).1 })
    pub drains : (p : MpcPlayer I SM M E O) → P p → P (send_outgoing machine write p)
    pub finishes :
        (p : MpcPlayer I SM M E O)
        → P p
        → machine.is_finished p.state ≡ true
        → P (
            finish_with machine write
              (machine.pick_output p.state).0
              (record p { state = (machine.pick_output p.state).1 }))

  module _ {ℓ} (P : MpcPlayer I SM M E O → Type ℓ) (kept : IsKept P) where
    after_incoming_keeps :
        (r : Result E (Unit {0})) (msg : IncomingMessage (Msg M)) (p : MpcPlayer I SM M E O)
        → P p
        → P (after_incoming machine write r msg p)
    unfolding after_incoming
    after_incoming_keeps (ok _) msg p h = h
    after_incoming_keeps (err e) msg p h = kept.errs e msg p h

    incoming_keeps :
        (msg : IncomingMessage (Msg M)) (p : MpcPlayer I SM M E O)
        → P p
        → P (handle_incoming machine write msg p)
    unfolding handle_incoming
    incoming_keeps msg p h =
        after_incoming_keeps (machine.handle_incoming p.state msg.message).0 msg _
          (kept.takes msg.message p h)

    proceed_keeps : (p : MpcPlayer I SM M E O) → P p → P (proceed_if_needed machine write p).1
    unfolding proceed_if_needed
    proceed_keeps p h = elim (Bool-cases (machine.wants_to_proceed p.state)) [
      | inl e ↦ rw (e, proceed_if_needed) (kept.proceeds p h)
      | inr e ↦ rw (e, proceed_if_needed) h
    ]

    timer_keeps : (now : ℕ) (p : MpcPlayer I SM M E O) → P p → P (refresh_timer machine write now p)
    unfolding refresh_timer
    timer_keeps now p h =
        elim (Bool-cases (is_round p.current_round (machine.current_round p.state))) [
          | inl e ↦ rw (e, refresh_timer) h
          | inr e ↦ rw (e, refresh_timer) (kept.times _ _ p h)
        ]

    finish_keeps : (p : MpcPlayer I SM M E O) → P p → P (finish_if_possible machine write p)
    unfolding finish_if_possible
    finish_keeps p h = elim (Bool-cases (machine.is_finished p.state)) [
      | inl e ↦ rw (e, finish_if_possible) (kept.finishes p h e)
      | inr e ↦ rw (e, finish_if_possible) h
    ]

    after_proceed_keeps :
        (now : ℕ) (r : Result E (Unit {0})) (p : MpcPlayer I SM M E O)
        → P p
        → P (after_proceed machine write now r p).1
    unfolding after_proceed
    after_proceed_keeps now (err e) p h = h
    after_proceed_keeps now (ok _) p h = finish_keeps _ (timer_keeps now _ (kept.drains p h))

    maybe_proceed_keeps :
        (now : ℕ) (p : MpcPlayer I SM M E O) → P p → P (maybe_proceed machine write now p).1
    unfolding maybe_proceed
    maybe_proceed_keeps now p h =
        after_proceed_keeps now _ _ (proceed_keeps _ (timer_keeps now _ (kept.drains p h)))

    report_keeps :
        (r : Result E (Unit {0})) (msg : IncomingMessage (Msg M)) (p : MpcPlayer I SM M E O)
        → P p
        → P (report machine write (r, p) msg)
    unfolding report
    report_keeps (ok _) msg p h = h
    report_keeps (err e) msg p h = kept.errs e msg p h

    handle_keeps :
        (now : ℕ) (msg : IncomingMessage (Msg M)) (p : MpcPlayer I SM M E O)
        → P p
        → P (handle machine write now msg p)
    unfolding handle
    handle_keeps now msg p h = elim (Bool-cases (msg.message.sender == p.index)) [
      | inl e ↦ rw (e, handle) h
      | inr e ↦ elim (Bool-cases (valid_receiver msg.message.receiver p.index)) [
        | inr f ↦ rw (e, f, handle) h
        | inl f ↦
            rw (e, f, handle)
              (report_keeps _ msg _
                (maybe_proceed_keeps now _ (incoming_keeps msg _ (kept.counts _ p h))))
      ]
    ]

    handle_maybe_proceed_keeps :
        (now : ℕ) (p : MpcPlayer I SM M E O) → P p → P (handle_maybe_proceed machine write now p)
    unfolding handle_maybe_proceed
    handle_maybe_proceed_keeps now p h = elim (Bool-cases (p.msg_count == 0)) [
      | inl e ↦ rw (e, handle_maybe_proceed) (kept.waits _ (maybe_proceed_keeps now p h))
      | inr e ↦ rw (e, handle_maybe_proceed) h
    ]

    step_keeps : (e : Event M) (p : MpcPlayer I SM M E O) → P p → P (step e p)
    unfolding step
    step_keeps (message now msg) p h = handle_keeps now msg p h
    step_keeps (timer now) p h = handle_maybe_proceed_keeps now p h

    pub run_keeps : (es : List (Event M)) (p : MpcPlayer I SM M E O) → P p → P (run es p)
    unfolding run
    run_keeps [] p h = h
    run_keeps (e ∷ es) p h = run_keeps es (step e p) (step_keeps e p h)

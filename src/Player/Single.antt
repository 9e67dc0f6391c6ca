-- ===== src/Player/Single.antt =====
-- A player has one result.
use mpc_server.Common.{
  ℕ, ◌≡◌, ◌≤◌, ◌⊎◌, inl, inr, refl, ap, ◌∙◌, Option, none, some, List, [], ◌∷◌, ◌++◌, Result, ok,
  err, Text, false, true, length, arith, Option-cases,
}
use mathlib.Core.List.{append-nil}
use mpc_server.External.RoundBased.{Msg, StateMachine}
use mpc_server.Player.{
  Sent, MpcPlayer, error, outgoing, result, maybe_proceed_later, outgoings, send_outgoing,
  finish_with, new,
}
use mpc_server.Player.Preserves.{Event, IsKept, run, run_keeps}

-- The outputs among what a player has sent.
unfoldable pub outputs : {I M E O : Type 0} → List (Sent I M E O) → List O
outputs [] = []
outputs (result r ∷ es) = r.output ∷ outputs es
outputs (error _ ∷ es) = outputs es
outputs (outgoing _ ∷ es) = outputs es
outputs (maybe_proceed_later _ ∷ es) = outputs es

outputs-append :
    {I M E O : Type 0} (es fs : List (Sent I M E O)) → outputs (es ++ fs) ≡ outputs es ++ outputs fs
unfolding outputs
outputs-append [] fs = refl
outputs-append (result r ∷ es) fs = ap (λ l. r.output ∷ l) (outputs-append es fs)
outputs-append (error _ ∷ es) fs = outputs-append es fs
outputs-append (outgoing _ ∷ es) fs = outputs-append es fs
outputs-append (maybe_proceed_later _ ∷ es) fs = outputs-append es fs

-- round_based: the output of a machine is taken out once. After that the machine is spent, it
-- stays so, and it is not in a state in which there is an output to pick.
pub record IsSingleUse {SM M E O : Type 0} (machine : StateMachine SM M E O) : Type 1 where
  pub Spent : SM → Type 0
  pub picked :
      (s : SM) (o : O) → (machine.pick_output s).0 ≡ some (ok o) → Spent (machine.pick_output s).1
  pub over : (s : SM) → Spent s → machine.is_finished s ≡ false
  pub takes : (s : SM) (m : Msg M) → Spent s → Spent (machine.handle_incoming s m).1
  pub proceeds : (s : SM) → Spent s → Spent (machine.proceed s).1
  pub drains : (s : SM) → Spent s → Spent (machine.drained s)

module _ {I SM M E O : Type 0} (machine : StateMachine SM M E O) (write : Msg M → Option Text)
    (once : IsSingleUse machine) where
  -- The player has sent no output, or one and its machine is spent.
  abbrev pub IsSingle : MpcPlayer I SM M E O → Type 0
  IsSingle p = (outputs p.sent ≡ []) ⊎ ((o : O) × (outputs p.sent ≡ o ∷ []) × once.Spent p.state)

  outputs-outgoings :
      (p : MpcPlayer I SM M E O) (ms : List (Msg M))
      → outputs (outgoings {I = I} machine write p.room ms) ≡ []
  unfolding outgoings outputs
  outputs-outgoings p [] = refl
  outputs-outgoings p (m ∷ ms) = elim (Option-cases (write m)) [
    | inl e ↦ rw (e, outgoings) (outputs-outgoings p ms)
    | inr (t, e) ↦ rw (e, outgoings) (outputs-outgoings p ms)
  ]

  -- More that has no output changes nothing, if a spent machine stays so.
  IsSingle-quiet :
      (p : MpcPlayer I SM M E O) (more : List (Sent I M E O)) (state : SM)
      → outputs more ≡ []
      → (once.Spent p.state → once.Spent state)
      → IsSingle p
      → IsSingle (record p { sent = p.sent ++ more; state = state })
  IsSingle-quiet p more state quiet stays single =
      let same : outputs (p.sent ++ more) ≡ outputs p.sent =
        outputs-append p.sent more
        ∙ ap (λ l. outputs p.sent ++ l) quiet
        ∙ append-nil (outputs p.sent) in
      elim single [
        | inl none_yet ↦ inl (same ∙ none_yet)
        | inr (o, one, spent) ↦ inr (o, same ∙ one, stays spent)
      ]

  IsSingle-state :
      (p : MpcPlayer I SM M E O) (state : SM)
      → (once.Spent p.state → once.Spent state)
      → IsSingle p
      → IsSingle (record p { state = state })
  IsSingle-state p state stays (inl e) = inl e
  IsSingle-state p state stays (inr (o, e, spent)) = inr (o, e, stays spent)

  finish_with-IsSingle :
      (r : Option (Result E O)) (p : MpcPlayer I SM M E O)
      → outputs p.sent ≡ []
      → ((o : O) → r ≡ some (ok o) → once.Spent p.state)
      → IsSingle (finish_with machine write r p)
  unfolding finish_with outputs
  finish_with-IsSingle none p e spent = inl e
  finish_with-IsSingle (some (err _)) p e spent = inl e
  finish_with-IsSingle (some (ok o)) p e spent =
      inr (o, outputs-append p.sent _ ∙ ap (λ l. l ++ (o ∷ [])) e, spent o refl)

  finish-IsSingle :
      (p : MpcPlayer I SM M E O)
      → IsSingle p
      → machine.is_finished p.state ≡ true
      → IsSingle (
          finish_with machine write
            (machine.pick_output p.state).0
            (record p { state = (machine.pick_output p.state).1 }))
  finish-IsSingle p (inl e) finished =
      finish_with-IsSingle _ (record p { state = (machine.pick_output p.state).1 }) e
        (once.picked p.state)
  finish-IsSingle p (inr (o, e, spent)) finished = absurd (cc (once.over p.state spent, finished))

  IsSingle-IsKept : IsKept machine write IsSingle
  unfolding send_outgoing outputs
  IsSingle-IsKept = record {
    counts = λ n p h. h;
    times = λ round deadline p h. h;
    errs = λ e msg p h. IsSingle-quiet p (error _ ∷ []) p.state refl (λ s. s) h;
    waits = λ p h. IsSingle-quiet p (maybe_proceed_later 250 ∷ []) p.state refl (λ s. s) h;
    takes = λ m p h. IsSingle-state p _ (once.takes p.state m) h;
    proceeds = λ p h. IsSingle-state p _ (once.proceeds p.state) h;
    drains = λ p h.
        IsSingle-quiet p _ (machine.drained p.state) (outputs-outgoings p _) (once.drains p.state)
          h;
    finishes = finish-IsSingle;
  }

  -- A new player whose machine gives its output once, whatever messages and timers it is given:
  -- it sends the coordinator at most one result.
  pub outputs-run :
      (es : List (Event M)) (input : I) (room : Text) (index : ℕ) (state : SM)
      → length (outputs (run machine write es (new input room index state)).sent) ≤ 1
  unfolding new outputs
  outputs-run es input room index state =
      elim (run_keeps machine write IsSingle IsSingle-IsKept es (new input room index state)
        (inl refl)) [ inl e ↦ rw e (omega arith) | inr (o, e, spent) ↦ rw e (omega arith) ]

-- ===== src/Coordinator/Held.antt =====
-- What becomes of a message that does not pass the check.
use mpc_server.Common.{
  ◌≡◌, ◌⊎◌, inl, inr, refl, ap, ◌∙◌, false, List, [], ◌∷◌, ◌++◌, All, Bool-cases, ltb, Outcome,
  panicked, failed, done, slice, contains, ok, err,
}
use mathlib.Core.List.{append_assoc}
use mpc_server.Externals.{Externals, the_sled, the_crypto, the_groups}
use mpc_server.Failure.{external}
use mpc_server.Messages.{RetryMessage, retry as retry_message}
use mpc_server.Prom.{messages_total_received, messages_dropped}
use mpc_server.Proto.{WireMessage}
use mpc_server.Coordinator.State.{
  Coordinator, CoordinatorError, Effect, unknown_group, invalid_room, wrong_public_key,
  wrong_public_keys, wrong_number_of_participants, not_for_me, invalid_payload, after_effect,
  counts, schedules,
}
use mpc_server.Coordinator.Retry.{retry}
use mpc_server.Coordinator.Routing.{retried, retry_lem}
use mpc_server.Coordinator.Incoming.{
  valid_sender_and_receiver, handle_incoming, handle_checked, handle_retry, handle_prechecked,
  precheck_message,
}
use mpc_server.Coordinator.Acceptance.{IsAccepted, valid_sender_and_receiver_iff}
use mpc_server.Coordinator.Handlers.{valid_sender_and_receiver_same}
use mpc_server.Coordinator.Preserves.{OnAny, or_panic-OnAny}
use mpc_server.Coordinator.Dispatch.{handle_stream, handle_coordinator_message}

module _ ⦃x : Externals⦄ where
  -- It reaches no actor: a counter, or a timer for a message that is to be checked.
  abbrev pub IsHarmless : Effect → Type 0
  IsHarmless (counts _) = Unit
  IsHarmless (schedules _ m) = m.check_passed ≡ false
  IsHarmless _ = ⊥

  -- More such effects, and nothing else.
  pub record IsHeld (s t : Coordinator) : Type 0 where
    pub more : List Effect
    pub harmless : All IsHarmless more
    pub only : t ≡ record s { effects = s.effects ++ more }

  IsHeld-one : (s : Coordinator) (e : Effect) → IsHarmless e → IsHeld s (after_effect e s)
  IsHeld-one s e h = record { more = e ∷ []; harmless = (h, tt); only = refl }

  IsHeld-after :
      (s t : Coordinator) (e : Effect) → IsHarmless e → IsHeld (after_effect e s) t → IsHeld s t
  IsHeld-after s t e h held = record {
    more = e ∷ held.more;
    harmless = (h, held.harmless);
    only =
        held.only
        ∙ ap (λ es. record s { effects = es }) (append_assoc s.effects (e ∷ []) held.more);
  }

  retried-IsHarmless : (m : RetryMessage) → m.check_passed ≡ false → IsHarmless (retried m)
  unfolding retried
  retried-IsHarmless m h = elim (Bool-cases (ltb 33 m.attempts)) [
    | inl e ↦ rw (e, retried) tt
    | inr e ↦ rw (e, retried) h
  ]

  retry-IsHeld :
      (E : Type 0) (m : RetryMessage) (s : Coordinator)
      → m.check_passed ≡ false
      → OnAny (IsHeld s) (retry {E = E} m s)
  retry-IsHeld E m s h =
      rw (retry_lem {E = E} m s) (IsHeld-one s (retried m) (retried-IsHarmless m h))

  handle_checked-IsHeld :
      (E : Type 0) (msg : WireMessage) (e : CoordinatorError) (s : Coordinator)
      → OnAny (IsHeld s) (handle_checked {E = E} msg (err e) s)
  unfolding handle_checked
  handle_checked-IsHeld E msg not_for_me s = IsHeld-one s (counts messages_dropped) tt
  handle_checked-IsHeld E msg unknown_group s = retry-IsHeld E _ s refl
  handle_checked-IsHeld E msg invalid_room s = retry-IsHeld E _ s refl
  handle_checked-IsHeld E msg wrong_public_key s = retry-IsHeld E _ s refl
  handle_checked-IsHeld E msg wrong_public_keys s = retry-IsHeld E _ s refl
  handle_checked-IsHeld E msg wrong_number_of_participants s = retry-IsHeld E _ s refl
  handle_checked-IsHeld E msg invalid_payload s = retry-IsHeld E _ s refl

  not_done :
      {E : Type 0} (o : Outcome Coordinator E (Unit {0})) (s : Coordinator)
      → OnAny (λ t. t ≡ s) o
      → (o ≡ done tt s → ⊥)
      → (o ≡ panicked) ⊎ ((e : E) × (o ≡ failed e s))
  not_done panicked s h other = inl refl
  not_done (failed e t) s h other = inr (e, ap (failed e) h)
  not_done (done a t) s h other = absurd (other (ap (done tt) h))

  -- The check of a message that is not accepted fails, or panics, and changes nothing.
  rejected :
      (msg : WireMessage) (s : Coordinator)
      → ¬ IsAccepted s.db msg
      → (valid_sender_and_receiver msg s ≡ panicked)
        ⊎ ((e : CoordinatorError) × (valid_sender_and_receiver msg s ≡ failed e s))
  rejected msg s refused =
      not_done (valid_sender_and_receiver msg s) s (valid_sender_and_receiver_same msg s)
        (λ h. refused ((valid_sender_and_receiver_iff msg s).0 h))

  after-IsHeld :
      {E : Type 0} (e : Effect)
      → IsHarmless e
      → (s : Coordinator) (o : Outcome Coordinator E (Unit {0}))
      → OnAny (IsHeld (after_effect e s)) o
      → OnAny (IsHeld s) o
  after-IsHeld e h s panicked held = tt
  after-IsHeld e h s (failed f t) held = IsHeld-after s t e h held
  after-IsHeld e h s (done a t) held = IsHeld-after s t e h held

  handle_incoming-IsHeld :
      (E : Type 0) (msg : WireMessage) (s : Coordinator)
      → ¬ IsAccepted s.db msg
      → OnAny (IsHeld s) (handle_incoming {E = E} msg s)
  unfolding handle_incoming
  handle_incoming-IsHeld E msg s refused =
      let t = after_effect (counts messages_total_received) s in
      or_panic-OnAny (IsHeld s) (slice s.pk_str 2 10) _ t λ part.
        elim (Bool-cases (contains msg.room part)) [
          | inr e ↦ rw e (
              IsHeld-after s _ (counts messages_total_received) tt
                (IsHeld-one t (counts messages_dropped) tt))
          | inl e ↦ rw e (elim (rejected msg t refused) [
            | inl p ↦ rw p tt
            | inr (f, p) ↦ rw p (
                after-IsHeld (counts messages_total_received) tt s _
                  (handle_checked-IsHeld E msg f t))
          ])
        ]

  precheck_rejected :
      (msg : WireMessage) (s : Coordinator)
      → ¬ IsAccepted s.db msg
      → (precheck_message msg s ≡ panicked) ⊎ (precheck_message msg s ≡ failed external s)
  unfolding precheck_message
  precheck_rejected msg s refused = elim (rejected msg s refused) [
    | inl p ↦ inl (rw p refl)
    | inr (f, p) ↦ inr (rw p refl)
  ]

  handle_retry-IsHeld :
      (E : Type 0) (m : RetryMessage) (s : Coordinator)
      → ¬ IsAccepted s.db m.message
      → OnAny (IsHeld s) (handle_retry {E = E} m s)
  unfolding handle_retry handle_prechecked
  handle_retry-IsHeld E m s refused = elim (precheck_rejected m.message s refused) [
    | inl p ↦ rw p tt
    | inr p ↦ rw p (retry-IsHeld E _ s refl)
  ]

  -- A message that is not accepted (its room names no stored group, its sender's key is not in the
  -- group, it does not read, or it is for another party) comes in, or comes back from a timer for a
  -- message that is to be checked. Unless the coordinator panics, nothing reaches an actor: all that
  -- changes is that counters are raised and timers are set, for messages that are to be checked.
  pub unaccepted-IsHeld :
      (E : Type 0) (m : RetryMessage) (s : Coordinator)
      → ¬ IsAccepted s.db m.message
      → m.check_passed ≡ false
      → OnAny (IsHeld s) (handle_stream {E = E} (ok m.message) s)
        × OnAny (IsHeld s) (handle_coordinator_message {E = E} (retry_message m) s)
  unfolding handle_stream handle_coordinator_message
  unaccepted-IsHeld E m s refused unchecked = (
    handle_incoming-IsHeld E m.message s refused,
    simp unchecked (handle_retry-IsHeld E m s refused),
  )

-- ===== src/Coordinator/Handlers.antt =====
-- The handlers of incoming messages, requests, outputs and errors keep the coordinator sound.
use mpc_server.Common.{
  ℕ, ◌≡◌, refl, sym, subst, Option, none, some, Result, ok, err, ok_or, map_err, slice, contains,
  ◌==◌, Bool-cases, inl, inr,
}
use mpc_server.Cipher.{maybe_decrypt}
use mpc_server.Externals.{
  Externals, the_sled, the_crypto, the_gg20, the_raw, the_generic, the_sealed, the_groups,
  the_shares,
}
use mpc_server.Failure.{Failure, external}
use mpc_server.Group.{PublicKeyGroup, get_index, get_i}
use mpc_server.Messages.{RetryMessage}
use mpc_server.Prom.{messages_dropped, messages_total_received}
use mpc_server.Proto.{WireMessage}
use mpc_server.Room.{extract_group_id}
use mpc_server.Storage.GroupStore.{retrieve_group}
use mpc_server.Coordinator.State.{
  Coordinator, CoordinatorError, unknown_group, invalid_room, wrong_public_key, wrong_public_keys,
  wrong_number_of_participants, not_for_me, invalid_payload, after_effect, counts,
}
use mpc_server.Coordinator.Incoming.{
  check_receiver, valid_sender_and_receiver, handle_decrypted, handle_checked, handle_incoming,
  precheck_message, handle_prechecked, handle_retry,
}
use mpc_server.Coordinator.Actors.{IsSound}
use mpc_server.Coordinator.Logged.{quiet-IsSound}
use mpc_server.Coordinator.Preserves.{
  OnAny, lift-OnAny, or_panic-OnAny, attempt-OnAny, last-OnAny, retry-IsSound,
  handle_incoming_unsafe-IsSound,
}

module _ ⦃x : Externals⦄ where
  pub counts-IsSound : (s : Coordinator) (c : _) → IsSound s → IsSound (after_effect (counts c) s)
  counts-IsSound s c h = quiet-IsSound s (counts c) h (refl, λ a q. absurd (cc q))

  check_receiver_same :
      (g : PublicKeyGroup) (o : Option ℕ) (s : Coordinator)
      → OnAny (λ t. t ≡ s) (check_receiver g o s)
  unfolding check_receiver
  check_receiver_same g none s = refl
  check_receiver_same g (some receiver) s =
      or_panic-OnAny (λ t. t ≡ s) (get_i g) _ s
        λ i. elim (Bool-cases (receiver == i)) [ inl e ↦ rw e refl | inr e ↦ rw e refl ]

  -- The check changes nothing, whether it passes or not.
  pub valid_sender_and_receiver_same :
      (msg : WireMessage) (s : Coordinator) → OnAny (λ t. t ≡ s) (valid_sender_and_receiver msg s)
  unfolding valid_sender_and_receiver
  valid_sender_and_receiver_same msg s =
      let same = λ (t : Coordinator). t ≡ s in
      lift-OnAny same (map_err (extract_group_id msg.room) invalid_room) _ s refl λ id.
        lift-OnAny same (map_err (retrieve_group s.db id) unknown_group) _ s refl λ g.
          lift-OnAny same (ok_or (get_index g msg.sender_public_key) wrong_public_key) _ s refl λ i.
            lift-OnAny same (ok_or (x.generic.read msg.payload) invalid_payload) _ s refl
              λ m. check_receiver_same g m.receiver s

  module _ (E : Type 0) where
    handle_decrypted-IsSound :
        (r : Result Failure WireMessage) (s : Coordinator)
        → IsSound s
        → OnAny IsSound (handle_decrypted {E = E} r s)
    unfolding handle_decrypted
    handle_decrypted-IsSound (err e) s h = h
    handle_decrypted-IsSound (ok m) s h = handle_incoming_unsafe-IsSound E m s.clock 0 s h

    handle_checked-IsSound :
        (msg : WireMessage) (r : Result CoordinatorError (Unit {0})) (s : Coordinator)
        → IsSound s
        → OnAny IsSound (handle_checked {E = E} msg r s)
    unfolding handle_checked
    handle_checked-IsSound msg (ok u) s h = handle_decrypted-IsSound (maybe_decrypt s.sk msg) s h
    handle_checked-IsSound msg (err not_for_me) s h = counts-IsSound s messages_dropped h
    handle_checked-IsSound msg (err unknown_group) s h = retry-IsSound E _ s h
    handle_checked-IsSound msg (err invalid_room) s h = retry-IsSound E _ s h
    handle_checked-IsSound msg (err wrong_public_key) s h = retry-IsSound E _ s h
    handle_checked-IsSound msg (err wrong_public_keys) s h = retry-IsSound E _ s h
    handle_checked-IsSound msg (err wrong_number_of_participants) s h = retry-IsSound E _ s h
    handle_checked-IsSound msg (err invalid_payload) s h = retry-IsSound E _ s h

    pub handle_incoming-IsSound :
        (msg : WireMessage) (s : Coordinator)
        → IsSound s
        → OnAny IsSound (handle_incoming {E = E} msg s)
    unfolding handle_incoming
    handle_incoming-IsSound msg s h =
        let t = after_effect (counts messages_total_received) s in
        let h' = counts-IsSound s messages_total_received h in
        or_panic-OnAny IsSound (slice s.pk_str 2 10) _ t λ part.
          elim (Bool-cases (contains msg.room part)) [
            | inr e ↦ rw e (counts-IsSound t messages_dropped h')
            | inl e ↦ rw e (
                attempt-OnAny IsSound (λ u. u ≡ t) (valid_sender_and_receiver msg t) _
                  (valid_sender_and_receiver_same msg t)
                  λ r u q. handle_checked-IsSound msg r u (subst IsSound (sym q) h'))
          ]

    precheck_message_same :
        (msg : WireMessage) (s : Coordinator) → OnAny (λ t. t ≡ s) (precheck_message msg s)
    unfolding precheck_message
    precheck_message_same msg s =
        attempt-OnAny (λ t. t ≡ s) (λ t. t ≡ s) (valid_sender_and_receiver msg s) _
          (valid_sender_and_receiver_same msg s)
          λ r t q.
            lift-OnAny (λ t. t ≡ s) (map_err r external) _ t q
              λ u. last-OnAny (λ t. t ≡ s) (maybe_decrypt t.sk msg) t q

    handle_prechecked-IsSound :
        (msg : RetryMessage) (r : Result Failure WireMessage) (s : Coordinator)
        → IsSound s
        → OnAny IsSound (handle_prechecked {E = E} msg r s)
    unfolding handle_prechecked
    handle_prechecked-IsSound msg (ok m) s h =
        handle_incoming_unsafe-IsSound E m msg.initial_timestamp msg.attempts s h
    handle_prechecked-IsSound msg (err e) s h = retry-IsSound E _ s h

    pub handle_retry-IsSound :
        (msg : RetryMessage) (s : Coordinator)
        → IsSound s
        → OnAny IsSound (handle_retry {E = E} msg s)
    unfolding handle_retry
    handle_retry-IsSound msg s h =
        attempt-OnAny IsSound (λ t. t ≡ s) (precheck_message msg.message s) _
          (precheck_message_same msg.message s)
          λ r t q. handle_prechecked-IsSound msg r t (subst IsSound (sym q) h)

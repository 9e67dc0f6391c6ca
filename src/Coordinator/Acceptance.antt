-- ===== src/Coordinator/Acceptance.antt =====
-- Which incoming messages pass `valid_sender_and_receiver`.
use mpc_server.Common.{
  ℕ, ◌≡◌, ◌↔◌, refl, sym, ap, ◌∙◌, true, false, [], ◌∷◌, Option, none, some, Result, ok, err, ok_or,
  map_err, Text, failed, done, Option-cases, Bool-cases, inl, inr, ◌==◌, ==_iff, if◌then◌else◌,
  slice, contains, ◌%◌, ◌+◌, Exec,
}
use mpc_server.Common.Handler.{◌>>=◌, lift, pure}
use mpc_server.Externals.{Externals, the_sled, the_groups}
use mpc_server.Group.{PublicKeyGroup, get_index, get_i}
use mpc_server.Messages.{GenericProtocolMessage, RetryMessage}
use mpc_server.Prom.{messages_total_received, messages_dropped}
use mpc_server.Proto.{WireMessage}
use mpc_server.Room.{extract_group_id}
use mpc_server.Storage.GroupStore.{retrieve_group}
use mpc_server.Coordinator.State.{
  Coordinator, CoordinatorError, unknown_group, invalid_room, wrong_public_key, not_for_me,
  invalid_payload, counts,
}
use mpc_server.Coordinator.Routing.{retried, with_effects, retry_lem}
use mpc_server.Coordinator.Incoming.{
  valid_sender_and_receiver, check_receiver, handle_incoming, handle_checked, handle_retry,
  handle_prechecked, precheck_message,
}

module _ ⦃x : Externals⦄ where
  -- The message names no receiver, or this party's index in the group.
  abbrev pub IsForUs : PublicKeyGroup → Option ℕ → Type 0
  IsForUs g none = Unit
  IsForUs g (some receiver) = get_i g ≡ some receiver

  -- The room of the message names a group that is stored, the sender's key is in it, the payload is
  -- a protocol message, and it is for everybody or for this party.
  pub record IsAccepted (db : x.sled.Db) (msg : WireMessage) : Type 0 where
    pub group_id : Text
    pub group : PublicKeyGroup
    pub sender_index : ℕ
    pub generic : GenericProtocolMessage
    pub room_names : extract_group_id msg.room ≡ ok group_id
    pub stored : retrieve_group db group_id ≡ ok group
    pub member : get_index group msg.sender_public_key ≡ some sender_index
    pub payload_reads : x.generic.read msg.payload ≡ some generic
    pub for_us : IsForUs group generic.receiver

  check_receiver_lem :
      (g : PublicKeyGroup) (o : Option ℕ) (s : Coordinator)
      → IsForUs g o
      → check_receiver g o s ≡ done tt s
  unfolding check_receiver
  check_receiver_lem g none s h = refl
  check_receiver_lem g (some receiver) s h = rw h (rw ((==_iff receiver receiver).1 refl))

  pub IsAccepted-valid :
      (msg : WireMessage) (s : Coordinator)
      → IsAccepted s.db msg
      → valid_sender_and_receiver msg s ≡ done tt s
  unfolding valid_sender_and_receiver
  IsAccepted-valid msg s a =
      rw (a.room_names, a.stored, a.member, a.payload_reads)
        (check_receiver_lem a.group a.generic.receiver s a.for_us)

  same_receiver :
      (receiver i : ℕ) (s s' : Coordinator)
      → (if receiver == i then pure {E = CoordinatorError} tt else lift (err not_for_me)) s
        ≡ done tt s'
      → i ≡ receiver
  same_receiver receiver i s s' h = elim (Bool-cases (receiver == i)) [
    | inl e ↦ sym ((==_iff receiver i).0 e)
    | inr e ↦ absurd (cc (rw e at h))
  ]

  check_receiver-IsForUs :
      (g : PublicKeyGroup) (o : Option ℕ) (s s' : Coordinator)
      → check_receiver g o s ≡ done tt s'
      → IsForUs g o
  unfolding check_receiver
  check_receiver-IsForUs g none s s' h = tt
  check_receiver-IsForUs g (some receiver) s s' h = elim (Option-cases (get_i g)) [
    | inl e ↦ absurd (cc (rw e at h))
    | inr (i, e) ↦ e ∙ ap some (same_receiver receiver i s s' (rw e at h))
  ]

  -- The inverse of a `?` in a call that returned.
  lift_bind :
      {F E A B P : Type 0} (r : Result F A) (e : E) (f : A → Exec Coordinator E B) (b : B)
      (s s' : Coordinator)
      → (lift (map_err r e) >>= f) s ≡ done b s'
      → ((a : A) → r ≡ ok a → f a s ≡ done b s' → P)
      → P
  lift_bind (err x) e f b s s' h k = absurd (cc h)
  lift_bind (ok a) e f b s s' h k = k a refl h

  lift_or_bind :
      {E A B P : Type 0} (o : Option A) (e : E) (f : A → Exec Coordinator E B) (b : B)
      (s s' : Coordinator)
      → (lift (ok_or o e) >>= f) s ≡ done b s'
      → ((a : A) → o ≡ some a → f a s ≡ done b s' → P)
      → P
  lift_or_bind none e f b s s' h k = absurd (cc h)
  lift_or_bind (some a) e f b s s' h k = k a refl h

  valid-IsAccepted :
      (msg : WireMessage) (s s' : Coordinator)
      → valid_sender_and_receiver msg s ≡ done tt s'
      → IsAccepted s.db msg
  unfolding valid_sender_and_receiver
  valid-IsAccepted msg s s' h =
      lift_bind (extract_group_id msg.room) invalid_room _ tt s s' h λ id e1 h1.
        lift_bind (retrieve_group s.db id) unknown_group _ tt s s' h1 λ g e2 h2.
          lift_or_bind (get_index g msg.sender_public_key) wrong_public_key _ tt s s' h2 λ i e3 h3.
            lift_or_bind (x.generic.read msg.payload) invalid_payload _ tt s s' h3 λ m e4 h4.
              record {
                group_id = id;
                group = g;
                sender_index = i;
                generic = m;
                room_names = e1;
                stored = e2;
                member = e3;
                payload_reads = e4;
                for_us = check_receiver-IsForUs g m.receiver s s' h4;
              }

  -- The check passes exactly on the messages whose room names a stored group, whose sender's key
  -- is in that group, whose payload reads, and which are for everybody or for this party's index
  -- in the group; it changes nothing then.
  pub valid_sender_and_receiver_iff :
      (msg : WireMessage) (s : Coordinator)
      → (valid_sender_and_receiver msg s ≡ done tt s) ↔ IsAccepted s.db msg
  valid_sender_and_receiver_iff msg s = (valid-IsAccepted msg s s, IsAccepted-valid msg s)

  -- A message for another party is dropped when it comes in, and is scheduled once more when
  -- it comes back from a timer, with one more attempt.
  pub not_for_me_retried :
      {E : Type 0} (m : RetryMessage) (s : Coordinator) (part : Text)
      → slice s.pk_str 2 10 ≡ some part
      → contains m.message.room part ≡ true
      → ((t : Coordinator)
          → t.db ≡ s.db
          → valid_sender_and_receiver m.message t ≡ failed not_for_me t)
      → (handle_incoming {E = E} m.message s
          ≡ done tt (
              with_effects
                (with_effects s (counts messages_total_received ∷ []))
                (counts messages_dropped ∷ [])))
        × (handle_retry {E = E} m s
            ≡ done tt (
                with_effects s (
                  retried (record m { attempts = (m.attempts + 1) % 65536; check_passed = false })
                  ∷ [])))
  unfolding handle_incoming handle_checked handle_retry handle_prechecked precheck_message
  not_for_me_retried {E} m s part own in_room other =
      let s1 = with_effects s (counts messages_total_received ∷ []) in
      (
        rw (own, in_room, other s1 refl),
        rw (other s refl)
            (retry_lem (record m { attempts = (m.attempts + 1) % 65536; check_passed = false }) s),
      )

-- ===== src/Coordinator/Reach.antt =====
-- The coordinator from its creation on: what may happen to it, and that it stays sound.
use mpc_server.Common.{
  ℕ, ◌≡◌, refl, sym, subst, Result, ok, err, lookup, Outcome, panicked, failed, done, Bool-cases,
  inl, inr,
}
use mpc_server.Cipher.{maybe_encrypt}
use mpc_server.External.RoundBased.{Msg}
use mpc_server.Externals.{
  Externals, the_sled, the_crypto, the_gg20, the_raw, the_generic, the_sealed, the_groups,
  the_shares,
}
use mpc_server.Failure.{Failure}
use mpc_server.Messages
use mpc_server.Messages.{
  CoordinatorMessage, ProtocolOutput, ProtocolError, IncomingMessage, EnrichedSignRequest,
  RetryMessage, SignTask,
}
use mpc_server.Proto.{WireMessage, KeygenRequest, CoreMessage}
use mpc_server.Coordinator.State.{Coordinator, sends_out, new}
use mpc_server.Coordinator.Requests.{handle_keygen_request, handle_sign_request}
use mpc_server.Coordinator.Outputs.{
  handle_keygen_error, handle_offline_error, handle_keygen_output, handle_offline_output,
  handle_sign_output,
}
use mpc_server.Coordinator.Dispatch.{handle_coordinator_message, handle_stream, send_encrypted}
use mpc_server.Coordinator.Actors.{IsSound}
use mpc_server.Coordinator.Logged.{quiet-IsSound, rest-IsSound}
use mpc_server.Coordinator.Preserves.{OnAny, attempt-OnAny, handle_incoming_unsafe-IsSound}
use mpc_server.Coordinator.Requested.{
  handle_keygen_request-IsSound, handle_sign_request-IsSound, handle_keygen_error-IsSound,
  handle_offline_error-IsSound, handle_keygen_output-IsSound, handle_offline_output-IsSound,
  handle_sign_output-IsSound,
}
use mpc_server.Coordinator.Handlers.{handle_incoming-IsSound, handle_retry-IsSound}

module _ ⦃x : Externals⦄ where
  -- The coordinator that a handler leaves, by an error or not.
  abbrev pub IsAfter : {E A : Type 0} → Coordinator → Outcome Coordinator E A → Type 0
  IsAfter t panicked = ⊥
  IsAfter t (failed e s) = s ≡ t
  IsAfter t (done a s) = s ≡ t

  -- What may happen to a coordinator: a message of its stream or of its mailbox, an output or an
  -- error of an actor, and the passing of time.
  pub data Step (s t : Coordinator) : Type 0 where
    streamed :
        (r : Result Failure WireMessage) → IsAfter t (handle_stream {E = Failure} r s) → Step s t
    told :
        (m : CoordinatorMessage)
        → IsAfter t (handle_coordinator_message {E = Failure} m s)
        → Step s t
    keygen_failed :
        (e : ProtocolError x.gg20.KeygenError (IncomingMessage (Msg x.gg20.KeygenBody)))
        → IsAfter t (handle_keygen_error {E = Failure} e s)
        → Step s t
    offline_failed :
        (e : ProtocolError x.gg20.OfflineError (IncomingMessage (Msg x.gg20.OfflineBody)))
        → IsAfter t (handle_offline_error {E = Failure} e s)
        → Step s t
    keygen_done :
        (o : ProtocolOutput KeygenRequest x.gg20.LocalKey)
        → IsAfter t (handle_keygen_output {E = Failure} o s)
        → Step s t
    offline_done :
        (o : ProtocolOutput EnrichedSignRequest x.gg20.CompletedOfflineStage)
        → IsAfter t (handle_offline_output {E = Failure} o s)
        → Step s t
    sign_done :
        (o : ProtocolOutput EnrichedSignRequest x.gg20.SignatureRecid)
        → IsAfter t (handle_sign_output {E = Failure} o s)
        → Step s t
    waits : (now : ℕ) → t ≡ record s { clock = now } → Step s t

  pub data Reach (s : Coordinator) : Coordinator → Type 0 where
    here : Reach s s
    next : {t u : Coordinator} → Reach s t → Step t u → Reach s u

  new-IsSound : (sk : x.crypto.SecretKey) (db : x.sled.Db) (now : ℕ) → IsSound (new sk db now)
  unfolding new lookup
  new-IsSound sk db now = record {
    keygen = λ room addr h. absurd (cc h);
    offline = λ room addr h. absurd (cc h);
    signing = λ room addr h. absurd (cc h);
    log = record {
      sent = λ i e a h. absurd (cc h);
      below = λ i e a h. absurd (cc h);
      unique = λ i j e f a b h. absurd (cc h);
    };
  }

  send_encrypted-IsSound :
      (r : Result Failure CoreMessage) (s : Coordinator)
      → IsSound s
      → OnAny IsSound (send_encrypted {E = Failure} r s)
  unfolding send_encrypted
  send_encrypted-IsSound (ok m) s h = quiet-IsSound s (sends_out m) h (refl, λ a q. absurd (cc q))
  send_encrypted-IsSound (err e) s h = h

  message-IsSound :
      (m : CoordinatorMessage) (s : Coordinator)
      → IsSound s
      → OnAny IsSound (handle_coordinator_message {E = Failure} m s)
  unfolding handle_coordinator_message
  message-IsSound (Messages.incoming msg) s h = handle_incoming-IsSound Failure msg s h
  message-IsSound (Messages.retry msg) s h = elim (Bool-cases msg.check_passed) [
    | inl e ↦
        rw e (
          handle_incoming_unsafe-IsSound Failure msg.message msg.initial_timestamp msg.attempts s h)
    | inr e ↦ simp e (handle_retry-IsSound Failure msg s h)
  ]
  message-IsSound (Messages.outgoing msg) s h = send_encrypted-IsSound (maybe_encrypt s.db msg) s h
  message-IsSound (Messages.keygen_request req) s h =
      attempt-OnAny IsSound IsSound (handle_keygen_request req s) _
        (handle_keygen_request-IsSound req s h) λ r t h'. h'
  message-IsSound (Messages.sign_request req) s h =
      attempt-OnAny IsSound IsSound (handle_sign_request req s) _
        (handle_sign_request-IsSound req s h) λ r t h'. h'

  stream-IsSound :
      (r : Result Failure WireMessage) (s : Coordinator)
      → IsSound s
      → OnAny IsSound (handle_stream {E = Failure} r s)
  unfolding handle_stream
  stream-IsSound (ok m) s h = message-IsSound (Messages.incoming m) s h
  stream-IsSound (err e) s h = h

  after-IsSound :
      {E A : Type 0} (o : Outcome Coordinator E A) (t : Coordinator)
      → OnAny IsSound o
      → IsAfter t o
      → IsSound t
  after-IsSound panicked t h q = absurd q
  after-IsSound (failed e s) t h q = subst IsSound q h
  after-IsSound (done a s) t h q = subst IsSound q h

  pub Step-IsSound : {s t : Coordinator} → Step s t → IsSound s → IsSound t
  Step-IsSound {s} {t} (streamed r q) h = after-IsSound _ t (stream-IsSound r s h) q
  Step-IsSound {s} {t} (told m q) h = after-IsSound _ t (message-IsSound m s h) q
  Step-IsSound {s} {t} (keygen_failed e q) h =
      after-IsSound _ t (handle_keygen_error-IsSound Failure e s h) q
  Step-IsSound {s} {t} (offline_failed e q) h =
      after-IsSound _ t (handle_offline_error-IsSound Failure e s h) q
  Step-IsSound {s} {t} (keygen_done o q) h =
      after-IsSound _ t (handle_keygen_output-IsSound Failure o s h) q
  Step-IsSound {s} {t} (offline_done o q) h =
      after-IsSound _ t (handle_offline_output-IsSound Failure o s h) q
  Step-IsSound {s} {t} (sign_done o q) h =
      after-IsSound _ t (handle_sign_output-IsSound Failure o s h) q
  Step-IsSound {s} {t} (waits now q) h = subst IsSound (sym q) (rest-IsSound s s.db now h)

  run-IsSound : {s t : Coordinator} → Reach s t → IsSound s → IsSound t
  run-IsSound here h = h
  run-IsSound (next r st) h = Step-IsSound st (run-IsSound r h)

  -- Whatever messages, outputs and errors reach a coordinator after its creation, in any order:
  -- every actor that it has registered under a room, or has sent to, is one that it has started
  -- for that room, and no two actors have one address.
  pub Reach-IsSound :
      (sk : x.crypto.SecretKey) (db : x.sled.Db) (now : ℕ) (t : Coordinator)
      → Reach (new sk db now) t
      → IsSound t
  Reach-IsSound sk db now t r = run-IsSound r (new-IsSound sk db now)

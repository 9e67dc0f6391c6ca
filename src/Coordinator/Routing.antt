-- ===== src/Coordinator/Routing.antt =====
-- Which actors a message is handed to, and when it is tried again.
use mpc_server.Common.{
  ℕ, ◌+◌, ◌%◌, ◌≡◌, refl, sym, ap, ◌∙◌, Bool, true, false, List, [], ◌∷◌, ◌++◌, Option, none, some,
  Result, ok, err, ok_or, lookup, Exec, done, ltb, if◌then◌else◌, Bool-cases, ◌||◌, inl, inr,
}
use mathlib.Core.List.{append_assoc, append-nil}
use mpc_server.Common.Handler.{◌>>=◌, ◌>>◌, lift, attempt, continue, pure}
use mpc_server.Externals.{Externals}
use mpc_server.Failure.{Failure}
use mpc_server.Messages.{RetryMessage, IncomingMessage}
use mpc_server.Prom.{
  messages_keygen_handled, messages_offline_handled, messages_sign_handled, messages_dropped,
}
use mpc_server.Proto.{WireMessage}
use mpc_server.Coordinator.State.{
  Coordinator, Effect, counts, sends_keygen, sends_offline, sends_partial, schedules, emit,
}
use mpc_server.Coordinator.Retry.{retry, delay}
use mpc_server.Coordinator.Incoming.{
  handle_incoming_unsafe, handle_incoming_offline, handle_incoming_sign, handle_incoming_keygen,
  envelope, is_ok,
}

module _ ⦃x : Externals⦄ where
  -- Two effects for an actor that is there and a payload that reads as a message for it.
  abbrev pub handed :
      {M : Type 0}
      → (ℕ → IncomingMessage M → Effect)
      → Effect
      → WireMessage
      → Option ℕ
      → Option M
      → List Effect
  handed to count message none msg = []
  handed to count message (some addr) none = []
  handed to count message (some addr) (some msg) = to addr (envelope message msg) ∷ count ∷ []

  -- What the offline player, the signer and the keygen player of the room are handed.
  unfoldable pub to_offline : WireMessage → Coordinator → List Effect
  to_offline m s =
      handed sends_offline (counts messages_offline_handled) m
        (lookup m.room s.offline_state_runners) (x.gg20.offline_msg.read m.payload)

  unfoldable pub to_signer : WireMessage → Coordinator → List Effect
  to_signer m s =
      handed sends_partial (counts messages_sign_handled) m (lookup m.room s.signers)
        (x.gg20.partial_msg.read m.payload)

  unfoldable pub to_keygen : WireMessage → Coordinator → List Effect
  to_keygen m s =
      handed sends_keygen (counts messages_keygen_handled) m (lookup m.room s.keygen_runners)
        (x.gg20.keygen_msg.read m.payload)

  -- A retry schedules the message, or drops it after 33 attempts.
  unfoldable pub retried : RetryMessage → Effect
  retried m = if ltb 33 m.attempts then counts messages_dropped else schedules (delay m.attempts) m

  abbrev pub or_retried : RetryMessage → List Effect → List Effect
  or_retried m [] = retried m ∷ []
  or_retried m (e ∷ es) = e ∷ es

  abbrev pub with_effects : Coordinator → List Effect → Coordinator
  with_effects s es = record s { effects = s.effects ++ es }

  -- What the three handlers have in common.
  take :
      {M : Type 0}
      → (ℕ → IncomingMessage M → Effect)
      → Effect
      → Failure
      → Failure
      → WireMessage
      → Option ℕ
      → Option M
      → Exec Coordinator Failure (Unit {0})
  take to count e1 e2 m runner read = do
    addr ← lift (ok_or runner e1)
    msg ← lift (ok_or read e2)
    emit (to addr (envelope m msg))
    emit count

  abbrev is_handed : List Effect → Bool
  is_handed [] = false
  is_handed (e ∷ es) = true

  -- A handler that succeeded has handed the message on, and one that failed has done nothing.
  abbrev Takes : Type 0 → Exec Coordinator Failure (Unit {0}) → Coordinator → List Effect → Type 0
  Takes E h s es =
      (r : Result Failure (Unit {0})) × (attempt {F = E} h s ≡ done r (with_effects s es))
      × (is_ok r ≡ is_handed es)

  with_no_effects : (s : Coordinator) → s ≡ with_effects s []
  with_no_effects s = ap (λ es. record s { effects = es }) (sym (append-nil s.effects))

  take-Takes :
      {M : Type 0} (E : Type 0) (to : ℕ → IncomingMessage M → Effect) (count : Effect)
      (e1 e2 : Failure) (m : WireMessage) (runner : Option ℕ) (read : Option M) (s : Coordinator)
      → Takes E (take to count e1 e2 m runner read) s (handed to count m runner read)
  unfolding take
  take-Takes E to count e1 e2 m none read s = (err e1, ap (done (err e1)) (with_no_effects s), refl)
  take-Takes E to count e1 e2 m (some addr) none s =
      (err e2, ap (done (err e2)) (with_no_effects s), refl)
  take-Takes E to count e1 e2 m (some addr) (some msg) s = (
    ok tt,
    ap (λ es. done (ok tt) (record s { effects = es }))
        (append_assoc s.effects (to addr (envelope m msg) ∷ []) (count ∷ [])),
    refl,
  )

  offline-Takes :
      (E : Type 0) (m : WireMessage) (s : Coordinator)
      → Takes E (handle_incoming_offline m) s (to_offline m s)
  unfolding handle_incoming_offline to_offline take
  offline-Takes E m s = take-Takes E sends_offline _ _ _ m _ _ s

  sign-Takes :
      (E : Type 0) (m : WireMessage) (s : Coordinator)
      → Takes E (handle_incoming_sign m) s (to_signer m s)
  unfolding handle_incoming_sign to_signer take
  sign-Takes E m s = take-Takes E sends_partial _ _ _ m _ _ s

  keygen-Takes :
      (E : Type 0) (m : WireMessage) (s : Coordinator)
      → Takes E (handle_incoming_keygen m) s (to_keygen m s)
  unfolding handle_incoming_keygen to_keygen take
  keygen-Takes E m s = take-Takes E sends_keygen _ _ _ m _ _ s

  pub retry_lem :
      {E : Type 0} (m : RetryMessage) (s : Coordinator)
      → retry {E = E} m s ≡ done tt (with_effects s (retried m ∷ []))
  unfolding retry retried
  retry_lem m s = elim (Bool-cases (ltb 33 m.attempts)) [
    | inl late ↦ rw (late, retry, retried)
    | inr early ↦ rw (early, retry, retried)
  ]

  bind_done :
      {E A B : Type 0} (m : Exec Coordinator E A) (f : A → Exec Coordinator E B) (a : A)
      (s s' : Coordinator)
      → m s ≡ done a s'
      → (m >>= f) s ≡ f a s'
  bind_done m f a s s' e = ap (λ o. continue o f) e

  abbrev retry_next : WireMessage → ℕ → ℕ → RetryMessage
  retry_next m init_ts attempts = record {
    message = m;
    initial_timestamp = init_ts;
    attempts = (attempts + 1) % 65536;
    check_passed = true;
  }

  regroup :
      (s : Coordinator) (a b c : List Effect)
      → with_effects (with_effects (with_effects s a) b) c ≡ with_effects s (a ++ (b ++ c))
  regroup s a b c =
      ap (λ es. record s { effects = es })
        (append_assoc (s.effects ++ a) b c ∙ append_assoc s.effects a (b ++ c))

  -- The end of `handle_incoming_unsafe`, after its three handlers.
  conclude :
      {E : Type 0} (m : RetryMessage) (a b c : List Effect) (s : Coordinator)
      → (if is_handed a || is_handed b || is_handed c then pure {E = E} tt else retry m)
          (with_effects (with_effects (with_effects s a) b) c)
        ≡ done tt (with_effects s (or_retried m (a ++ (b ++ c))))
  conclude m [] [] [] s =
      ap (retry m) (regroup s [] [] [] ∙ sym (with_no_effects s)) ∙ retry_lem m s
  conclude m [] [] (e ∷ c) s = ap (done tt) (regroup s [] [] (e ∷ c))
  conclude m [] (e ∷ b) c s = ap (done tt) (regroup s [] (e ∷ b) c)
  conclude m (e ∷ a) b c s = ap (done tt) (regroup s (e ∷ a) b c)

  -- A message is handed to every actor of its room that can read it, the offline player first, then
  -- the signer and the keygen player; if there is none it is tried again as the next attempt.
  -- Nothing else of the coordinator changes.
  pub handle_incoming_unsafe_lem :
      {E : Type 0} (m : WireMessage) (init_ts attempts : ℕ) (s : Coordinator)
      → handle_incoming_unsafe {E = E} m init_ts attempts s
        ≡ done tt (
            with_effects s (
              or_retried
                (record {
                  message = m;
                  initial_timestamp = init_ts;
                  attempts = (attempts + 1) % 65536;
                  check_passed = true;
                })
                (to_offline m s ++ (to_signer m s ++ to_keygen m s))))
  unfolding handle_incoming_unsafe to_offline to_signer to_keygen
  handle_incoming_unsafe_lem {E} m init_ts attempts s =
      let (r1, e1, h1) = offline-Takes E m s in
      let s1 = with_effects s (to_offline m s) in
      let (r2, e2, h2) = sign-Takes E m s1 in
      let s2 = with_effects s1 (to_signer m s) in
      let (r3, e3, h3) = keygen-Takes E m s2 in
      bind_done (attempt (handle_incoming_offline m)) _ r1 s s1 e1
      ∙ bind_done (attempt (handle_incoming_sign m)) _ r2 s1 s2 e2
      ∙ bind_done (attempt (handle_incoming_keygen m)) _ r3 s2 (with_effects s2 (to_keygen m s)) e3
      ∙ rw (h1, h2, h3)
          (conclude (retry_next m init_ts attempts) (to_offline m s) (to_signer m s) (to_keygen m s)
            s)

-- ===== src/Coordinator/Schedule.antt =====
-- How often, and when, a message that nobody takes is tried again.
use mpc_server.Common.{
  ℕ, zero, suc, ◌+◌, ◌%◌, ◌≡◌, ◌<◌, ◌≤◌, refl, ap, ◌∙◌, true, false, List, [], ◌∷◌, ◌++◌, Option,
  none, some, lookup, Outcome, panicked, failed, done, ltb, arith,
}
use mpc_server.Externals.{Externals}
use mpc_server.Messages.{RetryMessage}
use mpc_server.Messages
use mpc_server.Proto.{WireMessage}
use mpc_server.Coordinator.State.{Coordinator, Effect, schedules}
use mpc_server.Coordinator.Retry.{delay}
use mpc_server.Coordinator.Dispatch.{handle_coordinator_message}
use mpc_server.Coordinator.Routing.{
  handle_incoming_unsafe_lem, to_offline, to_signer, to_keygen, retried, with_effects,
}

unfoldable pub sum : List ℕ → ℕ
sum [] = 0
sum (n ∷ ns) = n + sum ns

unfoldable pub last {ℓ} : {A : Type ℓ} → List A → Option A
last [] = none
last (a ∷ []) = some a
last (a ∷ b ∷ xs) = last (b ∷ xs)

pub last-append {ℓ} : {A : Type ℓ} (xs : List A) (a : A) → last (xs ++ (a ∷ [])) ≡ some a
unfolding last
last-append [] a = refl
last-append (b ∷ []) a = refl
last-append (b ∷ c ∷ xs) a = last-append (c ∷ xs) a

mod_small : (n : ℕ) → n < 65536 → n % 65536 ≡ n
mod_small n h = omega arith

not_late : (n : ℕ) → n ≤ 33 → ltb 33 n ≡ false
not_late n h = ground arith

-- The delays of so many timers, from an attempt on.
unfoldable pub delays_from : ℕ → ℕ → List ℕ
delays_from attempts zero = []
delays_from attempts (suc k) = delay (attempts + 1) ∷ delays_from (attempts + 1) k

module _ ⦃x : Externals⦄ where
  -- No actor is registered for the room of the message.
  pub record IsUndeliverable (m : WireMessage) (s : Coordinator) : Type 0 where
    pub no_offline : lookup m.room s.offline_state_runners ≡ none
    pub no_signer : lookup m.room s.signers ≡ none
    pub no_keygen : lookup m.room s.keygen_runners ≡ none

  -- A timer goes off.
  abbrev pub fire : RetryMessage → Coordinator → Outcome Coordinator (Unit {0}) (Unit {0})
  fire m = handle_coordinator_message (Messages.retry m)

  abbrev pub at_attempt : WireMessage → ℕ → ℕ → RetryMessage
  at_attempt m ts attempts = record {
    message = m;
    initial_timestamp = ts;
    attempts = attempts;
    check_passed = true;
  }

  fire_undeliverable :
      (m : WireMessage) (ts attempts : ℕ) (s : Coordinator)
      → IsUndeliverable m s
      → fire (at_attempt m ts attempts) s
        ≡ done tt (with_effects s (retried (at_attempt m ts ((attempts + 1) % 65536)) ∷ []))
  unfolding handle_coordinator_message to_offline to_signer to_keygen
  fire_undeliverable m ts attempts s u =
      handle_incoming_unsafe_lem m ts attempts s ∙ rw (u.no_offline, u.no_signer, u.no_keygen)

  abbrev pub last_effect : Outcome Coordinator (Unit {0}) (Unit {0}) → Option Effect
  last_effect panicked = none
  last_effect (failed e s) = last s.effects
  last_effect (done a s) = last s.effects

  abbrev pub History : Type 0
  History = Option (List ℕ × Option Effect)

  abbrev pub cons_delay : ℕ → History → History
  cons_delay d none = none
  cons_delay d (some (ds, e)) = some (d ∷ ds, e)

  abbrev pub follow : Option Effect → (RetryMessage → History) → History
  follow (some (schedules d m)) rest = cons_delay d (rest m)
  follow e rest = some ([], e)

  -- The delays of the timers that one message is given, from one firing on, and the last effect of
  -- the firing that sets no other; `at k` is the coordinator when `k` more rounds may follow, and
  -- `none` says that the rounds ran out.
  unfoldable pub delays : ℕ → (ℕ → Coordinator) → RetryMessage → History
  delays zero at m = none
  delays (suc rounds) at m = follow (last_effect (fire m (at rounds))) (delays rounds at)

  pub fired :
      (m : WireMessage) (ts attempts : ℕ) (s : Coordinator)
      → IsUndeliverable m s
      → last_effect (fire (at_attempt m ts attempts) s)
        ≡ some (retried (at_attempt m ts ((attempts + 1) % 65536)))
  fired m ts attempts s u =
      ap last_effect (fire_undeliverable m ts attempts s u) ∙ last-append s.effects _

  pub retried_early :
      (m : WireMessage) (ts attempts : ℕ)
      → attempts < 33
      → retried (at_attempt m ts ((attempts + 1) % 65536))
        ≡ schedules (delay (attempts + 1)) (at_attempt m ts (attempts + 1))
  unfolding retried
  retried_early m ts attempts h =
      rw (mod_small (attempts + 1) (omega arith)) (rw (not_late (attempts + 1) (omega arith)))

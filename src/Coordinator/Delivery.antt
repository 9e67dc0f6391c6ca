-- ===== src/Coordinator/Delivery.antt =====
-- When a message that waits for its actor is handed over.
use mpc_server.Common.{ℕ, ◌-◌, ◌≡◌, ◌<◌, List, ◌∷◌, ◌++◌}
use mpc_server.Externals.{Externals, the_gg20}
use mpc_server.Proto.{WireMessage}
use mpc_server.Coordinator.State.{Coordinator, Effect, schedules}
use mpc_server.Coordinator.Routing.{to_offline, to_signer, to_keygen}
use mpc_server.Coordinator.Schedule.{IsUndeliverable}

module _ ⦃x : Externals⦄ where
  -- What the actors of the message's room that can read it are handed.
  abbrev pub routed : WireMessage → Coordinator → List Effect
  routed m s = to_offline m s ++ (to_signer m s ++ to_keygen m s)

  abbrev IsNoTimer : Effect → Type 0
  IsNoTimer (schedules d m) = ⊥
  IsNoTimer _ = Unit

  module _ (m : WireMessage) (ts k : ℕ) (states : ℕ → Coordinator) (e : Effect) (es : List Effect)
      (waits : (i : ℕ) → i < k → IsUndeliverable m (states i))
      (taken : routed m (states k) ≡ e ∷ es) where
    abbrev at : ℕ → Coordinator
    at rounds = states (33 - rounds)

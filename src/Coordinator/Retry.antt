-- ===== src/Coordinator/Retry.antt =====
-- `retry` of src/actors/coordinator.rs.
use mpc_server.Common.{ℕ, ◌^◌, ltb, leb, if◌then◌else◌, Exec}
use mpc_server.Externals.{Externals}
use mpc_server.Messages.{RetryMessage}
use mpc_server.Prom.{messages_dropped}
use mpc_server.Coordinator.State.{Coordinator, emit, counts, schedules}

-- The seconds before an attempt.
unfoldable pub delay : ℕ → ℕ
delay attempts = if leb attempts 9 then 2 ^ attempts else 600

module _ ⦃x : Externals⦄ {E : Type 0} where
  unfoldable pub retry : RetryMessage → Exec Coordinator E (Unit {0})
  retry envelope =
      if ltb 33 envelope.attempts
      then emit (counts messages_dropped)
      else emit (schedules (delay envelope.attempts) envelope)

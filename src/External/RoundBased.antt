-- ===== src/External/RoundBased.antt =====
-- round_based: messages and the `StateMachine` trait. A method that changes the machine returns it.
use mpc_server.Common.{ℕ, Bool, Option, List, Result}

pub record Msg (M : Type 0) : Type 0 where
  pub sender : ℕ
  pub receiver : Option ℕ
  pub body : M

pub record StateMachine (SM M E O : Type 0) : Type 0 where
  pub handle_incoming : SM → Msg M → Result E (Unit {0}) × SM
  pub wants_to_proceed : SM → Bool
  pub proceed : SM → Result E (Unit {0}) × SM
  -- the queue, and the machine after `drain(..)`
  pub message_queue : SM → List (Msg M)
  pub drained : SM → SM
  pub is_finished : SM → Bool
  pub pick_output : SM → Option (Result E O) × SM
  pub current_round : SM → ℕ
  -- milliseconds
  pub round_timeout : SM → Option ℕ

-- ===== src/Messages.antt =====
-- src/actors/messages.rs and src/actors/types.rs: what the actors send to one another.
use mpc_server.Common.{ℕ, Bool, Option, List, Text}
use mpc_server.Proto.{KeygenRequest, SignRequest, WireMessage, CoreMessage}

-- `attempts` is a u16.
pub record RetryMessage : Type 0 where
  pub initial_timestamp : ℕ
  pub attempts : ℕ
  pub check_passed : Bool
  pub message : WireMessage

pub data CoordinatorMessage : Type 0 where
  incoming : WireMessage → CoordinatorMessage
  retry : RetryMessage → CoordinatorMessage
  outgoing : CoreMessage → CoordinatorMessage
  sign_request : SignRequest → CoordinatorMessage
  keygen_request : KeygenRequest → CoordinatorMessage

pub record IncomingMessage (M : Type 0) : Type 0 where
  pub room : Text
  pub wire_message : WireMessage
  pub message : M

pub record ProtocolError (E M : Type 0) : Type 0 where
  pub room : Text
  pub error : E
  pub message : M

pub record ProtocolOutput (I O : Type 0) : Type 0 where
  pub input : I
  pub output : O

-- `body` is the text of a JSON value.
pub record GenericProtocolMessage : Type 0 where
  pub sender : ℕ
  pub receiver : Option ℕ
  pub body : Text

pub record Encrypted : Type 0 where
  pub encrypted : Text

pub record SignTask (BigInt Stage : Type 0) : Type 0 where
  pub room : Text
  pub index : ℕ
  pub t : ℕ
  pub message : BigInt
  pub completed_offline_stage : Stage

pub record EnrichedSignRequest : Type 0 where
  pub inner : SignRequest
  pub room : Text
  pub i : ℕ
  pub s_l : List ℕ

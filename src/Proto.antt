-- ===== src/Proto.antt =====
-- src/pb/mpc.rs and src/pb/types.rs: the messages of the API and of the wire.
use mpc_server.Common.{ℕ, List, Text}

pub record KeygenRequest : Type 0 where
  pub request_id : Text
  pub participant_public_keys : List Text
  pub threshold : ℕ

pub record SignRequest : Type 0 where
  pub request_id : Text
  pub participant_public_keys : List Text
  pub public_key : Text
  pub hash : Text

pub data RequestType : Type 0 where
  unknown_type keygen sign : RequestType

-- `as i32`
abbrev pub type_code : RequestType → ℕ
type_code unknown_type = 0
type_code keygen = 1
type_code sign = 2

pub data RequestStatus : Type 0 where
  unknown_status received processing done error : RequestStatus

-- `as i32`
abbrev pub status_code : RequestStatus → ℕ
status_code unknown_status = 0
status_code received = 1
status_code processing = 2
status_code done = 3
status_code error = 4

pub record CheckResultResponse : Type 0 where
  pub request_id : Text
  pub result : Text
  pub request_type : ℕ
  pub request_status : ℕ

pub data Request : Type 0 where
  keygen : KeygenRequest → Request
  sign : SignRequest → Request

pub record WireMessage : Type 0 where
  pub room : Text
  pub payload : Text
  pub sender_public_key : Text
  pub signature : Text

pub record CoreMessage : Type 0 where
  pub room : Text
  pub message : Text

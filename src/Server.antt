-- ===== src/Server.antt =====
-- src/server.rs, and the saving of results in src/main.rs.
pub mod Results
pub mod Duplicates
pub mod Refused
use mpc_server.Common.{
  Bool, true, false, List, [], ◌∷◌, ◌++◌, Option, none, some, Result, ok, err, Text, if◌then◌else◌,
}
use mpc_server.External.Gg20.{Gg20}
use mpc_server.External.Sled.{Sled}
use mpc_server.External.Serde.{Serde}
use mpc_server.Proto.{
  KeygenRequest, SignRequest, CheckResultResponse, Request, RequestType, RequestStatus, type_code,
  status_code,
}

-- The status of a refused call, without its text.
pub data Status : Type 0 where
  already_exists internal invalid_argument not_found : Status

-- An unbounded channel: what has been sent and not received, oldest first, and whether the
-- receiver is still there. A send fails exactly when it is not.
pub record Channel (A : Type 0) : Type 0 where
  pub is_open : Bool
  pub queue : List A

abbrev pub send : {A : Type 0} → A → Channel A → Channel A
send a c = if c.is_open then record c { queue = c.queue ++ (a ∷ []) } else c

-- `CheckResultResponse` as the server first sends it.
abbrev pub received : Text → RequestType → CheckResultResponse
received request_id type = record {
  request_id = request_id;
  result = [];
  request_type = type_code type;
  request_status = status_code RequestStatus.received;
}

-- `.map_or(false, |x| x)`
abbrev pub or_false : Option Bool → Bool
or_false none = false
or_false (some b) = b

module _ ⦃sled : Sled⦄ where
  pub record MpcImp : Type 0 where
    pub tx : Channel Request
    pub tx_res : Channel CheckResultResponse
    pub results_db : sled.Db

  -- The end of `keygen` and `sign`: the first response and the request are sent.
  queue_request : Request → Text → RequestType → MpcImp → Result Status Text × MpcImp
  queue_request request request_id type s = (
    (if s.tx.is_open then ok request_id else err internal),
    record s { tx_res = send (received request_id type) s.tx_res; tx = send request s.tx },
  )

  -- `keygen`
  unfoldable pub keygen : KeygenRequest → MpcImp → Result Status Text × MpcImp
  unfolding queue_request
  keygen request s =
      if or_false (sled.contains_key s.results_db request.request_id)
      then (err already_exists, s)
      else queue_request (Request.keygen request) request.request_id RequestType.keygen s

  -- `sign`
  unfoldable pub sign : ⦃gg20 : Gg20⦄ → SignRequest → MpcImp → Result Status Text × MpcImp
  unfolding queue_request
  sign ⦃gg20⦄ request s =
      if or_false (sled.contains_key s.results_db request.request_id)
      then (err already_exists, s)
      else elim (gg20.from_hex request.hash) [
        | none ↦ (err invalid_argument, s)
        | some _ ↦ queue_request (Request.sign request) request.request_id RequestType.sign s
      ]

  module _ ⦃serde : Serde CheckResultResponse⦄ where
    read_response : Option (Option Text) → Result Status CheckResultResponse
    read_response none = err not_found
    read_response (some none) = err not_found
    read_response (some (some response)) = elim (serde.read response) [
      | none ↦ err not_found
      | some r ↦ ok r
    ]

    -- `check_result`
    unfoldable pub check_result : Text → sled.Db → Result Status CheckResultResponse
    unfolding read_response
    check_result request_id results_db = read_response (sled.get results_db request_id)

    -- `save_result`; `none` is its error.
    pub save_result : sled.Db → CheckResultResponse → Option sled.Db
    save_result db response = elim (serde.write response) [
      | none ↦ none
      | some value ↦ sled.insert db response.request_id value
    ]

    abbrev pub or_kept : sled.Db → Option sled.Db → sled.Db
    or_kept db none = db
    or_kept db (some db') = db'

    -- `handle_response`, over what has been received from the channel.
    pub handle_response : sled.Db → List CheckResultResponse → sled.Db
    handle_response db [] = db
    handle_response db (response ∷ rest) =
        handle_response (or_kept db (save_result db response)) rest

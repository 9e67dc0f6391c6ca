-- ===== src/System.antt =====
-- src/actors/mod.rs, and the tasks and channels of src/main.rs that join the API, the coordinator
-- and the saving of results.
pub mod Runs
pub mod Order
pub mod Drained
pub mod Answers
pub mod Stopped
pub mod Network
pub mod Sealed
pub mod Ready
pub mod Parties
pub mod Signatures
pub mod Keys
pub mod Twice
use mpc_server.Common.{
  ◌≡◌, Bool, true, false, Option, none, some, List, [], ◌∷◌, ◌++◌, Result, ok, err, Text, Outcome,
  panicked, failed, done,
}
use mpc_server.Externals.{Externals, the_sled, the_crypto, the_gg20}
use mpc_server.External.Serde.{Serde}
use mpc_server.Failure.{Failure}
use mpc_server.Messages
use mpc_server.Messages.{CoordinatorMessage}
use mpc_server.Prom.{Counter, requests_keygen_received, requests_sign_received}
use mpc_server.Proto.{Request, KeygenRequest, SignRequest, CheckResultResponse}
use mpc_server.Server.{Status, Channel, MpcImp, send, keygen, sign, save_result, or_kept}
use mpc_server.Coordinator.State.{Coordinator, Effect, responds}
use mpc_server.Coordinator.Dispatch.{handle_coordinator_message}

-- `handle`: the counter that a request raises, and the message for the coordinator.
unfoldable pub handle : Request → Counter × CoordinatorMessage
handle (Request.keygen request) =
    (requests_keygen_received, CoordinatorMessage.keygen_request request)
handle (Request.sign request) = (requests_sign_received, CoordinatorMessage.sign_request request)

module _ ⦃x : Externals⦄ ⦃serde : Serde CheckResultResponse⦄ where
  -- The API with its two channels, the coordinator with its mailbox, whether its actor still runs,
  -- and the counters raised on the way to it.
  pub record System : Type 0 where
    pub api : MpcImp
    pub coordinator : Coordinator
    pub mailbox : List CoordinatorMessage
    pub is_running : Bool
    pub counted : List Counter

  abbrev pub with_requests : System → List Request → System
  with_requests s rest = record s { api = record s.api { tx = record s.api.tx { queue = rest } } }

  -- `do_send` to an actor that runs or does not; a message for one that has stopped is dropped.
  abbrev pub do_send : Bool → CoordinatorMessage → List CoordinatorMessage → List CoordinatorMessage
  do_send true message mailbox = mailbox ++ (message ∷ [])
  do_send false message mailbox = mailbox

  abbrev handled : Counter × CoordinatorMessage → System → System
  handled (counter, message) s = record s {
    mailbox = do_send s.is_running message s.mailbox;
    counted = s.counted ++ (counter ∷ []);
  }

  abbrev pub receive_from : List Request → System → System
  receive_from [] s = s
  receive_from (request ∷ rest) s = handled (handle request) (with_requests s rest)

  -- A turn of the loop at the end of `use_messenger` and `use_redis`; without a request it waits.
  unfoldable pub receive_request : System → System
  receive_request s = receive_from s.api.tx.queue s

  -- The responses among what leaves the coordinator.
  abbrev pub sent : List Effect → List CheckResultResponse
  sent [] = []
  sent (responds r ∷ es) = r ∷ sent es
  sent (_ ∷ es) = sent es

  abbrev pub send_all :
      List CheckResultResponse → Channel CheckResultResponse → Channel CheckResultResponse
  send_all [] c = c
  send_all (r ∷ rs) c = send_all rs (send r c)

  -- What leaves the coordinator is added to what has left it, and the responses are sent.
  abbrev pub leave : System → Coordinator → System
  leave s c = record s {
    coordinator = record c { effects = s.coordinator.effects ++ c.effects };
    api = record s.api { tx_res = send_all (sent c.effects) s.api.tx_res };
  }

  abbrev pub after_message : System → Outcome Coordinator Failure (Unit {0}) → Option System
  after_message s panicked = none
  after_message s (failed e c) = some (leave s c)
  after_message s (done _ c) = some (leave s c)

  abbrev pub take_from : List CoordinatorMessage → System → Option System
  take_from [] s = some s
  take_from (m ∷ rest) s =
      after_message (record s { mailbox = rest })
        (handle_coordinator_message m (record s.coordinator { effects = [] }))

  -- The coordinator handles the first message of its mailbox, if there is one; `none` is a panic.
  unfoldable pub take_message : System → Option System
  take_message s = take_from s.mailbox s

  -- The coordinator has stopped, by a panic or at the end of its stream, which stops an actor that
  -- has no `finished` of its own: what it has sent before a panic is sent, and its mailbox is lost.
  unfoldable pub stop : List CheckResultResponse → System → System
  stop responses s = record s {
    mailbox = [];
    is_running = false;
    api = record s.api { tx_res = send_all responses s.api.tx_res };
  }

  abbrev pub save_from : List CheckResultResponse → System → System
  save_from [] s = s
  save_from (r ∷ rest) s = record s {
    api = record s.api {
      tx_res = record s.api.tx_res { queue = rest };
      results_db = or_kept s.api.results_db (save_result s.api.results_db r);
    };
  }

  -- A turn of the loop of `handle_response`; without a response it waits.
  unfoldable pub save_response : System → System
  save_response s = save_from s.api.tx_res.queue s

  -- A call of the API.
  unfoldable pub call_keygen : KeygenRequest → System → Result Status Text × System
  call_keygen request s =
      let (result, api) = keygen request s.api in (result, record s { api = api })

  unfoldable pub call_sign : SignRequest → System → Result Status Text × System
  call_sign request s = let (result, api) = sign request s.api in (result, record s { api = api })

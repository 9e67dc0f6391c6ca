-- ===== src/System/Stopped.antt =====
-- A server whose coordinator has stopped: the API goes on taking requests.
use mpc_server.Common.{◌≡◌, refl, false, [], List, some, ok, err}
use mpc_server.External.Serde.{Serde, SerdeLaws}
use mpc_server.External.Sled.{SledLaws}
use mpc_server.Externals.{Externals, the_sled, the_crypto, the_gg20}
use mpc_server.Prom.{Counter}
use mpc_server.Proto.{KeygenRequest, CheckResultResponse, RequestType}
use mpc_server.Server.{already_exists, received, keygen, check_result}
use mpc_server.Server.Results.{IsReliable}
use mpc_server.Server.Duplicates.{contains_saved}
use mpc_server.Coordinator.State.{Coordinator}
use mpc_server.System.{
  System, stop, handle, receive_request, take_message, save_response, call_keygen,
}
use mpc_server.System.Answers.{idle, saved_twice, IsAtRest, check_saved}

module _ ⦃x : Externals⦄ ⦃serde : Serde CheckResultResponse⦄ (stored : SledLaws)
    (json : SerdeLaws CheckResultResponse) where
  -- The coordinator of a server with nothing to do has stopped, and the disk takes every write. A
  -- key generation with an id that has no result is accepted all the same. After the loop of
  -- requests, the coordinator's mailbox and the loop of responses have had their turns there is
  -- nothing more to do, the coordinator is as it was, a check of the id says that the request has
  -- been received, and a second try is refused as a duplicate.
  pub stopped_loses_keygen :
      IsReliable stored json
      → (req : KeygenRequest) (db : x.sled.Db) (c : Coordinator) (counted : List Counter)
      → x.sled.contains_key db req.request_id ≡ some false
      → let (answer, s) = call_keygen req (stop [] (idle db c counted)) in
        (answer ≡ ok req.request_id)
        × (u : System) × (take_message (receive_request s) ≡ some u)
        × IsAtRest (saved_twice u)
        × ((saved_twice u).coordinator ≡ c)
        × (check_result req.request_id (saved_twice u).api.results_db
            ≡ ok (received req.request_id RequestType.keygen))
        × ((call_keygen req (saved_twice u)).0 ≡ err already_exists)
  unfolding call_keygen keygen stop handle receive_request take_message save_response
  stopped_loses_keygen reliable req db c counted free =
      let r = received req.request_id RequestType.keygen in
      rw free (
        refl,
        _,
        refl,
        (refl, refl, refl),
        refl,
        check_saved stored json reliable db r,
        rw (contains_saved stored json reliable db r) refl,
      )

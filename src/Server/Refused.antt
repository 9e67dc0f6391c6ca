-- ===== src/Server/Refused.antt =====
-- A request that cannot be queued.
use mpc_server.Common.{
  ◌≡◌, refl, ◌∙◌, ap, true, false, [], some, ok, err, text_eq_refl, if◌then◌else◌,
}
use mpc_server.External.Sled.{Sled, SledLaws}
use mpc_server.External.Serde.{Serde, SerdeLaws}
use mpc_server.Proto.{KeygenRequest, CheckResultResponse, RequestType}
use mpc_server.Server.{
  MpcImp, already_exists, internal, received, keygen, check_result, handle_response, save_result,
  or_kept,
}
use mpc_server.Server.Results.{IsReliable, save_result_lem}
use mpc_server.Server.Duplicates.{contains_saved}

module _ ⦃sled : Sled⦄ ⦃serde : Serde CheckResultResponse⦄ (stored : SledLaws)
    (json : SerdeLaws CheckResultResponse) where
  -- A key generation with a new id, while the queue of requests is closed and the channel of
  -- responses is open and empty, on a disk that takes every write: it is refused as an internal
  -- error, and yet, once the responses are saved, a check of its id says that it has been
  -- received, and a second try is refused as a duplicate.
  pub refused_but_received :
      IsReliable stored json
      → (k : KeygenRequest) (s : MpcImp) → s.tx.is_open ≡ false
      → s.tx_res.is_open ≡ true
      → s.tx_res.queue ≡ []
      → sled.contains_key s.results_db k.request_id ≡ some false
      → let (answer, s') = keygen k s in
        let db = handle_response s'.results_db s'.tx_res.queue in
        (answer ≡ err internal)
        × (check_result k.request_id db ≡ ok (received k.request_id RequestType.keygen))
        × ((keygen k (record s' { results_db = db })).0 ≡ err already_exists)
  unfolding keygen handle_response
  refused_but_received reliable k s closed opened empty free =
      let r = received k.request_id RequestType.keygen in
      let saved : check_result k.request_id (or_kept s.results_db (save_result s.results_db r))
          ≡ ok r =
        save_result_lem stored json reliable s.results_db r k.request_id
        ∙ ap (λ b. if b then ok r else check_result k.request_id s.results_db)
            (text_eq_refl k.request_id) in
      rw (free, closed, opened, empty)
        (refl, saved, rw (contains_saved stored json reliable s.results_db r) refl)

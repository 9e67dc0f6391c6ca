-- ===== src/Server/Duplicates.antt =====
-- Requests with one id.
use mpc_server.Common.{
  ◌≡◌, refl, ap, ◌∙◌, true, false, [], ◌∷◌, ◌++◌, some, ok, err, text_eq_refl, arith,
}
use mpc_server.External.Gg20.{Gg20}
use mpc_server.External.Sled.{Sled, SledLaws}
use mpc_server.External.Serde.{Serde, SerdeLaws}
use mpc_server.Proto.{KeygenRequest, SignRequest, CheckResultResponse, Request}
use mpc_server.Server.{already_exists, MpcImp, keygen, sign, save_result, or_kept, handle_response}
use mpc_server.Server.Results.{IsReliable, saved}

module _ ⦃sled : Sled⦄ where
  -- Two key generations with one id that has no result yet, while the queue is open and no response
  -- is saved in between: both are accepted, and both are in the queue.
  pub keygen_twice :
      (request again : KeygenRequest) (s : MpcImp)
      → again.request_id ≡ request.request_id
      → s.tx.is_open ≡ true
      → sled.contains_key s.results_db request.request_id ≡ some false
      → ((keygen request s).0 ≡ ok request.request_id)
        × ((keygen again (keygen request s).1).0 ≡ ok request.request_id)
        × ((keygen again (keygen request s).1).1.tx.queue
            ≡ (s.tx.queue ++ (Request.keygen request ∷ [])) ++ (Request.keygen again ∷ []))
  unfolding keygen
  keygen_twice request again s same opened free =
      let free' : sled.contains_key s.results_db again.request_id ≡ some false =
        ap (sled.contains_key s.results_db) same ∙ free in
      (ground arith, ground arith, ground arith)

  module _ ⦃serde : Serde CheckResultResponse⦄ (stored : SledLaws)
      (json : SerdeLaws CheckResultResponse) where
    pub contains_saved :
        (reliable : IsReliable stored json) (db : sled.Db) (r : CheckResultResponse)
        → sled.contains_key (or_kept db (save_result db r)) r.request_id ≡ some true
    contains_saved reliable db r =
        let (v, db', written, inserted, after) = saved stored json reliable db r in
        let holds : sled.get db' r.request_id ≡ some (some v) =
          stored.get-insert db db' r.request_id v inserted r.request_id
          ∙ rw (text_eq_refl r.request_id) in
        ap (λ d. sled.contains_key d r.request_id) after
        ∙ stored.contains_key-get db' r.request_id (some v) holds

    -- On a disk that takes every write: once a response is saved, every request with its id is
    -- refused and nothing is sent.
    pub duplicate_refused :
        ⦃gg20 : Gg20⦄
        → IsReliable stored json
        → (s : MpcImp) (r : CheckResultResponse) (k : KeygenRequest) (g : SignRequest)
        → k.request_id ≡ r.request_id
        → g.request_id ≡ r.request_id
        → let s' = record s { results_db = handle_response s.results_db (r ∷ []) } in
          (keygen k s' ≡ (err already_exists, s')) × (sign g s' ≡ (err already_exists, s'))
    unfolding keygen sign handle_response
    duplicate_refused ⦃gg20⦄ reliable s r k g ek eg =
        rw (ek, eg, contains_saved reliable s.results_db r) (refl, refl)

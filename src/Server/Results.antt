-- ===== src/Server/Results.antt =====
-- What `check_result` returns after responses have been saved.
use mpc_server.Common.{
  ◌≡◌, refl, ap, ◌∙◌, List, [], ◌∷◌, some, Result, ok, Text, text_eq, if◌then◌else◌, arith,
}
use mpc_server.External.Sled.{Sled, SledLaws}
use mpc_server.External.Serde.{Serde, SerdeLaws}
use mpc_server.Proto.{CheckResultResponse}
use mpc_server.Server.{Status, check_result, save_result, handle_response, or_kept}

-- The last of the responses that has the id, or else the answer before them.
unfoldable pub last_response :
    Text
    → Result Status CheckResultResponse
    → List CheckResultResponse
    → Result Status CheckResultResponse
last_response request_id before [] = before
last_response request_id before (r ∷ rs) =
    last_response request_id (if text_eq r.request_id request_id then ok r else before) rs

module _ ⦃sled : Sled⦄ ⦃serde : Serde CheckResultResponse⦄ (stored : SledLaws)
    (json : SerdeLaws CheckResultResponse) where
  -- The disk takes every write, and serde_json every response.
  pub record IsReliable : Type 0 where
    pub inserts : (db : sled.Db) (k v : Text) → (db' : sled.Db) × (sled.insert db k v ≡ some db')
    pub writes : (r : CheckResultResponse) → (v : Text) × (serde.write r ≡ some v)

  pub saved :
      (reliable : IsReliable) (db : sled.Db) (r : CheckResultResponse)
      → (v : Text) × (db' : sled.Db) × (serde.write r ≡ some v)
        × (sled.insert db r.request_id v ≡ some db')
        × (or_kept db (save_result db r) ≡ db')
  unfolding save_result
  saved reliable db r =
      let (v, written) = reliable.writes r in
      let (db', inserted) = reliable.inserts db r.request_id v in
      (v, db', written, inserted, ground arith)

  check_result_inserted :
      (db db' : sled.Db) (r : CheckResultResponse) (v id : Text)
      → serde.write r ≡ some v
      → sled.insert db r.request_id v ≡ some db'
      → check_result id db' ≡ (if text_eq r.request_id id then ok r else check_result id db)
  unfolding check_result
  check_result_inserted db db' r v id written inserted =
      let get' = stored.get-insert db db' r.request_id v inserted id in
      let reads = json.read-write r v written in ground (arith, get', reads)

  pub save_result_lem :
      (reliable : IsReliable) (db : sled.Db) (r : CheckResultResponse) (id : Text)
      → check_result id (or_kept db (save_result db r))
        ≡ (if text_eq r.request_id id then ok r else check_result id db)
  save_result_lem reliable db r id =
      let (v, db', written, inserted, after) = saved reliable db r in
      ap (check_result id) after ∙ check_result_inserted db db' r v id written inserted

  -- On a disk that takes every write: after any responses have been received, a check of an id
  -- returns the last one that has the id, and what it returned before if none has.
  pub check_result-handle_response :
      IsReliable
      → (rs : List CheckResultResponse) (db : sled.Db) (id : Text)
      → check_result id (handle_response db rs) ≡ last_response id (check_result id db) rs
  unfolding handle_response last_response
  check_result-handle_response reliable [] db id = refl
  check_result-handle_response reliable (r ∷ rs) db id =
      check_result-handle_response reliable rs (or_kept db (save_result db r)) id
      ∙ ap (λ b. last_response id b rs) (save_result_lem reliable db r id)

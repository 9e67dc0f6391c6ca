-- ===== src/Examples/Server.antt =====
-- The API at concrete inputs.
use mpc_server.Common.{◌≡◌, refl, true, false, [], ◌∷◌, ok, err, Text, bytes, lookup, text_eq}
use mpc_server.Externals.{the_sled, the_gg20}
use mpc_server.Proto.{RequestType, KeygenRequest, CheckResultResponse}
use mpc_server.Server.{
  internal, received, MpcImp, already_exists, keygen, check_result, handle_response,
}
use mpc_server.Server.Results.{IsReliable, last_response, check_result-handle_response}
use mpc_server.Server.Refused.{refused_but_received}
use mpc_server.Examples.Instances.{libraries, map_sled_laws, response_serde, response_laws}
use mpc_server.Examples.Inputs.{alice, bob}

abbrev response : Text → CheckResultResponse
response result = record {
  request_id = bytes "r";
  result = result;
  request_type = 1;
  request_status = 3;
}

pub reliable : IsReliable map_sled_laws response_laws
reliable = record { inserts = λ db k v. (_, refl); writes = λ r. (_, refl) }

check_result-handle_response_example :
    check_result (bytes "r") (handle_response [] (response [] ∷ response (bytes "key") ∷ []))
    ≡ ok (response (bytes "key"))
unfolding last_response text_eq
check_result-handle_response_example =
    check_result-handle_response map_sled_laws response_laws reliable
      (response [] ∷ response (bytes "key") ∷ []) [] (bytes "r")

abbrev request : KeygenRequest
request = record {
  request_id = bytes "r";
  participant_public_keys = alice ∷ bob ∷ [];
  threshold = 1;
}

abbrev server : MpcImp
server = record {
  tx = record { is_open = true; queue = [] };
  tx_res = record { is_open = true; queue = [] };
  results_db = [];
}

-- The same server after the receiver of its requests has gone.
abbrev closed : MpcImp
closed = record server { tx = record { is_open = false; queue = [] } }

refused_but_received_example :
    let (answer, s') = keygen request closed in
    let db = handle_response s'.results_db s'.tx_res.queue in
    (answer ≡ err internal)
    × (check_result (bytes "r") db ≡ ok (received (bytes "r") RequestType.keygen))
    × ((keygen request (record s' { results_db = db })).0 ≡ err already_exists)
unfolding lookup
refused_but_received_example =
    refused_but_received map_sled_laws response_laws reliable request closed refl refl refl refl

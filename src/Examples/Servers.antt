-- ===== src/Examples/Servers.antt =====
-- The whole server at concrete inputs.
use mpc_server.Common.{
  err, ◌≡◌, refl, [], ◌∷◌, ok, some, bytes, slice, lookup, insert, text_eq, failed, true,
}
use mpc_server.Externals.{the_sled, the_crypto, the_gg20, the_groups, the_shares}
use mpc_server.Failure.{retrieve_local_share}
use mpc_server.Group
use mpc_server.Group.{get_i, get_index}
use mpc_server.Messages.{keygen_request}
use mpc_server.Player
use mpc_server.Prom.{requests_keygen_received, requests_sign_handled}
use mpc_server.Proto.{Request, SignRequest, RequestType, RequestStatus}
use mpc_server.Room.{make_room_id}
use mpc_server.Server.{already_exists, received, keygen, check_result}
use mpc_server.Storage.GroupStore.{save_group}
use mpc_server.Storage.ShareStore.{retrieve}
use mpc_server.Coordinator.State.{Coordinator, counts}
use mpc_server.Coordinator.Requests.{handle_keygen_request, handle_sign_request, response}
use mpc_server.Coordinator.Dispatch.{handle_coordinator_message}
use mpc_server.System.{stop, System, handle, receive_request, take_message, call_keygen, call_sign}
use mpc_server.System.Runs.{Run, here, calls_keygen, receives, takes}
use mpc_server.System.Order.{IsAccounted, requests_in_order}
use mpc_server.System.Drained.{rounds, work, accepted_handled}
use mpc_server.System.Stopped.{stopped_loses_keygen}
use mpc_server.System.Answers.{
  IsAtRest, idle, with_no_effects, saved_twice, IsUnanswered, keygen_answered,
  failed_sign-IsUnanswered,
}
use mpc_server.Examples.Instances.{libraries, response_serde, response_laws, map_sled_laws}
use mpc_server.Examples.Server.{reliable}
use mpc_server.Examples.Reach.{request, created, requested}

abbrev before : System
before = idle [] created []

-- After the key generation is called twice, and once received and handled.
abbrev after : System
after = record {
  api = record {
    tx = record { is_open = true; queue = Request.keygen request ∷ [] };
    tx_res = record {
      is_open = true;
      queue =
          received (bytes "r") RequestType.keygen
          ∷ received (bytes "r") RequestType.keygen
          ∷ response (bytes "r") [] RequestType.keygen RequestStatus.processing
          ∷ [];
    };
    results_db = [];
  };
  coordinator = requested;
  mailbox = [];
  is_running = true;
  counted = requests_keygen_received ∷ [];
}

run :
    Run before
      (Request.keygen request ∷ Request.keygen request ∷ [])
      (Request.keygen request ∷ [])
      after
unfolding call_keygen keygen receive_request take_message handle handle_coordinator_message
    handle_keygen_request Group.new slice get_i get_index lookup insert text_eq save_group
    make_room_id Player.new
run =
    takes (calls_keygen (receives (calls_keygen here request)) request) (keygen_request request) []
      refl refl

requests_in_order_example :
    IsAccounted
      (Request.keygen request ∷ Request.keygen request ∷ [])
      (Request.keygen request ∷ [])
      after
requests_in_order_example = requests_in_order before after _ _ refl refl run

-- The first of the two calls, received and handled.
abbrev once : System
once = record after {
  api = record after.api {
    tx = record { is_open = true; queue = [] };
    tx_res = record {
      is_open = true;
      queue =
          received (bytes "r") RequestType.keygen
          ∷ response (bytes "r") [] RequestType.keygen RequestStatus.processing
          ∷ [];
    };
  };
}

taken : take_message (receive_request (call_keygen request before).1) ≡ some once
unfolding call_keygen keygen receive_request take_message handle handle_coordinator_message
    handle_keygen_request Group.new slice get_i get_index lookup insert text_eq save_group
    make_room_id Player.new
taken = refl

keygen_answered_example :
    ((call_keygen request before).0 ≡ ok (bytes "r"))
    × (check_result (bytes "r") (saved_twice once).api.results_db
        ≡ ok (response (bytes "r") [] RequestType.keygen RequestStatus.processing))
unfolding lookup
keygen_answered_example =
    keygen_answered map_sled_laws response_laws reliable request [] created [] once refl taken

-- A sign request for a key that this server has no share of.
abbrev unknown_key : SignRequest
unknown_key = record {
  request_id = bytes "s";
  participant_public_keys = request.participant_public_keys;
  public_key = bytes "key";
  hash = bytes "hash";
}

abbrev counted_only : Coordinator
counted_only = record created { effects = counts requests_sign_handled ∷ [] }

fails :
    handle_sign_request unknown_key (with_no_effects created)
    ≡ failed retrieve_local_share counted_only
unfolding handle_sign_request retrieve lookup
fails = refl

failed_sign-IsUnanswered_example :
    ((call_sign unknown_key before).0 ≡ ok (bytes "s"))
    × (u : System) × (take_message (receive_request (call_sign unknown_key before).1) ≡ some u)
    × IsUnanswered map_sled_laws response_laws unknown_key (saved_twice u)
unfolding lookup
failed_sign-IsUnanswered_example =
    failed_sign-IsUnanswered map_sled_laws response_laws reliable unknown_key [] created
      counted_only [] (bytes "hash") retrieve_local_share refl refl fails

-- A key generation that is called and not received yet.
abbrev queued : System
queued = (call_keygen request before).1

was_queued : Run before (Request.keygen request ∷ []) [] queued
unfolding call_keygen keygen lookup
was_queued = calls_keygen here request

one_round : rounds 1 queued ≡ some once
unfolding rounds call_keygen keygen receive_request take_message handle handle_coordinator_message
    handle_keygen_request Group.new slice get_i get_index lookup insert text_eq save_group
    make_room_id Player.new
one_round = refl

accepted_handled_example :
    Run before (Request.keygen request ∷ []) (Request.keygen request ∷ []) once × (work once ≡ 0)
unfolding call_keygen keygen lookup
accepted_handled_example = accepted_handled before queued once _ _ refl was_queued refl one_round

stopped_loses_keygen_example :
    let (answer, s) = call_keygen request (stop [] before) in
    (answer ≡ ok (bytes "r"))
    × (u : System) × (take_message (receive_request s) ≡ some u)
    × IsAtRest (saved_twice u)
    × ((saved_twice u).coordinator ≡ created)
    × (check_result (bytes "r") (saved_twice u).api.results_db
        ≡ ok (received (bytes "r") RequestType.keygen))
    × ((call_keygen request (saved_twice u)).0 ≡ err already_exists)
unfolding lookup
stopped_loses_keygen_example =
    stopped_loses_keygen map_sled_laws response_laws reliable request [] created [] refl

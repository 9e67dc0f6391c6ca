-- ===== src/Coordinator/Requests.antt =====
-- The requests of src/actors/coordinator.rs: key generation and signing.
use mpc_server.Common.{
  ℕ, ◌+◌, ◌%◌, not, List, [], ◌∷◌, Option, none, some, Result, ok, err, ok_or, map_err, Text,
  insert, if◌then◌else◌, ◌==◌, Exec, length, map,
}
use mpc_server.Common.Handler.{◌>>=◌, ◌>>◌, gets, lift, or_panic, modify}
use mpc_server.Externals.{Externals, the_sled, the_crypto, the_gg20, the_groups, the_shares}
use mpc_server.Failure.{
  Failure, create_state_machine, retrieve_local_share, find_index_of_participants,
}
use mpc_server.Group
use mpc_server.Group.{PublicKeyGroup, get_index, get_i, get_t, get_n, get_group_id, as_u16}
use mpc_server.Messages.{EnrichedSignRequest}
use mpc_server.Player
use mpc_server.Prom.{requests_keygen_handled, requests_sign_handled}
use mpc_server.Proto.{
  KeygenRequest, SignRequest, CheckResultResponse, RequestType, RequestStatus, type_code,
  status_code,
}
use mpc_server.Room.{make_room_id}
use mpc_server.Storage.GroupStore.{save_group}
use mpc_server.Storage.ShareStore.{retrieve}
use mpc_server.Coordinator.State.{
  Coordinator, CoordinatorError, wrong_number_of_participants, wrong_public_keys, emit, start,
  keep_db, counts, responds, starts_keygen, starts_offline,
}

-- A response with no result yet.
abbrev pub response : Text → Text → RequestType → RequestStatus → CheckResultResponse
response request_id result type status = record {
  request_id = request_id;
  result = result;
  request_type = type_code type;
  request_status = status_code status;
}

abbrev pub cons_some : Option ℕ → List ℕ → List ℕ
cons_some none is = is
cons_some (some i) is = i ∷ is

-- The two halves of `partition(Option::is_some)`: the indices found, and how many were not.
unfoldable pub found_indices : PublicKeyGroup → List Text → List ℕ
found_indices group [] = []
found_indices group (k ∷ ks) = cons_some (get_index group k) (found_indices group ks)

abbrev pub count_none : Option ℕ → ℕ → ℕ
count_none none n = n + 1
count_none (some i) n = n

unfoldable pub missing_indices : PublicKeyGroup → List Text → ℕ
missing_indices group [] = 0
missing_indices group (k ∷ ks) = count_none (get_index group k) (missing_indices group ks)

-- The indices of the participants in the group of the key; `t` is a u16, and so is `t + 1`.
unfoldable pub signing_indices : PublicKeyGroup → ℕ → List Text → Result CoordinatorError (List ℕ)
signing_indices group t participants =
    if not (length (found_indices group participants) == (t + 1) % 65536)
    then err wrong_number_of_participants
    else if not (missing_indices group participants == 0)
    then err wrong_public_keys
    else ok (map as_u16 (found_indices group participants))

module _ ⦃x : Externals⦄ where
  unfoldable pub handle_keygen_request : KeygenRequest → Exec Coordinator Failure (Unit {0})
  handle_keygen_request req = do
    emit (counts requests_keygen_handled)
    emit (responds (response req.request_id [] RequestType.keygen RequestStatus.processing))
    pk_str ← gets (λ s. s.pk_str)
    group ← or_panic (Group.new req.participant_public_keys (as_u16 req.threshold) pk_str)
    let room = make_room_id req.request_id (get_group_id group)
    i ← or_panic (get_i group)
    state ← lift (ok_or (x.gg20.new_keygen i (get_t group) (get_n group)) create_state_machine)
    player ← start (λ addr. starts_keygen addr (Player.new req room i state))
    db ← gets (λ s. s.db)
    keep_db (save_group db group)
    modify (λ s. record s { keygen_runners = insert room player s.keygen_runners })

  unfoldable pub handle_sign_request : SignRequest → Exec Coordinator Failure (Unit {0})
  handle_sign_request req = do
    emit (counts requests_sign_handled)
    db ← gets (λ s. s.db)
    sk ← gets (λ s. s.sk)
    pk_str ← gets (λ s. s.pk_str)
    local_share ← lift (map_err (retrieve db sk req.public_key) retrieve_local_share)
    let t = x.gg20.key_threshold local_share.share
    group ← or_panic (Group.new local_share.public_keys t pk_str)
    subgroup ← or_panic (Group.new req.participant_public_keys t pk_str)
    keep_db (save_group db subgroup)
    s_l ←
        lift
          (map_err (signing_indices group t req.participant_public_keys) find_index_of_participants)
    emit (responds (response req.request_id [] RequestType.sign RequestStatus.processing))
    _ ← or_panic (get_i group)
    index_in_s_l ← or_panic (get_i subgroup)
    let room = make_room_id req.request_id (get_group_id subgroup)
    let enriched : EnrichedSignRequest = record {
      inner = req;
      room = room;
      i = index_in_s_l;
      s_l = s_l;
    }
    state ←
        lift (ok_or (x.gg20.new_offline index_in_s_l s_l local_share.share) create_state_machine)
    player ← start (λ addr. starts_offline addr (Player.new enriched room index_in_s_l state))
    modify (λ s. record s { offline_state_runners = insert room player s.offline_state_runners })

-- ===== src/Failure.antt =====
-- The errors that anyhow carries: the repository's own error types and the contexts that its
-- calls attach. What another library reports, with no context of ours, is `external`.
pub data Failure : Type 0 where
  external : Failure
  -- core/group.rs
  invalid_index parse_public_key decode_base64 decrypt decode_utf8 : Failure
  -- core/types.rs
  decode_own_public_key get_own_public_key encoding_share encrypt_share : Failure
  decode_share decrypt_share deserialize_local_key : Failure
  -- storage
  retrieving_group decode_group serialize_local_share save_to_db : Failure
  retrieving_local_share decode_local_share decrypt_stored_share : Failure
  -- crypto
  parse_generic_protocol_message extract_group_id retrieve_group encrypt stringify_encrypted :
      Failure
  convert_to_raw_value convert_to_string parse_encrypted : Failure
  -- transport
  deserialize_message wrong_pub_key failed_to_parse_pub_key wrong_signature create_hash : Failure
  verify_failed failed_to_sign : Failure
  construct_sm_client construct_redis_client not_subscribed sse_not_utf8 broadcast_message : Failure
  -- coordinator
  create_state_machine retrieve_local_share find_index_of_participants : Failure
  cant_find_mpc_player not_found_mpc_player not_found_signer : Failure
  -- keystore
  find_file file_mode_too_broad read_password_file decrypt_keystore parse_secret_key : Failure

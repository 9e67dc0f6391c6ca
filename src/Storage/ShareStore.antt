-- ===== src/Storage/ShareStore.antt =====
-- src/storage/share_store.rs and the shares of src/core/types.rs.
use mpc_server.Common.{none, some, List, Result, ok, ok_or, map_err, Text}
use mpc_server.Common.Fallible.{◌>>=◌}
use mpc_server.External.Crypto.{Crypto}
use mpc_server.External.Gg20.{Gg20}
use mpc_server.External.Sled.{Sled}
use mpc_server.External.Serde.{Serde}
use mpc_server.Failure.{
  Failure, external, decode_own_public_key, parse_public_key, get_own_public_key, encoding_share,
  encrypt_share, decode_share, decrypt_share, deserialize_local_key, serialize_local_share,
  save_to_db, retrieving_local_share, decode_local_share, decrypt_stored_share,
}
use mpc_server.Group.{safe_encrypt, safe_decrypt}

pub record StoredLocalShare (LocalKey : Type 0) : Type 0 where
  pub public_keys : List Text
  pub own_public_key : Text
  pub share : LocalKey

pub record EncryptedStoredLocalShare : Type 0 where
  pub public_keys : List Text
  pub own_public_key : Text
  pub encrypted_share : Text

module _ ⦃crypto : Crypto⦄ ⦃gg20 : Gg20⦄ where
  -- `StoredLocalShare::get_own_public_key`
  unfoldable pub own_key : Text → Result Failure crypto.PublicKey
  own_key own_public_key = do
    own_pk ← ok_or (crypto.hex_decode own_public_key) decode_own_public_key
    ok_or (crypto.parse_public_key own_pk) parse_public_key

  -- `StoredLocalShare::encrypt`
  unfoldable pub encrypt : StoredLocalShare gg20.LocalKey → Result Failure EncryptedStoredLocalShare
  unfolding own_key safe_encrypt
  encrypt s = do
    pk ← map_err (own_key s.own_public_key) get_own_public_key
    share_bytes ← ok_or (gg20.local_key.write s.share) encoding_share
    ciphertext ← ok_or (safe_encrypt pk share_bytes) encrypt_share
    ok (record {
      public_keys = s.public_keys;
      own_public_key = s.own_public_key;
      encrypted_share = crypto.hex_encode ciphertext;
    })

  -- `EncryptedStoredLocalShare::decrypt`
  unfoldable pub decrypt :
      EncryptedStoredLocalShare → crypto.SecretKey → Result Failure (StoredLocalShare gg20.LocalKey)
  unfolding safe_decrypt
  decrypt e sk = do
    ciphertext ← ok_or (crypto.hex_decode e.encrypted_share) decode_share
    plaintext ← ok_or (safe_decrypt sk ciphertext) decrypt_share
    local_key ← ok_or (gg20.local_key.read plaintext) deserialize_local_key
    ok (record {
      public_keys = e.public_keys;
      own_public_key = e.own_public_key;
      share = local_key;
    })

  -- The key of a share: `hex::encode(share.public_key().to_bytes(true))`.
  abbrev pub sum_pk : gg20.LocalKey → Text
  sum_pk share = crypto.hex_encode (gg20.key_public_bytes share)

  module _ ⦃sled : Sled⦄ ⦃serde : Serde EncryptedStoredLocalShare⦄ where
    -- `save`
    unfoldable pub save : sled.Db → StoredLocalShare gg20.LocalKey → Result Failure sled.Db
    save db local_share = do
      encrypted ← map_err (encrypt local_share) encrypt_share
      out ← ok_or (serde.write encrypted) serialize_local_share
      ok_or (sled.compare_and_swap db (sum_pk local_share.share) none (some out)) save_to_db

    -- `retrieve`
    unfoldable pub retrieve :
        sled.Db → crypto.SecretKey → Text → Result Failure (StoredLocalShare gg20.LocalKey)
    retrieve db sk public_key = do
      found ← ok_or (sled.get db public_key) external
      stored ← ok_or found retrieving_local_share
      encrypted ← ok_or (serde.read stored) decode_local_share
      map_err (decrypt encrypted sk) decrypt_stored_share

-- ===== src/Cipher.antt =====
-- src/crypto: the encrypter of outgoing messages and the decrypter of incoming ones.
pub mod RoundTrip
use mpc_server.Common.{ℕ, ◌≡◌, Option, none, some, Result, ok, err, ok_or, map_err, Text}
use mpc_server.Common.Fallible.{◌>>=◌}
use mpc_server.External.Crypto.{Crypto}
use mpc_server.External.Sled.{Sled}
use mpc_server.External.Serde.{Serde}
use mpc_server.Failure.{
  Failure, parse_generic_protocol_message, extract_group_id,
  retrieve_group as failed_retrieve_group, encrypt as failed_encrypt, decrypt as failed_decrypt,
  stringify_encrypted, convert_to_raw_value, convert_to_string, parse_encrypted,
}
use mpc_server.Group.{PublicKeyGroup, encrypt, decrypt}
use mpc_server.Messages.{GenericProtocolMessage, Encrypted}
use mpc_server.Proto.{CoreMessage, WireMessage}
use mpc_server.Room
use mpc_server.Storage.GroupStore.{retrieve_group}

-- `RawValue::from_string`: the text, without white space at its ends, if it is a JSON value.
pub record RawValue : Type 0 where
  pub from_string : Text → Option Text

-- What serde_json writes is a raw value as it stands.
pub record RawValueLaws ⦃raw : RawValue⦄ ⦃sealed : Serde Encrypted⦄ : Type 0 where
  pub from_string-write :
      (e : Encrypted) (t : Text) → sealed.write e ≡ some t → raw.from_string t ≡ some t

module _ ⦃crypto : Crypto⦄ ⦃raw : RawValue⦄ ⦃generic : Serde GenericProtocolMessage⦄
    ⦃sealed : Serde Encrypted⦄ where
  -- The body and the receiver of `maybe_encrypt`, with a receiver.
  unfoldable pub encrypt_for : PublicKeyGroup → ℕ → GenericProtocolMessage → Result Failure Text
  encrypt_for group receiver m = do
    encrypted ← map_err (encrypt group receiver m.body) failed_encrypt
    body ← ok_or (sealed.write (record { encrypted = encrypted })) stringify_encrypted
    raw_body ← ok_or (raw.from_string body) convert_to_raw_value
    ok_or (generic.write (record m { body = raw_body })) convert_to_string

  -- `SimpleDecrypter::maybe_decrypt`, with a receiver.
  unfoldable pub decrypt_body : crypto.SecretKey → GenericProtocolMessage → Result Failure Text
  decrypt_body sk m = do
    encrypted_message ← ok_or (sealed.read m.body) parse_encrypted
    decrypted ← map_err (decrypt sk encrypted_message.encrypted) failed_decrypt
    raw_body ← ok_or (raw.from_string decrypted) convert_to_raw_value
    ok_or (generic.write (record m { body = raw_body })) convert_to_string

  decrypt_to :
      crypto.SecretKey
      → WireMessage
      → GenericProtocolMessage
      → Option ℕ
      → Result Failure WireMessage
  decrypt_to sk msg m none = ok msg
  decrypt_to sk msg m (some _) = do
    payload ← decrypt_body sk m
    ok (record msg { payload = payload })

  -- `SimpleDecrypter::maybe_decrypt`; an error leaves the message as it was.
  unfoldable pub maybe_decrypt : crypto.SecretKey → WireMessage → Result Failure WireMessage
  unfolding decrypt_to
  maybe_decrypt sk msg = do
    m ← ok_or (generic.read msg.payload) parse_generic_protocol_message
    decrypt_to sk msg m m.receiver

  module _ ⦃sled : Sled⦄ ⦃groups : Serde PublicKeyGroup⦄ where
    unfoldable pub encrypt_to :
        sled.Db → CoreMessage → GenericProtocolMessage → Option ℕ → Result Failure CoreMessage
    encrypt_to db msg m none = ok msg
    encrypt_to db msg m (some receiver) = do
      group_id ← map_err (Room.extract_group_id msg.room) extract_group_id
      group ← map_err (retrieve_group db group_id) failed_retrieve_group
      message ← encrypt_for group receiver m
      ok (record msg { message = message })

    -- `SimpleEncrypter::maybe_encrypt`
    unfoldable pub maybe_encrypt : sled.Db → CoreMessage → Result Failure CoreMessage
    unfolding encrypt_to
    maybe_encrypt db msg = do
      m ← ok_or (generic.read msg.message) parse_generic_protocol_message
      encrypt_to db msg m m.receiver

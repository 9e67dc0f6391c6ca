-- ===== src/Transport.antt =====
-- src/transport: messages are signed on the way out, and verified and filtered on the way in. Both
-- transports, the messenger's and redis, put the same filters behind their own subscription.
pub mod Verified
pub mod RoundTrip
pub mod Clients
pub mod Joins
use mpc_server.Common.{
  Bool, true, false, not, List, [], ◌∷◌, Option, none, some, Result, ok, err, ok_or, map_err, Text,
  text_eq, if◌then◌else◌, ◌==◌, length,
}
use mpc_server.Common.Fallible.{◌>>=◌}
use mpc_server.External.Crypto.{Crypto}
use mpc_server.External.Serde.{Serde}
use mpc_server.Failure.{
  Failure, external, deserialize_message, wrong_pub_key, failed_to_parse_pub_key, wrong_signature,
  create_hash, verify_failed, failed_to_sign,
}
use mpc_server.Proto.{WireMessage, CoreMessage}

-- `take_non_owned`
unfoldable pub take_non_owned : Text → Result Failure WireMessage → Bool
take_non_owned own_pub_key (ok envelope) = not (text_eq envelope.sender_public_key own_pub_key)
take_non_owned own_pub_key (err _) = true

module _ ⦃crypto : Crypto⦄ where
  -- `Message::parse` of the hash of a text, which wants 32 bytes.
  unfoldable pub hashed : Text → Result Failure Text
  hashed text =
      let hash = crypto.sha256 text in if length hash == 32 then ok hash else err create_hash

  module _ ⦃wire : Serde WireMessage⦄ where
    -- `do_parse_signed`
    unfoldable pub do_parse_signed : Text → Result Failure WireMessage
    do_parse_signed msg = do
      signed ← ok_or (wire.read msg) deserialize_message
      bytes ← ok_or (crypto.hex_decode signed.sender_public_key) wrong_pub_key
      sender_pub ← ok_or (crypto.parse_public_key bytes) failed_to_parse_pub_key
      sbytes ← ok_or (crypto.hex_decode signed.signature) wrong_signature
      sig ← ok_or (crypto.parse_signature sbytes) external
      message ← hashed signed.payload
      if crypto.verify message sig sender_pub then ok signed else err verify_failed

    -- `parse_signed`, under `filter_map`
    unfoldable pub parse_signed : Result Failure Text → Option (Result Failure WireMessage)
    parse_signed (ok msg) = some (do_parse_signed msg)
    parse_signed (err _) = none

    keep :
        Bool
        → Result Failure WireMessage
        → List (Result Failure WireMessage)
        → List (Result Failure WireMessage)
    keep true m ms = m ∷ ms
    keep false m ms = ms

    -- The incoming stream: `.filter_map(parse_signed).filter(take_non_owned(own))`.
    unfoldable pub incoming : Text → List (Result Failure Text) → List (Result Failure WireMessage)
    unfolding keep
    incoming own [] = []
    incoming own (m ∷ ms) = elim (parse_signed m) [
      | none ↦ incoming own ms
      | some parsed ↦ keep (take_non_owned own parsed) parsed (incoming own ms)
    ]

  -- `sign_envelope`
  unfoldable pub sign_envelope : crypto.SecretKey → Text → CoreMessage → Result Failure WireMessage
  sign_envelope key pub_key envelope = do
    message ← hashed envelope.message
    ok (record {
      room = envelope.room;
      payload = envelope.message;
      sender_public_key = pub_key;
      signature = crypto.hex_encode (crypto.signature_bytes (crypto.sign message key));
    })

  -- The outgoing sink, up to the broadcast of the text.
  unfoldable pub outgoing :
      ⦃wire : Serde WireMessage⦄ → crypto.SecretKey → CoreMessage → Result Failure Text
  outgoing ⦃wire⦄ key unsigned = do
    signed ←
        map_err
          (sign_envelope key
            (crypto.hex_encode (crypto.serialize_compressed (crypto.from_secret_key key))) unsigned)
          failed_to_sign
    ok_or (wire.write signed) external

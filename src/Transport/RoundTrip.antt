-- ===== src/Transport/RoundTrip.antt =====
-- What the sink of a server signs, the streams of the others take in.
use mpc_server.Common.{
  text_eq, ◌≡◌, ◌≢◌, refl, sym, ap, ◌∙◌, List, [], ◌∷◌, some, Result, ok, Text, text_eq_iff, arith,
  Bool-cases, inl, inr, if◌then◌else◌,
}
use mpc_server.Common.Fallible.{map_err_bind-eq-ok, ok_or-eq-ok, ok-injective, bind-elim}
use mpc_server.External.Crypto.{Crypto, CryptoLaws}
use mpc_server.External.Serde.{Serde, SerdeLaws}
use mpc_server.Failure.{Failure, external, failed_to_sign}
use mpc_server.Proto.{WireMessage, CoreMessage}
use mpc_server.Transport.{
  take_non_owned, hashed, do_parse_signed, parse_signed, incoming, sign_envelope, outgoing,
}
use mpc_server.Transport.Verified.{IsSigned, do_parse_signed_iff}

module _ ⦃crypto : Crypto⦄ (sk : crypto.SecretKey) where
  abbrev pub own_key : Text
  own_key = crypto.hex_encode (crypto.serialize_compressed (crypto.from_secret_key sk))

  abbrev signed_as : CoreMessage → Text → WireMessage
  signed_as msg hash = record {
    room = msg.room;
    payload = msg.message;
    sender_public_key = own_key;
    signature = crypto.hex_encode (crypto.signature_bytes (crypto.sign hash sk));
  }

  signed_as-IsSigned :
      (keys : CryptoLaws) (msg : CoreMessage) (hash : Text)
      → hashed msg.message ≡ ok hash
      → IsSigned (signed_as msg hash)
  signed_as-IsSigned keys msg hash h = record {
    key_bytes = crypto.serialize_compressed (crypto.from_secret_key sk);
    key = crypto.from_secret_key sk;
    signature_bytes = crypto.signature_bytes (crypto.sign hash sk);
    signature = crypto.sign hash sk;
    hash = hash;
    key_hex = keys.hex_round_trip (crypto.serialize_compressed (crypto.from_secret_key sk));
    key_parses = keys.parse_compressed (crypto.from_secret_key sk);
    signature_hex = keys.hex_round_trip (crypto.signature_bytes (crypto.sign hash sk));
    signature_parses = keys.parse_signature_bytes (crypto.sign hash sk);
    payload_hash = h;
    verifies = keys.verify-sign hash sk;
  }

  outgoing-inversion :
      ⦃wire : Serde WireMessage⦄ (msg : CoreMessage) (text : Text)
      → outgoing sk msg ≡ ok text
      → (hash : Text) × (hashed msg.message ≡ ok hash)
        × (wire.write (signed_as msg hash) ≡ some text)
  unfolding outgoing sign_envelope
  outgoing-inversion ⦃wire⦄ msg text h =
      let (w, e1, h1) = map_err_bind-eq-ok (sign_envelope sk own_key msg) failed_to_sign _ h in
      bind-elim (hashed msg.message) _ e1 λ hash e2 h2.
        (hash, e2, ap wire.write (ok-injective h2) ∙ ok_or-eq-ok (wire.write w) external h1)

  pub incoming-cons :
      ⦃wire : Serde WireMessage⦄ (own text : Text) (rest : List (Result Failure Text))
      (w : WireMessage)
      → do_parse_signed text ≡ ok w
      → incoming own (ok text ∷ rest)
        ≡ (if text_eq w.sender_public_key own then incoming own rest else ok w ∷ incoming own rest)
  unfolding incoming parse_signed take_non_owned
  incoming-cons own text rest w e = elim (Bool-cases (text_eq w.sender_public_key own)) [
    | inl mine ↦ rw (e, mine, incoming) refl
    | inr other ↦ rw (e, other, incoming) refl
  ]

  incoming_one :
      ⦃wire : Serde WireMessage⦄ (own text : Text) (w : WireMessage)
      → do_parse_signed text ≡ ok w
      → w.sender_public_key ≢ own
      → incoming own (ok text ∷ []) ≡ ok w ∷ []
  unfolding incoming parse_signed take_non_owned
  incoming_one own text w e other = rw e (ground (arith, text_eq_iff w.sender_public_key own))

module _ ⦃crypto : Crypto⦄ ⦃wire : Serde WireMessage⦄ (keys : CryptoLaws)
    (json : SerdeLaws WireMessage) where
  -- What the sink sends, is parsed as the message signed with its key.
  pub do_parse_signed-outgoing :
      (sk : crypto.SecretKey) (text : Text) (msg : CoreMessage)
      → outgoing sk msg ≡ ok text
      → (w : WireMessage) × (do_parse_signed text ≡ ok w)
        × (wire.write w ≡ some text)
        × (w.room ≡ msg.room)
        × (w.payload ≡ msg.message)
        × (w.sender_public_key
            ≡ crypto.hex_encode (crypto.serialize_compressed (crypto.from_secret_key sk)))
  do_parse_signed-outgoing sk text msg h =
      let (hash, hashes, written) = outgoing-inversion sk msg text h in
      let w = signed_as sk msg hash in
      (
        w,
        (do_parse_signed_iff text w).1
            (json.read-write w text written, signed_as-IsSigned sk keys msg hash hashes),
        written,
        refl,
        refl,
        refl,
      )

  -- What the sink sends, the stream of any other party delivers: room and payload are the
  -- message's, and the sender is the key of the secret key.
  pub incoming-outgoing :
      (sk : crypto.SecretKey) (own text : Text) (msg : CoreMessage)
      → own ≢ crypto.hex_encode (crypto.serialize_compressed (crypto.from_secret_key sk))
      → outgoing sk msg ≡ ok text
      → (w : WireMessage) × (incoming own (ok text ∷ []) ≡ ok w ∷ [])
        × (w.room ≡ msg.room)
        × (w.payload ≡ msg.message)
        × (w.sender_public_key
            ≡ crypto.hex_encode (crypto.serialize_compressed (crypto.from_secret_key sk)))
  incoming-outgoing sk own text msg other h =
      let (w, parsed, _, room, payload, sender) = do_parse_signed-outgoing sk text msg h in
      (w, incoming_one sk own text w parsed (λ e. other (sym e ∙ sender)), room, payload, sender)

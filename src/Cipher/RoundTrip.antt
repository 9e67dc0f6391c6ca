-- ===== src/Cipher/RoundTrip.antt =====
-- What a party encrypts for a member of its group, that member decrypts.
use mpc_server.Common.{ℕ, ◌≡◌, some, ok, Text, true, ap, ◌∙◌, sym}
use mpc_server.Common.Fallible.{
  ◌>>=◌, ok_or_bind-eq-ok, map_err_bind-eq-ok, ok_or-eq-ok, ok-injective, some-injective,
  bind-eq-ok,
}
use mpc_server.External.Crypto.{Crypto, CryptoLaws}
use mpc_server.External.Sled.{Sled}
use mpc_server.Proto.{CoreMessage, WireMessage}
use mpc_server.Room
use mpc_server.Storage.GroupStore.{retrieve_group}
use mpc_server.External.Serde.{Serde, SerdeLaws}
use mpc_server.Group.{PublicKeyGroup, encrypt, decrypt, get_public_key, safe_encrypt}
use mpc_server.Cipher.{
  RawValue, RawValueLaws, encrypt_for, decrypt_body, maybe_encrypt, maybe_decrypt,
}
use mpc_server.Messages.{GenericProtocolMessage, Encrypted}
use mpc_server.Failure.{
  external, encrypt as failed_encrypt, stringify_encrypted, convert_to_raw_value,
}

module _ ⦃crypto : Crypto⦄ (keys : CryptoLaws) where
  -- What `encrypt` went through, for an index whose key is known.
  encrypt-inversion :
      (g : PublicKeyGroup) (i : ℕ) (plain c : Text) (pk : crypto.PublicKey)
      → get_public_key g i ≡ ok (crypto.hex_encode (crypto.serialize_compressed pk))
      → encrypt g i plain ≡ ok c
      → (d : Text) × (safe_encrypt pk plain ≡ some d) × (c ≡ crypto.base64_encode d)
  unfolding encrypt
  encrypt-inversion g i plain c pk at h =
      let (d, sealed, built) = ok_or_bind-eq-ok (safe_encrypt pk plain) external _ (
        rw (at, keys.hex_round_trip (crypto.serialize_compressed pk), keys.parse_compressed pk) at
          h) in
      (d, sealed, sym (ok-injective built))

  -- A text that a group encrypts for one index decrypts with the secret key whose public key
  -- stands at that index.
  pub decrypt-encrypt :
      (g : PublicKeyGroup) (i : ℕ) (sk : crypto.SecretKey) (plain c : Text)
      → get_public_key g i
        ≡ ok (crypto.hex_encode (crypto.serialize_compressed (crypto.from_secret_key sk)))
      → crypto.is_utf8 plain ≡ true
      → encrypt g i plain ≡ ok c
      → decrypt sk c ≡ ok plain
  decrypt-encrypt g i sk plain c at utf8 h =
      let pk = crypto.from_secret_key sk in
      let (d, sealed, built) = encrypt-inversion g i plain c pk at h in
      rw built (
        unfold decrypt safe_encrypt in
        rw (keys.base64_round_trip d, keys.ecies_round_trip sk plain d sealed, utf8))

abbrev with_body : GenericProtocolMessage → Text → GenericProtocolMessage
with_body m body = record m { body = body }

module _ ⦃crypto : Crypto⦄ ⦃raw : RawValue⦄ ⦃generic : Serde GenericProtocolMessage⦄
    ⦃sealed : Serde Encrypted⦄ where
  pub encrypt_for-inversion :
      (g : PublicKeyGroup) (i : ℕ) (m : GenericProtocolMessage) (t : Text)
      → encrypt_for g i m ≡ ok t
      → (c : Text) × (body : Text) × (raw_body : Text) × (encrypt g i m.body ≡ ok c)
        × (sealed.write (record { encrypted = c }) ≡ some body)
        × (raw.from_string body ≡ some raw_body)
        × (generic.write (with_body m raw_body) ≡ some t)
  unfolding encrypt_for
  encrypt_for-inversion g i m t h =
      let (c, e1, h1) = map_err_bind-eq-ok (encrypt g i m.body) failed_encrypt _ h in
      let (body, e2, h2) = ok_or_bind-eq-ok _ stringify_encrypted _ h1 in
      let (raw_body, e3, h3) = ok_or_bind-eq-ok _ convert_to_raw_value _ h2 in
      (c, body, raw_body, e1, e2, e3, ok_or-eq-ok _ _ h3)

  decrypt_body_lem :
      (sk : crypto.SecretKey) (m : GenericProtocolMessage) (e : Encrypted)
      (plain raw_plain t : Text)
      → sealed.read m.body ≡ some e
      → decrypt sk e.encrypted ≡ ok plain
      → raw.from_string plain ≡ some raw_plain
      → generic.write (with_body m raw_plain) ≡ some t
      → decrypt_body sk m ≡ ok t
  unfolding decrypt_body
  decrypt_body_lem sk m e plain raw_plain t a b c d = rw (a, b, c, d)

  module _ ⦃sled : Sled⦄ ⦃groups : Serde PublicKeyGroup⦄ where
    maybe_encrypt_to :
        (db : sled.Db) (g : PublicKeyGroup) (i : ℕ) (msg : CoreMessage) (m : GenericProtocolMessage)
        (id : Text)
        → generic.read msg.message ≡ some m
        → m.receiver ≡ some i
        → Room.extract_group_id msg.room ≡ ok id
        → retrieve_group db id ≡ ok g
        → maybe_encrypt db msg ≡ (encrypt_for g i m >>= λ t. ok (record msg { message = t }))
    unfolding maybe_encrypt
    maybe_encrypt_to db g i msg m id parsed to room stored = rw (parsed, to, room, stored)

  maybe_decrypt_to :
      (sk : crypto.SecretKey) (wire : WireMessage) (m : GenericProtocolMessage) (i : ℕ)
      → generic.read wire.payload ≡ some m
      → m.receiver ≡ some i
      → maybe_decrypt sk wire ≡ (decrypt_body sk m >>= λ t. ok (record wire { payload = t }))
  unfolding maybe_decrypt
  maybe_decrypt_to sk wire m i parsed to = rw (parsed, to)

  module _ (keys : CryptoLaws) (raw_laws : RawValueLaws) (sealed_laws : SerdeLaws Encrypted)
      (generic_laws : SerdeLaws GenericProtocolMessage) where
    -- What `encrypt_for` writes reads as the message with another body, and that decrypts to
    -- the text of the message.
    pub decrypt_body-encrypt_for :
        (g : PublicKeyGroup) (i : ℕ) (sk : crypto.SecretKey) (m : GenericProtocolMessage)
        (t original : Text)
        → get_public_key g i
          ≡ ok (crypto.hex_encode (crypto.serialize_compressed (crypto.from_secret_key sk)))
        → crypto.is_utf8 m.body ≡ true
        → raw.from_string m.body ≡ some m.body
        → generic.write m ≡ some original
        → encrypt_for g i m ≡ ok t
        → (body : Text) × (generic.read t ≡ some (with_body m body))
          × (decrypt_body sk (with_body m body) ≡ ok original)
    decrypt_body-encrypt_for g i sk m t original at utf8 canonical written h =
        let (c, body, raw_body, e1, e2, e3, e4) = encrypt_for-inversion g i m t h in
        let same : raw_body ≡ body =
          some-injective (sym e3 ∙ raw_laws.from_string-write _ body e2) in
        (
          raw_body,
          generic_laws.read-write (with_body m raw_body) t e4,
          decrypt_body_lem sk (with_body m raw_body) (record { encrypted = c }) m.body m.body
              original (ap sealed.read same ∙ sealed_laws.read-write _ body e2)
              (decrypt-encrypt keys g i sk m.body c at utf8 e1) canonical written,
        )

    module _ ⦃sled : Sled⦄ ⦃groups : Serde PublicKeyGroup⦄ where
      -- An encrypted message is still a protocol message for the same receiver.
      pub maybe_encrypt-reads :
          (db : sled.Db) (g : PublicKeyGroup) (i : ℕ) (msg out : CoreMessage)
          (m : GenericProtocolMessage) (id : Text)
          → generic.read msg.message ≡ some m
          → m.receiver ≡ some i
          → Room.extract_group_id msg.room ≡ ok id
          → retrieve_group db id ≡ ok g
          → maybe_encrypt db msg ≡ ok out
          → (n : GenericProtocolMessage) × (generic.read out.message ≡ some n)
            × (n.receiver ≡ some i)
      maybe_encrypt-reads db g i msg out m id parsed to room stored h =
          let (t, sealed_for, built) =
            bind-eq-ok (encrypt_for g i m) _
              (sym (maybe_encrypt_to db g i msg m id parsed to room stored) ∙ h) in
          let (c, body, raw_body, e1, e2, e3, e4) = encrypt_for-inversion g i m t sealed_for in
          (
            with_body m raw_body,
            ap (λ (o : CoreMessage). generic.read o.message) (sym (ok-injective built))
                ∙ generic_laws.read-write (with_body m raw_body) t e4,
            to,
          )

      -- What `maybe_encrypt` makes of a message for index `i` of the stored group of its room, the
      -- holder of the key at that index decrypts to the message as serde writes it, and the room
      -- is kept; for a body that is UTF-8 and a raw value as it stands.
      pub maybe_decrypt-maybe_encrypt :
          (db : sled.Db) (g : PublicKeyGroup) (i : ℕ) (sk : crypto.SecretKey)
          (msg out : CoreMessage) (m : GenericProtocolMessage) (id original : Text)
          (wire : WireMessage)
          → generic.read msg.message ≡ some m
          → m.receiver ≡ some i
          → Room.extract_group_id msg.room ≡ ok id
          → retrieve_group db id ≡ ok g
          → get_public_key g i
            ≡ ok (crypto.hex_encode (crypto.serialize_compressed (crypto.from_secret_key sk)))
          → crypto.is_utf8 m.body ≡ true
          → raw.from_string m.body ≡ some m.body
          → generic.write m ≡ some original
          → maybe_encrypt db msg ≡ ok out
          → wire.payload ≡ out.message
          → (out.room ≡ msg.room)
            × (maybe_decrypt sk wire ≡ ok (record wire { payload = original }))
      maybe_decrypt-maybe_encrypt db g i sk msg out m id original wire parsed to room stored at utf8
            canonical written h same =
          let (t, sealed_for, built) =
            bind-eq-ok (encrypt_for g i m) _
              (sym (maybe_encrypt_to db g i msg m id parsed to room stored) ∙ h) in
          let (body, reads, opens) =
            decrypt_body-encrypt_for g i sk m t original at utf8 canonical written sealed_for in
          let payload : wire.payload ≡ t = same ∙ ap (λ o. o.message) (sym (ok-injective built)) in
          (
            ap (λ o. o.room) (sym (ok-injective built)),
            maybe_decrypt_to sk wire (with_body m body) i (ap generic.read payload ∙ reads) to
                ∙ ap (λ r. r >>= λ x. ok (record wire { payload = x })) opens,
          )

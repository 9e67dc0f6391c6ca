-- ===== src/Coordinator/Confidential.antt =====
-- What leaves the coordinator of a message for one party.
use mpc_server.Common.{
  ℕ, ◌≡◌, ◌⊎◌, inl, inr, refl, sym, ap, ◌∙◌, Option, none, some, ok, err, Text, done, Option-cases,
}
use mpc_server.Common.Fallible.{
  Result-cases, bind-eq-ok, ok_or_bind-eq-ok, map_err_bind-eq-ok, ok-injective,
}
use mpc_server.Cipher.{maybe_encrypt, encrypt_for, encrypt_to}
use mpc_server.Cipher.RoundTrip.{encrypt_for-inversion}
use mpc_server.Externals.{
  Externals, the_sled, the_crypto, the_raw, the_generic, the_sealed, the_groups,
}
use mpc_server.Failure.{
  Failure, external, parse_public_key, parse_generic_protocol_message, extract_group_id,
  retrieve_group as failed_retrieve_group,
}
use mpc_server.Group.{PublicKeyGroup, get_public_key, encrypt, safe_encrypt}
use mpc_server.Messages.{GenericProtocolMessage, outgoing}
use mpc_server.Proto.{CoreMessage}
use mpc_server.Room
use mpc_server.Storage.GroupStore.{retrieve_group}
use mpc_server.Coordinator.State.{Coordinator, after_effect, sends_out}
use mpc_server.Coordinator.Dispatch.{handle_coordinator_message}

module _ ⦃x : Externals⦄ where
  -- The text is encrypted under the public key that stands at an index of the group of the room.
  pub record IsSealed (db : x.sled.Db) (room : Text) (i : ℕ) (plain text : Text) : Type 0 where
    pub group_id : Text
    pub group : PublicKeyGroup
    pub key : Text
    pub compressed : Text
    pub public_key : x.crypto.PublicKey
    pub ciphertext : Text
    pub of_room : Room.extract_group_id room ≡ ok group_id
    pub stored : retrieve_group db group_id ≡ ok group
    pub at : get_public_key group i ≡ ok key
    pub decoded : x.crypto.hex_decode key ≡ some compressed
    pub parsed : x.crypto.parse_public_key compressed ≡ some public_key
    pub sealed : x.crypto.ecies_encrypt (x.crypto.public_bytes public_key) plain ≡ some ciphertext
    pub encoded : text ≡ x.crypto.base64_encode ciphertext

  -- What may leave for a protocol message: itself when it is for all, and else the message with
  -- the receiver's ciphertext for a body.
  abbrev pub IsSafe :
      x.sled.Db → CoreMessage → GenericProtocolMessage → CoreMessage → Option ℕ → Type 0
  IsSafe db msg m out none = out ≡ msg
  IsSafe db msg m out (some i) =
      (text : Text) × (body : Text) × (raw_body : Text) × IsSealed db msg.room i m.body text
      × (x.sealed.write (record { encrypted = text }) ≡ some body)
      × (x.raw.from_string body ≡ some raw_body)
      × (x.generic.write (record m { body = raw_body }) ≡ some out.message)
      × (out.room ≡ msg.room)

  encrypt-IsSealed :
      (db : x.sled.Db) (room group_id : Text) (g : PublicKeyGroup) (i : ℕ) (plain text : Text)
      → Room.extract_group_id room ≡ ok group_id
      → retrieve_group db group_id ≡ ok g
      → encrypt g i plain ≡ ok text
      → IsSealed db room i plain text
  unfolding encrypt safe_encrypt
  encrypt-IsSealed db room group_id g i plain text of_room stored h =
      let (key, at, h1) = bind-eq-ok (get_public_key g i) _ h in
      let (compressed, decoded, h2) = ok_or_bind-eq-ok (x.crypto.hex_decode key) external _ h1 in
      let (pk, parsed, h3) =
        ok_or_bind-eq-ok (x.crypto.parse_public_key compressed) parse_public_key _ h2 in
      let (ciphertext, sealed, h4) = ok_or_bind-eq-ok (safe_encrypt pk plain) external _ h3 in
      record {
        group_id = group_id;
        group = g;
        key = key;
        compressed = compressed;
        public_key = pk;
        ciphertext = ciphertext;
        of_room = of_room;
        stored = stored;
        at = at;
        decoded = decoded;
        parsed = parsed;
        sealed = sealed;
        encoded = sym (ok-injective h4);
      }

  encrypt_to-IsSafe :
      (db : x.sled.Db) (msg out : CoreMessage) (m : GenericProtocolMessage) (receiver : Option ℕ)
      → encrypt_to db msg m receiver ≡ ok out
      → IsSafe db msg m out receiver
  unfolding encrypt_to
  encrypt_to-IsSafe db msg out m none h = sym (ok-injective h)
  encrypt_to-IsSafe db msg out m (some i) h =
      let (group_id, of_room, h1) =
        map_err_bind-eq-ok (Room.extract_group_id msg.room) extract_group_id _ h in
      let (g, stored, h2) =
        map_err_bind-eq-ok (retrieve_group db group_id) failed_retrieve_group _ h1 in
      let (t, sealed_for, built) = bind-eq-ok (encrypt_for g i m) _ h2 in
      let (text, body, raw_body, e1, e2, e3, e4) = encrypt_for-inversion g i m t sealed_for in
      (
        text,
        body,
        raw_body,
        encrypt-IsSealed db msg.room group_id g i m.body text of_room stored e1,
        e2,
        e3,
        e4 ∙ ap (λ (o : CoreMessage). some o.message) (ok-injective built),
        ap (λ (o : CoreMessage). o.room) (sym (ok-injective built)),
      )

  maybe_encrypt-IsSafe :
      (db : x.sled.Db) (msg out : CoreMessage)
      → maybe_encrypt db msg ≡ ok out
      → (m : GenericProtocolMessage) × (x.generic.read msg.message ≡ some m)
        × IsSafe db msg m out m.receiver
  unfolding maybe_encrypt
  maybe_encrypt-IsSafe db msg out h =
      let (m, reads, h1) =
        ok_or_bind-eq-ok (x.generic.read msg.message) parse_generic_protocol_message _ h in
      (m, reads, encrypt_to-IsSafe db msg out m m.receiver h1)

  encrypt_to-fails :
      (db : x.sled.Db) (msg : CoreMessage) (m : GenericProtocolMessage) (receiver : Option ℕ)
      (f : Failure)
      → encrypt_to db msg m receiver ≡ err f
      → (i : ℕ) × (receiver ≡ some i) × (encrypt_to db msg m (some i) ≡ err f)
  unfolding encrypt_to
  encrypt_to-fails db msg m none f h = absurd (cc h)
  encrypt_to-fails db msg m (some i) f h = (i, refl, h)

  -- A message that cannot be encrypted is no protocol message, or is for one party, for which it
  -- cannot be encrypted.
  maybe_encrypt-fails :
      (db : x.sled.Db) (msg : CoreMessage) (f : Failure)
      → maybe_encrypt db msg ≡ err f
      → (x.generic.read msg.message ≡ none)
        ⊎ ((m : GenericProtocolMessage) × (i : ℕ) × (x.generic.read msg.message ≡ some m)
            × (m.receiver ≡ some i)
            × (encrypt_to db msg m (some i) ≡ err f))
  unfolding maybe_encrypt
  maybe_encrypt-fails db msg f h = elim (Option-cases (x.generic.read msg.message)) [
    | inl unread ↦ inl unread
    | inr (m, reads) ↦
        let (i, to, fails) = encrypt_to-fails db msg m m.receiver f (rw reads at h) in
        inr (m, i, reads, to, fails)
  ]

  -- A player or signer hands the coordinator a message. It is no protocol message, and nothing
  -- leaves; or it is for one party and cannot be encrypted for it, and nothing leaves; or it is for all, and leaves as it is; or it
  -- is for one party, and what leaves has the body encrypted under the public key that stands at
  -- that party's index in the group of the room, and is the same otherwise.
  pub outgoing-IsSafe :
      {E : Type 0} (msg : CoreMessage) (s : Coordinator)
      → (s' : Coordinator) × (handle_coordinator_message {E = E} (outgoing msg) s ≡ done tt s')
        × (((s' ≡ s) × (x.generic.read msg.message ≡ none))
            ⊎ ((s' ≡ s)
                × (m : GenericProtocolMessage) × (i : ℕ) × (x.generic.read msg.message ≡ some m)
                × (m.receiver ≡ some i)
                × (f : Failure) × (encrypt_to s.db msg m (some i) ≡ err f))
            ⊎ ((m : GenericProtocolMessage) × (out : CoreMessage) × (x.generic.read msg.message
                  ≡ some m)
                × IsSafe s.db msg m out m.receiver
                × (s' ≡ after_effect (sends_out out) s)))
  unfolding handle_coordinator_message
  outgoing-IsSafe msg s = elim (Result-cases (maybe_encrypt s.db msg)) [
    | inr (f, e) ↦ (
      s,
      rw (e, handle_coordinator_message) refl,
      elim (maybe_encrypt-fails s.db msg f e) [
        | inl unread ↦ inl (refl, unread)
        | inr (m, i, reads, to, fails) ↦ inr (inl (refl, m, i, reads, to, f, fails))
      ],
    )
    | inl (out, e) ↦
        let (m, reads, safe) = maybe_encrypt-IsSafe s.db msg out e in
        (
          after_effect (sends_out out) s,
          rw (e, handle_coordinator_message) refl,
          inr (inr (m, out, reads, safe, refl)),
        )
  ]

-- ===== src/Storage/RoundTrip.antt =====
-- What the two stores give back after a save.
use mpc_server.Common.{
  ◌≡◌, ◌≢◌, none, some, ok, Text, text_eq, text_eq_refl, text_eq_iff, if◌then◌else◌, arith,
  Option-cases, inl, inr, ◌∙◌, sym, subst,
}
use mpc_server.Common.Fallible.{ok_or_bind-eq-ok, map_err_bind-eq-ok, ok_or-eq-ok, ok-injective}
use mpc_server.Failure.{get_own_public_key, encoding_share, encrypt_share, serialize_local_share}
use mpc_server.External.Crypto.{Crypto, CryptoLaws}
use mpc_server.External.Gg20.{Gg20}
use mpc_server.External.Sled.{Sled, SledLaws}
use mpc_server.External.Serde.{Serde, SerdeLaws}
use mpc_server.Group.{PublicKeyGroup, get_group_id, safe_encrypt, safe_decrypt}
use mpc_server.Storage.GroupStore.{retrieve_group, save_group}
use mpc_server.Storage.ShareStore.{
  StoredLocalShare, EncryptedStoredLocalShare, own_key, encrypt, decrypt, save, retrieve, sum_pk,
}

save_group-inversion :
    ⦃sled : Sled⦄ ⦃serde : Serde PublicKeyGroup⦄ (db db' : sled.Db) (g : PublicKeyGroup)
    → save_group db g ≡ ok db'
    → (v : Text) × (serde.write g ≡ some v)
      × (sled.compare_and_swap db (get_group_id g) none (some v) ≡ some db')
unfolding save_group
save_group-inversion ⦃sled⦄ ⦃serde⦄ db db' g saved = elim (Option-cases (serde.write g)) [
  | inl e ↦ absurd (ground arith)
  | inr (v, e) ↦ (v, e, ground arith)
]

-- Only what sled holds under the id matters to `retrieve_group`.
retrieve_group-get :
    ⦃sled : Sled⦄ ⦃serde : Serde PublicKeyGroup⦄ (db db' : sled.Db) (id : Text)
    → sled.get db' id ≡ sled.get db id
    → retrieve_group db' id ≡ retrieve_group db id
unfolding retrieve_group
retrieve_group-get db db' id e = rw e

retrieve_group_written :
    ⦃sled : Sled⦄ ⦃serde : Serde PublicKeyGroup⦄ (db : sled.Db) (id v : Text) (g : PublicKeyGroup)
    → sled.get db id ≡ some (some v)
    → serde.read v ≡ some g
    → retrieve_group db id ≡ ok g
unfolding retrieve_group
retrieve_group_written db id v g e r = rw (e, r)

if_ne {ℓ} : {A : Type ℓ} (s t : Text) (x y : A) → s ≢ t → (if text_eq s t then x else y) ≡ y
if_ne s t x y h = ground (arith, text_eq_iff s t)

if_refl {ℓ} : {A : Type ℓ} (s : Text) (x y : A) → (if text_eq s s then x else y) ≡ x
if_refl s x y = rw (text_eq_refl s)

module _ ⦃sled : Sled⦄ ⦃serde : Serde PublicKeyGroup⦄ (stored : SledLaws)
    (json : SerdeLaws PublicKeyGroup) (db db' : sled.Db) (g : PublicKeyGroup)
    (saved : save_group db g ≡ ok db') where
  -- A group that is saved under an id that was free is the one that is retrieved, and what
  -- is retrieved under any other id is as before.
  pub retrieve_group-save_group :
      sled.get db (get_group_id g) ≡ some none
      → (retrieve_group db' (get_group_id g) ≡ ok g)
        × ((id : Text) → get_group_id g ≢ id → retrieve_group db' id ≡ retrieve_group db id)
  retrieve_group-save_group free =
      let (v, written, swapped) = save_group-inversion db db' g saved in
      let after = stored.swap_absent db db' (get_group_id g) v free swapped in
      (
        retrieve_group_written db' (get_group_id g) v g
            (after (get_group_id g) ∙ if_refl (get_group_id g) _ _) (json.read-write g v written),
        λ id ne. retrieve_group-get db db' id (after id ∙ if_ne (get_group_id g) id _ _ ne),
      )

  -- A save under an id that is taken succeeds and changes nothing that can be retrieved.
  pub retrieve_group-save_group_again :
      (old : Text)
      → sled.get db (get_group_id g) ≡ some (some old)
      → (id : Text) → retrieve_group db' id ≡ retrieve_group db id
  retrieve_group-save_group_again old taken id =
      let (v, written, swapped) = save_group-inversion db db' g saved in
      retrieve_group-get db db' id
        (stored.swap_present db db' (get_group_id g) v old taken swapped id)

module _ ⦃crypto : Crypto⦄ ⦃gg20 : Gg20⦄ where
  own_key-hex :
      (keys : CryptoLaws) (pk : crypto.PublicKey)
      → own_key (crypto.hex_encode (crypto.serialize_compressed pk)) ≡ ok pk
  unfolding own_key
  own_key-hex keys pk =
      rw (keys.hex_round_trip (crypto.serialize_compressed pk), keys.parse_compressed pk)

  -- What `encrypt` went through, for the holder of a known public key.
  encrypt-inversion :
      (s : StoredLocalShare gg20.LocalKey) (e : EncryptedStoredLocalShare) (pk : crypto.PublicKey)
      → own_key s.own_public_key ≡ ok pk
      → encrypt s ≡ ok e
      → (plain : Text) × (c : Text) × (gg20.local_key.write s.share ≡ some plain)
        × (safe_encrypt pk plain ≡ some c)
        × (e ≡ record {
          public_keys = s.public_keys;
          own_public_key = s.own_public_key;
          encrypted_share = crypto.hex_encode c;
        })
  unfolding encrypt
  encrypt-inversion s e pk known h =
      let (pk', parsed, rest) =
        map_err_bind-eq-ok (own_key s.own_public_key) get_own_public_key _ h in
      let (plain, written, rest') =
        ok_or_bind-eq-ok (gg20.local_key.write s.share) encoding_share _ rest in
      let (c, sealed, built) = ok_or_bind-eq-ok (safe_encrypt pk' plain) encrypt_share _ rest' in
      (
        plain,
        c,
        written,
        subst (λ k. safe_encrypt k plain ≡ some c) (ok-injective (sym parsed ∙ known)) sealed,
        sym (ok-injective built),
      )

  -- An encrypted share decrypts to the share, with the secret key of its own public key.
  pub decrypt-encrypt :
      (keys : CryptoLaws) (share_json : SerdeLaws gg20.LocalKey ⦃serde = gg20.local_key⦄)
      (sk : crypto.SecretKey) (s : StoredLocalShare gg20.LocalKey) (e : EncryptedStoredLocalShare)
      → s.own_public_key
        ≡ crypto.hex_encode (crypto.serialize_compressed (crypto.from_secret_key sk))
      → encrypt s ≡ ok e
      → decrypt e sk ≡ ok s
  decrypt-encrypt keys share_json sk s e own h =
      let pk = crypto.from_secret_key sk in
      let (plain, c, written, sealed, built) =
        encrypt-inversion s e pk (rw own (own_key-hex keys pk)) h in
      rw built (
        unfold decrypt safe_decrypt safe_encrypt in
        rw (
          keys.hex_round_trip c,
          keys.ecies_round_trip sk plain c sealed,
          share_json.read-write s.share plain written,
        ))

module _ ⦃crypto : Crypto⦄ ⦃gg20 : Gg20⦄ ⦃sled : Sled⦄
    ⦃serde : Serde EncryptedStoredLocalShare⦄ where
  -- What a successful `save` went through.
  save-inversion :
      (db db' : sled.Db) (s : StoredLocalShare gg20.LocalKey)
      → save db s ≡ ok db'
      → (e : EncryptedStoredLocalShare) × (out : Text) × (encrypt s ≡ ok e)
        × (serde.write e ≡ some out)
        × (sled.compare_and_swap db (sum_pk s.share) none (some out) ≡ some db')
  unfolding save
  save-inversion db db' s h =
      let (e, sealed, rest) = map_err_bind-eq-ok (encrypt s) encrypt_share _ h in
      let (out, written, rest') = ok_or_bind-eq-ok (serde.write e) serialize_local_share _ rest in
      (e, out, sealed, written, ok_or-eq-ok _ _ rest')

  retrieve_written :
      (db : sled.Db) (sk : crypto.SecretKey) (key out : Text) (e : EncryptedStoredLocalShare)
      (s : StoredLocalShare gg20.LocalKey)
      → sled.get db key ≡ some (some out)
      → serde.read out ≡ some e
      → decrypt e sk ≡ ok s
      → retrieve db sk key ≡ ok s
  unfolding retrieve
  retrieve_written db sk key out e s at reads opens = rw (at, reads, opens)

  module _ (stored : SledLaws) (keys : CryptoLaws)
      (share_json : SerdeLaws gg20.LocalKey ⦃serde = gg20.local_key⦄)
      (file_json : SerdeLaws EncryptedStoredLocalShare) where
    -- A share that is saved under a joint key which had none is retrieved as it was, by the
    -- holder of the secret key whose public key the share names as its own.
    pub retrieve-save :
        (db db' : sled.Db) (sk : crypto.SecretKey) (s : StoredLocalShare gg20.LocalKey)
        → s.own_public_key
          ≡ crypto.hex_encode (crypto.serialize_compressed (crypto.from_secret_key sk))
        → sled.get db (sum_pk s.share) ≡ some none
        → save db s ≡ ok db'
        → retrieve db' sk (sum_pk s.share) ≡ ok s
    retrieve-save db db' sk s own free h =
        let (e, out, sealed, written, swapped) = save-inversion db db' s h in
        let key = sum_pk s.share in
        retrieve_written db' sk key out e s
          (stored.swap_absent db db' key out free swapped key ∙ if_refl key _ _)
          (file_json.read-write e out written) (decrypt-encrypt keys share_json sk s e own sealed)

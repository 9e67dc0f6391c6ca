-- ===== src/Coordinator/Lifecycle.antt =====
-- A key is generated, and then it signs.
use mpc_server.Common.{
  ◌⊎◌, inl, inr, sym, ℕ, ◌≡◌, refl, ap, ◌∙◌, none, some, List, [], ◌∷◌, ◌++◌, ok, err, failed, done,
  remove,
}
use mpc_server.External.Crypto.{CryptoLaws}
use mpc_server.External.Serde.{SerdeLaws}
use mpc_server.External.Sled.{SledLaws}
use mpc_server.Externals.{Externals, the_sled, the_crypto, the_gg20, the_groups, the_shares}
use mpc_server.Failure.{Failure, retrieve_local_share}
use mpc_server.Group
use mpc_server.Group.{PublicKeyGroup, get_i, get_group_id, as_u16, get_index}
use mpc_server.Group.Agreement.{new_threshold}
use mpc_server.Messages.{ProtocolOutput}
use mpc_server.Proto.{KeygenRequest, SignRequest, RequestType, RequestStatus}
use mpc_server.Prom.{requests_keygen_done, requests_sign_handled}
use mpc_server.Room.{make_room_id}
use mpc_server.Storage.ShareStore.{
  StoredLocalShare, EncryptedStoredLocalShare, sum_pk, save, retrieve,
}
use mpc_server.Storage.RoundTrip.{retrieve-save}
use mpc_server.Transport.Clients.{own_pub_key}
use mpc_server.Coordinator.State.{Coordinator, new, responds, counts, after_effect}
use mpc_server.Coordinator.Requests.{handle_sign_request, signing_indices, response}
use mpc_server.Coordinator.Registration.{IsStarted, sign_effects, handle_sign_request-IsStarted}
use mpc_server.Coordinator.Outputs.{handle_keygen_output}

module _ ⦃x : Externals⦄ where
  -- What a server keeps of a key that was generated.
  abbrev pub share_of :
      ProtocolOutput KeygenRequest x.gg20.LocalKey → Coordinator → StoredLocalShare x.gg20.LocalKey
  share_of o s = record {
    public_keys = o.input.participant_public_keys;
    own_public_key = s.pk_str;
    share = o.output;
  }

  -- The server after a key generation, with the share in its database.
  abbrev pub with_key :
      ProtocolOutput KeygenRequest x.gg20.LocalKey
      → Coordinator
      → PublicKeyGroup
      → x.sled.Db
      → Coordinator
  with_key o s group db = record s {
    effects =
        (s.effects ++ (counts requests_keygen_done ∷ []))
        ++ (responds
              (response o.input.request_id (sum_pk o.output) RequestType.keygen RequestStatus.done)
            ∷ []);
    offline_state_runners =
        remove (make_room_id o.input.request_id (get_group_id group)) s.offline_state_runners;
    db = db;
  }

  keygen_output_lem :
      (o : ProtocolOutput KeygenRequest x.gg20.LocalKey) (s : Coordinator) (group : PublicKeyGroup)
      (db : x.sled.Db)
      → Group.new o.input.participant_public_keys (as_u16 o.input.threshold) s.pk_str ≡ some group
      → save s.db (share_of o s) ≡ ok db
      → handle_keygen_output {E = Failure} o s ≡ done tt (with_key o s group db)
  unfolding handle_keygen_output
  keygen_output_lem o s group db made saved = rw (made, saved, handle_keygen_output) refl

  -- A server that has the database and the keys of one that has saved a share finds that share.
  sign_with_share :
      SledLaws
      → CryptoLaws
      → SerdeLaws x.gg20.LocalKey ⦃serde = x.gg20.local_key⦄
      → SerdeLaws EncryptedStoredLocalShare
      → (o : ProtocolOutput KeygenRequest x.gg20.LocalKey) (s t : Coordinator)
        (group subgroup : PublicKeyGroup) (db : x.sled.Db) (req : SignRequest) (s_l : List ℕ)
        (i index : ℕ) (state : x.gg20.OfflineStage)
      → t.db ≡ db
      → t.sk ≡ s.sk
      → t.pk_str ≡ s.pk_str
      → s.pk_str ≡ own_pub_key s.sk
      → Group.new o.input.participant_public_keys (as_u16 o.input.threshold) s.pk_str ≡ some group
      → x.sled.get s.db (sum_pk o.output) ≡ some none
      → save s.db (share_of o s) ≡ ok db
      → req.public_key ≡ sum_pk o.output
      → Group.new req.participant_public_keys (x.gg20.key_threshold o.output) s.pk_str
        ≡ some subgroup
      → signing_indices
          (record group { t = x.gg20.key_threshold o.output })
          (x.gg20.key_threshold o.output)
          req.participant_public_keys
        ≡ ok s_l
      → get_i group ≡ some i
      → get_i subgroup ≡ some index
      → x.gg20.new_offline index s_l o.output ≡ some state
      → (u : Coordinator) × (handle_sign_request req t ≡ done tt u)
        × IsStarted t u
            (make_room_id req.request_id (get_group_id subgroup))
            t.offline_state_runners
            u.offline_state_runners
            (sign_effects req t.started
              (make_room_id req.request_id (get_group_id subgroup))
              index
              s_l
              state)
  sign_with_share stored keys local_key_json shares_json o s t group subgroup db req s_l i index
        state same_db same_sk same_pk identified made free saved names submade indices own subown
        machine =
      let found : retrieve t.db t.sk req.public_key ≡ ok (share_of o s) =
        ap (λ d. retrieve d t.sk req.public_key) same_db
        ∙ ap (λ k. retrieve db k req.public_key) same_sk
        ∙ ap (retrieve db s.sk) names
        ∙ retrieve-save stored keys local_key_json shares_json s.db db s.sk (share_of o s)
            identified free saved in
      handle_sign_request-IsStarted req t (share_of o s)
        (record group { t = x.gg20.key_threshold o.output }) subgroup s_l i index state found
        (ap (Group.new o.input.participant_public_keys (x.gg20.key_threshold o.output)) same_pk
          ∙ new_threshold o.input.participant_public_keys (as_u16 o.input.threshold)
              (x.gg20.key_threshold o.output) s.pk_str group made)
        (ap (Group.new req.participant_public_keys (x.gg20.key_threshold o.output)) same_pk
          ∙ submade)
        indices (unfold get_i get_index in own) subown machine

  -- A key generation ends at a server that goes by the public key of its secret key: the keys make a
  -- group with this server in it, and the share can be saved under a joint key that has none. The
  -- requester is told the joint key. After that, and also when the server has been started again
  -- with its secret key and its database, a sign request for that key starts its player, provided
  -- that its participants make a group with this server in it, are as many as the key needs and all
  -- of them members of the key generation, and that the state machine of the offline stage takes
  -- this server's place among them, their indices and the share.
  pub sign_after_keygen :
      SledLaws
      → CryptoLaws
      → SerdeLaws x.gg20.LocalKey ⦃serde = x.gg20.local_key⦄
      → SerdeLaws EncryptedStoredLocalShare
      → (o : ProtocolOutput KeygenRequest x.gg20.LocalKey) (s t : Coordinator)
        (group subgroup : PublicKeyGroup) (db : x.sled.Db) (req : SignRequest) (s_l : List ℕ)
        (i index now : ℕ) (state : x.gg20.OfflineStage)
      → s.pk_str ≡ own_pub_key s.sk
      → Group.new o.input.participant_public_keys (as_u16 o.input.threshold) s.pk_str ≡ some group
      → x.sled.get s.db (sum_pk o.output) ≡ some none
      → save s.db (share_of o s) ≡ ok db
      → (t ≡ with_key o s group db) ⊎ (t ≡ new s.sk db now)
      → req.public_key ≡ sum_pk o.output
      → Group.new req.participant_public_keys (x.gg20.key_threshold o.output) s.pk_str
        ≡ some subgroup
      → signing_indices
          (record group { t = x.gg20.key_threshold o.output })
          (x.gg20.key_threshold o.output)
          req.participant_public_keys
        ≡ ok s_l
      → get_i group ≡ some i
      → get_i subgroup ≡ some index
      → x.gg20.new_offline index s_l o.output ≡ some state
      → let room = make_room_id req.request_id (get_group_id subgroup) in
        (handle_keygen_output {E = Failure} o s ≡ done tt (with_key o s group db))
        × (u : Coordinator) × (handle_sign_request req t ≡ done tt u)
        × IsStarted t u room t.offline_state_runners u.offline_state_runners
            (sign_effects req t.started room index s_l state)
  unfolding new
  sign_after_keygen stored keys local_key_json shares_json o s t group subgroup db req s_l i index
        now state identified made free saved which names submade indices own subown machine =
      let kept : (t.db ≡ db) × (t.sk ≡ s.sk) × (t.pk_str ≡ s.pk_str) = elim which [
        | inl e ↦ rw e (refl, refl, refl)
        | inr e ↦ rw e (refl, refl, sym identified)
      ] in
      let (u, starts, started) =
        sign_with_share stored keys local_key_json shares_json o s t group subgroup db req s_l i
          index state kept.0 kept.1 kept.2 identified made free saved names submade indices own
          subown machine in
      (keygen_output_lem o s group db made saved, u, starts, started)

  unsaved_lem :
      (o : ProtocolOutput KeygenRequest x.gg20.LocalKey) (s : Coordinator) (group : PublicKeyGroup)
      (f : Failure)
      → Group.new o.input.participant_public_keys (as_u16 o.input.threshold) s.pk_str ≡ some group
      → save s.db (share_of o s) ≡ err f
      → handle_keygen_output {E = Failure} o s ≡ done tt (with_key o s group s.db)
  unfolding handle_keygen_output
  unsaved_lem o s group f made failing = rw (made, failing, handle_keygen_output) refl

  -- A key generation ends, and its share is not saved, under a joint key that has none. The
  -- requester is told that it is done, with the joint key, as if it had been; and a sign request
  -- for that key fails, and all that it leaves is that it has been counted.
  pub sign_after_unsaved_key :
      (o : ProtocolOutput KeygenRequest x.gg20.LocalKey) (s : Coordinator) (group : PublicKeyGroup)
      (f : Failure) (req : SignRequest)
      → Group.new o.input.participant_public_keys (as_u16 o.input.threshold) s.pk_str ≡ some group
      → x.sled.get s.db (sum_pk o.output) ≡ some none
      → save s.db (share_of o s) ≡ err f
      → req.public_key ≡ sum_pk o.output
      → let t = with_key o s group s.db in
        (handle_keygen_output {E = Failure} o s ≡ done tt t)
        × (handle_sign_request req t
            ≡ failed retrieve_local_share (after_effect (counts requests_sign_handled) t))
  unfolding handle_sign_request retrieve
  sign_after_unsaved_key o s group f req made free failing names =
      (unsaved_lem o s group f made failing, rw (names, free) refl)

-- ===== src/System/Parties.antt =====
-- Two servers that take part in one key generation.
use mpc_server.Common.{
  ℕ, ◌-◌, ◌≡◌, ◌≢◌, ◌<◌, refl, sym, ap, ◌∙◌, true, some, List, [], ◌∷◌, ◌++◌, ok, Text, subst, done,
  insert, lookup, length, contains,
}
use mathlib.Core.List.{append_assoc}
use mpc_server.Cipher.{RawValueLaws, maybe_encrypt}
use mpc_server.External.Crypto.{CryptoLaws}
use mpc_server.External.RoundBased.{Msg}
use mpc_server.External.Serde.{Serde, SerdeLaws}
use mpc_server.External.Sled.{SledLaws}
use mpc_server.Externals.{
  Externals, the_sled, the_crypto, the_gg20, the_raw, the_generic, the_sealed, the_groups,
}
use mpc_server.Failure.{Failure}
use mpc_server.Group.{PublicKeyGroup, get_index, get_group_id, as_u16}
use mpc_server.Group.Agreement.{room_has_part, own_place, found_key, same_group, own_indices_differ}
use mpc_server.Messages.{GenericProtocolMessage, Encrypted}
use mpc_server.Proto.{CoreMessage, WireMessage, KeygenRequest}
use mpc_server.Room.{room_separator, extract_group_id, make_room_id}
use mpc_server.Room.Laws.{IsFree, extract_group_id-make_room_id}
use mpc_server.Storage.GroupStore.{retrieve_group}
use mpc_server.Storage.RoundTrip.{retrieve_group-save_group}
use mpc_server.Transport.{incoming, outgoing}
use mpc_server.Transport.Clients.{own_pub_key}
use mpc_server.Coordinator.State.{Coordinator, sends_keygen, counts}
use mpc_server.Coordinator.Registration.{insert-IsRegistered}
use mpc_server.Coordinator.Requests.{handle_keygen_request}
use mpc_server.Coordinator.Incoming.{envelope}
use mpc_server.Coordinator.Routing.{to_keygen}
use mpc_server.Prom.{messages_keygen_handled}
use mpc_server.Coordinator.Dispatch.{handle_stream}
use mpc_server.System.Sealed.{IsAddressed, taken, sealed_arrives}
use mpc_server.System.Ready.{IsReady, room_of, HasPlayer, with_player, ready-HasPlayer, handled_is}

room_of_parts : (id g : Text) → make_room_id id g ≡ (id ++ (room_separator ∷ [])) ++ g
unfolding make_room_id
room_of_parts id g = sym (append_assoc id (room_separator ∷ []) g)

module _ ⦃x : Externals⦄ where
  -- A protocol message for the party of one index, in a room, and the text that serde writes for
  -- it; its body is UTF-8 and a raw value as it stands.
  pub record IsPrivate (msg : CoreMessage) (room : Text) (i : ℕ) (original : Text) : Type 0 where
    pub m : GenericProtocolMessage
    pub in_room : msg.room ≡ room
    pub reads : x.generic.read msg.message ≡ some m
    pub to : m.receiver ≡ some i
    pub utf8 : x.crypto.is_utf8 m.body ≡ true
    pub raw : x.raw.from_string m.body ≡ some m.body
    pub written : x.generic.write m ≡ some original

  -- A text arrives at a server as a message, and is handed to a player.
  abbrev pub IsHanded :
      ⦃wire : Serde WireMessage⦄ → Coordinator → ℕ → Text → Text → Msg x.gg20.KeygenBody → Type 0
  IsHanded s player text original body =
      (w : WireMessage) × (incoming (own_pub_key s.sk) (ok text ∷ []) ≡ ok w ∷ [])
      × (handle_stream {E = Failure} (ok w) s ≡ done tt (taken (record w { payload = original }) s))
      × (to_keygen (record w { payload = original }) s
          ≡ sends_keygen player (envelope (record w { payload = original }) body)
            ∷ counts messages_keygen_handled
            ∷ [])

  module _ (stored : SledLaws) (groups_json : SerdeLaws PublicKeyGroup) (req : KeygenRequest)
      (a b : Coordinator) (ra : IsReady req a) (rb : IsReady req b)
      (small : length req.participant_public_keys < 65536) where
    abbrev keys_of : List Text
    keys_of = req.participant_public_keys

    same_id : get_group_id ra.group ≡ get_group_id rb.group
    same_id =
        (same_group keys_of (as_u16 req.threshold) a.pk_str b.pk_str ra.group rb.group ra.made
          rb.made).0

    same_room : room_of req a ra ≡ room_of req b rb
    same_room = ap (make_room_id req.request_id) same_id

    -- Two servers with different keys are asked for one key generation, of fewer than 65536 keys.
    -- On each of them a group can be made, with the server in it, the state machine takes the
    -- parameters, nothing is stored under the group's id, and the group is saved; each goes by the
    -- public key of its secret key. Then both handle the request without an error, and each starts
    -- one player and registers it under a room: the room is the same, and the players have
    -- different indices.
    pub parties_differ :
        a.pk_str ≢ b.pk_str
        → (a' b' : Coordinator) × (room : Text) × (i j : ℕ) × HasPlayer req a a' room i
          × HasPlayer req b b' room j
          × (i ≢ j)
    parties_differ apart = (
      with_player req a ra,
      with_player req b rb,
      room_of req a ra,
      ra.i,
      rb.i,
      ready-HasPlayer req a ra,
      subst (λ room. HasPlayer req b (with_player req b rb) room rb.i) (sym same_room)
          (ready-HasPlayer req b rb),
      λ same. apart (
          own_indices_differ keys_of (as_u16 req.threshold) a.pk_str b.pk_str ra.group rb.group
            ra.made rb.made ra.i rb.i small ra.own rb.own same),
    )

    module _ ⦃wire : Serde WireMessage⦄ where
      parties-IsAddressed :
          (msg : CoreMessage) (original : Text)
          → IsFree req.request_id
          → IsFree (get_group_id ra.group)
          → a.pk_str ≢ b.pk_str
          → IsPrivate msg (room_of req a ra) rb.i original
          → IsAddressed ⦃wire = wire⦄ (with_player req a ra) (with_player req b rb) msg original
      parties-IsAddressed msg original free_id free_group apart p =
          let t = as_u16 req.threshold in
          let (_, keys_same) =
            same_group keys_of t a.pk_str b.pk_str ra.group rb.group ra.made rb.made in
          let (key_at, place) = own_place keys_of t b.pk_str rb.group rb.made rb.i small rb.own in
          let (_, sender_place) = own_place keys_of t a.pk_str ra.group ra.made ra.i small ra.own in
          let (k, found) =
            found_key keys_of t b.pk_str rb.group rb.made (ra.i - 1) a.pk_str sender_place in
          let (part, own_part, has_part) =
            room_has_part keys_of t a.pk_str ra.group ra.made (rb.i - 1) b.pk_str
              (req.request_id ++ (room_separator ∷ [])) place in
          record {
            m = p.m;
            i = rb.i;
            group_id = get_group_id ra.group;
            theirs = ra.group;
            ours = rb.group;
            sender_index = k;
            part = part;
            reads = p.reads;
            to = p.to;
            names =
                ap extract_group_id p.in_room
                ∙ extract_group_id-make_room_id req.request_id (get_group_id ra.group) free_id
                    free_group;
            stored_there =
                (retrieve_group-save_group stored groups_json a.db ra.db' ra.group ra.saved
                  ra.free).0;
            key_there = keys_same rb.i ∙ key_at ∙ ap ok rb.identified;
            stored_here =
                ap (retrieve_group rb.db') same_id
                ∙ (retrieve_group-save_group stored groups_json b.db rb.db' rb.group rb.saved
                    rb.free).0;
            member = ap (get_index rb.group) (sym ra.identified) ∙ found;
            own_index = rb.own;
            own_part = own_part;
            in_room =
                ap (λ r. contains r part)
                  (p.in_room ∙ room_of_parts req.request_id (get_group_id ra.group))
                ∙ has_part;
            utf8 = p.utf8;
            raw = p.raw;
            written = p.written;
            apart = λ e. apart (ra.identified ∙ sym e ∙ sym rb.identified);
          }

      with_players-IsHanded :
          CryptoLaws
          → RawValueLaws
          → SerdeLaws Encrypted
          → SerdeLaws GenericProtocolMessage
          → SerdeLaws WireMessage
          → (msg out : CoreMessage) (original text : Text) (body : Msg x.gg20.KeygenBody)
          → IsFree req.request_id
          → IsFree (get_group_id ra.group)
          → a.pk_str ≢ b.pk_str
          → IsPrivate msg (room_of req a ra) rb.i original
          → maybe_encrypt ra.db' msg ≡ ok out
          → outgoing a.sk out ≡ ok text
          → x.gg20.keygen_msg.read original ≡ some body
          → IsHanded (with_player req b rb) b.started text original body
      unfolding to_keygen
      with_players-IsHanded keys raw_laws sealed_laws generic_laws wire_laws msg out original text
            body free_id free_group apart p encrypts signs reads =
          let (_, w, streamed, room, handled) =
            sealed_arrives keys raw_laws sealed_laws generic_laws wire_laws (with_player req a ra)
              (with_player req b rb) msg out original text
              (parties-IsAddressed msg original free_id free_group apart p) encrypts signs in
          let here : w.room ≡ room_of req b rb = room ∙ p.in_room ∙ same_room in
          let found : lookup w.room (insert (room_of req b rb) b.started b.keygen_runners)
              ≡ some b.started =
            ap (λ r. lookup r (insert (room_of req b rb) b.started b.keygen_runners)) here
            ∙ (insert-IsRegistered (room_of req b rb) b.started b.keygen_runners).0 in
          (w, streamed, handled, rw (found, reads) refl)

      -- Two servers with different keys are asked for one key generation, of fewer than 65536 keys.
      -- On each of them a group can be made, with the server in it, the state machine takes the
      -- parameters, nothing is stored under the group's id, the group is saved, and the server has
      -- handled the request; each goes by the public key of its secret key, and neither the
      -- request's id nor the group's has the separator of rooms. Then each has one new player, and
      -- the two are in one room. What the first one's coordinator sends in that room to the index
      -- of the second one's player, a message of the state machine with a UTF-8 body that is a raw
      -- JSON value as it stands, encrypted, signed and broadcast, arrives: the second one's stream
      -- takes it in as one message, and its coordinator hands it, decrypted, to its player.
      pub keygen_message_arrives :
          CryptoLaws
          → RawValueLaws
          → SerdeLaws Encrypted
          → SerdeLaws GenericProtocolMessage
          → SerdeLaws WireMessage
          → (a' b' : Coordinator) (msg out : CoreMessage) (original text : Text)
            (body : Msg x.gg20.KeygenBody)
          → handle_keygen_request req a ≡ done tt a'
          → handle_keygen_request req b ≡ done tt b'
          → IsFree req.request_id
          → IsFree (get_group_id ra.group)
          → a.pk_str ≢ b.pk_str
          → IsPrivate msg (room_of req a ra) rb.i original
          → maybe_encrypt a'.db msg ≡ ok out
          → outgoing a'.sk out ≡ ok text
          → x.gg20.keygen_msg.read original ≡ some body
          → HasPlayer req a a' msg.room ra.i
            × HasPlayer req b b' msg.room rb.i
            × IsHanded b' b.started text original body
      keygen_message_arrives keys raw_laws sealed_laws generic_laws wire_laws a' b' msg out original
            text body a_handles b_handles free_id free_group apart p encrypts signs reads =
          let a_is = handled_is req a a' ra a_handles in
          let b_is = handled_is req b b' rb b_handles in
          (
            subst (λ s. HasPlayer req a s msg.room ra.i) a_is
                (subst (λ room. HasPlayer req a (with_player req a ra) room ra.i) (sym p.in_room)
                  (ready-HasPlayer req a ra)),
            subst (λ s. HasPlayer req b s msg.room rb.i) b_is
                (subst (λ room. HasPlayer req b (with_player req b rb) room rb.i)
                  (sym (p.in_room ∙ same_room)) (ready-HasPlayer req b rb)),
            subst (λ s. IsHanded s b.started text original body) b_is
                (with_players-IsHanded keys raw_laws sealed_laws generic_laws wire_laws msg out
                  original text body free_id free_group apart p
                  (ap (λ (s : Coordinator). maybe_encrypt s.db msg) a_is ∙ encrypts)
                  (ap (λ (s : Coordinator). outgoing s.sk out) a_is ∙ signs) reads),
          )

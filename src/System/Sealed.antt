-- ===== src/System/Sealed.antt =====
-- A message for one receiver, from the coordinator that sends it to the one that takes it.
use mpc_server.Common.{
  ℕ, ◌≡◌, ◌≢◌, refl, sym, ap, ◌∙◌, subst, true, [], ◌∷◌, some, ok, Text, done, slice, contains,
}
use mpc_server.Cipher.{RawValueLaws, maybe_encrypt, maybe_decrypt}
use mpc_server.Cipher.RoundTrip.{maybe_decrypt-maybe_encrypt, maybe_encrypt-reads}
use mpc_server.External.Crypto.{CryptoLaws}
use mpc_server.External.Serde.{Serde, SerdeLaws}
use mpc_server.Externals.{
  Externals, the_sled, the_crypto, the_gg20, the_raw, the_generic, the_sealed, the_groups,
}
use mpc_server.Failure.{Failure}
use mpc_server.Group.{PublicKeyGroup, get_index, get_i, get_public_key}
use mpc_server.Messages.{GenericProtocolMessage, Encrypted, RetryMessage, CoordinatorMessage}
use mpc_server.Prom.{messages_total_received}
use mpc_server.Proto.{CoreMessage, WireMessage}
use mpc_server.Room.{extract_group_id}
use mpc_server.Storage.GroupStore.{retrieve_group}
use mpc_server.Transport.{incoming, outgoing}
use mpc_server.Transport.RoundTrip.{incoming-outgoing}
use mpc_server.Transport.Clients.{own_pub_key}
use mpc_server.Coordinator.State.{Coordinator, counts, sends_out, after_effect}
use mpc_server.Coordinator.Acceptance.{IsForUs, IsAccepted, IsAccepted-valid}
use mpc_server.Coordinator.Delivery.{routed}
use mpc_server.Coordinator.Dispatch.{handle_coordinator_message, handle_stream, send_encrypted}
use mpc_server.Coordinator.Incoming.{handle_incoming, handle_checked, handle_decrypted}
use mpc_server.Coordinator.Routing.{
  to_offline, to_signer, to_keygen, with_effects, or_retried, handle_incoming_unsafe_lem,
}

module _ ⦃x : Externals⦄ ⦃wire : Serde WireMessage⦄ where
  -- A message of one coordinator for another: it is a protocol message for one receiver, and its
  -- room names a group that both have stored. For the sender, the receiver's key stands at the
  -- index that the message is for; for the receiver that index is its own, the sender is in the
  -- group, and a part of its own key is in the room. The text is the one that serde writes, and
  -- its body is UTF-8 and a raw value as it stands. The two have different keys.
  pub record IsAddressed (a b : Coordinator) (msg : CoreMessage) (original : Text) : Type 0 where
    pub m : GenericProtocolMessage
    pub i : ℕ
    pub group_id : Text
    pub theirs : PublicKeyGroup
    pub ours : PublicKeyGroup
    pub sender_index : ℕ
    pub part : Text
    pub reads : x.generic.read msg.message ≡ some m
    pub to : m.receiver ≡ some i
    pub names : extract_group_id msg.room ≡ ok group_id
    pub stored_there : retrieve_group a.db group_id ≡ ok theirs
    pub key_there : get_public_key theirs i ≡ ok (own_pub_key b.sk)
    pub stored_here : retrieve_group b.db group_id ≡ ok ours
    pub member : get_index ours (own_pub_key a.sk) ≡ some sender_index
    pub own_index : get_i ours ≡ some i
    pub own_part : slice b.pk_str 2 10 ≡ some part
    pub in_room : contains msg.room part ≡ true
    pub utf8 : x.crypto.is_utf8 m.body ≡ true
    pub raw : x.raw.from_string m.body ≡ some m.body
    pub written : x.generic.write m ≡ some original
    pub apart : own_pub_key b.sk ≢ own_pub_key a.sk

  -- The first try of a message.
  abbrev pub first_retry : WireMessage → ℕ → RetryMessage
  first_retry w now = record {
    message = w;
    initial_timestamp = now;
    attempts = 1;
    check_passed = true;
  }

  -- What the receiver does with a message that it accepts and decrypts.
  abbrev pub taken : WireMessage → Coordinator → Coordinator
  taken w b =
      let counted = with_effects b (counts messages_total_received ∷ []) in
      with_effects counted (or_retried (first_retry w b.clock) (routed w b))

  accepted_taken :
      (b : Coordinator) (w : WireMessage) (part original : Text)
      → slice b.pk_str 2 10 ≡ some part
      → contains w.room part ≡ true
      → IsAccepted b.db w
      → maybe_decrypt b.sk w ≡ ok (record w { payload = original })
      → handle_stream {E = Failure} (ok w) b ≡ done tt (taken (record w { payload = original }) b)
  unfolding handle_stream handle_coordinator_message handle_incoming handle_checked handle_decrypted
      to_offline to_signer to_keygen
  accepted_taken b w part original own in_room accepted opens =
      let counted = with_effects b (counts messages_total_received ∷ []) in
      rw (own, in_room, IsAccepted-valid w counted accepted, opens)
        (handle_incoming_unsafe_lem (record w { payload = original }) b.clock 0 counted)

  module _ (keys : CryptoLaws) (raw_laws : RawValueLaws) (sealed_laws : SerdeLaws Encrypted)
      (generic_laws : SerdeLaws GenericProtocolMessage) (wire_laws : SerdeLaws WireMessage) where
    arrived-IsAccepted :
        (a b : Coordinator) (msg out : CoreMessage) (original : Text) (w : WireMessage)
        → IsAddressed a b msg original
        → maybe_encrypt a.db msg ≡ ok out
        → w.room ≡ msg.room
        → w.payload ≡ out.message
        → w.sender_public_key ≡ own_pub_key a.sk
        → IsAccepted b.db w
    arrived-IsAccepted a b msg out original w h encrypts room payload sender =
        let (n, reads, to) =
          maybe_encrypt-reads keys raw_laws sealed_laws generic_laws a.db h.theirs h.i msg out h.m
            h.group_id h.reads h.to h.names h.stored_there encrypts in
        record {
          group_id = h.group_id;
          group = h.ours;
          sender_index = h.sender_index;
          generic = n;
          room_names = ap extract_group_id room ∙ h.names;
          stored = h.stored_here;
          member = ap (get_index h.ours) sender ∙ h.member;
          payload_reads = ap x.generic.read payload ∙ reads;
          for_us = subst (IsForUs h.ours) (sym to) h.own_index;
        }

    -- A coordinator has a message for one receiver, as described by `IsAddressed`, that it can
    -- encrypt and that its sink can sign. It sends the encrypted message out. The receiver's stream
    -- makes of the broadcast text one message, in the same room, and the receiver's coordinator
    -- accepts it, decrypts it to the text that the sender began with, and hands it to the actors
    -- of the room that can read it; if there is none, it tries that text again later.
    pub sealed_arrives :
        (a b : Coordinator) (msg out : CoreMessage) (original text : Text)
        → IsAddressed a b msg original
        → maybe_encrypt a.db msg ≡ ok out
        → outgoing a.sk out ≡ ok text
        → (handle_coordinator_message {E = Failure} (CoordinatorMessage.outgoing msg) a
            ≡ done tt (after_effect (sends_out out) a))
          × (w : WireMessage) × (incoming (own_pub_key b.sk) (ok text ∷ []) ≡ ok w ∷ [])
          × (w.room ≡ msg.room)
          × (handle_stream {E = Failure} (ok w) b
              ≡ done tt (taken (record w { payload = original }) b))
    unfolding handle_coordinator_message send_encrypted
    sealed_arrives a b msg out original text h encrypts signs =
        let (w, streamed, out_room, payload, sender) =
          incoming-outgoing keys wire_laws a.sk (own_pub_key b.sk) text out h.apart signs in
        let (kept, opens) =
          maybe_decrypt-maybe_encrypt keys raw_laws sealed_laws generic_laws a.db h.theirs h.i b.sk
            msg out h.m h.group_id original w h.reads h.to h.names h.stored_there h.key_there h.utf8
            h.raw h.written encrypts payload in
        let room : w.room ≡ msg.room = out_room ∙ kept in
        (
          rw encrypts refl,
          w,
          streamed,
          room,
          accepted_taken b w h.part original h.own_part
              (ap (λ r. contains r h.part) room ∙ h.in_room)
              (arrived-IsAccepted a b msg out original w h encrypts room payload sender) opens,
        )

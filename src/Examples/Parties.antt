-- ===== src/Examples/Parties.antt =====
-- The servers of bob and of alice in one key generation.
use mpc_server.Common.{
  ℕ, ◌≡◌, ◌≢◌, ◌⊎◌, refl, [], ◌∷◌, some, none, ok, err, Text, bytes, lookup, insert, text_eq, slice,
  done, arith,
}
use mpc_server.Cipher.{maybe_encrypt, encrypt_for, encrypt_to}
use mpc_server.External.RoundBased.{Msg}
use mpc_server.Externals.{
  the_sled, the_crypto, the_raw, the_generic, the_sealed, the_groups, the_gg20,
}
use mpc_server.Failure.{Failure}
use mpc_server.Group
use mpc_server.Group.{PublicKeyGroup, encrypt, get_public_key, get_index, get_i, get_group_id}
use mpc_server.Proto.{CoreMessage}
use mpc_server.Room.{extract_group_id, split, make_room_id}
use mpc_server.Storage.GroupStore.{retrieve_group, save_group}
use mpc_server.Coordinator.Dispatch.{handle_coordinator_message}
use mpc_server.Messages.{GenericProtocolMessage, outgoing as outgoing_message}
use mpc_server.Coordinator.Confidential.{IsSafe, outgoing-IsSafe}
use mpc_server.Coordinator.State.{Coordinator, after_effect, sends_out}
use mpc_server.System.Ready.{IsReady, HasPlayer, with_player, ready_lem}
use mpc_server.System.Parties.{IsPrivate, IsHanded, parties_differ, keygen_message_arrives}
use mpc_server.Transport.{outgoing, hashed, sign_envelope}
use mpc_server.Examples.Instances.{
  libraries, map_sled_laws, groups_laws, plain_crypto_laws, raw_value_laws, sealed_laws,
  generic_laws, wire_serde, wire_laws,
}
use mpc_server.Examples.Inputs.{bob, group, group_id, stored_group, message_text}
use mpc_server.Examples.Messages.{message, clear, sent}
use mpc_server.Examples.Reach.{request, created}
use mpc_server.Examples.Sealed.{group_of_bob, stored_by_bob, text}

abbrev of_bob : Coordinator
of_bob = record created { pk_str = bob; sk = bob }

bob_ready : IsReady request of_bob
unfolding Group.new slice get_i get_index text_eq save_group lookup insert
bob_ready = record {
  group = group_of_bob;
  i = 2;
  state = 2;
  db' = (group_id, stored_by_bob) ∷ [];
  made = refl;
  own = refl;
  machine = refl;
  free = refl;
  saved = refl;
  identified = refl;
}

alice_ready : IsReady request created
unfolding Group.new slice get_i get_index text_eq save_group lookup insert
alice_ready = record {
  group = group;
  i = 1;
  state = 1;
  db' = (group_id, stored_group) ∷ [];
  made = refl;
  own = refl;
  machine = refl;
  free = refl;
  saved = refl;
  identified = refl;
}

parties_differ_example :
    (a' b' : Coordinator) × (room : Text) × (i j : ℕ) × HasPlayer request of_bob a' room i
    × HasPlayer request created b' room j
    × (i ≢ j)
parties_differ_example =
    parties_differ map_sled_laws groups_laws request of_bob created bob_ready alice_ready
      (omega arith) (ground arith)

private : IsPrivate clear (make_room_id (bytes "r") group_id) 1 (message_text 1)
unfolding make_room_id
private = record {
  m = message;
  in_room = refl;
  reads = refl;
  to = refl;
  utf8 = refl;
  raw = refl;
  written = refl;
}

encrypts : maybe_encrypt ((group_id, stored_by_bob) ∷ []) clear ≡ ok sent
unfolding maybe_encrypt encrypt_for encrypt retrieve_group get_public_key extract_group_id split
    lookup text_eq
encrypts = refl

signs : outgoing bob sent ≡ ok text
unfolding outgoing hashed sign_envelope
signs = refl

abbrev body : Msg Text
body = record { sender = 2; receiver = some 1; body = bytes "hello" }

-- The servers of bob and alice after their key generation has started.
abbrev bob_started : Coordinator
bob_started = with_player request of_bob bob_ready

abbrev alice_started : Coordinator
alice_started = with_player request created alice_ready

keygen_message_arrives_example :
    HasPlayer request of_bob bob_started clear.room 2
    × HasPlayer request created alice_started clear.room 1
    × IsHanded alice_started 0 text (message_text 1) body
unfolding bob_ready alice_ready
keygen_message_arrives_example =
    keygen_message_arrives map_sled_laws groups_laws request of_bob created bob_ready alice_ready
      (omega arith) plain_crypto_laws raw_value_laws sealed_laws generic_laws wire_laws bob_started
      alice_started clear sent (message_text 1) text body (ready_lem request of_bob bob_ready)
      (ready_lem request created alice_ready) (ground arith) (ground arith) (ground arith) private
      encrypts signs refl

outgoing-IsSafe_example :
    (s' : Coordinator) × (handle_coordinator_message {E = Failure}
        (outgoing_message clear)
        bob_started
      ≡ done tt s')
    × (((s' ≡ bob_started) × (the_generic.read clear.message ≡ none))
        ⊎ ((s' ≡ bob_started)
            × (m : GenericProtocolMessage) × (i : ℕ) × (the_generic.read clear.message ≡ some m)
            × (m.receiver ≡ some i)
            × (f : Failure) × (encrypt_to bob_started.db clear m (some i) ≡ err f))
        ⊎ ((m : GenericProtocolMessage) × (out : CoreMessage) × (the_generic.read clear.message
              ≡ some m)
            × IsSafe bob_started.db clear m out m.receiver
            × (s' ≡ after_effect (sends_out out) bob_started)))
outgoing-IsSafe_example = outgoing-IsSafe clear bob_started

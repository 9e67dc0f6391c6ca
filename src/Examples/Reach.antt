-- ===== src/Examples/Reach.antt =====
-- A coordinator from its creation on: a key generation starts, and a message for it comes in.
use mpc_server.Common.{
  refl, ◌++◌, [], ◌∷◌, ok, none, bytes, slice, contains, lookup, insert, text_eq,
}
use mpc_server.Externals.{
  the_sled, the_crypto, the_gg20, the_groups, the_generic, the_raw, the_sealed,
}
use mpc_server.Failure.{Failure}
use mpc_server.Group
use mpc_server.Group.{get_i, get_index}
use mpc_server.Messages.{keygen_request}
use mpc_server.Player
use mpc_server.Proto.{RequestType, RequestStatus, KeygenRequest}
use mpc_server.Cipher.{maybe_decrypt}
use mpc_server.Prom.{requests_keygen_handled, messages_total_received, messages_keygen_handled}
use mpc_server.Room.{make_room_id, extract_group_id, split}
use mpc_server.Storage.GroupStore.{save_group, retrieve_group}
use mpc_server.Coordinator.State.{
  Coordinator, Effect, new, starts_keygen, sends_keygen, counts, responds,
}
use mpc_server.Coordinator.Requests.{handle_keygen_request, response}
use mpc_server.Coordinator.Incoming.{
  handle_incoming_offline, handle_incoming_sign, handle_incoming_keygen, handle_incoming,
  handle_checked, handle_decrypted, handle_incoming_unsafe, valid_sender_and_receiver,
  check_receiver,
}
use mpc_server.Coordinator.Dispatch.{handle_coordinator_message, handle_stream}
use mpc_server.Coordinator.Actors.{IsSound}
use mpc_server.Coordinator.Reach.{Reach, here, next, told, streamed, IsAfter, Reach-IsSound}
use mpc_server.Examples.Instances.{libraries}
use mpc_server.Examples.Inputs.{
  idle, group_id, stored_group, alice, bob, room, from_bob, broadcast_text,
}

abbrev pub request : KeygenRequest
request = record {
  request_id = bytes "r";
  participant_public_keys = alice ∷ bob ∷ [];
  threshold = 1;
}

abbrev pub created : Coordinator
created = record idle { db = [] }

abbrev delivery : Effect
delivery = sends_keygen 0 (record {
  room = room;
  wire_message = from_bob broadcast_text;
  message = record { sender = 2; receiver = none; body = bytes "hello" };
})

abbrev birth : Effect
birth = starts_keygen 0 (Player.new request room 1 1)

abbrev pub requested : Coordinator
requested = record created {
  db = (group_id, stored_group) ∷ [];
  keygen_runners = (room, 0) ∷ [];
  started = 1;
  effects =
      counts requests_keygen_handled
      ∷ responds (response (bytes "r") [] RequestType.keygen RequestStatus.processing)
      ∷ birth
      ∷ [];
}

abbrev reached : Coordinator
reached = record requested {
  effects =
      requested.effects
      ++ (counts messages_total_received ∷ delivery ∷ counts messages_keygen_handled ∷ []);
}

was_requested :
    IsAfter requested (handle_coordinator_message {E = Failure} (keygen_request request) created)
unfolding handle_coordinator_message handle_keygen_request Group.new slice get_i get_index text_eq
    lookup insert save_group make_room_id Player.new
was_requested = refl

was_streamed :
    IsAfter reached (handle_stream {E = Failure} (ok (from_bob broadcast_text)) requested)
unfolding handle_coordinator_message handle_keygen_request Group.new slice get_i get_index text_eq
    new save_group handle_stream handle_incoming handle_checked handle_decrypted contains
    valid_sender_and_receiver check_receiver extract_group_id split retrieve_group lookup insert
    handle_incoming_unsafe Player.new maybe_decrypt handle_incoming_offline handle_incoming_sign
    handle_incoming_keygen make_room_id
was_streamed = refl

reaches : Reach (new alice [] 0) reached
unfolding new
reaches =
    next (next here (told (keygen_request request) was_requested))
      (streamed (ok (from_bob broadcast_text)) was_streamed)

Reach-IsSound_example : IsSound reached
Reach-IsSound_example = Reach-IsSound alice [] 0 reached reaches

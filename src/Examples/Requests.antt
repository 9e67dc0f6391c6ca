-- ===== src/Examples/Requests.antt =====
-- The coordinator's requests and outputs at concrete inputs.
use mpc_server.Common.{◌++◌, ℕ, ◌≡◌, arith, [], ◌∷◌, none, Text, bytes}
use mpc_server.Externals.{the_gg20, the_crypto, the_sled}
use mpc_server.Group
use mpc_server.Group.{PublicKeyGroup}
use mpc_server.Messages.{ProtocolOutput, IncomingMessage}
use mpc_server.External.RoundBased.{Msg}
use mpc_server.Proto.{KeygenRequest}
use mpc_server.Signer
use mpc_server.Signer.{Task, Sent, complete, started}
use mpc_server.Signer.Collect.{deliver, own_partial, result_of, foreign, sent-deliver}
use mpc_server.Examples.Instances.{libraries}
use mpc_server.Examples.Inputs.{alice, bob, room, from_bob, broadcast_text}

-- The participants of a sign request, in another order.
abbrev of_two : PublicKeyGroup
of_two = record {
  group_id = bytes "bob00000alice000";
  t = 1;
  public_keys = bob ∷ alice ∷ [];
  own_public_key = alice;
}

abbrev of_two_for_bob : PublicKeyGroup
of_two_for_bob = record of_two { own_public_key = bob }

abbrev output : ProtocolOutput KeygenRequest Text
output = record {
  input = record {
    request_id = bytes "r";
    participant_public_keys = alice ∷ bob ∷ [];
    threshold = 1;
  };
  output = bytes "key";
}

abbrev task : Task
task = record {
  room = room;
  index = 1;
  t = 1;
  message = bytes "m";
  completed_offline_stage = bytes "s";
}

abbrev part : ℕ → Text → IncomingMessage (Msg Text)
part sender body = record {
  room = room;
  wire_message = from_bob broadcast_text;
  message = record { sender = sender; receiver = none; body = body };
}

sent-deliver_example :
    (deliver
      (started (Signer.new (bytes "input") task))
      (part 1 (bytes "a") ∷ part 2 (bytes "b") ∷ part 3 (bytes "c") ∷ [])).sent
    ≡ own_partial task
      ++ (Sent.result (record { input = bytes "input"; output = bytes "msb" }) ∷ [])
unfolding result_of foreign complete
sent-deliver_example =
    sent-deliver (bytes "input") task
      (part 1 (bytes "a") ∷ part 2 (bytes "b") ∷ part 3 (bytes "c") ∷ []) (omega arith)

-- ===== src/Examples/Signatures.antt =====
-- A signature of alice and bob, from alice's offline stage to the check of its request.
use mpc_server.Common.{◌≡◌, refl, none, ok, [], ◌∷◌, ◌++◌, Text, bytes, done, arith}
use mpc_server.Externals.{the_sled, the_crypto, the_gg20}
use mpc_server.Failure.{Failure}
use mpc_server.Proto.{RequestType, RequestStatus}
use mpc_server.Server.{check_result}
use mpc_server.Signer
use mpc_server.Signer.{result, complete, started}
use mpc_server.Signer.Collect.{deliver, foreign, own_partial}
use mpc_server.Coordinator.State.{Coordinator}
use mpc_server.Coordinator.Requests.{response}
use mpc_server.Coordinator.Outputs.{handle_offline_output, handle_sign_output, signature_text}
use mpc_server.Coordinator.Signing.{task_of}
use mpc_server.System.{leave}
use mpc_server.System.Answers.{idle, with_no_effects, saved_twice}
use mpc_server.System.Signatures.{SignMessages, output_of, signing_effects, signature_answered}
use mpc_server.Examples.Instances.{libraries, map_sled_laws, response_serde, response_laws}
use mpc_server.Examples.Inputs.{room, from_bob, broadcast_text}
use mpc_server.Examples.Reach.{created}
use mpc_server.Examples.Server.{reliable}
use mpc_server.Examples.Starts.{completed}

-- bob's signature, and alice's own, which comes back to her.
abbrev signatures : SignMessages
signatures =
    record {
      room = room;
      wire_message = from_bob broadcast_text;
      message = record { sender = 1; receiver = none; body = bytes "mine" };
    }
    ∷ record {
      room = room;
      wire_message = from_bob broadcast_text;
      message = record { sender = 2; receiver = none; body = bytes "sig" };
    }
    ∷ []

abbrev signed : Text
signed = bytes "hashstagesig"

signature_answered_example :
    (c1 : Coordinator) × (handle_offline_output {E = Failure} completed (with_no_effects created)
      ≡ done tt c1)
    × (c1.effects ≡ signing_effects completed (bytes "hash") 0)
    × ((deliver
          (started (Signer.new completed.input (task_of completed (bytes "hash"))))
          signatures).sent
        ≡ own_partial (task_of completed (bytes "hash"))
          ++ (result (output_of completed signed) ∷ []))
    × (c2 : Coordinator) × (handle_sign_output {E = Failure}
          (output_of completed signed)
          (with_no_effects c1)
        ≡ done tt c2)
    × (check_result
          (bytes "r")
          (saved_twice (leave (leave (idle [] created []) c1) c2)).api.results_db
        ≡ ok (response (bytes "r") (signature_text signed) RequestType.sign RequestStatus.done))
unfolding foreign complete
signature_answered_example =
    signature_answered map_sled_laws response_laws reliable completed (bytes "hash") signatures
      signed [] created [] refl (omega arith) (omega arith) (omega arith) refl

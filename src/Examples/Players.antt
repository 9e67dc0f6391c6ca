-- ===== src/Examples/Players.antt =====
-- A player at a concrete input.
use mpc_server.Common.{
  ℕ, ◌≡◌, ◌≤◌, refl, Bool, true, false, [], ◌∷◌, Option, some, none, Result, ok, err, Text, bytes,
  length,
}
use mpc_server.External.RoundBased.{Msg, StateMachine}
use mpc_server.Messages.{IncomingMessage}
use mpc_server.Player.{MpcPlayer, new}
use mpc_server.Player.Preserves.{message, timer, run}
use mpc_server.Player.Single.{outputs, IsSingleUse, outputs-run}
use mpc_server.Player.Trace.{IsLater, run-IsLater}
use mpc_server.Examples.Instances.{counting_machine}
use mpc_server.Examples.Inputs.{room, from_bob, broadcast_text}

abbrev player : MpcPlayer Text ℕ Text ℕ Text
player = new (bytes "input") room 1 0

abbrev hello : IncomingMessage (Msg Text)
hello = record {
  room = room;
  wire_message = from_bob broadcast_text;
  message = record { sender = 2; receiver = none; body = bytes "hello" };
}

run-IsLater_example :
    IsLater player
      (run counting_machine (λ m. some m.body) (timer 0 ∷ message 5 hello ∷ timer 9 ∷ []) player)
run-IsLater_example =
    run-IsLater counting_machine (λ m. some m.body) (timer 0 ∷ message 5 hello ∷ timer 9 ∷ [])
      player

-- A machine that is done after one message.
data Stage : Type 0 where
  collecting finished gone : Stage

abbrev incoming_stage : Stage → Stage
incoming_stage collecting = finished
incoming_stage finished = finished
incoming_stage gone = gone

abbrev is_finished_stage : Stage → Bool
is_finished_stage collecting = false
is_finished_stage finished = true
is_finished_stage gone = false

abbrev pick : Stage → Option (Result ℕ Text) × Stage
pick collecting = (none, collecting)
pick finished = (some (ok (bytes "key")), gone)
pick gone = (some (err 0), gone)

abbrev one_message : StateMachine Stage Text ℕ Text
one_message = record {
  handle_incoming = λ s m. (ok tt, incoming_stage s);
  wants_to_proceed = λ s. false;
  proceed = λ s. (ok tt, s);
  message_queue = λ s. [];
  drained = λ s. s;
  is_finished = is_finished_stage;
  pick_output = pick;
  current_round = λ s. 0;
  round_timeout = λ s. none;
}

picked_gone : (s : Stage) (o : Text) → (pick s).0 ≡ some (ok o) → (pick s).1 ≡ gone
picked_gone collecting o e = absurd (cc e)
picked_gone finished o e = refl
picked_gone gone o e = absurd (cc e)

single_use : IsSingleUse one_message
single_use = record {
  Spent = λ s. s ≡ gone;
  picked = picked_gone;
  over = λ s e. rw e refl;
  takes = λ s m e. rw e refl;
  proceeds = λ s e. e;
  drains = λ s e. e;
}

outputs-run_example :
    length (
      outputs
        (run one_message
          (λ m. some m.body)
          (timer 0 ∷ message 5 hello ∷ message 6 hello ∷ [])
          (new (bytes "input") room 1 collecting)).sent)
    ≤ 1
outputs-run_example =
    outputs-run one_message (λ m. some m.body) single_use
      (timer 0 ∷ message 5 hello ∷ message 6 hello ∷ []) (bytes "input") room 1 collecting

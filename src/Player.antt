-- ===== src/Player.antt =====
-- src/actors/player.rs: an actor that drives one state machine. `sent` lists what has left it, in
-- order; time is an argument. Logging is left out.
pub mod Preserves
pub mod Trace
pub mod Single
use mpc_server.Common.{
  ℕ, ◌+◌, ◌%◌, Bool, true, false, not, Option, none, some, List, [], ◌∷◌, ◌++◌, Result, ok, err,
  Text, if◌then◌else◌, ◌==◌,
}
use mpc_server.External.RoundBased.{Msg, StateMachine}
use mpc_server.Messages.{IncomingMessage, ProtocolError, ProtocolOutput}
use mpc_server.Proto.{CoreMessage}

-- The sends to the coordinator, and the timer that sends `MaybeProceed` again (in milliseconds).
pub data Sent (I M E O : Type 0) : Type 0 where
  error : ProtocolError E (IncomingMessage (Msg M)) → Sent I M E O
  outgoing : CoreMessage → Sent I M E O
  result : ProtocolOutput I O → Sent I M E O
  maybe_proceed_later : ℕ → Sent I M E O

pub record MpcPlayer (I SM M E O : Type 0) : Type 0 where
  pub input : I
  pub room : Text
  pub index : ℕ
  pub msg_count : ℕ
  pub state : SM
  pub deadline : Option ℕ
  pub current_round : Option ℕ
  pub sent : List (Sent I M E O)

-- `MpcPlayer::new`
unfoldable pub new : {I SM M E O : Type 0} → I → Text → ℕ → SM → MpcPlayer I SM M E O
new input room index state = record {
  input = input;
  room = room;
  index = index;
  msg_count = 0;
  state = state;
  deadline = none;
  current_round = none;
  sent = [];
}

abbrev pub is_round : Option ℕ → ℕ → Bool
is_round none n = false
is_round (some r) n = r == n

-- `Some(i) if i != self.index` is not a valid receiver.
abbrev pub valid_receiver : Option ℕ → ℕ → Bool
valid_receiver none index = true
valid_receiver (some i) index = i == index

abbrev pub deadline_of : ℕ → Option ℕ → Option ℕ
deadline_of now none = none
deadline_of now (some timeout) = some (now + timeout)

module _ {I SM M E O : Type 0} (machine : StateMachine SM M E O) (write : Msg M → Option Text) where
  open machine use {
    handle_incoming as machine_incoming, wants_to_proceed, proceed, message_queue, drained,
    is_finished, pick_output, round_timeout, current_round as machine_round,
  }

  abbrev pub send : Sent I M E O → MpcPlayer I SM M E O → MpcPlayer I SM M E O
  send e p = record p { sent = p.sent ++ (e ∷ []) }

  -- `send_error`
  abbrev pub send_error : E → IncomingMessage (Msg M) → MpcPlayer I SM M E O → MpcPlayer I SM M E O
  send_error e msg p = send (error (record { room = p.room; error = e; message = msg })) p

  unfoldable pub after_incoming :
      Result E (Unit {0}) → IncomingMessage (Msg M) → MpcPlayer I SM M E O → MpcPlayer I SM M E O
  after_incoming (ok _) msg p = p
  after_incoming (err e) msg p = send_error e msg p

  -- `handle_incoming`
  unfoldable pub handle_incoming :
      IncomingMessage (Msg M) → MpcPlayer I SM M E O → MpcPlayer I SM M E O
  unfolding after_incoming
  handle_incoming msg p =
      let (r, state) = machine_incoming p.state msg.message in
      after_incoming r msg (record p { state = state })

  -- `proceed_if_needed`
  unfoldable pub proceed_if_needed :
      MpcPlayer I SM M E O → Result E (Unit {0}) × MpcPlayer I SM M E O
  proceed_if_needed p =
      if wants_to_proceed p.state
      then (let (r, state) = proceed p.state in (r, record p { state = state }))
      else (ok tt, p)

  -- The messages of the queue that can be written, for the room.
  unfoldable pub outgoings : Text → List (Msg M) → List (Sent I M E O)
  outgoings room [] = []
  outgoings room (m ∷ ms) = elim (write m) [
    | none ↦ outgoings room ms
    | some serialized ↦ outgoing (record { room = room; message = serialized }) ∷ outgoings room ms
  ]

  -- `send_outgoing`
  unfoldable pub send_outgoing : MpcPlayer I SM M E O → MpcPlayer I SM M E O
  send_outgoing p = record p {
    sent = p.sent ++ outgoings p.room (message_queue p.state);
    state = drained p.state;
  }

  unfoldable pub finish_with : Option (Result E O) → MpcPlayer I SM M E O → MpcPlayer I SM M E O
  finish_with none p = p
  finish_with (some (err e)) p = p
  finish_with (some (ok output)) p = send (result (record { input = p.input; output = output })) p

  -- `finish_if_possible`; its error is thrown away by its caller.
  unfoldable pub finish_if_possible : MpcPlayer I SM M E O → MpcPlayer I SM M E O
  unfolding finish_with
  finish_if_possible p =
      if is_finished p.state
      then (let (o, state) = pick_output p.state in finish_with o (record p { state = state }))
      else p

  -- `refresh_timer`
  unfoldable pub refresh_timer : ℕ → MpcPlayer I SM M E O → MpcPlayer I SM M E O
  refresh_timer now p =
      let round_n = machine_round p.state in
      if is_round p.current_round round_n then p else record p {
        current_round = some round_n;
        deadline = deadline_of now (round_timeout p.state);
      }

  unfoldable pub after_proceed :
      ℕ → Result E (Unit {0}) → MpcPlayer I SM M E O → Result E (Unit {0}) × MpcPlayer I SM M E O
  after_proceed now (err e) p = (err e, p)
  after_proceed now (ok _) p = (ok tt, finish_if_possible (refresh_timer now (send_outgoing p)))

  -- `maybe_proceed`
  unfoldable pub maybe_proceed :
      ℕ → MpcPlayer I SM M E O → Result E (Unit {0}) × MpcPlayer I SM M E O
  unfolding after_proceed
  maybe_proceed now p =
      let (r, p') = proceed_if_needed (refresh_timer now (send_outgoing p)) in
      after_proceed now r p'

  unfoldable pub report :
      Result E (Unit {0}) × MpcPlayer I SM M E O → IncomingMessage (Msg M) → MpcPlayer I SM M E O
  report (ok _, p) msg = p
  report (err e, p) msg = send_error e msg p

  -- `Handler<IncomingMessage>`; the count is a u16.
  unfoldable pub handle : ℕ → IncomingMessage (Msg M) → MpcPlayer I SM M E O → MpcPlayer I SM M E O
  unfolding report
  handle now msg p =
      if msg.message.sender == p.index
      then p
      else if not (valid_receiver msg.message.receiver p.index)
      then p
      else report
          (maybe_proceed now
            (handle_incoming msg (record p { msg_count = (p.msg_count + 1) % 65536 })))
          msg

  -- `Handler<MaybeProceed>`, which `started` sends first.
  pub handle_maybe_proceed : ℕ → MpcPlayer I SM M E O → MpcPlayer I SM M E O
  handle_maybe_proceed now p =
      if p.msg_count == 0 then send (maybe_proceed_later 250) (maybe_proceed now p).1 else p
